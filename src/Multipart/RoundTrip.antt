-- ===== src/Multipart/RoundTrip.antt =====
-- An envelope that is written and read again.
use mathlib.Core.List.{append_assoc, append-nil}
use rs_detritus.Common.{
  ℕ, suc, Str, Option, none, some, List, [], ◌∷◌, ◌++◌, bytes, ok, ◌≡◌, refl, false, ◌==◌, nat_eq,
  list_eq, strip_prefix-append, list_beq, All, Bool, true,
}
use rs_detritus.Protocol.{CrashMetadata, CrashEnvelope, CrashAttachment, protocol_version}
use rs_detritus.Multer.{Field, Part, part, broken_part, part_bytes}
use rs_detritus.Multipart.{
  PartEncoding, EnvelopeEncodings, Found, read_field, read_fields, close_envelope,
  read_from_with_boundary, encoding_at, buffer, write_to_with_boundary_and_encodings,
}
use rs_detritus.Multipart.Format.{
  Form, multipart_body, attachment_form, attachment_forms, envelope_forms,
  write_to_with_boundary_and_encodings-buffer,
}
use rs_detritus.Multipart.Reader.Bodies.{IsSendable}

-- The parser gives back what a sender said of a part; its bytes may come in any number of chunks.
pub record IsReceived (f : Form) (field : Field) : Type 0 where
  pub name : field.name ≡ some f.name
  pub content_type : field.content_type ≡ some f.content_type
  pub content_encoding : field.content_encoding ≡ f.content_encoding
  pub whole : part_bytes field.chunks ≡ some f.contents

abbrev pub AreReceived : List Form → List Part → Type 0
AreReceived [] [] = Unit
AreReceived (f ∷ fs) (part field ∷ ps) = IsReceived f field × AreReceived fs ps
AreReceived _ _ = ⊥

attach_name :
    (k : Str)
    → (bytes "attach:" ++ k == bytes "metadata" ≡ false)
      × (bytes "attach:" ++ k == bytes "dump" ≡ false)
unfolding bytes list_beq
attach_name k = (refl, refl)

module _ {J : Type 0} (parse_metadata : Str → Option (CrashMetadata J)) where
  abbrev found_of :
      Option (CrashMetadata J) → Option Str → List CrashAttachment → Found parse_metadata
  found_of metadata dump attachments = record {
    metadata = metadata;
    dump = dump;
    attachments = attachments;
  }

  read_field-attachment :
      (encoding : Option Str) (a : CrashAttachment) (field : Field) (found : Found parse_metadata)
      → IsReceived (attachment_form encoding a) field
      → read_field parse_metadata field found
        ≡ ok (found_of found.metadata found.dump (found.attachments ++ (a ∷ [])))
  unfolding read_field
  read_field-attachment encoding a field found h = rw (
    h.name,
    h.whole,
    h.content_type,
    (attach_name a.key).0,
    (attach_name a.key).1,
    strip_prefix-append (bytes "attach:") a.key,
  )

  read_fields-attachments :
      (encodings : List PartEncoding) (idx : ℕ) (more : List CrashAttachment) (ps : List Part)
      (found : Found parse_metadata)
      → AreReceived (attachment_forms encodings idx more) ps
      → read_fields parse_metadata ps found
        ≡ ok (found_of found.metadata found.dump (found.attachments ++ more))
  unfolding attachment_forms read_fields
  read_fields-attachments encodings idx [] [] found h = rw (append-nil found.attachments) refl
  read_fields-attachments encodings idx [] (p ∷ ps) found h = absurd h
  read_fields-attachments encodings idx (a ∷ more) (part field ∷ ps) found h =
      let next = found_of found.metadata found.dump (found.attachments ++ (a ∷ [])) in
      rw (
        read_field-attachment (encoding_at encodings idx) a field found h.0,
        read_fields-attachments encodings (suc idx) more ps next h.1,
        append_assoc found.attachments (a ∷ []) more,
      )
  read_fields-attachments encodings idx (a ∷ more) (broken_part ∷ ps) found h = absurd h
  read_fields-attachments encodings idx (a ∷ more) [] found h = absurd h

  -- Behind the loop, of what an envelope sends: the metadata as serde reads it back.
  read_fields-envelope :
      (envelope : CrashEnvelope J) (encodings : EnvelopeEncodings) (metadata : Str) (ps : List Part)
      → parse_metadata metadata ≡ some envelope.metadata
      → AreReceived (envelope_forms envelope encodings metadata) ps
      → read_fields parse_metadata ps (found_of none none [])
        ≡ ok (found_of (some envelope.metadata) (some envelope.dump) envelope.attachments)
  unfolding envelope_forms read_fields read_field bytes list_beq
  read_fields-envelope envelope encodings metadata (part m ∷ part d ∷ ps) e h =
      rw (h.0.name, h.0.whole, e, h.1.0.name, h.1.0.whole)
        (read_fields-attachments encodings.attachments 0 envelope.attachments ps
          (found_of (some envelope.metadata) (some envelope.dump) []) h.1.1)
  read_fields-envelope envelope encodings metadata [] e h = absurd h
  read_fields-envelope envelope encodings metadata (broken_part ∷ ps) e h = absurd h
  read_fields-envelope envelope encodings metadata (part m ∷ []) e h = absurd h.1
  read_fields-envelope envelope encodings metadata (part m ∷ broken_part ∷ ps) e h = absurd h.1

-- A parser of RFC 7578: it gives back the parts of a body, where the delimiter stands in no part, each
-- header is one line and the names have no quotes, and where it takes the name, the content type and
-- the encoding of each part for what they are.
pub record IsParser (is_plain : Form → Bool) (parts : Str → Str → List Part) : Type 0 where
  pub reads :
      (boundary : Str) (fs : List Form)
      → All (IsSendable boundary) fs
      → All (λ f. is_plain f ≡ true) fs
      → AreReceived fs (parts boundary (multipart_body boundary fs))

module _ {J : Type 0} (encode_metadata : CrashMetadata J → Option Str)
    (parse_metadata : Str → Option (CrashMetadata J)) (describe_versions : ℕ → ℕ → Str)
    (is_plain : Form → Bool) (parts : Str → Str → List Part) where
  -- With a parser of RFC 7578 and a serde that reads back the metadata that it wrote: an envelope of
  -- the current version, of which the delimiter stands in no part, each header is one line, the names
  -- have no quotes and the parser takes the headers for what they are, written into an empty buffer
  -- with any encodings, succeeds, and reading the buffer gives the same envelope.
  pub read_from_with_boundary-write_to :
      (envelope : CrashEnvelope J) (boundary : Str) (encodings : EnvelopeEncodings) (metadata : Str)
      → IsParser is_plain parts
      → encode_metadata envelope.metadata ≡ some metadata
      → parse_metadata metadata ≡ some envelope.metadata
      → envelope.metadata.schema_version ≡ protocol_version
      → All (IsSendable boundary) (envelope_forms envelope encodings metadata)
      → All (λ f. is_plain f ≡ true) (envelope_forms envelope encodings metadata)
      → (body : Str) × (write_to_with_boundary_and_encodings buffer encode_metadata envelope
            boundary encodings []
          ≡ (ok tt, body))
        × (read_from_with_boundary parse_metadata describe_versions parts (ok body) boundary
            ≡ ok envelope)
  unfolding read_from_with_boundary close_envelope
  read_from_with_boundary-write_to envelope boundary encodings metadata parser e p v sendable
        plain =
      let forms = envelope_forms envelope encodings metadata in
      (
        multipart_body boundary forms,
        write_to_with_boundary_and_encodings-buffer encode_metadata envelope boundary encodings []
            metadata e,
        rw
            (
              read_fields-envelope parse_metadata envelope encodings metadata _ p
                  (parser.reads boundary forms sendable plain),
              v,
            )
            refl,
      )
