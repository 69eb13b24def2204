-- ===== src/Multipart.antt =====
-- crates/detritus-protocol/src/multipart.rs: how a crash envelope becomes the body of a request, and
-- back. Whoever takes the bytes is a `Writer`; the parser and serde are parameters.
pub mod Format
pub mod Reader
pub mod RoundTrip
use rs_detritus.Common.{
  ℕ, suc, Str, Bool, true, false, Option, none, some, List, [], ◌∷◌, ◌++◌, bytes, nat_eqb, nat_eq,
  list_eq, ◌==◌, if◌then◌else◌, get_elem?, Result, ok, err, panic, and_then, map_err, ok_or, Action,
  pure, throw, lift, ◌>>=◌, ◌>>◌, strip_prefix,
}
use rs_detritus.Storage.{IoError}
use rs_detritus.Protocol.{CrashMetadata, CrashEnvelope, CrashAttachment, protocol_version}
use rs_detritus.Multer.{Field, Part, part, broken_part, part_bytes}

abbrev pub default_boundary : Str
default_boundary = bytes "detritus-boundary-v1"

abbrev pub crlf : Str
crlf = 13 ∷ 10 ∷ []

pub data ProtocolError : Type 0 where
  json multipart : ProtocolError
  io : IoError → ProtocolError
  missing_part : Str → ProtocolError
  invalid_part_name : ProtocolError
  invalid_multipart : Str → ProtocolError

pub record PartEncoding : Type 0 where
  pub content_encoding : Option Str

pub record EnvelopeEncodings : Type 0 where
  pub dump : PartEncoding
  pub attachments : List PartEncoding

-- `EnvelopeEncodings::none`
unfoldable pub no_encodings : EnvelopeEncodings
no_encodings = record { dump = record { content_encoding = none }; attachments = [] }

-- An `AsyncWrite` with the state `W`.
pub record Writer (W : Type 0) : Type 0 where
  pub write_all : Str → Action W IoError (Unit {0})
  pub flush : Action W IoError (Unit {0})

-- A `Vec<u8>`.
abbrev pub buffer : Writer Str
buffer = record { write_all = λ b w. (ok tt, w ++ b); flush = pure tt }

unfoldable pub encoding_header : Option Str → Str
encoding_header none = []
encoding_header (some encoding) = bytes "Content-Encoding: " ++ encoding ++ crlf

-- `encodings.attachments.get(idx)`: none past the end of the list.
abbrev pub encoding_at : List PartEncoding → ℕ → Option Str
encoding_at encodings idx = elim (get_elem? encodings idx) [
  | none ↦ none
  | some e ↦ e.content_encoding
]

module _ {W : Type 0} (writer : Writer W) where
  unfoldable pub emit : Str → Action W ProtocolError (Unit {0})
  emit b w = let (r, w') = writer.write_all b w in (map_err io r, w')

  unfoldable pub settle : Action W ProtocolError (Unit {0})
  settle w = let (r, w') = writer.flush w in (map_err io r, w')

  unfoldable pub write_part : Str → Str → Str → Option Str → Str → Action W ProtocolError (Unit {0})
  write_part boundary name content_type content_encoding contents = do
    emit (bytes "--" ++ boundary ++ crlf)
    emit (
        bytes "Content-Disposition: form-data; name=\""
        ++ name
        ++ bytes "\""
        ++ crlf
        ++ bytes "Content-Type: "
        ++ content_type
        ++ crlf
        ++ encoding_header content_encoding
        ++ crlf)
    emit contents
    emit crlf

  -- The loop over the attachments, from the index `idx` on.
  unfoldable pub write_attachments :
      Str → List PartEncoding → ℕ → List CrashAttachment → Action W ProtocolError (Unit {0})
  write_attachments boundary encodings idx [] = pure tt
  write_attachments boundary encodings idx (attachment ∷ rest) = do
    write_part boundary (bytes "attach:" ++ attachment.key) attachment.content_type
        (encoding_at encodings idx) attachment.bytes
    write_attachments boundary encodings (suc idx) rest

  module _ {J : Type 0} (encode_metadata : CrashMetadata J → Option Str) where
    unfoldable pub write_to_with_boundary_and_encodings :
        CrashEnvelope J → Str → EnvelopeEncodings → Action W ProtocolError (Unit {0})
    write_to_with_boundary_and_encodings envelope boundary encodings = do
      metadata ← lift (ok_or json (encode_metadata envelope.metadata))
      write_part boundary (bytes "metadata") (bytes "application/json") none metadata
      write_part boundary (bytes "dump") (bytes "application/octet-stream")
          encodings.dump.content_encoding envelope.dump
      write_attachments boundary encodings.attachments 0 envelope.attachments
      emit (bytes "--" ++ boundary ++ bytes "--" ++ crlf)
      settle

    unfoldable pub write_to_with_boundary :
        CrashEnvelope J → Str → Action W ProtocolError (Unit {0})
    write_to_with_boundary envelope boundary =
        write_to_with_boundary_and_encodings envelope boundary no_encodings

    unfoldable pub write_to : CrashEnvelope J → Action W ProtocolError (Unit {0})
    write_to envelope = write_to_with_boundary envelope default_boundary

module _ {J : Type 0} (parse_metadata : Str → Option (CrashMetadata J)) where
  -- What the loop of the reader has found.
  pub record Found : Type 0 where
    pub metadata : Option (CrashMetadata J)
    pub dump : Option Str
    pub attachments : List CrashAttachment

  take_attachment : Str → Str → Str → Found → Option Str → Result ProtocolError Found
  take_attachment name content_type contents found none = err (invalid_multipart name)
  take_attachment name content_type contents found (some key) = ok (record found {
    attachments =
        found.attachments
        ++ (record { key = key; content_type = content_type; bytes = contents } ∷ []);
  })

  -- The `match` on the name.
  take_field : Str → Str → Str → Found → Result ProtocolError Found
  take_field name content_type contents found =
      if name == bytes "metadata"
      then and_then (ok_or json (parse_metadata contents))
          (λ metadata. ok (record found { metadata = some metadata }))
      else if name == bytes "dump"
      then ok (record found { dump = some contents })
      else take_attachment name content_type contents found (strip_prefix (bytes "attach:") name)

  content_type_or_default : Option Str → Str
  content_type_or_default none = bytes "application/octet-stream"
  content_type_or_default (some t) = t

  -- The body of the loop.
  unfoldable pub read_field : Field → Found → Result ProtocolError Found
  unfolding take_attachment take_field content_type_or_default
  read_field field found = and_then (ok_or invalid_part_name field.name) λ name.
      and_then (ok_or multipart (part_bytes field.chunks))
        λ contents. take_field name (content_type_or_default field.content_type) contents found

  unfoldable pub read_fields : List Part → Found → Result ProtocolError Found
  read_fields [] found = ok found
  read_fields (broken_part ∷ ps) found = err multipart
  read_fields (part field ∷ ps) found = and_then (read_field field found) (read_fields ps)

  -- `format!` of the two numbers, in the error of a version that differs
  module _ (describe_versions : ℕ → ℕ → Str) where
    check_version : CrashMetadata J → Result ProtocolError (CrashMetadata J)
    check_version metadata =
        if nat_eqb metadata.schema_version protocol_version
        then ok metadata
        else err (invalid_multipart (describe_versions metadata.schema_version protocol_version))

    -- Behind the loop.
    unfoldable pub close_envelope : Found → Result ProtocolError (CrashEnvelope J)
    unfolding check_version
    close_envelope found =
        and_then (ok_or (missing_part (bytes "metadata")) found.metadata) λ metadata.
          and_then (check_version metadata) λ checked.
            and_then (ok_or (missing_part (bytes "dump")) found.dump) λ dump.
              ok (record { metadata = checked; dump = dump; attachments = found.attachments })

    -- `read_from_with_boundary`, of what the reader gives up to its end.
    unfoldable pub read_from_with_boundary :
        (Str → Str → List Part) → Result IoError Str → Str → Result ProtocolError (CrashEnvelope J)
    read_from_with_boundary parts reader boundary = and_then (map_err io reader) λ body.
        and_then
          (read_fields (parts boundary body)
            (record { metadata = none; dump = none; attachments = [] }))
          close_envelope

    unfoldable pub read_from :
        (Str → Str → List Part) → Result IoError Str → Result ProtocolError (CrashEnvelope J)
    read_from parts reader = read_from_with_boundary parts reader default_boundary
