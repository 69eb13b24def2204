-- ===== src/Multipart/Format.antt =====
-- crates/detritus-protocol/src/multipart.rs: the body of a list of parts, as the writer joins them.
use mathlib.Core.List.{append_assoc, append-nil}
use rs_detritus.Common.{
  ℕ, suc, Str, Option, none, some, List, [], ◌∷◌, ◌++◌, bytes, ok, err, ◌≡◌, refl, ap,
}
use rs_detritus.Protocol.{CrashMetadata, CrashEnvelope, CrashAttachment}
use rs_detritus.Multipart.{
  json, buffer, emit, settle, write_part, write_attachments, encoding_header, encoding_at,
  write_to_with_boundary_and_encodings, EnvelopeEncodings, PartEncoding, crlf,
}

-- What a sender says of one part.
pub record Form : Type 0 where
  pub name : Str
  pub content_type : Str
  pub content_encoding : Option Str
  pub contents : Str

-- A header line with its end.
unfoldable pub header_line : Str → Str → Str
header_line name value = name ++ bytes ": " ++ value ++ crlf

unfoldable pub headers : Form → Str
unfolding header_line
headers f =
    header_line (bytes "Content-Disposition") (bytes "form-data; name=\"" ++ f.name ++ bytes "\"")
    ++ header_line (bytes "Content-Type") f.content_type
    ++ elim f.content_encoding [ none ↦ [] | some e ↦ header_line (bytes "Content-Encoding") e ]

-- A part behind its delimiter.
unfoldable pub part_text : Str → Form → Str
unfolding headers
part_text boundary f =
    (bytes "--" ++ boundary ++ crlf) ++ ((headers f ++ crlf) ++ (f.contents ++ crlf))

unfoldable pub parts_text : Str → List Form → Str
parts_text boundary [] = []
parts_text boundary (f ∷ fs) = part_text boundary f ++ parts_text boundary fs

unfoldable pub closing : Str → Str
closing boundary = bytes "--" ++ boundary ++ bytes "--" ++ crlf

-- A body: its parts, and the delimiter that closes it. Where the delimiter stands in no part and the
-- names have no quotes, this is a body of RFC 7578.
unfoldable pub multipart_body : Str → List Form → Str
unfolding parts_text closing
multipart_body boundary fs = parts_text boundary fs ++ closing boundary

-- The parts of an envelope whose metadata reads `metadata` as JSON.
abbrev pub metadata_form : Str → Form
metadata_form metadata = record {
  name = bytes "metadata";
  content_type = bytes "application/json";
  content_encoding = none;
  contents = metadata;
}

abbrev pub dump_form : Option Str → Str → Form
dump_form encoding dump = record {
  name = bytes "dump";
  content_type = bytes "application/octet-stream";
  content_encoding = encoding;
  contents = dump;
}

abbrev pub attachment_form : Option Str → CrashAttachment → Form
attachment_form encoding a = record {
  name = bytes "attach:" ++ a.key;
  content_type = a.content_type;
  content_encoding = encoding;
  contents = a.bytes;
}

unfoldable pub attachment_forms : List PartEncoding → ℕ → List CrashAttachment → List Form
attachment_forms encodings idx [] = []
attachment_forms encodings idx (a ∷ rest) =
    attachment_form (encoding_at encodings idx) a ∷ attachment_forms encodings (suc idx) rest

unfoldable pub envelope_forms : {J : Type 0} → CrashEnvelope J → EnvelopeEncodings → Str → List Form
envelope_forms envelope encodings metadata =
    metadata_form metadata
    ∷ dump_form encodings.dump.content_encoding envelope.dump
    ∷ attachment_forms encodings.attachments 0 envelope.attachments

headers_lem :
    (f : Form)
    → headers f ++ crlf
      ≡ bytes "Content-Disposition: form-data; name=\""
        ++ f.name
        ++ bytes "\""
        ++ crlf
        ++ bytes "Content-Type: "
        ++ f.content_type
        ++ crlf
        ++ encoding_header f.content_encoding
        ++ crlf
unfolding headers header_line encoding_header bytes
headers_lem f = elim f.content_encoding [ none ↦ simp append_assoc | some e ↦ simp append_assoc ]

four_pieces : (w a b c d : Str) → (((w ++ a) ++ b) ++ c) ++ d ≡ w ++ (a ++ (b ++ (c ++ d)))
four_pieces w a b c d = simp append_assoc

five_pieces : (w m d rest c : Str) → (((w ++ m) ++ d) ++ rest) ++ c ≡ w ++ ((m ++ (d ++ rest)) ++ c)
five_pieces w m d rest c = simp append_assoc

write_part-buffer :
    (boundary : Str) (f : Form) (w : Str)
    → write_part buffer boundary f.name f.content_type f.content_encoding f.contents w
      ≡ (ok tt, w ++ part_text boundary f)
unfolding write_part emit part_text
write_part-buffer boundary f w =
    rw (headers_lem f)
      (ap (λ t. (ok tt, t)) (four_pieces w (bytes "--" ++ boundary ++ crlf) _ f.contents crlf))

write_attachments-buffer :
    (boundary : Str) (encodings : List PartEncoding) (idx : ℕ) (rest : List CrashAttachment)
    (w : Str)
    → write_attachments buffer boundary encodings idx rest w
      ≡ (ok tt, w ++ parts_text boundary (attachment_forms encodings idx rest))
unfolding write_attachments attachment_forms parts_text
write_attachments-buffer boundary encodings idx [] w = rw (append-nil w)
write_attachments-buffer boundary encodings idx (a ∷ rest) w =
    let f = attachment_form (encoding_at encodings idx) a in
    rw (
      write_part-buffer boundary f w,
      write_attachments-buffer boundary encodings (suc idx) rest (w ++ part_text boundary f),
      append_assoc w (part_text boundary f)
          (parts_text boundary (attachment_forms encodings (suc idx) rest)),
    )

module _ {J : Type 0} (encode_metadata : CrashMetadata J → Option Str) where
  -- An envelope whose metadata serializes is written into a buffer as the concatenation of its metadata,
  -- its dump and its attachments in their order, each with the encoding that is given for it, behind
  -- what the buffer held.
  pub write_to_with_boundary_and_encodings-buffer :
      (envelope : CrashEnvelope J) (boundary : Str) (encodings : EnvelopeEncodings)
      (w metadata : Str)
      → encode_metadata envelope.metadata ≡ some metadata
      → write_to_with_boundary_and_encodings buffer encode_metadata envelope boundary encodings w
        ≡ (ok tt, w ++ multipart_body boundary (envelope_forms envelope encodings metadata))
  unfolding write_to_with_boundary_and_encodings envelope_forms multipart_body settle emit closing
      parts_text
  write_to_with_boundary_and_encodings-buffer envelope boundary encodings w metadata e =
      let m = metadata_form metadata in
      let d = dump_form encodings.dump.content_encoding envelope.dump in
      let rest = attachment_forms encodings.attachments 0 envelope.attachments in
      rw
        (
          e,
          write_part-buffer boundary m w,
          write_part-buffer boundary d (w ++ part_text boundary m),
          write_attachments-buffer boundary encodings.attachments 0 envelope.attachments
              ((w ++ part_text boundary m) ++ part_text boundary d),
        )
        (ap (λ t. (ok tt, t))
          (five_pieces w (part_text boundary m) (part_text boundary d) (parts_text boundary rest)
            (closing boundary)))

  pub write_to_with_boundary_and_encodings-unserializable :
      (envelope : CrashEnvelope J) (boundary : Str) (encodings : EnvelopeEncodings) (w : Str)
      → encode_metadata envelope.metadata ≡ none
      → write_to_with_boundary_and_encodings buffer encode_metadata envelope boundary encodings w
        ≡ (err json, w)
  unfolding write_to_with_boundary_and_encodings
  write_to_with_boundary_and_encodings-unserializable envelope boundary encodings w e = rw e refl
