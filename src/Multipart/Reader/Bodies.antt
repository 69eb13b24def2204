-- ===== src/Multipart/Reader/Bodies.antt =====
-- What a reader finds in the body of a sender.
use mathlib.Core.List.{append_assoc}
use rs_detritus.Common.{
  Str, true, Option, none, some, List, [], ◌∷◌, ◌++◌, bytes, ok, ◌≡◌, refl, ◌∙◌, ap, All,
  strip_prefix, strip_prefix-append, starts_with,
}
use rs_detritus.Protocol.{CrashMetadata, CrashEnvelope}
use rs_detritus.Multipart.{crlf, buffer, EnvelopeEncodings, write_to_with_boundary_and_encodings}
use rs_detritus.Multipart.Format.{
  Form, header_line, headers, part_text, parts_text, closing, multipart_body, envelope_forms,
  write_to_with_boundary_and_encodings-buffer,
}
use rs_detritus.Multipart.Reader.{
  pieces, push_first, is_clear, header, form_of, quoted, text_before, read_head, read_form,
  join_forms, read_pieces, delimiter, behind_preamble, read_body,
}
use rs_detritus.Multipart.Reader.Splitting.{pieces-clear, pieces-last, split_at-clear}

abbrev pub disposition_line : Str → Str
disposition_line name = bytes "Content-Disposition: form-data; name=\"" ++ (name ++ bytes "\"")

abbrev pub type_line : Str → Str
type_line content_type = bytes "Content-Type: " ++ content_type

abbrev pub encoding_line : Str → Str
encoding_line encoding = bytes "Content-Encoding: " ++ encoding

abbrev later_lines : Str → Option Str → Str
later_lines content_type none = type_line content_type
later_lines content_type (some e) = type_line content_type ++ (crlf ++ encoding_line e)

-- The header lines of a part, without the end of the last.
abbrev pub head : Form → Str
head f = disposition_line f.name ++ (crlf ++ later_lines f.content_type f.content_encoding)

-- A part between the delimiters.
abbrev pub inside : Form → Str
inside f = crlf ++ (head f ++ ((crlf ++ crlf) ++ f.contents))

abbrev IsLine : Option Str → Type 0
IsLine none = Unit
IsLine (some e) = is_clear crlf (encoding_line e) ≡ true

-- What RFC 7578 asks of a part: the delimiter stands nowhere in it, its headers are one line each, and
-- its name has no quote.
pub record IsSendable (boundary : Str) (f : Form) : Type 0 where
  pub apart : is_clear (delimiter boundary) (inside f) ≡ true
  pub one_head : is_clear (crlf ++ crlf) (head f) ≡ true
  pub one_disposition : is_clear crlf (disposition_line f.name) ≡ true
  pub one_type : is_clear crlf (type_line f.content_type) ≡ true
  pub one_encoding : IsLine f.content_encoding
  pub unquoted : is_clear (bytes "\"") f.name ≡ true

-- The lines of a head.
abbrev lines_of : Str → Option Str → List Str
lines_of content_type none = type_line content_type ∷ []
lines_of content_type (some e) = type_line content_type ∷ encoding_line e ∷ []

pieces-later_lines :
    (content_type : Str) (encoding : Option Str)
    → is_clear crlf (type_line content_type) ≡ true
    → IsLine encoding
    → pieces crlf 0 (later_lines content_type encoding) ≡ lines_of content_type encoding
pieces-later_lines content_type none h k = pieces-last 13 (10 ∷ []) (type_line content_type) h
pieces-later_lines content_type (some e) h k =
    pieces-clear 13 (10 ∷ []) (type_line content_type) (encoding_line e) h
    ∙ ap (◌∷◌ (type_line content_type)) (pieces-last 13 (10 ∷ []) (encoding_line e) k)

form_of_lines :
    (name content_type : Str) (encoding : Option Str) (contents : Str)
    → is_clear (bytes "\"") name ≡ true
    → (let lines = disposition_line name ∷ lines_of content_type encoding in
        form_of lines contents
          (quoted (header (bytes "Content-Disposition: form-data; name=\"") lines))
          (header (bytes "Content-Type: ") lines))
      ≡ some (record {
        name = name;
        content_type = content_type;
        content_encoding = encoding;
        contents = contents;
      })
unfolding form_of quoted text_before header bytes strip_prefix
form_of_lines name content_type none contents h =
    ap
      (λ o.
        form_of (disposition_line name ∷ lines_of content_type none) contents (text_before o)
          (some content_type))
      (split_at-clear 34 [] name [] h)
form_of_lines name content_type (some e) contents h =
    ap
      (λ o.
        form_of (disposition_line name ∷ lines_of content_type (some e)) contents (text_before o)
          (some content_type))
      (split_at-clear 34 [] name [] h)

read_form-head :
    (boundary : Str) (f : Form)
    → IsSendable boundary f
    → read_form (strip_prefix crlf (inside f)) ≡ some f
unfolding read_form read_head
read_form-head boundary f h =
    let body = head f ++ ((crlf ++ crlf) ++ f.contents) in
    let lines = disposition_line f.name ∷ lines_of f.content_type f.content_encoding in
    ap read_form (strip_prefix-append crlf body)
    ∙ ap read_head (split_at-clear 13 (10 ∷ 13 ∷ 10 ∷ []) (head f) f.contents h.one_head)
    ∙ ap
        (λ ls.
          form_of ls f.contents
            (quoted (header (bytes "Content-Disposition: form-data; name=\"") ls))
            (header (bytes "Content-Type: ") ls))
        (pieces-clear 13 (10 ∷ []) (disposition_line f.name)
            (later_lines f.content_type f.content_encoding) h.one_disposition
          ∙ ap (◌∷◌ (disposition_line f.name))
              (pieces-later_lines f.content_type f.content_encoding h.one_type h.one_encoding))
    ∙ form_of_lines f.name f.content_type f.content_encoding f.contents h.unquoted

-- The parts and the close of a body.
abbrev tail : Str → List Form → Str
tail boundary fs = parts_text boundary fs ++ closing boundary

part_text-inside :
    (boundary name content_type : Str) (encoding : Option Str) (contents rest : Str)
    → (let f : Form = record {
      name = name;
      content_type = content_type;
      content_encoding = encoding;
      contents = contents;
    } in
        crlf ++ (part_text boundary f ++ rest) ≡ delimiter boundary ++ (inside f ++ (crlf ++ rest)))
unfolding part_text headers header_line bytes
part_text-inside boundary name content_type none contents rest = simp append_assoc
part_text-inside boundary name content_type (some e) contents rest = simp append_assoc

tail-part :
    (boundary : Str) (f : Form) (fs : List Form)
    → crlf ++ tail boundary (f ∷ fs)
      ≡ delimiter boundary ++ (inside f ++ (crlf ++ tail boundary fs))
unfolding parts_text
tail-part boundary f fs =
    ap (λ s. crlf ++ s)
      (append_assoc (part_text boundary f) (parts_text boundary fs) (closing boundary))
    ∙ part_text-inside boundary f.name f.content_type f.content_encoding f.contents
        (tail boundary fs)

-- Behind a delimiter the parts follow.
read_pieces-tail :
    (boundary : Str) (fs : List Form)
    → All (IsSendable boundary) fs
    → (r : Str) × (crlf ++ tail boundary fs ≡ delimiter boundary ++ r)
      × (read_pieces (pieces (delimiter boundary) 0 r) ≡ some fs)
unfolding parts_text closing read_pieces pieces push_first bytes starts_with join_forms
read_pieces-tail boundary [] h = (bytes "--" ++ crlf, simp append_assoc, refl)
read_pieces-tail boundary (f ∷ fs) h =
    let (r, e, found) = read_pieces-tail boundary fs h.1 in
    (
      inside f ++ (delimiter boundary ++ r),
      tail-part boundary f fs ∙ ap (λ s. delimiter boundary ++ (inside f ++ s)) e,
      ap read_pieces (pieces-clear 13 (10 ∷ (bytes "--" ++ boundary)) (inside f) r h.0.apart)
          ∙ ap (λ o. join_forms o (read_pieces (pieces (delimiter boundary) 0 r)))
              (read_form-head boundary f h.0)
          ∙ ap (join_forms (some f)) found,
    )

pub read_body-multipart_body :
    (boundary : Str) (fs : List Form)
    → All (IsSendable boundary) fs
    → read_body boundary (multipart_body boundary fs) ≡ some fs
unfolding read_body multipart_body behind_preamble is_clear
read_body-multipart_body boundary fs h =
    let (r, e, found) = read_pieces-tail boundary fs h in
    ap (λ s. behind_preamble (pieces (delimiter boundary) 0 s)) e
    ∙ ap behind_preamble (pieces-clear 13 (10 ∷ (bytes "--" ++ boundary)) [] r refl)
    ∙ found

module _ {J : Type 0} (encode_metadata : CrashMetadata J → Option Str) where
  -- Where the metadata serializes, the delimiter stands in no part, each header is one line and the
  -- names have no quotes: writing an envelope into an empty buffer succeeds, and a reader that follows
  -- RFC 7578 finds in the buffer the metadata, the dump and the attachments in their order, each with
  -- its name, its content type, its bytes and the encoding that is given for it, and nothing else.
  pub read_body-write_to :
      (envelope : CrashEnvelope J) (boundary : Str) (encodings : EnvelopeEncodings) (metadata : Str)
      → encode_metadata envelope.metadata ≡ some metadata
      → All (IsSendable boundary) (envelope_forms envelope encodings metadata)
      → (body : Str) × (write_to_with_boundary_and_encodings buffer encode_metadata envelope
            boundary encodings []
          ≡ (ok tt, body))
        × (read_body boundary body ≡ some (envelope_forms envelope encodings metadata))
  read_body-write_to envelope boundary encodings metadata e h = (
    multipart_body boundary (envelope_forms envelope encodings metadata),
    write_to_with_boundary_and_encodings-buffer encode_metadata envelope boundary encodings []
        metadata e,
    read_body-multipart_body boundary (envelope_forms envelope encodings metadata) h,
  )
