-- ===== src/Crashes/Handler/Opening.antt =====
-- The two ends of an upload together: what the server opens of the body that the client writes.
use mathlib.Core.List.{append_assoc, append-nil}
use rs_detritus.Common.{
  Str, Option, none, some, List, [], ◌∷◌, ◌++◌, ◌+◌, ◌≤◌, ◌<◌, length, length-append, ltb, leb,
  false, bytes, ok, err, ◌≡◌, refl, ◌∙◌, ap, arith, inl, inr, ◌⊎◌, Bool-cases, list_beq,
}
use rs_detritus.Protocol.{CrashMetadata, CrashEnvelope, protocol_version}
use rs_detritus.Multer.{Chunk, data_chunk, broken_chunk, Part, part, broken_part, part_bytes}
use rs_detritus.Multipart.{EnvelopeEncodings, buffer, write_to_with_boundary_and_encodings}
use rs_detritus.Multipart.Format.{
  Form, multipart_body, dump_form, attachment_forms, envelope_forms,
  write_to_with_boundary_and_encodings-buffer,
}
use rs_detritus.Multipart.RoundTrip.{AreReceived}
use rs_detritus.Crashes.{Libraries, payload_too_large, metadata_max_bytes}
use rs_detritus.Crashes.Handler.{Upload, read_chunks, read_metadata, open_upload}

-- What a part that arrives whole holds behind its first chunk.
prepended :
    (b content : Str) (o : Option Str)
    → elim o [ none ↦ none | some r ↦ some (b ++ r) ] ≡ some content
    → (rest : Str) × (o ≡ some rest) × (content ≡ b ++ rest)
prepended b content none e = cc e
prepended b content (some rest) e = (rest, refl, cc e)

module _ (L : Libraries) where
  pub read_chunks-small :
      (cs : List Chunk) (seen content : Str)
      → part_bytes cs ≡ some content
      → length seen + length content ≤ metadata_max_bytes
      → read_chunks L cs seen ≡ ok (seen ++ content)
  unfolding read_chunks
  read_chunks-small [] seen content e le =
      let empty : content ≡ [] = cc e in rw (empty, append-nil seen) refl
  read_chunks-small (broken_chunk ∷ cs) seen content e le = cc e
  read_chunks-small (data_chunk b ∷ cs) seen content e le =
      let (rest, w, c) = prepended b content (part_bytes cs) e in
      let sizes = length-append {0} b rest in
      let total : length content ≡ length b + length rest = ap length c ∙ sizes in
      let fits : ltb metadata_max_bytes (length seen + length b) ≡ false = ground arith in
      rw
        (
          fits,
          read_chunks-small cs (seen ++ b) rest w (omega (arith, length-append {0} seen b)),
          append_assoc seen b rest,
          c,
        )
        refl

  pub read_chunks-large :
      (cs : List Chunk) (seen content : Str)
      → part_bytes cs ≡ some content
      → length seen ≤ metadata_max_bytes
      → metadata_max_bytes < length seen + length content
      → read_chunks L cs seen ≡ err (payload_too_large metadata_max_bytes)
  unfolding read_chunks
  read_chunks-large [] seen content e small large =
      let empty : length content ≡ 0 = ap length {y = []} (cc e) in absurd (omega arith)
  read_chunks-large (broken_chunk ∷ cs) seen content e small large = cc e
  read_chunks-large (data_chunk b ∷ cs) seen content e small large =
      let (rest, w, c) = prepended b content (part_bytes cs) e in
      let total : length content ≡ length b + length rest =
        ap length c ∙ length-append {0} b rest in
      elim (Bool-cases (ltb metadata_max_bytes (length seen + length b))) [
        | inl over ↦ rw over refl
        | inr under ↦
            rw
              (
                under,
                read_chunks-large cs (seen ++ b) rest w (ground (arith, length-append {0} seen b))
                    (omega (arith, length-append {0} seen b)),
              )
              refl
      ]

  module _ (envelope : CrashEnvelope L.Json) (encodings : EnvelopeEncodings) (metadata : Str) where
    -- What follows the metadata in an upload.
    abbrev rest_forms : List Form
    rest_forms =
        dump_form encodings.dump.content_encoding envelope.dump
        ∷ attachment_forms encodings.attachments 0 envelope.attachments

    -- The metadata and the parts behind it, unless the metadata is too long.
    abbrev pub IsOpened : Upload → Type 0
    IsOpened u =
        ((length metadata ≤ metadata_max_bytes)
          × ((rest : List Part) × (open_upload L u ≡ ok (envelope.metadata, rest))
              × AreReceived rest_forms rest))
        ⊎ ((metadata_max_bytes < length metadata)
            × (open_upload L u ≡ err (payload_too_large metadata_max_bytes)))

    module _ (content_type boundary body : Str)
        (known_boundary : L.parse_boundary content_type ≡ some boundary)
        (reads_back : L.parse_metadata metadata ≡ some envelope.metadata)
        (current : envelope.metadata.schema_version ≡ protocol_version) where
      open_parts :
          (ps : List Part)
          → L.parts boundary body ≡ ps
          → AreReceived (envelope_forms envelope encodings metadata) ps
          → IsOpened (record { content_type = some (some content_type); body = body })
      unfolding open_upload read_metadata envelope_forms bytes list_beq
      open_parts (part field ∷ ps) e h =
          elim (Bool-cases (leb (length metadata) metadata_max_bytes)) [
            | inl small ↦ inl (
              ground arith,
              (
                ps,
                rw
                    (
                      known_boundary,
                      e,
                      h.0.name,
                      read_chunks-small field.chunks [] metadata h.0.whole (ground arith),
                      reads_back,
                      current,
                    )
                    refl,
                h.1,
              ),
            )
            | inr large ↦ inr (
              ground arith,
              rw
                  (
                    known_boundary,
                    e,
                    h.0.name,
                    read_chunks-large field.chunks [] metadata h.0.whole (omega arith)
                        (ground arith),
                  )
                  refl,
            )
          ]
      open_parts [] e h = absurd h
      open_parts (broken_part ∷ ps) e h = absurd h

  -- With a parser that gives back the parts of the body that is written, and a serde that reads back
  -- the metadata that it wrote: the body that the client writes of an envelope of the current version,
  -- with any encodings, opens on the server to the metadata of the envelope and to the parts of its
  -- dump and its attachments in their order, unless the metadata is longer than 64 KiB, and then the
  -- upload is refused as too large.
  pub open_upload-write_to :
      (encode_metadata : CrashMetadata L.Json → Option Str) (envelope : CrashEnvelope L.Json)
      (encodings : EnvelopeEncodings) (metadata content_type boundary : Str)
      → encode_metadata envelope.metadata ≡ some metadata
      → L.parse_metadata metadata ≡ some envelope.metadata
      → envelope.metadata.schema_version ≡ protocol_version
      → L.parse_boundary content_type ≡ some boundary
      → AreReceived
          (envelope_forms envelope encodings metadata)
          (L.parts boundary (multipart_body boundary (envelope_forms envelope encodings metadata)))
      → (body : Str) × (write_to_with_boundary_and_encodings buffer encode_metadata envelope
            boundary encodings []
          ≡ (ok tt, body))
        × IsOpened envelope encodings metadata
            (record { content_type = some (some content_type); body = body })
  open_upload-write_to encode_metadata envelope encodings metadata content_type boundary e p v k h =
      let body = multipart_body boundary (envelope_forms envelope encodings metadata) in
      (
        body,
        write_to_with_boundary_and_encodings-buffer encode_metadata envelope boundary encodings []
            metadata e,
        open_parts envelope encodings metadata content_type boundary body k p v
            (L.parts boundary body) refl h,
      )
