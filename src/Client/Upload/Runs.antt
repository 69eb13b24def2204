-- ===== src/Client/Upload/Runs.antt =====
-- Making the body of a request ends with a body or an error.
use rs_detritus.Common.{
  ℤ, Str, List, [], ◌∷◌, panic, map_err, ◌≡◌, ◌≢◌, inl, inr, Option-cases, Bool-cases,
}
use rs_detritus.Common.Ends.{map_err-runs, and_then-runs}
use rs_detritus.Protocol.{CrashEnvelope, CrashAttachment}
use rs_detritus.Multipart.{
  EnvelopeEncodings, PartEncoding, buffer, write_to_with_boundary_and_encodings, default_boundary,
}
use rs_detritus.Multipart.Format.{
  write_to_with_boundary_and_encodings-buffer, write_to_with_boundary_and_encodings-unserializable,
}
use rs_detritus.Client.{ClientLibraries}
use rs_detritus.Client.Compression.{compress}
use rs_detritus.Client.Upload.{
  ShipConfig, io, protocol, should_compress, compress_attachment, compress_attachments,
  compress_envelope, upload_body,
}

-- `zstd` compresses or reports why not.
pub record ClientLaws (C : ClientLibraries) : Type 0 where
  pub encode_all-runs : (s : Str) (level : ℤ) → C.encode_all s level ≢ panic

module _ (C : ClientLibraries) (laws : ClientLaws C) (config : ShipConfig) where
  compress-runs : (s : Str) → ¬ (map_err io (compress C s config.dump_compression_level) ≡ panic)
  unfolding compress
  compress-runs s = map_err-runs io _ (laws.encode_all-runs s config.dump_compression_level)

  compress_attachment-runs :
      (a : CrashAttachment) (locals : List CrashAttachment) (encodings : List PartEncoding)
      → ¬ (compress_attachment C config a locals encodings ≡ panic)
  unfolding compress_attachment
  compress_attachment-runs a locals encodings = elim (Bool-cases (should_compress config a)) [
    | inl packed ↦ rw packed (and_then-runs _ _ (compress-runs a.bytes) (λ c h. cc h))
    | inr kept ↦ rw kept (λ h. cc h)
  ]

  compress_attachments-runs :
      (attachments locals : List CrashAttachment) (encodings : List PartEncoding)
      → ¬ (compress_attachments C config attachments locals encodings ≡ panic)
  unfolding compress_attachments
  compress_attachments-runs [] locals encodings = λ h. cc h
  compress_attachments-runs (a ∷ rest) locals encodings =
      and_then-runs _ _ (compress_attachment-runs a locals encodings)
        (λ p. compress_attachments-runs rest p.0 p.1)

  write-runs :
      (envelope : CrashEnvelope C.Json) (boundary : Str) (encodings : EnvelopeEncodings)
      → ¬ (
          (write_to_with_boundary_and_encodings buffer C.encode_metadata envelope boundary encodings
            []).0
          ≡ panic)
  write-runs envelope boundary encodings =
      elim (Option-cases (C.encode_metadata envelope.metadata)) [
        | inl e ↦
            rw
              (write_to_with_boundary_and_encodings-unserializable C.encode_metadata envelope
                boundary encodings [] e)
              (λ h. cc h)
        | inr (metadata, e) ↦
            rw
              (write_to_with_boundary_and_encodings-buffer C.encode_metadata envelope boundary
                encodings [] metadata e)
              (λ h. cc h)
      ]

  pub upload_body-runs :
      (envelope : CrashEnvelope C.Json) → ¬ (upload_body C config envelope ≡ panic)
  unfolding upload_body compress_envelope
  upload_body-runs envelope =
      and_then-runs _ _
        (and_then-runs _ _ (compress-runs envelope.dump) (λ dump.
          and_then-runs _ _ (compress_attachments-runs envelope.attachments envelope.attachments [])
            (λ p h. cc h)))
        (λ p.
          and_then-runs _ _ (map_err-runs protocol _ (write-runs p.0 default_boundary p.1))
            (λ u h. cc h))
