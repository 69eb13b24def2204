-- ===== src/Client/Upload/Bodies.antt =====
-- The parts of a compressed upload, with the encodings that go with them, stand for the envelope.
use mathlib.Core.List.{append_assoc, append-nil}
use rs_detritus.Common.{
  ℤ, Str, true, false, Option, none, some, List, [], ◌∷◌, ◌++◌, bytes, ok, ◌≡◌, refl, sym, ap, ◌∙◌,
  inl, inr, nat_eq, list_eq, eq_self, ◌==◌, if◌then◌else◌, Bool-cases, All, All-map, list_beq,
}
use rs_detritus.Protocol.{CrashEnvelope, CrashAttachment}
use rs_detritus.Multipart.{EnvelopeEncodings, PartEncoding}
use rs_detritus.Client.{ClientLibraries}
use rs_detritus.Client.Compression.{compress}
use rs_detritus.Client.Upload.{
  ShipConfig, zstd, plain, should_compress, replace_first, compress_attachment,
  compress_attachments, compress_envelope,
}

abbrev KeyDiffers : CrashAttachment → CrashAttachment → Type 0
KeyDiffers a b = (a.key == b.key) ≡ false

-- No two attachments have one key.
abbrev pub AreDistinct : List CrashAttachment → Type 0
AreDistinct [] = Unit
AreDistinct (a ∷ rest) = All (KeyDiffers a) rest × AreDistinct rest

replace_first-append :
    (key contents : Str) (done : List CrashAttachment) (a : CrashAttachment)
    (rest : List CrashAttachment)
    → (a.key == key) ≡ true
    → All (λ d. (d.key == key) ≡ false) done
    → replace_first key contents (done ++ (a ∷ rest))
      ≡ done ++ (record a { bytes = contents } ∷ rest)
unfolding replace_first
replace_first-append key contents [] a rest same fresh = rw same refl
replace_first-append key contents (d ∷ done) a rest same fresh =
    rw (fresh.0, replace_first-append key contents done a rest same fresh.1) refl

-- `decode` undoes the compression at a level that the compressor takes.
abbrev pub IsInverse : ClientLibraries → (Str → Option Str) → ℤ → Type 0
IsInverse C decode level =
    (s : Str) → (c : Str) × (C.encode_all s level ≡ ok c) × (decode c ≡ some s)

All-append :
    (done : List CrashAttachment) (a : CrashAttachment) (rest : List CrashAttachment)
    → All (λ d. All (KeyDiffers d) rest) done
    → All (KeyDiffers a) rest
    → All (λ d. All (KeyDiffers d) rest) (done ++ (a ∷ []))
All-append [] a rest h k = (k, tt)
All-append (d ∷ done) a rest h k = (h.0, All-append done a rest h.1 k)

module _ (decode : Str → Option Str) where
  -- What the receiver of a part makes of it, by the encoding that the part names.
  unfoldable pub restore : PartEncoding → Str → Option Str
  restore encoding contents = elim encoding.content_encoding [
    | none ↦ some contents
    | some e ↦ if e == bytes "zstd" then decode contents else none
  ]

  abbrev prepend :
      CrashAttachment → Option Str → Option (List CrashAttachment) → Option (List CrashAttachment)
  prepend a (some contents) (some others) = some (record a { bytes = contents } ∷ others)
  prepend a _ _ = none

  unfoldable pub restore_all :
      List CrashAttachment → List PartEncoding → Option (List CrashAttachment)
  restore_all [] [] = some []
  restore_all (a ∷ rest) (e ∷ es) = prepend a (restore e a.bytes) (restore_all rest es)
  restore_all _ _ = none

  module _ (C : ClientLibraries) (config : ShipConfig)
      (inverse : IsInverse C decode config.dump_compression_level) where
    abbrev Packs : CrashAttachment → CrashAttachment → PartEncoding → Type 0
    Packs a packed encoding =
        (packed.key ≡ a.key)
        × (packed.content_type ≡ a.content_type)
        × (restore encoding packed.bytes ≡ some a.bytes)

    compress_attachment-restores :
        (a : CrashAttachment) (done rest : List CrashAttachment) (encodings : List PartEncoding)
        → All (λ d. KeyDiffers d a) done
        → (packed : CrashAttachment) × (encoding : PartEncoding) × (compress_attachment C config a
              (done ++ (a ∷ rest))
              encodings
            ≡ ok (done ++ (packed ∷ rest), encodings ++ (encoding ∷ [])))
          × Packs a packed encoding
    unfolding compress_attachment compress restore bytes list_beq
    compress_attachment-restores a done rest encodings fresh =
        elim (Bool-cases (should_compress config a)) [
          | inl packs ↦
              let (c, encoded, decoded) = inverse a.bytes in
              (
                record a { bytes = c },
                zstd,
                rw (packs, encoded, replace_first-append a.key c done a rest (eq_self a.key) fresh)
                    refl,
                (refl, refl, decoded),
              )
          | inr keeps ↦ (a, plain, rw keeps refl, (refl, refl, refl))
        ]

    next_step :
        (a : CrashAttachment) (rest locals : List CrashAttachment) (encodings : List PartEncoding)
        (locals' : List CrashAttachment) (encodings' : List PartEncoding)
        (r : List CrashAttachment × List PartEncoding)
        → compress_attachment C config a locals encodings ≡ ok (locals', encodings')
        → compress_attachments C config rest locals' encodings' ≡ ok r
        → compress_attachments C config (a ∷ rest) locals encodings ≡ ok r
    unfolding compress_attachments
    next_step a rest locals encodings locals' encodings' r first loop = rw first loop

    compress_attachments-restores :
        (rest done : List CrashAttachment) (encodings : List PartEncoding)
        → AreDistinct rest
        → All (λ d. All (KeyDiffers d) rest) done
        → (packed : List CrashAttachment) × (more : List PartEncoding) × (compress_attachments C
              config rest
              (done ++ rest)
              encodings
            ≡ ok (done ++ packed, encodings ++ more))
          × (restore_all packed more ≡ some rest)
    unfolding compress_attachments restore_all
    compress_attachments-restores [] done encodings distinct fresh =
        ([], [], rw (append-nil encodings) refl, refl)
    compress_attachments-restores (a ∷ rest) done encodings distinct fresh =
        let (packed, encoding, first, (same_key, same_type, restored)) =
          compress_attachment-restores a done rest encodings (All-map done (λ d h. h.0) fresh) in
        let later =
          All-append done packed rest (All-map done (λ d h. h.1) fresh)
            (All-map rest (λ b h. ap (λ k. k == b.key) same_key ∙ h) distinct.0) in
        let (others, more, loop, all_restored) =
          compress_attachments-restores rest (done ++ (packed ∷ [])) (encodings ++ (encoding ∷ []))
            distinct.1 later in
        (
          packed ∷ others,
          encoding ∷ more,
          next_step a rest _ encodings _ _ _ first (
              ap (λ l. compress_attachments C config rest l (encodings ++ (encoding ∷ [])))
                (sym (append_assoc done (packed ∷ []) rest))
              ∙ loop
              ∙ ap (λ l. ok (l, (encodings ++ (encoding ∷ [])) ++ more))
                  (append_assoc done (packed ∷ []) others)
              ∙ ap (λ l. ok (done ++ (packed ∷ others), l))
                  (append_assoc encodings (encoding ∷ []) more)),
          rw (restored, all_restored, same_key, same_type) refl,
        )

    -- Where the attachments have different keys, and the compressor takes the level of the
    -- configuration and the receiver's decoder undoes it: an envelope compresses, its metadata goes as
    -- it is, and decoding the dump and each attachment, by the encoding that its part names, gives the
    -- dump and the attachments of the envelope in their order.
    pub compress_envelope-restores :
        (envelope : CrashEnvelope C.Json)
        → AreDistinct envelope.attachments
        → (sent : CrashEnvelope C.Json) × (encodings : EnvelopeEncodings) × (compress_envelope C
              config envelope
            ≡ ok (sent, encodings))
          × (sent.metadata ≡ envelope.metadata)
          × (restore encodings.dump sent.dump ≡ some envelope.dump)
          × (restore_all sent.attachments encodings.attachments ≡ some envelope.attachments)
    unfolding compress_envelope compress restore bytes list_beq
    compress_envelope-restores envelope distinct =
        let (dump, encoded, decoded) = inverse envelope.dump in
        let (packed, more, loop, restored) =
          compress_attachments-restores envelope.attachments [] [] distinct tt in
        (
          record envelope { dump = dump; attachments = packed },
          record { dump = zstd; attachments = more },
          rw (encoded, loop) refl,
          refl,
          decoded,
          restored,
        )
