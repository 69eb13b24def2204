-- ===== src/Crashes/Blobs/Writing.antt =====
-- A whole part of an upload: what its blob and its pointer are, whatever goes wrong on the way.
use mathlib.Core.List.{append_assoc, append-nil}
use rs_detritus.Common.{
  ℕ, Str, Bool, true, false, Option, none, some, List, [], ◌∷◌, ◌++◌, nat_eq, list_eq, ◌+◌, ◌≤◌,
  ltb, length, length-append, Result, ok, err, panic, pure, throw, ◌>>◌, ◌≡◌, inl, inr, refl, sym,
  ◌∙◌, arith, Bool-cases,
}
use rs_detritus.Common.Ends.{Ends, Ends-ok, Ends-err, Ends-bind, Ends-weaken}
use rs_detritus.FilePath.{FilePath, parent}
use rs_detritus.Storage.{StoragePaths, IoError, not_found, already_exists, other_io}
use rs_detritus.Storage.Layout.{blob_place, blob_path_parts}
use rs_detritus.Disk.{Disk, raise_io, attempt, remove_file, write_all, try_exists}
use rs_detritus.Crashes.{
  Chunk, data_chunk, broken_chunk, CrashError, payload_too_large, multipart, io, Libraries,
}
use rs_detritus.Multer.{part_bytes}
use rs_detritus.Crashes.Laws.{LibraryLaws, IsTemp}
use rs_detritus.Crashes.Blobs.{
  Written, refuse_payload, write_chunks, create_parent, after_link, publish, finalize_blob,
}
use rs_detritus.Crashes.Blobs.Addressed.{IsAddressed, SameTemps}
use rs_detritus.Crashes.Blobs.Steps.{
  Anything, raise_io-Ends, attempt-Ends, remove_file-Ends, Holds, Holds-same, write_all-Ends,
  create_dir_all-Ends, try_exists-Ends, hard_link-Ends,
}

module _ (L : Libraries) (p : StoragePaths) (temp : FilePath) (is_temp : IsTemp p temp) where
  refuse_payload-Ends :
      (Q : Written → Disk → Type 0) (max_bytes : ℕ) (d : Disk)
      → IsAddressed L p d
      → Ends (IsAddressed L p) Q (refuse_payload temp max_bytes d)
  unfolding refuse_payload
  refuse_payload-Ends Q max_bytes d h =
      Ends-bind (Anything L p) Q (attempt (remove_file temp))
        (λ _. throw (payload_too_large max_bytes)) d
        (attempt-Ends L p (remove_file temp) d (remove_file-Ends L p temp d h))
        (λ a t k _. Ends-err (payload_too_large max_bytes) t k)

  -- The chunks read so far are in the file and in the hasher, and are as long as was counted.
  pub record Progress (max_bytes : ℕ) (hashed : Str) (cs : List Chunk) (w : Written) (d : Disk)
      : Type 0 where
    pub rest : Str
    pub whole : part_bytes cs ≡ some rest
    pub hash : w.1 ≡ hashed ++ rest
    pub size : w.0 ≡ length w.1
    pub fits : w.0 ≤ max_bytes
    pub on_disk : Holds L p temp is_temp w.1 d

  Progress-cons :
      (max_bytes : ℕ) (hashed b : Str) (cs : List Chunk) (w : Written) (d : Disk)
      → Progress max_bytes (hashed ++ b) cs w d
      → Progress max_bytes hashed (data_chunk b ∷ cs) w d
  Progress-cons max_bytes hashed b cs w d g = record {
    rest = b ++ g.rest;
    whole = rw g.whole;
    hash = g.hash ∙ append_assoc hashed b g.rest;
    size = g.size;
    fits = g.fits;
    on_disk = g.on_disk;
  }

  pub write_chunks-Ends :
      (max_bytes : ℕ) (cs : List Chunk) (len : ℕ) (hashed : Str) (d : Disk)
      → IsAddressed L p d
      → Holds L p temp is_temp hashed d
      → len ≡ length hashed
      → len ≤ max_bytes
      → Ends
          (IsAddressed L p)
          (Progress max_bytes hashed cs)
          (write_chunks temp max_bytes cs len hashed d)
  unfolding write_chunks
  write_chunks-Ends max_bytes [] len hashed d h holds size fits = Ends-ok _ d h (record {
    rest = [];
    whole = refl;
    hash = sym (append-nil hashed);
    size = size;
    fits = fits;
    on_disk = holds;
  })
  write_chunks-Ends max_bytes (broken_chunk ∷ cs) len hashed d h holds size fits =
      Ends-err multipart d h
  write_chunks-Ends max_bytes (data_chunk b ∷ cs) len hashed d h holds size fits =
      elim (Bool-cases (ltb max_bytes (len + length b))) [
        | inl large ↦ rw large (refuse_payload-Ends _ max_bytes d h)
        | inr small ↦ rw small (
            Ends-bind (λ _. Holds L p temp is_temp (hashed ++ b)) _ (raise_io io (write_all temp b))
              (λ _. write_chunks temp max_bytes cs (len + length b) (hashed ++ b)) d
              (raise_io-Ends L p _ io (write_all temp b) d
                (write_all-Ends L p temp is_temp b hashed d h holds))
              λ a t k holds'.
                Ends-weaken (Progress max_bytes (hashed ++ b) cs) _ _
                  (Progress-cons max_bytes hashed b cs)
                  (write_chunks-Ends max_bytes cs (len + length b) (hashed ++ b) t k holds'
                    (omega (arith, length-append {0} hashed b)) (ground arith)))
      ]

  create_parent-Ends :
      (o : Option FilePath) (c : Str) (d : Disk)
      → IsAddressed L p d
      → Holds L p temp is_temp c d
      → Ends (IsAddressed L p) (λ _. Holds L p temp is_temp c) (create_parent o d)
  unfolding create_parent
  create_parent-Ends none c d h holds = Ends-ok tt d h holds
  create_parent-Ends (some dir) c d h holds = raise_io-Ends L p _ io _ d (
      Ends-weaken (λ _. SameTemps L p d) _ _
        (λ a d' same. Holds-same L p temp is_temp c d d' same holds)
        (create_dir_all-Ends L p dir d h))

  remove_then :
      (b : Bool) (d : Disk)
      → IsAddressed L p d
      → Ends
          (IsAddressed L p)
          (Anything L p)
          ((raise_io {E = CrashError} io (remove_file temp) >> pure b) d)
  remove_then b d h =
      Ends-bind (Anything L p) (Anything L p) (raise_io io (remove_file temp)) (λ _. pure b) d
        (raise_io-Ends L p (Anything L p) io (remove_file temp) d (remove_file-Ends L p temp d h))
        (λ a t k _. Ends-ok b t k tt)

  attempt_then_fail :
      (e : IoError) (d : Disk)
      → IsAddressed L p d
      → Ends
          (IsAddressed L p)
          (Anything L p {A = Bool})
          ((attempt {E = CrashError} (remove_file temp) >> throw (io e)) d)
  attempt_then_fail e d h =
      Ends-bind (Anything L p) (Anything L p) (attempt (remove_file temp)) (λ _. throw (io e)) d
        (attempt-Ends L p (remove_file temp) d (remove_file-Ends L p temp d h))
        (λ a t k _. Ends-err (io e) t k)

  after_link-Ends :
      (r : Result IoError (Unit {0})) (d : Disk)
      → ¬ (r ≡ panic)
      → IsAddressed L p d
      → Ends (IsAddressed L p) (Anything L p) (after_link temp r d)
  unfolding after_link
  after_link-Ends (ok a) d n h = remove_then false d h
  after_link-Ends (err already_exists) d n h = remove_then true d h
  after_link-Ends (err not_found) d n h = attempt_then_fail not_found d h
  after_link-Ends (err other_io) d n h = attempt_then_fail other_io d h
  after_link-Ends panic d n h = absurd (n refl)

  publish-Ends :
      (c : Str) (there : Bool) (d : Disk)
      → IsAddressed L p d
      → Holds L p temp is_temp c d
      → Ends (IsAddressed L p) (Anything L p) (publish temp (blob_place p (L.digest c)) there d)
  unfolding publish attempt
  publish-Ends c true d h holds = remove_then true d h
  publish-Ends c false d h holds =
      let linked = hard_link-Ends L p temp is_temp c d h holds in
      after_link-Ends _ _ linked.runs linked.kept

  pub finalize_blob-Ends :
      (laws : LibraryLaws L) (c : Str) (d : Disk)
      → IsAddressed L p d
      → Holds L p temp is_temp c d
      → Ends (IsAddressed L p) (Anything L p) (finalize_blob p temp (L.digest c) d)
  unfolding finalize_blob
  finalize_blob-Ends laws c d h holds =
      let dest = blob_place p (L.digest c) in
      rw (blob_path_parts p (L.digest c) (laws.digest-IsDigest c)) (
        Ends-bind (λ _. Holds L p temp is_temp c) (Anything L p) (create_parent (parent dest)) _ d
          (create_parent-Ends (parent dest) c d h holds)
          λ a t k holds'.
            Ends-bind (λ _ t'. Holds L p temp is_temp c t') (Anything L p)
              (raise_io io (try_exists dest)) _ t
              (raise_io-Ends L p _ io (try_exists dest) t (
                Ends-weaken (λ _. SameTemps L p t) _ _
                  (λ b t' same. Holds-same L p temp is_temp c t t' same holds')
                  (try_exists-Ends L p dest t k)))
              λ there u k' holds''.
                Ends-bind (Anything L p) (Anything L p) (publish temp dest there) _ u
                  (publish-Ends c there u k' holds'') (λ dedup v k'' _. Ends-ok _ v k'' tt))
