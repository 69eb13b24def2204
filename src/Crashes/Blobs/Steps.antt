-- ===== src/Crashes/Blobs/Steps.antt =====
-- The operations of an upload on its temporary file and on the blob, one rule for each.
use rs_detritus.Common.{
  Str, some, [], ◌++◌, nat_eq, list_eq, eq_self, ◌≡◌, ◌≢◌, inl, inr, refl, ap, sym, ◌∙◌,
  Option-cases,
}
use rs_detritus.Common.Ends.{Ends, Ends-ok, Ends-err, map_err-Ends}
use rs_detritus.Common.Table.{lookup, lookup-insert}
use rs_detritus.FilePath.{FilePath}
use rs_detritus.Storage.{StoragePaths, IoError, not_found, already_exists}
use rs_detritus.Storage.Layout.{blob_place}
use rs_detritus.Disk.{
  File, Disk, Io, put_file, append_content, unlink, link, create_dir_all, create_file, write_all,
  sync_file, remove_file, try_exists, hard_link, write_file, raise_io, attempt,
}
use rs_detritus.Crashes.{Libraries}
use rs_detritus.Crashes.Laws.{IsTemp, blob_place-injective, blob_place-not-IsTemp}
use rs_detritus.Crashes.Blobs.Addressed.{
  Fits, IsAddressed, IsAddressed-insert, IsAddressed-remove, SameTemps, operation-Ends,
}

module _ (L : Libraries) (p : StoragePaths) where
  abbrev pub Anything : {A : Type 0} → A → Disk → Type 0
  Anything a d = Unit

  pub raise_io-Ends :
      {E A : Type 0} (Q : A → Disk → Type 0) (f : IoError → E) (m : Io A) (d : Disk)
      → Ends (IsAddressed L p) Q (m d)
      → Ends (IsAddressed L p) Q (raise_io f m d)
  unfolding raise_io
  raise_io-Ends Q f m d h = let (r, d') = m d in map_err-Ends Q f r d' h

  pub attempt-Ends :
      {E A : Type 0} (m : Io A) (d : Disk)
      → Ends (IsAddressed L p) Anything (m d)
      → Ends {E = E} (IsAddressed L p) Anything (attempt m d)
  unfolding attempt
  attempt-Ends m d h = let (r, d') = m d in Ends-ok r d' h.kept tt

  pub remove_file-Ends :
      (q : FilePath) (d : Disk)
      → IsAddressed L p d
      → Ends (IsAddressed L p) Anything (remove_file q d)
  unfolding remove_file
  remove_file-Ends q d h = operation-Ends L p Anything _ d h λ d' h' same.
      elim (Option-cases (lookup q d'.files)) [
        | inl e ↦ rw (e, unlink) (Ends-err not_found d' h')
        | inr (f, e) ↦ rw (e, unlink) (Ends-ok tt _ (IsAddressed-remove L p q d' h') tt)
      ]

  -- A file that is no blob may be written anywhere.
  pub write_file-Ends :
      (q : FilePath) (content : Str) (d : Disk)
      → ((sha : Str) → q ≢ blob_place p sha)
      → IsAddressed L p d
      → Ends (IsAddressed L p) Anything (write_file q content d)
  unfolding write_file
  write_file-Ends q content d free h = operation-Ends L p Anything _ d h λ d' h' same.
      Ends-ok tt _ (IsAddressed-insert L p q _ d' h' (λ sha s e. absurd (free sha e))) tt

  pub create_dir_all-Ends :
      (q : FilePath) (d : Disk)
      → IsAddressed L p d
      → Ends (IsAddressed L p) (λ _ d'. SameTemps L p d d') (create_dir_all q d)
  unfolding create_dir_all
  create_dir_all-Ends q d h = operation-Ends L p _ _ d h λ d' h' same. Ends-ok tt d' h' same

  pub try_exists-Ends :
      (q : FilePath) (d : Disk)
      → IsAddressed L p d
      → Ends (IsAddressed L p) (λ _ d'. SameTemps L p d d') (try_exists q d)
  unfolding try_exists
  try_exists-Ends q d h = operation-Ends L p _ _ d h λ d' h' same. Ends-ok _ d' h' same

  module _ (temp : FilePath) (is_temp : IsTemp p temp) where
    -- The temporary file is there and holds these bytes.
    abbrev pub Holds : Str → Disk → Type 0
    Holds c d = (f : File) × (lookup temp d.files ≡ some f) × (f.content ≡ c)

    pub Holds-same : (c : Str) (d d' : Disk) → SameTemps L p d d' → Holds c d → Holds c d'
    Holds-same c d d' same (f, there, e) = (f, same temp is_temp ∙ there, e)

    abbrev stamped : Str → Disk → File
    stamped c d = record { content = c; modified = d.clock }

    temp-Fits : (f : File) → Fits L p temp f
    temp-Fits f sha s e = absurd (blob_place-not-IsTemp p sha (is_temp.0, sym e ∙ is_temp.1))

    put_file-Holds : (c : Str) (d : Disk) → Holds c (put_file temp c d)
    put_file-Holds c d =
        (record { content = c; modified = d.clock }, rw (lookup-insert, eq_self temp), refl)

    pub create_file-Ends :
        (d : Disk) → IsAddressed L p d → Ends (IsAddressed L p) (λ _. Holds []) (create_file temp d)
    unfolding create_file
    create_file-Ends d h = operation-Ends L p _ _ d h λ d' h' same.
        Ends-ok tt _ (IsAddressed-insert L p temp (stamped [] d') d' h' (temp-Fits (stamped [] d')))
          (put_file-Holds [] d')

    pub write_all-Ends :
        (b c : Str) (d : Disk)
        → IsAddressed L p d
        → Holds c d
        → Ends (IsAddressed L p) (λ _. Holds (c ++ b)) (write_all temp b d)
    unfolding write_all
    write_all-Ends b c d h holds = operation-Ends L p _ _ d h λ d' h' same.
        let (f, there, e) = Holds-same c d d' same holds in
        rw (there, append_content, e)
          (Ends-ok tt _
            (IsAddressed-insert L p temp (stamped (c ++ b) d') d' h'
              (temp-Fits (stamped (c ++ b) d')))
            (put_file-Holds (c ++ b) d'))

    pub sync_file-Ends :
        (c : Str) (d : Disk)
        → IsAddressed L p d
        → Holds c d
        → Ends (IsAddressed L p) (λ _. Holds c) (sync_file temp d)
    unfolding sync_file
    sync_file-Ends c d h holds =
        operation-Ends L p _ _ d h λ d' h' same. Ends-ok tt d' h' (Holds-same c d d' same holds)

    -- The link makes the temporary file the blob of its own digest.
    pub hard_link-Ends :
        (c : Str) (d : Disk)
        → IsAddressed L p d
        → Holds c d
        → Ends (IsAddressed L p) Anything (hard_link temp (blob_place p (L.digest c)) d)
    unfolding hard_link
    hard_link-Ends c d h holds = operation-Ends L p _ _ d h λ d' h' same.
        let (f, there, e) = Holds-same c d d' same holds in
        elim (Option-cases (lookup (blob_place p (L.digest c)) d'.files)) [
          | inl free ↦
              rw (there, free, link)
                (Ends-ok tt _
                  (IsAddressed-insert L p (blob_place p (L.digest c)) f d' h'
                    (λ sha s place. ap L.digest e ∙ blob_place-injective p (L.digest c) sha place))
                  tt)
          | inr (g, taken) ↦ rw (there, taken, link) (Ends-err already_exists d' h')
        ]
