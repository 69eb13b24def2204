-- ===== src/Crashes/Blobs/Addressed.antt =====
-- The store of blobs is addressed by content, and every operation of an upload keeps it so, whatever
-- other tasks do meanwhile.
use rs_detritus.Common.{
  Str, false, none, some, List, [], ◌∷◌, ◌==◌, nat_eq, list_eq, eq_iff, ◌≡◌, inl, inr, refl, ap,
  sym, ◌∙◌, All, Bool-cases,
}
use rs_detritus.Common.Ends.{Ends, Ends-err}
use rs_detritus.Common.Table.{lookup, insert, remove, lookup-insert, lookup-remove}
use rs_detritus.FilePath.{FilePath}
use rs_detritus.Storage.{StoragePaths, other_io}
use rs_detritus.Storage.Layout.{IsDigest, blob_place}
use rs_detritus.Disk.{File, Event, calm, fails, creates, removes, Disk, Io, under_events, operation}
use rs_detritus.Crashes.{Libraries}
use rs_detritus.Crashes.Laws.{IsTemp}

module _ (L : Libraries) (p : StoragePaths) where
  -- A file may stand at a path if it has the content that the path is named after.
  abbrev pub Fits : FilePath → File → Type 0
  Fits q f = (sha : Str) → IsDigest sha → q ≡ blob_place p sha → L.digest f.content ≡ sha

  -- What other tasks may do: they put blobs only where these belong, and leave the temporary files
  -- of this upload alone.
  abbrev pub IsLawful : Event → Type 0
  IsLawful calm = Unit
  IsLawful fails = Unit
  IsLawful (creates q f) = Fits q f × ¬ IsTemp p q
  IsLawful (removes q) = ¬ IsTemp p q

  -- Every blob has the content that it is named after.
  pub record IsAddressed (d : Disk) : Type 0 where
    pub blobs :
        (sha : Str)
        → IsDigest sha
        → (f : File) → lookup (blob_place p sha) d.files ≡ some f
        → L.digest f.content ≡ sha
    pub events : All IsLawful d.events

  pub IsAddressed-insert :
      (q : FilePath) (f : File) (d : Disk)
      → IsAddressed d
      → Fits q f
      → IsAddressed (record d { files = insert q f d.files })
  IsAddressed-insert q f d h fits = record {
    blobs = λ sha s g e. elim (Bool-cases (q == blob_place p sha)) [
      | inl same ↦
          let there : some f ≡ some g =
            sym (lookup-insert q (blob_place p sha) f d.files ∙ rw same) ∙ e in
          let equal : f ≡ g = cc there in
          ap (λ (x : File). L.digest x.content) (sym equal)
          ∙ fits sha s ((eq_iff q (blob_place p sha)).0 same)
      | inr other ↦
          h.blobs sha s g (sym (lookup-insert q (blob_place p sha) f d.files ∙ rw other) ∙ e)
    ];
    events = h.events;
  }

  pub IsAddressed-remove :
      (q : FilePath) (d : Disk)
      → IsAddressed d
      → IsAddressed (record d { files = remove q d.files })
  IsAddressed-remove q d h = record {
    blobs = λ sha s g e. elim (Bool-cases (q == blob_place p sha)) [
      | inl same ↦
          let gone : none ≡ some g =
            sym (lookup-remove q (blob_place p sha) d.files ∙ rw same) ∙ e in
          cc gone
      | inr other ↦
          h.blobs sha s g (sym (lookup-remove q (blob_place p sha) d.files ∙ rw other) ∙ e)
    ];
    events = h.events;
  }

  -- Two disks with the same temporary files.
  abbrev pub SameTemps : Disk → Disk → Type 0
  SameTemps d d' = (q : FilePath) → IsTemp p q → lookup q d'.files ≡ lookup q d.files

  temp-ne : (q r : FilePath) → ¬ IsTemp p q → IsTemp p r → (q == r) ≡ false
  temp-ne q r n t = elim (Bool-cases (q == r)) [
    | inl same ↦ let e : q ≡ r = (eq_iff q r).0 same in absurd (n (t.0, e ∙ t.1))
    | inr other ↦ other
  ]

  module _ {A : Type 0} (Q : A → Disk → Type 0) (op : Io A) where
    under_events-Ends :
        (es : List Event) (d : Disk)
        → IsAddressed d
        → All IsLawful es
        → ((d' : Disk) → IsAddressed d' → SameTemps d d' → Ends IsAddressed Q (op d'))
        → Ends IsAddressed Q (under_events es op (record d { events = es }))
    unfolding under_events
    under_events-Ends [] d h v k = k _ (record { blobs = h.blobs; events = tt }) (λ q t. refl)
    under_events-Ends (calm ∷ es) d h v k =
        k _ (record { blobs = h.blobs; events = v.1 }) (λ q t. refl)
    under_events-Ends (fails ∷ es) d h v k =
        Ends-err other_io _ (record { blobs = h.blobs; events = v.1 })
    under_events-Ends (creates q f ∷ es) d h v k =
        let h' = IsAddressed-insert q f d h v.0.0 in
        k _ (record { blobs = h'.blobs; events = v.1 })
          (λ r t. lookup-insert q r f d.files ∙ rw (temp-ne q r v.0.1 t))
    under_events-Ends (removes q ∷ es) d h v k =
        let h' = IsAddressed-remove q d h in
        k _ (record { blobs = h'.blobs; events = v.1 })
          (λ r t. lookup-remove q r d.files ∙ rw (temp-ne q r v.0 t))

    -- The rule for one operation: it starts from a lawful disk with the same temporary files.
    pub operation-Ends :
        (d : Disk)
        → IsAddressed d
        → ((d' : Disk) → IsAddressed d' → SameTemps d d' → Ends IsAddressed Q (op d'))
        → Ends IsAddressed Q (operation op d)
    unfolding operation
    operation-Ends d h k = under_events-Ends d.events d h h.events k
