-- ===== src/Disk/Spared.antt =====
-- Files that nobody touches for a while: what each operation may do to the disk without touching them.
use rs_detritus.Common.{
  false, Option, none, some, List, [], ◌∷◌, ◌==◌, nat_eq, list_eq, ◌≡◌, refl, ap, sym, ◌∙◌, All,
  IsIn, Bool-cases, inl, inr, eq_iff,
}
use mathlib.Core.Path.{subst}
use rs_detritus.Common.Ends.{Ends, Ends-ok, Ends-err}
use rs_detritus.Common.Table.{Table, lookup, insert, remove, lookup-insert, lookup-remove}
use rs_detritus.FilePath.{FilePath, strip_path_prefix}
use rs_detritus.Storage.{not_found, other_io}
use rs_detritus.Disk.{
  File, Event, calm, fails, creates, removes, Disk, Io, under_events, operation, files_below,
  keep_below, unlink, found, remove_file, read_file, walk,
}

keep_below-IsIn :
    (o : Option FilePath) (p q : FilePath) (ps : List FilePath)
    → IsIn q ps
    → IsIn q (keep_below o p ps)
unfolding keep_below
keep_below-IsIn none p q ps h = h
keep_below-IsIn (some r) p q ps (before, after, split) =
    (p ∷ before, after, ap (λ rs. p ∷ rs) split)

keep_below-head :
    (o : Option FilePath) (r p : FilePath) (ps : List FilePath)
    → o ≡ some r
    → IsIn p (keep_below o p ps)
unfolding keep_below
keep_below-head none r p ps e = cc e
keep_below-head (some s) r p ps e = ([], ps, refl)

pub files_below-IsIn :
    (root q : FilePath) (r : FilePath) (f : File) (t : Table FilePath File)
    → strip_path_prefix root q ≡ some r
    → lookup q t ≡ some f
    → IsIn q (files_below root t)
unfolding lookup files_below
files_below-IsIn root q r f [] under there = cc there
files_below-IsIn root q r f ((p, g) ∷ t) under there = elim (Bool-cases (p == q)) [
  | inl same ↦
      let e : p ≡ q = (eq_iff p q).0 same in
      let below : strip_path_prefix root p ≡ some r = ap (strip_path_prefix root) e ∙ under in
      subst (λ x. IsIn x (files_below root ((p, g) ∷ t))) e
        (keep_below-head (strip_path_prefix root p) r p (files_below root t) below)
  | inr other ↦
      keep_below-IsIn (strip_path_prefix root p) p q (files_below root t)
        (files_below-IsIn root q r f t under (rw other at there))
]

module _ (P : FilePath → Type 0) (d0 : Disk) where
  -- The machine may fail, and other tasks act on other files.
  abbrev pub SparesAll : Event → Type 0
  SparesAll calm = Unit
  SparesAll fails = Unit
  SparesAll (creates q f) = ¬ P q
  SparesAll (removes q) = ¬ P q

  -- The files stand as they did at the start, and will not be touched.
  pub record IsSpared (d : Disk) : Type 0 where
    pub files : (q : FilePath) → P q → lookup q d.files ≡ lookup q d0.files
    pub events : All SparesAll d.events
    pub clock : d.clock ≡ d0.clock

  apart : (p q : FilePath) → ¬ P p → P q → (p == q) ≡ false
  apart p q n h = elim (Bool-cases (p == q)) [
    | inl same ↦ absurd (n (subst P (sym ((eq_iff p q).0 same)) h))
    | inr other ↦ other
  ]

  IsSpared-insert :
      (p : FilePath) (f : File) (d : Disk)
      → ¬ P p
      → IsSpared d
      → (q : FilePath) → P q
      → lookup q (insert p f d.files) ≡ lookup q d0.files
  IsSpared-insert p f d n h q hq = lookup-insert p q f d.files ∙ rw (apart p q n hq) (h.files q hq)

  IsSpared-remove :
      (p : FilePath) (d : Disk)
      → ¬ P p
      → IsSpared d
      → (q : FilePath) → P q
      → lookup q (remove p d.files) ≡ lookup q d0.files
  IsSpared-remove p d n h q hq = lookup-remove p q d.files ∙ rw (apart p q n hq) (h.files q hq)

  module _ {A : Type 0} (Q : A → Disk → Type 0) (op : Io A) where
    under_events-Ends :
        (es : List Event) (d : Disk)
        → IsSpared d
        → All SparesAll es
        → ((d' : Disk) → IsSpared d' → Ends IsSpared Q (op d'))
        → Ends IsSpared Q (under_events es op (record d { events = es }))
    unfolding under_events
    under_events-Ends [] d h v k = k _ (record { files = h.files; events = tt; clock = h.clock })
    under_events-Ends (calm ∷ es) d h v k =
        k _ (record { files = h.files; events = v.1; clock = h.clock })
    under_events-Ends (fails ∷ es) d h v k =
        Ends-err other_io _ (record { files = h.files; events = v.1; clock = h.clock })
    under_events-Ends (creates p f ∷ es) d h v k =
        k _ (record { files = IsSpared-insert p f d v.0 h; events = v.1; clock = h.clock })
    under_events-Ends (removes p ∷ es) d h v k =
        k _ (record { files = IsSpared-remove p d v.0 h; events = v.1; clock = h.clock })

    pub operation-Ends :
        (d : Disk)
        → IsSpared d
        → ((d' : Disk) → IsSpared d' → Ends IsSpared Q (op d'))
        → Ends IsSpared Q (operation op d)
    unfolding operation
    operation-Ends d h k = under_events-Ends d.events d h h.events k

  -- A spared file reads as it stood at the start.
  abbrev pub ReadsAs : FilePath → File → Disk → Type 0
  ReadsAs p f d = P p → lookup p d0.files ≡ some f

  found-Ends :
      (p : FilePath) (o : Option File) (d : Disk)
      → lookup p d.files ≡ o
      → IsSpared d
      → Ends IsSpared (ReadsAs p) (found o d)
  unfolding found
  found-Ends p none d e h = Ends-err not_found d h
  found-Ends p (some f) d e h = Ends-ok f d h (λ hp. sym (h.files p hp) ∙ e)

  pub read_file-Ends :
      (p : FilePath) (d : Disk) → IsSpared d → Ends IsSpared (ReadsAs p) (read_file p d)
  unfolding read_file
  read_file-Ends p d h =
      operation-Ends (ReadsAs p) _ d h (λ d' h'. found-Ends p (lookup p d'.files) d' refl h')

  unlink-Ends :
      (p : FilePath) (o : Option File) (d : Disk)
      → ¬ P p
      → IsSpared d
      → Ends IsSpared (λ _ _. Unit) (unlink p o d)
  unfolding unlink
  unlink-Ends p none d n h = Ends-err not_found d h
  unlink-Ends p (some f) d n h =
      Ends-ok tt _ (record { files = IsSpared-remove p d n h; events = h.events; clock = h.clock })
        tt

  pub remove_file-Ends :
      (p : FilePath) (d : Disk) → ¬ P p → IsSpared d → Ends IsSpared (λ _ _. Unit) (remove_file p d)
  unfolding remove_file
  remove_file-Ends p d n h =
      operation-Ends (λ _ _. Unit) _ d h (λ d' h'. unlink-Ends p (lookup p d'.files) d' n h')

  -- A walk meets every spared file below its root.
  abbrev pub Meets : FilePath → List FilePath → Disk → Type 0
  Meets root ps d =
      (q r : FilePath) (f : File)
      → P q
      → strip_path_prefix root q ≡ some r
      → lookup q d0.files ≡ some f
      → IsIn q ps

  pub walk-Ends :
      (root : FilePath) (d : Disk) → IsSpared d → Ends IsSpared (Meets root) (walk root d)
  unfolding walk
  walk-Ends root d h = operation-Ends (Meets root) _ d h λ d' h'.
      Ends-ok _ d' h'
        (λ q r f hq under there. files_below-IsIn root q r f d'.files under (h'.files q hq ∙ there))
