-- ===== src/Client/Spool/Sorting.antt =====
-- Sorting keeps the names.
use mathlib.Core.Path.{subst}
use rs_detritus.Common.{
  suc, Str, Bool, true, false, some, List, [], ◌∷◌, length, ◌≡◌, refl, ◌∙◌, sym, ap, inl, inr,
  nat_eq, list_eq, eq_iff, ◌==◌, Bool-cases, All, All-map, eq_self, if◌then◌else◌,
}
use rs_detritus.Common.Table.{Table, lookup}
use rs_detritus.Client.Spool.{Entry, sort, place, text_leb, names_of}

-- No name occurs twice.
abbrev pub AreDifferent : List Str → Type 0
AreDifferent [] = Unit
AreDifferent (name ∷ names) = All (λ other. (other == name) ≡ false) names × AreDifferent names

module _ (P : Str → Type 0) where
  either_order :
      (b : Bool) (s t : Str) (ts placed : List Str)
      → (All P placed → P s × All P ts)
      → All P (if b then s ∷ t ∷ ts else t ∷ placed)
      → P s × All P (t ∷ ts)
  either_order true s t ts placed f h = h
  either_order false s t ts placed f h = let (here, rest) = f h.1 in (here, (h.0, rest))

  All-place : (s : Str) (ts : List Str) → All P (place s ts) → P s × All P ts
  unfolding place
  All-place s [] h = h
  All-place s (t ∷ ts) h = either_order (text_leb s t) s t ts (place s ts) (All-place s ts) h

  pub All-sort : (ss : List Str) → All P (sort ss) → All P ss
  unfolding sort
  All-sort [] h = tt
  All-sort (s ∷ ss) h = let here = All-place s (sort ss) h in (here.0, All-sort ss here.1)

  All-into_place : (s : Str) (ts : List Str) → P s → All P ts → All P (place s ts)
  unfolding place
  All-into_place s [] here h = (here, tt)
  All-into_place s (t ∷ ts) here h = elim (Bool-cases (text_leb s t)) [
    | inl before ↦ rw before (here, h)
    | inr behind ↦ rw behind (h.0, All-into_place s ts here h.1)
  ]

  pub All-sorted : (ss : List Str) → All P ss → All P (sort ss)
  unfolding sort
  All-sorted [] h = tt
  All-sorted (s ∷ ss) h = All-into_place s (sort ss) h.0 (All-sorted ss h.1)

  -- What holds of every name holds of one that is found.
  pub All-lookup :
      (name : Str) (t : Table Str Entry) {entry : Entry}
      → lookup name t ≡ some entry
      → All P (names_of t)
      → P name
  unfolding lookup
  All-lookup name [] e h = cc e
  All-lookup name ((n, v) ∷ t) e h = elim (Bool-cases (n == name)) [
    | inl same ↦ subst P ((eq_iff n name).0 same) h.0
    | inr differs ↦ All-lookup name t (sym (rw differs refl) ∙ e) h.1
  ]

length-place : (s : Str) (ts : List Str) → length (place s ts) ≡ suc (length ts)
unfolding place
length-place s [] = refl
length-place s (t ∷ ts) = elim (Bool-cases (text_leb s t)) [
  | inl before ↦ rw before refl
  | inr behind ↦ rw behind (ap suc (length-place s ts))
]

pub length-sort : (ss : List Str) → length (sort ss) ≡ length ss
unfolding sort
length-sort [] = refl
length-sort (s ∷ ss) = length-place s (sort ss) ∙ ap suc (length-sort ss)

pub length-names_of : (t : Table Str Entry) → length (names_of t) ≡ length t
length-names_of [] = refl
length-names_of ((name, entry) ∷ t) = ap suc (length-names_of t)

-- Every name that a folder lists is there.
pub names_of-IsFound :
    (t : Table Str Entry)
    → All (λ name. (entry : Entry) × (lookup name t ≡ some entry)) (names_of t)
unfolding lookup
names_of-IsFound [] = tt
names_of-IsFound ((name, entry) ∷ t) = (
  (entry, rw (eq_self name) refl),
  All-map (names_of t)
      (λ other found. elim (Bool-cases (name == other)) [
        | inl same ↦ (entry, rw same refl)
        | inr differs ↦ (found.0, rw differs found.1)
      ])
      (names_of-IsFound t),
)
