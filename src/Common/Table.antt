-- ===== src/Common/Table.antt =====
-- A map with lawful keys: `HashMap`, the files of a disk, the labels of a metric. The program
-- depends on no order of iteration.
use mathlib.Core.Path.{◌≡◌, ◌∙◌, refl}
use mathlib.Core.Bool.{false}
use mathlib.Core.Option.{Option, none, some}
use mathlib.Core.List.{List, [], ◌∷◌}
use native.Mathlib.Omega.{arith}
use rs_detritus.Common.Tests.{if◌then◌else◌}
use rs_detritus.Common.Equality.{Eq, eq_iff, ◌==◌, differs_sym}

abbrev pub Table : Type 0 → Type 0 → Type 0
Table K V = List (K × V)

module _ {K V : Type 0} ⦃e : Eq K⦄ where
  unfoldable pub lookup : K → Table K V → Option V
  lookup k [] = none
  lookup k ((j, v) ∷ t) = if j == k then some v else lookup k t

  unfoldable pub insert : K → V → Table K V → Table K V
  insert k v [] = (k, v) ∷ []
  insert k v ((j, w) ∷ t) = if j == k then (k, v) ∷ t else (j, w) ∷ insert k v t

  unfoldable pub remove : K → Table K V → Table K V
  remove k [] = []
  remove k ((j, v) ∷ t) = let rest = remove k t in if j == k then rest else (j, v) ∷ rest

  pub lookup-insert :
      (k j : K) (v : V) (t : Table K V)
      → lookup j (insert k v t) ≡ (if k == j then some v else lookup j t)
  unfolding lookup insert
  lookup-insert k j v [] = refl
  lookup-insert k j v ((i, w) ∷ t) =
      ground (arith, eq_iff k j, eq_iff i k, eq_iff i j, lookup-insert k j v t)

  pub lookup-remove :
      (k j : K) (t : Table K V) → lookup j (remove k t) ≡ (if k == j then none else lookup j t)
  unfolding lookup remove
  lookup-remove k j [] = ground arith
  lookup-remove k j ((i, w) ∷ t) =
      ground (arith, eq_iff k j, eq_iff i k, eq_iff i j, lookup-remove k j t)

  pub lookup-remove_other :
      (k j : K) (t : Table K V) → (j == k) ≡ false → lookup j (remove k t) ≡ lookup j t
  lookup-remove_other k j t differs = lookup-remove k j t ∙ (rw (differs_sym j k differs) refl)

  pub remove-absent : (k : K) (t : Table K V) → lookup k t ≡ none → remove k t ≡ t
  unfolding lookup remove
  remove-absent k [] absent = refl
  remove-absent k ((i, w) ∷ t) absent = ground (arith, remove-absent k t)
