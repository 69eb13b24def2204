-- ===== src/Multipart/Reader/Splitting.antt =====
-- Texts without a delimiter are found again between delimiters.
use mathlib.Core.List.{append_assoc}
use rs_detritus.Common.{
  ℕ, Str, true, false, none, some, [], ◌∷◌, ◌++◌, ◌≤◌, length, length-append, ◌≡◌, refl, sym, ◌∙◌,
  ap, arith, strip_prefix, strip_prefix-append, starts_with, starts_with-append, nat_eq,
}
use rs_detritus.Multipart.Reader.{pieces, push_first, split_at, split_here, add_first, is_clear}

starts_with-longer :
    (d s r : Str) → starts_with d s ≡ false → length d ≤ length s → starts_with d (s ++ r) ≡ false
unfolding starts_with
starts_with-longer [] s r h le = h
starts_with-longer (x ∷ d) [] r h le = absurd (omega arith)
starts_with-longer (x ∷ d) (b ∷ s) r h le = ground (arith, starts_with-longer d s r)

starts_with-shorter : (d s r : Str) → starts_with d (s ++ r) ≡ false → starts_with d s ≡ false
unfolding starts_with
starts_with-shorter [] s r h = h
starts_with-shorter (x ∷ d) [] r h = refl
starts_with-shorter (x ∷ d) (b ∷ s) r h = ground (arith, starts_with-shorter d s r)

strip_prefix-none : (d s : Str) → starts_with d s ≡ false → strip_prefix d s ≡ none
unfolding starts_with strip_prefix
strip_prefix-none [] s h = cc h
strip_prefix-none (x ∷ d) [] h = refl
strip_prefix-none (x ∷ d) (b ∷ s) h = ground (arith, strip_prefix-none d s)

pieces-skip : (d x r : Str) → pieces d (length x) (x ++ r) ≡ pieces d 0 r
unfolding pieces
pieces-skip d [] r = refl
pieces-skip d (c ∷ x) r = pieces-skip d x r

module _ (x : ℕ) (d' : Str) where
  abbrev d : Str
  d = x ∷ d'

  -- What a clear text says of its first byte, and of the rest.
  is_clear-first :
      (c : ℕ) (a : Str)
      → is_clear d (c ∷ a) ≡ true
      → (starts_with d ((c ∷ a) ++ d) ≡ false) × (is_clear d a ≡ true)
  unfolding is_clear
  is_clear-first c a h = ground arith

  is_clear-inside :
      (c : ℕ) (a r : Str) → is_clear d (c ∷ a) ≡ true → starts_with d ((c ∷ a) ++ (d ++ r)) ≡ false
  is_clear-inside c a r h =
      ap (starts_with d) (sym (append_assoc (c ∷ a) d r))
      ∙ starts_with-longer d ((c ∷ a) ++ d) r (is_clear-first c a h).0
          (omega (arith, length-append (c ∷ a) d))

  pub pieces-clear :
      (a r : Str) → is_clear d a ≡ true → pieces d 0 (a ++ (d ++ r)) ≡ a ∷ pieces d 0 r
  unfolding pieces push_first
  pieces-clear [] r h = rw (starts_with-append d r) (ap (◌∷◌ []) (pieces-skip d d' r))
  pieces-clear (c ∷ a) r h =
      rw (is_clear-inside c a r h, pieces-clear a r (is_clear-first c a h).1) refl

  pub pieces-last : (a : Str) → is_clear d a ≡ true → pieces d 0 a ≡ a ∷ []
  unfolding pieces push_first
  pieces-last [] h = refl
  pieces-last (c ∷ a) h =
      rw
        (
          starts_with-shorter d (c ∷ a) d (is_clear-first c a h).0,
          pieces-last a (is_clear-first c a h).1,
        )
        refl

  pub split_at-clear : (a r : Str) → is_clear d a ≡ true → split_at d (a ++ (d ++ r)) ≡ some (a, r)
  unfolding split_at add_first split_here
  split_at-clear [] r h =
      ap (λ o. split_here o (add_first x (split_at d (d' ++ r)))) (strip_prefix-append d r)
  split_at-clear (c ∷ a) r h =
      ap (λ o. split_here o (add_first c (split_at d (a ++ (d ++ r)))))
        (strip_prefix-none d ((c ∷ a) ++ (d ++ r)) (is_clear-inside c a r h))
      ∙ ap (add_first c) (split_at-clear a r (is_clear-first c a h).1)
