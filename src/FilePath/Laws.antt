-- ===== src/FilePath/Laws.antt =====
-- Joining one ordinary component, and taking it off again.
use rs_detritus.Common.{
  ℕ, Str, some, [], ◌∷◌, ◌++◌, bytes, nat_eq, list_eq, eq_iff, ◌≡◌, ◌≢◌, refl, All, arith, eq_self,
}
use rs_detritus.FilePath.{FilePath, slash, segments, components, join, file_name, strip_path_prefix}

-- A text that is one component of a path, and not `.`.
pub record IsSegment (s : Str) : Type 0 where
  pub nonempty : s ≢ []
  pub not_dot : s ≢ bytes "."
  pub no_slash : All (λ c. c ≢ slash) s

segments-no_slash :
    (c : ℕ) (s : Str) → All (λ c. c ≢ slash) (c ∷ s) → segments (c ∷ s) ≡ (c ∷ s) ∷ []
unfolding segments
segments-no_slash c [] h = ground arith
segments-no_slash c (d ∷ s) h = ground (arith, segments-no_slash d s h.1)

pub components-segment : (s : Str) → IsSegment s → components s ≡ s ∷ []
unfolding components
components-segment [] h = absurd (h.nonempty refl)
components-segment (c ∷ s) h = ground (
  arith,
  segments-no_slash c s h.no_slash,
  eq_iff (c ∷ s) [],
  eq_iff (c ∷ s) (bytes "."),
  h.not_dot,
)

-- Joining one component adds it at the end.
pub join-segment : (p : FilePath) (s : Str) → IsSegment s → join p s ≡ p ++ (s ∷ [])
unfolding join
join-segment p [] h = absurd (h.nonempty refl)
join-segment p (c ∷ s) h = ground (arith, components-segment (c ∷ s) h, h.no_slash.0)

pub file_name-append : (p : FilePath) (s : Str) → file_name (p ++ (s ∷ [])) ≡ some s
unfolding file_name
file_name-append [] s = refl
file_name-append (d ∷ []) s = refl
file_name-append (d ∷ e ∷ p) s = file_name-append (e ∷ p) s

pub strip_path_prefix-append : (d p : FilePath) → strip_path_prefix d (d ++ p) ≡ some p
unfolding strip_path_prefix
strip_path_prefix-append [] p = refl
strip_path_prefix-append (s ∷ d) p = ground (arith, strip_path_prefix-append d p, eq_self s)
