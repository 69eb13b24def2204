-- ===== src/Storage/Sources.antt =====
-- What `validate_component` and `SourceKey::new` accept, and that the canonical form names one source.
use rs_detritus.Common.{
  ℕ, Str, Bool, true, false, [], ◌∷◌, ◌++◌, bytes, ◌||◌, ◌==◌, nat_eq, list_eq, eq_iff, ◌≡◌, ◌≢◌,
  ◌↔◌, refl, All, arith, ok, err, contains, Bool-cases, inl, inr, ◌⊎◌,
}
use mathlib.Core.Path.{subst}
use rs_detritus.FilePath.Laws.{IsSegment}
use rs_detritus.Storage.{
  invalid_component, is_invalid, validate_component, SourceKey, new_source_key, canonical,
}

-- A text that is safe as the name of a directory.
pub record IsComponent (s : Str) : Type 0 where
  pub nonempty : s ≢ []
  pub not_dot : s ≢ bytes "."
  pub not_dot_dot : s ≢ bytes ".."
  pub no_slash : All (λ c. c ≢ b'/') s
  pub no_backslash : All (λ c. c ≢ b'\\') s

not_contains : (a : ℕ) (s : Str) → contains s a ≡ false → All (λ c. c ≢ a) s
unfolding contains
not_contains a [] h = tt
not_contains a (c ∷ s) h = (ground arith, not_contains a s (ground arith))

contains-false : (a : ℕ) (s : Str) → All (λ c. c ≢ a) s → contains s a ≡ false
unfolding contains
contains-false a [] h = refl
contains-false a (c ∷ s) h = ground (arith, h.0, contains-false a s h.1)

or_false : (a b : Bool) → (a || b) ≡ false → (a ≡ false) × (b ≡ false)
or_false true b h = ground arith
or_false false b h = (refl, h)

is_invalid-false : (s : Str) → is_invalid s ≡ false → IsComponent s
is_invalid-false s h =
    let (h3, e4) = or_false _ (contains s b'\\') h in
    let (h2, e3) = or_false _ (contains s b'/') h3 in
    let (h1, e2) = or_false _ (s == bytes "..") h2 in
    let (e0, e1) = or_false (s == []) (s == bytes ".") h1 in
    record {
      nonempty = λ e. ground (arith, eq_iff s []);
      not_dot = λ e. ground (arith, eq_iff s (bytes "."));
      not_dot_dot = λ e. ground (arith, eq_iff s (bytes ".."));
      no_slash = not_contains b'/' s e3;
      no_backslash = not_contains b'\\' s e4;
    }

IsComponent-is_invalid : (s : Str) → IsComponent s → is_invalid s ≡ false
IsComponent-is_invalid s h = ground (
  arith,
  h.nonempty,
  h.not_dot,
  h.not_dot_dot,
  eq_iff s [],
  eq_iff s (bytes "."),
  eq_iff s (bytes ".."),
  contains-false b'/' s h.no_slash,
  contains-false b'\\' s h.no_backslash,
)

-- `validate_component` accepts exactly the texts that are no empty name, no `.` or `..`, and hold no
-- separator of either kind, and it answers any other with the error that carries the name and the text.
pub validate_component_iff :
    (name s : Str)
    → ((validate_component name s ≡ ok tt) ↔ IsComponent s)
      × (¬ IsComponent s → validate_component name s ≡ err (invalid_component name s))
unfolding validate_component
validate_component_iff name s = elim (Bool-cases (is_invalid s)) [
  | inl bad ↦
      ((λ e. ground arith, λ v. ground (arith, IsComponent-is_invalid s v)), λ _. ground arith)
  | inr good ↦ (
    (λ _. is_invalid-false s good, λ _. ground arith),
    λ no_component. absurd (no_component (is_invalid-false s good)),
  )
]

pub IsComponent-dec : (s : Str) → IsComponent s ⊎ (¬ IsComponent s)
IsComponent-dec s = elim (Bool-cases (is_invalid s)) [
  | inl bad ↦ inr (λ v. ground (arith, IsComponent-is_invalid s v))
  | inr good ↦ inl (is_invalid-false s good)
]

pub record IsSource (k : SourceKey) : Type 0 where
  pub project : IsComponent k.project
  pub source_id : IsComponent k.source_id

-- `SourceKey::new` returns the key of its two texts if both are components. Otherwise its error
-- names the first text that is none.
pub new_source_key_lem :
    (project source_id : Str)
    → (IsComponent project
        × IsComponent source_id
        × (new_source_key project source_id
            ≡ ok (record { project = project; source_id = source_id })))
      ⊎ ((¬ IsComponent project)
          × (new_source_key project source_id ≡ err (invalid_component (bytes "project") project)))
      ⊎ (IsComponent project
          × (¬ IsComponent source_id)
          × (new_source_key project source_id
              ≡ err (invalid_component (bytes "source_id") source_id)))
unfolding new_source_key
new_source_key_lem project source_id =
    let (p, p') = validate_component_iff (bytes "project") project in
    let (q, q') = validate_component_iff (bytes "source_id") source_id in
    elim (IsComponent-dec project) [
      | inr bad ↦ inr (inl (bad, ground (arith, p' bad)))
      | inl good ↦ elim (IsComponent-dec source_id) [
        | inr bad ↦ inr (inr (good, bad, ground (arith, p.1 good, q' bad)))
        | inl good' ↦ inl (good, good', ground (arith, p.1 good, q.1 good'))
      ]
    ]

pub new_source_key-IsSource :
    (project source_id : Str) {k : SourceKey} → new_source_key project source_id ≡ ok k → IsSource k
unfolding new_source_key
new_source_key-IsSource project source_id {k} h = elim (Bool-cases (is_invalid project)) [
  | inl bad ↦ absurd (ground arith)
  | inr good ↦ elim (Bool-cases (is_invalid source_id)) [
    | inl bad' ↦ absurd (ground arith)
    | inr good' ↦
        let v : IsSource (record { project = project; source_id = source_id }) = record {
          project = is_invalid-false project good;
          source_id = is_invalid-false source_id good';
        } in
        let e : record { project = project; source_id = source_id } ≡ k = ground arith in
        subst IsSource e v
  ]
]

split_at_slash :
    (p q s t : Str)
    → All (λ c. c ≢ b'/') p
    → All (λ c. c ≢ b'/') q
    → p ++ (b'/' ∷ s) ≡ q ++ (b'/' ∷ t)
    → (p ≡ q) × (s ≡ t)
split_at_slash [] [] s t hp hq e = ground arith
split_at_slash [] (d ∷ q) s t hp hq e = absurd (ground (arith, hq.0))
split_at_slash (c ∷ p) [] s t hp hq e = absurd (ground (arith, hp.0))
split_at_slash (c ∷ p) (d ∷ q) s t hp hq e =
    ground (arith, split_at_slash p q s t hp.1 hq.1 (ground arith))

-- Two keys that `SourceKey::new` made have the same canonical form only if they are the same key:
-- the form, which rate limits and permissions rest on, confuses no two sources.
pub canonical_injective :
    (j k : SourceKey) → IsSource j → IsSource k → canonical j ≡ canonical k → j ≡ k
unfolding canonical
canonical_injective j k hj hk e =
    let (p, s) =
      split_at_slash j.project k.project j.source_id k.source_id hj.project.no_slash
        hk.project.no_slash e in
    λ i. record { project = p i; source_id = s i }

pub IsComponent-IsSegment : {s : Str} → IsComponent s → IsSegment s
IsComponent-IsSegment h = record {
  nonempty = h.nonempty;
  not_dot = h.not_dot;
  no_slash = h.no_slash;
}
