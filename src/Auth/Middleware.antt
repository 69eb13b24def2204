-- ===== src/Auth/Middleware.antt =====
-- What the middleware lets through, and what it counts.
use rs_detritus.Common.{
  ℕ, Str, true, false, Option, none, some, List, ◌++◌, bytes, ◌||◌, ◌==◌, nat_eq, list_eq, eq_iff,
  ok, err, ◌≡◌, ◌⊎◌, inl, inr, refl, arith, All, Bool-cases, ap, strip_prefix, strip_prefix_sound,
  strip_prefix-append, IsIn, All-map, All-intro, Option-cases, sym, ◌∙◌,
}
use rs_detritus.Auth.{
  Argon2, TokenContext, Request, Response, healthz_path, metrics_path, endpoint_label, verify,
  bearer_token, auth_middleware,
}
use rs_detritus.Auth.Store.{authenticate_first}

abbrev pub IsOpen : Str → Type 0
IsOpen path = (path ≡ healthz_path) ⊎ (path ≡ metrics_path)

module _ (A : Argon2) where
  -- The header holds a secret, behind `Bearer `, that the token verifies.
  pub record Carries (header : Option (Option Str)) (t : TokenContext) : Type 0 where
    pub secret : Str
    pub is_bearer : header ≡ some (some (bytes "Bearer " ++ secret))
    pub verified : verify A t secret ≡ true

  abbrev Verdict : List TokenContext → Option (Option Str) → Type 0
  Verdict store header =
      ((t : TokenContext) × (bearer_token A store header ≡ ok t) × IsIn t store × Carries header t)
      ⊎ ((message : Str) × (bearer_token A store header ≡ err message)
          × All (λ t. ¬ Carries header t) store)

  not_bearer :
      (value : Str) (t : TokenContext)
      → strip_prefix (bytes "Bearer ") value ≡ none
      → ¬ Carries (some (some value)) t
  not_bearer value t e c =
      let same : value ≡ bytes "Bearer " ++ c.secret = cc c.is_bearer in
      cc (
        e,
        ap (strip_prefix (bytes "Bearer ")) same,
        strip_prefix-append (bytes "Bearer ") c.secret,
      )

  not_verified :
      (value presented : Str) (t : TokenContext)
      → strip_prefix (bytes "Bearer ") value ≡ some presented
      → verify A t presented ≡ false
      → ¬ Carries (some (some value)) t
  not_verified value presented t e v c =
      let same : value ≡ bytes "Bearer " ++ c.secret = cc c.is_bearer in
      let found : some presented ≡ some c.secret =
        sym e
        ∙ ap (strip_prefix (bytes "Bearer ")) same
        ∙ strip_prefix-append (bytes "Bearer ") c.secret in
      let equal : presented ≡ c.secret = cc found in cc (c.verified, ap (verify A t) equal, v)

  judge_presented :
      (store : List TokenContext) (value presented : Str)
      → strip_prefix (bytes "Bearer ") value ≡ some presented
      → Verdict store (some (some value))
  unfolding bearer_token
  judge_presented store value presented e = elim (authenticate_first A store presented) [
    | inl (nobody, all) ↦ inr (
      bytes "invalid bearer token",
      rw (e, bearer_token, nobody),
      All-map store (λ t v. not_verified value presented t e v) all,
    )
    | inr (before, t, after, found, split, fits, all) ↦ inl (
      t,
      rw (e, bearer_token, found),
      (before, after, split),
      record {
        secret = presented;
        is_bearer = ap (λ v. some (some v)) (strip_prefix_sound (bytes "Bearer ") value e);
        verified = fits;
      },
    )
  ]

  judge : (store : List TokenContext) (header : Option (Option Str)) → Verdict store header
  unfolding bearer_token
  judge store none =
      inr (bytes "missing bearer token", refl, All-intro store (λ t c. cc c.is_bearer))
  judge store (some none) =
      inr (bytes "authorization header is not UTF-8", refl, All-intro store (λ t c. cc c.is_bearer))
  judge store (some (some value)) = elim (Option-cases (strip_prefix (bytes "Bearer ") value)) [
    | inl e ↦ inr (
      bytes "authorization header must use Bearer",
      rw (e, bearer_token),
      All-intro store (λ t. not_bearer value t e),
    )
    | inr (presented, e) ↦ judge_presented store value presented e
  ]

  module _ {S : Type 0} (observe : Str → Str → ℕ → S → S) where
    IsOpen-path : (path : Str) → (path == healthz_path || path == metrics_path) ≡ true → IsOpen path
    IsOpen-path path h = elim (Bool-cases (path == healthz_path)) [
      | inl health ↦ inl ((eq_iff path healthz_path).0 health)
      | inr other ↦ inr ((eq_iff path metrics_path).0 (ground arith))
    ]

    closed_path :
        (path : Str) → ¬ IsOpen path → (path == healthz_path || path == metrics_path) ≡ false
    closed_path path h = ground (
      arith,
      eq_iff path healthz_path,
      eq_iff path metrics_path,
      λ (e : path ≡ healthz_path). h (inl e),
      λ (e : path ≡ metrics_path). h (inr e),
    )

    not-IsOpen :
        (path : Str) → (path == healthz_path || path == metrics_path) ≡ false → ¬ IsOpen path
    not-IsOpen path h o = ground (arith, o, eq_iff path healthz_path, eq_iff path metrics_path)

    middleware-verdict :
        (store : List TokenContext) (elapsed : ℕ) (next : Request → S → Response × S) (r : Request)
        (s : S)
        → ¬ IsOpen r.path
        → ((t : TokenContext)
            → bearer_token A store r.authorization ≡ ok t
            → auth_middleware A observe store elapsed next r s
              ≡ next (record r { token = some t }) s)
          × ((message : Str)
              → bearer_token A store r.authorization ≡ err message
              → auth_middleware A observe store elapsed next r s ≡ (
                record { status = 401; message = message },
                observe (endpoint_label r.path) (bytes "401") elapsed s,
              ))
    unfolding auth_middleware
    middleware-verdict store elapsed next r s closed = (
      λ t e. rw (closed_path r.path closed) (rw (e, bearer_token) refl),
      λ message e. rw (closed_path r.path closed) (rw (e, bearer_token) refl),
    )

    -- `/healthz` and `/metrics` pass as they are. Any other request either holds `Bearer ` and a secret
    -- that a token of the store verifies, and passes with the context of such a token, or it holds
    -- none, is answered 401 and counted for its endpoint, and the rest of the server does not run.
    pub auth_middleware_lem :
        (store : List TokenContext) (elapsed : ℕ) (next : Request → S → Response × S) (r : Request)
        (s : S)
        → (IsOpen r.path × (auth_middleware A observe store elapsed next r s ≡ next r s))
          ⊎ ((¬ IsOpen r.path)
              × ((t : TokenContext) × IsIn t store
                  × Carries r.authorization t
                  × (auth_middleware A observe store elapsed next r s
                      ≡ next (record r { token = some t }) s)))
          ⊎ ((¬ IsOpen r.path)
              × All (λ t. ¬ Carries r.authorization t) store
              × ((message : Str) × (auth_middleware A observe store elapsed next r s ≡ (
                record { status = 401; message = message },
                observe (endpoint_label r.path) (bytes "401") elapsed s,
              ))))
    unfolding auth_middleware
    auth_middleware_lem store elapsed next r s =
        elim (Bool-cases (r.path == healthz_path || r.path == metrics_path)) [
          | inl passes ↦ inl (IsOpen-path r.path passes, rw passes)
          | inr guarded ↦
              let closed = not-IsOpen r.path guarded in
              elim (judge store r.authorization) [
                | inl (t, e, member, carries) ↦ inr (
                    inl (
                      closed,
                      (
                        t,
                        member,
                        carries,
                        (middleware-verdict store elapsed next r s closed).0 t e,
                      ),
                    ))
                | inr (message, e, all) ↦ inr (
                    inr (
                      closed,
                      all,
                      (message, (middleware-verdict store elapsed next r s closed).1 message e),
                    ))
              ]
        ]
