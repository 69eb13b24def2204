-- ===== src/Schemas/Default.antt =====
-- When a payload is accepted.
use rs_detritus.Common.{
  Str, Option, none, some, List, [], ◌∷◌, nat_eq, list_eq, pair_eq, ok, err, ◌≡◌, ◌≢◌, refl, arith,
  inl, inr, ◌⊎◌, panic,
}
use rs_detritus.Common.Table.{lookup}
use rs_detritus.Protocol.{SchemaKind, schema_kind_eq}
use rs_detritus.Schemas.{
  validation, CompiledSchema, SchemaRegistry, report, check_compiled, validate,
}

module _ (J : Type 0) where
  -- The violations that the registered schema finds; none where no schema is registered.
  abbrev pub violations : SchemaRegistry J → Str → SchemaKind → J → List Str
  violations registry project kind payload = elim (lookup (project, kind) registry) [
    | none ↦ []
    | some compiled ↦ compiled payload
  ]

  check_compiled_lem :
      (kind : SchemaKind) (payload : J) (o : Option (CompiledSchema J))
      → let vs : List Str = elim o [ none ↦ [] | some compiled ↦ compiled payload ] in
        (vs ≡ [] → check_compiled J kind payload o ≡ ok tt)
        × (vs ≢ [] → check_compiled J kind payload o ≡ err (validation kind vs))
  unfolding check_compiled
  check_compiled_lem kind payload none = (λ _. refl, λ n. absurd (n refl))
  check_compiled_lem kind payload (some compiled) = (λ e. rw (e, report), λ n. ground arith)

  List-cases : (xs : List Str) → (xs ≡ []) ⊎ (xs ≢ [])
  List-cases [] = inl refl
  List-cases (x ∷ xs) = inr (λ e. cc e)

  check_compiled-runs :
      (kind : SchemaKind) (payload : J) (o : Option (CompiledSchema J))
      → ¬ (check_compiled J kind payload o ≡ panic)
  unfolding check_compiled
  check_compiled-runs kind payload none e = cc e
  check_compiled-runs kind payload (some compiled) e = ground arith

  pub validate-runs :
      (registry : SchemaRegistry J) (project : Str) (kind : SchemaKind) (payload : J)
      → ¬ (validate J registry project kind payload ≡ panic)
  unfolding validate
  validate-runs registry project kind payload =
      check_compiled-runs kind payload (lookup (project, kind) registry)

  -- A payload is accepted where its project has no schema of the kind or the schema finds no violation
  -- in it. Otherwise the answer is the validation error that carries every violation, and no other.
  pub validate_lem :
      (registry : SchemaRegistry J) (project : Str) (kind : SchemaKind) (payload : J)
      → ((violations registry project kind payload ≡ [])
          × (validate J registry project kind payload ≡ ok tt))
        ⊎ ((violations registry project kind payload ≢ [])
            × (validate J registry project kind payload
                ≡ err (validation kind (violations registry project kind payload))))
  unfolding validate
  validate_lem registry project kind payload =
      let (accepted, refused) = check_compiled_lem kind payload (lookup (project, kind) registry) in
      elim (List-cases (violations registry project kind payload)) [
        | inl e ↦ inl (e, accepted e)
        | inr n ↦ inr (n, refused n)
      ]
