-- ===== src/Auth/Loading/Projects.antt =====
-- Which projects have schemas in a configuration that loads.
use rs_detritus.Common.{
  Str, true, false, none, List, [], ◌∷◌, ◌++◌, map, nat_eq, list_eq, pair_eq, contains, ◌==◌,
  Result, ok, err, panic, map_err, ◌≡◌, refl, sym, ap, ◌∙◌, inl, inr, Bool-cases, eq_iff,
}
use rs_detritus.Common.Ends.{and_then-ok, map_err-ok}
use rs_detritus.Common.Table.{lookup}
use rs_detritus.FilePath.{FilePath, join, parent}
use rs_detritus.Storage.{IoError}
use rs_detritus.Protocol.{SchemaKind, schema_kind_eq}
use rs_detritus.RateLimit.{RateLimitConfig}
use rs_detritus.Schemas.{SchemaRegistry}
use rs_detritus.Schemas.Loading.{
  ProjectSchemaEntry, SchemaLibraries, load_with_options, is_declared, load_with_options-declared,
}
use rs_detritus.Auth.{
  Argon2, TokenContext, TokenEntry, AuthConfigError, invalid_hash, schema, to_context, check_hash,
  collect_tokens, require_tokens, from_entries,
}
use rs_detritus.Auth.Loading.{
  SchemaEntry, TokensConfig, SecurityConfig, read_config, has_project, resolve_entries,
  resolve_options, config_dir, rate_limit_or_default, load_security_config,
}

module _ (A : Argon2) (from_str : Str → Result Str TokensConfig) (J : Type 0)
    (L : SchemaLibraries J) where
  required : (ts us : List TokenContext) → require_tokens A ts ≡ ok us → ts ≡ us
  unfolding require_tokens
  required [] us e = cc e
  required (t ∷ ts) us e = cc e

  is_declared-append :
      (entries : List ProjectSchemaEntry) (e : ProjectSchemaEntry) (pair : Str × SchemaKind)
      → is_declared J L entries pair ≡ false
      → ((e.project, e.kind) == pair) ≡ false
      → is_declared J L (entries ++ (e ∷ [])) pair ≡ false
  unfolding is_declared
  is_declared-append [] e pair h differs = rw differs refl
  is_declared-append (x ∷ entries) e pair h differs =
      elim (Bool-cases ((x.project, x.kind) == pair)) [
        | inl same ↦ absurd (cc (rw same at h))
        | inr other ↦ rw other (is_declared-append entries e pair (rw other at h) differs)
      ]

  -- A project that is known is another than one that is not.
  unknown_differs :
      (tokens : List TokenEntry) (known unknown : Str) (kind kind' : SchemaKind)
      → has_project tokens known ≡ true
      → has_project tokens unknown ≡ false
      → (◌==◌ {A = Str × SchemaKind} (known, kind) (unknown, kind')) ≡ false
  unknown_differs tokens known unknown kind kind' h k =
      elim (Bool-cases (◌==◌ {A = Str × SchemaKind} (known, kind) (unknown, kind'))) [
        | inl same ↦
            let projects : known ≡ unknown =
              ap {A = Str × SchemaKind} (λ p. p.0)
                ((eq_iff {A = Str × SchemaKind} (known, kind) (unknown, kind')).0 same) in
            absurd (cc (sym h ∙ ap (has_project tokens) projects ∙ k))
        | inr differs ↦ differs
      ]

  resolve_entries-unknown :
      (tokens : List TokenEntry) (dir : FilePath) (es : List SchemaEntry)
      (resolved entries : List ProjectSchemaEntry) (project : Str) (kind : SchemaKind)
      → resolve_entries tokens dir es resolved ≡ ok entries
      → has_project tokens project ≡ false
      → is_declared J L resolved (project, kind) ≡ false
      → is_declared J L entries (project, kind) ≡ false
  unfolding resolve_entries
  resolve_entries-unknown tokens dir [] resolved entries project kind e h d =
      let same : resolved ≡ entries = cc e in
      ap (λ x. is_declared J L x (project, kind)) (sym same) ∙ d
  resolve_entries-unknown tokens dir (x ∷ es) resolved entries project kind e h d =
      let entry : ProjectSchemaEntry = record {
        project = x.project;
        kind = x.kind;
        path = join dir x.path;
      } in
      elim (Bool-cases (has_project tokens x.project)) [
        | inl known ↦
            resolve_entries-unknown tokens dir es (resolved ++ (entry ∷ [])) entries project kind
              (rw known at e) h
              (is_declared-append resolved entry (project, kind) d
                (unknown_differs tokens x.project project x.kind kind known h))
        | inr unknown ↦ absurd (cc (rw unknown at e))
      ]

  checked_project :
      (x : TokenEntry) (r : Result Str A.Hash) (t : TokenContext)
      → elim r [
        | ok h ↦ ok (to_context x)
        | err message ↦ err (invalid_hash x.id message)
        | panic ↦ panic
      ]
        ≡ ok t
      → t.project ≡ x.project
  unfolding to_context
  checked_project x (ok h) t e =
      let same : to_context x ≡ t = cc e in ap (λ u. u.project) (sym same)
  checked_project x (err message) t e = cc e
  checked_project x panic t e = cc e

  projects_kept :
      (es : List TokenEntry) (ts : List TokenContext)
      → collect_tokens A es ≡ ok ts
      → map (λ t. t.project) ts ≡ map (λ t. t.project) es
  unfolding collect_tokens check_hash to_context
  projects_kept [] ts e = let empty : [] ≡ ts = cc e in ap (map (λ t. t.project)) (sym empty)
  projects_kept (x ∷ es) ts e =
      let (t, here, e1) = and_then-ok (check_hash A x) _ e in
      let (others, later, e2) = and_then-ok (collect_tokens A es) _ e1 in
      let whole : t ∷ others ≡ ts = cc e2 in
      ap (map (λ u. u.project)) (sym whole)
      ∙ (ap (λ p. p ∷ map (λ u. u.project) others)
            (checked_project x (A.parse_hash x.secret) t here)
          ∙ ap (λ ps. x.project ∷ ps) (projects_kept es others later))

  registered_known :
      (config : TokensConfig) (dir : FilePath) (entries : List ProjectSchemaEntry)
      (tokens : List TokenContext) (registry : SchemaRegistry J) (project : Str) (kind : SchemaKind)
      → resolve_entries config.token dir config.schema [] ≡ ok entries
      → from_entries A config.token ≡ ok tokens
      → load_with_options J L entries (resolve_options dir config.schema_validation) ≡ ok registry
      → contains (map (λ t. t.project) tokens) project ≡ false
      → lookup (project, kind) registry ≡ none
  unfolding from_entries is_declared
  registered_known config dir entries tokens registry project kind b c d h =
      let (collected, c1, c2) = and_then-ok (collect_tokens A config.token) _ c in
      let same : collected ≡ tokens = required collected tokens c2 in
      let projects = projects_kept config.token collected c1 in
      let unknown : has_project config.token project ≡ false =
        ap (λ ps. contains ps project) (sym projects ∙ ap (map (λ t. t.project)) same) ∙ h in
      load_with_options-declared J L entries (resolve_options dir config.schema_validation) registry
        (project, kind) d
        (resolve_entries-unknown config.token dir config.schema [] entries project kind b unknown
          refl)

  loaded_fields :
      (tokens : List TokenContext) (rate_limit : RateLimitConfig) (registry : SchemaRegistry J)
      (security : SecurityConfig J)
      → Path
          (Result AuthConfigError (SecurityConfig J))
          (ok
            (record { token_store = tokens; rate_limit = rate_limit; schema_registry = registry }))
          (ok security)
      → (tokens ≡ security.token_store) × (registry ≡ security.schema_registry)
  loaded_fields tokens rate_limit registry security e =
      let made : SecurityConfig J = record {
        token_store = tokens;
        rate_limit = rate_limit;
        schema_registry = registry;
      } in
      let whole : made ≡ security = cc e in
      (ap (λ s. s.token_store) whole, ap (λ s. s.schema_registry) whole)

  -- In a configuration that loads no project has a schema unless it has a token: where no token of the
  -- store is of a project, the registry has no schema of any kind for it.
  pub load_security_config-unknown :
      (path : FilePath) (file : Result IoError Str) (security : SecurityConfig J) (project : Str)
      (kind : SchemaKind)
      → load_security_config A from_str J L path file ≡ ok security
      → contains (map (λ t. t.project) security.token_store) project ≡ false
      → lookup (project, kind) security.schema_registry ≡ none
  unfolding load_security_config
  load_security_config-unknown path file security project kind e h =
      let dir = config_dir (parent path) in
      let (config, a, e1) = and_then-ok (read_config A from_str file) _ e in
      let (entries, b, e2) = and_then-ok (resolve_entries config.token dir config.schema []) _ e1 in
      let (tokens, c, e3) = and_then-ok (from_entries A config.token) _ e2 in
      let (registry, d, e4) =
        and_then-ok
          (map_err schema
            (load_with_options J L entries (resolve_options dir config.schema_validation)))
          _ e3 in
      let loaded =
        map_err-ok schema
          (load_with_options J L entries (resolve_options dir config.schema_validation)) d in
      let (store, schemas) =
        loaded_fields tokens (rate_limit_or_default config.rate_limit) registry security e4 in
      ap (lookup (project, kind)) (sym schemas)
      ∙ registered_known config dir entries tokens registry project kind b c loaded
          (ap (λ ts. contains (map (λ t. t.project) ts) project) store ∙ h)
