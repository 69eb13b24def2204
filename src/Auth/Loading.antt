-- ===== src/Auth/Loading.antt =====
-- crates/detritus-server/src/auth.rs: the loading of the configuration. The text of the file, the TOML
-- crate and the schema files are parameters.
pub mod Projects
use mathlib.Core.List.{append_assoc, append-nil}
use rs_detritus.Common.{
  Str, Bool, true, false, Option, none, some, List, [], ◌∷◌, ◌++◌, bytes, map, nat_eq, list_eq,
  pair_eq, contains, if◌then◌else◌, ◌==◌, Result, ok, err, panic, and_then, map_err, ◌≡◌, refl, sym,
  ap, ◌∙◌, inl, inr, Bool-cases, eq_iff,
}
use rs_detritus.Common.Ends.{and_then-ok, map_err-ok}
use rs_detritus.Common.Table.{lookup}
use rs_detritus.FilePath.{FilePath, join, parent}
use rs_detritus.Storage.{IoError}
use rs_detritus.Protocol.{SchemaKind, schema_kind_eq}
use rs_detritus.RateLimit.{RateLimitConfig, default_rate_limit}
use rs_detritus.Schemas.{SchemaRegistry}
use rs_detritus.Schemas.Loading.{
  ProjectSchemaEntry, SchemaResourceEntry, SchemaOptions, SchemaLibraries, load_with_options,
  is_declared, load_with_options-declared,
}
use rs_detritus.Auth.{
  Argon2, TokenContext, TokenEntry, AuthConfigError, io, toml, invalid_hash,
  schema_project_mismatch, schema, to_context, check_hash, collect_tokens, require_tokens,
  from_entries,
}

-- A `[[schema]]` entry of the configuration, with its path as it is written there.
pub record SchemaEntry : Type 0 where
  pub project : Str
  pub kind : SchemaKind
  pub path : Str

pub record ResourceEntry : Type 0 where
  pub uri : Str
  pub path : Str

-- The `[schema_validation]` table, likewise.
pub record SchemaValidation : Type 0 where
  pub validate_formats : Option Bool
  pub ignore_unknown_formats : Option Bool
  pub resources : List ResourceEntry

pub record TokensConfig : Type 0 where
  pub token : List TokenEntry
  pub rate_limit : Option RateLimitConfig
  pub schema : List SchemaEntry
  pub schema_validation : SchemaValidation

pub record SecurityConfig (J : Type 0) : Type 0 where
  pub token_store : List TokenContext
  pub rate_limit : RateLimitConfig
  pub schema_registry : SchemaRegistry J

abbrev has_project : List TokenEntry → Str → Bool
has_project tokens project = contains (map (λ t. t.project) tokens) project

-- The loop over the schema entries.
unfoldable pub resolve_entries :
    List TokenEntry
    → FilePath
    → List SchemaEntry
    → List ProjectSchemaEntry
    → Result AuthConfigError (List ProjectSchemaEntry)
resolve_entries tokens dir [] resolved = ok resolved
resolve_entries tokens dir (e ∷ es) resolved =
    let rest =
      resolve_entries tokens dir es (
        resolved ++ (record { project = e.project; kind = e.kind; path = join dir e.path } ∷ [])) in
    if has_project tokens e.project then rest else err (schema_project_mismatch e.project e.kind)

resolve_resource : FilePath → ResourceEntry → SchemaResourceEntry
resolve_resource dir r = record { uri = r.uri; path = join dir r.path }

resolve_options : FilePath → SchemaValidation → SchemaOptions
resolve_options dir v = record {
  validate_formats = v.validate_formats;
  ignore_unknown_formats = v.ignore_unknown_formats;
  resources = map (resolve_resource dir) v.resources;
}

config_dir : Option FilePath → FilePath
config_dir none = bytes "." ∷ []
config_dir (some dir) = dir

rate_limit_or_default : Option RateLimitConfig → RateLimitConfig
rate_limit_or_default none = default_rate_limit
rate_limit_or_default (some config) = config

module _ (A : Argon2) (from_str : Str → Result Str TokensConfig) where
  -- `read_to_string` and the parser
  unfoldable pub read_config : Result IoError Str → Result AuthConfigError TokensConfig
  read_config file = and_then (map_err io file) (λ raw. map_err toml (from_str raw))

  -- The loop of `TokenStore::load`, which pushes.
  unfoldable pub push_tokens :
      List TokenEntry → List TokenContext → Result AuthConfigError (List TokenContext)
  unfolding check_hash
  push_tokens [] tokens = ok tokens
  push_tokens (e ∷ es) tokens = and_then (check_hash A e) (λ t. push_tokens es (tokens ++ (t ∷ [])))

  -- `TokenStore::load`
  unfoldable pub load : Result IoError Str → Result AuthConfigError (List TokenContext)
  unfolding require_tokens
  load file =
      and_then (read_config file)
        (λ config. and_then (push_tokens config.token []) (require_tokens A))

  push_step :
      (r : Result AuthConfigError TokenContext) (c : Result AuthConfigError (List TokenContext))
      (p : TokenContext → Result AuthConfigError (List TokenContext)) (tokens : List TokenContext)
      → ((t : TokenContext) → p t ≡ and_then c (λ ts. ok ((tokens ++ (t ∷ [])) ++ ts)))
      → and_then r p
        ≡ and_then (and_then r (λ t. and_then c (λ ts. ok (t ∷ ts)))) (λ ts. ok (tokens ++ ts))
  push_step (ok t) (ok ts) p tokens h = h t ∙ ap (λ l. ok l) (append_assoc tokens (t ∷ []) ts)
  push_step (ok t) (err e) p tokens h = h t
  push_step (ok t) panic p tokens h = h t
  push_step (err e) c p tokens h = refl
  push_step panic c p tokens h = refl

  empty_front :
      (c : Result AuthConfigError (List TokenContext))
      → and_then (and_then c (λ ts. ok ([] ++ ts))) (require_tokens A)
        ≡ and_then c (require_tokens A)
  empty_front (ok ts) = refl
  empty_front (err e) = refl
  empty_front panic = refl

  same_behind :
      (r : Result AuthConfigError TokensConfig)
      (f g : TokensConfig → Result AuthConfigError (List TokenContext))
      → ((config : TokensConfig) → f config ≡ g config)
      → and_then r f ≡ and_then r g
  same_behind (ok config) f g h = h config
  same_behind (err e) f g h = refl
  same_behind panic f g h = refl

  push_tokens-collect_tokens :
      (es : List TokenEntry) (tokens : List TokenContext)
      → push_tokens es tokens ≡ and_then (collect_tokens A es) (λ ts. ok (tokens ++ ts))
  unfolding push_tokens collect_tokens
  push_tokens-collect_tokens [] tokens = rw (append-nil tokens) refl
  push_tokens-collect_tokens (e ∷ es) tokens =
      push_step (check_hash A e) (collect_tokens A es) _ tokens
        (λ t. push_tokens-collect_tokens es (tokens ++ (t ∷ [])))

  -- Loading the token store from a file is reading and parsing the file and then taking the entries of
  -- its tokens as the security configuration takes them.
  pub load-from_entries :
      (file : Result IoError Str)
      → load file ≡ and_then (read_config file) (λ config. from_entries A config.token)
  unfolding load from_entries
  load-from_entries file = same_behind (read_config file) _ _ λ config.
      ap (λ r. and_then r (require_tokens A)) (push_tokens-collect_tokens config.token [])
      ∙ empty_front (collect_tokens A config.token)

  module _ (J : Type 0) (L : SchemaLibraries J) where
    -- `load_security_config`, of the file at this path.
    unfoldable pub load_security_config :
        FilePath → Result IoError Str → Result AuthConfigError (SecurityConfig J)
    unfolding resolve_resource resolve_options config_dir rate_limit_or_default
    load_security_config path file =
        let dir = config_dir (parent path) in
        and_then (read_config file) λ config.
          and_then (resolve_entries config.token dir config.schema []) λ entries.
            and_then (from_entries A config.token) λ token_store.
              and_then
                (map_err schema
                  (load_with_options J L entries (resolve_options dir config.schema_validation)))
                λ schema_registry. ok (record {
                  token_store = token_store;
                  rate_limit = rate_limit_or_default config.rate_limit;
                  schema_registry = schema_registry;
                })
