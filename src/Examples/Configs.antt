-- ===== src/Examples/Configs.antt =====
-- A configuration with one token and one schema.
use rs_detritus.Common.{
  ℕ, Str, none, some, List, [], ◌∷◌, bytes, Result, ok, err, and_then, ◌≡◌, refl, contains, nat_eq,
  list_eq, pair_eq,
}
use rs_detritus.Common.Table.{lookup, insert}
use rs_detritus.Storage.{IoError}
use rs_detritus.Protocol.{crash_metadata, schema_kind_eq}
use rs_detritus.RateLimit.{default_rate_limit}
use rs_detritus.Schemas.Loading.{
  SchemaLibraries, load_with_options, add_resources, insert_schemas, compile_entry, read_schema,
}
use rs_detritus.Auth.{from_entries, to_context}
use rs_detritus.Auth.Loading.{
  TokensConfig, SecurityConfig, read_config, load, load_security_config, load-from_entries,
  resolve_entries,
}
use rs_detritus.Auth.Loading.Projects.{load_security_config-unknown}
use rs_detritus.Examples.Tokens.{plain, writer}

abbrev parsed : TokensConfig
parsed = record {
  token = writer ∷ [];
  rate_limit = none;
  schema = record { project = bytes "acme"; kind = crash_metadata; path = bytes "s.json" } ∷ [];
  schema_validation = record {
    validate_formats = none;
    ignore_unknown_formats = none;
    resources = [];
  };
}

-- Every schema forbids everything.
abbrev schemas : SchemaLibraries ℕ
schemas = record {
  read = λ path. ok (bytes "{}");
  from_slice = λ s. ok 0;
  Registry = Unit;
  Prepared = Unit;
  empty_resources = tt;
  add = λ r uri j. ok tt;
  prepare = λ r. ok tt;
  build = λ r f u j. ok (λ n. bytes "no" ∷ []);
}

abbrev file : Result IoError Str
file = ok (bytes "toml")

load-from_entries_example :
    load plain (λ s. ok parsed) file
    ≡ and_then (read_config plain (λ s. ok parsed) file) (λ config. from_entries plain config.token)
load-from_entries_example = load-from_entries plain (λ s. ok parsed) file

abbrev security : SecurityConfig ℕ
security = record {
  token_store = to_context writer ∷ [];
  rate_limit = default_rate_limit;
  schema_registry = ((bytes "acme", crash_metadata), λ n. bytes "no" ∷ []) ∷ [];
}

loaded :
    load_security_config plain
      (λ s. ok parsed)
      ℕ
      schemas
      (bytes "/" ∷ bytes "etc" ∷ bytes "t" ∷ [])
      file
    ≡ ok security
unfolding load_security_config read_config resolve_entries contains rs_detritus.Common.list_beq
    bytes from_entries load_with_options add_resources insert_schemas compile_entry read_schema
    insert
loaded = refl

load_security_config-unknown_example :
    lookup (bytes "other", crash_metadata) security.schema_registry ≡ none
unfolding bytes rs_detritus.Common.list_beq rs_detritus.Common.contains to_context
load_security_config-unknown_example =
    load_security_config-unknown plain (λ s. ok parsed) ℕ schemas
      (bytes "/" ∷ bytes "etc" ∷ bytes "t" ∷ []) file security (bytes "other") crash_metadata loaded
      refl
