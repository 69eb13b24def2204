-- ===== src/Auth.antt =====
-- crates/detritus-server/src/auth.rs: the token store, what a token permits, and the middleware that
-- authenticates a request. Argon2 is a parameter; the TOML file comes in parsed.
pub mod Store
pub mod Permission
pub mod Middleware
pub mod Loading
use rs_detritus.Common.{
  ℕ, Str, Bool, true, false, Option, none, some, List, [], ◌∷◌, ◌++◌, bytes, ◌&&◌, ◌||◌, ◌==◌,
  nat_eq, list_eq, if◌then◌else◌, Result, ok, err, panic, and_then, starts_with, strip_prefix,
}
use rs_detritus.Storage.{IoError, SourceKey, canonical}
use rs_detritus.Protocol.{SchemaKind}
use rs_detritus.Schemas.{SchemaError}
use rs_detritus.Metrics.{Metrics, observe_request}

-- The `argon2` crate: an encoded hash is parsed, with the parser's message where it is malformed, and a
-- presented secret is checked against it.
pub record Argon2 : Type 1 where
  pub Hash : Type 0
  pub parse_hash : Str → Result Str Hash
  pub verify_password : Str → Hash → Bool

pub record TokenContext : Type 0 where
  pub id : Str
  pub project : Str
  pub source_prefix : Str
  pub secret_hash : Str

-- `TokenContext::permits`
unfoldable pub permits : TokenContext → SourceKey → Bool
permits token source =
    source.project == token.project && starts_with token.source_prefix (canonical source)

-- A `[[token]]` entry of the configuration.
pub record TokenEntry : Type 0 where
  pub id : Str
  pub secret : Str
  pub project : Str
  pub source_prefix : Str

pub data AuthConfigError : Type 0 where
  io : IoError → AuthConfigError
  toml : Str → AuthConfigError
  no_tokens : AuthConfigError
  invalid_hash : Str → Str → AuthConfigError
  schema_project_mismatch : Str → SchemaKind → AuthConfigError
  schema : SchemaError → AuthConfigError

unfoldable pub to_context : TokenEntry → TokenContext
to_context e = record {
  id = e.id;
  project = e.project;
  source_prefix = e.source_prefix;
  secret_hash = e.secret;
}

module _ (A : Argon2) where
  verify_parsed : Str → Result Str A.Hash → Bool
  verify_parsed presented (ok h) = A.verify_password presented h
  verify_parsed presented (err _) = false
  verify_parsed presented panic = false

  -- `TokenContext::verify`: a malformed hash accepts nothing.
  unfoldable pub verify : TokenContext → Str → Bool
  unfolding verify_parsed
  verify token presented = verify_parsed presented (A.parse_hash token.secret_hash)

  -- `TokenStore::authenticate`: the first token that the secret fits.
  unfoldable pub authenticate : List TokenContext → Str → Option TokenContext
  authenticate [] presented = none
  authenticate (t ∷ ts) presented = if verify t presented then some t else authenticate ts presented

  check_hash : TokenEntry → Result AuthConfigError TokenContext
  check_hash e = elim (A.parse_hash e.secret) [
    | ok h ↦ ok (to_context e)
    | err message ↦ err (invalid_hash e.id message)
    | panic ↦ panic
  ]

  -- The loop over the entries: the first malformed hash ends it.
  unfoldable pub collect_tokens : List TokenEntry → Result AuthConfigError (List TokenContext)
  unfolding check_hash to_context
  collect_tokens [] = ok []
  collect_tokens (e ∷ es) =
      and_then (check_hash e) (λ t. and_then (collect_tokens es) (λ ts. ok (t ∷ ts)))

  require_tokens : List TokenContext → Result AuthConfigError (List TokenContext)
  require_tokens [] = err no_tokens
  require_tokens (t ∷ ts) = ok (t ∷ ts)

  -- `TokenStore::from_entries`
  unfoldable pub from_entries : List TokenEntry → Result AuthConfigError (List TokenContext)
  unfolding collect_tokens require_tokens
  from_entries es = and_then (collect_tokens es) require_tokens

-- A request as the middleware sees it. The outer `none` is a missing header, the inner one a header
-- that is no visible text; `token` is the extension that the middleware inserts.
pub record Request : Type 0 where
  pub path : Str
  pub authorization : Option (Option Str)
  pub token : Option TokenContext

pub record Response : Type 0 where
  pub status : ℕ
  pub message : Str

abbrev pub healthz_path : Str
healthz_path = bytes "/healthz"

abbrev pub metrics_path : Str
metrics_path = bytes "/metrics"

-- `endpoint_label`
unfoldable pub endpoint_label : Str → Str
endpoint_label path =
    if path == bytes "/v1/crashes"
    then bytes "crashes"
    else if path == bytes "/opentelemetry.proto.collector.logs.v1.LogsService/Export"
    then bytes "logs"
    else if path == metrics_path
    then bytes "metrics"
    else if path == healthz_path
    then bytes "healthz"
    else bytes "other"

-- `auth_error`, at the one status that the middleware uses
abbrev unauthorized : Str → Response
unauthorized message = record { status = 401; message = message }

module _ (A : Argon2) where
  -- The four tests in their order: the token of the request, or the message of the refusal.
  unfoldable pub bearer_token : List TokenContext → Option (Option Str) → Result Str TokenContext
  bearer_token store none = err (bytes "missing bearer token")
  bearer_token store (some none) = err (bytes "authorization header is not UTF-8")
  bearer_token store (some (some value)) = elim (strip_prefix (bytes "Bearer ") value) [
    | none ↦ err (bytes "authorization header must use Bearer")
    | some presented ↦ elim (authenticate A store presented) [
      | none ↦ err (bytes "invalid bearer token")
      | some context ↦ ok context
    ]
  ]

  module _ {S : Type 0} (observe : Str → Str → ℕ → S → S) where
    -- `auth_middleware`; `next` is the rest of the server, and `elapsed` the time since the start.
    unfoldable pub auth_middleware :
        List TokenContext → ℕ → (Request → S → Response × S) → Request → S → Response × S
    unfolding bearer_token
    auth_middleware store elapsed next request s =
        if request.path == healthz_path || request.path == metrics_path
        then next request s
        else elim (bearer_token store request.authorization) [
          | ok context ↦ next (record request { token = some context }) s
          | err message ↦
              (unauthorized message, observe (endpoint_label request.path) (bytes "401") elapsed s)
          | panic ↦ (unauthorized [], s)
        ]
