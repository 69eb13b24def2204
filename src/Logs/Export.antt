-- ===== src/Logs/Export.antt =====
-- crates/detritus-server/src/logs.rs: `export` and `export_inner`.
pub mod Gate
pub mod Refused
use rs_detritus.Common.{
  ℕ, Str, Bool, true, false, Option, none, some, List, [], ◌∷◌, bytes, length, Result, ok, err,
  panic, Action, pure, throw, lift, map_err, ok_or, if◌then◌else◌, ◌>>=◌, ◌>>◌,
}
use rs_detritus.Common.Table.{lookup}
use rs_detritus.Storage.{SourceKey, canonical}
use rs_detritus.Auth.{TokenContext, permits}
use rs_detritus.RateLimit.{RateLimiter, check_logs}
use rs_detritus.RateLimit.Float.{Float64}
use rs_detritus.Metrics.{
  Metrics, observe_request, observe_validation_failure, set_writer_queue_depth,
}
use rs_detritus.Protocol.{log_attributes}
use rs_detritus.Schemas.{SchemaError, validation, SchemaRegistry, validate}
use rs_detritus.Logs.{
  Code, unauthenticated, code_permission_denied, resource_exhausted, invalid_argument,
  internal_code, Status, grpc_status_label, JsonValues, LogRecord, log_record_json, ScopeLogs,
  ResourceLogs, resource_logs_to_validation_value,
}
use rs_detritus.Logs.Requests.{
  refuse, validate_protocol_metadata, source_from_resource_logs, truncate_message,
  violation_message,
}
use rs_detritus.Logs.Writers.{LogWriterPool, sender_for, try_send, queue_of, source_key_eq}

module _ (V : JsonValues) (F : Float64) where
  pub record LogsWorld : Type 0 where
    pub limiter : RateLimiter F
    pub metrics : Metrics
    pub pool : LogWriterPool V.Json
    pub now : ℕ

  -- The metadata entry of the version, the token that the middleware left, and the batch.
  pub record ExportRequest : Type 0 where
    pub version : Option (Option Str)
    pub token : Option TokenContext
    pub resource_logs : List (ResourceLogs V)

  abbrev pub Exporting : Type 0 → Type 0
  Exporting A = Action LogsWorld Status A

  -- `token_from_extensions`
  unfoldable pub token_from_extensions : Option TokenContext → Result Status TokenContext
  token_from_extensions token = ok_or (refuse unauthenticated (bytes "missing token context")) token

  on_log_metrics : (Metrics → Metrics) → Exporting (Unit {0})
  on_log_metrics f w = (ok tt, record w { metrics = f w.metrics })

  answer_schema : Result SchemaError (Unit {0}) → Exporting (Unit {0})
  answer_schema (ok _) = pure tt
  answer_schema panic = lift panic
  answer_schema (err (validation kind errors)) = do
    on_log_metrics (observe_validation_failure (bytes "logs"))
    truncated ← lift (truncate_message (violation_message errors))
    throw (refuse invalid_argument truncated)
  answer_schema (err _) = throw (refuse internal_code (bytes "schema validation internal error"))

  -- The first loop of `export_inner`: every resource of the batch against the schema of the token's
  -- project.
  unfoldable pub validate_batch :
      SchemaRegistry V.Json → TokenContext → List (ResourceLogs V) → Exporting (Unit {0})
  unfolding answer_schema on_log_metrics
  validate_batch registry token [] = pure tt
  validate_batch registry token (r ∷ rs) = do
    answer_schema (
        validate V.Json registry token.project log_attributes
          (resource_logs_to_validation_value V r))
    validate_batch registry token rs

  limit_logs : TokenContext → SourceKey → Exporting (Unit {0})
  limit_logs token source w =
      let (r, limiter) = check_logs F token.id source w.now w.limiter in
      (
        map_err (λ _. refuse resource_exhausted (bytes "log rate limit exceeded")) r,
        record w { limiter = limiter },
      )

  start_writer : SourceKey → Exporting (Unit {0})
  start_writer source w = (ok tt, record w { pool = sender_for V.Json source w.pool })

  sent : SourceKey → Option (LogWriterPool V.Json) → Exporting (Unit {0})
  sent source none w = (err (refuse resource_exhausted (bytes "log writer queue is full")), w)
  sent source (some pool) w = (
    ok tt,
    record w {
      pool = pool;
      metrics =
          set_writer_queue_depth (canonical source) (length (queue_of V.Json (lookup source pool)))
            w.metrics;
    },
  )

  -- One record: the queue and the gauge of its depth.
  unfoldable pub send_record : SourceKey → LogRecord V → Exporting (Unit {0})
  unfolding sent
  send_record source r w = sent source (try_send V.Json source (log_record_json V r) w.pool) w

  unfoldable pub send_records : SourceKey → List (LogRecord V) → Exporting (Unit {0})
  send_records source [] = pure tt
  send_records source (r ∷ rs) = do send_record source r; send_records source rs

  unfoldable pub send_scopes : SourceKey → List (ScopeLogs V) → Exporting (Unit {0})
  send_scopes source [] = pure tt
  send_scopes source (s ∷ ss) = do send_records source s.log_records; send_scopes source ss

  -- The body of the second loop.
  unfoldable pub accept_resource : TokenContext → ResourceLogs V → Exporting (Unit {0})
  unfolding limit_logs start_writer
  accept_resource token r = do
    source ← lift (source_from_resource_logs V r)
    if permits token source
        then pure tt
        else throw
            (refuse code_permission_denied (bytes "token is not permitted to write this source"))
    limit_logs token source
    start_writer source
    send_scopes source r.scope_logs

  unfoldable pub accept_batch : TokenContext → List (ResourceLogs V) → Exporting (Unit {0})
  accept_batch token [] = pure tt
  accept_batch token (r ∷ rs) = do accept_resource token r; accept_batch token rs

  unfoldable pub export_inner : SchemaRegistry V.Json → ExportRequest → Exporting (Unit {0})
  export_inner registry request = do
    lift (validate_protocol_metadata request.version)
    token ← lift (token_from_extensions request.token)
    validate_batch registry token request.resource_logs
    accept_batch token request.resource_logs

  observe_export : ℕ → Result Status (Unit {0}) → LogsWorld → Result Status (Unit {0}) × LogsWorld
  observe_export elapsed panic w = (panic, w)
  observe_export elapsed (ok a) w =
      (ok a, record w { metrics = observe_request (bytes "logs") (bytes "200") elapsed w.metrics })
  observe_export elapsed (err e) w = (
    err e,
    record w {
      metrics = observe_request (bytes "logs") (grpc_status_label e.code) elapsed w.metrics;
    },
  )

  -- `export`, with the time that the request took
  unfoldable pub export : SchemaRegistry V.Json → ExportRequest → ℕ → Exporting (Unit {0})
  unfolding observe_export
  export registry request elapsed w =
      let (r, w') = export_inner registry request w in observe_export elapsed r w'
