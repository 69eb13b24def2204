-- ===== src/Logs/Export/Gate.antt =====
-- Whose queues an export may touch, and how long they grow.
use rs_detritus.Common.{
  true, false, Option, none, some, List, [], ◌∷◌, ◌++◌, ◌≤◌, ltb, length, ◌==◌, nat_eq, list_eq,
  Result, ok, err, panic, map_err, ◌≡◌, inl, inr, refl, ap, ◌∙◌, arith, Bool-cases, eq_iff,
  length-append,
}
use rs_detritus.Common.Ends.{
  Ends, Ends-ok, Ends-err, Ends-bind, Ends-weaken, lift-Ends, lift-bind-Ends, guard-bind-Ends,
  map_err-runs,
}
use rs_detritus.Common.Table.{lookup, insert, lookup-insert}
use rs_detritus.Storage.{SourceKey}
use rs_detritus.Auth.{TokenContext, permits}
use rs_detritus.RateLimit.{check_logs}
use rs_detritus.RateLimit.Float.{Float64}
use rs_detritus.RateLimit.Buckets.{check-runs}
use rs_detritus.Protocol.{log_attributes}
use rs_detritus.Schemas.{
  SchemaError, io, parse, unknown_schema, validation, SchemaRegistry, validate,
}
use rs_detritus.Schemas.Default.{validate-runs}
use rs_detritus.Logs.{
  JsonValues, LogRecord, ScopeLogs, ResourceLogs, log_record_json,
  resource_logs_to_validation_value,
}
use rs_detritus.Logs.Requests.{
  truncate_message, violation_message, validate_protocol_metadata, source_from_resource_logs,
}
use rs_detritus.Logs.Requests.Truncation.{
  truncate_message-runs, validate_protocol_metadata-runs, source_from_resource_logs-runs,
}
use rs_detritus.Logs.Writers.{
  LogWriterPool, open_queue, sender_for, try_send, queue_of, writer_channel_capacity, source_key_eq,
}
use rs_detritus.Logs.Export.{
  LogsWorld, ExportRequest, on_log_metrics, answer_schema, validate_batch, limit_logs, start_writer,
  sent, send_record, send_records, send_scopes, accept_resource, accept_batch, export_inner,
  token_from_extensions,
}

-- No queue holds more lines than its channel has room for.
abbrev pub IsBounded : {J : Type 0} → LogWriterPool J → Type 0
IsBounded {J} pool = (k : SourceKey) → length (queue_of J (lookup k pool)) ≤ writer_channel_capacity

module _ (V : JsonValues) (F : Float64) (t : TokenContext) (w : LogsWorld V F) where
  -- What an export with the token leaves of the queues: those of other sources, and the bound.
  pub record IsConfinedTo (w' : LogsWorld V F) : Type 0 where
    pub others : (k : SourceKey) → permits t k ≡ false → lookup k w'.pool ≡ lookup k w.pool
    pub bounded : IsBounded w'.pool

  abbrev Nothing : Unit {0} → LogsWorld V F → Type 0
  Nothing a w' = Unit

  -- A queue of a permitted source may change to one within the bound.
  IsConfinedTo-insert :
      (source : SourceKey) (queue : List V.Json) (v : LogsWorld V F)
      → permits t source ≡ true
      → length queue ≤ writer_channel_capacity
      → IsConfinedTo v
      → IsConfinedTo (record v { pool = insert source queue v.pool })
  IsConfinedTo-insert source queue v mine room h = record {
    others = λ k other. elim (Bool-cases (source == k)) [
      | inl same ↦
          let e : source ≡ k = (eq_iff source k).0 same in
          absurd (cc (mine, other, ap (permits t) e))
      | inr apart ↦ lookup-insert source k queue v.pool ∙ rw apart (h.others k other)
    ];
    bounded = λ k. elim (Bool-cases (source == k)) [
      | inl same ↦ rw (lookup-insert source k queue v.pool, same) room
      | inr apart ↦ rw (lookup-insert source k queue v.pool, apart) (h.bounded k)
    ];
  }

  sent-Ends :
      (source : SourceKey) (line : V.Json) (v : LogsWorld V F)
      → permits t source ≡ true
      → IsConfinedTo v
      → Ends IsConfinedTo Nothing (sent V F source (try_send V.Json source line v.pool) v)
  unfolding sent try_send
  sent-Ends source line v mine h =
      let queue = queue_of V.Json (lookup source v.pool) in
      elim (Bool-cases (ltb (length queue) writer_channel_capacity)) [
        | inl room ↦
            let long : length (queue ++ (line ∷ [])) ≤ writer_channel_capacity =
              ground (arith, length-append queue (line ∷ [])) in
            let h' = IsConfinedTo-insert source (queue ++ (line ∷ [])) v mine long h in
            rw room (Ends-ok tt _ (record { others = h'.others; bounded = h'.bounded }) tt)
        | inr full ↦ rw full (Ends-err _ v h)
      ]

  send_record-Ends :
      (source : SourceKey) (r : LogRecord V) (v : LogsWorld V F)
      → permits t source ≡ true
      → IsConfinedTo v
      → Ends IsConfinedTo Nothing (send_record V F source r v)
  unfolding send_record
  send_record-Ends source r v mine h = sent-Ends source (log_record_json V r) v mine h

  send_records-Ends :
      (source : SourceKey) (rs : List (LogRecord V)) (v : LogsWorld V F)
      → permits t source ≡ true
      → IsConfinedTo v
      → Ends IsConfinedTo Nothing (send_records V F source rs v)
  unfolding send_records
  send_records-Ends source [] v mine h = Ends-ok tt v h tt
  send_records-Ends source (r ∷ rs) v mine h =
      Ends-bind Nothing Nothing (send_record V F source r) _ v (send_record-Ends source r v mine h)
        (λ _ v' h' _. send_records-Ends source rs v' mine h')

  send_scopes-Ends :
      (source : SourceKey) (ss : List (ScopeLogs V)) (v : LogsWorld V F)
      → permits t source ≡ true
      → IsConfinedTo v
      → Ends IsConfinedTo Nothing (send_scopes V F source ss v)
  unfolding send_scopes
  send_scopes-Ends source [] v mine h = Ends-ok tt v h tt
  send_scopes-Ends source (s ∷ ss) v mine h =
      Ends-bind Nothing Nothing (send_records V F source s.log_records) _ v
        (send_records-Ends source s.log_records v mine h)
        (λ _ v' h' _. send_scopes-Ends source ss v' mine h')

  limit_logs-Ends :
      (source : SourceKey) (v : LogsWorld V F)
      → IsConfinedTo v
      → Ends IsConfinedTo Nothing (limit_logs V F t source v)
  unfolding limit_logs check_logs
  limit_logs-Ends source v h =
      let answer = (check_logs F t.id source v.now v.limiter).0 in
      Ends-weaken _ Nothing _ (λ a s _. tt)
        (lift-Ends (map_err _ answer) _
          (map_err-runs _ answer (check-runs F _ t.id source _ _ v.now v.limiter))
          (record { others = h.others; bounded = h.bounded }))

  open_queue-IsConfinedTo :
      (source : SourceKey) (o : Option (List V.Json)) (v : LogsWorld V F)
      → permits t source ≡ true
      → IsConfinedTo v
      → IsConfinedTo (record v { pool = open_queue V.Json source o v.pool })
  unfolding open_queue
  open_queue-IsConfinedTo source none v mine h =
      IsConfinedTo-insert source [] v mine (omega arith) h
  open_queue-IsConfinedTo source (some queue) v mine h = record {
    others = h.others;
    bounded = h.bounded;
  }

  start_writer-Ends :
      (source : SourceKey) (v : LogsWorld V F)
      → permits t source ≡ true
      → IsConfinedTo v
      → Ends IsConfinedTo Nothing (start_writer V F source v)
  unfolding start_writer sender_for
  start_writer-Ends source v mine h =
      Ends-ok tt _ (open_queue-IsConfinedTo source (lookup source v.pool) v mine h) tt

  accept_resource-Ends :
      (r : ResourceLogs V) (v : LogsWorld V F)
      → IsConfinedTo v
      → Ends IsConfinedTo Nothing (accept_resource V F t r v)
  unfolding accept_resource
  accept_resource-Ends r v h =
      lift-bind-Ends Nothing (source_from_resource_logs V r) _ v
        (source_from_resource_logs-runs V r) h
        λ source _. guard-bind-Ends Nothing (permits t source) _ _ v h λ mine.
          Ends-bind Nothing Nothing (limit_logs V F t source) _ v (limit_logs-Ends source v h)
            λ _ v1 h1 _.
              Ends-bind Nothing Nothing (start_writer V F source) _ v1
                (start_writer-Ends source v1 mine h1)
                (λ _ v2 h2 _. send_scopes-Ends source r.scope_logs v2 mine h2)

  accept_batch-Ends :
      (rs : List (ResourceLogs V)) (v : LogsWorld V F)
      → IsConfinedTo v
      → Ends IsConfinedTo Nothing (accept_batch V F t rs v)
  unfolding accept_batch
  accept_batch-Ends [] v h = Ends-ok tt v h tt
  accept_batch-Ends (r ∷ rs) v h =
      Ends-bind Nothing Nothing (accept_resource V F t r) _ v (accept_resource-Ends r v h)
        (λ _ v' h' _. accept_batch-Ends rs v' h')

  -- The test of the schemas reaches neither the queues nor the rate limiter.
  pub record IsJudged (v : LogsWorld V F) : Type 0 where
    pub pool : v.pool ≡ w.pool
    pub limiter : v.limiter ≡ w.limiter

  answer_schema-Ends :
      (r : Result SchemaError (Unit {0})) (v : LogsWorld V F)
      → ¬ (r ≡ panic)
      → IsJudged v
      → Ends IsJudged Nothing (answer_schema V F r v)
  unfolding answer_schema on_log_metrics
  answer_schema-Ends (ok a) v n h = Ends-ok tt v h tt
  answer_schema-Ends panic v n h = absurd (n refl)
  answer_schema-Ends (err (validation kind errors)) v n h =
      lift-bind-Ends Nothing (truncate_message (violation_message errors)) _ _
        (truncate_message-runs (violation_message errors))
        (record { pool = h.pool; limiter = h.limiter })
        (λ m _. Ends-err _ _ (record { pool = h.pool; limiter = h.limiter }))
  answer_schema-Ends (err (io p e)) v n h = Ends-err _ v h
  answer_schema-Ends (err (parse p s)) v n h = Ends-err _ v h
  answer_schema-Ends (err (unknown_schema p k)) v n h = Ends-err _ v h

  validate_batch-Ends :
      (registry : SchemaRegistry V.Json) (rs : List (ResourceLogs V)) (v : LogsWorld V F)
      → IsJudged v
      → Ends IsJudged Nothing (validate_batch V F registry t rs v)
  unfolding validate_batch
  validate_batch-Ends registry [] v h = Ends-ok tt v h tt
  validate_batch-Ends registry (r ∷ rs) v h =
      let judged =
        validate V.Json registry t.project log_attributes (resource_logs_to_validation_value V r) in
      Ends-bind Nothing Nothing (answer_schema V F judged) _ v
        (answer_schema-Ends judged v (validate-runs V.Json _ _ _ _) h)
        (λ _ v' h' _. validate_batch-Ends registry rs v' h')

  IsJudged-IsConfinedTo : (v : LogsWorld V F) → IsBounded w.pool → IsJudged v → IsConfinedTo v
  IsJudged-IsConfinedTo v room h = record {
    others = λ k other. ap (lookup k) h.pool;
    bounded = λ k. rw h.pool (room k);
  }

  -- From queues within the capacity of their channels, however an export with this token ends, it
  -- does not panic, the queue of every source that the token does not permit is as it was, and no
  -- queue grows past the capacity of its channel.
  pub export_inner-IsConfinedTo :
      (registry : SchemaRegistry V.Json) (request : ExportRequest V F)
      → IsBounded w.pool
      → request.token ≡ some t
      → Ends IsConfinedTo Nothing (export_inner V F registry request w)
  unfolding export_inner token_from_extensions
  export_inner-IsConfinedTo registry request room known =
      let fresh : IsConfinedTo w = record { others = λ k other. refl; bounded = room } in
      let judged =
        validate_batch-Ends registry request.resource_logs w
          (record { pool = refl; limiter = refl }) in
      rw known (
        lift-bind-Ends Nothing (validate_protocol_metadata request.version) _ w
          (validate_protocol_metadata-runs request.version) fresh
          λ _ _.
            Ends-bind Nothing Nothing (validate_batch V F registry t request.resource_logs) _ w
              (record {
                kept = IsJudged-IsConfinedTo _ room judged.kept;
                returned = judged.returned;
                runs = judged.runs;
              })
              (λ _ v h _. accept_batch-Ends request.resource_logs v h))
