-- ===== src/Metrics.antt =====
-- crates/detritus-server/src/metrics.rs: the counters and gauges of the server. The Prometheus
-- registry and its text encoder are not part of the model: a counter with labels is a table.
use rs_detritus.Common.{
  ℕ, Str, ◌+◌, ◌%◌, ◌^◌, Option, none, some, List, [], ◌∷◌, ◌++◌, bytes, nat_eq, list_eq, pair_eq,
}
use rs_detritus.Common.Table.{Table, lookup, insert}

pub record Metrics : Type 0 where
  pub requests_total : Table (Str × Str) ℕ
  -- the durations observed for an endpoint, in nanoseconds
  pub request_durations : Table Str (List ℕ)
  pub bytes_ingested_total : Table Str ℕ
  pub dedup_hits_total : ℕ
  pub validation_failures_total : Table Str ℕ
  -- a gauge holds the bits of its `i64`
  pub writer_queue_depth : Table Str ℕ
  pub janitor_cycles_total : ℕ
  pub janitor_blobs_freed_total : ℕ
  pub janitor_bytes_freed_total : ℕ
  pub janitor_cycle_durations : Table Str (List ℕ)
  pub janitor_last_logs_deleted : ℕ
  pub janitor_last_indexes_deleted : ℕ
  pub janitor_last_blobs_deleted : ℕ

pub record JanitorMetricStats : Type 0 where
  pub logs_deleted : ℕ
  pub indexes_deleted : ℕ
  pub blobs_deleted : ℕ
  pub bytes_freed : ℕ

abbrev pub count_or_zero : Option ℕ → ℕ
count_or_zero none = 0
count_or_zero (some n) = n

-- `inc_by` of a counter of 64 bits
abbrev pub add_u64 : ℕ → ℕ → ℕ
add_u64 c n = (c + n) % 2 ^ 64

abbrev observations_or_nil : Option (List ℕ) → List ℕ
observations_or_nil none = []
observations_or_nil (some l) = l

unfoldable pub new_metrics : Metrics
new_metrics = record {
  requests_total = [];
  request_durations = [];
  bytes_ingested_total = [];
  dedup_hits_total = 0;
  validation_failures_total = [];
  writer_queue_depth = (bytes "none", 0) ∷ [];
  janitor_cycles_total = 0;
  janitor_blobs_freed_total = 0;
  janitor_bytes_freed_total = 0;
  janitor_cycle_durations = [];
  janitor_last_logs_deleted = 0;
  janitor_last_indexes_deleted = 0;
  janitor_last_blobs_deleted = 0;
}

unfoldable pub observe_request : Str → Str → ℕ → Metrics → Metrics
observe_request endpoint status duration m = record m {
  requests_total =
      insert (endpoint, status)
        (add_u64 (count_or_zero (lookup (endpoint, status) m.requests_total)) 1) m.requests_total;
  request_durations =
      insert endpoint (observations_or_nil (lookup endpoint m.request_durations) ++ (duration ∷ []))
        m.request_durations;
}

unfoldable pub observe_bytes : Str → ℕ → Metrics → Metrics
observe_bytes endpoint n m = record m {
  bytes_ingested_total =
      insert endpoint (add_u64 (count_or_zero (lookup endpoint m.bytes_ingested_total)) n)
        m.bytes_ingested_total;
}

unfoldable pub observe_dedup_hit : Metrics → Metrics
observe_dedup_hit m = record m { dedup_hits_total = add_u64 m.dedup_hits_total 1 }

unfoldable pub observe_validation_failure : Str → Metrics → Metrics
observe_validation_failure endpoint m = record m {
  validation_failures_total =
      insert endpoint (add_u64 (count_or_zero (lookup endpoint m.validation_failures_total)) 1)
        m.validation_failures_total;
}

unfoldable pub set_writer_queue_depth : Str → ℕ → Metrics → Metrics
set_writer_queue_depth source_id depth m = record m {
  writer_queue_depth = insert source_id depth m.writer_queue_depth;
}

unfoldable pub observe_janitor : Str → ℕ → JanitorMetricStats → Metrics → Metrics
observe_janitor result duration stats m = record m {
  janitor_cycles_total = add_u64 m.janitor_cycles_total 1;
  janitor_blobs_freed_total = add_u64 m.janitor_blobs_freed_total stats.blobs_deleted;
  janitor_bytes_freed_total = add_u64 m.janitor_bytes_freed_total stats.bytes_freed;
  janitor_cycle_durations =
      insert result
        (observations_or_nil (lookup result m.janitor_cycle_durations) ++ (duration ∷ []))
        m.janitor_cycle_durations;
  janitor_last_logs_deleted = stats.logs_deleted;
  janitor_last_indexes_deleted = stats.indexes_deleted;
  janitor_last_blobs_deleted = stats.blobs_deleted;
}
