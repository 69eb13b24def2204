-- ===== src/Client/Layer.antt =====
-- crates/detritus-client/src/layer.rs and the log batches of spool.rs: the worker that exports log
-- records in batches. What `select!` yields is a list of events, and what comes of the calls of tonic
-- and of the disk is given in turn.
pub mod Worker
pub mod Kept
pub mod Identity
use rs_detritus.Common.{
  ℕ, Str, Bool, true, false, Option, none, some, List, [], ◌∷◌, ◌++◌, ◌+◌, ◌%◌, bytes, length, leb,
  if◌then◌else◌, Result, ok, err, panic, Action, pure, throw, map_err, map, nat_eq, list_eq, ◌==◌,
  ◌>>=◌, ◌>>◌,
}
use rs_detritus.Common.Table.{Table, lookup, insert, remove}
use rs_detritus.Storage.{IoError, other_io, not_found}
use rs_detritus.Protocol.{SourceId}
use rs_detritus.RateLimit.Float.{Float64}
use rs_detritus.Logs.{
  JsonValues, AnyValue, string_value, KeyValues, no_entries, entry, LogRecord, ScopeLogs,
  ResourceLogs,
}

abbrev pub default_batch_size : ℕ
default_batch_size = 256

pub data LayerError : Type 0 where
  missing_endpoint missing_token missing_source missing_queue_dir worker_stopped : LayerError
  flush_failed : Str → LayerError

-- What comes of `export_request` within the time limit.
pub data Outcome : Type 0 where
  accepted timed_out : Outcome
  refused : Str → Outcome

-- An operation of the disk that fails may leave anything in the file that it writes.
pub data DiskEvent : Type 0 where
  works : DiskEvent
  fails : IoError → Option Str → DiskEvent

pub data Level : Type 0 where
  error_level warn_level info_level debug_level trace_level : Level

-- `severity_number`, by the numbers of OTLP
unfoldable pub severity_number : Level → ℕ
severity_number error_level = 17
severity_number warn_level = 13
severity_number info_level = 9
severity_number debug_level = 5
severity_number trace_level = 1

unfoldable pub level_text : Level → Str
level_text error_level = bytes "ERROR"
level_text warn_level = bytes "WARN"
level_text info_level = bytes "INFO"
level_text debug_level = bytes "DEBUG"
level_text trace_level = bytes "TRACE"

module _ (V : JsonValues) where
  -- `ExportLogsServiceRequest`
  abbrev pub Request : Type 0
  Request = List (ResourceLogs V)

  unfoldable pub string_attr : Str → Str → KeyValues V → KeyValues V
  string_attr key value rest = entry key (string_value value) rest

  unfoldable pub export_request_for : SourceId → List (LogRecord V) → Request
  export_request_for source records =
      record {
        resource = some (
            string_attr (bytes "source.project") source.project (
              string_attr (bytes "source.platform") source.platform (
                string_attr (bytes "source.version") source.version
                  (string_attr (bytes "source.install_id") source.install_id no_entries))));
        scope_logs =
            record { scope = some (bytes "detritus-client", no_entries); log_records = records }
            ∷ [];
      }
      ∷ []

  -- The calls that `event_to_log_record` reads: an `Event` with its fields visited.
  pub record Event : Type 0 where
    pub level : Level
    pub name : Str
    pub target : Str
    -- the fields in their order, as text, with whether the visitor takes one named `message` as it
    pub fields : List (Str × Str × Bool)

  -- `EventVisitor`: the last field that is named `message` and is a text or has a `Debug` form.
  unfoldable pub visited_message : List (Str × Str × Bool) → Option Str → Option Str
  visited_message [] message = message
  visited_message ((name, value, speaks) ∷ rest) message =
      let with_this = visited_message rest (some value) in
      let without = visited_message rest message in
      if speaks then (if name == bytes "message" then with_this else without) else without

  first_message : List (Str × Str × Bool) → Option Str
  first_message [] = none
  first_message ((name, value, speaks) ∷ rest) =
      let later = first_message rest in if name == bytes "message" then some value else later

  field_attributes : List (Str × Str × Bool) → KeyValues V → KeyValues V
  field_attributes [] rest = rest
  field_attributes ((name, value, speaks) ∷ fields) rest =
      string_attr name value (field_attributes fields rest)

  body_text : Event → Option Str → Option Str → Str
  body_text event (some message) found = message
  body_text event none (some message) = message
  body_text event none none = event.name

  -- `event_to_log_record`, at a time in nanoseconds that fits 64 bits
  unfoldable pub event_to_log_record : Event → ℕ → LogRecord V
  unfolding first_message field_attributes body_text
  event_to_log_record event now = record {
    time_unix_nano = now;
    observed_time_unix_nano = now;
    severity_number = severity_number event.level;
    severity_text = level_text event.level;
    body = some (
        string_value
          (body_text event (visited_message event.fields none) (first_message event.fields)));
    attributes = field_attributes event.fields (
        string_attr (bytes "target") event.target
          (string_attr (bytes "name") event.name no_entries));
    dropped_attributes_count = 0;
    flags = 0;
    trace_id = [];
    span_id = [];
    event_name = event.name;
  }

  -- The queue directory, the calls to come, and the exports so far with what came of them.
  pub record Exporter : Type 0 where
    pub queue : Table Str Str
    pub disk : List DiskEvent
    pub outcomes : List Outcome
    pub exported : List (Request × Outcome)
    -- the replies to `flush`
    pub replies : List (Result LayerError (Unit {0}))
    pub uuids : ℕ

  -- The crates that the worker calls.
  pub record LayerLibraries : Type 0 where
    pub uuid : ℕ → Str
    -- `prost::Message::encode` and `decode`
    pub encode : Request → Option Str
    pub decode : Str → Option Request
    pub describe_io : IoError → Str

  pub record Settings (F : Float64) : Type 0 where
    pub source : SourceId
    pub batch_size : ℕ
    pub sample_rate : F.Float

  abbrev disk_event :
      (Option Str → Exporter → Exporter)
      → (Exporter → Exporter)
      → List DiskEvent
      → Action Exporter IoError (Unit {0})
  disk_event damage change [] x = (ok tt, change x)
  disk_event damage change (works ∷ es) x = (ok tt, change (record x { disk = es }))
  disk_event damage change (fails e left ∷ es) x = (err e, damage left (record x { disk = es }))

  -- An operation that changes no file.
  unfoldable pub disk_step : Action Exporter IoError (Unit {0})
  disk_step x = disk_event (λ left y. y) (λ y. y) x.disk x

  abbrev leave : Str → Option Str → Table Str Str → Table Str Str
  leave name none queue = queue
  leave name (some left) queue = insert name left queue

  unfoldable pub write_file : Str → Str → Action Exporter IoError (Unit {0})
  write_file name contents x =
      disk_event (λ left y. record y { queue = leave name left y.queue })
        (λ y. record y { queue = insert name contents y.queue }) x.disk x

  -- The outcome of the next export; past the end of the list the server does not answer in time.
  abbrev pub next_outcome : List Outcome → Outcome
  next_outcome [] = timed_out
  next_outcome (o ∷ os) = o

  abbrev pub later_outcomes : List Outcome → List Outcome
  later_outcomes [] = []
  later_outcomes (o ∷ os) = os

  unfoldable pub export_request : Request → Action Exporter LayerError Outcome
  export_request request x = (
    ok (next_outcome x.outcomes),
    record x {
      outcomes = later_outcomes x.outcomes;
      exported = x.exported ++ ((request, next_outcome x.outcomes) ∷ []);
    },
  )
