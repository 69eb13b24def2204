-- ===== src/Logs.antt =====
-- crates/detritus-server/src/logs.rs: the export of log records over gRPC. The messages of OTLP, their
-- JSON, and what a request must carry; the writers and the handler are the children.
pub mod Requests
pub mod Writers
pub mod Export
use rs_detritus.Common.{ℕ, Str, Bool, true, false, Option, none, some, List, [], ◌∷◌, bytes}

-- The codes of `tonic::Code` that the handler returns or labels, and all others.
pub data Code : Type 0 where
  code_ok unauthenticated code_permission_denied resource_exhausted invalid_argument
        failed_precondition :
      Code
  internal_code other_code : Code

pub record Status : Type 0 where
  pub code : Code
  pub message : Str

-- `grpc_status_label`
unfoldable pub grpc_status_label : Code → Str
grpc_status_label code_ok = bytes "200"
grpc_status_label unauthenticated = bytes "401"
grpc_status_label code_permission_denied = bytes "403"
grpc_status_label resource_exhausted = bytes "429"
grpc_status_label invalid_argument = bytes "400"
grpc_status_label failed_precondition = bytes "412"
grpc_status_label internal_code = bytes "500"
grpc_status_label other_code = bytes "500"

-- `serde_json::Value`, by the values that `json!` and `collect` make; `Double` is the `f64`. An object
-- is made from its entries in their order.
pub record JsonValues : Type 1 where
  pub Json : Type 0
  pub Double : Type 0
  pub null : Json
  pub of_str : Str → Json
  pub of_bool : Bool → Json
  -- an `i64` by its bits, and a `u64`
  pub of_i64 : ℕ → Json
  pub of_u64 : ℕ → Json
  pub of_double : Double → Json
  pub of_array : List Json → Json
  pub of_object : List (Str × Json) → Json
  -- `hex::encode`
  pub hex_encode : Str → Str

module _ (V : JsonValues) where
  open V use {
    Json, Double, null, of_str, of_bool, of_i64, of_u64, of_double, of_array, of_object, hex_encode,
  }

  mutual
    -- `AnyValue`, where `no_value` is the absent `value`; an entry of a list may lack its value too.
    pub data AnyValue : Type 0 where
      no_value : AnyValue
      string_value : Str → AnyValue
      bool_value : Bool → AnyValue
      int_value : ℕ → AnyValue
      double_value : Double → AnyValue
      array_value : AnyValues → AnyValue
      kvlist_value : KeyValues → AnyValue
      bytes_value : Str → AnyValue

    pub data AnyValues : Type 0 where
      no_more_values : AnyValues
      another_value : AnyValue → AnyValues → AnyValues

    pub data KeyValues : Type 0 where
      no_entries : KeyValues
      entry : Str → AnyValue → KeyValues → KeyValues
      bare_entry : Str → KeyValues → KeyValues

  abbrev mutual
    -- `any_value_json`
    pub any_value_json : AnyValue → Json
    any_value_json no_value = null
    any_value_json (string_value s) = of_str s
    any_value_json (bool_value b) = of_bool b
    any_value_json (int_value n) = of_i64 n
    any_value_json (double_value d) = of_double d
    any_value_json (array_value vs) = of_array (values_json vs)
    any_value_json (kvlist_value es) = of_object (entries_json es)
    any_value_json (bytes_value s) = of_str (hex_encode s)

    pub values_json : AnyValues → List Json
    values_json no_more_values = []
    values_json (another_value v vs) = any_value_json v ∷ values_json vs

    -- The `filter_map`: an entry without a value is left out.
    pub entries_json : KeyValues → List (Str × Json)
    entries_json no_entries = []
    entries_json (entry key v es) = (key, any_value_json v) ∷ entries_json es
    entries_json (bare_entry key es) = entries_json es

  unfoldable pub attributes_json : KeyValues → Json
  attributes_json attributes = of_object (entries_json attributes)

  pub record LogRecord : Type 0 where
    pub time_unix_nano : ℕ
    pub observed_time_unix_nano : ℕ
    pub severity_number : ℕ
    pub severity_text : Str
    pub body : Option AnyValue
    pub attributes : KeyValues
    pub dropped_attributes_count : ℕ
    pub flags : ℕ
    pub trace_id : Str
    pub span_id : Str
    pub event_name : Str

  body_json : Option AnyValue → Json
  body_json none = null
  body_json (some v) = any_value_json v

  -- `log_record_json`
  unfoldable pub log_record_json : LogRecord → Json
  unfolding body_json attributes_json
  log_record_json r = of_object (
      (bytes "time_unix_nano", of_u64 r.time_unix_nano)
      ∷ (bytes "observed_time_unix_nano", of_u64 r.observed_time_unix_nano)
      ∷ (bytes "severity_number", of_i64 r.severity_number)
      ∷ (bytes "severity_text", of_str r.severity_text)
      ∷ (bytes "body", body_json r.body)
      ∷ (bytes "attributes", attributes_json r.attributes)
      ∷ (bytes "dropped_attributes_count", of_u64 r.dropped_attributes_count)
      ∷ (bytes "flags", of_u64 r.flags)
      ∷ (bytes "trace_id", of_str (hex_encode r.trace_id))
      ∷ (bytes "span_id", of_str (hex_encode r.span_id))
      ∷ (bytes "event_name", of_str r.event_name)
      ∷ [])

  -- A scope with its name and attributes, where it has one, and its records.
  pub record ScopeLogs : Type 0 where
    pub scope : Option (Str × KeyValues)
    pub log_records : List LogRecord

  -- The attributes of the resource, where it has one.
  pub record ResourceLogs : Type 0 where
    pub resource : Option KeyValues
    pub scope_logs : List ScopeLogs

  attributes_or_empty : Option KeyValues → Json
  attributes_or_empty none = of_object []
  attributes_or_empty (some es) = attributes_json es

  scope_json : Option (Str × KeyValues) → Json
  scope_json none = of_object ((bytes "name", of_str []) ∷ (bytes "attributes", of_object []) ∷ [])
  scope_json (some (name, es)) =
      of_object ((bytes "name", of_str name) ∷ (bytes "attributes", attributes_json es) ∷ [])

  scopes_json : List ScopeLogs → List Json
  scopes_json [] = []
  scopes_json (s ∷ ss) = scope_json s.scope ∷ scopes_json ss

  -- `resource_logs_to_validation_value`
  unfoldable pub resource_logs_to_validation_value : ResourceLogs → Json
  unfolding attributes_or_empty scope_json scopes_json
  resource_logs_to_validation_value r = of_object (
      (bytes "resource", attributes_or_empty r.resource)
      ∷ (bytes "scopes", of_array (scopes_json r.scope_logs))
      ∷ [])
