-- ===== src/Examples/Exports.antt =====
-- An export of one record by a permitted token, and by one whose project has a schema that refuses it.
use rs_detritus.Common.{
  ℕ, Str, Bool, true, false, Option, none, some, List, [], ◌∷◌, ◌++◌, bytes, map, length, ltb,
  if◌then◌else◌, Result, ok, ◌≡◌, ◌≢◌, ◌⊎◌, ◌≤◌, refl, arith, nat_eq, list_eq,
}
use rs_detritus.Common.Ends.{Ends}
use rs_detritus.Common.Table.{lookup}
use rs_detritus.Storage.{log_file}
use rs_detritus.Disk.{Disk}
use rs_detritus.Metrics.{new_metrics}
use rs_detritus.Protocol.{log_attributes}
use rs_detritus.Schemas.{SchemaRegistry}
use rs_detritus.Auth.{TokenContext, to_context}
use rs_detritus.RateLimit.{default_rate_limit, new_rate_limiter}
use rs_detritus.Logs.{
  Status, JsonValues, AnyValue, string_value, KeyValues, no_entries, entry, LogRecord, ResourceLogs,
  ScopeLogs,
}
use rs_detritus.Logs.Requests.{truncate_message}
use rs_detritus.Logs.Requests.Truncation.{IsCut, truncate_message_lem}
use rs_detritus.Logs.Writers.{writer_loop}
use rs_detritus.Logs.Writers.Appending.{content_at, text_of, writer_loop-appends}
use rs_detritus.Logs.Export.{LogsWorld, ExportRequest, export_inner}
use rs_detritus.Logs.Export.Gate.{IsConfinedTo, export_inner-IsConfinedTo}
use rs_detritus.Examples.Sources.{server_paths, acme, day}
use rs_detritus.Examples.Limits.{whole}
use rs_detritus.Examples.Tokens.{writer}

-- Every value is shown as its text, and an object by the texts of its entries.
abbrev shown_entries : List (Str × Str) → Str
shown_entries [] = []
shown_entries ((k, v) ∷ es) = k ++ (v ++ shown_entries es)

abbrev shown_all : List Str → Str
shown_all [] = []
shown_all (v ∷ vs) = v ++ shown_all vs

abbrev pub texts : JsonValues
texts = record {
  Json = Str;
  Double = ℕ;
  null = [];
  of_str = λ s. s;
  of_bool = λ b. [];
  of_i64 = λ n. n ∷ [];
  of_u64 = λ n. n ∷ [];
  of_double = λ n. n ∷ [];
  of_array = shown_all;
  of_object = shown_entries;
  hex_encode = λ s. s;
}

abbrev identity : KeyValues texts
identity = entry (bytes "source.project") (string_value (bytes "acme")) (
    entry (bytes "source.platform") (string_value (bytes "linux")) (
      entry (bytes "source.version") (string_value (bytes "1"))
        (entry (bytes "source.install_id") (string_value (bytes "i1")) no_entries)))

abbrev pub log_record : LogRecord texts
log_record = record {
  time_unix_nano = 1;
  observed_time_unix_nano = 2;
  severity_number = 9;
  severity_text = bytes "INFO";
  body = none;
  attributes = no_entries;
  dropped_attributes_count = 0;
  flags = 0;
  trace_id = [];
  span_id = [];
  event_name = [];
}

abbrev resource_logs : ResourceLogs texts
resource_logs = record {
  resource = some identity;
  scope_logs = record { scope = none; log_records = log_record ∷ [] } ∷ [];
}

abbrev log_token : TokenContext
log_token = to_context writer

abbrev request : ExportRequest texts whole
request = record {
  version = some (some (bytes "1"));
  token = some log_token;
  resource_logs = resource_logs ∷ [];
}

abbrev world : LogsWorld texts whole
world = record {
  limiter = new_rate_limiter whole default_rate_limit;
  metrics = new_metrics;
  pool = [];
  now = 3;
}

abbrev strict_logs : SchemaRegistry Str
strict_logs =
    ((bytes "acme", log_attributes), λ s. if ltb 20 (length s) then [] else bytes "no host" ∷ [])
    ∷ []

export_inner-IsConfinedTo_example :
    Ends
      (IsConfinedTo texts whole log_token world)
      (λ _ _. Unit)
      (export_inner texts whole [] request world)
unfolding lookup
export_inner-IsConfinedTo_example =
    export_inner-IsConfinedTo texts whole log_token world [] request (λ k. omega arith) refl

-- Behind a resource that the schema accepts, one without attributes, which it does not.
abbrev nameless : ResourceLogs texts
nameless = record { resource = none; scope_logs = [] }

abbrev mixed_request : ExportRequest texts whole
mixed_request = record request { resource_logs = resource_logs ∷ nameless ∷ resource_logs ∷ [] }

truncate_message_lem_example :
    (t : Str) × (truncate_message (bytes "short") ≡ ok t)
    × (length t ≤ 1024)
    × IsCut (bytes "short") t
truncate_message_lem_example = truncate_message_lem (bytes "short")

abbrev empty_disk : Disk
empty_disk = record { files = []; events = []; clock = 4 }

writer_loop-appends_example :
    content_at (log_file server_paths acme day) (
      writer_loop Str
        (λ s. some s)
        server_paths
        acme
        (map (λ l. (day, l)) (bytes "a" ∷ bytes "b" ∷ []))
        empty_disk)
    ≡ content_at (log_file server_paths acme day) empty_disk
      ++ text_of Str (λ s. some s) (bytes "a" ∷ bytes "b" ∷ [])
writer_loop-appends_example =
    writer_loop-appends Str (λ s. some s) server_paths acme day (bytes "a" ∷ bytes "b" ∷ [])
      empty_disk refl
