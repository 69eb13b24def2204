-- ===== src/Client/Layer/Identity.antt =====
-- The two ends of a log export together: whom the server takes the sender for.
use rs_detritus.Common.{List, bytes, ok, ◌≡◌, refl, All, nat_eq, list_eq, list_beq}
use rs_detritus.Protocol.{SourceId}
use rs_detritus.Storage.{SourceKey, new_source_key}
use rs_detritus.Logs.{JsonValues, LogRecord}
use rs_detritus.Logs.Requests.{source_from_resource_logs, required_attr, find_string}
use rs_detritus.Client.Layer.{export_request_for, string_attr}

module _ (V : JsonValues) where
  -- Where the project and the installation of a client make a source, the server takes each message of
  -- a request of the client for one of that source, whatever records the request carries.
  pub export_request_for-source :
      (source : SourceId) (records : List (LogRecord V)) (key : SourceKey)
      → new_source_key source.project source.install_id ≡ ok key
      → All (λ r. source_from_resource_logs V r ≡ ok key) (export_request_for V source records)
  unfolding export_request_for source_from_resource_logs required_attr find_string string_attr bytes
      list_beq
  export_request_for-source source records key e = (rw e refl, tt)
