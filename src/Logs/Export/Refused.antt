-- ===== src/Logs/Export/Refused.antt =====
-- crates/detritus-server/src/logs.rs: `export_inner` on a batch that violates the schema.
use rs_detritus.Common.{bytes, ◌≡◌, ok, Result}
use rs_detritus.Auth.{TokenContext}
use rs_detritus.RateLimit.Float.{Float64}
use rs_detritus.Metrics.{observe_validation_failure}
use rs_detritus.Protocol.{log_attributes}
use rs_detritus.Schemas.{SchemaError, SchemaRegistry, validate}
use rs_detritus.Logs.{JsonValues, ResourceLogs, resource_logs_to_validation_value}
use rs_detritus.Logs.Export.{LogsWorld}

module _ (V : JsonValues) (F : Float64) (registry : SchemaRegistry V.Json)
    (token : TokenContext) where
  -- What the schema of the token's project says of a resource.
  abbrev pub judge : ResourceLogs V → Result SchemaError (Unit {0})
  judge r =
      validate V.Json registry token.project log_attributes (resource_logs_to_validation_value V r)

  abbrev pub IsAccepted : ResourceLogs V → Type 0
  IsAccepted r = judge r ≡ ok tt

  -- The world in which one more failure is counted.
  abbrev pub counted : LogsWorld V F → LogsWorld V F
  counted w = record w { metrics = observe_validation_failure (bytes "logs") w.metrics }
