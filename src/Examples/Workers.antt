-- ===== src/Examples/Workers.antt =====
-- A worker that batches the records of a client by two.
use rs_detritus.Common.{ℕ, Str, none, some, List, [], ◌∷◌, bytes, ok, ◌≡◌, refl, arith, All, ◌<◌}
use rs_detritus.Storage.{new_source_key, other_io}
use rs_detritus.Logs.Requests.{source_from_resource_logs}
use rs_detritus.Client.Layer.{
  Exporter, LayerLibraries, Settings, export_request_for, accepted, refused, fails,
}
use rs_detritus.Client.Layer.Identity.{export_request_for-source}
use rs_detritus.Client.Layer.Worker.{Message, a_record, flush_message, tick, closed, run_loop}
use rs_detritus.Client.Layer.Worker.Batches.{IsConserving, arrivals, run_loop-IsConserving}
use rs_detritus.Examples.Limits.{whole}
use rs_detritus.Examples.Uploads.{origin}
use rs_detritus.Examples.Exports.{texts, log_record}

abbrev codecs : LayerLibraries texts
codecs = record {
  uuid = λ n. n ∷ [];
  encode = λ r. some [];
  decode = λ s. some [];
  describe_io = λ e. bytes "io";
}

abbrev pairs : Settings texts whole
pairs = record { source = origin; batch_size = 2; sample_rate = 1 }

-- The first export is accepted, the second refused and not spooled either.
abbrev exporter : Exporter texts
exporter = record {
  queue = [];
  disk = fails other_io none ∷ [];
  outcomes = accepted ∷ refused (bytes "no") ∷ [];
  exported = [];
  replies = [];
  uuids = 0;
}

abbrev messages : List (Message texts)
messages =
    a_record log_record
    ∷ a_record log_record
    ∷ a_record log_record
    ∷ tick
    ∷ flush_message
    ∷ closed
    ∷ []

run_loop-IsConserving_example :
    IsConserving texts codecs whole pairs []
      (arrivals texts codecs whole pairs messages)
      exporter
      (run_loop texts codecs whole pairs messages [] exporter)
run_loop-IsConserving_example =
    run_loop-IsConserving texts codecs whole pairs (omega arith) messages [] exporter (omega arith)

export_request_for-source_example :
    All
      (λ r.
        source_from_resource_logs texts r
        ≡ ok (record { project = bytes "acme"; source_id = bytes "i1" }))
      (export_request_for texts origin (log_record ∷ []))
unfolding new_source_key bytes rs_detritus.Common.list_beq rs_detritus.Common.contains
export_request_for-source_example =
    export_request_for-source texts origin (log_record ∷ [])
      (record { project = bytes "acme"; source_id = bytes "i1" }) refl
