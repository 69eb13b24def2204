-- ===== src/Client/Layer/Worker.antt =====
-- crates/detritus-client/src/layer.rs: `Worker`, and the batches of spool.rs.
pub mod Sending
pub mod Batches
use rs_detritus.Common.{
  ℕ, Str, Bool, true, false, Option, none, some, List, [], ◌∷◌, ◌++◌, ◌+◌, ◌%◌, bytes, length, leb,
  if◌then◌else◌, Result, ok, err, panic, Action, pure, throw, map_err, ok_or, map, nat_eq, list_eq,
  ◌==◌, ◌>>=◌, ◌>>◌,
}
use rs_detritus.Common.Table.{Table, lookup, remove}
use rs_detritus.FilePath.{extension_of_name}
use rs_detritus.Storage.{IoError, other_io, not_found}
use rs_detritus.RateLimit.Float.{Float64}
use rs_detritus.Logs.{JsonValues, LogRecord}
use rs_detritus.Client.Spool.{sort}
use rs_detritus.Client.Layer.{
  LayerError, flush_failed, Outcome, accepted, timed_out, refused, Request, export_request_for,
  Exporter, LayerLibraries, Settings, disk_step, write_file, export_request,
}

-- What `select!` yields: a message or the end of the channel, or the tick of the interval.
pub data Message (V : JsonValues) : Type 0 where
  a_record : LogRecord V → Message V
  flush_message closed tick : Message V

module _ (V : JsonValues) (B : LayerLibraries V) where
  file_name_of : ℕ → Str
  file_name_of n = bytes "log-" ++ B.uuid n ++ bytes ".protobuf"

  draw_uuid : Action (Exporter V) IoError ℕ
  draw_uuid x = (ok x.uuids, record x { uuids = x.uuids + 1 })

  fail_if_none : Option Str → Action (Exporter V) IoError Str
  fail_if_none none = throw other_io
  fail_if_none (some contents) = pure contents

  unfoldable pub write_log_batch : Request V → Action (Exporter V) IoError (Unit {0})
  unfolding draw_uuid fail_if_none file_name_of
  write_log_batch request = do
    disk_step V
    n ← draw_uuid
    contents ← fail_if_none (B.encode request)
    write_file V (file_name_of n) contents

  raise_flush : Action (Exporter V) IoError (Unit {0}) → Action (Exporter V) LayerError (Unit {0})
  raise_flush m x = let (r, x') = m x in (map_err (λ e. flush_failed (B.describe_io e)) r, x')

  -- The `match` on the outcome.
  unfoldable pub settle_export : Request V → Outcome → Action (Exporter V) LayerError (Unit {0})
  unfolding raise_flush
  settle_export request accepted = pure tt
  settle_export request (refused error) = do
    raise_flush (write_log_batch request)
    throw (flush_failed error)
  settle_export request timed_out = do
    raise_flush (write_log_batch request)
    throw (flush_failed (bytes "flush timed out"))

  -- `read_log_batch`: a file that is gone, cannot be read or does not decode is passed over.
  read_log_batch : Str → Action (Exporter V) IoError (Request V)
  read_log_batch name = do
    disk_step V
    λ x. (ok_or other_io (elim (lookup name x.queue) [ none ↦ none | some c ↦ B.decode c ]), x)

  -- `let _ = remove_file(path)`, once the request is accepted.
  drop_delivered : Str → Outcome → Exporter V → Exporter V
  drop_delivered name accepted x = elim (disk_step V x).0 [
    | ok a ↦ record (disk_step V x).1 { queue = remove name x.queue }
    | _ ↦ (disk_step V x).1
  ]
  drop_delivered name _ x = x

  replay : Str → Result IoError (Request V) × Exporter V → Exporter V
  replay name (ok request, x) = elim (export_request V request x).0 [
    | ok outcome ↦ drop_delivered name outcome (export_request V request x).1
    | _ ↦ x
  ]
  replay name (r, x) = x

  -- The loop of `drain_spooled`.
  unfoldable pub replay_batches : List Str → Exporter V → Exporter V
  unfolding replay read_log_batch drop_delivered
  replay_batches [] x = x
  replay_batches (name ∷ names) x = replay_batches names (replay name (read_log_batch name x))

  abbrev is_protobuf : Str → Bool
  is_protobuf name = elim (extension_of_name name) [ none ↦ false | some e ↦ e == bytes "protobuf" ]

  unfoldable pub pending_log_batches : Table Str Str → List Str
  pending_log_batches [] = []
  pending_log_batches ((name, contents) ∷ queue) =
      let rest = pending_log_batches queue in if is_protobuf name then name ∷ rest else rest

  acquire_lock : Action (Exporter V) IoError (Unit {0})
  acquire_lock = do disk_step V; disk_step V; disk_step V

  -- With an error of the lock or of the listing nothing is replayed.
  drain_listed : Result IoError (Unit {0}) × Exporter V → Exporter V
  drain_listed (ok a, x) = replay_batches (sort (pending_log_batches x.queue)) x
  drain_listed (r, x) = x

  unfoldable pub drain_spooled : Exporter V → Exporter V
  unfolding acquire_lock drain_listed
  drain_spooled x = drain_listed ((acquire_lock >> disk_step V) x)

  module _ (F : Float64) (settings : Settings V F) where
    unfoldable pub export_records : List (LogRecord V) → Action (Exporter V) LayerError (Unit {0})
    export_records [] = pure tt
    export_records (r ∷ rs) = do
      outcome ← export_request V (export_request_for V settings.source (r ∷ rs))
      settle_export (export_request_for V settings.source (r ∷ rs)) outcome

    -- The error goes to the standard error stream.
    unfoldable pub export_or_spool : List (LogRecord V) → Exporter V → Exporter V
    export_or_spool records x = (export_records records x).1

    unfoldable pub should_sample : LogRecord V → Bool
    should_sample r =
        if F.le (F.of_nat 1) settings.sample_rate
        then true
        else if F.le settings.sample_rate (F.of_nat 0)
        then false
        else F.lt (F.div (F.of_nat (r.time_unix_nano % 10000)) (F.of_nat 10000))
            settings.sample_rate

    abbrev pub Running : Type 0
    Running = List (LogRecord V) × Exporter V

    keep_or_export : Bool → List (LogRecord V) → Exporter V → Running
    keep_or_export true batch x = ([], export_or_spool batch x)
    keep_or_export false batch x = (batch, x)

    answer : Result LayerError (Unit {0}) × Exporter V → Exporter V
    answer (r, x) = record x { replies = x.replies ++ (r ∷ []) }

    -- One round of the loop.
    unfoldable pub on_message : Message V → List (LogRecord V) → Exporter V → Running
    unfolding keep_or_export answer
    on_message (a_record r) batch x =
        let batch' = if should_sample r then batch ++ (r ∷ []) else batch in
        keep_or_export (leb settings.batch_size (length batch')) batch' x
    on_message flush_message batch x = ([], answer (export_records batch x))
    on_message tick batch x = ([], export_or_spool batch x)
    on_message closed batch x = ([], export_or_spool batch x)

    -- The loop, until the channel is closed or over the messages so far.
    unfoldable pub run_loop : List (Message V) → List (LogRecord V) → Exporter V → Running
    run_loop [] batch x = (batch, x)
    run_loop (closed ∷ ms) batch x = on_message closed batch x
    run_loop (m ∷ ms) batch x = let (batch', x') = on_message m batch x in run_loop ms batch' x'

    unfoldable pub run_worker : List (Message V) → Exporter V → Running
    run_worker ms x = run_loop ms [] (drain_spooled x)
