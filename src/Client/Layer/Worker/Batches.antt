-- ===== src/Client/Layer/Worker/Batches.antt =====
-- The worker sends every record that it samples once, in order, in batches within their size.
use mathlib.Core.Path.{subst}
use mathlib.Core.List.{append_assoc, append-nil}
use rs_detritus.Common.{
  Bool, true, false, List, [], ◌∷◌, ◌++◌, ◌≤◌, ◌<◌, length, length-append, leb, if◌then◌else◌, ◌≡◌,
  refl, sym, ap, ◌∙◌, inl, inr, arith, Bool-cases,
}
use rs_detritus.RateLimit.Float.{Float64}
use rs_detritus.Logs.{JsonValues, LogRecord}
use rs_detritus.Client.Layer.{Exporter, LayerLibraries, Settings}
use rs_detritus.Client.Layer.Worker.{
  Message, a_record, flush_message, closed, tick, export_records, export_or_spool, should_sample,
  Running, keep_or_export, answer, on_message, run_loop,
}
use rs_detritus.Client.Layer.Worker.Sending.{
  IsSending, no_batch, export_records-IsSending, IsSending-trans,
}

module _ (V : JsonValues) (B : LayerLibraries V) (F : Float64) (settings : Settings V F) where
  -- The records among these messages that the worker samples, up to the end of the channel.
  abbrev sampled : LogRecord V → List (LogRecord V)
  sampled r = if should_sample V B F settings r then r ∷ [] else []

  abbrev taken : Message V → List (LogRecord V)
  taken (a_record r) = sampled r
  taken _ = []

  unfoldable pub arrivals : List (Message V) → List (LogRecord V)
  arrivals [] = []
  arrivals (a_record r ∷ ms) = sampled r ++ arrivals ms
  arrivals (flush_message ∷ ms) = arrivals ms
  arrivals (tick ∷ ms) = arrivals ms
  arrivals (closed ∷ ms) = []

  -- From a batch and a state to others: what was sent, and what is left, is what there was and what
  -- arrived, in this order. The batch that is left has room.
  pub record IsConserving (batch arrived : List (LogRecord V)) (x : Exporter V)
      (after : Running V B F settings) : Type 0 where
    pub records : List (LogRecord V)
    pub sending : IsSending V B F settings x after.1 records
    pub conserved : records ++ after.0 ≡ batch ++ arrived
    pub room : length after.0 < settings.batch_size

  module _ (positive : 1 ≤ settings.batch_size) where
    sent_all :
        (batch : List (LogRecord V)) (x : Exporter V)
        → length batch ≤ settings.batch_size
        → IsConserving batch [] x ([], export_or_spool V B F settings batch x)
    unfolding export_or_spool
    sent_all batch x fits = record {
      records = batch;
      sending = export_records-IsSending V B F settings batch x fits;
      conserved = refl;
      room = omega arith;
    }

    flushed :
        (batch : List (LogRecord V)) (x : Exporter V)
        → length batch ≤ settings.batch_size
        → IsConserving batch [] x
            ([], answer V B F settings (export_records V B F settings batch x))
    unfolding answer
    flushed batch x fits =
        let s = export_records-IsSending V B F settings batch x fits in
        record {
          records = batch;
          sending = record { batches = s.batches; sent = s.sent; whole = s.whole; fit = s.fit };
          conserved = refl;
          room = omega arith;
        }

    keep_or_export-IsConserving :
        (full : Bool) (batch : List (LogRecord V)) (x : Exporter V)
        → leb settings.batch_size (length batch) ≡ full
        → length batch ≤ settings.batch_size
        → IsConserving batch [] x (keep_or_export V B F settings full batch x)
    unfolding keep_or_export
    keep_or_export-IsConserving true batch x e fits = sent_all batch x fits
    keep_or_export-IsConserving false batch x e fits = record {
      records = [];
      sending = no_batch V B F settings x;
      conserved = sym (append-nil batch);
      room = ground arith;
    }

    taken-fits :
        (r : LogRecord V) (batch : List (LogRecord V))
        → length batch < settings.batch_size
        → length (if should_sample V B F settings r then batch ++ (r ∷ []) else batch)
          ≤ settings.batch_size
    taken-fits r batch room = elim (Bool-cases (should_sample V B F settings r)) [
      | inl yes_sampled ↦ rw yes_sampled (omega (arith, length-append {0} batch (r ∷ [])))
      | inr not_sampled ↦ rw not_sampled (omega arith)
    ]

    taken-sampled :
        (r : LogRecord V) (batch : List (LogRecord V))
        → (if should_sample V B F settings r then batch ++ (r ∷ []) else batch) ≡ batch ++ sampled r
    taken-sampled r batch = elim (Bool-cases (should_sample V B F settings r)) [
      | inl yes_sampled ↦ rw yes_sampled refl
      | inr not_sampled ↦ rw not_sampled (sym (append-nil batch))
    ]

    -- A step and what follows it.
    follow :
        (batch taken arrived : List (LogRecord V)) (x : Exporter V)
        (step after : Running V B F settings)
        → IsConserving (batch ++ taken) [] x step
        → IsConserving step.0 arrived step.1 after
        → IsConserving batch (taken ++ arrived) x after
    follow batch taken arrived x step after h k = record {
      records = h.records ++ k.records;
      sending =
          IsSending-trans V B F settings x step.1 after.1 h.records k.records h.sending k.sending;
      conserved =
          append_assoc h.records k.records after.0
          ∙ ap (λ q. h.records ++ q) k.conserved
          ∙ sym (append_assoc h.records step.0 arrived)
          ∙ ap (λ q. q ++ arrived) (h.conserved ∙ append-nil (batch ++ taken))
          ∙ append_assoc batch taken arrived;
      room = k.room;
    }

    on_message-IsConserving :
        (m : Message V) (batch : List (LogRecord V)) (x : Exporter V)
        → length batch < settings.batch_size
        → IsConserving (batch ++ taken m) [] x (on_message V B F settings m batch x)
    unfolding on_message
    on_message-IsConserving (a_record r) batch x room =
        subst (λ b. IsConserving b [] x (on_message V B F settings (a_record r) batch x))
          (taken-sampled r batch)
          (keep_or_export-IsConserving
            (leb settings.batch_size
              (length (if should_sample V B F settings r then batch ++ (r ∷ []) else batch)))
            _ x refl (taken-fits r batch room))
    on_message-IsConserving flush_message batch x room =
        rw (append-nil batch) (flushed batch x (omega arith))
    on_message-IsConserving tick batch x room =
        rw (append-nil batch) (sent_all batch x (omega arith))
    on_message-IsConserving closed batch x room =
        rw (append-nil batch) (sent_all batch x (omega arith))

    -- For a worker whose batches have room for a record, from a batch that is not full: over any
    -- messages, and whatever comes of the exports and of the disk, the requests that it sends are
    -- those of before and one for each of some batches, each of at least one record and at most the
    -- batch size. The records of these batches and then the batch that is left are, in order, the
    -- batch that was there and the records that arrived and are sampled: none is lost before it is
    -- sent, none is sent twice, and the batch that is left is not full.
    pub run_loop-IsConserving :
        (ms : List (Message V)) (batch : List (LogRecord V)) (x : Exporter V)
        → length batch < settings.batch_size
        → IsConserving batch (arrivals ms) x (run_loop V B F settings ms batch x)
    unfolding run_loop arrivals on_message
    run_loop-IsConserving [] batch x room = record {
      records = [];
      sending = no_batch V B F settings x;
      conserved = sym (append-nil batch);
      room = room;
    }
    run_loop-IsConserving (closed ∷ ms) batch x room = sent_all batch x (omega arith)
    run_loop-IsConserving (a_record r ∷ ms) batch x room =
        let step = on_message V B F settings (a_record r) batch x in
        let h = on_message-IsConserving (a_record r) batch x room in
        follow batch (sampled r) (arrivals ms) x step _ h
          (run_loop-IsConserving ms step.0 step.1 h.room)
    run_loop-IsConserving (flush_message ∷ ms) batch x room =
        let step = on_message V B F settings flush_message batch x in
        let h = on_message-IsConserving flush_message batch x room in
        follow batch [] (arrivals ms) x step _ h (run_loop-IsConserving ms step.0 step.1 h.room)
    run_loop-IsConserving (tick ∷ ms) batch x room =
        let step = on_message V B F settings tick batch x in
        let h = on_message-IsConserving tick batch x room in
        follow batch [] (arrivals ms) x step _ h (run_loop-IsConserving ms step.0 step.1 h.room)
