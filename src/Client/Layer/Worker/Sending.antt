-- ===== src/Client/Layer/Worker/Sending.antt =====
-- What an export sends, and which batches make up the requests between two states.
use mathlib.Core.List.{append_assoc, append-nil, map-append}
use rs_detritus.Common.{
  List, [], ◌∷◌, ◌++◌, ◌≤◌, length, throw, ◌>>◌, map, ◌≡◌, refl, sym, ap, ◌∙◌, inl, inr, arith, All,
  Option-cases,
}
use rs_detritus.Common.Ends.{Ends, Ends-err, Ends-bind, map_err-Ends}
use rs_detritus.Storage.{other_io}
use rs_detritus.RateLimit.Float.{Float64}
use rs_detritus.Logs.{JsonValues, LogRecord}
use rs_detritus.Client.Layer.{
  LayerError, Outcome, accepted, timed_out, refused, Request, export_request_for, Exporter,
  LayerLibraries, Settings, disk_step, export_request, next_outcome,
}
use rs_detritus.Client.Layer.Kept.{Nothing, Sent, disk_step-Ends, write_file-Ends}
use rs_detritus.Client.Layer.Worker.{
  write_log_batch, settle_export, draw_uuid, fail_if_none, raise_flush, export_records,
}

abbrev pub concat : {A : Type 0} → List (List A) → List A
concat [] = []
concat (xs ∷ xss) = xs ++ concat xss

module _ (V : JsonValues) (B : LayerLibraries V) where
  -- The requests that were sent, whatever came of them.
  abbrev pub requests : Exporter V → List (Request V)
  requests x = map (λ p. p.0) x.exported

  module _ (exports : List (Request V × Outcome)) where
    abbrev Same : Exporter V → Type 0
    Same = Sent V exports

    write_log_batch-Ends :
        (request : Request V) (x : Exporter V)
        → Same x
        → Ends Same (Nothing V) (write_log_batch V B request x)
    unfolding write_log_batch draw_uuid fail_if_none
    write_log_batch-Ends request x k =
        Ends-bind (Nothing V) (Nothing V) (disk_step V) _ x (disk_step-Ends V exports x k)
          λ a t k' q. elim (Option-cases (B.encode request)) [
            | inl e ↦ rw e (Ends-err other_io _ k')
            | inr (contents, e) ↦ rw e (write_file-Ends V exports _ contents _ k')
          ]

    spool_and_fail :
        (request : Request V) (e : LayerError) (x : Exporter V)
        → Same x
        → Ends Same
            (Nothing V {A = Unit {0}})
            ((raise_flush V B (write_log_batch V B request) >> throw e) x)
    unfolding raise_flush
    spool_and_fail request e x k =
        let (r, t) = write_log_batch V B request x in
        Ends-bind (Nothing V) (Nothing V) (raise_flush V B (write_log_batch V B request))
          (λ _. throw e) x
          (map_err-Ends (Nothing V) _ (write_log_batch V B request x).0
            (write_log_batch V B request x).1 (write_log_batch-Ends request x k))
          (λ a t' k' q. Ends-err e t' k')

    settle_export-kept :
        (request : Request V) (o : Outcome) (x : Exporter V)
        → Same x
        → Same (settle_export V B request o x).1
    unfolding settle_export
    settle_export-kept request accepted x k = k
    settle_export-kept request timed_out x k = (spool_and_fail request _ x k).kept
    settle_export-kept request (refused error) x k = (spool_and_fail request _ x k).kept

  module _ (F : Float64) (settings : Settings V F) where
    abbrev request_of : List (LogRecord V) → Request V
    request_of = export_request_for V settings.source

    export_records-exported :
        (r : LogRecord V) (rs : List (LogRecord V)) (x : Exporter V)
        → (export_records V B F settings (r ∷ rs) x).1.exported
          ≡ x.exported ++ ((request_of (r ∷ rs), next_outcome V x.outcomes) ∷ [])
    unfolding export_records export_request
    export_records-exported r rs x =
        settle_export-kept _ (request_of (r ∷ rs)) (next_outcome V x.outcomes) _ refl

    -- A batch that is sent holds something, and at most as much as a batch may.
    abbrev pub Fits : List (LogRecord V) → Type 0
    Fits b = (1 ≤ length b) × (length b ≤ settings.batch_size)

    -- These batches were sent between two states, each as one request, and hold these records.
    pub record IsSending (x x' : Exporter V) (records : List (LogRecord V)) : Type 0 where
      pub batches : List (List (LogRecord V))
      pub sent : requests x' ≡ requests x ++ map request_of batches
      pub whole : concat batches ≡ records
      pub fit : All Fits batches

    one_batch :
        (x x' : Exporter V) (o : Outcome) (r : LogRecord V) (rs : List (LogRecord V))
        → x'.exported ≡ x.exported ++ ((request_of (r ∷ rs), o) ∷ [])
        → length (r ∷ rs) ≤ settings.batch_size
        → IsSending x x' (r ∷ rs)
    one_batch x x' o r rs e fits = record {
      batches = (r ∷ rs) ∷ [];
      sent =
          ap (map (λ p. p.0)) e ∙ map-append (λ p. p.0) x.exported ((request_of (r ∷ rs), o) ∷ []);
      whole = append-nil (r ∷ rs);
      fit = ((omega arith, fits), tt);
    }

    pub no_batch : (x : Exporter V) → IsSending x x []
    no_batch x = record {
      batches = [];
      sent = sym (append-nil (requests x));
      whole = refl;
      fit = tt;
    }

    pub export_records-IsSending :
        (batch : List (LogRecord V)) (x : Exporter V)
        → length batch ≤ settings.batch_size
        → IsSending x (export_records V B F settings batch x).1 batch
    unfolding export_records
    export_records-IsSending [] x fits = no_batch x
    export_records-IsSending (r ∷ rs) x fits =
        one_batch x _ (next_outcome V x.outcomes) r rs (export_records-exported r rs x) fits

    concat-append : (a b : List (List (LogRecord V))) → concat (a ++ b) ≡ concat a ++ concat b
    concat-append [] b = refl
    concat-append (xs ∷ a) b =
        ap (λ ys. xs ++ ys) (concat-append a b) ∙ sym (append_assoc xs (concat a) (concat b))

    All-append : (a b : List (List (LogRecord V))) → All Fits a → All Fits b → All Fits (a ++ b)
    All-append [] b h k = k
    All-append (xs ∷ a) b h k = (h.0, All-append a b h.1 k)

    pub IsSending-trans :
        (x x' x'' : Exporter V) (rs rs' : List (LogRecord V))
        → IsSending x x' rs
        → IsSending x' x'' rs'
        → IsSending x x'' (rs ++ rs')
    IsSending-trans x x' x'' rs rs' h k = record {
      batches = h.batches ++ k.batches;
      sent =
          k.sent
          ∙ ap (λ q. q ++ map request_of k.batches) h.sent
          ∙ append_assoc (requests x) (map request_of h.batches) (map request_of k.batches)
          ∙ ap (λ q. requests x ++ q) (sym (map-append request_of h.batches k.batches));
      whole =
          concat-append h.batches k.batches
          ∙ ap (λ q. q ++ concat k.batches) h.whole
          ∙ ap (λ q. rs ++ q) k.whole;
      fit = All-append h.batches k.batches h.fit k.fit;
    }
