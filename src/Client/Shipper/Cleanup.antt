-- ===== src/Client/Shipper/Cleanup.antt =====
-- `cleanup_sent` and `prepare`: what they leave, and what is gone.
pub mod Exact
use rs_detritus.Common.{
  ℕ, Str, Bool, true, false, List, [], ◌∷◌, pure, ◌>>◌, inl, inr, nat_eq, list_eq, ltb,
  if◌then◌else◌, Option-cases,
}
use rs_detritus.Common.Ends.{Ends, Ends-ok, Ends-err, Ends-bind}
use rs_detritus.Common.Table.{Table, lookup}
use rs_detritus.Client.Spool.{Entry, Spool, io_step, remove_sent, acquire_lock, pending_entries}
use rs_detritus.Client.Spool.Kept.{
  Keeps, Nothing, io_step-Ends, remove_sent-Ends, acquire_lock-Ends, sent_entries-Ends,
}
use rs_detritus.Client.Shipper.{prepare, cleanup_sent, cutoff, remove_older, modified_sent}

-- Cleaning and preparing touch nothing that is pending.
module _ (p : Table Str Entry) where
  pub prepare-Ends : (s : Spool) → Keeps p s → Ends (Keeps p) Nothing (prepare s)
  unfolding prepare
  prepare-Ends s k =
      Ends-bind Nothing Nothing acquire_lock (λ _. io_step >> io_step) s (acquire_lock-Ends p s k)
        λ a t k' q.
          Ends-bind Nothing Nothing io_step (λ _. io_step) t (io_step-Ends p t k')
            λ b t' k'' q'. io_step-Ends p t' k''

  modified_sent-Ends :
      (name : Str) (s : Spool) → Keeps p s → Ends (Keeps p) Nothing (modified_sent name s)
  unfolding modified_sent
  modified_sent-Ends name s k =
      Ends-bind Nothing Nothing io_step _ s (io_step-Ends p s k) λ a t k' q.
        elim (Option-cases (lookup name t.sent)) [
          | inl e ↦ rw e (Ends-err _ t k')
          | inr (entry, e) ↦ rw e (Ends-ok _ t k' tt)
        ]

  remove_if-Ends :
      (old : Bool) (name : Str) (s : Spool)
      → Keeps p s
      → Ends (Keeps p) Nothing ((if old then remove_sent name else pure tt) s)
  remove_if-Ends true name s k = remove_sent-Ends p name s k
  remove_if-Ends false name s k = Ends-ok tt s k tt

  remove_older-Ends :
      (limit : ℕ) (names : List Str) (s : Spool)
      → Keeps p s
      → Ends (Keeps p) Nothing (remove_older limit names s)
  unfolding remove_older
  remove_older-Ends limit [] s k = Ends-ok tt s k tt
  remove_older-Ends limit (name ∷ names) s k =
      Ends-bind Nothing Nothing (modified_sent name) _ s (modified_sent-Ends name s k)
        λ modified t k' q.
          Ends-bind Nothing Nothing (if ltb modified limit then remove_sent name else pure tt) _ t
            (remove_if-Ends (ltb modified limit) name t k')
            λ a t' k'' q'. remove_older-Ends limit names t' k''

  pub cleanup_sent-Ends :
      (days : ℕ) (s : Spool) → Keeps p s → Ends (Keeps p) Nothing (cleanup_sent days s)
  unfolding cleanup_sent
  cleanup_sent-Ends days s k =
      Ends-bind Nothing Nothing (pending_entries (λ t. t.sent)) (remove_older (cutoff s.now days)) s
        (sent_entries-Ends p s k) λ names t k' q. remove_older-Ends (cutoff s.now days) names t k'
