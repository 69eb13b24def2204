-- ===== src/Client/Shipper/Cleanup/Exact.antt =====
-- `cleanup_sent` where the disk works: which sent entries it removes.
use rs_detritus.Common.{
  ℕ, Str, Bool, true, false, Option, none, some, List, [], ◌∷◌, ok, pure, ltb, ◌≡◌, refl, sym, ◌∙◌,
  nat_eq, list_eq, eq_self, ◌==◌, differs_sym, All, All-apply, if◌then◌else◌, step_on,
}
use rs_detritus.Common.Table.{lookup, remove, lookup-remove, lookup-remove_other}
use rs_detritus.Client.Spool.{
  Entry, Spool, io_step, remove_sent, acquire_lock, pending_entries, sort, names_of,
}
use rs_detritus.Client.Spool.Sorting.{AreDifferent, names_of-IsFound, All-sorted}
use rs_detritus.Client.Spool.Working.{
  io_step-works, acquire_lock-works, remove_sent-works, pending_entries-works,
}
use rs_detritus.Client.Shipper.{prepare, cleanup_sent, cutoff, remove_older, modified_sent}

abbrev pub unless_older : ℕ → Entry → Option Entry
unless_older limit entry = if ltb entry.modified limit then none else some entry

-- A sent entry is gone if it is older than the limit, and is as it was otherwise.
abbrev pub IsCleaned : ℕ → Spool → Spool → Str → Type 0
IsCleaned limit before after name =
    (entry : Entry) × (lookup name before.sent ≡ some entry)
    × (lookup name after.sent ≡ unless_older limit entry)

-- These entries are cleaned, and nothing else has changed.
pub record AreCleaned (limit : ℕ) (names : List Str) (before after : Spool) : Type 0 where
  pub quiet : after.events ≡ []
  pub pending : after.pending ≡ before.pending
  pub all : All (IsCleaned limit before after) names
  pub others :
      (other : Str)
      → All (λ name. (name == other) ≡ false) names
      → lookup other after.sent ≡ lookup other before.sent

modified_sent-works :
    (name : Str) (entry : Entry) (s : Spool)
    → s.events ≡ []
    → lookup name s.sent ≡ some entry
    → modified_sent name s ≡ (ok entry.modified, s)
unfolding modified_sent
modified_sent-works name entry s quiet found =
    step_on io_step _ s s tt _ (io_step-works s quiet) (rw found refl)

-- The spool once an entry is looked at.
abbrev looked_at : Bool → Str → Spool → Spool
looked_at old name s = record s { sent = if old then remove name s.sent else s.sent }

remove_if-works :
    (old : Bool) (name : Str) (s : Spool)
    → s.events ≡ []
    → (if old then remove_sent name else pure tt) s ≡ (ok tt, looked_at old name s)
remove_if-works true name s quiet = remove_sent-works name s quiet
remove_if-works false name s quiet = refl

lookup-looked_at :
    (old : Bool) (name other : Str) (s : Spool)
    → (other == name) ≡ false
    → lookup other (looked_at old name s).sent ≡ lookup other s.sent
lookup-looked_at true name other s differs = lookup-remove_other name other s.sent differs
lookup-looked_at false name other s differs = refl

lookup-looked_at_self :
    (old : Bool) (name : Str) (entry : Entry) (s : Spool)
    → lookup name s.sent ≡ some entry
    → lookup name (looked_at old name s).sent ≡ (if old then none else some entry)
lookup-looked_at_self true name entry s found =
    lookup-remove name name s.sent ∙ (rw (eq_self name) refl)
lookup-looked_at_self false name entry s found = found

abbrev IsSent : Spool → Str → Type 0
IsSent s name = (entry : Entry) × (lookup name s.sent ≡ some entry)

remove_older-works :
    (limit : ℕ) (names : List Str) (s : Spool)
    → s.events ≡ []
    → AreDifferent names
    → All (IsSent s) names
    → (t : Spool) × (remove_older limit names s ≡ (ok tt, t)) × AreCleaned limit names s t
unfolding remove_older
remove_older-works limit [] s quiet different found =
    (s, refl, record { quiet = quiet; pending = refl; all = tt; others = λ other h. refl })
remove_older-works limit (name ∷ names) s quiet (apart, different) ((entry, there), found) =
    let old = ltb entry.modified limit in
    let v = looked_at old name s in
    let still : All (IsSent v) names =
      All-apply {Q = IsSent s} {R = IsSent v} names
        (λ other differs o. (o.0, lookup-looked_at old name other s differs ∙ o.1)) apart found in
    let (t, returned, rest) = remove_older-works limit names v quiet different still in
    (
      t,
      step_on (modified_sent name) _ s s entry.modified _
          (modified_sent-works name entry s quiet there)
          (step_on (if old then remove_sent name else pure tt) _ s v tt _
            (remove_if-works old name s quiet) returned),
      record {
        quiet = rest.quiet;
        pending = rest.pending;
        all = (
          (entry, there, rest.others name apart ∙ lookup-looked_at_self old name entry s there),
          All-apply {Q = IsCleaned limit v t} {R = IsCleaned limit s t} names
              (λ other differs c. (c.0, sym (lookup-looked_at old name other s differs) ∙ c.1, c.2))
              apart rest.all,
        );
        others = λ other h.
            rest.others other h.1 ∙ lookup-looked_at old name other s (differs_sym name other h.0);
      },
    )

-- On a disk that works, where no sent entry is listed twice: `cleanup_sent` succeeds, removes every
-- sent entry that is older than the cutoff, keeps every other as it is, and touches nothing that is
-- pending.
pub cleanup_sent-AreCleaned :
    (days : ℕ) (s : Spool)
    → s.events ≡ []
    → AreDifferent (sort (names_of s.sent))
    → (t : Spool) × (cleanup_sent days s ≡ (ok tt, t))
      × AreCleaned (cutoff s.now days) (sort (names_of s.sent)) s t
unfolding cleanup_sent
cleanup_sent-AreCleaned days s quiet different =
    let names = sort (names_of s.sent) in
    let (t, returned, cleaned) =
      remove_older-works (cutoff s.now days) names s quiet different
        (All-sorted _ (names_of s.sent) (names_of-IsFound s.sent)) in
    (
      t,
      step_on (pending_entries (λ u. u.sent)) (remove_older (cutoff s.now days)) s s names _
          (pending_entries-works s quiet (λ u. u.sent)) returned,
      cleaned,
    )

pub prepare-works : (s : Spool) → s.events ≡ [] → prepare s ≡ (ok tt, s)
unfolding prepare
prepare-works s quiet =
    step_on acquire_lock _ s s tt _ (acquire_lock-works s quiet)
      (step_on io_step _ s s tt _ (io_step-works s quiet) (io_step-works s quiet))
