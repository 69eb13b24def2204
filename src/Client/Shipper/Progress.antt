-- ===== src/Client/Shipper/Progress.antt =====
-- crates/detritus-client/src/shipper.rs: that a run gets through the spool where nothing fails.
use rs_detritus.Common.{
  ℕ, Str, true, false, none, some, List, [], ◌∷◌, ◌++◌, ◌+◌, bytes, length, ok, ◌≡◌, refl, sym, ◌∙◌,
  ap, arith, nat_eq, list_eq, eq_self, ◌==◌, differs_sym, All-map, step_on, All, All-apply,
}
use rs_detritus.Common.Table.{
  Table, lookup, insert, remove, lookup-insert, lookup-remove, lookup-remove_other,
}
use rs_detritus.Protocol.{CrashEnvelope}
use rs_detritus.Client.{ClientLibraries}
use rs_detritus.Client.Spool.{Entry, Spool, pending_entries, sort, names_of}
use rs_detritus.Client.Spool.Working.{pending_entries-works}
use rs_detritus.Client.Spool.Sorting.{AreDifferent, length-sort, length-names_of}
use rs_detritus.Client.Upload.{
  World, ShipConfig, on_spool, Reply, answered, upload_body, is_success, next_reply, later_replies,
}
use rs_detritus.Client.Shipper.{
  ship_one, ship_entries, ship_pending, prepare, cleanup_sent, default_sent_retention_days,
}
use rs_detritus.Client.Shipper.Cleanup.Exact.{cleanup_sent-AreCleaned, prepare-works}
use rs_detritus.Client.Shipper.Delivery.{Holds}
use rs_detritus.Client.Shipper.Delivery.Served.{on_spool-ok, request_for, moved, ship_one-ok}

-- The server answers as many requests with a success.
abbrev pub AreAccepted : {A : Type 0} → List A → List Reply → Type 0
AreAccepted [] replies = Unit
AreAccepted (x ∷ xs) replies =
    (code : ℕ) × (next_reply replies ≡ answered code true)
    × (is_success code ≡ true)
    × AreAccepted xs (later_replies replies)

lookup-moved_sent :
    (name other : Str) (entry : Entry) (p : Table Str Entry)
    → (other == name) ≡ false
    → lookup other (insert name entry (remove name p)) ≡ lookup other p
lookup-moved_sent name other entry p differs =
    lookup-insert name other entry (remove name p)
    ∙ (rw (differs_sym other name differs) (lookup-remove_other name other p differs))

counted : (p : Table Str Entry) → 0 + length (sort (names_of p)) ≡ length p
counted p = omega (arith, length-sort (names_of p), length-names_of p)

module _ (C : ClientLibraries) where
  -- A pending entry holds an envelope whose body can be made.
  pub record IsReady (config : ShipConfig) (s : Spool) (name : Str) : Type 0 where
    pub entry : Entry
    pub there : lookup name s.pending ≡ some entry
    pub envelope : CrashEnvelope C.Json
    pub held : Holds C entry envelope
    pub body : Str
    pub written : upload_body C config envelope ≡ ok body

  -- An entry has moved, as it was, from those that are pending to those that are sent.
  pub record HasMoved (before after : Spool) (name : Str) : Type 0 where
    pub entry : Entry
    pub was : lookup name before.pending ≡ some entry
    pub gone : lookup name after.pending ≡ none
    pub kept : lookup name after.sent ≡ some entry

  -- These entries have moved, and no other has changed.
  pub record HaveMoved (names : List Str) (before after : Spool) : Type 0 where
    pub quiet : after.events ≡ []
    pub all : All (HasMoved before after) names
    pub others :
        (other : Str)
        → All (λ name. (name == other) ≡ false) names
        → (lookup other after.pending ≡ lookup other before.pending)
          × (lookup other after.sent ≡ lookup other before.sent)

  IsReady-again :
      (config : ShipConfig) (name : Str) (s t : Spool)
      → t.pending ≡ s.pending
      → IsReady config s name
      → IsReady config t name
  IsReady-again config name s t same r = record {
    entry = r.entry;
    there = ap (lookup name) same ∙ r.there;
    envelope = r.envelope;
    held = r.held;
    body = r.body;
    written = r.written;
  }

  HasMoved-before :
      (name : Str) (s t after : Spool)
      → t.pending ≡ s.pending
      → HasMoved t after name
      → HasMoved s after name
  HasMoved-before name s t after same m = record {
    entry = m.entry;
    was = ap (lookup name) (sym same) ∙ m.was;
    gone = m.gone;
    kept = m.kept;
  }

  module _ (endpoint : C.Url) (token : Str) (config : ShipConfig)
      (in_a_header : C.is_header_value (bytes "Bearer " ++ token) ≡ true) where
    pub ship_entries-sends :
        (names : List Str) (shipped : ℕ) (w : World C)
        → w.spool.events ≡ []
        → AreDifferent names
        → All (IsReady config w.spool) names
        → AreAccepted names w.replies
        → (t : World C) × (ship_entries C names endpoint token config shipped w
            ≡ (ok (shipped + length names), t))
          × HaveMoved names w.spool t.spool
    unfolding ship_entries
    ship_entries-sends [] shipped w quiet different ready accepted = (
      w,
      ap (λ n. (ok n, w)) (omega arith),
      record { quiet = quiet; all = tt; others = λ other h. (refl, refl) },
    )
    ship_entries-sends (name ∷ names) shipped w quiet (apart, different) (r, ready)
          (code, taken, success, accepted) =
        let request = request_for C endpoint token r.body in
        let v = moved C name r.entry request w in
        let still : All (IsReady config v.spool) names =
          All-apply {Q = IsReady config w.spool} {R = IsReady config v.spool} names
            (λ other differs o. record {
              entry = o.entry;
              envelope = o.envelope;
              held = o.held;
              body = o.body;
              written = o.written;
              there = lookup-remove_other name other w.spool.pending differs ∙ o.there;
            })
            apart ready in
        let (t, returned, rest) =
          ship_entries-sends names (shipped + 1) v quiet different still accepted in
        let untouched = rest.others name apart in
        (
          t,
          step_on (ship_one C name endpoint token config) _ w v tt _
              (ship_one-ok C name r.entry w quiet r.there endpoint token config r.envelope r.body
                code r.written in_a_header taken success r.held)
              (returned ∙ ap (λ n. (ok n, t)) (omega arith)),
          record {
            quiet = rest.quiet;
            all = (
              record {
                entry = r.entry;
                was = r.there;
                gone =
                    untouched.0
                    ∙ lookup-remove name name w.spool.pending
                    ∙ (rw (eq_self name) refl);
                kept =
                    untouched.1
                    ∙ lookup-insert name name r.entry (remove name w.spool.sent)
                    ∙ (rw (eq_self name) refl);
              },
              All-apply {Q = HasMoved v.spool t.spool} {R = HasMoved w.spool t.spool} names
                  (λ other differs m. record {
                    entry = m.entry;
                    gone = m.gone;
                    kept = m.kept;
                    was = sym (lookup-remove_other name other w.spool.pending differs) ∙ m.was;
                  })
                  apart rest.all,
            );
            others = λ other h.
                let later = rest.others other h.1 in
                (
                  later.0
                      ∙ lookup-remove_other name other w.spool.pending (differs_sym name other h.0),
                  later.1
                      ∙ lookup-moved_sent name other r.entry w.spool.sent
                          (differs_sym name other h.0),
                );
          },
        )

    -- On a disk that works, where no entry is listed twice, every pending entry holds an envelope whose
    -- body can be made, a header can carry the token and the server answers a request for each with a
    -- success: a run returns the number of the pending entries, each of which is then no longer pending
    -- but sent, as it was.
    pub ship_pending-sends :
        (w : World C)
        → w.spool.events ≡ []
        → AreDifferent (sort (names_of w.spool.sent))
        → AreDifferent (sort (names_of w.spool.pending))
        → All (IsReady config w.spool) (sort (names_of w.spool.pending))
        → AreAccepted (sort (names_of w.spool.pending)) w.replies
        → (t : World C) × (ship_pending C endpoint token config w
            ≡ (ok (length w.spool.pending), t))
          × All (HasMoved w.spool t.spool) (sort (names_of w.spool.pending))
    unfolding ship_pending
    ship_pending-sends w quiet sent_apart apart ready accepted =
        let names = sort (names_of w.spool.pending) in
        let (s, returned, cleaned) =
          cleanup_sent-AreCleaned default_sent_retention_days w.spool quiet sent_apart in
        let v = record w { spool = s } in
        let still : All (IsReady config s) names =
          All-map names (λ name r. IsReady-again config name w.spool s cleaned.pending r) ready in
        let (t, shipped, moves) = ship_entries-sends names 0 v cleaned.quiet apart still accepted in
        (
          t,
          step_on (on_spool C prepare) _ w w tt _
              (on_spool-ok C prepare w tt w.spool (prepare-works w.spool quiet))
              (step_on (on_spool C (cleanup_sent default_sent_retention_days)) _ w v tt _
                (on_spool-ok C (cleanup_sent default_sent_retention_days) w tt s returned)
                (step_on (on_spool C (pending_entries (λ u. u.pending))) _ v v names _
                  (on_spool-ok C (pending_entries (λ u. u.pending)) v names s (
                    pending_entries-works s cleaned.quiet (λ u. u.pending)
                    ∙ ap (λ p. (ok (sort (names_of p)), s)) cleaned.pending))
                  (shipped ∙ ap (λ n. (ok n, t)) (counted w.spool.pending)))),
          All-map names (λ name m. HasMoved-before name w.spool s t.spool cleaned.pending m)
              moves.all,
        )
