-- ===== src/Client/Shipper/Runs.antt =====
-- A run over the spool: what is pending stays, unless the server has it.
use mathlib.Core.Path.{subst}
use mathlib.Core.List.{Sublist}
use rs_detritus.Common.{
  ℕ, Str, none, some, List, [], ◌∷◌, ◌+◌, length, Result, ◌≡◌, refl, sym, ◌∙◌, ap, inl, inr, arith,
  nat_eq, list_eq, All, All-map, eq_self, false, ◌==◌,
}
use rs_detritus.Common.Ends.{Ends, Ends-ok, Ends-bind, Ends-weaken, Ends-imply, Ends-keep}
use rs_detritus.Common.Table.{lookup}
use rs_detritus.Client.{ClientLibraries}
use rs_detritus.Client.Spool.{Entry, Spool, SpoolIo, pending_entries, names_of, sort}
use rs_detritus.Client.Spool.Sorting.{All-sort, All-sorted, length-sort}
use rs_detritus.Client.Spool.Kept.{Keeps, Nothing, Lists, pending_entries-Ends}
use rs_detritus.Client.Upload.{ShipConfig, ShipError, World, on_spool, crash_url}
use rs_detritus.Client.Upload.Runs.{ClientLaws}
use rs_detritus.Client.Shipper.{
  ship_one, ship_entries, ship_pending, prepare, cleanup_sent, default_sent_retention_days,
}
use rs_detritus.Client.Shipper.Cleanup.{prepare-Ends, cleanup_sent-Ends}
use rs_detritus.Client.Shipper.Delivery.{IsSettled, IsDelivered}
use rs_detritus.Client.Shipper.Delivery.Reading.{on_spool-Ends}
use rs_detritus.Client.Shipper.Delivery.Moving.{ship_one-Ends}
use rs_detritus.Client.Shipper.Preserved.{
  IsPreserved, IsPreserved-refl, IsPreserved-trans, Same, Same-refl, Same-IsPreserved, Moved,
  Moved-lookup, Moved-IsPreserved,
}

module _ (C : ClientLibraries) (laws : ClientLaws C) (to : Entry → C.Url → Type 0) (token : Str)
    (config : ShipConfig) (w0 : World C) where
  pub still-IsPreserved :
      {A : Type 0} {Q : A → World C → Type 0} (w : World C) (r : Result ShipError A × World C)
      → IsPreserved C to token config w0 w
      → Ends (Same C to token config w) Q r
      → Ends (IsPreserved C to token config w0) Q r
  still-IsPreserved w r k h =
      Ends-imply (IsPreserved C to token config w0)
        (λ t s.
          IsPreserved-trans C to token config w0 w t k (Same-IsPreserved C to token config w t s))
        h

  pub on_spool-IsPreserved :
      {A : Type 0} (Q : A → Spool → Type 0) (m : SpoolIo A) (w : World C)
      → IsPreserved C to token config w0 w
      → Ends (Keeps w.spool.pending) Q (m w.spool)
      → Ends (IsPreserved C to token config w0) (λ a t. Q a t.spool) (on_spool C m w)
  on_spool-IsPreserved Q m w k h =
      still-IsPreserved w _ k
        (on_spool-Ends C w.spool.pending w.exchanged Q m w h (Same-refl C to token config w))

  -- None of these entries is pending.
  abbrev pub AreGone : List Str → World C → Type 0
  AreGone names t = All (λ name. lookup name t.spool.pending ≡ none) names

  -- No entry but these has changed.
  abbrev pub HasOthers : List Str → World C → World C → Type 0
  HasOthers names w t =
      (other : Str)
      → All (λ name. (name == other) ≡ false) names
      → lookup other t.spool.pending ≡ lookup other w.spool.pending

  -- An entry is gone, and everything else is preserved.
  abbrev pub HasLeft : Str → World C → World C → Type 0
  HasLeft name w t =
      IsPreserved C to token config w t
      × (lookup name t.spool.pending ≡ none)
      × ((other : Str)
          → (name == other) ≡ false
          → lookup other t.spool.pending ≡ lookup other w.spool.pending)

  pub ship_one-IsPreserved :
      (name : Str) (endpoint : C.Url) (w : World C)
      → ((entry : Entry)
          → lookup name w.spool.pending ≡ some entry
          → to entry (crash_url C endpoint))
      → IsPreserved C to token config w0 w
      → Ends
          (IsPreserved C to token config w0)
          (λ _ t. HasLeft name w t)
          (ship_one C name endpoint token config w)
  ship_one-IsPreserved name endpoint w intended k =
      Ends-imply (IsPreserved C to token config w0)
        (λ t s. IsPreserved-trans C to token config w0 w t k (settled t s))
        (Ends-weaken (λ _. Moved C to token config name w) _ _
          (λ a t m. (Moved-IsPreserved C to token config name w t m, gone t m, others t m))
          (ship_one-Ends C w.spool.pending w.exchanged to token config name laws endpoint w intended
            (Same-refl C to token config w)))
    where
      settled :
          (t : World C)
          → IsSettled C w.spool.pending w.exchanged to token config name t
          → IsPreserved C to token config w t
      settled t (inl same) = Same-IsPreserved C to token config w t same
      settled t (inr moved) = Moved-IsPreserved C to token config name w t moved

      gone : (t : World C) → Moved C to token config name w t → lookup name t.spool.pending ≡ none
      gone t m = Moved-lookup C to token config name name w t m ∙ rw (eq_self name) refl

      others :
          (t : World C)
          → Moved C to token config name w t
          → (other : Str) → (name == other) ≡ false
          → lookup other t.spool.pending ≡ lookup other w.spool.pending
      others t m other differs = Moved-lookup C to token config name other w t m ∙ rw differs refl

  -- What a loop over these entries returns: how many they are, once none of them is pending.
  abbrev pub HasShipped : List Str → ℕ → World C → ℕ → World C → Type 0
  HasShipped names shipped w n t =
      (n ≡ shipped + length names)
      × IsPreserved C to token config w t
      × AreGone names t
      × HasOthers names w t

  -- The loop goes on with the rest.
  pub HasShipped-more :
      (name : Str) (names : List Str) (shipped n : ℕ) (w t t' : World C)
      → HasLeft name w t
      → HasShipped names (shipped + 1) t n t'
      → HasShipped (name ∷ names) shipped w n t'
  HasShipped-more name names shipped n w t t' (later, gone, kept) (count, later', rest, others) = (
    omega arith,
    IsPreserved-trans C to token config w t t' later later',
    (later'.none_new name gone, rest),
    λ other h. others other h.1 ∙ kept other h.0,
  )

  ship_entries-IsPreserved :
      (names : List Str) (endpoint : C.Url) (shipped : ℕ) (w : World C)
      → ((entry : Entry) → to entry (crash_url C endpoint))
      → IsPreserved C to token config w0 w
      → Ends
          (IsPreserved C to token config w0)
          (HasShipped names shipped w)
          (ship_entries C names endpoint token config shipped w)
  unfolding ship_entries
  ship_entries-IsPreserved [] endpoint shipped w intended k =
      Ends-ok shipped w k (omega arith, IsPreserved-refl C to token config w, tt, λ other h. refl)
  ship_entries-IsPreserved (name ∷ names) endpoint shipped w intended k =
      Ends-bind (λ _ t. HasLeft name w t) _ (ship_one C name endpoint token config) _ w
        (ship_one-IsPreserved name endpoint w (λ entry e. intended entry) k)
        λ a t k' left.
          Ends-weaken (HasShipped names (shipped + 1) t) _ _
            (λ n t' h. HasShipped-more name names shipped n w t t' left h)
            (ship_entries-IsPreserved names endpoint (shipped + 1) t intended k')

  -- Some of the entries that were pending are those that a run has shipped: so many, each delivered and
  -- no longer pending, while every other entry is pending as it was.
  pub record IsTallied (n : ℕ) (t : World C) : Type 0 where
    pub shipped : List Str
    pub part : Sublist shipped (names_of w0.spool.pending)
    pub count : n ≡ length shipped
    pub delivered :
        All
          (λ name.
            (lookup name t.spool.pending ≡ none)
            × ((entry : Entry)
                → lookup name w0.spool.pending ≡ some entry
                → IsDelivered C to token config entry t.exchanged))
          shipped
    pub others : HasOthers shipped w0 t

  gone-IsDelivered :
      (t : World C) (name : Str)
      → IsPreserved C to token config w0 t
      → lookup name t.spool.pending ≡ none
      → (entry : Entry) → lookup name w0.spool.pending ≡ some entry
      → IsDelivered C to token config entry t.exchanged
  gone-IsDelivered t name k gone entry e = elim (k.entries name entry e) [
    | inl still ↦ absurd (cc (sym gone ∙ still))
    | inr d ↦ d
  ]

  pub listed :
      (names : List Str) (n : ℕ) (w t : World C)
      → w.spool.pending ≡ w0.spool.pending
      → IsPreserved C to token config w0 t
      → Lists w0.spool.pending names w.spool
      → HasShipped names 0 w n t
      → IsTallied n t
  listed names n w t same k (kept, sorted, part) (count, later, gone, others) =
      let many : length names ≡ length kept = ap length sorted ∙ length-sort kept in
      let all_gone : AreGone (sort kept) t = subst (λ ns. AreGone ns t) sorted gone in
      record {
        shipped = kept;
        part = part;
        count = omega (arith, many);
        delivered =
            All-map kept (λ name e. (e, gone-IsDelivered t name k e)) (All-sort _ kept all_gone);
        others = λ other h.
            others other
              (subst (All (λ name. (name == other) ≡ false)) (sym sorted) (All-sorted _ kept h))
            ∙ ap (lookup other) same;
      }

  -- The operations of the spool before the loop.
  pub on_spool_first :
      {A : Type 0} (Q : A → Spool → Type 0) (m : SpoolIo A) (w : World C)
      → Same C to token config w0 w
      → Ends (Keeps w0.spool.pending) Q (m w.spool)
      → Ends
          (IsPreserved C to token config w0)
          (λ a t. Same C to token config w0 t × Q a t.spool)
          (on_spool C m w)
  on_spool_first Q m w k h =
      Ends-imply (IsPreserved C to token config w0) (Same-IsPreserved C to token config w0)
        (Ends-keep (on_spool-Ends C w0.spool.pending w0.exchanged Q m w h k))

  -- The entries of a run, once it has the lock.
  pub listing-Ends :
      (w : World C)
      → Same C to token config w0 w
      → Ends
          (IsPreserved C to token config w0)
          (λ names t. Same C to token config w0 t × Lists w0.spool.pending names t.spool)
          (on_spool C (pending_entries (λ s. s.pending)) w)
  listing-Ends w u =
      on_spool_first (Lists w0.spool.pending) (pending_entries (λ s. s.pending)) w u
        (pending_entries-Ends w0.spool.pending w.spool u.0)

  pub preparing-Ends :
      Ends
        (IsPreserved C to token config w0)
        (λ _ t. Same C to token config w0 t × Unit)
        (on_spool C prepare w0)
  preparing-Ends =
      on_spool_first Nothing prepare w0 (Same-refl C to token config w0)
        (prepare-Ends w0.spool.pending w0.spool refl)

  run-Ends :
      (endpoint : C.Url)
      → ((entry : Entry) → to entry (crash_url C endpoint))
      → Ends (IsPreserved C to token config w0) IsTallied (ship_pending C endpoint token config w0)
  unfolding ship_pending
  run-Ends endpoint intended =
      Ends-bind (λ _ t. Same C to token config w0 t × Unit) _ (on_spool C prepare) _ w0
        preparing-Ends
        λ a t k (u, q).
          Ends-bind (λ _ t'. Same C to token config w0 t' × Unit) _
            (on_spool C (cleanup_sent default_sent_retention_days)) _ t
            (on_spool_first Nothing (cleanup_sent default_sent_retention_days) t u
              (cleanup_sent-Ends w0.spool.pending default_sent_retention_days t.spool u.0))
            λ b t' k' (u', q').
              Ends-bind
                (λ names t''.
                  Same C to token config w0 t'' × Lists w0.spool.pending names t''.spool)
                _ (on_spool C (pending_entries (λ s. s.pending))) _ t' (listing-Ends t' u')
                λ names t'' k'' (u'', l).
                  Ends-weaken
                    (λ n v. IsPreserved C to token config w0 v × HasShipped names 0 t'' n v) _ _
                    (λ n v (kept, h). listed names n t'' v u''.0 kept l h)
                    (Ends-keep (ship_entries-IsPreserved names endpoint 0 t'' intended k''))

module _ (C : ClientLibraries) (endpoint : C.Url) where
  -- The address of the run, whatever the entry.
  abbrev pub IsEndpoint : Entry → C.Url → Type 0
  IsEndpoint entry url = url ≡ crash_url C endpoint

module _ (C : ClientLibraries) (laws : ClientLaws C) (token : Str) (config : ShipConfig)
    (w0 : World C) (endpoint : C.Url) where
  -- With a compressor that does not panic: however a run ends, and wherever the disk or the network
  -- fails, it does not panic, and every crash that was pending is pending as it was, or a request with
  -- the token to the address of the run carried it and the server answered with a success. A returned
  -- number is that of the entries, among those that were pending, that are no longer pending and were
  -- delivered in this way, and every other entry is pending as it was.
  pub ship_pending-Ends :
      Ends
        (IsPreserved C (IsEndpoint C endpoint) token config w0)
        (IsTallied C laws (IsEndpoint C endpoint) token config w0)
        (ship_pending C endpoint token config w0)
  ship_pending-Ends =
      run-Ends C laws (IsEndpoint C endpoint) token config w0 endpoint (λ entry. refl)
