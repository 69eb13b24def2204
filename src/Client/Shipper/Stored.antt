-- ===== src/Client/Shipper/Stored.antt =====
-- A run that posts each entry to the address that is stored beside it.
use mathlib.Core.Path.{subst}
use rs_detritus.Common.{
  ℕ, Str, Bool, true, false, Option, none, some, List, [], ◌∷◌, ◌+◌, pure, bytes, ok_or, ◌>>◌, ◌≡◌,
  refl, sym, ap, ◌∙◌, All-map, arith, nat_eq, list_eq,
}
use rs_detritus.Common.Ends.{
  Ends, Ends-ok, Ends-bind, Ends-weaken, Ends-keep, lift-bind-Ends, ok_or-runs, ok_or-some,
}
use rs_detritus.Common.Table.{lookup}
use rs_detritus.Client.{ClientLibraries, StoredUploadConfig}
use rs_detritus.Client.Spool.{
  Entry, Spool, SpoolIo, file_of, read_pending, exists_pending, pending_entries,
}
use rs_detritus.Client.Spool.Kept.{Keeps, Nothing, Lists, read_pending-Ends, exists_pending-Ends}
use rs_detritus.Client.Upload.{ShipConfig, json, missing_stored_config, World, on_spool, crash_url}
use rs_detritus.Client.Upload.Runs.{ClientLaws}
use rs_detritus.Client.Shipper.{
  ship_one, prepare, cleanup_sent, read_stored_upload_config, resolve_stored_endpoint,
  ship_stored_entries, ship_stored, read_if_there, record_retention, retention_or_default,
}
use rs_detritus.Client.Shipper.Cleanup.{cleanup_sent-Ends}
use rs_detritus.Client.Shipper.Delivery.{IsDelivered, IsDelivered-extend}
use rs_detritus.Client.Shipper.Delivery.Reading.{on_spool-Ends}
use rs_detritus.Client.Shipper.Preserved.{
  IsPreserved, IsPreserved-refl, IsPreserved-trans, Same, Same-refl, Same-IsPreserved,
}
use rs_detritus.Client.Shipper.Runs.{
  still-IsPreserved, ship_one-IsPreserved, HasShipped, HasShipped-more, HasLeft, IsTallied, listed,
  listing-Ends, preparing-Ends,
}

module _ (C : ClientLibraries) where
  -- The address that is stored beside an entry, completed to that of crashes.
  pub record IsStoredAddress (entry : Entry) (url : C.Url) : Type 0 where
    pub text : Str
    pub there : lookup (bytes "sdk-config.json") entry.files ≡ some text
    pub stored : StoredUploadConfig
    pub parsed : C.parse_stored_config text ≡ some stored
    pub endpoint : C.Url
    pub read : C.parse_url stored.endpoint ≡ some endpoint
    pub completed : url ≡ crash_url C endpoint

module _ (C : ClientLibraries) (laws : ClientLaws C) (token : Str) (config : ShipConfig)
    (w0 : World C) where
  abbrev Intended : Entry → C.Url → Type 0
  Intended = IsStoredAddress C

  abbrev Safe : World C → Type 0
  Safe = IsPreserved C Intended token config w0

  Free : {A : Type 0} → A → World C → Type 0
  Free a w = Unit

  -- Before a post nothing has changed since the state `w`.
  abbrev StaysAs : {A : Type 0} → World C → A → World C → Type 0
  StaysAs w a t = Same C Intended token config w t

  module _ (w : World C) where
    idle-Ends :
        {A : Type 0} (m : SpoolIo A) (t : World C)
        → StaysAs w tt t
        → ((s : Spool) → Keeps w.spool.pending s → Ends (Keeps w.spool.pending) Nothing (m s))
        → Ends (StaysAs w tt) (StaysAs w) (on_spool C m t)
    idle-Ends m t u f =
        Ends-weaken (λ a t'. StaysAs w tt t' × Nothing a t'.spool) _ _ (λ a t' q. q.0)
          (Ends-keep (on_spool-Ends C w.spool.pending w.exchanged Nothing m t (f t.spool u.0) u))

    -- What is read is what is stored beside the entry.
    abbrev WasStored : Str → Option StoredUploadConfig → Type 0
    WasStored name found =
        (stored : StoredUploadConfig)
        → found ≡ some stored
        → (text : Str) × (file_of (lookup name w.spool.pending) (bytes "sdk-config.json")
            ≡ some text)
          × (C.parse_stored_config text ≡ some stored)

    abbrev FoundStored : Str → Option StoredUploadConfig → World C → Type 0
    FoundStored name found t = StaysAs w tt t × WasStored name found

    read_if_there-Ends :
        (name : Str) (there : Bool) (t : World C)
        → StaysAs w tt t
        → Ends (StaysAs w tt) (FoundStored name) (read_if_there C name there t)
    unfolding read_if_there
    read_if_there-Ends name false t u = Ends-ok none t u (u, λ stored e. cc e)
    read_if_there-Ends name true t u =
        Ends-bind
          (λ text _. file_of (lookup name w.spool.pending) (bytes "sdk-config.json") ≡ some text) _
          (on_spool C (read_pending name (bytes "sdk-config.json"))) _ t
          (on_spool-Ends C w.spool.pending w.exchanged _
            (read_pending name (bytes "sdk-config.json")) t
            (read_pending-Ends w.spool.pending name (bytes "sdk-config.json") t.spool u.0) u)
          λ text t' u' found.
            lift-bind-Ends _ (ok_or json (C.parse_stored_config text)) _ t'
              (ok_or-runs json (C.parse_stored_config text)) u'
              (λ stored e. Ends-ok (some stored) t' u' (
                u',
                λ other same.
                    let equal : stored ≡ other = cc same in
                    (text, found, ok_or-some json (C.parse_stored_config text) e ∙ ap some equal),
              ))

    -- The address that was found is the one that is stored beside the entry.
    abbrev IsResolved : Str → C.Url × ℕ → World C → Type 0
    IsResolved name resolved t =
        StaysAs w tt t
        × ((entry : Entry)
            → lookup name w.spool.pending ≡ some entry
            → IsStoredAddress C entry (crash_url C resolved.0))

    resolve_stored_endpoint-Ends :
        (name : Str) → Ends (StaysAs w tt) (IsResolved name) (resolve_stored_endpoint C name w)
    unfolding resolve_stored_endpoint read_stored_upload_config
    resolve_stored_endpoint-Ends name =
        Ends-bind (FoundStored name) _ (read_stored_upload_config C name) _ w
          (Ends-bind (StaysAs w) _ (on_spool C (exists_pending name (bytes "sdk-config.json"))) _ w
            (idle-Ends (exists_pending name (bytes "sdk-config.json")) w
              (Same-refl C Intended token config w)
              (exists_pending-Ends w.spool.pending name (bytes "sdk-config.json")))
            λ there t u q. read_if_there-Ends name there t u)
          λ found t u (u', was).
            lift-bind-Ends _ (ok_or (missing_stored_config name) found) _ t (ok_or-runs _ found) u
              λ kept e.
                lift-bind-Ends _ (ok_or (missing_stored_config name) (C.parse_url kept.endpoint)) _
                  t (ok_or-runs _ (C.parse_url kept.endpoint)) u
                  λ endpoint e'.
                    let (text, there, parsed) = was kept (ok_or-some _ found e) in
                    Ends-ok _ t u (
                      u,
                      λ entry is_there. record {
                        text = text;
                        there =
                            sym (ap (λ o. file_of o (bytes "sdk-config.json")) is_there) ∙ there;
                        stored = kept;
                        parsed = parsed;
                        endpoint = endpoint;
                        read = ok_or-some _ (C.parse_url kept.endpoint) e';
                        completed = refl;
                      },
                    )

  abbrev Loop : List Str → ℕ → World C → ℕ × Option ℕ → World C → Type 0
  Loop names shipped w r t = HasShipped C laws Intended token config w0 names shipped w r.0 t

  ship_stored_entries-IsPreserved :
      (names : List Str) (shipped : ℕ) (retention : Option ℕ) (w : World C)
      → Safe w
      → Ends Safe
          (Loop names shipped w)
          (ship_stored_entries C names token config shipped retention w)
  unfolding ship_stored_entries
  ship_stored_entries-IsPreserved [] shipped retention w k =
      Ends-ok _ w k (omega arith, IsPreserved-refl C Intended token config w, tt, λ other h. refl)
  ship_stored_entries-IsPreserved (name ∷ names) shipped retention w k =
      Ends-bind
        (λ (resolved : C.Url × ℕ) t.
          IsPreserved C Intended token config w0 t × IsResolved w name resolved t)
        _ (resolve_stored_endpoint C name) _ w
        (Ends-keep (
          still-IsPreserved C laws Intended token config w0 w _ k
            (resolve_stored_endpoint-Ends w name)))
        λ resolved t k' (k'', (u, intended)).
          Ends-bind (λ _ t'. HasLeft C laws Intended token config w0 name t t') _
            (ship_one C name resolved.0 token config) _ t
            (ship_one-IsPreserved C laws Intended token config w0 name resolved.0 t
              (λ entry e. intended entry (sym (ap (lookup name) u.0) ∙ e)) k')
            λ a t' k3 (later, gone, others).
              Ends-weaken (Loop names (shipped + 1) t') _ _
                (λ r v h.
                  HasShipped-more C laws Intended token config w0 name names shipped r.0 w t' v
                    (
                      IsPreserved-trans C Intended token config w t t'
                          (Same-IsPreserved C Intended token config w t u) later,
                      gone,
                      λ other differs. others other differs ∙ ap (lookup other) u.0,
                    )
                    h)
                (ship_stored_entries-IsPreserved names (shipped + 1)
                  (record_retention retention resolved.1) t' k3)

  IsTallied-later :
      (n : ℕ) (w t : World C)
      → IsTallied C laws Intended token config w0 n w
      → Same C Intended token config w t
      → IsTallied C laws Intended token config w0 n t
  IsTallied-later n w t h (same, (more, longer)) = record {
    shipped = h.shipped;
    part = h.part;
    count = h.count;
    delivered =
        All-map h.shipped
          (λ name d. (
            ap (lookup name) same ∙ d.0,
            λ entry e.
                subst (IsDelivered C Intended token config entry) (sym longer)
                  (IsDelivered-extend C Intended token config entry w.exchanged more (d.1 entry e)),
          ))
          h.delivered;
    others = λ other free. ap (lookup other) same ∙ h.others other free;
  }

  tidy-Ends :
      (days n : ℕ) (w : World C)
      → Safe w
      → IsTallied C laws Intended token config w0 n w
      → Ends Safe
          (IsTallied C laws Intended token config w0)
          ((on_spool C (cleanup_sent days) >> pure n) w)
  tidy-Ends days n w k complete =
      Ends-bind (λ a t. IsTallied C laws Intended token config w0 n t) _
        (on_spool C (cleanup_sent days)) (λ _. pure n) w
        (still-IsPreserved C laws Intended token config w0 w _ k (
          Ends-weaken (λ a t. Same C Intended token config w t × Nothing a t.spool) _ _
            (λ a t q. IsTallied-later n w t complete q.0)
            (Ends-keep (
              on_spool-Ends C w.spool.pending w.exchanged Nothing (cleanup_sent days) w
                (cleanup_sent-Ends w.spool.pending days w.spool refl)
                (Same-refl C Intended token config w)))))
        (λ a t k' done. Ends-ok n t k' done)

  -- With a compressor that does not panic: however a run with stored addresses ends, and wherever the
  -- disk or the network fails, it does not panic, and every crash that was pending is pending as it
  -- was, or a request with the token, to the address that is stored beside this crash, carried it and
  -- the server answered with a success. A returned number is that of the entries, among those that
  -- were pending, that are no longer pending and were delivered in this way, and every other entry is
  -- pending as it was.
  pub ship_stored-Ends :
      Ends Safe (IsTallied C laws Intended token config w0) (ship_stored C token config w0)
  unfolding ship_stored
  ship_stored-Ends =
      Ends-bind (λ _ t. StaysAs w0 tt t × Unit) _ (on_spool C prepare) _ w0
        (preparing-Ends C laws Intended token config w0)
        λ a t k (u, q).
          Ends-bind (λ names t'. StaysAs w0 tt t' × Lists w0.spool.pending names t'.spool) _
            (on_spool C (pending_entries (λ s. s.pending))) _ t
            (listing-Ends C laws Intended token config w0 t u)
            λ names t' k' (u', l).
              Ends-bind (λ r t''. IsTallied C laws Intended token config w0 r.0 t'') _
                (ship_stored_entries C names token config 0 none) _ t'
                (Ends-weaken (λ r v. Safe v × Loop names 0 t' r v) _ _
                  (λ r v (kept, h).
                    listed C laws Intended token config w0 names r.0 t' v u'.0 kept l h)
                  (Ends-keep (ship_stored_entries-IsPreserved names 0 none t' k')))
                λ r t'' k'' done. tidy-Ends (retention_or_default r.1) r.0 t'' k'' done
