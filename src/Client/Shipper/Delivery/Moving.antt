-- ===== src/Client/Shipper/Delivery/Moving.antt =====
-- An entry is moved once it is delivered.
use mathlib.Core.Path.{subst}
use rs_detritus.Common.{
  Str, Bool, true, false, none, some, List, bytes, Result, ok, err, panic, pure, map_err, ◌≡◌, refl,
  sym, ◌∙◌, ap, inl, inr, nat_eq, list_eq, if◌then◌else◌, Option-cases,
}
use rs_detritus.Common.Ends.{Ends, Ends-ok, Ends-err, Ends-bind, Ends-weaken, Ends-keep, Ends-imply}
use rs_detritus.Common.Table.{Table, lookup}
use rs_detritus.Storage.{IoError}
use rs_detritus.Protocol.{CrashEnvelope}
use rs_detritus.Client.{ClientLibraries}
use rs_detritus.Client.Spool.{
  Entry, Spool, SpoolIo, read_pending, exists_sent, remove_sent, rename_to_sent, file_of,
}
use rs_detritus.Client.Spool.Kept.{
  Keeps, Nothing, read_pending-Ends, exists_sent-Ends, remove_sent-Ends, IsMoved, Settles,
  rename_to_sent-Ends,
}
use rs_detritus.Client.Upload.{
  ShipConfig, io, Reply, Request, World, on_spool, crash_url, post_envelope,
}
use rs_detritus.Client.Upload.Runs.{ClientLaws}
use rs_detritus.Client.Shipper.{read_envelope, ship_one}
use rs_detritus.Client.Shipper.Delivery.{
  Holds, IsAccepted, IsDelivered, Untouched, IsShipped, IsSettled,
}
use rs_detritus.Client.Shipper.Delivery.Reading.{on_spool-Ends, read_envelope-Ends}
use rs_detritus.Client.Shipper.Delivery.Posting.{post_envelope-Ends}

module _ (C : ClientLibraries) (p : Table Str Entry) (xs : List (Request C × Reply)) where
  abbrev Still : World C → Type 0
  Still = Untouched C p xs

  module _ (to : Entry → C.Url → Type 0) (token : Str) (config : ShipConfig) (name : Str) where
    abbrev Shipped : World C → Type 0
    Shipped = IsShipped C p xs to token config name

    abbrev Settled : World C → Type 0
    Settled = IsSettled C p xs to token config name

    abbrev Has : Entry → List (Request C × Reply) → Type 0
    Has = IsDelivered C to token config

    -- The entry that is there holds the envelope.
    abbrev WasRead : CrashEnvelope C.Json → World C → Type 0
    WasRead envelope w = (entry : Entry) × (lookup name p ≡ some entry) × Holds C entry envelope

    read_missing-Ends :
        (w : World C) → lookup name p ≡ none → Still w → Ends Still WasRead (read_envelope C name w)
    unfolding read_envelope
    read_missing-Ends w e u =
        Ends-bind (λ a _. file_of (lookup name p) (bytes "metadata.json") ≡ some a) _
          (on_spool C (read_pending name (bytes "metadata.json"))) _ w
          (on_spool-Ends C p xs _ (read_pending name (bytes "metadata.json")) w
            (read_pending-Ends p name (bytes "metadata.json") w.spool u.0) u)
          λ a t u' found. absurd (cc (ap (λ o. file_of o (bytes "metadata.json")) (sym e) ∙ found))

    read_any-Ends : (w : World C) → Still w → Ends Still WasRead (read_envelope C name w)
    read_any-Ends w u = elim (Option-cases (lookup name p)) [
      | inl e ↦ read_missing-Ends w e u
      | inr (entry, e) ↦
          Ends-weaken (λ envelope _. Holds C entry envelope) _ _ (λ envelope t h. (entry, e, h))
            (read_envelope-Ends C p xs name entry e w u)
    ]

    -- An entry that was delivered, before it is moved.
    abbrev Delivered : Entry → World C → Type 0
    Delivered entry w = Still w × Has entry w.exchanged

    beside_spool-Ends :
        {A : Type 0} (m : SpoolIo A) (entry : Entry) (w : World C)
        → Ends (Keeps p) Nothing (m w.spool)
        → Delivered entry w
        → Ends Settled (λ _. Delivered entry) (on_spool C m w)
    unfolding on_spool
    beside_spool-Ends {A} m entry w h (u, d) = let (r, s) = m w.spool in settle r s h
      where
        settle :
            (r : Result IoError A) (s : Spool)
            → Ends (Keeps p) Nothing (r, s)
            → Ends Settled (λ _. Delivered entry) (map_err io r, record w { spool = s })
        settle (ok a) s k = Ends-ok a _ (inl (k.kept, u.1)) ((k.kept, u.1), d)
        settle (err e) s k = Ends-err (io e) _ (inl (k.kept, u.1))
        settle panic s k = absurd (k.runs refl)

    move-Ends :
        (entry : Entry) (w : World C)
        → lookup name p ≡ some entry
        → Delivered entry w
        → Ends Settled (λ _. Shipped) (on_spool C (rename_to_sent name) w)
    unfolding on_spool
    move-Ends entry w e (u, d) =
        let (r, s) = rename_to_sent name w.spool in
        settle r s (rename_to_sent-Ends p name w.spool u.0)
      where
        shipped : (s : Spool) → IsMoved p name s → Shipped (record w { spool = s })
        shipped s moved =
            let same : entry ≡ moved.entry = cc (sym e ∙ moved.was) in
            record {
              moved = moved;
              delivered = subst (λ x. Has x w.exchanged) same d;
              longer = u.1;
            }

        settled : (s : Spool) → Settles p name s → Settled (record w { spool = s })
        settled s (inl k) = inl (k, u.1)
        settled s (inr moved) = inr (shipped s moved)

        settle :
            (r : Result IoError (Unit {0})) (s : Spool)
            → Ends (Settles p name) (λ _. IsMoved p name) (r, s)
            → Ends Settled (λ _. Shipped) (map_err io r, record w { spool = s })
        settle (ok a) s k = Ends-ok a _ (settled s k.kept) (shipped s (k.returned a refl))
        settle (err e) s k = Ends-err (io e) _ (settled s k.kept)
        settle panic s k = absurd (k.runs refl)

    clear-Ends :
        (there : Bool) (entry : Entry) (w : World C)
        → Delivered entry w
        → Ends Settled
            (λ _. Delivered entry)
            ((if there then on_spool C (remove_sent name) else pure tt) w)
    clear-Ends true entry w d =
        beside_spool-Ends (remove_sent name) entry w (remove_sent-Ends p name w.spool d.0.0) d
    clear-Ends false entry w d = Ends-ok tt w (inl d.0) d

    module _ (laws : ClientLaws C) (endpoint : C.Url) where
      pub ship_one-Ends :
          (w : World C)
          → ((entry : Entry) → lookup name p ≡ some entry → to entry (crash_url C endpoint))
          → Still w
          → Ends Settled (λ _. Shipped) (ship_one C name endpoint token config w)
      unfolding ship_one
      ship_one-Ends w intended u =
          Ends-bind (λ envelope t. Still t × WasRead envelope t) _ (read_envelope C name) _ w
            (Ends-imply Settled (λ s. inl) (Ends-keep (read_any-Ends w u)))
            λ envelope t s (u', (entry, e, held)).
              Ends-bind (λ _. Delivered entry) _ (post_envelope C endpoint token envelope config) _
                t
                (Ends-imply Settled (λ s'. inl)
                  (Ends-weaken
                    (λ _ t'.
                      Still t'
                      × IsAccepted C token config (crash_url C endpoint) envelope t'.exchanged)
                    _ _
                    (λ x t' q. (
                      q.0,
                      record {
                        envelope = envelope;
                        held = held;
                        url = crash_url C endpoint;
                        intended = intended entry e;
                        accepted = q.1;
                      },
                    ))
                    (post_envelope-Ends C p xs token config laws endpoint envelope t u')))
                λ x t' s' d.
                  Ends-bind (λ _. Delivered entry) _ (on_spool C (exists_sent name)) _ t'
                    (beside_spool-Ends (exists_sent name) entry t'
                      (exists_sent-Ends p name t'.spool d.0.0) d)
                    λ there t'' s'' d'.
                      Ends-bind (λ _. Delivered entry) _
                        (if there then on_spool C (remove_sent name) else pure tt) _ t''
                        (clear-Ends there entry t'' d') λ y v s3 d''. move-Ends entry v e d''
