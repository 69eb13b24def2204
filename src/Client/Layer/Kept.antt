-- ===== src/Client/Layer/Kept.antt =====
-- The operations of the disk send nothing.
use rs_detritus.Common.{Str, Option, List, [], ◌∷◌, ◌≡◌, nat_eq, list_eq}
use rs_detritus.Common.Ends.{Ends, Ends-ok, Ends-err}
use rs_detritus.Common.Table.{insert}
use rs_detritus.Logs.{JsonValues}
use rs_detritus.Client.Layer.{
  Outcome, DiskEvent, works, fails, Request, Exporter, disk_event, disk_step, write_file, leave,
}

module _ (V : JsonValues) where
  abbrev pub Nothing : {A : Type 0} → A → Exporter V → Type 0
  Nothing a x = Unit

  -- What was sent so far.
  abbrev pub Sent : List (Request V × Outcome) → Exporter V → Type 0
  Sent exports x = x.exported ≡ exports

  module _ (exports : List (Request V × Outcome)) where
    disk_event-Ends :
        (damage : Option Str → Exporter V → Exporter V) (change : Exporter V → Exporter V)
        (es : List DiskEvent) (x : Exporter V)
        → ((left : Option Str) (y : Exporter V) → Sent exports y → Sent exports (damage left y))
        → ((y : Exporter V) → Sent exports y → Sent exports (change y))
        → Sent exports x
        → Ends (Sent exports) Nothing (disk_event V damage change es x)
    disk_event-Ends damage change [] x f g k = Ends-ok tt _ (g x k) tt
    disk_event-Ends damage change (works ∷ es) x f g k = Ends-ok tt _ (g _ k) tt
    disk_event-Ends damage change (fails e left ∷ es) x f g k = Ends-err e _ (f left _ k)

    pub disk_step-Ends :
        (x : Exporter V) → Sent exports x → Ends (Sent exports) Nothing (disk_step V x)
    unfolding disk_step
    disk_step-Ends x k =
        disk_event-Ends (λ left y. y) (λ y. y) x.disk x (λ left y s. s) (λ y s. s) k

    pub write_file-Ends :
        (name contents : Str) (x : Exporter V)
        → Sent exports x
        → Ends (Sent exports) Nothing (write_file V name contents x)
    unfolding write_file
    write_file-Ends name contents x k =
        disk_event-Ends (λ left y. record y { queue = leave V name left y.queue })
          (λ y. record y { queue = insert name contents y.queue }) x.disk x (λ left y s. s)
          (λ y s. s) k
