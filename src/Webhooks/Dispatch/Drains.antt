-- ===== src/Webhooks/Dispatch/Drains.antt =====
-- The dispatcher over many ticks in which nothing but time passes between them.
use dodo_invoice_service.Webhooks.Dispatch.{endpoint_of}
use dodo_invoice_service.Webhooks.Dispatch.Progress.{IsHealthy}
use dodo_invoice_service.Base.{
  false, some, true, ◌&&◌, ◌+◌, ◌≡◌, leb, count, Option, not, ◌||◌, str_eq, List, ◌≤◌, Bool,
}
use dodo_invoice_service.Models.{WebhookEndpointRow, DateTime, WebhookDeliveryRow}
use mathlib.Core.List.{[]}
use mathlib.Core.Option.{none}
use dodo_invoice_service.Db.{Db, World}

-- A row whose delivery is over.
abbrev pub is_over : WebhookDeliveryRow → Bool
is_over wd = str_eq wd.status "succeeded" || str_eq wd.status "failed_exhausted"

-- A pending delivery has its endpoint, and is due at the latest a day after `now`.
abbrev pub is_scheduled : DateTime → List WebhookEndpointRow → WebhookDeliveryRow → Bool
is_scheduled now endpoints wd =
    not (str_eq wd.status "pending")
    || (leb wd.next_attempt_at (now + 86400)
        && elim (endpoint_of wd endpoints) [ none ↦ false | some _ ↦ true ])

-- From `v` to `u` at least a day passes, and the deliveries and endpoints stay as they are.
pub record IsDayLater (v u : World) : Type 0 where
  pub deliveries : u.db.deliveries ≡ v.db.deliveries
  pub endpoints : u.db.endpoints ≡ v.db.endpoints
  pub faults : u.faults ≡ []
  pub now : v.now + 86400 ≤ u.now

-- The deliveries between two ticks.
pub record IsOnTrack (w : World) : Type 0 where
  pub healthy : IsHealthy w.db.deliveries
  pub scheduled : count (λ wd. not (is_scheduled w.now w.db.endpoints wd)) w.db.deliveries ≡ 0
