-- ===== src/Webhooks/Dispatch/Forever.antt =====
-- The dispatcher over many ticks.
use dodo_invoice_service.Base.{
  ℕ, zero, suc, ◌≤◌, ◌<◌, ◌≡◌, refl, Bool, true, false, not, ◌&&◌, List, [], ◌∷◌, String, str_eq,
  arith, any, count, length, count-of_none,
}
use dodo_invoice_service.Json.{Json}
use dodo_invoice_service.Models.{Uuid, WebhookDeliveryRow, WebhookPost}
use dodo_invoice_service.Db.{World, later}
use dodo_invoice_service.Webhooks.{enqueue_each, enqueue_event, enabled_endpoints}
use dodo_invoice_service.Webhooks.Outbox.{written}
use dodo_invoice_service.Webhooks.Dispatch.{
  Signer, Answer, is_due, due_rows, due_in, due, dispatch_due_batch, is_panic, run_dispatcher,
}
use dodo_invoice_service.Webhooks.Dispatch.Rows.{due_rows-pos, length-join, due_rows-is_due}
use dodo_invoice_service.Webhooks.Dispatch.Health.{is_well, delivery_has_id, all_left}
use dodo_invoice_service.Webhooks.Dispatch.Progress.{row-can_retry, IsHealthy}
use dodo_invoice_service.Webhooks.Dispatch.Faultless.{spared, after}
use dodo_invoice_service.Webhooks.Dispatch.Service.{batch-IsHealthy, batch_delivers}
use dodo_invoice_service.Webhooks.Dispatch.Batch.{can_retry-pos}

written-IsHealthy :
    (e b : Uuid) (event_type : String) (payload : Json) (w : World)
    → any (delivery_has_id (w.uuid_at w.drawn)) w.db.deliveries ≡ false
    → IsHealthy w.db.deliveries
    → IsHealthy (written e b event_type payload w).db.deliveries
written-IsHealthy e b event_type payload w fresh h = record {
  well = ground (arith, h.well);
  unique = λ k. ground (
    arith,
    h.unique k,
    count-of_none (delivery_has_id (w.uuid_at w.drawn)) w.db.deliveries fresh,
  );
}

enqueue_each-IsHealthy :
    (es : List Uuid) (b : Uuid) (event_type : String) (payload : Json) (w : World)
    → IsHealthy w.db.deliveries
    → IsHealthy (enqueue_each es b event_type payload w).1.db.deliveries
unfolding enqueue_each
enqueue_each-IsHealthy [] b event_type payload w h = h
enqueue_each-IsHealthy (e ∷ es) b event_type payload w h = ground (
  arith,
  h,
  written-IsHealthy e b event_type payload w,
  enqueue_each-IsHealthy es b event_type payload (written e b event_type payload w),
)

-- Whether an event is written to the outbox or not, the deliveries stay healthy.
pub enqueue_event-IsHealthy :
    (b : Uuid) (event_type : String) (payload : Json) (w : World)
    → IsHealthy w.db.deliveries
    → IsHealthy (enqueue_event b event_type payload w).1.db.deliveries
unfolding enqueue_event
enqueue_event-IsHealthy b event_type payload w h = ground (
  arith,
  h,
  enqueue_each-IsHealthy (enabled_endpoints b w.db) b event_type payload
      (record w { faults = later w.faults }) h,
)

module _ (s : Signer) (receiver : WebhookPost → Answer) (locked : ℕ → Uuid → Bool)
    (between : ℕ → World → World) where
  -- If what happens between the ticks keeps the deliveries healthy, the dispatcher is alive after any number
  -- of ticks: no batch of it panics, whatever receivers answer and whatever the database fails.
  pub dispatcher_survives :
      (n r : ℕ) (w : World)
      → ((q : ℕ) (v : World) → IsHealthy v.db.deliveries → IsHealthy (between q v).db.deliveries)
      → IsHealthy w.db.deliveries
      → let (alive, u) = run_dispatcher s receiver locked between n r w in
        (alive ≡ true) × IsHealthy u.db.deliveries
  unfolding run_dispatcher
  dispatcher_survives zero r w keeps h = (refl, h)
  dispatcher_survives (suc n) r w keeps h =
      let (calm, still) = batch-IsHealthy s receiver (locked r) (between r w) (keeps r w h) in
      let u = (dispatch_due_batch s receiver (locked r) (between r w)).1 in
      rw calm (dispatcher_survives n (suc r) u keeps still)

-- The attempts left are those of pending rows.
left-of_none_pending :
    (rows : List WebhookDeliveryRow)
    → count (λ wd. str_eq wd.status "pending") rows ≡ 0
    → all_left rows ≡ 0
left-of_none_pending [] h = refl
left-of_none_pending (wd ∷ rows) h = ground (arith, left-of_none_pending rows)

-- Healthy pending rows have attempts left.
pub none_pending-of_left :
    (rows : List WebhookDeliveryRow)
    → count (λ wd. not (is_well wd)) rows ≡ 0
    → all_left rows ≡ 0
    → count (λ wd. str_eq wd.status "pending") rows ≡ 0
none_pending-of_left [] w h = refl
none_pending-of_left (wd ∷ rows) w h =
    ground (arith, none_pending-of_left rows, row-can_retry wd, can_retry-pos wd.attempt_count)

due-all :
    (p q : WebhookDeliveryRow → Bool) (rows : List WebhookDeliveryRow)
    → count (λ wd. p wd && not (q wd)) rows ≡ 0
    → count p rows ≤ count q rows
due-all p q [] h = omega arith
due-all p q (wd ∷ rows) h = ground (arith, due-all p q rows)

due-pos :
    (locked : Uuid → Bool) (w : World)
    → 0 < count (is_due locked w.now w.db.endpoints) w.db.deliveries
    → 0 < length (due locked w)
unfolding due_in
due-pos locked w h = omega (
  arith,
  due_rows-pos locked w.now w.db h,
  length-join locked w.now w.db.endpoints (due_rows locked w.now w.db)
      (due_rows-is_due locked w.now w.db),
)

-- A list without faults spares every statement.
pub spared-nil : (n : ℕ) → (spared n [] ≡ true) × (after n [] ≡ [])
spared-nil zero = (refl, refl)
spared-nil (suc n) = spared-nil n

-- Before a tick: nothing new to deliver, every pending delivery due and not locked, its endpoint there, and
-- a database that fails nothing.
pub record IsClear (locked : Uuid → Bool) (w v : World) : Type 0 where
  pub healthy : IsHealthy v.db.deliveries
  pub no_more : all_left v.db.deliveries ≤ all_left w.db.deliveries
  pub faults : v.faults ≡ []
  pub all_due :
      count
        (λ wd. str_eq wd.status "pending" && not (is_due locked v.now v.db.endpoints wd))
        v.db.deliveries
      ≡ 0

module _ (s : Signer) (receiver : WebhookPost → Answer) (locked : Uuid → Bool) (w v : World)
    (clear : IsClear locked w v) where
  pub batch_drains :
      let (r, u) = dispatch_due_batch s receiver locked v in
      (is_panic r ≡ false)
      × IsHealthy u.db.deliveries
      × ((n : ℕ) → all_left w.db.deliveries ≤ suc n → all_left u.db.deliveries ≤ n)
  batch_drains =
      let pending = λ (wd : WebhookDeliveryRow). str_eq wd.status "pending" in
      let enough =
        due-all pending (is_due locked v.now v.db.endpoints) v.db.deliveries clear.all_due in
      let n_due = length (due locked v) in
      let (same, sent, few, still, fewer) =
        batch_delivers s receiver locked v clear.healthy (rw clear.faults refl)
          (rw clear.faults (spared-nil n_due).0) (rw (clear.faults, (spared-nil n_due).1) refl) in
      let (calm, _) = batch-IsHealthy s receiver locked v clear.healthy in
      (
        calm,
        still,
        λ n h. ground (
          arith,
          fewer,
          clear.no_more,
          enough,
          left-of_none_pending v.db.deliveries,
          due-pos locked v,
        ),
      )
