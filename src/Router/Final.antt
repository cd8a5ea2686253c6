-- ===== src/Router/Final.antt =====
-- A delivery that is no longer pending.
use dodo_invoice_service.Webhooks.Dispatch.Faultless.{is_ok}
use dodo_invoice_service.Base.{
  ◌<◌, inr, true, inl, All, ◌≤◌, Bool-cases, pos_part, refl, ap, ◌∙◌, arith, count, Bool, ◌==◌,
  if◌then◌else◌, String, ◌∷◌, false, ◌≡◌, Option, any, str_eq, List, none, some,
}
use dodo_invoice_service.Webhooks.Dispatch.{
  dispatch_in_tx, post_of, outcome, due, dispatch_due_batch, DueDelivery, Answer, Signer,
}
use dodo_invoice_service.Models.{DateTime, WebhookPost, WebhookDeliveryRow, Uuid}
use dodo_invoice_service.Webhooks.{enabled_endpoints, new_delivery, enqueue_event, enqueue_each}
use dodo_invoice_service.Webhooks.Dispatch.Progress.{IsHealthy}
use dodo_invoice_service.Json.{Json}
use dodo_invoice_service.Db.{err, ok, Db, later, Result, World}
use mathlib.Core.List.{[]}
use dodo_invoice_service.Db.Keeps.{Keeps}
use dodo_invoice_service.Router.Runs.{Run-Keeps, Run}
use dodo_invoice_service.Webhooks.Dispatch.Batch.{Sends, record_all, record_one, dispatch-Sends}
use dodo_invoice_service.Webhooks.Dispatch.Service.{batch-IsHealthy, transaction-err, due-IsReady}
use dodo_invoice_service.Router.Deliveries.{On-rules, On}
use dodo_invoice_service.Webhooks.Outbox.{delivery_has_id, written}
use dodo_invoice_service.Webhooks.Dispatch.Forever.{enqueue_event-IsHealthy}
use dodo_invoice_service.Webhooks.Dispatch.Health.{fits-le_id, fits, recorded-id}
use dodo_invoice_service.Router.Rules.{Rules}

abbrev pub row_of : Uuid → List WebhookDeliveryRow → Option WebhookDeliveryRow
row_of d [] = none
row_of d (wd ∷ rows) = if wd.id == d then some wd else row_of d rows

row_of-fresh :
    (k : Uuid) (rows : List WebhookDeliveryRow)
    → any (delivery_has_id k) rows ≡ false
    → row_of k rows ≡ none
row_of-fresh k [] h = refl
row_of-fresh k (wd ∷ rows) h = ground (arith, row_of-fresh k rows)

row_of-cons :
    (d : Uuid) (new row : WebhookDeliveryRow) (rows : List WebhookDeliveryRow)
    → any (delivery_has_id new.id) rows ≡ false
    → row_of d rows ≡ some row
    → row_of d (new ∷ rows) ≡ some row
row_of-cons d new row rows fresh h = elim (Bool-cases (new.id == d)) [
  | inl same ↦ ground (arith, row_of-fresh new.id rows)
  | inr other ↦ rw other h
]

module _ (d : Uuid) (row : WebhookDeliveryRow) where
  abbrev pub Has : List WebhookDeliveryRow → Type 0
  Has rows = row_of d rows ≡ some row

  enqueue_each-Has :
      (es : List Uuid) (b : Uuid) (event_type : String) (payload : Json) (w : World)
      → Has w.db.deliveries
      → Has (enqueue_each es b event_type payload w).1.db.deliveries
  unfolding enqueue_each
  enqueue_each-Has [] b event_type payload w h = h
  enqueue_each-Has (e ∷ es) b event_type payload w h = ground (
    arith,
    h,
    row_of-cons d (new_delivery (w.uuid_at w.drawn) e b event_type payload w.now) row
        w.db.deliveries,
    enqueue_each-Has es b event_type payload (written e b event_type payload w),
  )

  enqueue_event-Has :
      (b : Uuid) (event_type : String) (payload : Json)
      → Keeps (On Has) (enqueue_event b event_type payload)
  unfolding enqueue_event
  enqueue_event-Has b event_type payload = record {
    keeps = λ w h. ground (
      arith,
      h,
      enqueue_each-Has (enabled_endpoints b w.db) b event_type payload
          (record w { faults = later w.faults }) h,
    );
  }

  -- A due delivery is pending, so it is another one.
  no_fit :
      (e : DueDelivery) (rows : List WebhookDeliveryRow)
      → str_eq row.status "pending" ≡ false
      → count (delivery_has_id d) rows ≤ 1
      → Has rows
      → (e.id == d) ≡ true
      → count (fits e) rows ≡ 0
  no_fit e [] p u h same = refl
  no_fit e (wd ∷ rows) p u h same = elim (Bool-cases (wd.id == d)) [
    | inl here ↦ ground (arith, fits-le_id e 0 none rows)
    | inr there ↦ ground (arith, no_fit e rows p)
  ]

  not_due :
      (ds : List DueDelivery) (rows : List WebhookDeliveryRow)
      → str_eq row.status "pending" ≡ false
      → count (delivery_has_id d) rows ≤ 1
      → Has rows
      → All (λ e. 0 < count (fits e) rows) ds
      → any (λ e. e.id == d) ds ≡ false
  not_due [] rows p u h fit = refl
  not_due (e ∷ ds) rows p u h (f, fit) =
      ground (arith, no_fit e rows p u h, not_due ds rows p u h fit)

module _ (s : Signer) (receiver : WebhookPost → Answer) (now : DateTime) (d : Uuid) where
  record_one-row :
      (e : DueDelivery) (rows : List WebhookDeliveryRow)
      → (e.id == d) ≡ false
      → row_of d (record_one s receiver now e rows) ≡ row_of d rows
  record_one-row e [] h = refl
  record_one-row e (wd ∷ rows) h =
      let o = outcome (receiver (post_of s receiver now e)) in
      ground (arith, record_one-row e rows h, recorded-id e now o wd (pos_part e.attempt_count))

  record_all-row :
      (ds : List DueDelivery) (rows : List WebhookDeliveryRow)
      → any (λ e. e.id == d) ds ≡ false
      → row_of d (record_all s receiver now ds rows) ≡ row_of d rows
  record_all-row [] rows h = refl
  record_all-row (e ∷ ds) rows h =
      record_all-row ds (record_one s receiver now e rows) (ground arith)
      ∙ record_one-row e rows (ground arith)

module _ (d : Uuid) (row : WebhookDeliveryRow) (over : str_eq row.status "pending" ≡ false) where
  never_due :
      (locked : Uuid → Bool) (w : World)
      → IsHealthy w.db.deliveries
      → Has d row w.db.deliveries
      → any (λ e. e.id == d) (due locked w) ≡ false
  never_due locked w h q =
      not_due d row (due locked w) w.db.deliveries over (h.unique d) q (due-IsReady locked w h).fit

  tick_end :
      (s : Signer) (receiver : WebhookPost → Answer) (locked : Uuid → Bool) (w : World)
      (r : Result (Unit {0})) (u : World)
      → IsHealthy w.db.deliveries
      → Has d row w.db.deliveries
      → Sends s receiver (due locked w) w (r, u)
      → (is_ok r ≡ false → u.db ≡ w.db)
      → Has d row u.db.deliveries
  tick_end s receiver locked w (ok _) u h q sent same =
      rw (ap (λ (db : Db). db.deliveries) sent.db) (
        record_all-row s receiver w.now d (due locked w) w.db.deliveries (never_due locked w h q)
        ∙ q)
  tick_end s receiver locked w (err e) u h q sent same =
      rw (ap (λ (db : Db). db.deliveries) (same refl)) q

  tick-Has :
      (s : Signer) (receiver : WebhookPost → Answer) (locked : Uuid → Bool) (w : World)
      → IsHealthy w.db.deliveries
      → Has d row w.db.deliveries
      → Has d row (dispatch_due_batch s receiver locked w).1.db.deliveries
  unfolding dispatch_due_batch
  tick-Has s receiver locked w h q =
      let (r, u) = dispatch_due_batch s receiver locked w in
      tick_end s receiver locked w r u h q
        (dispatch-Sends s receiver locked w (due-IsReady locked w h).retries)
        (transaction-err (dispatch_in_tx s receiver locked) w)

  -- What a run keeps.
  abbrev Kept : List WebhookDeliveryRow → Type 0
  Kept rows = IsHealthy rows × Has d row rows

  enqueue_event-Kept :
      (b : Uuid) (event_type : String) (payload : Json)
      → Keeps (On Kept) (enqueue_event b event_type payload)
  enqueue_event-Kept b event_type payload = record {
    keeps = λ w h. (
      enqueue_event-IsHealthy b event_type payload w h.0,
      (enqueue_event-Has d row b event_type payload).keeps w h.1,
    );
  }

  Kept-rules : Rules (On Kept) (λ _. Unit) (λ _. Unit) (λ _ _. Unit)
  Kept-rules = On-rules Kept enqueue_event-Kept (λ s receiver locked. record {
    keeps =
        λ w h. ((batch-IsHealthy s receiver locked w h.0).1, tick-Has s receiver locked w h.0 h.1);
  })

  -- A delivery whose row is no longer pending, in a table of healthy deliveries, keeps this row however requests,
  -- payment tasks and ticks of the dispatcher interleave, and no later batch has it among its due deliveries: it
  -- is not sent again.
  pub never_sent_again :
      {w v : World} (locked : Uuid → Bool)
      → IsHealthy w.db.deliveries
      → row_of d w.db.deliveries ≡ some row
      → Run w v
      → (row_of d v.db.deliveries ≡ some row) × (any (λ e. e.id == d) (due locked v) ≡ false)
  never_sent_again {v} locked h q run =
      let after = Run-Keeps Kept-rules run (h, q) in (after.1, never_due locked v after.0 after.1)
