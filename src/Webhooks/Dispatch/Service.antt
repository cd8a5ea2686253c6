-- ===== src/Webhooks/Dispatch/Service.antt =====
-- The dispatcher over a healthy table.
use dodo_invoice_service.Base.{ap, ◌+◌, ◌≤◌, ◌≡◌, refl, Bool, true, false, arith, length}
use dodo_invoice_service.Models.{Uuid, WebhookPost}
use dodo_invoice_service.Db.{faulty, Db, World, Result, Exec, ok, err, statement, transaction}
use dodo_invoice_service.Webhooks.Dispatch.{
  Signer, Answer, due_rows, due_in, due, dispatch_in_tx, dispatch_due_batch, is_panic,
}
use dodo_invoice_service.Webhooks.Dispatch.Batch.{Sends, Sent, dispatch-Sends}
use dodo_invoice_service.Webhooks.Dispatch.Rows.{
  due_rows-le, due_rows-is_due, length-due_rows, length-join,
}
use dodo_invoice_service.Webhooks.Dispatch.Health.{all_left}
use dodo_invoice_service.Webhooks.Dispatch.Progress.{
  IsHealthy, IsReady, record_all-IsHealthy, join-IsReady,
}
use dodo_invoice_service.Webhooks.Dispatch.Faultless.{spared, after, is_ok, dispatch-ok}

pub due-IsReady :
    (locked : Uuid → Bool) (w : World)
    → IsHealthy w.db.deliveries
    → IsReady (due locked w) w.db.deliveries
unfolding due_in
due-IsReady locked w h =
    join-IsReady locked w.now w.db.endpoints w.db.deliveries (due_rows locked w.now w.db)
      (due_rows-le locked w.now w.db) (due_rows-is_due locked w.now w.db) h

length-due : (locked : Uuid → Bool) (w : World) → length (due locked w) ≤ 20
unfolding due_in
length-due locked w =
    let rows = due_rows locked w.now w.db in
    omega (
      arith,
      length-join locked w.now w.db.endpoints rows (due_rows-is_due locked w.now w.db),
      length-due_rows locked w.now w.db,
    )

pub transaction-err :
    (body : Exec (Unit {0})) (w : World)
    → is_ok (transaction body w).0 ≡ false
    → (transaction body w).1.db ≡ w.db
unfolding transaction statement
transaction-err body w h = ground arith

module _ (s : Signer) (receiver : WebhookPost → Answer) (locked : Uuid → Bool) (w : World)
    (healthy : IsHealthy w.db.deliveries) where
  sends : Sends s receiver (due locked w) w (dispatch_due_batch s receiver locked w)
  sends = dispatch-Sends s receiver locked w (due-IsReady locked w healthy).retries

  Sent-IsHealthy :
      (u : World)
      → Sent s receiver (due locked w) w u
      → IsHealthy u.db.deliveries
        × (all_left u.db.deliveries + length (due locked w) ≤ all_left w.db.deliveries)
  Sent-IsHealthy u sent = rw (ap (λ (db : Db). db.deliveries) sent.db) (
      record_all-IsHealthy s receiver w.now (due locked w) w.db.deliveries healthy
        (due-IsReady locked w healthy))

  outcome_of :
      (r : Result (Unit {0})) (u : World)
      → Sends s receiver (due locked w) w (r, u)
      → (is_ok r ≡ false → u.db ≡ w.db)
      → (is_panic r ≡ false) × IsHealthy u.db.deliveries
  outcome_of (ok _) u sent same = (refl, (Sent-IsHealthy u sent).0)
  outcome_of (err e) u status same =
      (ground arith, rw (ap (λ (db : Db). db.deliveries) (same refl)) healthy)

  -- However a batch over healthy deliveries ends, it is no panic, and the deliveries stay healthy.
  pub batch-IsHealthy :
      let (r, u) = dispatch_due_batch s receiver locked w in
      (is_panic r ≡ false) × IsHealthy u.db.deliveries
  unfolding dispatch_due_batch
  batch-IsHealthy =
      let (r, u) = dispatch_due_batch s receiver locked w in
      outcome_of r u sends (transaction-err (dispatch_in_tx s receiver locked) w)

  Sent-of_ok :
      (r : Result (Unit {0})) (u : World)
      → is_ok r ≡ true
      → Sends s receiver (due locked w) w (r, u)
      → (r ≡ ok tt) × Sent s receiver (due locked w) w u
  Sent-of_ok (ok _) u h sent = (refl, sent)
  Sent-of_ok (err e) u h sent = cc

  -- A batch over healthy deliveries, of which the database fails no statement, ends well: it has sent the
  -- requests of at most 20 deliveries, once each and in the order of the SELECT, has recorded each outcome by
  -- the schedule, and changed nothing else of the tables. The deliveries stay healthy, and each that was sent
  -- has used up an attempt: those left to all pending rows are fewer by at least the number of requests.
  pub batch_delivers :
      spared 2 w.faults ≡ true
      → spared (length (due locked w)) (after 2 w.faults) ≡ true
      → faulty (after (length (due locked w)) (after 2 w.faults)) ≡ false
      → let (r, u) = dispatch_due_batch s receiver locked w in
        (r ≡ ok tt)
        × Sent s receiver (due locked w) w u
        × (length (due locked w) ≤ 20)
        × IsHealthy u.db.deliveries
        × (all_left u.db.deliveries + length (due locked w) ≤ all_left w.db.deliveries)
  batch_delivers begun updated committed =
      let (r, u) = dispatch_due_batch s receiver locked w in
      let good =
        dispatch-ok s receiver locked w (due-IsReady locked w healthy).retries begun updated
          committed in
      let (same, sent) = Sent-of_ok r u good sends in
      let (still, fewer) = Sent-IsHealthy u sent in (same, sent, length-due locked w, still, fewer)
