-- ===== src/Webhooks/Dispatch/Batch.antt =====
-- What one batch does: its requests, and the outcomes that it records.
use dodo_invoice_service.Base.{
  refl, ap, ℕ, ◌<◌, ◌≡◌, Bool, true, false, List, [], ◌∷◌, ℤ, pos, negsuc, pos_part, arith, ltb,
  All,
}
use dodo_invoice_service.Models.{Uuid, WebhookDeliveryRow, WebhookPost}
use dodo_invoice_service.Db.{Exec, transaction, World, Result, ok, err, later, execute, statement}
use dodo_invoice_service.Webhooks.Dispatch.{
  due_in, dispatch_due_batch, due, dispatch_in_tx, Signer, DueDelivery, Answer, outcome, post_of,
  update_delivery, update, send_each,
}
use dodo_invoice_service.Webhooks.Dispatch.Schedule.{recorded, send_and_record_lem}
use dodo_invoice_service.Db.Ends.{continue}

-- From 0 to 6 failures so far.
abbrev pub can_retry : ℤ → Bool
can_retry (pos n) = ltb n 7
can_retry (negsuc n) = false

pub can_retry-pos : (z : ℤ) → can_retry z ≡ true → (z ≡ pos (pos_part z)) × (pos_part z < 7)
can_retry-pos (pos n) h = ground arith
can_retry-pos (negsuc n) h = cc

module _ (s : Signer) (receiver : WebhookPost → Answer) where
  -- The requests of the deliveries, the first of them sent first, before those of `sent`.
  abbrev pub posts : ℕ → List DueDelivery → List WebhookPost → List WebhookPost
  posts ts [] sent = sent
  posts ts (d ∷ ds) sent = posts ts ds (post_of s receiver ts d ∷ sent)

  abbrev pub record_one : ℕ → DueDelivery → List WebhookDeliveryRow → List WebhookDeliveryRow
  record_one now d =
      update_delivery d.id
        (recorded now (pos_part d.attempt_count) (outcome (receiver (post_of s receiver now d))))

  abbrev pub record_all : ℕ → List DueDelivery → List WebhookDeliveryRow → List WebhookDeliveryRow
  record_all now [] rows = rows
  record_all now (d ∷ ds) rows = record_all now ds (record_one now d rows)

  -- What a batch of `ds` has done if it ends well; if not, its error is that of the database.
  pub record Sent (ds : List DueDelivery) (w u : World) : Type 0 where
    pub db : u.db ≡ record w.db { deliveries = record_all w.now ds w.db.deliveries }
    pub sent : u.sent ≡ posts w.now ds w.sent
    pub tasks : u.tasks ≡ w.tasks
    pub now : u.now ≡ w.now

  abbrev pub Sends : List DueDelivery → World → Result (Unit {0}) × World → Type 0
  Sends ds w (ok _, u) = Sent ds w u
  Sends ds w (err e, u) = e.status ≡ 500

  -- The world after one delivery.
  abbrev pub delivered : DueDelivery → World → World
  delivered d w = record w {
    faults = later w.faults;
    sent = post_of s receiver w.now d ∷ w.sent;
    db = record w.db { deliveries = record_one w.now d w.db.deliveries };
  }

  send_each-nil : (w : World) → Sends [] w (send_each s receiver [] w)
  unfolding send_each
  send_each-nil w = ground arith

  continue-Sends :
      (d : DueDelivery) (ds : List DueDelivery) (w : World)
      → Sends ds (delivered d w) (send_each s receiver ds (delivered d w))
      → let post = post_of s receiver w.now d in
        let o = outcome (receiver post) in
        Sends (d ∷ ds) w (
          continue
            (update d.id
              (λ now. recorded now (pos_part d.attempt_count) o)
              (record w { sent = post ∷ w.sent }))
            (λ _. send_each s receiver ds))
  unfolding execute statement
  continue-Sends d ds w h = ground arith

  pub send_each-step :
      (d : DueDelivery) (ds : List DueDelivery) (w : World)
      → can_retry d.attempt_count ≡ true
      → let post = post_of s receiver w.now d in
        let o = outcome (receiver post) in
        send_each s receiver (d ∷ ds) w
        ≡ continue
            (update d.id
              (λ now. recorded now (pos_part d.attempt_count) o)
              (record w { sent = post ∷ w.sent }))
            (λ _. send_each s receiver ds)
  unfolding send_each
  send_each-step d ds w h =
      let (e, less) = can_retry-pos d.attempt_count h in
      ap (λ r. continue r (λ _. send_each s receiver ds))
        (send_and_record_lem s receiver d (pos_part d.attempt_count) w e less)

  pub send_each-Sends :
      (ds : List DueDelivery) (w : World)
      → All (λ (d : DueDelivery). can_retry d.attempt_count ≡ true) ds
      → Sends ds w (send_each s receiver ds w)
  send_each-Sends [] w h = send_each-nil w
  send_each-Sends (d ∷ ds) w (h, hs) =
      rw (send_each-step d ds w h) (continue-Sends d ds w (send_each-Sends ds (delivered d w) hs))

  -- What a transaction makes of a body with this outcome.
  transaction-Sends :
      (body : Exec (Unit {0})) (ds : List DueDelivery) (w : World)
      → ((v : World)
          → v.db ≡ w.db
          → v.now ≡ w.now
          → v.sent ≡ w.sent
          → v.tasks ≡ w.tasks
          → Sends ds v (body v))
      → Sends ds w (transaction body w)
  unfolding transaction statement
  transaction-Sends body ds w h =
      ground (arith, h (record w { faults = later w.faults }) refl refl refl refl)

  dispatch_in_tx-Sends :
      (locked : Uuid → Bool) (v : World)
      → All (λ (d : DueDelivery). can_retry d.attempt_count ≡ true) (due locked v)
      → Sends (due locked v) v (dispatch_in_tx s receiver locked v)
  unfolding dispatch_in_tx statement
  dispatch_in_tx-Sends locked v h =
      ground (arith, send_each-Sends (due locked v) (record v { faults = later v.faults }) h)

  pub dispatch-Sends :
      (locked : Uuid → Bool) (w : World)
      → All (λ (d : DueDelivery). can_retry d.attempt_count ≡ true) (due locked w)
      → Sends (due locked w) w (dispatch_due_batch s receiver locked w)
  unfolding dispatch_due_batch
  dispatch-Sends locked w h =
      transaction-Sends (dispatch_in_tx s receiver locked) (due locked w) w (λ v db now _ _.
        let same : due locked v ≡ due locked w = λ i. due_in locked (now i) (db i) in
        rw (← same) (dispatch_in_tx-Sends locked v (rw same h)))
