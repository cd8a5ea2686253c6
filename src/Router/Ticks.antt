-- ===== src/Router/Ticks.antt =====
-- The batches of the dispatcher write to the deliveries only.
use dodo_invoice_service.Base.{
  negsuc, leb_ℤ, pos, ◌+ℤ◌, wrap_i32, some, ◌∷◌, String, Option, if◌then◌else◌, Bool, List,
}
use dodo_invoice_service.Db.{Exec, Task, Db}
use dodo_invoice_service.Models.{WebhookPost, WebhookDeliveryRow, DateTime, Uuid}
use dodo_invoice_service.Db.Keeps.{
  ok_or-Keeps, pure-Keeps, statement-Keeps, transaction-Keeps, bind-Keeps, Keeps,
}
use dodo_invoice_service.Webhooks.Dispatch.{
  set_retry, panicked, backoff, set_exhausted, max_attempts, set_succeeded, due, outcome, post_of,
  DueDelivery, dispatch_due_batch, send_and_record, record_outcome, dispatch_in_tx, send_each,
  Answer, Signer, update,
}
use mathlib.Core.Bool.{false, true}
use mathlib.Core.List.{[]}
use mathlib.Core.Option.{none}

module _ {P : Db → List Task → Type 0}
    (write : (id : Uuid) (set : DateTime → WebhookDeliveryRow → WebhookDeliveryRow)
      → Keeps P (update id set))
    (signer : Signer) (receiver : WebhookPost → Answer) where
  failure-Keeps :
      (exhausted : Bool) (m n : Exec (Unit {0}))
      → Keeps P m
      → Keeps P n
      → Keeps P (if exhausted then m else n)
  failure-Keeps true m n h k = h
  failure-Keeps false m n h k = k

  record_outcome-Keeps : (d : DueDelivery) (o : Option String) → Keeps P (record_outcome d o)
  unfolding record_outcome
  record_outcome-Keeps d none = write d.id set_succeeded
  record_outcome-Keeps d (some e) =
      let count = wrap_i32 (d.attempt_count +ℤ pos 1) in
      failure-Keeps (leb_ℤ max_attempts count) _ _ (write d.id (λ now. set_exhausted now count e)) (
        bind-Keeps _ _ (ok_or-Keeps (backoff (wrap_i32 (count +ℤ negsuc 0))) panicked)
          (λ delay. write d.id (λ now. set_retry now count delay e)))

  send_and_record-Keeps : (d : DueDelivery) → Keeps P (send_and_record signer receiver d)
  unfolding send_and_record
  send_and_record-Keeps d = record {
    keeps = λ w h.
        let post = post_of signer receiver w.now d in
        (record_outcome-Keeps d (outcome (receiver post))).keeps (record w { sent = post ∷ w.sent })
          h;
  }

  send_each-Keeps : (ds : List DueDelivery) → Keeps P (send_each signer receiver ds)
  unfolding send_each
  send_each-Keeps [] = pure-Keeps tt
  send_each-Keeps (d ∷ ds) = bind-Keeps _ _ (send_and_record-Keeps d) (λ _. send_each-Keeps ds)

  dispatch_in_tx-Keeps : (locked : Uuid → Bool) → Keeps P (dispatch_in_tx signer receiver locked)
  unfolding dispatch_in_tx
  dispatch_in_tx-Keeps locked =
      bind-Keeps _ _ (statement-Keeps (λ w. (due locked w, w)) (λ w h. h))
        (λ rows. send_each-Keeps rows)

  pub dispatch_due_batch-Keeps :
      (locked : Uuid → Bool) → Keeps P (dispatch_due_batch signer receiver locked)
  unfolding dispatch_due_batch
  dispatch_due_batch-Keeps locked =
      transaction-Keeps (dispatch_in_tx signer receiver locked) (dispatch_in_tx-Keeps locked)
