-- ===== src/Webhooks/Dispatch/Faultless.antt =====
-- Batches whose statements the database does not fail, and one whose COMMIT fails.
use dodo_invoice_service.Base.{
  if◌then◌else◌, ℕ, zero, suc, ◌≡◌, refl, Bool, true, false, not, ◌&&◌, List, [], ◌∷◌, pos_part,
  arith, length, All,
}
use dodo_invoice_service.Error.{database_error}
use dodo_invoice_service.Models.{Uuid, WebhookPost}
use dodo_invoice_service.Db.{World, Result, ok, err, later, faulty, execute, statement, transaction}
use dodo_invoice_service.Db.Ends.{continue}
use dodo_invoice_service.Webhooks.Dispatch.{
  Signer, DueDelivery, Answer, outcome, post_of, due, due_in, update, send_each, dispatch_in_tx,
  dispatch_due_batch,
}
use dodo_invoice_service.Webhooks.Dispatch.Schedule.{recorded}
use dodo_invoice_service.Webhooks.Dispatch.Batch.{
  can_retry, delivered, posts, send_each-step, send_each-Sends,
}

-- The next `n` statements do not fail.
abbrev pub spared : ℕ → List Bool → Bool
spared zero faults = true
spared (suc n) faults = not (faulty faults) && spared n (later faults)

abbrev pub after : ℕ → List Bool → List Bool
after zero faults = faults
after (suc n) faults = after n (later faults)

abbrev pub is_ok : {A : Type 0} → Result A → Bool
is_ok (ok _) = true
is_ok (err _) = false

module _ (s : Signer) (receiver : WebhookPost → Answer) where
  send_each-nil_ok :
      (w : World)
      → (is_ok (send_each s receiver [] w).0 ≡ true)
        × ((send_each s receiver [] w).1.faults ≡ w.faults)
  unfolding send_each
  send_each-nil_ok w = (refl, refl)

  continue-ok :
      (d : DueDelivery) (ds : List DueDelivery) (w : World)
      → faulty w.faults ≡ false
      → let post = post_of s receiver w.now d in
        let o = outcome (receiver post) in
        continue
          (update d.id
            (λ now. recorded now (pos_part d.attempt_count) o)
            (record w { sent = post ∷ w.sent }))
          (λ _. send_each s receiver ds)
        ≡ send_each s receiver ds (delivered s receiver d w)
  unfolding execute statement
  continue-ok d ds w h = ground arith

  send_each-ok :
      (ds : List DueDelivery) (w : World)
      → All (λ (d : DueDelivery). can_retry d.attempt_count ≡ true) ds
      → spared (length ds) w.faults ≡ true
      → (is_ok (send_each s receiver ds w).0 ≡ true)
        × ((send_each s receiver ds w).1.faults ≡ after (length ds) w.faults)
  send_each-ok [] w h f = send_each-nil_ok w
  send_each-ok (d ∷ ds) w (h, hs) f =
      rw (send_each-step s receiver d ds w h, continue-ok d ds w (ground arith))
        (send_each-ok ds (delivered s receiver d w) hs (ground arith))

  -- What `dispatch_due_batch` comes to, if its BEGIN and its SELECT do not fail.
  dispatch-steps :
      (locked : Uuid → Bool) (w : World)
      → faulty w.faults ≡ false
      → faulty (later w.faults) ≡ false
      → let (r, u) =
          send_each s receiver (due locked w) (record w { faults = later (later w.faults) }) in
        is_ok r ≡ true
        → dispatch_due_batch s receiver locked w ≡ (
            if faulty u.faults
            then (
              err database_error,
              record w { faults = later u.faults; drawn = u.drawn; sent = u.sent },
            )
            else (ok tt, record u { faults = later u.faults }))
  unfolding dispatch_due_batch dispatch_in_tx transaction statement
  dispatch-steps locked w begun read h = ground arith

  module _ (locked : Uuid → Bool) (w : World)
      (retries : All (λ (d : DueDelivery). can_retry d.attempt_count ≡ true) (due locked w)) where
    abbrev n_due : ℕ
    n_due = length (due locked w)

    abbrev read_world : World
    read_world = record w { faults = after 2 w.faults }

    -- If the database fails no statement of a batch, the batch ends well.
    pub dispatch-ok :
        spared 2 w.faults ≡ true
        → spared n_due (after 2 w.faults) ≡ true
        → faulty (after n_due (after 2 w.faults)) ≡ false
        → is_ok (dispatch_due_batch s receiver locked w).0 ≡ true
    dispatch-ok begun updated committed =
        let (good, left) = send_each-ok (due locked w) read_world retries updated in
        rw (dispatch-steps locked w (ground arith) (ground arith) good) (ground (arith, left))

    -- If the database fails the COMMIT of a batch and nothing else, then all its requests have been sent,
    -- and the tables are as they were: a batch at the same time finds the same deliveries due.
    pub failed_commit_resends :
        spared 2 w.faults ≡ true
        → spared n_due (after 2 w.faults) ≡ true
        → faulty (after n_due (after 2 w.faults)) ≡ true
        → let (r, u) = dispatch_due_batch s receiver locked w in
          (r ≡ err database_error)
          × (u.sent ≡ posts s receiver w.now (due locked w) w.sent)
          × (u.db ≡ w.db)
          × (due_in locked w.now u.db ≡ due locked w)
    failed_commit_resends begun updated fails =
        let (good, left) = send_each-ok (due locked w) read_world retries updated in
        rw (dispatch-steps locked w (ground arith) (ground arith) good)
          (ground (arith, left, send_each-Sends s receiver (due locked w) read_world retries))
