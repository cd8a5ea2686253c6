-- ===== src/Router/Orphans.antt =====
-- A pending attempt whose payment has no task, over the runs of the service (DESIGN.md section 3c).
use dodo_invoice_service.Payments.Decision.{is_ok}
use dodo_invoice_service.Base.{
  inr, refl, inl, ◌∙◌, Option-cases, ◌∷◌, arith, false, true, ◌≡◌, ◌&&◌, String, ℕ, ◌==◌, any, Bool,
  List,
}
use dodo_invoice_service.Models.{PaymentAttemptRow, Uuid}
use dodo_invoice_service.Db.{statement, Task, Db, World}
use dodo_invoice_service.Payments.Settle.{settle_attempts, Verdict, update_attempts}
use dodo_invoice_service.Payments.Claim.{claim_payment_attempt, insert_attempt}
use dodo_invoice_service.Router.Rules.{Done, Rules}
use dodo_invoice_service.Db.Keeps.{statement-Keeps, Keeps, Gives}
use dodo_invoice_service.Payments.{is_pending_for}
use dodo_invoice_service.Router.Runs.{Run-Keeps, Run}
use dodo_invoice_service.Lifecycle.Tables.{is_task_of}
use dodo_invoice_service.Router.Unseen.{
  tick-unseen, answer-unseen, reserve-unseen, close-unseen, move-unseen, item-unseen,
  invoice-unseen, event-unseen,
}
use mathlib.Core.List.{[]}
use dodo_invoice_service.Invoices.{invoice_of}
use dodo_invoice_service.StateMachine.{parse}

abbrev pub is_waiting : Uuid → Uuid → PaymentAttemptRow → Bool
is_waiting a i r = r.id == a && is_pending_for i r

abbrev pub is_task_for : Uuid → Task → Bool
is_task_for a t = t.attempt_id == a

other_attempt :
    (a i k : Uuid) (rows : List PaymentAttemptRow)
    → any (is_waiting a i) rows ≡ true
    → any (λ r. r.id == k) rows ≡ false
    → (k == a) ≡ false
other_attempt a i k [] h fresh = cc
other_attempt a i k (r ∷ rows) h fresh = ground (arith, other_attempt a i k rows)

waiting-settle :
    (a i k : Uuid) (v : Verdict) (now : ℕ) (rows : List PaymentAttemptRow)
    → (k == a) ≡ false
    → any (is_waiting a i) (settle_attempts k v now rows) ≡ any (is_waiting a i) rows
waiting-settle a i k v now [] other = refl
waiting-settle a i k v now (r ∷ rows) other = ground (arith, waiting-settle a i k v now rows)

other_task :
    (a : Uuid) (task : Task) (tasks : List Task)
    → any (is_task_for a) tasks ≡ false
    → any (is_task_of task.attempt_id task.invoice_id) tasks ≡ true
    → (task.attempt_id == a) ≡ false
other_task a task [] h k = cc
other_task a task (t ∷ tasks) h k = ground (arith, other_task a task tasks)

blocks :
    (a i : Uuid) (rows : List PaymentAttemptRow)
    → any (is_waiting a i) rows ≡ true
    → any (is_pending_for i) rows ≡ true
blocks a i [] h = cc
blocks a i (r ∷ rows) h = ground (arith, blocks a i rows)

module _ (a i : Uuid) where
  -- The attempt is pending, and no task will settle it.
  pub record IsOrphan (db : Db) (tasks : List Task) : Type 0 where
    pub waiting : any (is_waiting a i) db.attempts ≡ true
    pub no_task : any (is_task_for a) tasks ≡ false

  claim-IsOrphan :
      (k : Uuid) (card_token : String)
      → Gives IsOrphan (Done (λ id. (id == a) ≡ false)) (statement (insert_attempt k card_token))
  unfolding insert_attempt statement
  claim-IsOrphan k card_token = record {
    keeps = λ w h. ground (arith, h);
    gives = λ w h. ground (arith, h, other_attempt a i (w.uuid_at w.drawn) w.db.attempts);
  }

  settle-IsOrphan :
      (k : Uuid) (v : Verdict) → (k == a) ≡ false → Keeps IsOrphan (statement (update_attempts k v))
  unfolding update_attempts
  settle-IsOrphan k v other = statement-Keeps (update_attempts k v) (λ w h. record {
    waiting = waiting-settle a i k v w.now w.db.attempts other ∙ h.waiting;
    no_task = h.no_task;
  })

  IsOrphan-rules : Rules IsOrphan (λ _. Unit) (λ k. (k == a) ≡ false) (λ _ _. Unit)
  IsOrphan-rules = record {
    blind = record {
      blind =
          λ db db' tasks e at d l k h. record { waiting = rw at h.waiting; no_task = h.no_task };
    };
    event = event-unseen (λ db rows tasks h. record { waiting = h.waiting; no_task = h.no_task });
    invoice =
        invoice-unseen (λ db rows tasks h. record { waiting = h.waiting; no_task = h.no_task });
    item = λ k item _.
        item-unseen (λ db rows tasks h. record { waiting = h.waiting; no_task = h.no_task }) k item;
    move = move-unseen (λ db rows tasks h. record { waiting = h.waiting; no_task = h.no_task });
    close = close-unseen (λ db rows tasks h. record { waiting = h.waiting; no_task = h.no_task });
    claim = claim-IsOrphan;
    spawn = λ task other. record {
      keeps = λ w h. record { waiting = h.waiting; no_task = ground (arith, h.no_task, other) };
    };
    settle = settle-IsOrphan;
    known = λ w task h k. other_task a task w.tasks h.no_task k;
    reserve =
        reserve-unseen (λ db rows tasks h. record { waiting = h.waiting; no_task = h.no_task });
    answer = λ b k key status body _.
        answer-unseen (λ db rows tasks h. record { waiting = h.waiting; no_task = h.no_task }) b k
          key status body;
    tick = tick-unseen (λ db rows tasks h. record { waiting = h.waiting; no_task = h.no_task });
  }

  claim-blocked :
      (b : Uuid) (card_token : String) (w : World)
      → any (is_pending_for i) w.db.attempts ≡ true
      → is_ok (claim_payment_attempt b i card_token w).0 ≡ false
  unfolding claim_payment_attempt
  claim-blocked b card_token w h = elim (Option-cases (invoice_of i b w.db)) [
    | inl missing ↦ ground arith
    | inr (row, found) ↦ elim (Option-cases (parse row.state)) [
      | inl unreadable ↦ ground arith
      | inr (s, readable) ↦ ground arith
    ]
  ]

  -- An attempt of an invoice that is pending while no task is there to settle it, as after a crash or where the
  -- task was never spawned, stays pending however requests of the API, payment tasks and ticks of the dispatcher
  -- interleave; and no payment of the invoice can be claimed any more, by whomever and with whatever card.
  pub orphan_blocks_for_ever :
      {w v : World} (b : Uuid) (card_token : String)
      → IsOrphan w.db w.tasks
      → Run w v
      → (any (is_waiting a i) v.db.attempts ≡ true)
        × (is_ok (claim_payment_attempt b i card_token v).0 ≡ false)
  orphan_blocks_for_ever {v} b card_token h run =
      let still = (Run-Keeps IsOrphan-rules run h).waiting in
      (still, claim-blocked b card_token v (blocks a i v.db.attempts still))
