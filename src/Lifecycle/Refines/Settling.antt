-- ===== src/Lifecycle/Refines/Settling.antt =====
-- `finalize_payment_attempt` is the change `settle`.
use dodo_invoice_service.Lifecycle.Tables.{is_task_of}
use dodo_invoice_service.Lifecycle.Refines.Transactions.{Ends-map, transaction-Reach}
use dodo_invoice_service.Base.{
  ap, true, any, ◌<◌, String, ◌≡◌, inl, inr, Option, none, some, arith, count, Option-cases,
}
use dodo_invoice_service.Models.{Uuid}
use dodo_invoice_service.Db.{World, later}
use dodo_invoice_service.Db.Ends.{Ends}
use dodo_invoice_service.PspClient.{PspOutcome}
use dodo_invoice_service.Webhooks.Outbox.{enqueue_event-Enqueued}
use dodo_invoice_service.Invoices.{invoice_by_id}
use dodo_invoice_service.Payments.Settle.{
  verdict, finalize_payment_attempt, Verdict, PayResultBody, is_due, settle_attempts, close_open,
  event_payload, settle_in_tx, settled_body,
}
use dodo_invoice_service.Lifecycle.{
  Shop, shop, settle, Reach, here, next, is_task_of, settle_invoices,
}

-- What a finalization that ends well has found, and what it has done.
pub record Settled (i a : Uuid) (v : Verdict) (w u : World) (body : PayResultBody) : Type 0 where
  pub was_due : 0 < count (is_due a) w.db.attempts
  pub attempts : u.db.attempts ≡ settle_attempts a v w.now w.db.attempts
  pub invoices : u.db.invoices ≡ settle_invoices i v.invoice_target_state w.now w.db.invoices
  pub tasks : u.tasks ≡ w.tasks
  pub body_is : body ≡ settled_body i a v

-- The world after the UPDATE of the attempt.
abbrev pub attempt_done : Uuid → Verdict → World → World
attempt_done a v w = record w {
  faults = later w.faults;
  db = record w.db { attempts = settle_attempts a v w.now w.db.attempts };
}

-- The world after the UPDATE of the invoice.
abbrev pub invoice_done : Uuid → Option String → World → World
invoice_done i none w = w
invoice_done i (some target) w = record w {
  faults = later w.faults;
  db = record w.db { invoices = close_open i target w.now w.db.invoices };
}

pub settle_in_tx-Settled :
    (i a : Uuid) (v : Verdict) (w : World)
    → Ends (settle_in_tx i a v w) (λ body u. Settled i a v w u body)
unfolding settle_in_tx
settle_in_tx-Settled i a v w =
    let w' = invoice_done i v.invoice_target_state (attempt_done a v w) in
    elim (Option-cases (invoice_by_id i w'.db)) [
      | inl missing ↦ ground arith
      | inr (row, found) ↦ ground (
        arith,
        enqueue_event-Enqueued row.business_id v.event_type (event_payload i a v)
            (record w' { faults = later w'.faults }),
      )
    ]

Settled-Reach :
    (i a : Uuid) (outcome : PspOutcome) (w : World)
    → any (is_task_of a i) w.tasks ≡ true
    → (u : World) (body : PayResultBody) → Settled i a (verdict outcome) w u body
    → Reach (shop w) (shop u)
Settled-Reach i a outcome w known u body st = next here (
    settle a i outcome w.now known st.was_due
      (λ k. record { invoices = st.invoices k; attempts = st.attempts k; tasks = st.tasks k }))

-- For an attempt and an invoice of a task that was spawned, what `finalize_payment_attempt` does
-- to the invoices, attempts and tasks is made of changes of the contract, whatever the outcome of
-- the charge and whatever the database fails.
pub finalize_payment_attempt-Reach :
    (i a : Uuid) (outcome : PspOutcome) (w : World)
    → any (is_task_of a i) w.tasks ≡ true
    → Reach (shop w) (shop (finalize_payment_attempt i a outcome w).1)
unfolding finalize_payment_attempt
finalize_payment_attempt-Reach i a outcome w known =
    transaction-Reach (settle_in_tx i a (verdict outcome)) w (λ v same.
      Ends-map (settle_in_tx i a (verdict outcome) v)
        (λ body u. Settled i a (verdict outcome) v u body) (λ body u. Reach (shop v) (shop u))
        (λ body u st.
          Settled-Reach i a outcome v
            (rw (ap (λ (s : Shop). any (is_task_of a i) s.tasks) same) known) u body st)
        (settle_in_tx-Settled i a (verdict outcome) v))
