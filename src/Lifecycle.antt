-- ===== src/Lifecycle.antt =====
-- The contract of the invoice and payment handlers: what each database transaction may do to the
-- invoices, the payment attempts and the spawned payment tasks, all else forgotten. Any interleaving
-- of requests and tasks is a sequence of these changes.
pub mod Tables
pub mod Invariant
pub mod Safety
pub mod Paths
pub mod Refines
pub mod Findings
use dodo_invoice_service.Base.{
  some, Option, ℕ, ◌<◌, String, ◌≡◌, Bool, true, false, ◌&&◌, List, ◌∷◌, str_eq, ◌==◌, any, count,
  none, ◌≢◌,
}
use dodo_invoice_service.StateMachine.{InvoiceState, as_str, paid}
use dodo_invoice_service.StateMachine.Diagram.{◌⟶◌}
use dodo_invoice_service.Models.{Uuid, InvoiceRow, PaymentAttemptRow}
use dodo_invoice_service.Db.{World, Task}
use dodo_invoice_service.PspClient.{PspOutcome}
use dodo_invoice_service.Invoices.Transition.{set_state}
use dodo_invoice_service.Payments.{has_status, is_pending_for}
use Prim.Native.Nat.{suc}
use dodo_invoice_service.Lifecycle.Tables.{
  invoice_has_id, is_in_state, attempt_has_id, is_attempt_of, is_success_for, is_due_for,
  is_task_of, in_state-set_state, count-id-set_state, open-close_open, paid-close_open,
  draft-close_open, count-id-close_open, count-id-settle, attempt_of-settle, pending-settle,
  success-settle, due-of_attempt, due-le_id,
}
use dodo_invoice_service.Payments.Settle.{verdict, is_due, settle_attempts, close_open}

-- What the contract speaks of.
pub record Shop : Type 0 where
  pub invoices : List InvoiceRow
  pub attempts : List PaymentAttemptRow
  pub tasks : List Task

abbrev pub shop : World → Shop
shop w = record { invoices = w.db.invoices; attempts = w.db.attempts; tasks = w.tasks }

-- The invoices after a verdict on a payment of invoice `i`.
abbrev pub settle_invoices : Uuid → Option String → ℕ → List InvoiceRow → List InvoiceRow
settle_invoices i none now rs = rs
settle_invoices i (some target) now rs = close_open i target now rs

-- create: a new draft. move: an action of the business. claim: a new pending attempt of an open
-- invoice that has none. spawn: a task for an attempt in the table. settle: a task gives the pending
-- attempt its verdict, and a success pays the invoice if it is open.
pub data Change (s t : Shop) : Type 0 where
  create :
      (row : InvoiceRow)
      → row.state ≡ "draft"
      → any (invoice_has_id row.id) s.invoices ≡ false
      → t ≡ record s { invoices = row ∷ s.invoices }
      → Change s t
  move :
      (i : Uuid) (now : ℕ) {from to : InvoiceState}
      → from ⟶ to
      → to ≢ paid
      → any (is_in_state i (as_str from)) s.invoices ≡ true
      → t ≡ record s { invoices = set_state i (as_str to) now s.invoices }
      → Change s t
  claim :
      (a : PaymentAttemptRow)
      → a.status ≡ "pending"
      → any (is_in_state a.invoice_id "open") s.invoices ≡ true
      → any (attempt_has_id a.id) s.attempts ≡ false
      → any (is_pending_for a.invoice_id) s.attempts ≡ false
      → t ≡ record s { attempts = a ∷ s.attempts }
      → Change s t
  spawn :
      (task : Task)
      → any (is_attempt_of task.attempt_id task.invoice_id) s.attempts ≡ true
      → t ≡ record s { tasks = task ∷ s.tasks }
      → Change s t
  settle :
      (a i : Uuid) (outcome : PspOutcome) (now : ℕ)
      → any (is_task_of a i) s.tasks ≡ true
      → 0 < count (is_due a) s.attempts
      → t ≡ record s {
        attempts = settle_attempts a (verdict outcome) now s.attempts;
        invoices = settle_invoices i (verdict outcome).invoice_target_state now s.invoices;
      }
      → Change s t

pub data Reach (s : Shop) : Shop → Type 0 where
  here : Reach s s
  next : {t u : Shop} → Reach s t → Change t u → Reach s u

pub Reach-trans : {s t u : Shop} → Reach s t → Reach t u → Reach s u
Reach-trans p here = p
Reach-trans p (next q c) = next (Reach-trans p q) c
