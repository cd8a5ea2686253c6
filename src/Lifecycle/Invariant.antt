-- ===== src/Lifecycle/Invariant.antt =====
-- What holds of the invoices, attempts and tasks after any sequence of changes.
use dodo_invoice_service.Base.{
  ℕ, ◌+◌, ◌≤◌, ◌<◌, String, ◌≡◌, refl, ◌≢◌, Bool, true, false, ◌&&◌, ◌∷◌, str_eq, arith, ◌==◌,
  if◌then◌else◌, any, count, count-of_none,
}
use dodo_invoice_service.StateMachine.{InvoiceState, as_str, paid}
use dodo_invoice_service.StateMachine.Diagram.{◌⟶◌, finalize, void_draft, void_open, pay, write_off}
use dodo_invoice_service.Models.{Uuid, InvoiceRow, PaymentAttemptRow}
use dodo_invoice_service.PspClient.{PspOutcome, succeeded as approved, declined, unavailable}
use dodo_invoice_service.Invoices.Transition.{set_state}
use dodo_invoice_service.Payments.{is_pending_for}
use dodo_invoice_service.Payments.Settle.{verdict, is_due, settle_attempts}
use dodo_invoice_service.Lifecycle.Tables.{
  one_state, invoice_has_id, is_in_state, attempt_has_id, is_attempt_of, is_success_for, is_task_of,
  in_state-set_state, count-id-set_state, any-id-set_state, open-close_open, paid-close_open,
  draft-close_open, count-id-close_open, any-id-close_open, pending-settle, success-settle,
  due-of_attempt, due-le_id, no-state,
}
use dodo_invoice_service.Lifecycle.{Shop, settle_invoices}

abbrev pub pending : Shop → Uuid → ℕ
pending s i = count (is_pending_for i) s.attempts

abbrev pub succeeded : Shop → Uuid → ℕ
succeeded s i = count (is_success_for i) s.attempts

abbrev pub in_state : Shop → Uuid → String → Bool
in_state s i state = any (is_in_state i state) s.invoices

-- The facts about one invoice.
pub record IsConsistentAt (s : Shop) (i : Uuid) : Type 0 where
  pub id_once : count (invoice_has_id i) s.invoices ≤ 1
  pub one_live : pending s i + succeeded s i ≤ 1
  pub draft_idle : in_state s i "draft" ≡ true → pending s i + succeeded s i ≡ 0
  pub open_unpaid : in_state s i "open" ≡ true → succeeded s i ≡ 0
  pub paid_once : in_state s i "paid" ≡ true → succeeded s i ≡ 1
  pub live_known : any (invoice_has_id i) s.invoices ≡ false → pending s i + succeeded s i ≡ 0

pub record IsConsistent (s : Shop) : Type 0 where
  pub at_invoice : (i : Uuid) → IsConsistentAt s i
  pub attempt_once : (a : Uuid) → count (attempt_has_id a) s.attempts ≤ 1
  pub owned :
      (a i : Uuid) → any (is_task_of a i) s.tasks ≡ true → any (is_attempt_of a i) s.attempts ≡ true

module _ {s : Shop} (c : IsConsistent s) where
  create-At :
      (row : InvoiceRow)
      → row.state ≡ "draft"
      → any (invoice_has_id row.id) s.invoices ≡ false
      → (i : Uuid) → IsConsistentAt (record s { invoices = row ∷ s.invoices }) i
  create-At row d fresh i =
      let not_open : str_eq row.state "open" ≡ false = rw d refl in
      let not_paid : str_eq row.state "paid" ≡ false = rw d refl in
      ground (
        arith,
        c.at_invoice i,
        count-of_none (invoice_has_id row.id) s.invoices,
        no-state i "draft" s.invoices,
        no-state i "open" s.invoices,
        no-state i "paid" s.invoices,
      )

  pub create-IsConsistent :
      (row : InvoiceRow)
      → row.state ≡ "draft"
      → any (invoice_has_id row.id) s.invoices ≡ false
      → IsConsistent (record s { invoices = row ∷ s.invoices })
  create-IsConsistent row d fresh = record {
    at_invoice = create-At row d fresh;
    attempt_once = c.attempt_once;
    owned = c.owned;
  }

  -- What the tables say after `set_state`.
  moved :
      (i k : Uuid) (target : String) (now : ℕ)
      → let rs = s.invoices in
        let rs' = set_state i target now rs in
        (count (invoice_has_id k) rs' ≡ count (invoice_has_id k) rs)
        × (any (invoice_has_id k) rs' ≡ any (invoice_has_id k) rs)
        × (any (is_in_state k "draft") rs' ≡ (
            if k == i
            then any (invoice_has_id i) rs && str_eq target "draft"
            else any (is_in_state k "draft") rs))
        × (any (is_in_state k "open") rs' ≡ (
            if k == i
            then any (invoice_has_id i) rs && str_eq target "open"
            else any (is_in_state k "open") rs))
        × (any (is_in_state k "paid") rs' ≡ (
            if k == i
            then any (invoice_has_id i) rs && str_eq target "paid"
            else any (is_in_state k "paid") rs))
  moved i k target now = (
    count-id-set_state k i target now s.invoices,
    any-id-set_state k i target now s.invoices,
    in_state-set_state k i "draft" target now s.invoices,
    in_state-set_state k i "open" target now s.invoices,
    in_state-set_state k i "paid" target now s.invoices,
  )

  pub move-At :
      (i : Uuid) (now : ℕ) {from to : InvoiceState}
      → from ⟶ to
      → to ≢ paid
      → any (is_in_state i (as_str from)) s.invoices ≡ true
      → (k : Uuid)
      → IsConsistentAt (record s { invoices = set_state i (as_str to) now s.invoices }) k
  unfolding as_str
  move-At i now finalize np h k =
      ground (arith, moved i k "open" now, c.at_invoice k, c.at_invoice i)
  move-At i now void_draft np h k =
      ground (arith, moved i k "void" now, c.at_invoice k, c.at_invoice i)
  move-At i now void_open np h k =
      ground (arith, moved i k "void" now, c.at_invoice k, c.at_invoice i)
  move-At i now pay np h k = absurd (np refl)
  move-At i now write_off np h k =
      ground (arith, moved i k "uncollectible" now, c.at_invoice k, c.at_invoice i)

  pub claim-At :
      (a : PaymentAttemptRow)
      → a.status ≡ "pending"
      → any (is_in_state a.invoice_id "open") s.invoices ≡ true
      → any (is_pending_for a.invoice_id) s.attempts ≡ false
      → (k : Uuid) → IsConsistentAt (record s { attempts = a ∷ s.attempts }) k
  claim-At a p o none_pending k =
      let is_pending : str_eq a.status "pending" ≡ true = rw p refl in
      let no_success : str_eq a.status "succeeded" ≡ false = rw p refl in
      ground (
        arith,
        c.at_invoice k,
        count-of_none (is_pending_for a.invoice_id) s.attempts,
        one_state k "open" "draft" s.invoices refl,
        no-state k "open" s.invoices,
      )

  -- What the tables say of invoice `k` after a verdict on attempt `a` of invoice `i`.
  pub settle-At :
      (a i : Uuid) (outcome : PspOutcome) (now : ℕ)
      → any (is_attempt_of a i) s.attempts ≡ true
      → 0 < count (is_due a) s.attempts
      → (k : Uuid)
      → IsConsistentAt
          (record s {
            attempts = settle_attempts a (verdict outcome) now s.attempts;
            invoices = settle_invoices i (verdict outcome).invoice_target_state now s.invoices;
          })
          k
  unfolding verdict
  settle-At a i (approved psp_ref) now own due k = ground (
    arith,
    c.at_invoice k,
    due-of_attempt a i k s.attempts (c.attempt_once a) own,
    due-le_id a s.attempts,
    c.attempt_once a,
    pending-settle a (verdict (approved psp_ref)) now k s.attempts refl,
    success-settle a (verdict (approved psp_ref)) now k s.attempts,
    open-close_open k i now s.invoices,
    paid-close_open k i now s.invoices,
    draft-close_open k i now s.invoices,
    count-id-close_open k i "paid" now s.invoices,
    any-id-close_open k i "paid" now s.invoices,
  )
  settle-At a i (declined code) now own due k = ground (
    arith,
    c.at_invoice k,
    pending-settle a (verdict (declined code)) now k s.attempts refl,
    success-settle a (verdict (declined code)) now k s.attempts,
  )
  settle-At a i (unavailable detail) now own due k = ground (
    arith,
    c.at_invoice k,
    pending-settle a (verdict (unavailable detail)) now k s.attempts refl,
    success-settle a (verdict (unavailable detail)) now k s.attempts,
  )
