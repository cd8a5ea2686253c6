-- ===== src/Payments/Decision.antt =====
-- When a payment of an invoice is claimed.
use dodo_invoice_service.Base.{
  str_ne, inr, inl, Option-cases, ◌==◌, [], String, ◌≡◌, refl, Bool, true, false, not, ◌&&◌, Option,
  none, some, str_eq, arith, any,
}
use dodo_invoice_service.StateMachine.{parse, can_accept_payment}
use dodo_invoice_service.Models.{Uuid, InvoiceRow}
use dodo_invoice_service.Db.{World, Result, ok, err}
use dodo_invoice_service.Invoices.{invoice_of}
use dodo_invoice_service.Payments.{is_pending_for}
use dodo_invoice_service.Payments.Claim.{claim_payment_attempt}

abbrev pub is_ok : {A : Type 0} → Result A → Bool
is_ok (ok _) = true
is_ok (err _) = false

abbrev pub is_payable : Option InvoiceRow → Bool
is_payable none = false
is_payable (some row) = str_eq row.state "open"

-- If no statement fails and the next id is not taken, a payment is claimed exactly when the business has
-- the invoice, it is open, and no attempt of it is pending.
pub claim_iff :
    (b i : Uuid) (card_token : String) (w : World)
    → w.faults ≡ []
    → any (λ a. a.id == w.uuid_at w.drawn) w.db.attempts ≡ false
    → is_ok (claim_payment_attempt b i card_token w).0
      ≡ (is_payable (invoice_of i b w.db) && not (any (is_pending_for i) w.db.attempts))
unfolding claim_payment_attempt parse can_accept_payment
claim_iff b i card_token w f fresh = elim (Option-cases (invoice_of i b w.db)) [
  | inl missing ↦ ground arith
  | inr (row, found) ↦ ground (
    arith,
    str_ne row.state "draft" "open" refl,
    str_ne row.state "paid" "open" refl,
    str_ne row.state "void" "open" refl,
    str_ne row.state "uncollectible" "open" refl,
  )
]
