-- ===== src/Payments/Claim.antt =====
-- invoice-service/src/handlers/payments.rs: `claim_payment_attempt` and `fetch_total_cents`.
use Prim.Native.String.{◌++◌ as str_append}
use dodo_invoice_service.Base.{
  ℕ, String, Bool, true, false, not, none, ◌∷◌, str_eq, ℤ, ◌==◌, any, if◌then◌else◌,
}
use dodo_invoice_service.StateMachine.{InvoiceState, paid, as_str, parse, can_accept_payment}
use dodo_invoice_service.Error.{AppError, new, not_found, conflict, internal, database_error}
use dodo_invoice_service.Models.{Uuid, PaymentAttemptRow}
use dodo_invoice_service.Db.{
  World, Exec, Outcome, done, violates, pure, raise, ok_or, raise_if, ◌>>=◌, ◌>>◌, statement, query,
  fetch_one, transaction, gen_random_uuid,
}
use dodo_invoice_service.Invoices.{invoice_by_id, invoice_of}
use dodo_invoice_service.Payments.{is_pending_for}

abbrev pub new_attempt : Uuid → Uuid → String → ℕ → PaymentAttemptRow
new_attempt id invoice_id card_token now = record {
  id = id;
  invoice_id = invoice_id;
  status = "pending";
  card_token = card_token;
  failure_code = none;
  psp_ref = none;
  created_at = now;
  updated_at = now;
}

-- The primary key, and the partial unique index that makes at most one attempt of an invoice
-- 'pending'.
unfoldable pub insert_attempt : Uuid → String → World → Outcome Uuid × World
insert_attempt invoice_id card_token w =
    let (id, w') = gen_random_uuid w in
    if any (λ a. a.id == id) w'.db.attempts
    then (violates "payment_attempts_pkey", w')
    else if any (is_pending_for invoice_id) w'.db.attempts
    then (violates "uniq_payment_attempts_pending_per_invoice", w')
    else (
      done id,
      record w' {
        db = record w'.db {
          attempts = new_attempt id invoice_id card_token w'.now ∷ w'.db.attempts;
        };
      },
    )

abbrev is_paid : InvoiceState → Bool
is_paid paid = true
is_paid _ = false

unfoldable pub not_payable : InvoiceState → AppError
not_payable invoice_state =
    new 409 (if is_paid invoice_state then "invoice_already_paid" else "invoice_not_payable") (
      str_append "invoice is '" (str_append (as_str invoice_state) "' and cannot accept a payment"))

abbrev pub attempt_in_progress : AppError
attempt_in_progress =
    conflict "payment_attempt_in_progress"
      "another payment attempt for this invoice is already in flight"

abbrev pub claimed_id : Outcome Uuid → Exec Uuid
claimed_id (done id) = pure id
claimed_id (violates constraint) =
    if str_eq constraint "uniq_payment_attempts_pending_per_invoice"
    then raise attempt_in_progress
    else raise database_error

unfoldable pub claim_in_tx : Uuid → Uuid → String → Exec Uuid
unfolding query statement insert_attempt
claim_in_tx business_id invoice_id card_token = do
  found ← query (invoice_of invoice_id business_id)
  row ← ok_or found (not_found "invoice_not_found" "no such invoice")
  invoice_state ← ok_or (parse row.state) (internal "invoice has an unrecognized state")
  raise_if (not (can_accept_payment invoice_state)) (not_payable invoice_state)
  inserted ← statement (insert_attempt invoice_id card_token)
  claimed_id inserted

unfoldable pub claim_payment_attempt : Uuid → Uuid → String → Exec Uuid
unfolding transaction claim_in_tx
claim_payment_attempt business_id invoice_id card_token =
    transaction (claim_in_tx business_id invoice_id card_token)

unfoldable pub fetch_total_cents : Uuid → Exec ℤ
unfolding fetch_one
fetch_total_cents invoice_id = do row ← fetch_one (invoice_by_id invoice_id); pure row.total_cents
