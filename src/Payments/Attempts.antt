-- ===== src/Payments/Attempts.antt =====
-- invoice-service/src/handlers/payments.rs: `get_payment_attempt`.
use dodo_invoice_service.Base.{◌&&◌, Option, ◌==◌, any, find}
use dodo_invoice_service.Error.{not_found}
use dodo_invoice_service.Models.{Uuid, PaymentAttemptRow}
use dodo_invoice_service.Db.{Db, Exec, ok_or, ◌>>=◌, query}

-- The JOIN keeps an attempt if there is an invoice with its id; WHERE wants that invoice to belong
-- to the business.
abbrev pub attempt_of : Uuid → Uuid → Uuid → Db → Option PaymentAttemptRow
attempt_of attempt_id invoice_id business_id db =
    find
      (λ pa.
        pa.id == attempt_id
        && pa.invoice_id == invoice_id
        && any (λ i. i.id == pa.invoice_id && i.business_id == business_id) db.invoices)
      db.attempts

unfoldable pub get_payment_attempt : Uuid → Uuid → Uuid → Exec PaymentAttemptRow
unfolding query
get_payment_attempt business_id invoice_id attempt_id = do
  attempt ← query (attempt_of attempt_id invoice_id business_id)
  ok_or attempt (not_found "payment_attempt_not_found" "no such payment attempt")
