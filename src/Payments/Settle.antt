-- ===== src/Payments/Settle.antt =====
-- invoice-service/src/handlers/payments.rs: `finalize_payment_attempt`.
use dodo_invoice_service.Base.{
  ℕ, String, Bool, ◌&&◌, Option, none, some, List, [], ◌∷◌, str_eq, ◌==◌, count, if◌then◌else◌,
}
use dodo_invoice_service.Json.{Json, null, text, uuid, obj, end, field}
use dodo_invoice_service.Error.{internal}
use dodo_invoice_service.Models.{Uuid, InvoiceRow, PaymentAttemptRow}
use dodo_invoice_service.Db.{
  World, Exec, pure, raise_if, ◌>>=◌, ◌>>◌, statement, fetch_one, transaction, execute,
}
use dodo_invoice_service.PspClient.{PspOutcome, succeeded, declined, unavailable}
use dodo_invoice_service.Invoices.{invoice_by_id}
use dodo_invoice_service.Webhooks.{enqueue_event}
use dodo_invoice_service.Payments.{has_status}

pub record PayResultBody : Type 0 where
  pub attempt_id : Uuid
  pub invoice_id : Uuid
  pub status : String
  pub failure_code : Option String
  pub psp_ref : Option String

-- The tuple that the match on the outcome gives.
pub record Verdict : Type 0 where
  pub status : String
  pub failure_code : Option String
  pub psp_ref : Option String
  pub invoice_target_state : Option String
  pub event_type : String

unfoldable pub verdict : PspOutcome → Verdict
verdict (succeeded psp_ref) = record {
  status = "succeeded";
  failure_code = none;
  psp_ref = some psp_ref;
  invoice_target_state = some "paid";
  event_type = "invoice.paid";
}
verdict (declined code) = record {
  status = "failed";
  failure_code = some code;
  psp_ref = none;
  invoice_target_state = none;
  event_type = "invoice.payment_failed";
}
verdict (unavailable detail) = record {
  status = "failed";
  failure_code = some "psp_unavailable";
  psp_ref = none;
  invoice_target_state = none;
  event_type = "invoice.payment_failed";
}

-- WHERE id = $1 AND status = 'pending'
abbrev pub is_due : Uuid → PaymentAttemptRow → Bool
is_due attempt_id a = a.id == attempt_id && has_status "pending" a

abbrev pub settle_row : Verdict → ℕ → PaymentAttemptRow → PaymentAttemptRow
settle_row v now a = record a {
  status = v.status;
  failure_code = v.failure_code;
  psp_ref = v.psp_ref;
  updated_at = now;
}

-- UPDATE payment_attempts SET status = $2, … WHERE id = $1 AND status = 'pending'
abbrev pub settle_attempts : Uuid → Verdict → ℕ → List PaymentAttemptRow → List PaymentAttemptRow
settle_attempts attempt_id v now [] = []
settle_attempts attempt_id v now (a ∷ rest) =
    (if is_due attempt_id a then settle_row v now a else a) ∷ settle_attempts attempt_id v now rest

unfoldable pub update_attempts : Uuid → Verdict → World → ℕ × World
update_attempts attempt_id v w = (
  count (is_due attempt_id) w.db.attempts,
  record w { db = record w.db { attempts = settle_attempts attempt_id v w.now w.db.attempts } },
)

-- UPDATE invoices SET state = $2, updated_at = now() WHERE id = $1 AND state = 'open'
abbrev pub close_open : Uuid → String → ℕ → List InvoiceRow → List InvoiceRow
close_open invoice_id target now [] = []
close_open invoice_id target now (r ∷ rest) =
    (if r.id == invoice_id && str_eq r.state "open"
      then record r { state = target; updated_at = now }
      else r)
    ∷ close_open invoice_id target now rest

-- `if let Some(target) = invoice_target_state { … }`
abbrev pub update_invoice : Uuid → Option String → Exec (Unit {0})
update_invoice invoice_id none = pure tt
update_invoice invoice_id (some target) =
    execute (λ w. record w.db { invoices = close_open invoice_id target w.now w.db.invoices })

abbrev pub or_null : Option String → Json
or_null none = null
or_null (some s) = text s

abbrev pub event_payload : Uuid → Uuid → Verdict → Json
event_payload invoice_id attempt_id v = obj (
    field "event" (text v.event_type) (
      field "invoice_id" (uuid invoice_id) (
        field "attempt_id" (uuid attempt_id) (
          field "status" (text v.status) (
            field "failure_code" (or_null v.failure_code)
              (field "psp_ref" (or_null v.psp_ref) end))))))

abbrev is_zero : ℕ → Bool
is_zero n = n == 0

abbrev pub settled_body : Uuid → Uuid → Verdict → PayResultBody
settled_body invoice_id attempt_id v = record {
  attempt_id = attempt_id;
  invoice_id = invoice_id;
  status = v.status;
  failure_code = v.failure_code;
  psp_ref = v.psp_ref;
}

unfoldable pub settle_in_tx : Uuid → Uuid → Verdict → Exec PayResultBody
unfolding statement update_attempts execute fetch_one enqueue_event
settle_in_tx invoice_id attempt_id v = do
  updated ← statement (update_attempts attempt_id v)
  raise_if (is_zero updated) (internal "payment attempt was already finalized")
  update_invoice invoice_id v.invoice_target_state
  invoice ← fetch_one (invoice_by_id invoice_id)
  enqueue_event invoice.business_id v.event_type (event_payload invoice_id attempt_id v)
  pure (settled_body invoice_id attempt_id v)

unfoldable pub finalize_payment_attempt : Uuid → Uuid → PspOutcome → Exec PayResultBody
unfolding transaction settle_in_tx verdict
finalize_payment_attempt invoice_id attempt_id outcome =
    transaction (settle_in_tx invoice_id attempt_id (verdict outcome))
