-- ===== src/Payments/Pay.antt =====
-- invoice-service/src/handlers/payments.rs: `try_claim_and_pay` and `pay_invoice`.
use dodo_invoice_service.Base.{String, Option, none, some, ◌∷◌, ℤ, is_blank}
use dodo_invoice_service.Json.{Json, text, uuid, obj, end, field}
use dodo_invoice_service.Error.{StatusCode, bad_request, internal, error_body}
use dodo_invoice_service.Models.{Uuid}
use dodo_invoice_service.Db.{
  Task, Exec, Result, ok, err, attempt, pure, raise, ok_or, raise_if, ◌>>=◌, ◌>>◌,
}
use dodo_invoice_service.PspClient.{Psp, charge}
use dodo_invoice_service.Idempotency.{
  Crypto, hash_body, IdempotencyCheck, use_cached, proceed, Others, let_run, before_claim,
  before_total, before_settle, before_finalize, reserve_or_get, finalize,
}
use dodo_invoice_service.Payments.Claim.{claim_payment_attempt, fetch_total_cents}
use dodo_invoice_service.Payments.Settle.{PayResultBody, or_null, finalize_payment_attempt}

-- How the race of the spawned task against `psp_sync_wait` ends: the task has finished, it has
-- panicked, or the time is up and it goes on by itself.
pub data Race : Type 0 where
  finished panicked elapsed : Race

abbrev pub body_json : PayResultBody → Json
body_json b = obj (
    field "attempt_id" (uuid b.attempt_id) (
      field "invoice_id" (uuid b.invoice_id) (
        field "status" (text b.status) (
          field "failure_code" (or_null b.failure_code)
            (field "psp_ref" (or_null b.psp_ref) end)))))

abbrev pub pending_message : String
pending_message =
    "the payment processor has not responded yet; poll GET /invoices/{invoice_id}/payment-attempts/{attempt_id} for the final result"

abbrev pub pending_json : Uuid → Uuid → Json
pending_json attempt_id invoice_id = obj (
    field "attempt_id" (uuid attempt_id) (
      field "invoice_id" (uuid invoice_id)
        (field "status" (text "pending") (field "message" (text pending_message) end))))

-- `tokio::spawn`
abbrev pub spawn : Task → Exec (Unit {0})
spawn task w = (ok tt, record w { tasks = task ∷ w.tasks })

abbrev pub new_task : Uuid → Uuid → ℤ → String → Task
new_task invoice_id attempt_id total_cents card_token = record {
  invoice_id = invoice_id;
  attempt_id = attempt_id;
  total_cents = total_cents;
  card_token = card_token;
}

-- The body of the spawned task.
unfoldable pub run_task : Psp → Task → Exec PayResultBody
unfolding charge finalize_payment_attempt
run_task psp task =
    let outcome = charge psp task.total_cents task.card_token in
    finalize_payment_attempt task.invoice_id task.attempt_id outcome

unfoldable pub request_hash : Crypto → Uuid → String → String
unfolding hash_body
request_hash c invoice_id card_token = hash_body c (
    c.json_text
      (obj (field "invoice_id" (uuid invoice_id) (field "card_token" (text card_token) end))))

module _ (psp : Psp) (others : Others) where
  abbrev pub await : Race → Task → Exec (StatusCode × Json)
  await finished task = do
    let_run others before_settle
    body ← run_task psp task
    pure (200, body_json body)
  await panicked task = raise (internal "payment processing failed unexpectedly")
  await elapsed task = pure (202, pending_json task.attempt_id task.invoice_id)

  -- What follows the claim of an attempt.
  abbrev pub after_claim : Race → Uuid → String → Uuid → Exec (StatusCode × Json)
  after_claim race invoice_id card_token attempt_id = do
    let_run others before_total
    total_cents ← fetch_total_cents invoice_id
    let task = new_task invoice_id attempt_id total_cents card_token
    spawn task
    await race task

  unfoldable pub try_claim_and_pay : Race → Uuid → Uuid → String → Exec (StatusCode × Json)
  unfolding claim_payment_attempt fetch_total_cents run_task
  try_claim_and_pay race business_id invoice_id card_token = do
    let_run others before_claim
    attempt_id ← claim_payment_attempt business_id invoice_id card_token
    after_claim race invoice_id card_token attempt_id

  -- The match on `&result`, and the result after it.
  unfoldable pub finalize_result :
      Uuid → Uuid → String → Result (StatusCode × Json) → Exec (StatusCode × Json)
  unfolding finalize
  finalize_result business_id invoice_id idem_key (ok (status, body)) = do
    let_run others before_finalize
    finalize business_id idem_key status body (some invoice_id) none
    pure (status, body)
  finalize_result business_id invoice_id idem_key (err app_err) = do
    let_run others before_finalize
    finalize business_id idem_key app_err.status (error_body app_err) (some invoice_id) none
    raise app_err

  unfoldable pub pay_reserved :
      Race → Uuid → Uuid → String → String → IdempotencyCheck → Exec (StatusCode × Json)
  unfolding try_claim_and_pay finalize_result
  pay_reserved race business_id invoice_id idem_key card_token (use_cached status body) =
      pure (status, body)
  pay_reserved race business_id invoice_id idem_key card_token proceed = do
    result ← attempt (try_claim_and_pay race business_id invoice_id card_token)
    finalize_result business_id invoice_id idem_key result

  -- `idem_header` is the Idempotency-Key header, if there is one and it is text.
  unfoldable pub pay_invoice :
      Crypto → Race → Uuid → Uuid → Option String → String → Exec (StatusCode × Json)
  pay_invoice c race business_id invoice_id idem_header card_token = do
    idem_key ← ok_or idem_header (
        bad_request "idempotency_key_required"
          "an Idempotency-Key header is required for POST /pay")
    raise_if (is_blank card_token) (bad_request "invalid_card_token" "card_token is required")
    check ← reserve_or_get others business_id idem_key (request_hash c invoice_id card_token)
    pay_reserved race business_id invoice_id idem_key card_token check
