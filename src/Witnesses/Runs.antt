-- ===== src/Witnesses/Runs.antt =====
-- The theorems on the runs of the service at concrete inputs: a payment with a key, and one whose task is lost.
use dodo_invoice_service.Invoices.Create.{create_invoice, total, amount}
use dodo_invoice_service.Invoices.Transition.{finalize_invoice}
use dodo_invoice_service.StateMachine.{parse, can_finalize, can_accept_payment, as_str}
use dodo_invoice_service.Payments.Pay.{request_hash, pay_invoice, finished, elapsed, pay_reserved}
use dodo_invoice_service.Payments.Replay.{IsRespectful, response}
use dodo_invoice_service.Samples.{
  unlocked, unreachable, signer, plain, approving, start as shop_start, request as sample_request,
  alone,
}
use dodo_invoice_service.Payments.Decision.{is_ok}
use dodo_invoice_service.PspClient.{send_failed, Psp, declined}
use dodo_invoice_service.Payments.Settle.{finalize_payment_attempt, verdict, PayResultBody}
use dodo_invoice_service.Idempotency.{reserve_or_get, reserved_row, in_progress, stored}
use dodo_invoice_service.Router.Billing.{created_bill_is_kept, IsSameBill}
use dodo_invoice_service.Lifecycle.Refines.Creating.{item_rows}
use dodo_invoice_service.Invoices.Read.{get_invoice}
use dodo_invoice_service.Invoices.Create.Billed.{as_input}
use dodo_invoice_service.Router.Answers.{polls_agree, shown}
use dodo_invoice_service.Router.Runs.{start, tick}
use dodo_invoice_service.Base.{
  ◌∷◌, pos, map, false, none, true, some, [], ◌≡◌, any, wrap_i64, is_blank, refl, ◌+ℤ◌, ◌*ℤ◌,
}
use dodo_invoice_service.Db.{err, ok, World}
use dodo_invoice_service.Router.Orphans.{orphan_blocks_for_ever, IsOrphan, is_waiting}
use dodo_invoice_service.Webhooks.Dispatch.{dispatch_due_batch}
use dodo_invoice_service.Router.Keys.{same_answer_for_ever}
use dodo_invoice_service.Payments.Claim.{new_attempt, claim_payment_attempt}
use dodo_invoice_service.Payments.Attempts.{get_payment_attempt, attempt_of}
use dodo_invoice_service.Models.{InvoiceResponse, PaymentAttemptRow}
use dodo_invoice_service.Router.Waits.{unanswered_for_ever}

abbrev open_world : World
open_world = (finalize_invoice 1 100 (create_invoice 1 sample_request shop_start).1).1

abbrev paid_world : World
paid_world =
    (pay_invoice approving alone plain finished 1 100 (some "k") "tok_success" open_world).1

-- The provider is unreachable.
abbrev down : Psp
down body = send_failed "connection refused"

alone-IsRespectful : IsRespectful alone 1 "k"
alone-IsRespectful = record { faults = λ p w h. h; row = λ p w. refl }

is_given : is_blank "tok_success" ≡ false
unfolding is_blank
is_given = refl

no_faults : open_world.faults ≡ []
unfolding finalize_invoice create_invoice total wrap_i64 ◌+ℤ◌ amount ◌*ℤ◌ parse can_finalize
no_faults = refl

is_unused : stored 1 "k" open_world.db ≡ none
unfolding finalize_invoice create_invoice total wrap_i64 ◌+ℤ◌ amount ◌*ℤ◌ parse can_finalize
is_unused = refl

abbrev later : World
later = (dispatch_due_batch signer unreachable unlocked paid_world).1

later-faults : later.faults ≡ []
unfolding finalize_invoice create_invoice total wrap_i64 ◌+ℤ◌ amount ◌*ℤ◌ parse can_finalize
    pay_invoice is_blank reserve_or_get pay_reserved as_str can_accept_payment dispatch_due_batch
later-faults = refl

same_answer_for_ever_example :
    let first =
      response
        (pay_invoice approving alone plain finished 1 100 (some "k") "tok_success" open_world).0 in
    pay_invoice down alone plain finished 1 100 (some "k") "tok_success" later
    ≡ (ok (first.status, first.body), later)
same_answer_for_ever_example =
    same_answer_for_ever approving down alone alone plain finished finished 1 100 "k" "tok_success"
      is_given alone-IsRespectful alone-IsRespectful open_world later no_faults is_unused
      (tick signer unreachable unlocked start) later-faults

-- The service restarts while a payment is in flight: the task is gone.
abbrev stranded : World
stranded =
    record (pay_invoice approving alone plain elapsed 1 100 (some "k") "tok_success" open_world).1 {
      tasks = [];
    }

is_stranded : IsOrphan 103 100 stranded.db stranded.tasks
unfolding finalize_invoice create_invoice total wrap_i64 ◌+ℤ◌ amount ◌*ℤ◌ parse can_finalize
    pay_invoice is_blank reserve_or_get pay_reserved as_str can_accept_payment
is_stranded = record { waiting = refl; no_task = refl }

abbrev stranded_later : World
stranded_later = (dispatch_due_batch signer unreachable unlocked stranded).1

orphan_blocks_for_ever_example :
    (any (is_waiting 103 100) stranded_later.db.attempts ≡ true)
    × (is_ok (claim_payment_attempt 1 100 "tok_success" stranded_later).0 ≡ false)
orphan_blocks_for_ever_example =
    orphan_blocks_for_ever 103 100 1 "tok_success" is_stranded
      (tick signer unreachable unlocked start)

-- The row of the attempt whose payment is in flight.
abbrev in_flight : World
in_flight = (pay_invoice approving alone plain elapsed 1 100 (some "k") "tok_success" open_world).1

abbrev answered : World
answered = (finalize_payment_attempt 100 103 (declined "no_funds") in_flight).1

abbrev polled : World
polled = (dispatch_due_batch signer unreachable unlocked answered).1

abbrev flying : PaymentAttemptRow
flying = new_attempt 103 100 "tok_success" 5

abbrev no_funds : PayResultBody
no_funds = record {
  attempt_id = 103;
  invoice_id = 100;
  status = "failed";
  failure_code = some "no_funds";
  psp_ref = none;
}

is_there : attempt_of 103 100 1 in_flight.db ≡ some flying
unfolding finalize_invoice create_invoice total wrap_i64 ◌+ℤ◌ amount ◌*ℤ◌ parse can_finalize
    pay_invoice is_blank reserve_or_get pay_reserved as_str can_accept_payment
is_there = refl

is_answered :
    finalize_payment_attempt 100 103 (declined "no_funds") in_flight ≡ (ok no_funds, answered)
unfolding finalize_invoice create_invoice total wrap_i64 ◌+ℤ◌ amount ◌*ℤ◌ parse can_finalize
    pay_invoice is_blank reserve_or_get pay_reserved as_str can_accept_payment
    finalize_payment_attempt verdict
is_answered = refl

polled-faults : polled.faults ≡ []
unfolding finalize_invoice create_invoice total wrap_i64 ◌+ℤ◌ amount ◌*ℤ◌ parse can_finalize
    pay_invoice is_blank reserve_or_get pay_reserved as_str can_accept_payment dispatch_due_batch
    finalize_payment_attempt verdict
polled-faults = refl

polls_agree_example :
    (r : PaymentAttemptRow) × ((get_payment_attempt 1 100 103 polled).0 ≡ ok r)
    × (shown r ≡ no_funds)
polls_agree_example =
    polls_agree 103 100 1 (declined "no_funds") flying in_flight is_there refl is_answered
      (tick signer unreachable unlocked start) polled-faults

-- The UPDATE that stores the answer fails: the request has ended, and its key has none.
abbrev unlucky : World
unlucky = record open_world {
  faults =
      false ∷ false ∷ false ∷ false ∷ false ∷ false ∷ false ∷ false ∷ false ∷ false ∷ false ∷ false
      ∷ false ∷ false ∷ true ∷ [];
}

abbrev unanswered : World
unanswered = (pay_invoice approving alone plain finished 1 100 (some "k") "tok_success" unlucky).1

is_unused_then : stored 1 "k" unlucky.db ≡ none
unfolding finalize_invoice create_invoice total wrap_i64 ◌+ℤ◌ amount ◌*ℤ◌ parse can_finalize
is_unused_then = refl

is_left :
    stored 1 "k" unanswered.db ≡ some (reserved_row 1 "k" (request_hash plain 100 "tok_success"))
unfolding finalize_invoice create_invoice total wrap_i64 ◌+ℤ◌ amount ◌*ℤ◌ parse can_finalize
    pay_invoice is_blank reserve_or_get pay_reserved as_str can_accept_payment
is_left = refl

abbrev unanswered_later : World
unanswered_later = (dispatch_due_batch signer unreachable unlocked unanswered).1

unanswered-faults : unanswered_later.faults ≡ []
unfolding finalize_invoice create_invoice total wrap_i64 ◌+ℤ◌ amount ◌*ℤ◌ parse can_finalize
    pay_invoice is_blank reserve_or_get pay_reserved as_str can_accept_payment dispatch_due_batch
unanswered-faults = refl

unanswered_for_ever_example :
    let (result, u) =
      pay_invoice down alone plain finished 1 100 (some "k") "tok_success" unanswered_later in
    (result ≡ err in_progress)
    × (stored 1 "k" u.db ≡ some (reserved_row 1 "k" (request_hash plain 100 "tok_success")))
unanswered_for_ever_example =
    unanswered_for_ever approving down alone alone plain finished finished 1 100 "k" "tok_success"
      is_given alone-IsRespectful unlucky unanswered_later is_unused_then (λ p x. refl) is_left
      (tick signer unreachable unlocked start) unanswered-faults

abbrev created : World
created = (create_invoice 1 sample_request shop_start).1

abbrev created_later : World
created_later = (dispatch_due_batch signer unreachable unlocked created).1

abbrev bill : InvoiceResponse
bill = record {
  id = 100;
  business_id = 1;
  customer_id = 7;
  state = "draft";
  currency = "USD";
  total_cents = pos 300;
  due_date = none;
  line_items = item_rows 100 shop_start.uuid_at 1 sample_request.line_items;
  created_at = 5;
  updated_at = 5;
}

is_created : create_invoice 1 sample_request shop_start ≡ (ok (201, bill), created)
unfolding create_invoice total wrap_i64 ◌+ℤ◌ amount ◌*ℤ◌
is_created = refl

created-faults : created_later.faults ≡ []
unfolding create_invoice total wrap_i64 ◌+ℤ◌ amount ◌*ℤ◌ dispatch_due_batch
created-faults = refl

created_bill_is_kept_example :
    (now : InvoiceResponse) × ((get_invoice 1 100 created_later).0 ≡ ok now)
    × IsSameBill now bill
    × (map as_input bill.line_items ≡ sample_request.line_items)
    × (bill.total_cents ≡ total sample_request.line_items)
created_bill_is_kept_example =
    created_bill_is_kept 1 sample_request shop_start is_created refl
      (tick signer unreachable unlocked start) created-faults
