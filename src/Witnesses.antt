-- ===== src/Witnesses.antt =====
-- The theorems at concrete inputs: a small shop in which an invoice is created, finalized and paid.
mod Delivery
mod Api
mod Service
mod Runs
use Prim.Native.String.{◌++◌ as str_append}
use dodo_invoice_service.Json.{null}
use dodo_invoice_service.PspClient.{succeeded as approved, declined, outcome_of}
use dodo_invoice_service.Base.{
  ◌∷◌, ◌*ℤ◌, wrap_i64, ◌+ℤ◌, not, ◌&&◌, map, ◌==◌, none, false, arith, count, pos, ◌<◌, str_eq, ◌↔◌,
  is_blank, [], any, some, ◌≡◌, refl, ◌≤◌, ◌+◌, true, Bool,
}
use dodo_invoice_service.StateMachine.{
  can_accept_payment, can_finalize, can_void, is_terminal, InvoiceState, draft, open_state, paid,
  void, as_str, parse,
}
use dodo_invoice_service.Db.{err, ok, World}
use dodo_invoice_service.Samples.{keyed_world, start, request, approving, alone, plain}
use dodo_invoice_service.Invoices.Create.{amount, check_items, total, create_invoice}
use dodo_invoice_service.Invoices.Transition.{
  mark_uncollectible, transition, void_invoice, finalize_invoice,
}
use dodo_invoice_service.Payments.Pay.{pay_reserved, request_hash, finished, elapsed, pay_invoice}
use dodo_invoice_service.Lifecycle.{here, Reach, shop}
use dodo_invoice_service.Lifecycle.Invariant.{pending, succeeded, in_state}
use dodo_invoice_service.Lifecycle.Paths.{MovedFrom}
use dodo_invoice_service.History.Charges.{at_most_one_charge, charges_of_state, HasCharges}
use dodo_invoice_service.History.States.{follows_diagram, terminal_forever}
use dodo_invoice_service.History.{History}
use dodo_invoice_service.Payments.Replay.{
  pay_key_reused, pay_replays, response, answered_row, pay_stores, IsRespectful, IsQuiet,
}
use dodo_invoice_service.Idempotency.{reserve_or_get, key_reused, stored}
use dodo_invoice_service.Invoices.Read.{passes, selected, get_invoice, list_invoices}
use dodo_invoice_service.Payments.Decision.{claim_iff, is_payable, is_ok}
use dodo_invoice_service.Invoices.{invoice_of}
use dodo_invoice_service.Payments.Attempts.{get_payment_attempt}
use dodo_invoice_service.Invoices.Isolation.{
  HasNoAttempt, IsSameShop, no_such, foreign_invoice, IsHidden,
}
use dodo_invoice_service.StateMachine.Decisions.{allows_iff, is_terminal_iff, allows}
use dodo_invoice_service.Webhooks.Events.{
  enqueue_event-rows, Content, content, first_attempt, is_subscribed,
}
use dodo_invoice_service.Webhooks.Outbox.{enqueue_event-writes, outbox, IsFresh}
use dodo_invoice_service.Error.{Response}
use dodo_invoice_service.Payments.Settle.{verdict, finalize_payment_attempt, PayResultBody}
use dodo_invoice_service.Webhooks.{enabled_endpoints, enqueue_event}
use dodo_invoice_service.Payments.Claim.{claim_payment_attempt}
use dodo_invoice_service.Lifecycle.Tables.{is_due_for, is_task_of}
use dodo_invoice_service.Lifecycle.Refines.Paying.{pay_invoice-Reach}
use dodo_invoice_service.Lifecycle.Findings.{charged_though_void}
use dodo_invoice_service.StateMachine.Diagram.{◌⟶◌}
use dodo_invoice_service.StateMachine.Text.{parse_iff}
use dodo_invoice_service.Invoices.Create.Total.{total-exact}
use dodo_invoice_service.Lifecycle.Refines.Settling.{finalize_payment_attempt-Reach}
use dodo_invoice_service.Invoices.Decision.{transition_iff, accepts}
use dodo_invoice_service.Invoices.Listing.{list_invoices_lem, full}
use dodo_invoice_service.Db.Order.Sorted.{IsDesc}
use dodo_invoice_service.Payments.{is_pending_for}
use dodo_invoice_service.PspClient.Approval.{succeeded_iff, Approves}
use dodo_invoice_service.Customers.{
  get_customer, create_customer, CreateCustomerRequest, new_customer,
}
use dodo_invoice_service.Auth.{len, from_request_parts}
use dodo_invoice_service.Auth.Decision.{authenticates_iff, IsLetIn}
use dodo_invoice_service.Customers.Found.{create_customer-get}
use dodo_invoice_service.Business.{create_business, CreateBusinessResponse}
use dodo_invoice_service.Business.Onboarding.{create_business-lets_in}
use dodo_invoice_service.Invoices.Theirs.{transitions_spare_others, theirs}
use dodo_invoice_service.History as Past

abbrev created_world : World
created_world = (create_invoice 1 request start).1

abbrev open_world : World
open_world = (finalize_invoice 1 100 created_world).1

abbrev paid_world : World
paid_world =
    (pay_invoice approving alone plain finished 1 100 (some "k") "tok_success" open_world).1

open_History : History start open_world
open_History = Past.finalize 1 100 (Past.create 1 request Past.start)

payment_History : History open_world paid_world
payment_History =
    Past.pay approving alone plain finished 1 100 (some "k") "tok_success" (λ p v. Past.start)
      Past.start

paid_History : History start paid_world
paid_History =
    Past.pay approving alone plain finished 1 100 (some "k") "tok_success" (λ p v. Past.start)
      open_History

is_open_now : in_state (shop open_world) 100 (as_str open_state) ≡ true
unfolding as_str create_invoice finalize_invoice total wrap_i64 ◌+ℤ◌ amount ◌*ℤ◌ parse can_finalize
is_open_now = refl

is_paid_now : in_state (shop paid_world) 100 (as_str paid) ≡ true
unfolding as_str create_invoice finalize_invoice pay_invoice is_blank reserve_or_get total wrap_i64
    ◌+ℤ◌ amount ◌*ℤ◌ parse can_finalize pay_reserved can_accept_payment
is_paid_now = refl

charges_of_state_example : HasCharges paid (shop paid_world) 100
charges_of_state_example = charges_of_state 100 paid refl paid_History is_paid_now

follows_diagram_example : MovedFrom open_state (shop paid_world) 100
follows_diagram_example =
    follows_diagram 100 open_state refl open_History payment_History is_open_now

void_History : History paid_world (void_invoice 1 100 paid_world).1
void_History = Past.void 1 100 Past.start

terminal_forever_example :
    in_state (shop (void_invoice 1 100 paid_world).1) 100 (as_str paid) ≡ true
unfolding is_terminal
terminal_forever_example = terminal_forever 100 paid refl paid_History void_History refl is_paid_now

alone-IsRespectful : IsRespectful alone 1 "k"
alone-IsRespectful = record { faults = λ p w h. h; row = λ p w. refl }

abbrev first_response : Response
first_response =
    response
      (pay_invoice approving alone plain finished 1 100 (some "k") "tok_success" open_world).0

is_given : is_blank "tok_success" ≡ false
unfolding is_blank
is_given = refl

no_faults : open_world.faults ≡ []
unfolding finalize_invoice create_invoice total wrap_i64 ◌+ℤ◌ amount ◌*ℤ◌ parse can_finalize
no_faults = refl

is_unused : stored 1 "k" open_world.db ≡ none
unfolding finalize_invoice create_invoice total wrap_i64 ◌+ℤ◌ amount ◌*ℤ◌ parse can_finalize
is_unused = refl

abbrev IsStored : Type 0
IsStored =
    IsQuiet 1 "k" (answered_row 1 "k" (request_hash plain 100 "tok_success") 100 first_response)
      paid_world
    × (100 ≤ first_response.status)
    × (first_response.status ≤ 999)

pay_stores_example : IsStored
pay_stores_example =
    pay_stores approving alone plain finished 1 100 "k" "tok_success" is_given alone-IsRespectful
      open_world no_faults is_unused

is_stored : IsStored
is_stored =
    pay_stores approving alone plain finished 1 100 "k" "tok_success" is_given alone-IsRespectful
      open_world no_faults is_unused

other_given : is_blank "tok_other" ≡ false
unfolding is_blank
other_given = refl

other_hash :
    str_eq (request_hash plain 100 "tok_success") (request_hash plain 100 "tok_other") ≡ false
unfolding request_hash
other_hash = refl

pay_key_reused_example :
    pay_invoice approving alone plain finished 1 100 (some "k") "tok_other" paid_world
    ≡ (err key_reused, paid_world)
pay_key_reused_example =
    pay_key_reused approving alone plain finished 1 100 "k" "tok_other" other_given
      alone-IsRespectful paid_world
      (answered_row 1 "k" (request_hash plain 100 "tok_success") 100 first_response) is_stored.0
      other_hash

pay_invoice-Reach_example : Reach (shop open_world) (shop paid_world)
pay_invoice-Reach_example =
    pay_invoice-Reach approving alone (λ p w. here) plain finished 1 100 (some "k") "tok_success"
      open_world

-- The payment of the invoice is in flight.
abbrev waiting_world : World
waiting_world =
    (pay_invoice approving alone plain elapsed 1 100 (some "k") "tok_success" open_world).1

is_known : any (is_task_of 103 100) waiting_world.tasks ≡ true
unfolding pay_invoice is_blank reserve_or_get finalize_invoice create_invoice total wrap_i64 ◌+ℤ◌
    amount ◌*ℤ◌ parse can_finalize pay_reserved as_str can_accept_payment
is_known = refl

finalize_payment_attempt-Reach_example :
    Reach
      (shop waiting_world)
      (shop (finalize_payment_attempt 100 103 (declined "no_funds") waiting_world).1)
finalize_payment_attempt-Reach_example =
    finalize_payment_attempt-Reach 100 103 (declined "no_funds") waiting_world is_known

no_attempts : any (λ a. a.id == open_world.uuid_at open_world.drawn) open_world.db.attempts ≡ false
unfolding finalize_invoice create_invoice total wrap_i64 ◌+ℤ◌ amount ◌*ℤ◌ parse can_finalize
no_attempts = refl

claim_iff_example : is_ok (claim_payment_attempt 1 100 "tok_success" open_world).0 ≡ (
    is_payable (invoice_of 100 1 open_world.db)
    && not (any (is_pending_for 100) open_world.db.attempts))
claim_iff_example = claim_iff 1 100 "tok_success" open_world no_faults no_attempts

transition_iff_example :
    is_ok (transition 1 100 "void" can_void void open_world).0
    ≡ accepts can_void (invoice_of 100 1 open_world.db)
transition_iff_example = transition_iff 1 100 "void" can_void void open_world no_faults

is_foreign : any (λ r. r.id == 100 && r.business_id == 2) open_world.db.invoices ≡ false
unfolding finalize_invoice create_invoice total wrap_i64 ◌+ℤ◌ amount ◌*ℤ◌ parse can_finalize
is_foreign = refl

never_used : stored 2 "k" open_world.db ≡ none
unfolding finalize_invoice create_invoice total wrap_i64 ◌+ℤ◌ amount ◌*ℤ◌ parse can_finalize
never_used = refl

foreign_invoice_example :
    IsHidden open_world (get_invoice 2 100 open_world)
    × IsHidden open_world (finalize_invoice 2 100 open_world)
    × IsHidden open_world (void_invoice 2 100 open_world)
    × IsHidden open_world (mark_uncollectible 2 100 open_world)
    × IsHidden open_world (claim_payment_attempt 2 100 "tok_success" open_world)
    × HasNoAttempt open_world (get_payment_attempt 2 100 103 open_world)
    × (((pay_invoice approving alone plain finished 2 100 (some "k") "tok_success" open_world).0
          ≡ err no_such)
        × IsSameShop open_world
            (pay_invoice approving alone plain finished 2 100
              (some "k")
              "tok_success"
              open_world).1)
foreign_invoice_example =
    foreign_invoice approving alone plain finished 2 100 "k" "tok_success" is_given
      (record { faults = λ p w h. h; row = λ p w. refl })
      (λ p v. record { invoices = refl; attempts = refl; tasks = refl }) 103 open_world no_faults
      never_used is_foreign

checks : check_items request.line_items start ≡ (ok tt, start)
unfolding check_items
checks = refl

total-exact_example : total request.line_items ≡ pos 300
total-exact_example = total-exact request.line_items start checks (omega arith)

-- The invoice is voided while its payment is in flight.
abbrev voided_world : World
voided_world = (void_invoice 1 100 waiting_world).1

abbrev late_body : PayResultBody
late_body = record {
  attempt_id = 103;
  invoice_id = 100;
  status = "succeeded";
  failure_code = none;
  psp_ref = some "ref";
}

abbrev late_world : World
late_world = (finalize_payment_attempt 100 103 (approved "ref") voided_world).1

is_due_late : count (is_due_for 103 100) voided_world.db.attempts ≡ 1
unfolding void_invoice pay_invoice is_blank reserve_or_get finalize_invoice create_invoice total
    wrap_i64 ◌+ℤ◌ amount ◌*ℤ◌ parse can_finalize can_void pay_reserved as_str can_accept_payment
is_due_late = refl

is_void : in_state (shop voided_world) 100 "void" ≡ true
unfolding void_invoice pay_invoice is_blank reserve_or_get finalize_invoice create_invoice total
    wrap_i64 ◌+ℤ◌ amount ◌*ℤ◌ parse can_finalize can_void pay_reserved as_str can_accept_payment
is_void = refl

late_ok :
    finalize_payment_attempt 100 103 (approved "ref") voided_world ≡ (ok late_body, late_world)
unfolding void_invoice pay_invoice is_blank reserve_or_get finalize_invoice create_invoice total
    wrap_i64 ◌+ℤ◌ amount ◌*ℤ◌ parse can_finalize can_void pay_reserved as_str can_accept_payment
    finalize_payment_attempt verdict
late_ok = refl

charged_though_void_example :
    (in_state (shop late_world) 100 "void" ≡ true) × (0 < succeeded (shop late_world) 100)
charged_though_void_example =
    charged_though_void 100 103 "ref" voided_world (omega (arith, is_due_late)) is_void late_ok

list_invoices_lem_example :
    ((list_invoices 1 none open_world).0
      ≡ ok (map (full open_world.db) (selected 1 none open_world.db)))
    × IsDesc (λ r. r.created_at) (selected 1 none open_world.db)
    × (count (λ r. r.id == 100) (selected 1 none open_world.db)
        ≡ count
            (λ r. (r.id == 100) && (r.business_id == 1 && passes none r))
            open_world.db.invoices)
list_invoices_lem_example = list_invoices_lem 1 none open_world (λ r. r.id == 100) no_faults refl

succeeded_iff_example :
    (outcome_of (approving null) ≡ approved "ref") ↔ Approves (approving null) "ref"
succeeded_iff_example = succeeded_iff (approving null) "ref"

allows_iff_example : (allows draft void ≡ true) ↔ (draft ⟶ void)
allows_iff_example = allows_iff draft void

start-IsFresh : IsFresh start
start-IsFresh = record { untaken = λ n h. refl; once = λ m n h. ground arith }

enqueue_event-rows_example :
    let (r, u) = enqueue_event 1 "invoice.paid" null start in
    let to_nine : Content → Bool = λ c. c.endpoint_id == 9 in
    (r ≡ ok tt)
    × (u.db ≡ record start.db { deliveries = u.db.deliveries })
    × (count (λ d. to_nine (content d)) u.db.deliveries
        ≡ count
            (λ e. is_subscribed 1 e && to_nine (first_attempt 1 "invoice.paid" null 5 e.id))
            start.db.endpoints
          + count (λ d. to_nine (content d)) start.db.deliveries)
enqueue_event-rows_example =
    enqueue_event-rows 1 "invoice.paid" null start (λ c. c.endpoint_id == 9) refl start-IsFresh

authenticates_iff_example :
    ((from_request_parts str_eq (some "Bearer sk_live_0123456789abcdef") keyed_world).0 ≡ ok 1)
    ↔ IsLetIn str_eq "Bearer sk_live_0123456789abcdef" keyed_world 1
authenticates_iff_example =
    authenticates_iff str_eq "Bearer sk_live_0123456789abcdef" keyed_world 1 refl

-- The key of the example does let in.
key_lets_in :
    (from_request_parts str_eq (some "Bearer sk_live_0123456789abcdef") keyed_world).0 ≡ ok 1
unfolding from_request_parts
key_lets_in = refl

one_invoice : count (λ r. r.id == 100) open_world.db.invoices ≡ 1
unfolding finalize_invoice create_invoice total wrap_i64 ◌+ℤ◌ amount ◌*ℤ◌ parse can_finalize
one_invoice = refl

transitions_spare_others_example :
    (theirs 1 (finalize_invoice 2 100 open_world).1.db ≡ theirs 1 open_world.db)
    × (theirs 1 (void_invoice 2 100 open_world).1.db ≡ theirs 1 open_world.db)
    × (theirs 1 (mark_uncollectible 2 100 open_world).1.db ≡ theirs 1 open_world.db)
transitions_spare_others_example =
    transitions_spare_others 2 1 100 open_world refl (omega (arith, one_invoice))
