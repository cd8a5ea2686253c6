-- ===== src/Witnesses/Api.antt =====
-- The theorems on the whole API at concrete inputs: an invoice is created, finalized and paid by requests.
use dodo_invoice_service.Samples.{
  waiting, posting, unlocked, plain, unreachable, alone, signer, approving, keyed_world,
  request as sample_request,
}
use dodo_invoice_service.Router.Runs.{
  tick, dispatcher_never_panics, at_most_one_charge_of_api, Run, start, request,
}
use dodo_invoice_service.Invoices.Create.{create_invoice, total, amount}
use dodo_invoice_service.Invoices.Transition.{finalize_invoice}
use dodo_invoice_service.StateMachine.{parse, can_finalize, as_str, can_accept_payment}
use dodo_invoice_service.Payments.Pay.{pay_invoice, pay_reserved, finished}
use dodo_invoice_service.Idempotency.{reserve_or_get}
use dodo_invoice_service.Router.{
  handle_as, build_router, Services, Extractors, Request, serve, post,
}
use dodo_invoice_service.Base.{
  ◌==◌, pos, any, arith, wrap_i64, ◌+ℤ◌, ◌*ℤ◌, is_blank, false, ◌≤◌, refl, [], ◌+◌, if◌then◌else◌,
  ◌∷◌, ◌≡◌, str_eq, count, String, List, none, some,
}
use dodo_invoice_service.Error.{bad_request, new, AppError}
use dodo_invoice_service.Router.Access.{serve-needs_key, Refused}
use dodo_invoice_service.Webhooks.Dispatch.{due, dispatch_due_batch, is_panic}
use dodo_invoice_service.Auth.{from_request_parts}
use dodo_invoice_service.Db.{err, ok, World}
use dodo_invoice_service.Lifecycle.Invariant.{succeeded, pending}
use dodo_invoice_service.Router.Disjoint.{at_most_one_route, serves}
use dodo_invoice_service.Lifecycle.{shop}
use dodo_invoice_service.Models.{WebhookDeliveryRow}
use dodo_invoice_service.Webhooks.Dispatch.Progress.{IsHealthy}
use dodo_invoice_service.Router.Terms.{Terms, terms_of}
use dodo_invoice_service.Router.Bills.{bill_never_changes}
use dodo_invoice_service.Invoices.{line_items_of}
use dodo_invoice_service.Router.Final.{never_sent_again, row_of}

abbrev extractors : Extractors
extractors = record {
  read_uuid = λ t. (if str_eq t "100" then some 100 else none);
  state_filter = λ q. some none;
  business_name = λ t. some t;
  customer = λ t. none;
  invoice = λ t. some sample_request;
  card_token = λ t. some t;
  webhook = λ t. some (record { url = t });
  rejection = bad_request "invalid_request" "";
}

abbrev services : Services
services = record {
  psp = approving;
  others = alone;
  crypto = plain;
  race = finished;
  verify_secret = str_eq;
  hash_secret = λ t. t;
  secret_hex = "00ff";
}

abbrev posted : List String → String → Request
posted path body = record {
  method = post;
  path = path;
  query = "";
  authorization = some "Bearer sk_live_0123456789abcdef";
  idempotency_key = some "k";
  body = body;
}

abbrev create_request : Request
create_request = posted ("invoices" ∷ []) ""

abbrev finalize_request : Request
finalize_request = posted ("invoices" ∷ "100" ∷ "finalize" ∷ []) ""

abbrev pay_request : Request
pay_request = posted ("invoices" ∷ "100" ∷ "pay" ∷ []) "tok_success"

abbrev invoiced : World
invoiced = (serve extractors services create_request keyed_world).1

abbrev finalized : World
finalized = (serve extractors services finalize_request invoiced).1

abbrev settled : World
settled = (serve extractors services pay_request finalized).1

paying : Run keyed_world settled
paying =
    request extractors services pay_request (λ p v. start)
      (request extractors services finalize_request (λ p v. start)
        (request extractors services create_request (λ p v. start) start))

-- The request for a payment does get through.
is_answered : (serve extractors services pay_request finalized).0 ≡ ok 200
unfolding serve handle_as create_invoice total wrap_i64 ◌+ℤ◌ amount ◌*ℤ◌ finalize_invoice parse
    can_finalize pay_invoice is_blank reserve_or_get pay_reserved as_str can_accept_payment
is_answered = refl

at_most_one_charge_of_api_example : pending (shop settled) 100 + succeeded (shop settled) 100 ≤ 1
at_most_one_charge_of_api_example = at_most_one_charge_of_api 100 refl paying

dispatcher_never_panics_example :
    is_panic (dispatch_due_batch signer unreachable unlocked settled).0 ≡ false
dispatcher_never_panics_example = dispatcher_never_panics signer unreachable unlocked refl paying

abbrev missing_key : AppError
missing_key = new 401 "missing_api_key" "missing Authorization header"

abbrev keyless : Request
keyless = record create_request { authorization = none }

is_refused : (from_request_parts str_eq keyless.authorization keyed_world).0 ≡ err missing_key
unfolding from_request_parts
is_refused = refl

serve-needs_key_example :
    Refused keyed_world missing_key (serve extractors services keyless keyed_world)
serve-needs_key_example =
    serve-needs_key extractors services keyless keyed_world missing_key refl is_refused

at_most_one_route_example : count (serves ("invoices" ∷ "100" ∷ "pay" ∷ [])) build_router ≤ 1
at_most_one_route_example = at_most_one_route ("invoices" ∷ "100" ∷ "pay" ∷ [])

abbrev open_terms : Terms
open_terms = record {
  business_id = 1;
  customer_id = 7;
  currency = "USD";
  total_cents = pos 300;
  due_date = none;
  created_at = 5;
}

has_terms : terms_of 100 finalized.db.invoices ≡ some open_terms
unfolding serve handle_as create_invoice total wrap_i64 ◌+ℤ◌ amount ◌*ℤ◌ finalize_invoice parse
    can_finalize
has_terms = refl

bill_never_changes_example :
    (terms_of 100 settled.db.invoices ≡ some open_terms)
    × (line_items_of 100 settled.db ≡ line_items_of 100 finalized.db)
bill_never_changes_example =
    bill_never_changes 100 open_terms has_terms
      (request extractors services pay_request (λ p v. start) start)

abbrev delivery : WebhookDeliveryRow
delivery = record waiting { status = "succeeded" }

abbrev sent_world : World
sent_world = record posting { db = record posting.db { deliveries = delivery ∷ [] } }

abbrev ticked : World
ticked = (dispatch_due_batch signer unreachable unlocked sent_world).1

sent-IsHealthy : IsHealthy sent_world.db.deliveries
sent-IsHealthy = record { well = refl; unique = λ k. ground arith }

never_sent_again_example :
    (row_of 50 ticked.db.deliveries ≡ some delivery)
    × (any (λ e. e.id == 50) (due unlocked ticked) ≡ false)
never_sent_again_example =
    never_sent_again 50 delivery refl unlocked sent-IsHealthy refl
      (tick signer unreachable unlocked start)
