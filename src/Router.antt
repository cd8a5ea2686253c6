-- ===== src/Router.antt =====
-- invoice-service/src/lib.rs: `build_router`, and what a request of the API comes to: axum's choice of a
-- route, the extractors in the order of the handler's arguments, the handler, and the status of its response.
pub mod Reads
pub mod Aside
pub mod Rules
pub mod Ticks
pub mod Unseen
pub mod Deliveries
pub mod Statements
pub mod Paying
pub mod Goes
pub mod Requests
pub mod Histories
pub mod Runs
pub mod Access
pub mod Disjoint
pub mod Terms
pub mod Final
pub mod Keys
pub mod Waits
pub mod Bills
pub mod Orphans
pub mod Polls
pub mod Answers
pub mod Billing
use dodo_invoice_service.Base.{
  str_eq, if◌then◌else◌, String, Option, none, some, List, [], ◌∷◌, Bool,
}
use dodo_invoice_service.PspClient.{Psp}
use dodo_invoice_service.Models.{CreateInvoiceRequest, Uuid}
use dodo_invoice_service.Auth.{from_request_parts}
use dodo_invoice_service.Db.{ok_or, ◌>>=◌, pure, Exec}
use dodo_invoice_service.Customers.{
  get_customer, list_customers, create_customer, CreateCustomerRequest,
}
use dodo_invoice_service.Error.{AppError, StatusCode}
use dodo_invoice_service.Idempotency.{Crypto, Others}
use dodo_invoice_service.Webhooks.Register.{register_webhook, RegisterWebhookRequest}
use dodo_invoice_service.Payments.Pay.{pay_invoice, Race}
use dodo_invoice_service.Business.{create_business}
use dodo_invoice_service.Invoices.Create.{create_invoice}
use dodo_invoice_service.Invoices.Read.{get_invoice, list_invoices}
use dodo_invoice_service.Invoices.Transition.{mark_uncollectible, void_invoice, finalize_invoice}
use dodo_invoice_service.Payments.Attempts.{get_payment_attempt}

-- Requests of other methods are left out.
pub data Method : Type 0 where
  get post : Method

-- The handlers that take AuthedBusiness, by the method and the route they stand at.
pub data BusinessHandler : Type 0 where
  post_customers get_customers get_customer_id : BusinessHandler
  post_invoices get_invoices get_invoice_id : BusinessHandler
  post_finalize post_void post_mark_uncollectible post_pay : BusinessHandler
  get_payment_attempt_id post_webhook_endpoints : BusinessHandler

pub data Handler : Type 0 where
  get_health post_businesses : Handler
  of_business : BusinessHandler → Handler

-- A segment of the path of a route: a literal one, or `:id`.
pub data Segment : Type 0 where
  literal : String → Segment
  capture : Segment

pub record Route : Type 0 where
  pub path : List Segment
  pub on_get : Option Handler
  pub on_post : Option Handler

abbrev both : List Segment → Handler → Handler → Route
both path p g = record { path = path; on_get = some g; on_post = some p }

abbrev pub get_only : List Segment → Handler → Route
get_only path g = record { path = path; on_get = some g; on_post = none }

abbrev pub post_only : List Segment → Handler → Route
post_only path p = record { path = path; on_get = none; on_post = some p }

abbrev invoice_path : List Segment → List Segment
invoice_path rest = literal "invoices" ∷ capture ∷ rest

abbrev pub build_router : List Route
build_router =
    get_only (literal "health" ∷ []) get_health
    ∷ post_only (literal "businesses" ∷ []) post_businesses
    ∷ both (literal "customers" ∷ []) (of_business post_customers) (of_business get_customers)
    ∷ get_only (literal "customers" ∷ capture ∷ []) (of_business get_customer_id)
    ∷ both (literal "invoices" ∷ []) (of_business post_invoices) (of_business get_invoices)
    ∷ get_only (invoice_path []) (of_business get_invoice_id)
    ∷ post_only (invoice_path (literal "finalize" ∷ [])) (of_business post_finalize)
    ∷ post_only (invoice_path (literal "void" ∷ [])) (of_business post_void)
    ∷ post_only (invoice_path (literal "mark-uncollectible" ∷ []))
        (of_business post_mark_uncollectible)
    ∷ post_only (invoice_path (literal "pay" ∷ [])) (of_business post_pay)
    ∷ get_only (invoice_path (literal "payment-attempts" ∷ capture ∷ []))
        (of_business get_payment_attempt_id)
    ∷ post_only (literal "webhook-endpoints" ∷ []) (of_business post_webhook_endpoints)
    ∷ []

-- What the `:id`s of a route stand for in a path, none where the path is not one of the route. The path is
-- its list of segments, of which an empty one is no id.
unfoldable pub captured : List Segment → List String → Option (List String)
captured [] [] = some []
captured [] (_ ∷ _) = none
captured (_ ∷ _) [] = none
captured (literal name ∷ segments) (s ∷ path) =
    let rest = captured segments path in if str_eq name s then rest else none
captured (capture ∷ segments) (s ∷ path) =
    let rest : Option (List String) = elim (captured segments path) [
      | none ↦ none
      | some ids ↦ some (s ∷ ids)
    ] in
    if str_eq "" s then none else rest

-- A request, as far as a route and the extractors look at it. The query and the body are texts.
pub record Request : Type 0 where
  pub method : Method
  pub path : List String
  pub query : String
  pub authorization : Option String
  pub idempotency_key : Option String
  pub body : String

pub data Matched : Type 0 where
  no_route : Matched
  method_not_allowed : Matched
  handled_by : Handler → List String → Matched

abbrev pub on_method : Method → Route → Option Handler
on_method get route = route.on_get
on_method post route = route.on_post

abbrev pub at_route : Method → Route → List String → Matched
at_route method route ids = elim (on_method method route) [
  | none ↦ method_not_allowed
  | some h ↦ handled_by h ids
]

-- The route that a path is one of, in the order of `build_router`.
unfoldable pub matched : List Route → Method → List String → Matched
unfolding captured
matched [] method path = no_route
matched (route ∷ routes) method path =
    let others = matched routes method path in
    elim (captured route.path path) [ none ↦ others | some ids ↦ at_route method route ids ]

-- What uuid, serde_json and axum's extractors make of an id, a query and a body, none where they reject it,
-- and the response of axum to that.
pub record Extractors : Type 0 where
  pub read_uuid : String → Option Uuid
  pub state_filter : String → Option (Option String)
  pub business_name : String → Option String
  pub customer : String → Option CreateCustomerRequest
  pub invoice : String → Option CreateInvoiceRequest
  pub card_token : String → Option String
  pub webhook : String → Option RegisterWebhookRequest
  pub rejection : AppError

-- The parameters of the handlers for one request.
pub record Services : Type 0 where
  pub psp : Psp
  pub others : Others
  pub crypto : Crypto
  pub race : Race
  pub verify_secret : String → String → Bool
  pub hash_secret : String → String
  pub secret_hex : String

-- `Path<Uuid>`
abbrev pub one_id : Extractors → List String → Option Uuid
one_id x (a ∷ []) = x.read_uuid a
one_id x _ = none

-- `Path<(Uuid, Uuid)>`
abbrev pub two_ids : Extractors → List String → Option (Uuid × Uuid)
two_ids x (a ∷ b ∷ []) = elim (x.read_uuid a) [
  | none ↦ none
  | some i ↦ elim (x.read_uuid b) [ none ↦ none | some j ↦ some (i, j) ]
]
two_ids x _ = none

-- A handler answers 200 with a value, or the status that it gives.
abbrev pub as_ok : {A : Type 0} → Exec A → Exec StatusCode
as_ok m = m >>= λ a. pure 200

abbrev pub with_status : {A : Type 0} → Exec (StatusCode × A) → Exec StatusCode
with_status m = m >>= λ a. pure a.0

module _ (x : Extractors) (s : Services) where
  -- The handlers of a business, after the extractor AuthedBusiness.
  unfoldable pub handle_as : Uuid → BusinessHandler → List String → Request → Exec StatusCode
  handle_as b post_customers ids req = do
    body ← ok_or (x.customer req.body) x.rejection
    with_status (create_customer b body)
  handle_as b get_customers ids req = as_ok (list_customers b)
  handle_as b get_customer_id ids req = do
    id ← ok_or (one_id x ids) x.rejection
    as_ok (get_customer b id)
  handle_as b post_invoices ids req = do
    body ← ok_or (x.invoice req.body) x.rejection
    with_status (create_invoice b body)
  handle_as b get_invoices ids req = do
    state_filter ← ok_or (x.state_filter req.query) x.rejection
    as_ok (list_invoices b state_filter)
  handle_as b get_invoice_id ids req = do
    id ← ok_or (one_id x ids) x.rejection
    as_ok (get_invoice b id)
  handle_as b post_finalize ids req = do
    id ← ok_or (one_id x ids) x.rejection
    as_ok (finalize_invoice b id)
  handle_as b post_void ids req = do
    id ← ok_or (one_id x ids) x.rejection
    as_ok (void_invoice b id)
  handle_as b post_mark_uncollectible ids req = do
    id ← ok_or (one_id x ids) x.rejection
    as_ok (mark_uncollectible b id)
  handle_as b post_pay ids req = do
    id ← ok_or (one_id x ids) x.rejection
    card_token ← ok_or (x.card_token req.body) x.rejection
    with_status (pay_invoice s.psp s.others s.crypto s.race b id req.idempotency_key card_token)
  handle_as b get_payment_attempt_id ids req = do
    both_ids ← ok_or (two_ids x ids) x.rejection
    as_ok (get_payment_attempt b both_ids.0 both_ids.1)
  handle_as b post_webhook_endpoints ids req = do
    body ← ok_or (x.webhook req.body) x.rejection
    with_status (register_webhook s.secret_hex b body)

  unfoldable pub handle : Handler → List String → Request → Exec StatusCode
  unfolding from_request_parts
  handle get_health ids req = pure 200
  handle post_businesses ids req = do
    name ← ok_or (x.business_name req.body) x.rejection
    with_status (create_business s.hash_secret s.secret_hex name)
  handle (of_business h) ids req = do
    b ← from_request_parts s.verify_secret req.authorization
    handle_as b h ids req

  abbrev pub answer : Matched → Request → Exec StatusCode
  answer no_route req = pure 404
  answer method_not_allowed req = pure 405
  answer (handled_by h ids) req = handle h ids req

  unfoldable pub serve : Request → Exec StatusCode
  unfolding matched handle
  serve req = answer (matched build_router req.method req.path) req
