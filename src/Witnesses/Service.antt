-- ===== src/Witnesses/Service.antt =====
-- The theorems on the start of the service, on the registration of webhooks and on the mock provider at
-- concrete inputs.
use Prim.Native.String.{◌++◌ as str_append}
use dodo_invoice_service.PspClient.{charge as client_charge}
use dodo_invoice_service.Base.{
  ◌+◌, ◌&&◌, count, Bool, List, false, ◌↔◌, String, [], is_blank, ◌≤◌, ltb, eq_refl, true, ◌∷◌, pos,
  refl, none, arith, show, str_eq, ◌==◌, some, ◌≡◌, if◌then◌else◌, parse_unsigned,
}
use dodo_invoice_service.Webhooks.Register.{new_endpoint, register_webhook, RegisterWebhookRequest}
use dodo_invoice_service.Samples.{start}
use dodo_invoice_service.Config.{Env, from_env}
use dodo_invoice_service.Main.{main, Outside, AppState}
use dodo_invoice_service.Main.Starts.{main_iff, Starts, all_steps}
use dodo_invoice_service.MockPsp.{charge}
use dodo_invoice_service.MockPsp.Charges.{expected, mock_psp}
use dodo_invoice_service.MockPsp.Detaches.{only_timeout_detaches}
use dodo_invoice_service.Auth.Secret.{hash_secret, verify_secret, Argon2, IsSound}
use dodo_invoice_service.Auth.{len, from_request_parts}
use dodo_invoice_service.Business.{create_business, CreateBusinessResponse}
use dodo_invoice_service.Business.Issued.{issued_key_lets_in}
use dodo_invoice_service.Boot.{done}
use dodo_invoice_service.Customers.{
  new_customer, create_customer, get_customer, list_customers, CreateCustomerRequest,
}
use dodo_invoice_service.Customers.Listed.{create_customer-listed}
use dodo_invoice_service.Db.Order.Sorted.{IsDesc}
use dodo_invoice_service.Startup.{connect_with_retry, Connected}
use dodo_invoice_service.Startup.Ends.{connect_with_retry-ends, Ending}
use dodo_invoice_service.Config.Numbers.{from_env-show}
use dodo_invoice_service.Db.{ok}
use dodo_invoice_service.Webhooks.{enabled_endpoints}
use dodo_invoice_service.Webhooks.Register.Enabled.{register_webhook-enabled}
use dodo_invoice_service.Models.{Customer}
use dodo_invoice_service.MockPsp as Mock

abbrev set : Env
set name =
    if str_eq name "DATABASE_URL"
    then some "postgres://db"
    else if str_eq name "PORT"
    then some (show 8080)
    else if str_eq name "PSP_BASE_URL"
    then some "http://psp:9000"
    else if str_eq name "PSP_SYNC_WAIT_MS"
    then some (show 250)
    else if str_eq name "PSP_HARD_TIMEOUT_MS"
    then some (show 500)
    else none

from_env-show_example :
    from_env set
    ≡ some (record {
      database_url = "postgres://db";
      port = 8080;
      psp_base_url = "http://psp:9000";
      psp_sync_wait = 250;
      psp_hard_timeout = 500;
    })
from_env-show_example =
    from_env-show set "postgres://db" "http://psp:9000" 8080 250 500 (omega arith) (omega arith)
      (omega arith) refl refl refl refl refl

connect_with_retry-ends_example :
    (c : Connected) × (connect_with_retry (λ k. k == 3) ≡ some c) × Ending (λ k. k == 3) c
connect_with_retry-ends_example = connect_with_retry-ends (λ k. k == 3)

register_webhook-enabled_example :
    let req : RegisterWebhookRequest = record { url = "https://example.org/hook" } in
    let secret = str_append "whsec_" "00ff" in
    let (r, u) = register_webhook "00ff" 1 req start in
    (r ≡ ok (201, record { id = 100; url = req.url; secret = secret; created_at = 5 }))
    × (u.db
        ≡ record start.db { endpoints = new_endpoint 100 1 req.url secret 5 ∷ start.db.endpoints })
    × (enabled_endpoints 1 u.db ≡ 100 ∷ enabled_endpoints 1 start.db)
register_webhook-enabled_example =
    register_webhook-enabled "00ff" 1 1 (record { url = "https://example.org/hook" }) start refl
      refl refl

is_long : 12 ≤ len "0123456789abcdef"
unfolding len
is_long = omega arith

name_given : is_blank "Acme" ≡ false
unfolding is_blank
name_given = refl

abbrev acme : CreateBusinessResponse
acme = record {
  business_id = 100;
  name = "Acme";
  api_key = str_append "sk_live_" "0123456789abcdef";
}

-- A hash that is the secret itself.
abbrev transparent : Argon2 String
transparent = record {
  hash_password = λ secret salt. some secret;
  to_string = λ h. h;
  read_hash = λ h. some h;
  verify_password = str_eq;
}

transparent-IsSound : IsSound transparent
transparent-IsSound = record {
  reads = λ secret salt h made. refl;
  verifies = λ secret salt h made. ground (arith, made, eq_refl secret);
}

secret_hash : (secret : String) → hash_secret transparent "salt" secret ≡ some secret
unfolding hash_secret
secret_hash secret = refl

issued_key_lets_in_example :
    let (r, u) = create_business (λ secret. secret) "0123456789abcdef" "Acme" start in
    (r ≡ ok (201, acme))
    × ((from_request_parts
          (verify_secret transparent)
          (some (str_append "Bearer " acme.api_key))
          u).0
        ≡ ok 100)
issued_key_lets_in_example =
    issued_key_lets_in transparent "salt" "0123456789abcdef" "Acme" (λ secret. secret) start
      transparent-IsSound secret_hash is_long name_given refl refl refl refl

-- The third connection succeeds, and so does all else.
abbrev outside : Outside
outside = record {
  connects = λ url k. k == 2;
  migrates = λ db. true;
  builds_psp_client = true;
  builds_dispatcher_client = true;
  binds = λ port. true;
}

abbrev state : AppState
state = record {
  db = 2;
  psp = record { timeout = 500; base_url = "http://psp:9000" };
  psp_sync_wait = 250;
}

main_iff_example :
    ((main set outside []).0 ≡ done (state, 8080))
    ↔ (Starts set outside state 8080 × ((main set outside []).1 ≡ all_steps 2 8080))
main_iff_example = main_iff set outside state 8080

does_start : (main set outside []).0 ≡ done (state, 8080)
unfolding main from_env connect_with_retry parse_unsigned show
does_start = refl

-- Only what has to be set.
abbrev unset : Env
unset name = if str_eq name "DATABASE_URL" then some "postgres://db" else none

abbrev default_state : AppState
default_state = record {
  db = 2;
  psp = record { timeout = 35_000; base_url = "http://localhost:9000" };
  psp_sync_wait = 3_000;
}

default_start : (main unset outside []).0 ≡ done (default_state, 8080)
unfolding main from_env connect_with_retry parse_unsigned show
default_start = refl

abbrev nothing : Env
nothing name = none

abbrev mock_state : Mock.AppState
mock_state = record { timeout_delay = 30_000 }

mock_start : (Mock.main nothing (λ port. true) []).0 ≡ done (mock_state, 9000)
unfolding Mock.main
mock_start = refl

only_timeout_detaches_example :
    (ltb 3_000 (charge 30_000 "ref" "tok_timeout").delay ≡ str_eq "tok_timeout" "tok_timeout")
    × (client_charge
          (mock_psp 35_000 "timed out" (λ status. "500") 30_000 "ref")
          (pos 300)
          "tok_timeout"
        ≡ expected false "timed out" (λ status. "500") "ref" "tok_timeout")
only_timeout_detaches_example =
    only_timeout_detaches unset nothing outside (λ port. true) default_state mock_state 8080 9000
      (pos 300) "timed out" "ref" "tok_timeout" (λ status. "500") refl refl refl default_start
      mock_start

abbrev customer_request : CreateCustomerRequest
customer_request = record { name = "Bob"; email = "bob@example.com" }

is_named : is_blank customer_request.name ≡ false
unfolding is_blank
is_named = refl

is_mailed : is_blank customer_request.email ≡ false
unfolding is_blank
is_mailed = refl

create_customer-listed_example :
    let row = new_customer 100 1 customer_request 5 in
    let (r, u) = create_customer 1 customer_request start in
    (r ≡ ok (201, row))
    × ((get_customer 1 row.id u).0 ≡ ok row)
    × ((before after : List Customer) × ((list_customers 2 start).0 ≡ ok before)
        × ((list_customers 2 u).0 ≡ ok after)
        × IsDesc (λ c. c.created_at) after
        × ((p : Customer → Bool)
            → count p after ≡ (if 1 == 2 && p row then 1 else 0) + count p before))
create_customer-listed_example =
    create_customer-listed 1 2 customer_request start is_named is_mailed refl refl
