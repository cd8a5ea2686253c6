-- ===== src/Samples.antt =====
-- A small world for the tests and the witnesses, and some runs of the handlers in it.
use dodo_invoice_service.Base.{
  Bool, false, ℕ, ◌+◌, String, none, some, str_eq, any, ◌==◌, if◌then◌else◌, [], ◌∷◌, pos, ℤ,
}
use dodo_invoice_service.Json.{Json, null, text, obj, end, field}
use dodo_invoice_service.Models.{
  Customer, LineItemInput, CreateInvoiceRequest, WebhookEndpointRow, WebhookDeliveryRow,
  WebhookPost, Uuid,
}
use dodo_invoice_service.Db.{Db, World, Result, ok, err, ◌>>=◌}
use dodo_invoice_service.PspClient.{Psp, responded, parsed}
use dodo_invoice_service.Idempotency.{Crypto, Others}
use dodo_invoice_service.Invoices.Create.{create_invoice}
use dodo_invoice_service.Invoices.Transition.{finalize_invoice}
use dodo_invoice_service.Payments.Pay.{Race, pay_invoice}
use dodo_invoice_service.Webhooks.Dispatch.{Signer, Answer, send_failed}

abbrev pub customer : Customer
customer = record {
  id = 7;
  business_id = 1;
  name = "Ada";
  email = "ada@example.com";
  created_at = 0;
}

abbrev pub endpoint : WebhookEndpointRow
endpoint = record {
  id = 9;
  business_id = 1;
  url = "https://example.com";
  secret = "whsec_0";
  created_at = 0;
  disabled_at = none;
}

abbrev pub empty_db : Db
empty_db = record {
  businesses = [];
  api_keys = [];
  customers = customer ∷ [];
  invoices = [];
  line_items = [];
  attempts = [];
  idempotency_keys = [];
  endpoints = endpoint ∷ [];
  deliveries = [];
}

abbrev pub start : World
start = record {
  db = empty_db;
  now = 5;
  uuid_at = λ n. n + 100;
  drawn = 0;
  faults = [];
  tasks = [];
  sent = [];
}

abbrev pub item : ℤ → ℤ → LineItemInput
item quantity unit_amount_cents = record {
  description = "work";
  quantity = quantity;
  unit_amount_cents = unit_amount_cents;
}

abbrev pub request : CreateInvoiceRequest
request = record { customer_id = 7; line_items = item (pos 2) (pos 150) ∷ []; due_date = none }

-- Stand-ins for serde_json, sha2 and hex that tell apart the requests of the tests.
abbrev token_of : Json → String
token_of (obj (field _ _ (field _ (text token) _))) = token
token_of _ = ""

abbrev pub plain : Crypto
plain = record {
  json_text = token_of;
  sha256 = λ s. (if str_eq s "tok_success" then 1 else 2) ∷ [];
  hex_encode = λ b. if any (λ n. n == 1) b then "hash1" else "hash2";
}

abbrev pub approving : Psp
approving _ =
    responded 200 "200 OK"
      (parsed (obj (field "status" (text "succeeded") (field "psp_ref" (text "ref") end))) "")

abbrev pub alone : Others
alone _ w = w

abbrev pub opened : World
opened = ((do created ← create_invoice 1 request; finalize_invoice 1 100) start).1

abbrev pub pay : Race → String → World → Result (ℕ × Json) × World
pay race key = pay_invoice approving alone plain race 1 100 (some key) "tok_success"

unfoldable pub status_of : {A : Type 0} → Result A → ℕ
status_of (ok a) = 200
status_of (err e) = e.status

-- A delivery that has failed once.
abbrev pub waiting : WebhookDeliveryRow
waiting = record {
  id = 50;
  endpoint_id = 9;
  business_id = 1;
  event_type = "invoice.paid";
  payload = null;
  status = "pending";
  attempt_count = pos 1;
  next_attempt_at = 3;
  last_error = some "receiver returned HTTP 503";
  created_at = 0;
  updated_at = 0;
}

abbrev pub posting : World
posting = record start { db = record empty_db { deliveries = waiting ∷ [] } }

abbrev pub signer : Signer
signer = record {
  json_text = λ j. "null";
  hmac_sha256 = λ key message. (if str_eq key "whsec_0" then 10 else 11) ∷ [];
  hex_encode = λ b. if any (λ n. n == 10) b then "0a" else "0b";
}

abbrev pub unreachable : WebhookPost → Answer
unreachable post = send_failed "connection refused"

abbrev pub unlocked : Uuid → Bool
unlocked id = false

-- With an API key of business 1, sk_live_0123456789abcdef.
abbrev pub keyed_world : World
keyed_world = record start {
  db = record start.db {
    api_keys =
        record {
          id = 3;
          business_id = 1;
          key_prefix = "0123456789ab";
          key_hash = "0123456789abcdef";
          revoked_at = none;
        }
        ∷ [];
  };
}
