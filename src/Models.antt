-- ===== src/Models.antt =====
-- invoice-service/src/models: the rows of the tables, the requests and the responses. The tables
-- without a Rust struct (api_keys, idempotency_keys, webhook_deliveries) follow
-- migrations/0001_init.sql.
use dodo_invoice_service.Base.{ℕ, String, Option, List, ℤ}
use dodo_invoice_service.Json.{Json}
use dodo_invoice_service.Error.{StatusCode}

-- Ids are only compared; times are seconds, and dates are days, both counted from a fixed start.
abbrev pub Uuid : Type 0
Uuid = ℕ

abbrev pub DateTime : Type 0
DateTime = ℕ

abbrev pub NaiveDate : Type 0
NaiveDate = ℕ

pub record InvoiceRow : Type 0 where
  pub id : Uuid
  pub business_id : Uuid
  pub customer_id : Uuid
  pub state : String
  pub currency : String
  pub total_cents : ℤ
  pub due_date : Option NaiveDate
  pub created_at : DateTime
  pub updated_at : DateTime

pub record LineItemRow : Type 0 where
  pub id : Uuid
  pub invoice_id : Uuid
  pub description : String
  pub quantity : ℤ
  pub unit_amount_cents : ℤ
  pub amount_cents : ℤ

pub record LineItemInput : Type 0 where
  pub description : String
  pub quantity : ℤ
  pub unit_amount_cents : ℤ

pub record CreateInvoiceRequest : Type 0 where
  pub customer_id : Uuid
  pub line_items : List LineItemInput
  pub due_date : Option NaiveDate

pub record InvoiceResponse : Type 0 where
  pub id : Uuid
  pub business_id : Uuid
  pub customer_id : Uuid
  pub state : String
  pub currency : String
  pub total_cents : ℤ
  pub due_date : Option NaiveDate
  pub line_items : List LineItemRow
  pub created_at : DateTime
  pub updated_at : DateTime

unfoldable pub from_row : InvoiceRow → List LineItemRow → InvoiceResponse
from_row row line_items = record {
  id = row.id;
  business_id = row.business_id;
  customer_id = row.customer_id;
  state = row.state;
  currency = row.currency;
  total_cents = row.total_cents;
  due_date = row.due_date;
  line_items = line_items;
  created_at = row.created_at;
  updated_at = row.updated_at;
}

pub record PaymentAttemptRow : Type 0 where
  pub id : Uuid
  pub invoice_id : Uuid
  pub status : String
  pub card_token : String
  pub failure_code : Option String
  pub psp_ref : Option String
  pub created_at : DateTime
  pub updated_at : DateTime

pub record Customer : Type 0 where
  pub id : Uuid
  pub business_id : Uuid
  pub name : String
  pub email : String
  pub created_at : DateTime

pub record WebhookEndpointRow : Type 0 where
  pub id : Uuid
  pub business_id : Uuid
  pub url : String
  pub secret : String
  pub created_at : DateTime
  pub disabled_at : Option DateTime

pub record WebhookDeliveryRow : Type 0 where
  pub id : Uuid
  pub endpoint_id : Uuid
  pub business_id : Uuid
  pub event_type : String
  pub payload : Json
  pub status : String
  pub attempt_count : ℤ
  pub next_attempt_at : DateTime
  pub last_error : Option String
  pub created_at : DateTime
  pub updated_at : DateTime

pub record IdempotencyRow : Type 0 where
  pub business_id : Uuid
  pub idempotency_key : String
  pub request_hash : String
  pub response_status : Option StatusCode
  pub response_body : Option Json
  pub invoice_id : Option Uuid
  pub payment_attempt_id : Option Uuid

pub record BusinessRow : Type 0 where
  pub id : Uuid
  pub name : String

pub record ApiKeyRow : Type 0 where
  pub id : Uuid
  pub business_id : Uuid
  pub key_prefix : String
  pub key_hash : String
  pub revoked_at : Option DateTime

-- What the dispatcher posts: the URL, the headers X-Webhook-Id, X-Webhook-Event and
-- X-Webhook-Signature, and the body.
pub record WebhookPost : Type 0 where
  pub url : String
  pub webhook_id : Uuid
  pub webhook_event : String
  pub webhook_signature : String
  pub body : String
