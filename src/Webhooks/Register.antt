-- ===== src/Webhooks/Register.antt =====
-- invoice-service/src/handlers/webhooks.rs. The random secret, in hex, is a parameter.
pub mod Enabled
use Prim.Native.String.{◌++◌ as str_append}
use text.Mathlib.Text.{starts_with}
use dodo_invoice_service.Base.{String, Bool, not, ◌||◌, none, ◌∷◌, ◌==◌, any, if◌then◌else◌}
use dodo_invoice_service.Error.{StatusCode, bad_request}
use dodo_invoice_service.Models.{Uuid, DateTime, WebhookEndpointRow}
use dodo_invoice_service.Db.{
  World, Exec, Outcome, done, violates, pure, raise_if, ◌>>=◌, ◌>>◌, statement, or_database_error,
  gen_random_uuid,
}

pub record RegisterWebhookRequest : Type 0 where
  pub url : String

pub record RegisterWebhookResponse : Type 0 where
  pub id : Uuid
  pub url : String
  pub secret : String
  pub created_at : DateTime

abbrev pub new_endpoint : Uuid → Uuid → String → String → DateTime → WebhookEndpointRow
new_endpoint id business_id url secret now = record {
  id = id;
  business_id = business_id;
  url = url;
  secret = secret;
  created_at = now;
  disabled_at = none;
}

-- The INSERT, with the primary key of the table.
unfoldable pub insert_endpoint : Uuid → String → String → World → Outcome WebhookEndpointRow × World
insert_endpoint business_id url secret w =
    let (id, w') = gen_random_uuid w in
    let row = new_endpoint id business_id url secret w'.now in
    if any (λ e. e.id == id) w'.db.endpoints
    then (violates "webhook_endpoints_pkey", w')
    else (done row, record w' { db = record w'.db { endpoints = row ∷ w'.db.endpoints } })

abbrev pub is_http : String → Bool
is_http url = starts_with url "http://" || starts_with url "https://"

unfoldable pub register_webhook :
    String → Uuid → RegisterWebhookRequest → Exec (StatusCode × RegisterWebhookResponse)
unfolding statement insert_endpoint
register_webhook secret_hex business_id req = do
  raise_if (not (is_http req.url))
      (bad_request "invalid_webhook_url" "url must start with http:// or https://")
  let secret = str_append "whsec_" secret_hex
  inserted ← statement (insert_endpoint business_id req.url secret)
  row ← or_database_error inserted
  pure
      (201, record { id = row.id; url = row.url; secret = row.secret; created_at = row.created_at })
