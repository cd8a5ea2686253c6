-- ===== src/Webhooks/Register/Enabled.antt =====
-- handlers/webhooks.rs: what register_webhook stores and answers, and whose events go to the endpoint.
use Prim.Native.String.{◌++◌ as str_append}
use dodo_invoice_service.Base.{
  inr, inl, Bool-cases, String, ◌≡◌, true, false, [], ◌∷◌, arith, ◌==◌, any, if◌then◌else◌,
}
use dodo_invoice_service.Models.{Uuid}
use dodo_invoice_service.Db.{World, ok}
use dodo_invoice_service.Webhooks.{enabled_endpoints}
use dodo_invoice_service.Webhooks.Register.{
  RegisterWebhookRequest, RegisterWebhookResponse, new_endpoint, is_http, register_webhook,
}

-- If the URL is one of http or https, no statement fails and the next id is not taken, then an endpoint with
-- the next id is stored, its secret as plain text; the response shows the same secret; and the events of the
-- business, and of no other, go to that endpoint too.
pub register_webhook-enabled :
    (secret_hex : String) (b other : Uuid) (req : RegisterWebhookRequest) (w : World)
    → is_http req.url ≡ true
    → w.faults ≡ []
    → any (λ e. e.id == w.uuid_at w.drawn) w.db.endpoints ≡ false
    → let id = w.uuid_at w.drawn in
      let secret = str_append "whsec_" secret_hex in
      let resp : RegisterWebhookResponse = record {
        id = id;
        url = req.url;
        secret = secret;
        created_at = w.now;
      } in
      let (r, u) = register_webhook secret_hex b req w in
      (r ≡ ok (201, resp))
      × (u.db ≡ record w.db { endpoints = new_endpoint id b req.url secret w.now ∷ w.db.endpoints })
      × (enabled_endpoints other u.db ≡ (
          if b == other then id ∷ enabled_endpoints other w.db else enabled_endpoints other w.db))
unfolding register_webhook
register_webhook-enabled secret_hex b other req w http f fresh = elim (Bool-cases (b == other)) [
  | inl same ↦ rw same (ground arith)
  | inr differ ↦ rw differ (ground arith)
]
