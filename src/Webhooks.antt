-- ===== src/Webhooks.antt =====
-- invoice-service/src/webhook_dispatcher.rs: the outbox. An event is one row for each enabled
-- endpoint of the business, written in the transaction of the caller.
pub mod Outbox
pub mod Events
pub mod Dispatch
pub mod Register
use dodo_invoice_service.Base.{
  ℕ, String, Bool, true, false, ◌&&◌, none, some, List, [], ◌∷◌, map, pos, ◌==◌, any, keep,
  if◌then◌else◌,
}
use dodo_invoice_service.Json.{Json}
use dodo_invoice_service.Models.{Uuid, WebhookEndpointRow, WebhookDeliveryRow}
use dodo_invoice_service.Db.{
  Db, World, Exec, Outcome, done, violates, pure, ◌>>=◌, ◌>>◌, statement, or_database_error, query,
  gen_random_uuid,
}

abbrev pub is_enabled : WebhookEndpointRow → Bool
is_enabled e = elim e.disabled_at [ none ↦ true | some _ ↦ false ]

-- SELECT id FROM webhook_endpoints WHERE business_id = $1 AND disabled_at IS NULL
abbrev pub enabled_endpoints : Uuid → Db → List Uuid
enabled_endpoints business_id db =
    map (λ e. e.id) (keep (λ e. e.business_id == business_id && is_enabled e) db.endpoints)

-- The columns that the INSERT leaves out have the defaults of the table.
abbrev pub new_delivery : Uuid → Uuid → Uuid → String → Json → ℕ → WebhookDeliveryRow
new_delivery id endpoint_id business_id event_type payload now = record {
  id = id;
  endpoint_id = endpoint_id;
  business_id = business_id;
  event_type = event_type;
  payload = payload;
  status = "pending";
  attempt_count = pos 0;
  next_attempt_at = now;
  last_error = none;
  created_at = now;
  updated_at = now;
}

unfoldable pub insert_delivery : Uuid → Uuid → String → Json → World → Outcome (Unit {0}) × World
insert_delivery endpoint_id business_id event_type payload w =
    let (id, w') = gen_random_uuid w in
    if any (λ d. d.id == id) w'.db.deliveries then (violates "webhook_deliveries_pkey", w') else (
      done tt,
      record w' {
        db = record w'.db {
          deliveries =
              new_delivery id endpoint_id business_id event_type payload w'.now ∷ w'.db.deliveries;
        };
      },
    )

unfoldable pub enqueue_each : List Uuid → Uuid → String → Json → Exec (Unit {0})
unfolding insert_delivery statement
enqueue_each [] business_id event_type payload = pure tt
enqueue_each (endpoint_id ∷ rest) business_id event_type payload = do
  inserted ← statement (insert_delivery endpoint_id business_id event_type payload)
  or_database_error inserted
  enqueue_each rest business_id event_type payload

unfoldable pub enqueue_event : Uuid → String → Json → Exec (Unit {0})
unfolding enqueue_each query
enqueue_event business_id event_type payload = do
  endpoint_ids ← query (enabled_endpoints business_id)
  enqueue_each endpoint_ids business_id event_type payload
