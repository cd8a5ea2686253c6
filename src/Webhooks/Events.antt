-- ===== src/Webhooks/Events.antt =====
-- invoice-service/src/webhook_dispatcher.rs: an event in the outbox, row by row but for the ids of the rows.
use dodo_invoice_service.Webhooks.{enabled_endpoints, new_delivery, enqueue_event, is_enabled}
use dodo_invoice_service.Webhooks.Outbox.{outbox, enqueue_event-writes, IsFresh}
use dodo_invoice_service.Base.{
  sym, inr, ◌∙◌, refl, inl, arith, false, ap, Option-cases, ◌∷◌, keep, some, ◌&&◌, ◌+◌, ◌==◌, map,
  none, [], count, ℕ, pos, Option, List, ◌≡◌, ℤ, Bool, String,
}
use dodo_invoice_service.Models.{DateTime, WebhookEndpointRow, WebhookDeliveryRow, Uuid}
use dodo_invoice_service.Json.{Json}
use dodo_invoice_service.Db.{Db, ok, World}

-- A row of webhook_deliveries without its id.
pub record Content : Type 0 where
  pub endpoint_id : Uuid
  pub business_id : Uuid
  pub event_type : String
  pub payload : Json
  pub status : String
  pub attempt_count : ℤ
  pub next_attempt_at : DateTime
  pub last_error : Option String
  pub created_at : DateTime

abbrev pub content : WebhookDeliveryRow → Content
content d = record {
  endpoint_id = d.endpoint_id;
  business_id = d.business_id;
  event_type = d.event_type;
  payload = d.payload;
  status = d.status;
  attempt_count = d.attempt_count;
  next_attempt_at = d.next_attempt_at;
  last_error = d.last_error;
  created_at = d.created_at;
}

-- A delivery that waits for its first attempt, due at once.
abbrev pub first_attempt : Uuid → String → Json → DateTime → Uuid → Content
first_attempt b event_type payload now endpoint_id = record {
  endpoint_id = endpoint_id;
  business_id = b;
  event_type = event_type;
  payload = payload;
  status = "pending";
  attempt_count = pos 0;
  next_attempt_at = now;
  last_error = none;
  created_at = now;
}

-- An endpoint of the business that has not been disabled at any time.
abbrev pub is_subscribed : Uuid → WebhookEndpointRow → Bool
is_subscribed b e = elim e.disabled_at [ none ↦ e.business_id == b | some _ ↦ false ]

module _ (b : Uuid) (event_type : String) (payload : Json) (now : DateTime)
    (p : Content → Bool) where
  count-outbox :
      (es : List Uuid) (uuid_at : ℕ → Uuid) (n : ℕ) (ds : List WebhookDeliveryRow)
      → count (λ d. p (content d)) (outbox es b event_type payload now uuid_at n ds)
        ≡ count (λ e. p (first_attempt b event_type payload now e)) es
          + count (λ d. p (content d)) ds
  count-outbox [] uuid_at n ds = omega arith
  count-outbox (e ∷ es) uuid_at n ds =
      let rest =
        count-outbox es uuid_at (n + 1)
          (new_delivery (uuid_at n) e b event_type payload now ∷ ds) in
      omega (arith, rest)

  count-enabled :
      (es : List WebhookEndpointRow)
      → count
          (λ e. p (first_attempt b event_type payload now e))
          (map (λ e. e.id) (keep (λ e. e.business_id == b && is_enabled e) es))
        ≡ count (λ e. is_subscribed b e && p (first_attempt b event_type payload now e.id)) es
  count-enabled [] = refl
  count-enabled (e ∷ es) = elim (Option-cases e.disabled_at) [
    | inl never ↦ rw never (ground (arith, count-enabled es))
    | inr (time, disabled) ↦ rw disabled (ground (arith, count-enabled es))
  ]

-- If no statement fails and the ids to come are not taken and differ, then an event adds to the outbox, for each
-- endpoint of its business that has no time of disabling, one delivery to it, and for no other endpoint any: for
-- every test of the columns but the id, as many rows pass it as before, and one more for each such endpoint for
-- which a delivery of the event that is due at once, after no attempt, passes it. No other table changes.
pub enqueue_event-rows :
    (b : Uuid) (event_type : String) (payload : Json) (w : World) (p : Content → Bool)
    → w.faults ≡ []
    → IsFresh w
    → let (r, u) = enqueue_event b event_type payload w in
      (r ≡ ok tt)
      × (u.db ≡ record w.db { deliveries = u.db.deliveries })
      × (count (λ d. p (content d)) u.db.deliveries
          ≡ count
              (λ e. is_subscribed b e && p (first_attempt b event_type payload w.now e.id))
              w.db.endpoints
            + count (λ d. p (content d)) w.db.deliveries)
enqueue_event-rows b event_type payload w p f fresh =
    let (good, writes) = enqueue_event-writes b event_type payload w f fresh in
    let u = (enqueue_event b event_type payload w).1 in
    let rows : u.db.deliveries
        ≡ outbox (enabled_endpoints b w.db) b event_type payload w.now w.uuid_at w.drawn
            w.db.deliveries =
      ap (λ (db : Db). db.deliveries) writes in
    (
      good,
      writes ∙ ap (λ ds. record w.db { deliveries = ds }) (sym rows),
      ap (count (λ d. p (content d))) rows
          ∙ count-outbox b event_type payload w.now p (enabled_endpoints b w.db) w.uuid_at w.drawn
              w.db.deliveries
          ∙ ap (λ n. n + count (λ d. p (content d)) w.db.deliveries)
              (count-enabled b event_type payload w.now p w.db.endpoints),
    )
