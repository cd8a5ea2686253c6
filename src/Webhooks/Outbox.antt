-- ===== src/Webhooks/Outbox.antt =====
-- invoice-service/src/webhook_dispatcher.rs: what `enqueue_event` writes, as a plain recursion.
use dodo_invoice_service.Base.{
  refl, ◌<◌, false, any, ◌==◌, Bool, ◌≤◌, ℕ, ◌+◌, String, ◌≡◌, List, [], ◌∷◌, arith,
}
use dodo_invoice_service.Json.{Json}
use dodo_invoice_service.Models.{Uuid, WebhookDeliveryRow}
use dodo_invoice_service.Db.{ok, later, World}
use dodo_invoice_service.Db.Ends.{Ends}
use dodo_invoice_service.Webhooks.{enabled_endpoints, new_delivery, enqueue_each, enqueue_event}

-- The deliveries after one row for each endpoint, with the ids from number `n` on.
abbrev pub outbox :
    List Uuid
    → Uuid
    → String
    → Json
    → ℕ
    → (ℕ → Uuid)
    → ℕ
    → List WebhookDeliveryRow
    → List WebhookDeliveryRow
outbox [] b event_type payload now uuid_at n ds = ds
outbox (e ∷ es) b event_type payload now uuid_at n ds =
    outbox es b event_type payload now uuid_at (n + 1)
      (new_delivery (uuid_at n) e b event_type payload now ∷ ds)

-- What `enqueue_each` has done if it ends well: no table but the deliveries has changed.
pub record Enqueued (es : List Uuid) (b : Uuid) (event_type : String) (payload : Json) (v u : World)
    : Type 0 where
  pub db : u.db ≡ record v.db {
    deliveries = outbox es b event_type payload v.now v.uuid_at v.drawn v.db.deliveries;
  }
  pub tasks : u.tasks ≡ v.tasks
  pub now : u.now ≡ v.now

-- The world after one INSERT.
abbrev pub written : Uuid → Uuid → String → Json → World → World
written e b event_type payload v = record v {
  faults = later v.faults;
  drawn = v.drawn + 1;
  db = record v.db {
    deliveries = new_delivery (v.uuid_at v.drawn) e b event_type payload v.now ∷ v.db.deliveries;
  };
}

pub enqueue_each-Enqueued :
    (es : List Uuid) (b : Uuid) (event_type : String) (payload : Json) (v : World)
    → Ends (enqueue_each es b event_type payload v) (λ _ u. Enqueued es b event_type payload v u)
unfolding enqueue_each
enqueue_each-Enqueued [] b event_type payload v = ground arith
enqueue_each-Enqueued (e ∷ es) b event_type payload v =
    ground (arith, enqueue_each-Enqueued es b event_type payload (written e b event_type payload v))

-- The event of a caller reaches the outbox in its transaction: one row for each enabled endpoint.
pub enqueue_event-Enqueued :
    (b : Uuid) (event_type : String) (payload : Json) (v : World)
    → Ends
        (enqueue_event b event_type payload v)
        (λ _ u. Enqueued (enabled_endpoints b v.db) b event_type payload v u)
unfolding enqueue_event
enqueue_event-Enqueued b event_type payload v = ground (
  arith,
  enqueue_each-Enqueued (enabled_endpoints b v.db) b event_type payload
      (record v { faults = later v.faults }),
)

abbrev pub delivery_has_id : Uuid → WebhookDeliveryRow → Bool
delivery_has_id id d = d.id == id

-- The ids to come are not taken, and each comes once.
pub record IsFresh (w : World) : Type 0 where
  pub untaken : (n : ℕ) → w.drawn ≤ n → any (delivery_has_id (w.uuid_at n)) w.db.deliveries ≡ false
  pub once : (m n : ℕ) → m < n → (w.uuid_at m == w.uuid_at n) ≡ false

written-IsFresh :
    (e b : Uuid) (event_type : String) (payload : Json) (w : World)
    → IsFresh w
    → IsFresh (written e b event_type payload w)
written-IsFresh e b event_type payload w f = record {
  untaken = λ n h. ground (arith, f.untaken n, f.once w.drawn n);
  once = f.once;
}

enqueue_each-ok :
    (es : List Uuid) (b : Uuid) (event_type : String) (payload : Json) (w : World)
    → w.faults ≡ []
    → IsFresh w
    → (enqueue_each es b event_type payload w).0 ≡ ok tt
unfolding enqueue_each
enqueue_each-ok [] b event_type payload w f fresh = refl
enqueue_each-ok (e ∷ es) b event_type payload w f fresh = ground (
  arith,
  fresh.untaken w.drawn (omega arith),
  enqueue_each-ok es b event_type payload (written e b event_type payload w) (ground arith)
      (written-IsFresh e b event_type payload w fresh),
)

-- If no statement fails and the ids to come are not taken and differ, an event is written to the outbox
-- with one row for each enabled endpoint of the business, and no other table changes.
pub enqueue_event-writes :
    (b : Uuid) (event_type : String) (payload : Json) (w : World)
    → w.faults ≡ []
    → IsFresh w
    → let (r, u) = enqueue_event b event_type payload w in
      (r ≡ ok tt)
      × (u.db ≡ record w.db {
        deliveries =
            outbox
              (enabled_endpoints b w.db)
              b
              event_type
              payload
              w.now
              w.uuid_at
              w.drawn
              w.db.deliveries;
      })
unfolding enqueue_event
enqueue_event-writes b event_type payload w f fresh =
    let w' = record w { faults = later w.faults } in
    ground (
      arith,
      enqueue_each-ok (enabled_endpoints b w.db) b event_type payload w',
      enqueue_each-Enqueued (enabled_endpoints b w.db) b event_type payload w',
    )
