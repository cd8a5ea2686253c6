-- ===== src/Router/Unseen.antt =====
-- The rules for the statements on a table that a property does not see.
use dodo_invoice_service.Base.{arith, true, ◌∷◌, none, some, ◌≡◌, ℤ, Bool, String, List}
use dodo_invoice_service.Db.{execute, statement, Task, Db}
use dodo_invoice_service.Models.{
  CreateInvoiceRequest, WebhookPost, LineItemInput, Uuid, LineItemRow, InvoiceRow,
  PaymentAttemptRow, WebhookDeliveryRow, IdempotencyRow,
}
use dodo_invoice_service.Invoices.Create.{new_line_item, new_invoice, insert_invoice, insert_item}
use dodo_invoice_service.Webhooks.{
  enabled_endpoints, new_delivery, insert_delivery, enqueue_each, enqueue_event,
}
use dodo_invoice_service.Webhooks.Dispatch.{update_delivery, dispatch_due_batch, Answer, Signer}
use dodo_invoice_service.Payments.Settle.{settle_attempts, close_open, Verdict, update_attempts}
use dodo_invoice_service.Payments.Claim.{new_attempt, insert_attempt}
use dodo_invoice_service.Idempotency.{finalized, reserved_row, finalize, insert_key}
use dodo_invoice_service.Db.Keeps.{
  execute-Keeps, or_database_error-Keeps, query-Keeps, bind-Keeps, pure-Keeps, statement-Keeps,
  Keeps, Gives,
}
use dodo_invoice_service.Json.{Json}
use dodo_invoice_service.Error.{StatusCode}
use dodo_invoice_service.Router.Rules.{Done}
use dodo_invoice_service.Invoices.Transition.{set_state}
use dodo_invoice_service.Router.Ticks.{dispatch_due_batch-Keeps}
use mathlib.Core.List.{[]}

module _ {P : Db → List Task → Type 0} where
  module _
      (unseen : (db : Db) (rows : List InvoiceRow) (tasks : List Task)
        → P db tasks
        → P (record db { invoices = rows }) tasks) where
    pub invoice-unseen :
        (b : Uuid) (req : CreateInvoiceRequest) (total_cents : ℤ)
        → Gives P (Done (λ _. Unit {0})) (statement (insert_invoice b req total_cents))
    unfolding insert_invoice statement
    invoice-unseen b req total_cents = record {
      keeps = λ w h.
          let id = w.uuid_at w.drawn in
          let rows = new_invoice id b req total_cents w.now ∷ w.db.invoices in
          ground (arith, h, unseen w.db rows w.tasks h);
      gives = λ w h. ground arith;
    }

    pub move-unseen :
        (i : Uuid) (target : String)
        → Keeps P (execute (λ w. record w.db { invoices = set_state i target w.now w.db.invoices }))
    move-unseen i target =
        execute-Keeps (λ w. record w.db { invoices = set_state i target w.now w.db.invoices })
          (λ w h. unseen w.db (set_state i target w.now w.db.invoices) w.tasks h)

    pub close-unseen :
        (i : Uuid) (target : String)
        → Keeps P
            (execute (λ w. record w.db { invoices = close_open i target w.now w.db.invoices }))
    close-unseen i target =
        execute-Keeps (λ w. record w.db { invoices = close_open i target w.now w.db.invoices })
          (λ w h. unseen w.db (close_open i target w.now w.db.invoices) w.tasks h)

  pub item-unseen :
      ((db : Db) (rows : List LineItemRow) (tasks : List Task)
        → P db tasks
        → P (record db { line_items = rows }) tasks)
      → (i : Uuid) (item : LineItemInput) → Keeps P (statement (insert_item i item))
  unfolding insert_item
  item-unseen unseen i item = statement-Keeps (insert_item i item) (λ w h.
      let id = w.uuid_at w.drawn in
      let rows = new_line_item id i item ∷ w.db.line_items in
      ground (arith, h, unseen w.db rows w.tasks h))

  module _
      (unseen : (db : Db) (rows : List PaymentAttemptRow) (tasks : List Task)
        → P db tasks
        → P (record db { attempts = rows }) tasks) where
    pub claim-unseen :
        (i : Uuid) (card_token : String)
        → Gives P (Done (λ _. Unit {0})) (statement (insert_attempt i card_token))
    unfolding insert_attempt statement
    claim-unseen i card_token = record {
      keeps = λ w h.
          let id = w.uuid_at w.drawn in
          let rows = new_attempt id i card_token w.now ∷ w.db.attempts in
          ground (arith, h, unseen w.db rows w.tasks h);
      gives = λ w h. ground arith;
    }

    pub settle-unseen : (a : Uuid) (v : Verdict) → Keeps P (statement (update_attempts a v))
    unfolding update_attempts
    settle-unseen a v =
        statement-Keeps (update_attempts a v)
          (λ w h. unseen w.db (settle_attempts a v w.now w.db.attempts) w.tasks h)

  module _
      (unseen : (db : Db) (rows : List IdempotencyRow) (tasks : List Task)
        → P db tasks
        → P (record db { idempotency_keys = rows }) tasks) where
    pub reserve-unseen :
        (b : Uuid) (key request_hash : String)
        → Gives P
            (λ inserted. inserted ≡ true → Unit {0})
            (statement (insert_key b key request_hash))
    unfolding insert_key statement
    reserve-unseen b key request_hash = record {
      keeps = λ w h.
          let rows = reserved_row b key request_hash ∷ w.db.idempotency_keys in
          ground (arith, h, unseen w.db rows w.tasks h);
      gives = λ w h. ground arith;
    }

    pub answer-unseen :
        (b i : Uuid) (key : String) (status : StatusCode) (body : Json)
        → Keeps P (finalize b key status body (some i) none)
    unfolding finalize
    answer-unseen b i key status body =
        execute-Keeps
          (λ w. record w.db {
            idempotency_keys = finalized b key status body (some i) none w.db.idempotency_keys;
          })
          (λ w h.
            unseen w.db (finalized b key status body (some i) none w.db.idempotency_keys) w.tasks h)

  module _
      (unseen : (db : Db) (rows : List WebhookDeliveryRow) (tasks : List Task)
        → P db tasks
        → P (record db { deliveries = rows }) tasks) where
    insert_delivery-unseen :
        (e b : Uuid) (event_type : String) (payload : Json)
        → Keeps P (statement (insert_delivery e b event_type payload))
    unfolding insert_delivery
    insert_delivery-unseen e b event_type payload =
        statement-Keeps (insert_delivery e b event_type payload) (λ w h.
          let id = w.uuid_at w.drawn in
          let rows = new_delivery id e b event_type payload w.now ∷ w.db.deliveries in
          ground (arith, h, unseen w.db rows w.tasks h))

    enqueue_each-unseen :
        (es : List Uuid) (b : Uuid) (event_type : String) (payload : Json)
        → Keeps P (enqueue_each es b event_type payload)
    unfolding enqueue_each
    enqueue_each-unseen [] b event_type payload = pure-Keeps tt
    enqueue_each-unseen (e ∷ es) b event_type payload =
        bind-Keeps _ _ (insert_delivery-unseen e b event_type payload) (λ inserted.
          bind-Keeps _ _ (or_database_error-Keeps inserted)
            (λ _. enqueue_each-unseen es b event_type payload))

    pub event-unseen :
        (b : Uuid) (event_type : String) (payload : Json)
        → Keeps P (enqueue_event b event_type payload)
    unfolding enqueue_event
    event-unseen b event_type payload =
        bind-Keeps _ _ (query-Keeps (enabled_endpoints b))
          (λ es. enqueue_each-unseen es b event_type payload)

    pub tick-unseen :
        (signer : Signer) (receiver : WebhookPost → Answer) (locked : Uuid → Bool)
        → Keeps P (dispatch_due_batch signer receiver locked)
    tick-unseen signer receiver locked =
        dispatch_due_batch-Keeps
          (λ id set.
            execute-Keeps
              (λ w. record w.db { deliveries = update_delivery id (set w.now) w.db.deliveries })
              (λ w h. unseen w.db (update_delivery id (set w.now) w.db.deliveries) w.tasks h))
          signer receiver locked
