-- ===== src/Router/Rules.antt =====
-- What a property of the tables and the tasks has to have for every run of the service to keep it: the statements
-- and the batches keep it.
use dodo_invoice_service.Payments.Pay.{spawn as do_spawn}
use dodo_invoice_service.Base.{Bool, none, some, true, ◌≡◌, any, ℤ, String, List}
use dodo_invoice_service.Db.{World, execute, statement, violates, Task, done, Db, Outcome}
use dodo_invoice_service.Models.{WebhookPost, LineItemInput, CreateInvoiceRequest, Uuid}
use dodo_invoice_service.Router.Aside.{IsBlind}
use dodo_invoice_service.Json.{Json}
use dodo_invoice_service.Db.Keeps.{Gives, Keeps}
use dodo_invoice_service.Webhooks.{enqueue_event}
use dodo_invoice_service.Invoices.Create.{insert_item, insert_invoice}
use dodo_invoice_service.Invoices.Transition.{set_state}
use dodo_invoice_service.Payments.Settle.{update_attempts, Verdict, close_open}
use dodo_invoice_service.Payments.Claim.{insert_attempt}
use dodo_invoice_service.Lifecycle.Tables.{is_task_of}
use dodo_invoice_service.Idempotency.{finalize, insert_key}
use dodo_invoice_service.Error.{StatusCode}
use dodo_invoice_service.Webhooks.Dispatch.{dispatch_due_batch, Answer, Signer}

abbrev pub Done : {A : Type 0} → (A → Type 0) → Outcome A → Type 0
Done R (done a) = R a
Done R (violates constraint) = Unit

-- A statement that takes something which another one has to have made first, takes its mark: `NewInvoice` and
-- `NewAttempt` hold of the ids that an INSERT has given, `Reserved` of a key that an INSERT has reserved.
pub record Rules (P : Db → List Task → Type 0) (NewInvoice NewAttempt : Uuid → Type 0)
    (Reserved : Uuid → String → Type 0) : Type 0 where
  pub blind : IsBlind P
  pub event :
      (b : Uuid) (event_type : String) (payload : Json)
      → Keeps P (enqueue_event b event_type payload)
  pub invoice :
      (b : Uuid) (req : CreateInvoiceRequest) (total_cents : ℤ)
      → Gives P (Done NewInvoice) (statement (insert_invoice b req total_cents))
  pub item :
      (i : Uuid) (item : LineItemInput) → NewInvoice i → Keeps P (statement (insert_item i item))
  pub move :
      (i : Uuid) (target : String)
      → Keeps P (execute (λ w. record w.db { invoices = set_state i target w.now w.db.invoices }))
  pub close :
      (i : Uuid) (target : String)
      → Keeps P (execute (λ w. record w.db { invoices = close_open i target w.now w.db.invoices }))
  pub claim :
      (i : Uuid) (card_token : String)
      → Gives P (Done NewAttempt) (statement (insert_attempt i card_token))
  pub spawn : (task : Task) → NewAttempt task.attempt_id → Keeps P (do_spawn task)
  pub settle : (a : Uuid) (v : Verdict) → NewAttempt a → Keeps P (statement (update_attempts a v))
  pub known :
      (w : World) (task : Task)
      → P w.db w.tasks
      → any (is_task_of task.attempt_id task.invoice_id) w.tasks ≡ true
      → NewAttempt task.attempt_id
  pub reserve :
      (b : Uuid) (key request_hash : String)
      → Gives P
          (λ inserted. inserted ≡ true → Reserved b key)
          (statement (insert_key b key request_hash))
  pub answer :
      (b i : Uuid) (key : String) (status : StatusCode) (body : Json)
      → Reserved b key
      → Keeps P (finalize b key status body (some i) none)
  pub tick :
      (signer : Signer) (receiver : WebhookPost → Answer) (locked : Uuid → Bool)
      → Keeps P (dispatch_due_batch signer receiver locked)
