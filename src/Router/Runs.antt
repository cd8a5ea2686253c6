-- ===== src/Router/Runs.antt =====
-- The whole service over time: requests of the API, payment tasks, ticks of the webhook dispatcher, and the passing
-- of time.
use dodo_invoice_service.History as Past
use dodo_invoice_service.History.{History, elsewhere}
use dodo_invoice_service.Base.{
  true, any, ◌≤◌, String, false, ◌+◌, refl, Bool, sym, arith, ◌≡◌, [], List,
}
use dodo_invoice_service.Webhooks.Dispatch.{
  update_delivery, update, is_panic, dispatch_due_batch, Answer, Signer,
}
use dodo_invoice_service.Db.{Task, Db, World}
use dodo_invoice_service.Webhooks.Dispatch.Progress.{IsHealthy}
use dodo_invoice_service.Models.{WebhookDeliveryRow, DateTime, WebhookPost, Uuid}
use dodo_invoice_service.Lifecycle.{Shop, shop}
use dodo_invoice_service.Router.{serve, Request, Services, Extractors}
use dodo_invoice_service.Router.Histories.{serve-History}
use dodo_invoice_service.Router.Requests.{serve-Keeps}
use dodo_invoice_service.History.Charges.{at_most_one_charge, empty_shop}
use dodo_invoice_service.Lifecycle.Invariant.{succeeded, pending}
use dodo_invoice_service.Router.Statements.{run_task-Keeps}
use dodo_invoice_service.Db.Keeps.{execute-Keeps, Keeps}
use dodo_invoice_service.Router.Goes.{At, aside-Goes}
use dodo_invoice_service.Idempotency.{Point}
use dodo_invoice_service.Webhooks.Dispatch.Service.{batch-IsHealthy}
use dodo_invoice_service.PspClient.{Psp}
use dodo_invoice_service.Lifecycle.Tables.{is_task_of}
use dodo_invoice_service.Payments.Pay.{run_task}
use dodo_invoice_service.Webhooks.Dispatch.Forever.{enqueue_event-IsHealthy}
use dodo_invoice_service.Router.Ticks.{dispatch_due_batch-Keeps}
use dodo_invoice_service.Router.Rules.{Rules}
use dodo_invoice_service.Router.Deliveries.{On-rules, On}

pub data Run : World → World → Type 0 where
  start : {w : World} → Run w w
  -- The tables and the tasks stay; the clock, the ids to come and the faults to come may be any.
  wait : {w u : World} (v : World) → Run w u → v.db ≡ u.db → v.tasks ≡ u.tasks → Run w v
  request :
      {w u : World} (x : Extractors) (s : Services) (req : Request)
      → ((p : Point) (v : World) → Run v (s.others p v))
      → Run w u
      → Run w (serve x s req u).1
  resume :
      {w u : World} (psp : Psp) (task : Task)
      → any (is_task_of task.attempt_id task.invoice_id) u.tasks ≡ true
      → Run w u
      → Run w (run_task psp task u).1
  tick :
      {w u : World} (signer : Signer) (receiver : WebhookPost → Answer) (locked : Uuid → Bool)
      → Run w u
      → Run w (dispatch_due_batch signer receiver locked u).1

-- What the rules hold of, every run keeps.
pub Run-Keeps :
    {P : Db → List Task → Type 0} {NewInvoice NewAttempt : Uuid → Type 0}
    {Reserved : Uuid → String → Type 0} {w v : World}
    → Rules P NewInvoice NewAttempt Reserved
    → Run w v
    → P w.db w.tasks
    → P v.db v.tasks
Run-Keeps rules start h = h
Run-Keeps rules (wait v run db tasks) h = rw (db, tasks) (Run-Keeps rules run h)
Run-Keeps rules (request {u} x s req others run) h =
    serve-Keeps rules x s (λ p v. Run-Keeps rules (others p v)) req u (Run-Keeps rules run h)
Run-Keeps rules (resume {u} psp task known run) h =
    let before = Run-Keeps rules run h in
    (run_task-Keeps rules psp task (rules.known u task before known)).keeps u before
Run-Keeps rules (tick {u} signer receiver locked run) h =
    (rules.tick signer receiver locked).keeps u (Run-Keeps rules run h)

empty-IsHealthy : IsHealthy []
empty-IsHealthy = record { well = refl; unique = λ k. omega arith }

pub IsHealthy-rules : Rules (On IsHealthy) (λ _. Unit) (λ _. Unit) (λ _ _. Unit)
IsHealthy-rules =
    On-rules IsHealthy
      (λ b event_type payload. record {
        keeps = λ w h. enqueue_event-IsHealthy b event_type payload w h;
      })
      (λ signer receiver locked. record {
        keeps = λ w h. (batch-IsHealthy signer receiver locked w h).1;
      })

-- No request, task or tick makes the deliveries unhealthy.
pub Run-IsHealthy : {w v : World} → Run w v → IsHealthy w.db.deliveries → IsHealthy v.db.deliveries
Run-IsHealthy run h = Run-Keeps IsHealthy-rules run h

write-At :
    (s : Shop) (id : Uuid) (set : DateTime → WebhookDeliveryRow → WebhookDeliveryRow)
    → Keeps (At s) (update id set)
write-At s id set =
    execute-Keeps (λ w. record w.db { deliveries = update_delivery id (set w.now) w.db.deliveries })
      (λ w h. h)

pub Run-History : {w v : World} → Run w v → History w v
Run-History start = Past.start
Run-History (wait {u} v run db tasks) = elsewhere v (Run-History run) (λ i. record {
  invoices = (sym db i).invoices;
  attempts = (sym db i).attempts;
  tasks = sym tasks i;
})
Run-History (request x s req others run) =
    serve-History x s (λ p v. Run-History (others p v)) req (Run-History run)
Run-History (resume psp task known run) = Past.resume psp task known (Run-History run)
Run-History (tick signer receiver locked run) =
    (aside-Goes (dispatch_due_batch signer receiver locked)
        (λ s. dispatch_due_batch-Keeps (write-At s) signer receiver locked)).goes
      (Run-History run)

-- However requests of the API, payment tasks and ticks of the dispatcher interleave, if the service began with no
-- invoice, attempt or task, then at every moment an invoice has at most one payment attempt that is pending or
-- has succeeded.
pub at_most_one_charge_of_api :
    {w v : World} (i : Uuid)
    → shop w ≡ empty_shop
    → Run w v
    → pending (shop v) i + succeeded (shop v) i ≤ 1
at_most_one_charge_of_api i e run = at_most_one_charge i e (Run-History run)

-- If the service began with no delivery, then no batch of the dispatcher ever panics, at whatever moment of the
-- service it runs, whatever the receivers answer and whatever the database fails.
pub dispatcher_never_panics :
    {w v : World} (signer : Signer) (receiver : WebhookPost → Answer) (locked : Uuid → Bool)
    → w.db.deliveries ≡ []
    → Run w v
    → is_panic (dispatch_due_batch signer receiver locked v).0 ≡ false
dispatcher_never_panics {v} signer receiver locked none_yet run =
    (batch-IsHealthy signer receiver locked v (Run-IsHealthy run (rw none_yet empty-IsHealthy))).0
