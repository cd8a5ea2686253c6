-- ===== src/Router/Deliveries.antt =====
-- The rules for a property of the deliveries alone.
use dodo_invoice_service.Base.{Bool, String, List}
use dodo_invoice_service.Models.{WebhookPost, Uuid, WebhookDeliveryRow}
use dodo_invoice_service.Db.{Task, Db}
use dodo_invoice_service.Db.Keeps.{Keeps}
use dodo_invoice_service.Json.{Json}
use dodo_invoice_service.Router.Rules.{Rules}
use dodo_invoice_service.Webhooks.{enqueue_event}
use dodo_invoice_service.Webhooks.Dispatch.{dispatch_due_batch, Answer, Signer}
use dodo_invoice_service.Router.Unseen.{
  answer-unseen, reserve-unseen, settle-unseen, claim-unseen, close-unseen, move-unseen,
  item-unseen, invoice-unseen,
}

abbrev pub On : (List WebhookDeliveryRow → Type 0) → Db → List Task → Type 0
On Q db tasks = Q db.deliveries

module _ (Q : List WebhookDeliveryRow → Type 0) where
  pub On-rules :
      ((b : Uuid) (event_type : String) (payload : Json)
        → Keeps (On Q) (enqueue_event b event_type payload))
      → ((signer : Signer) (receiver : WebhookPost → Answer) (locked : Uuid → Bool)
          → Keeps (On Q) (dispatch_due_batch signer receiver locked))
      → Rules (On Q) (λ _. Unit) (λ _. Unit) (λ _ _. Unit)
  On-rules event tick = record {
    blind = record { blind = λ db db' tasks i a d l k h. rw d h };
    event = event;
    invoice = invoice-unseen (λ db rows tasks h. h);
    item = λ i item _. item-unseen (λ db rows tasks h. h) i item;
    move = move-unseen (λ db rows tasks h. h);
    close = close-unseen (λ db rows tasks h. h);
    claim = claim-unseen (λ db rows tasks h. h);
    spawn = λ task _. record { keeps = λ w h. h };
    settle = λ a v _. settle-unseen (λ db rows tasks h. h) a v;
    known = λ w task h k. tt;
    reserve = reserve-unseen (λ db rows tasks h. h);
    answer = λ b i key status body _. answer-unseen (λ db rows tasks h. h) b i key status body;
    tick = tick;
  }
