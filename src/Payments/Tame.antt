-- ===== src/Payments/Tame.antt =====
-- What the parts of a payment leave to the idempotency store: they keep its rows, use up no fault
-- where there is none, and fail with a proper HTTP status.
use dodo_invoice_service.Base.{◌==◌, some, Option, Bool, ◌≤◌, String, ◌≡◌, List, [], ◌∷◌, arith}
use dodo_invoice_service.Json.{Json}
use dodo_invoice_service.Models.{Uuid}
use dodo_invoice_service.Db.{
  pure, raise_if, query, fetch_one, execute, statement, ◌>>=◌, World, Task, Result, ok, err, Exec,
  later, transaction,
}
use dodo_invoice_service.Webhooks.{enqueue_each, enqueue_event, enabled_endpoints}
use dodo_invoice_service.Invoices.{invoice_by_id}
use dodo_invoice_service.PspClient.{charge, Psp}
use dodo_invoice_service.Payments.Claim.{
  not_payable, claim_in_tx, claim_payment_attempt, fetch_total_cents,
}
use dodo_invoice_service.Payments.Settle.{
  settled_body, update_invoice, update_attempts, Verdict, settle_in_tx, finalize_payment_attempt,
  event_payload, verdict,
}
use dodo_invoice_service.Payments.Pay.{run_task}
use dodo_invoice_service.Webhooks.Outbox.{written}
use dodo_invoice_service.Db.Ends.{continue}
use dodo_invoice_service.Error.{internal, AppError}
use mathlib.Core.Bool.{false, true}
use mathlib.Core.Option.{none}

abbrev pub HasStatus : {A : Type 0} → Result A → Type 0
HasStatus (ok _) = Unit
HasStatus (err e) = (100 ≤ e.status) × (e.status ≤ 999)

pub record IsTame {A : Type 0} (w : World) (r : Result A × World) : Type 0 where
  pub status : HasStatus r.0
  pub faults : w.faults ≡ [] → r.1.faults ≡ []
  pub keys : r.1.db.idempotency_keys ≡ w.db.idempotency_keys

claim_in_tx-IsTame : (b i : Uuid) (t : String) (w : World) → IsTame w (claim_in_tx b i t w)
unfolding claim_in_tx not_payable
claim_in_tx-IsTame b i t w = ground arith

pub enqueue_each-IsTame :
    (es : List Uuid) (b : Uuid) (event_type : String) (payload : Json) (v : World)
    → IsTame v (enqueue_each es b event_type payload v)
unfolding enqueue_each
enqueue_each-IsTame [] b event_type payload v = ground arith
enqueue_each-IsTame (e ∷ es) b event_type payload v =
    ground (arith, enqueue_each-IsTame es b event_type payload (written e b event_type payload v))

pub enqueue_event-IsTame :
    (b : Uuid) (event_type : String) (payload : Json) (v : World)
    → IsTame v (enqueue_event b event_type payload v)
unfolding enqueue_event
enqueue_event-IsTame b event_type payload v = ground (
  arith,
  enqueue_each-IsTame (enabled_endpoints b v.db) b event_type payload
      (record v { faults = later v.faults }),
)

IsTame-continue :
    {A B : Type 0} (r : Result A × World) (f : A → Exec B) (w : World)
    → IsTame w r
    → ((a : A) (u : World) → IsTame u (f a u))
    → IsTame w (continue r f)
IsTame-continue (ok a, u) f w t k = ground (arith, k a u)
IsTame-continue (err e, u) f w t k = ground arith

pure-IsTame : {A : Type 0} (a : A) (w : World) → IsTame w (pure a w)
pure-IsTame a w = ground arith

-- What follows an action is tame where the action is.
IsTame-bind :
    {A B : Type 0} (m : Exec A) (f : A → Exec B) (w : World)
    → IsTame w (m w)
    → ((a : A) (u : World) → IsTame u (f a u))
    → IsTame w ((m >>= f) w)
IsTame-bind m f w t k = IsTame-continue (m w) f w t k

raise_if-IsTame :
    (b : Bool) (e : AppError) (w : World)
    → 100 ≤ e.status
    → e.status ≤ 999
    → IsTame w (raise_if b e w)
raise_if-IsTame true e w low high = ground arith
raise_if-IsTame false e w low high = ground arith

update_attempts-IsTame :
    (a : Uuid) (v : Verdict) (w : World) → IsTame w (statement (update_attempts a v) w)
unfolding statement update_attempts
update_attempts-IsTame a v w = ground arith

update_invoice-IsTame :
    (i : Uuid) (target : Option String) (w : World) → IsTame w (update_invoice i target w)
unfolding execute statement
update_invoice-IsTame i none w = ground arith
update_invoice-IsTame i (some target) w = ground arith

fetch_invoice-IsTame : (i : Uuid) (w : World) → IsTame w (fetch_one (invoice_by_id i) w)
unfolding fetch_one query statement
fetch_invoice-IsTame i w = ground arith

settle_in_tx-IsTame : (i a : Uuid) (v : Verdict) (w : World) → IsTame w (settle_in_tx i a v w)
unfolding settle_in_tx
settle_in_tx-IsTame i a v w =
    let finalized = internal "payment attempt was already finalized" in
    IsTame-bind (statement (update_attempts a v)) _ w (update_attempts-IsTame a v w) (λ n w1.
      IsTame-bind (raise_if (n == 0) finalized) _ w1
        (raise_if-IsTame (n == 0) finalized w1 (omega arith) (omega arith))
        (λ _ w2.
          IsTame-bind (update_invoice i v.invoice_target_state) _ w2
            (update_invoice-IsTame i v.invoice_target_state w2)
            (λ _ w3.
              IsTame-bind (fetch_one (invoice_by_id i)) _ w3 (fetch_invoice-IsTame i w3) (λ row w4.
                IsTame-bind (enqueue_event row.business_id v.event_type (event_payload i a v)) _ w4
                  (enqueue_event-IsTame row.business_id v.event_type (event_payload i a v) w4)
                  (λ _ w5. pure-IsTame (settled_body i a v) w5)))))

transaction-IsTame :
    {A : Type 0} (body : Exec A) (w : World)
    → ((v : World) → IsTame v (body v))
    → IsTame w (transaction body w)
unfolding transaction
transaction-IsTame body w h = ground (arith, h (record w { faults = later w.faults }))

pub claim_payment_attempt-IsTame :
    (b i : Uuid) (t : String) (w : World) → IsTame w (claim_payment_attempt b i t w)
unfolding claim_payment_attempt
claim_payment_attempt-IsTame b i t w =
    transaction-IsTame (claim_in_tx b i t) w (claim_in_tx-IsTame b i t)

pub fetch_total_cents-IsTame : (i : Uuid) (w : World) → IsTame w (fetch_total_cents i w)
unfolding fetch_total_cents
fetch_total_cents-IsTame i w = ground arith

pub run_task-IsTame : (psp : Psp) (task : Task) (w : World) → IsTame w (run_task psp task w)
unfolding run_task finalize_payment_attempt
run_task-IsTame psp task w =
    let v = verdict (charge psp task.total_cents task.card_token) in
    transaction-IsTame (settle_in_tx task.invoice_id task.attempt_id v) w
      (settle_in_tx-IsTame task.invoice_id task.attempt_id v)
