-- ===== src/Webhooks/Dispatch.antt =====
-- invoice-service/src/webhook_dispatcher.rs: signing and the delivery loop. What a receiver answers to a
-- post is a parameter, and so is which rows other replicas hold locked.
pub mod Schedule
pub mod Batch
pub mod Rows
pub mod Health
pub mod Progress
pub mod Faultless
pub mod Service
pub mod Forever
pub mod Drains
use Prim.Native.String.{◌++◌ as str_append}
use dodo_invoice_service.Base.{
  suc, ℕ, ◌+◌, String, Bool, true, false, not, ◌&&◌, Option, none, some, List, [], ◌∷◌, str_eq, ℤ,
  pos, negsuc, ◌+ℤ◌, leb_ℤ, wrap_i32, leb, ◌==◌, find, keep, take, get_elem?, if◌then◌else◌, show,
}
use dodo_invoice_service.Json.{Json}
use dodo_invoice_service.Error.{AppError, StatusCode}
use dodo_invoice_service.Models.{
  Uuid, DateTime, WebhookEndpointRow, WebhookDeliveryRow, WebhookPost,
}
use dodo_invoice_service.Db.{
  err, Result, Db, World, Exec, ok, pure, ok_or, ◌>>=◌, ◌>>◌, statement, transaction, execute,
}
use dodo_invoice_service.Db.Order.{order_asc}
use Prim.Native.Nat.{zero}

abbrev pub max_attempts : ℤ
max_attempts = pos 7

abbrev pub backoff_seconds : List ℕ
backoff_seconds = 30 ∷ 300 ∷ 1800 ∷ 7_200 ∷ 43_200 ∷ 86_400 ∷ []

-- What the crates serde_json, hmac with sha2, and hex do: `hmac_sha256 key message`.
pub record Signer : Type 0 where
  pub json_text : Json → String
  pub hmac_sha256 : String → String → List ℕ
  pub hex_encode : List ℕ → String

unfoldable pub sign : Signer → String → ℕ → String → String
unfolding show
sign s secret timestamp payload =
    s.hex_encode (s.hmac_sha256 secret (str_append (show timestamp) (str_append "." payload)))

pub record DueDelivery : Type 0 where
  pub id : Uuid
  pub endpoint_url : String
  pub endpoint_secret : String
  pub event_type : String
  pub payload : Json
  pub attempt_count : ℤ

-- JOIN webhook_endpoints we ON we.id = wd.endpoint_id, for the rows that are read.
abbrev pub due_of : WebhookDeliveryRow → WebhookEndpointRow → DueDelivery
due_of wd we = record {
  id = wd.id;
  endpoint_url = we.url;
  endpoint_secret = we.secret;
  event_type = wd.event_type;
  payload = wd.payload;
  attempt_count = wd.attempt_count;
}

abbrev pub endpoint_of : WebhookDeliveryRow → List WebhookEndpointRow → Option WebhookEndpointRow
endpoint_of wd endpoints = find (λ we. we.id == wd.endpoint_id) endpoints

unfoldable pub join_endpoints : List WebhookEndpointRow → List WebhookDeliveryRow → List DueDelivery
join_endpoints endpoints [] = []
join_endpoints endpoints (wd ∷ rest) =
    let others = join_endpoints endpoints rest in
    elim (endpoint_of wd endpoints) [ none ↦ others | some we ↦ due_of wd we ∷ others ]

-- WHERE wd.status = 'pending' AND wd.next_attempt_at <= now(); the JOIN drops a row without endpoint; SKIP
-- LOCKED those that are locked.
abbrev pub is_due : (Uuid → Bool) → DateTime → List WebhookEndpointRow → WebhookDeliveryRow → Bool
is_due locked now endpoints wd =
    str_eq wd.status "pending"
    && leb wd.next_attempt_at now
    && not (locked wd.id)
    && elim (endpoint_of wd endpoints) [ none ↦ false | some _ ↦ true ]

-- ORDER BY wd.next_attempt_at LIMIT 20
unfoldable pub due_rows : (Uuid → Bool) → DateTime → Db → List WebhookDeliveryRow
unfolding order_asc
due_rows locked now db =
    take 20
      (order_asc (λ wd. wd.next_attempt_at) (keep (is_due locked now db.endpoints) db.deliveries))

-- The rows of the SELECT.
unfoldable pub due_in : (Uuid → Bool) → DateTime → Db → List DueDelivery
unfolding due_rows join_endpoints
due_in locked now db = join_endpoints db.endpoints (due_rows locked now db)

abbrev pub due : (Uuid → Bool) → World → List DueDelivery
due locked w = due_in locked w.now w.db

-- What `send` gives: a status with its text, or reqwest's message for a request that failed.
pub data Answer : Type 0 where
  responded : StatusCode → String → Answer
  send_failed : String → Answer

abbrev pub is_success : StatusCode → Bool
is_success status = leb 200 status && leb status 299

-- The error of a delivery, none where it went well.
unfoldable pub outcome : Answer → Option String
outcome (responded status shown) =
    if is_success status then none else some (str_append "receiver returned HTTP " shown)
outcome (send_failed e) = some (str_append "delivery error: " e)

-- UPDATE webhook_deliveries SET … WHERE id = $1
abbrev pub update_delivery :
    Uuid
    → (WebhookDeliveryRow → WebhookDeliveryRow)
    → List WebhookDeliveryRow
    → List WebhookDeliveryRow
update_delivery id set [] = []
update_delivery id set (wd ∷ rest) =
    (if wd.id == id then set wd else wd) ∷ update_delivery id set rest

abbrev pub set_succeeded : DateTime → WebhookDeliveryRow → WebhookDeliveryRow
set_succeeded now wd = record wd { status = "succeeded"; updated_at = now }

abbrev pub set_exhausted : DateTime → ℤ → String → WebhookDeliveryRow → WebhookDeliveryRow
set_exhausted now count e wd = record wd {
  status = "failed_exhausted";
  attempt_count = count;
  last_error = some e;
  updated_at = now;
}

abbrev pub set_retry : DateTime → ℤ → ℕ → String → WebhookDeliveryRow → WebhookDeliveryRow
set_retry now count delay e wd = record wd {
  attempt_count = count;
  last_error = some e;
  next_attempt_at = now + delay;
  updated_at = now;
}

abbrev pub update : Uuid → (DateTime → WebhookDeliveryRow → WebhookDeliveryRow) → Exec (Unit {0})
update id set =
    execute (λ w. record w.db { deliveries = update_delivery id (set w.now) w.db.deliveries })

-- `BACKOFF_SECONDS[(new_attempt_count - 1) as usize]`, none where the index is out of range: a negative
-- number becomes a huge one.
unfoldable pub backoff : ℤ → Option ℕ
backoff (pos n) = get_elem? backoff_seconds n
backoff (negsuc n) = none

-- A panic unwinds as an error does: the transaction is dropped. It carries a status that no error of the
-- program has, and `run_dispatcher` does not survive it.
abbrev pub panicked : AppError
panicked = record { status = 0; code = "panic"; message = "index out of bounds" }

-- The match on the outcome.
unfoldable pub record_outcome : DueDelivery → Option String → Exec (Unit {0})
unfolding execute statement ◌+ℤ◌ wrap_i32 backoff
record_outcome d none = update d.id set_succeeded
record_outcome d (some e) =
    let new_attempt_count = wrap_i32 (d.attempt_count +ℤ pos 1) in
    if leb_ℤ max_attempts new_attempt_count
    then update d.id (λ now. set_exhausted now new_attempt_count e)
    else do
      delay ← ok_or (backoff (wrap_i32 (new_attempt_count +ℤ negsuc 0))) panicked
      update d.id (λ now. set_retry now new_attempt_count delay e)

module _ (s : Signer) (receiver : WebhookPost → Answer) where
  -- The request of a delivery at a time.
  unfoldable pub post_of : ℕ → DueDelivery → WebhookPost
  unfolding sign show
  post_of ts d =
      let payload_str = s.json_text d.payload in
      let signature = sign s d.endpoint_secret ts payload_str in
      record {
        url = d.endpoint_url;
        webhook_id = d.id;
        webhook_event = d.event_type;
        webhook_signature = str_append "t=" (str_append (show ts) (str_append ",v1=" signature));
        body = payload_str;
      }

  -- `send().await`: no rollback takes a request back.
  abbrev pub send : WebhookPost → Exec Answer
  send post w = (ok (receiver post), record w { sent = post ∷ w.sent })

  abbrev pub now_of : Exec ℕ
  now_of w = (ok w.now, w)

  unfoldable pub send_and_record : DueDelivery → Exec (Unit {0})
  unfolding post_of outcome record_outcome
  send_and_record d = do
    ts ← now_of
    answer ← send (post_of ts d)
    record_outcome d (outcome answer)

  -- for d in &due { … }
  unfoldable pub send_each : List DueDelivery → Exec (Unit {0})
  unfolding send_and_record
  send_each [] = pure tt
  send_each (d ∷ rest) = do send_and_record d; send_each rest

  unfoldable pub dispatch_in_tx : (Uuid → Bool) → Exec (Unit {0})
  unfolding statement due_in send_each
  dispatch_in_tx locked = do rows ← statement (λ w. (due locked w, w)); send_each rows

  unfoldable pub dispatch_due_batch : (Uuid → Bool) → Exec (Unit {0})
  unfolding transaction dispatch_in_tx
  dispatch_due_batch locked = transaction (dispatch_in_tx locked)

abbrev pub is_panic : {A : Type 0} → Result A → Bool
is_panic (ok _) = false
is_panic (err e) = e.status == 0

-- The first `n` ticks of `run_dispatcher`, from tick `r` on: `between` is all that happens before a tick,
-- the passing of time included. An error is logged; a panic ends the task, which the Boolean says.
module _ (s : Signer) (receiver : WebhookPost → Answer) (locked : ℕ → Uuid → Bool)
    (between : ℕ → World → World) where
  unfoldable pub run_dispatcher : ℕ → ℕ → World → Bool × World
  unfolding dispatch_due_batch
  run_dispatcher zero r w = (true, w)
  run_dispatcher (suc n) r w =
      let (result, u) = dispatch_due_batch s receiver (locked r) (between r w) in
      let rest = run_dispatcher n (suc r) u in if is_panic result then (false, u) else rest
