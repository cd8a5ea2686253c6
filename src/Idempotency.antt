-- ===== src/Idempotency.antt =====
-- invoice-service/src/idempotency.rs: the reservation of an Idempotency-Key and the response that
-- is stored under it.
use dodo_invoice_service.Base.{
  ℕ, zero, suc, ◌%◌, String, Bool, true, false, not, ◌&&◌, Option, none, some, List, [], ◌∷◌,
  str_eq, leb, ◌==◌, any, find, if◌then◌else◌,
}
use dodo_invoice_service.Json.{Json}
use dodo_invoice_service.Error.{AppError, StatusCode, unprocessable, conflict}
use dodo_invoice_service.Models.{Uuid, IdempotencyRow}
use dodo_invoice_service.Db.{Db, World, Exec, pure, raise, ◌>>=◌, ◌>>◌, statement, query, execute}

-- What the crates serde_json, sha2 and hex do.
pub record Crypto : Type 0 where
  pub json_text : Json → String
  pub sha256 : String → List ℕ
  pub hex_encode : List ℕ → String

unfoldable pub hash_body : Crypto → String → String
hash_body c bytes = c.hex_encode (c.sha256 bytes)

pub data IdempotencyCheck : Type 0 where
  use_cached : StatusCode → Json → IdempotencyCheck
  proceed : IdempotencyCheck

-- The places in the handling of a payment where other requests and tasks can run: before the SELECT
-- and the INSERT of each round of `reserve_or_get`, and before each later transaction.
pub data Point : Type 0 where
  before_select : ℕ → Point
  before_insert : ℕ → Point
  before_claim before_total before_settle before_finalize : Point

-- What all others do to the world at each of these places.
abbrev pub Others : Type 0
Others = Point → World → World

abbrev pub let_run : Others → Point → Exec (Unit {0})
let_run others p w = pure tt (others p w)

-- WHERE business_id = $1 AND idempotency_key = $2
abbrev pub has_key : Uuid → String → IdempotencyRow → Bool
has_key business_id key row = row.business_id == business_id && str_eq row.idempotency_key key

abbrev pub stored : Uuid → String → Db → Option IdempotencyRow
stored business_id key db = find (has_key business_id key) db.idempotency_keys

abbrev pub reserved_row : Uuid → String → String → IdempotencyRow
reserved_row business_id key request_hash = record {
  business_id = business_id;
  idempotency_key = key;
  request_hash = request_hash;
  response_status = none;
  response_body = none;
  invoice_id = none;
  payment_attempt_id = none;
}

-- INSERT … ON CONFLICT DO NOTHING: whether a row was inserted.
unfoldable pub insert_key : Uuid → String → String → World → Bool × World
insert_key business_id key request_hash w =
    if any (has_key business_id key) w.db.idempotency_keys then (false, w) else (
      true,
      record w {
        db = record w.db {
          idempotency_keys = reserved_row business_id key request_hash ∷ w.db.idempotency_keys;
        };
      },
    )

-- `StatusCode::from_u16(status as u16).unwrap_or(StatusCode::OK)`
abbrev pub status_from : ℕ → StatusCode
status_from status = let u = status % 65536 in if leb 100 u && leb u 999 then u else 200

abbrev pub key_reused : AppError
key_reused =
    unprocessable "idempotency_key_reused"
      "this Idempotency-Key was already used with a different request body"

abbrev pub in_progress : AppError
in_progress =
    conflict "request_in_progress"
      "a request with this Idempotency-Key is still being processed; retry shortly"

-- The match on a row that was found; `again` is the rest of the loop.
abbrev pub on_existing : String → IdempotencyRow → Exec IdempotencyCheck → Exec IdempotencyCheck
on_existing request_hash row again =
    if not (str_eq row.request_hash request_hash)
    then raise key_reused
    else elim row.response_status [
      | none ↦ again
      | some status ↦ elim row.response_body [
        | none ↦ again
        | some body ↦ pure (use_cached (status_from status) body)
      ]
    ]

module _ (others : Others) (business_id : Uuid) (key request_hash : String) where
  -- One round after its SELECT; `again` is the rest of the loop.
  abbrev pub round : ℕ → Exec IdempotencyCheck → Option IdempotencyRow → Exec IdempotencyCheck
  round r again (some row) = on_existing request_hash row again
  round r again none = do
    let_run others (before_insert r)
    inserted ← statement (insert_key business_id key request_hash)
    if inserted then pure proceed else again

  -- The loop from round `r` on, with `n` rounds left.
  unfoldable pub reserve_from : ℕ → ℕ → Exec IdempotencyCheck
  unfolding query statement insert_key
  reserve_from zero r = raise in_progress
  reserve_from (suc n) r =
      let again = reserve_from n (suc r) in
      do
        let_run others (before_select r)
        existing ← query (stored business_id key)
        round r again existing

  unfoldable pub reserve_or_get : Exec IdempotencyCheck
  unfolding reserve_from
  reserve_or_get = reserve_from 15 0

-- The UPDATE of `finalize`.
abbrev pub finalized :
    Uuid
    → String
    → StatusCode
    → Json
    → Option Uuid
    → Option Uuid
    → List IdempotencyRow
    → List IdempotencyRow
finalized business_id key status body invoice_id payment_attempt_id [] = []
finalized business_id key status body invoice_id payment_attempt_id (row ∷ rows) =
    (if has_key business_id key row
      then record row {
        response_status = some status;
        response_body = some body;
        invoice_id = invoice_id;
        payment_attempt_id = payment_attempt_id;
      }
      else row)
    ∷ finalized business_id key status body invoice_id payment_attempt_id rows

unfoldable pub finalize :
    Uuid → String → StatusCode → Json → Option Uuid → Option Uuid → Exec (Unit {0})
unfolding execute
finalize business_id key status body invoice_id payment_attempt_id = execute (λ w. record w.db {
  idempotency_keys =
      finalized business_id key status body invoice_id payment_attempt_id w.db.idempotency_keys;
})
