-- ===== src/Payments/Replay.antt =====
-- The contract of the Idempotency-Key: what `pay_invoice` answers is stored under the key, and the
-- same request gets it again.
use dodo_invoice_service.Base.{
  ap, ◌∙◌, is_blank, eq_refl, refl, suc, false, str_eq, ℕ, any, Bool, none, ◌≤◌, String, ◌≡◌, inl,
  inr, Option, some, List, [], ◌∷◌, arith, find, Bool-cases,
}
use dodo_invoice_service.Json.{Json}
use dodo_invoice_service.Error.{error_body, StatusCode, Response, into_response}
use dodo_invoice_service.Models.{Uuid, IdempotencyRow}
use dodo_invoice_service.Db.{later, pure, ◌>>◌, Task, Exec, World, Result, ok, err}
use dodo_invoice_service.Idempotency.{
  Crypto, reserve_or_get, before_insert, before_select, proceed, key_reused, use_cached,
  reserve_from, before_settle, before_finalize, before_total, before_claim, Others, Point, has_key,
  stored, reserved_row, finalized,
}
use dodo_invoice_service.Payments.Pay.{
  pay_reserved, pay_invoice, elapsed, panicked, finished, body_json, new_task, spawn, run_task,
  await, after_claim, try_claim_and_pay, finalize_result, Race, request_hash,
}
use dodo_invoice_service.Payments.Tame.{
  run_task-IsTame, fetch_total_cents-IsTame, claim_payment_attempt-IsTame, IsTame,
}
use dodo_invoice_service.Db.Ends.{continue}
use dodo_invoice_service.PspClient.{Psp}
use dodo_invoice_service.Payments.Claim.{fetch_total_cents, claim_payment_attempt}

-- The HTTP response to a payment.
abbrev pub response : Result (StatusCode × Json) → Response
response (ok (status, body)) = record { status = status; body = body }
response (err e) = into_response e

-- The row of an answered request.
abbrev pub answered_row : Uuid → String → String → Uuid → Response → IdempotencyRow
answered_row b key request_hash i r = record (reserved_row b key request_hash) {
  response_status = some r.status;
  response_body = some r.body;
  invoice_id = some i;
}

-- Others fail no statement of this request, and leave the row of its key alone.
pub record IsRespectful (others : Others) (b : Uuid) (key : String) : Type 0 where
  pub faults : (p : Point) (w : World) → w.faults ≡ [] → (others p w).faults ≡ []
  pub row : (p : Point) (w : World) → stored b key (others p w).db ≡ stored b key w.db

stored-finalized :
    (b : Uuid) (key : String) (status : StatusCode) (body : Json) (i a : Option Uuid)
    (rows : List IdempotencyRow) (row : IdempotencyRow)
    → find (has_key b key) rows ≡ some row
    → find (has_key b key) (finalized b key status body i a rows)
      ≡ some (record row {
        response_status = some status;
        response_body = some body;
        invoice_id = i;
        payment_attempt_id = a;
      })
stored-finalized b key status body i a [] row h = cc
stored-finalized b key status body i a (r ∷ rows) row h = elim (Bool-cases (has_key b key r)) [
  | inl e ↦ rw e (ground (arith, stored-finalized b key status body i a rows row))
  | inr e ↦ rw e (ground (arith, stored-finalized b key status body i a rows row))
]

-- The row of the key is `row`, and no statement of the request fails.
pub record IsQuiet (b : Uuid) (key : String) (row : IdempotencyRow) (w : World) : Type 0 where
  pub faults : w.faults ≡ []
  pub has_row : stored b key w.db ≡ some row

module _ (others : Others) (b : Uuid) (key : String) (respect : IsRespectful others b key)
    (row : IdempotencyRow) where
  pub others-IsQuiet :
      (p : Point) (w : World) → IsQuiet b key row w → IsQuiet b key row (others p w)
  others-IsQuiet p w q = ground (arith, respect.faults p w, respect.row p w)

tame-IsQuiet :
    {A : Type 0} (b : Uuid) (key : String) (row : IdempotencyRow) (w : World) (r : Result A × World)
    → IsTame w r
    → IsQuiet b key row w
    → IsQuiet b key row r.1
tame-IsQuiet b key row w r t q = record {
  faults = t.faults q.faults;
  has_row = rw t.keys q.has_row;
}

-- The row is still there, and the answer has a proper status.
abbrev pub IsGood : Uuid → String → IdempotencyRow → Result (StatusCode × Json) × World → Type 0
IsGood b key row r =
    IsQuiet b key row r.1 × (100 ≤ (response r.0).status) × ((response r.0).status ≤ 999)

IsGood-continue :
    {A : Type 0} (b : Uuid) (key : String) (row : IdempotencyRow) (w : World) (r : Result A × World)
    (f : A → Exec (StatusCode × Json))
    → IsTame w r
    → IsQuiet b key row w
    → ((a : A) (u : World) → IsQuiet b key row u → IsGood b key row (f a u))
    → IsGood b key row (continue r f)
IsGood-continue b key row w (ok a, u) f t q k = k a u (tame-IsQuiet b key row w (ok a, u) t q)
IsGood-continue {A} b key row w (err e, u) f t q k =
    (tame-IsQuiet {A = A} b key row w (err e, u) t q, t.status.0, t.status.1)

module _ (psp : Psp) (others : Others) (b : Uuid) (key : String)
    (respect : IsRespectful others b key) (row : IdempotencyRow) where
  await-IsGood :
      (race : Race) (task : Task) (w : World)
      → IsQuiet b key row w
      → IsGood b key row (await psp others race task w)
  await-IsGood finished task w q =
      let v = others before_settle w in
      IsGood-continue b key row v (run_task psp task v) (λ body. pure (200, body_json body))
        (run_task-IsTame psp task v) (others-IsQuiet others b key respect row before_settle w q)
        (λ body u k. (k, omega arith, omega arith))
  await-IsGood panicked task w q = (q, omega arith, omega arith)
  await-IsGood elapsed task w q = (q, omega arith, omega arith)

  after_claim-IsGood :
      (race : Race) (i a : Uuid) (card_token : String) (w : World)
      → IsQuiet b key row w
      → IsGood b key row (after_claim psp others race i card_token a w)
  after_claim-IsGood race i a card_token w q =
      let v = others before_total w in
      IsGood-continue b key row v (fetch_total_cents i v)
        (λ total_cents. do
          spawn (new_task i a total_cents card_token)
          await psp others race (new_task i a total_cents card_token))
        (fetch_total_cents-IsTame i v) (others-IsQuiet others b key respect row before_total w q)
        (λ total_cents u k.
          let task = new_task i a total_cents card_token in
          await-IsGood race task (record u { tasks = task ∷ u.tasks })
            (record { faults = k.faults; has_row = k.has_row }))

  pub try_claim_and_pay-IsGood :
      (race : Race) (i : Uuid) (card_token : String) (w : World)
      → IsQuiet b key row w
      → IsGood b key row (try_claim_and_pay psp others race b i card_token w)
  unfolding try_claim_and_pay
  try_claim_and_pay-IsGood race i card_token w q =
      let v = others before_claim w in
      IsGood-continue b key row v (claim_payment_attempt b i card_token v)
        (after_claim psp others race i card_token) (claim_payment_attempt-IsTame b i card_token v)
        (others-IsQuiet others b key respect row before_claim w q)
        (λ a u k. after_claim-IsGood race i a card_token u k)

  pub finalize_result-stores :
      (i : Uuid) (result : Result (StatusCode × Json)) (w : World)
      → IsQuiet b key row w
      → let (r, u) = finalize_result psp others b i key result w in
        (r ≡ result)
        × (u.faults ≡ [])
        × (stored b key u.db
            ≡ some (record row {
              response_status = some (response result).status;
              response_body = some (response result).body;
              invoice_id = some i;
              payment_attempt_id = none;
            }))
  unfolding finalize_result
  finalize_result-stores i (ok (status, body)) w q =
      let v = others before_finalize w in
      let k = others-IsQuiet others b key respect row before_finalize w q in
      ground (
        arith,
        k,
        stored-finalized b key status body (some i) none v.db.idempotency_keys row k.has_row,
      )
  finalize_result-stores i (err e) w q =
      let v = others before_finalize w in
      let k = others-IsQuiet others b key respect row before_finalize w q in
      ground (
        arith,
        k,
        stored-finalized b key e.status (error_body e) (some i) none v.db.idempotency_keys row
            k.has_row,
      )

pub any-of_find : {A : Type 0} (p : A → Bool) (xs : List A) → find p xs ≡ none → any p xs ≡ false
any-of_find p [] h = refl
any-of_find p (x ∷ xs) h = ground (arith, any-of_find p xs)

module _ (others : Others) (b : Uuid) (key request_hash : String)
    (respect : IsRespectful others b key) where
  reserve_from-fresh :
      (n r : ℕ) (w : World)
      → w.faults ≡ []
      → stored b key w.db ≡ none
      → let (result, u) = reserve_from others b key request_hash (suc n) r w in
        (result ≡ ok proceed) × IsQuiet b key (reserved_row b key request_hash) u
  unfolding reserve_from
  reserve_from-fresh n r w f none_yet =
      let v = others (before_select r) w in
      let v' = record v { faults = later v.faults } in
      let u = others (before_insert r) v' in
      ground (
        arith,
        respect.faults (before_select r) w,
        respect.row (before_select r) w,
        respect.faults (before_insert r) v',
        respect.row (before_insert r) v',
        any-of_find (has_key b key) u.db.idempotency_keys,
        eq_refl key,
      )

  pub reserve_or_get-fresh :
      (w : World)
      → w.faults ≡ []
      → stored b key w.db ≡ none
      → let (result, u) = reserve_or_get others b key request_hash w in
        (result ≡ ok proceed) × IsQuiet b key (reserved_row b key request_hash) u
  unfolding reserve_or_get
  reserve_or_get-fresh w f unused = reserve_from-fresh 14 0 w f unused

  reserve_from-mismatch :
      (n r : ℕ) (w : World) (row : IdempotencyRow)
      → IsQuiet b key row w
      → str_eq row.request_hash request_hash ≡ false
      → reserve_from others b key request_hash (suc n) r w
        ≡ (err key_reused, others (before_select r) w)
  unfolding reserve_from
  reserve_from-mismatch n r w row q differ =
      ground (arith, respect.faults (before_select r) w, respect.row (before_select r) w, q)

  reserve_from-answered :
      (n r : ℕ) (w : World) (i : Uuid) (resp : Response)
      → IsQuiet b key (answered_row b key request_hash i resp) w
      → 100 ≤ resp.status
      → resp.status ≤ 999
      → reserve_from others b key request_hash (suc n) r w
        ≡ (ok (use_cached resp.status resp.body), others (before_select r) w)
  unfolding reserve_from
  reserve_from-answered n r w i resp q low high = ground (
    arith,
    respect.faults (before_select r) w,
    respect.row (before_select r) w,
    q,
    eq_refl request_hash,
  )

module _ (psp : Psp) (others : Others) (c : Crypto) (race : Race) (b i : Uuid)
    (key card_token : String) (given : is_blank card_token ≡ false)
    (respect : IsRespectful others b key) (w : World) where
  -- Behind the checks of its arguments `pay_invoice` is the reservation, then what it allows.
  pub pay_invoice-steps :
      pay_invoice psp others c race b i (some key) card_token w
      ≡ continue
          (reserve_or_get others b key (request_hash c i card_token) w)
          (pay_reserved psp others race b i key card_token)
  unfolding pay_invoice
  pay_invoice-steps = rw given

  pay_reserved-stores :
      (u : World)
      → IsQuiet b key (reserved_row b key (request_hash c i card_token)) u
      → let (r, v) = pay_reserved psp others race b i key card_token proceed u in
        IsQuiet b key (answered_row b key (request_hash c i card_token) i (response r)) v
        × (100 ≤ (response r).status)
        × ((response r).status ≤ 999)
  unfolding pay_reserved
  pay_reserved-stores u q =
      let row = reserved_row b key (request_hash c i card_token) in
      let (result, v) = try_claim_and_pay psp others race b i card_token u in
      let (quiet, low, high) =
        try_claim_and_pay-IsGood psp others b key respect row race i card_token u q in
      let (same, faults, stores) =
        finalize_result-stores psp others b key respect row i result v quiet in
      rw same (record { faults = faults; has_row = stores }, low, high)

  -- A payment under an unused key stores its answer: if the request has a card token, and others
  -- fail no statement of it and leave the row of its key alone, and the database fails none, then
  -- the row of the key holds the hash of the request and the status and body of the HTTP response,
  -- whatever that is, and the status is from 100 to 999.
  pub pay_stores :
      w.faults ≡ []
      → stored b key w.db ≡ none
      → let (r, u) = pay_invoice psp others c race b i (some key) card_token w in
        IsQuiet b key (answered_row b key (request_hash c i card_token) i (response r)) u
        × (100 ≤ (response r).status)
        × ((response r).status ≤ 999)
  pay_stores f unused =
      let fresh =
        reserve_or_get-fresh others b key (request_hash c i card_token) respect w f unused in
      let u = (reserve_or_get others b key (request_hash c i card_token) w).1 in
      rw (pay_invoice-steps, fresh.0) (pay_reserved-stores u fresh.1)

  -- The same request under the key again gets the stored answer: if the request has a card token,
  -- and others fail no statement of it and leave the row of its key alone, the database fails
  -- none, and the row holds the hash of the request and an answer with a status from 100 to 999,
  -- then the result is that status and body, and the world is changed by the others only.
  pub pay_replays :
      (resp : Response)
      → IsQuiet b key (answered_row b key (request_hash c i card_token) i resp) w
      → 100 ≤ resp.status
      → resp.status ≤ 999
      → pay_invoice psp others c race b i (some key) card_token w
        ≡ (ok (resp.status, resp.body), others (before_select 0) w)
  unfolding reserve_or_get pay_reserved
  pay_replays resp q low high =
      pay_invoice-steps
      ∙ ap (λ r. continue r (pay_reserved psp others race b i key card_token))
          (reserve_from-answered others b key (request_hash c i card_token) respect 14 0 w i resp q
            low high)

  -- A different request under the key is refused: if the request has a card token, and others fail
  -- no statement of it and leave the row of its key alone, the database fails none, and the row
  -- holds another hash, then the error is that of a reused key, and the world is changed by the
  -- others only.
  pub pay_key_reused :
      (row : IdempotencyRow)
      → IsQuiet b key row w
      → str_eq row.request_hash (request_hash c i card_token) ≡ false
      → pay_invoice psp others c race b i (some key) card_token w
        ≡ (err key_reused, others (before_select 0) w)
  unfolding reserve_or_get
  pay_key_reused row q differ =
      pay_invoice-steps
      ∙ ap (λ r. continue r (pay_reserved psp others race b i key card_token))
          (reserve_from-mismatch others b key (request_hash c i card_token) respect 14 0 w row q
            differ)
