-- ===== src/Lifecycle/Refines/Paying.antt =====
-- `pay_invoice` among any others: as long as what runs between its transactions keeps to the
-- contract, so does the whole of it.
use dodo_invoice_service.Base.{
  refl, ◌∷◌, inr, inl, none, is_blank, Bool-cases, some, Option, ℤ, String, ◌≡◌, true, arith, any,
}
use dodo_invoice_service.Models.{Uuid}
use dodo_invoice_service.Db.{◌>>◌, raise, err, Result, pure, ok, Task, World}
use dodo_invoice_service.Db.Ends.{Ends-ok, Ends, transaction_result-Ends}
use dodo_invoice_service.Payments.Pay.{
  new_task, finished, panicked, elapsed, request_hash, body_json, pay_reserved, pay_invoice,
  finalize_result, await, try_claim_and_pay, Race, run_task, after_claim, spawn as do_spawn,
}
use dodo_invoice_service.Idempotency.{
  use_cached, proceed, reserve_or_get, finalize, before_finalize, IdempotencyCheck, Crypto,
  before_settle, before_total, Others, before_claim,
}
use dodo_invoice_service.Payments.Claim.{fetch_total_cents, claim_in_tx, claim_payment_attempt}
use dodo_invoice_service.Payments.Settle.{verdict}
use dodo_invoice_service.Lifecycle.{
  Reach-trans, shop, Shop, create, move, claim, spawn, settle, Reach, here, next,
}
use dodo_invoice_service.Lifecycle.Tables.{is_attempt_of, is_task_of, attempt_of-settle}
use dodo_invoice_service.Lifecycle.Refines.Transactions.{Reach-bind, Ends-map}
use dodo_invoice_service.Lifecycle.Refines.Claiming.{
  claim_payment_attempt-Reach, Claimed, claim_in_tx-Claimed,
}
use dodo_invoice_service.PspClient.{charge, Psp}
use dodo_invoice_service.Lifecycle.Refines.Reserving.{reserve_or_get-Reach, finalize-same, IsSteady}
use dodo_invoice_service.Lifecycle.Refines.Settling.{finalize_payment_attempt-Reach}
use dodo_invoice_service.Error.{error_body, StatusCode}
use dodo_invoice_service.Json.{Json}

-- No attempt is ever deleted, and no task is forgotten.
Reach-attempt :
    {s t : Shop} (a i : Uuid)
    → Reach s t
    → any (is_attempt_of a i) s.attempts ≡ true
    → any (is_attempt_of a i) t.attempts ≡ true
Reach-attempt a i here h = h
Reach-attempt a i (next r (create row d f e)) h = ground (arith, Reach-attempt a i r h)
Reach-attempt a i (next r (move j now g n o e)) h = ground (arith, Reach-attempt a i r h)
Reach-attempt a i (next r (claim row p o f g e)) h = ground (arith, Reach-attempt a i r h)
Reach-attempt a i (next r (spawn task k e)) h = ground (arith, Reach-attempt a i r h)
Reach-attempt a i (next {t} r (settle b j outcome now k d e)) h =
    ground (arith, Reach-attempt a i r h, attempt_of-settle b (verdict outcome) now a i t.attempts)

Reach-task :
    {s t : Shop} (a i : Uuid)
    → Reach s t
    → any (is_task_of a i) s.tasks ≡ true
    → any (is_task_of a i) t.tasks ≡ true
Reach-task a i here h = h
Reach-task a i (next r (create row d f e)) h = ground (arith, Reach-task a i r h)
Reach-task a i (next r (move j now g n o e)) h = ground (arith, Reach-task a i r h)
Reach-task a i (next r (claim row p o f g e)) h = ground (arith, Reach-task a i r h)
Reach-task a i (next r (spawn task k e)) h = ground (arith, Reach-task a i r h)
Reach-task a i (next r (settle b j outcome now k d e)) h = ground (arith, Reach-task a i r h)

claimed_attempt :
    (b i : Uuid) (card_token : String) (w : World)
    → Ends
        (claim_payment_attempt b i card_token w)
        (λ id u. any (is_attempt_of id i) u.db.attempts ≡ true)
unfolding claim_payment_attempt
claimed_attempt b i card_token w =
    transaction_result-Ends (λ id db tasks. any (is_attempt_of id i) db.attempts ≡ true)
      (claim_in_tx b i card_token) w
      (λ v _ _.
        Ends-map (claim_in_tx b i card_token v) (λ id u. Claimed i card_token v u id)
          (λ id u. any (is_attempt_of id i) u.db.attempts ≡ true) (λ id u c. ground (arith, c.db))
          (claim_in_tx-Claimed b i card_token v))

total-same : (i : Uuid) (w : World) → shop (fetch_total_cents i w).1 ≡ shop w
unfolding fetch_total_cents
total-same i w = ground arith

-- Reading the total keeps the attempts.
kept-attempt :
    (a i : Uuid) (v u : World) (total_cents : ℤ)
    → fetch_total_cents i v ≡ (ok total_cents, u)
    → any (is_attempt_of a i) v.db.attempts ≡ true
    → any (is_attempt_of a i) u.db.attempts ≡ true
unfolding fetch_total_cents
kept-attempt a i v u total_cents e h = ground arith

pub run_task-Reach :
    (psp : Psp) (task : Task) (w : World)
    → any (is_task_of task.attempt_id task.invoice_id) w.tasks ≡ true
    → Reach (shop w) (shop (run_task psp task w).1)
unfolding run_task
run_task-Reach psp task w known =
    finalize_payment_attempt-Reach task.invoice_id task.attempt_id
      (charge psp task.total_cents task.card_token) w known

module _ (psp : Psp) (others : Others) (steady : IsSteady others) where
  await-Reach :
      (race : Race) (task : Task) (w : World)
      → any (is_task_of task.attempt_id task.invoice_id) w.tasks ≡ true
      → Reach (shop w) (shop (await psp others race task w).1)
  await-Reach finished task w known =
      let r = steady before_settle w in
      Reach-trans r (
        Reach-bind (run_task psp task) (λ body. pure (200, body_json body)) (others before_settle w)
          (run_task-Reach psp task (others before_settle w)
            (Reach-task task.attempt_id task.invoice_id r known))
          (λ body u _. here))
  await-Reach panicked task w known = here
  await-Reach elapsed task w known = here

  -- From the claim on: the task is spawned, and awaited.
  spawned-Reach :
      (race : Race) (i a : Uuid) (total_cents : ℤ) (card_token : String) (w : World)
      → any (is_attempt_of a i) w.db.attempts ≡ true
      → Reach (shop w) (
          shop
            ((do
              do_spawn (new_task i a total_cents card_token)
              await psp others race (new_task i a total_cents card_token))
              w).1)
  spawned-Reach race i a total_cents card_token w known =
      let task = new_task i a total_cents card_token in
      let w' = record w { tasks = task ∷ w.tasks } in
      Reach-trans (next here (spawn task known refl)) (await-Reach race task w' (ground arith))

  after_claim-Reach :
      (race : Race) (i a : Uuid) (card_token : String) (w : World)
      → any (is_attempt_of a i) w.db.attempts ≡ true
      → Reach (shop w) (shop (after_claim psp others race i card_token a w).1)
  after_claim-Reach race i a card_token w known =
      let r = steady before_total w in
      let v = others before_total w in
      Reach-trans r (
        Reach-bind (fetch_total_cents i)
          (λ total_cents. do
            do_spawn (new_task i a total_cents card_token)
            await psp others race (new_task i a total_cents card_token))
          v (rw (total-same i v) here)
          (λ total_cents u e.
            spawned-Reach race i a total_cents card_token u
              (kept-attempt a i v u total_cents e (Reach-attempt a i r known))))

  pub try_claim_and_pay-Reach :
      (race : Race) (b i : Uuid) (card_token : String) (w : World)
      → Reach (shop w) (shop (try_claim_and_pay psp others race b i card_token w).1)
  unfolding try_claim_and_pay
  try_claim_and_pay-Reach race b i card_token w =
      let w1 = others before_claim w in
      Reach-trans (steady before_claim w) (
        Reach-bind (claim_payment_attempt b i card_token) (after_claim psp others race i card_token)
          w1 (claim_payment_attempt-Reach b i card_token w1)
          (λ a u e. after_claim-Reach race i a card_token u (
            Ends-ok (claim_payment_attempt b i card_token w1)
              (λ id u. any (is_attempt_of id i) u.db.attempts ≡ true)
              (claimed_attempt b i card_token w1) e)))

  finalize_result-Reach :
      (b i : Uuid) (key : String) (result : Result (StatusCode × Json)) (w : World)
      → Reach (shop w) (shop (finalize_result psp others b i key result w).1)
  unfolding finalize_result
  finalize_result-Reach b i key (ok (status, body)) w =
      let v = others before_finalize w in
      Reach-trans (steady before_finalize w) (
        Reach-bind (finalize b key status body (some i) none) (λ _. pure (status, body)) v
          (rw (finalize-same b key status body (some i) none v) here) (λ a u e. here))
  finalize_result-Reach b i key (err e) w =
      let v = others before_finalize w in
      Reach-trans (steady before_finalize w) (
        Reach-bind (finalize b key e.status (error_body e) (some i) none)
          (λ _. raise {A = StatusCode × Json} e) v
          (rw (finalize-same b key e.status (error_body e) (some i) none v) here) (λ a u e. here))

  pay_reserved-Reach :
      (race : Race) (b i : Uuid) (key card_token : String) (check : IdempotencyCheck) (w : World)
      → Reach (shop w) (shop (pay_reserved psp others race b i key card_token check w).1)
  unfolding pay_reserved
  pay_reserved-Reach race b i key card_token (use_cached status body) w = here
  pay_reserved-Reach race b i key card_token proceed w =
      let (result, v) = try_claim_and_pay psp others race b i card_token w in
      Reach-trans (try_claim_and_pay-Reach race b i card_token w)
        (finalize_result-Reach b i key result v)

  -- If what others do in the gaps of a payment is made of changes of the contract, then so is what
  -- `pay_invoice` and they do together to the invoices, attempts and tasks, whatever the database
  -- fails, whatever the provider answers and however the race against the timeout ends.
  pub pay_invoice-Reach :
      (c : Crypto) (race : Race) (b i : Uuid) (header : Option String) (card_token : String)
      (w : World)
      → Reach (shop w) (shop (pay_invoice psp others c race b i header card_token w).1)
  unfolding pay_invoice
  pay_invoice-Reach c race b i none card_token w = here
  pay_invoice-Reach c race b i (some key) card_token w = elim (Bool-cases (is_blank card_token)) [
    | inl blank ↦ rw blank here
    | inr given ↦ rw given (
        Reach-bind (reserve_or_get others b key (request_hash c i card_token))
          (pay_reserved psp others race b i key card_token) w
          (reserve_or_get-Reach others steady b key (request_hash c i card_token) w)
          (λ check u _. pay_reserved-Reach race b i key card_token check u))
  ]
