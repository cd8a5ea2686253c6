-- ===== src/Router/Paying.antt =====
-- The payment handler, by the rules for its statements.
use dodo_invoice_service.Db.Keeps.{
  use-Gives, bind-Gives, after-Gives, pure-Gives, raise-Gives, Gives, query-Keeps, raise_if-Keeps,
  ok_or-Keeps, pure-Keeps, fetch_one-Keeps, raise-Keeps, bind-Keeps, Keeps,
}
use dodo_invoice_service.Router.Rules.{Rules}
use dodo_invoice_service.Json.{Json}
use dodo_invoice_service.Base.{
  refl, Option-cases, inl, inr, str_eq, ◌≡◌, Bool-cases, List, is_blank, none, suc, some, Option, ℕ,
  if◌then◌else◌, String, Bool,
}
use dodo_invoice_service.Idempotency.{
  status_from, key_reused, stored, before_insert, before_total, before_select, before_finalize,
  before_settle, in_progress, before_claim, round, use_cached, Crypto, proceed, reserve_or_get,
  let_run, reserve_from, on_existing, IdempotencyCheck, Point, Others,
}
use dodo_invoice_service.Db.{Db, err, ok, Result, Task, pure, attempt, World, Exec}
use dodo_invoice_service.Models.{IdempotencyRow, Uuid}
use dodo_invoice_service.Router.Statements.{run_task-Keeps, claim_payment_attempt-Gives}
use dodo_invoice_service.Payments.Claim.{fetch_total_cents}
use dodo_invoice_service.PspClient.{Psp}
use dodo_invoice_service.Payments.Pay.{
  elapsed, panicked, finished, request_hash, body_json, new_task, await, Race, pay_invoice,
  try_claim_and_pay, finalize_result, pay_reserved,
}
use dodo_invoice_service.Error.{error_body, StatusCode}
use mathlib.Core.Bool.{false, true}
use dodo_invoice_service.Invoices.{invoice_by_id}
use Prim.Native.Nat.{zero}

module _ {P : Db → List Task → Type 0} {NewInvoice NewAttempt : Uuid → Type 0}
    {Reserved : Uuid → String → Type 0} (rules : Rules P NewInvoice NewAttempt Reserved) where
  attempt-Keeps : {A : Type 0} (m : Exec A) → Keeps P m → Keeps P (attempt m)
  attempt-Keeps m h = record { keeps = h.keeps }

  -- A request that may proceed has reserved its key.
  abbrev MayProceed : Uuid → String → IdempotencyCheck → Type 0
  MayProceed b key proceed = Reserved b key
  MayProceed b key (use_cached status body) = Unit

  on_existing-Gives :
      (b : Uuid) (key request_hash : String) (row : IdempotencyRow) (again : Exec IdempotencyCheck)
      → Gives P (MayProceed b key) again
      → Gives P (MayProceed b key) (on_existing request_hash row again)
  on_existing-Gives b key request_hash row again h =
      elim (Bool-cases (str_eq row.request_hash request_hash)) [
        | inr other ↦ rw other (raise-Gives (MayProceed b key) key_reused)
        | inl same ↦ elim (Option-cases row.response_status) [
          | inl open_row ↦ rw (same, open_row) h
          | inr (status, e) ↦ elim (Option-cases row.response_body) [
            | inl open_row ↦ rw (same, e, open_row) h
            | inr (body, f) ↦
                rw (same, e, f)
                  (pure-Gives (MayProceed b key) (use_cached (status_from status) body) tt)
          ]
        ]
      ]

  insert_or_again-Gives :
      (b : Uuid) (key : String) (inserted : Bool) (again : Exec IdempotencyCheck)
      → (inserted ≡ true → Reserved b key)
      → Gives P (MayProceed b key) again
      → Gives P (MayProceed b key) (if inserted then pure proceed else again)
  insert_or_again-Gives b key true again new h = pure-Gives (MayProceed b key) proceed (new refl)
  insert_or_again-Gives b key false again new h = h

  module _ (others : Others)
      (steady : (p : Point) (w : World)
        → P w.db w.tasks
        → P (others p w).db (others p w).tasks) where
    let_run-Keeps : (p : Point) → Keeps P (let_run others p)
    let_run-Keeps p = record { keeps = λ w h. steady p w h }

    module _ (b : Uuid) (key request_hash : String) where
      round-Gives :
          (r : ℕ) (again : Exec IdempotencyCheck) (existing : Option IdempotencyRow)
          → Gives P (MayProceed b key) again
          → Gives P (MayProceed b key) (round others b key request_hash r again existing)
      round-Gives r again (some row) h = on_existing-Gives b key request_hash row again h
      round-Gives r again none h =
          after-Gives (MayProceed b key) _ _ (let_run-Keeps (before_insert r)) (λ _.
            bind-Gives (λ inserted. inserted ≡ true → Reserved b key) (MayProceed b key) _ _
              (rules.reserve b key request_hash)
              (λ inserted new. insert_or_again-Gives b key inserted again new h))

      reserve_from-Gives :
          (n r : ℕ) → Gives P (MayProceed b key) (reserve_from others b key request_hash n r)
      unfolding reserve_from
      reserve_from-Gives zero r = raise-Gives (MayProceed b key) in_progress
      reserve_from-Gives (suc n) r =
          after-Gives (MayProceed b key) _ _ (let_run-Keeps (before_select r)) (λ _.
            after-Gives (MayProceed b key) _ _ (query-Keeps (stored b key)) (λ existing.
              round-Gives r (reserve_from others b key request_hash n (suc r)) existing
                (reserve_from-Gives n (suc r))))

      reserve_or_get-Gives : Gives P (MayProceed b key) (reserve_or_get others b key request_hash)
      unfolding reserve_or_get
      reserve_or_get-Gives = reserve_from-Gives 15 0

    finalize_result-Keeps :
        (psp : Psp) (b i : Uuid) (key : String) (r : Result (StatusCode × Json))
        → Reserved b key
        → Keeps P (finalize_result psp others b i key r)
    unfolding finalize_result
    finalize_result-Keeps psp b i key (ok (status, body)) mine =
        bind-Keeps _ _ (let_run-Keeps before_finalize) (λ _.
          bind-Keeps _ _ (rules.answer b i key status body mine) (λ _. pure-Keeps (status, body)))
    finalize_result-Keeps psp b i key (err e) mine =
        bind-Keeps _ _ (let_run-Keeps before_finalize) (λ _.
          bind-Keeps _ _ (rules.answer b i key e.status (error_body e) mine) (λ _. raise-Keeps e))

    await-Keeps :
        (psp : Psp) (race : Race) (task : Task)
        → NewAttempt task.attempt_id
        → Keeps P (await psp others race task)
    await-Keeps psp finished task new = bind-Keeps _ _ (let_run-Keeps before_settle) (λ _.
        bind-Keeps _ _ (run_task-Keeps rules psp task new)
          (λ body. pure-Keeps (200, body_json body)))
    await-Keeps psp panicked task new = raise-Keeps _
    await-Keeps psp elapsed task new = pure-Keeps _

    fetch_total_cents-Keeps : (i : Uuid) → Keeps P (fetch_total_cents i)
    unfolding fetch_total_cents
    fetch_total_cents-Keeps i =
        bind-Keeps _ _ (fetch_one-Keeps (invoice_by_id i)) (λ row. pure-Keeps row.total_cents)

    try_claim_and_pay-Keeps :
        (psp : Psp) (race : Race) (b i : Uuid) (card_token : String)
        → Keeps P (try_claim_and_pay psp others race b i card_token)
    unfolding try_claim_and_pay
    try_claim_and_pay-Keeps psp race b i card_token =
        bind-Keeps _ _ (let_run-Keeps before_claim) (λ _.
          use-Gives NewAttempt _ _ (claim_payment_attempt-Gives rules b i card_token) (λ a new.
            bind-Keeps _ _ (let_run-Keeps before_total) (λ _.
              bind-Keeps _ _ (fetch_total_cents-Keeps i) (λ cents.
                bind-Keeps _ _ (rules.spawn (new_task i a cents card_token) new)
                  (λ _. await-Keeps psp race (new_task i a cents card_token) new)))))

    pay_reserved-Keeps :
        (psp : Psp) (race : Race) (b i : Uuid) (key card_token : String) (check : IdempotencyCheck)
        → MayProceed b key check
        → Keeps P (pay_reserved psp others race b i key card_token check)
    unfolding pay_reserved
    pay_reserved-Keeps psp race b i key card_token (use_cached status body) mine =
        pure-Keeps (status, body)
    pay_reserved-Keeps psp race b i key card_token proceed mine =
        bind-Keeps _ _
          (attempt-Keeps (try_claim_and_pay psp others race b i card_token)
            (try_claim_and_pay-Keeps psp race b i card_token))
          (λ r. finalize_result-Keeps psp b i key r mine)

    pub pay_invoice-Keeps :
        (psp : Psp) (c : Crypto) (race : Race) (b i : Uuid) (header : Option String)
        (card_token : String)
        → Keeps P (pay_invoice psp others c race b i header card_token)
    unfolding pay_invoice
    pay_invoice-Keeps psp c race b i header card_token =
        bind-Keeps _ _ (ok_or-Keeps header _) (λ key.
          bind-Keeps _ _ (raise_if-Keeps (is_blank card_token) _) (λ _.
            use-Gives (MayProceed b key) _ _
              (reserve_or_get-Gives b key (request_hash c i card_token))
              (λ check mine. pay_reserved-Keeps psp race b i key card_token check mine)))
