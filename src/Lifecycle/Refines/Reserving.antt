-- ===== src/Lifecycle/Refines/Reserving.antt =====
-- `reserve_or_get` and `finalize` of the idempotency store touch no invoice, attempt or task.
use dodo_invoice_service.Base.{
  if◌then◌else◌, ℕ, zero, suc, String, ◌≡◌, inl, inr, Bool, true, false, Option, none, some, arith,
  str_eq, Option-cases, Bool-cases,
}
use dodo_invoice_service.Json.{Json}
use dodo_invoice_service.Error.{StatusCode}
use dodo_invoice_service.Models.{Uuid, IdempotencyRow}
use dodo_invoice_service.Db.{pure, Db, World, Exec, statement, query}
use dodo_invoice_service.Idempotency.{
  proceed, Others, Point, IdempotencyCheck, before_select, before_insert, stored, insert_key,
  on_existing, round, reserve_from, reserve_or_get, finalize,
}
use dodo_invoice_service.Lifecycle.{Reach-trans, shop, Reach, here}
use dodo_invoice_service.Lifecycle.Refines.Transactions.{Reach-bind}

-- What others do keeps to the contract.
abbrev pub IsSteady : Others → Type 0
IsSteady others = (p : Point) (w : World) → Reach (shop w) (shop (others p w))

on_existing-Reach :
    (request_hash : String) (row : IdempotencyRow) (again : Exec IdempotencyCheck) (u : World)
    → Reach (shop u) (shop (again u).1)
    → Reach (shop u) (shop (on_existing request_hash row again u).1)
on_existing-Reach request_hash row again u h =
    elim (Bool-cases (str_eq row.request_hash request_hash)) [
      | inr other ↦ rw other here
      | inl same ↦ elim (Option-cases row.response_status) [
        | inl open_row ↦ rw (same, open_row) h
        | inr (status, e) ↦ elim (Option-cases row.response_body) [
          | inl open_row ↦ rw (same, e, open_row) h
          | inr (body, f) ↦ rw (same, e, f) here
        ]
      ]
    ]

query-same : {A : Type 0} (read : Db → A) (w : World) → shop (query read w).1 ≡ shop w
unfolding query
query-same read w = ground arith

insert_key-same :
    (b : Uuid) (key request_hash : String) (w : World)
    → shop (statement (insert_key b key request_hash) w).1 ≡ shop w
unfolding statement insert_key
insert_key-same b key request_hash w = ground arith

pub finalize-same :
    (b : Uuid) (key : String) (status : StatusCode) (body : Json) (i a : Option Uuid) (w : World)
    → shop (finalize b key status body i a w).1 ≡ shop w
unfolding finalize
finalize-same b key status body i a w = ground arith

module _ (others : Others) (steady : IsSteady others) (b : Uuid) (key request_hash : String) where
  insert_or_again :
      (inserted : Bool) (again : Exec IdempotencyCheck) (u : World)
      → Reach (shop u) (shop (again u).1)
      → Reach (shop u) (shop ((if inserted then pure proceed else again) u).1)
  insert_or_again true again u h = here
  insert_or_again false again u h = h

  round-Reach :
      (r : ℕ) (again : Exec IdempotencyCheck)
      → ((u : World) → Reach (shop u) (shop (again u).1))
      → (existing : Option IdempotencyRow) (u : World)
      → Reach (shop u) (shop (round others b key request_hash r again existing u).1)
  round-Reach r again h (some row) u = on_existing-Reach request_hash row again u (h u)
  round-Reach r again h none u = Reach-trans (steady (before_insert r) u) (
      Reach-bind (statement (insert_key b key request_hash))
        (λ inserted. if inserted then pure proceed else again) (others (before_insert r) u)
        (rw (insert_key-same b key request_hash (others (before_insert r) u)) here)
        (λ inserted v _. insert_or_again inserted again v (h v)))

  reserve_from-Reach :
      (n r : ℕ) (w : World) → Reach (shop w) (shop (reserve_from others b key request_hash n r w).1)
  unfolding reserve_from
  reserve_from-Reach zero r w = here
  reserve_from-Reach (suc n) r w = Reach-trans (steady (before_select r) w) (
      Reach-bind (query (stored b key))
        (round others b key request_hash r (reserve_from others b key request_hash n (suc r)))
        (others (before_select r) w)
        (rw (query-same (stored b key) (others (before_select r) w)) here)
        (λ existing u _.
          round-Reach r (reserve_from others b key request_hash n (suc r))
            (reserve_from-Reach n (suc r)) existing u))

  pub reserve_or_get-Reach :
      (w : World) → Reach (shop w) (shop (reserve_or_get others b key request_hash w).1)
  unfolding reserve_or_get
  reserve_or_get-Reach w = reserve_from-Reach 15 0 w
