-- ===== src/Invoices/Theirs.antt =====
-- What an action of one business leaves to the others.
use dodo_invoice_service.StateMachine.{
  uncollectible, can_mark_uncollectible, void, as_str, parse, can_void, open_state, can_finalize,
  InvoiceState,
}
use dodo_invoice_service.Base.{
  ap, inr, refl, inl, arith, Bool-cases, Option-cases, ◌≤◌, ◌∷◌, ◌<◌, false, ◌&&◌, ◌≡◌, ◌==◌, Bool,
  count, ℕ, keep, find, String, List, some,
}
use dodo_invoice_service.Models.{InvoiceRow, Uuid}
use dodo_invoice_service.Invoices.Transition.{
  set_state, mark_uncollectible, void_invoice, finalize_invoice, transition,
}
use dodo_invoice_service.Db.{World, Db}
use mathlib.Core.List.{[]}
use dodo_invoice_service.Invoices.{invoice_of}

abbrev pub theirs : Uuid → Db → List InvoiceRow
theirs other db = keep (λ r. r.business_id == other) db.invoices

set_state-none :
    (i : Uuid) (target : String) (now : ℕ) (rs : List InvoiceRow)
    → count (λ r. r.id == i) rs ≡ 0
    → set_state i target now rs ≡ rs
set_state-none i target now [] h = refl
set_state-none i target now (r ∷ rs) h = ground (arith, set_state-none i target now rs)

count-of_found :
    (i b : Uuid) (rs : List InvoiceRow) (row : InvoiceRow)
    → find (λ r. r.id == i && r.business_id == b) rs ≡ some row
    → 0 < count (λ r. r.id == i) rs
count-of_found i b [] row h = cc
count-of_found i b (r ∷ rs) row h = ground (arith, count-of_found i b rs row)

-- The UPDATE of an invoice of business `b`, where its id is unique.
set_state-theirs :
    (i b other : Uuid) (target : String) (now : ℕ) (rs : List InvoiceRow) (row : InvoiceRow)
    → (b == other) ≡ false
    → count (λ r. r.id == i) rs ≤ 1
    → find (λ r. r.id == i && r.business_id == b) rs ≡ some row
    → keep (λ r. r.business_id == other) (set_state i target now rs)
      ≡ keep (λ r. r.business_id == other) rs
set_state-theirs i b other target now [] row n u h = refl
set_state-theirs i b other target now (r ∷ rs) row n u h = elim (Bool-cases (r.id == i)) [
  | inl same ↦ elim (Bool-cases (r.business_id == b)) [
    | inl ours ↦
        let not_theirs : (r.business_id == other) ≡ false = ground arith in
        rw (same, not_theirs)
          (ap (keep (λ x. x.business_id == other)) (set_state-none i target now rs (ground arith)))
    | inr not_ours ↦ absurd (ground (arith, count-of_found i b rs row))
  ]
  | inr differ ↦ rw differ (ground (arith, set_state-theirs i b other target now rs row n))
]

transition-theirs :
    (b other i : Uuid) (action : String) (allowed : InvoiceState → Bool) (target : InvoiceState)
    (w : World)
    → (b == other) ≡ false
    → count (λ r. r.id == i) w.db.invoices ≤ 1
    → theirs other (transition b i action allowed target w).1.db ≡ theirs other w.db
unfolding transition
transition-theirs b other i action allowed target w n u =
    elim (Option-cases (invoice_of i b w.db)) [
      | inl missing ↦ ground arith
      | inr (row, found) ↦ elim (Option-cases (parse row.state)) [
        | inl unreadable ↦ ground arith
        | inr (s, readable) ↦
            let same =
              set_state-theirs i b other (as_str target) w.now w.db.invoices row n u found in
            ground arith
      ]
    ]

-- Where the id is that of one invoice at most, the finalization, the voiding and the writing off by one business
-- leave the invoices of every other business as they were, however they end.
pub transitions_spare_others :
    (b other i : Uuid) (w : World)
    → (b == other) ≡ false
    → count (λ r. r.id == i) w.db.invoices ≤ 1
    → (theirs other (finalize_invoice b i w).1.db ≡ theirs other w.db)
      × (theirs other (void_invoice b i w).1.db ≡ theirs other w.db)
      × (theirs other (mark_uncollectible b i w).1.db ≡ theirs other w.db)
unfolding finalize_invoice void_invoice mark_uncollectible
transitions_spare_others b other i w n u = (
  transition-theirs b other i "finalize" can_finalize open_state w n u,
  transition-theirs b other i "void" can_void void w n u,
  transition-theirs b other i "mark-uncollectible" can_mark_uncollectible uncollectible w n u,
)
