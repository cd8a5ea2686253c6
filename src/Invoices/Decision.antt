-- ===== src/Invoices/Decision.antt =====
-- When an action on an invoice succeeds.
use dodo_invoice_service.Base.{
  inr, Bool-cases, inl, ℕ, Option-cases, String, ◌≡◌, refl, Bool, false, ◌&&◌, Option, none, some,
  List, [], ◌∷◌, arith, ◌==◌, find,
}
use dodo_invoice_service.StateMachine.{InvoiceState, parse, as_str}
use dodo_invoice_service.Models.{Uuid, InvoiceRow}
use dodo_invoice_service.Db.{World}
use dodo_invoice_service.Invoices.{invoice_of}
use dodo_invoice_service.Invoices.Transition.{set_state, transition}
use dodo_invoice_service.Payments.Decision.{is_ok}

abbrev pub accepts : (InvoiceState → Bool) → Option InvoiceRow → Bool
accepts allowed none = false
accepts allowed (some row) = elim (parse row.state) [ none ↦ false | some s ↦ allowed s ]

-- A row of the business that is found is still there after its UPDATE, in the new state.
updated_row :
    (i b : Uuid) (target : String) (now : ℕ) (rs : List InvoiceRow) (row : InvoiceRow)
    → find (λ r. r.id == i && r.business_id == b) rs ≡ some row
    → (r : InvoiceRow) × (find (λ r. r.id == i) (set_state i target now rs) ≡ some r)
      × (r.state ≡ target)
updated_row i b target now [] row h = cc
updated_row i b target now (r ∷ rs) row h = elim (Bool-cases (r.id == i)) [
  | inl e ↦ (record r { state = target; updated_at = now }, ground arith, refl)
  | inr e ↦
      let (r', found, s) = updated_row i b target now rs row (ground arith) in (r', ground arith, s)
]

-- If no statement fails, an action succeeds exactly when the business has the invoice and its test
-- accepts the state of the invoice.
pub transition_iff :
    (b i : Uuid) (action : String) (allowed : InvoiceState → Bool) (target : InvoiceState)
    (w : World)
    → w.faults ≡ []
    → is_ok (transition b i action allowed target w).0 ≡ accepts allowed (invoice_of i b w.db)
unfolding transition
transition_iff b i action allowed target w f = elim (Option-cases (invoice_of i b w.db)) [
  | inl missing ↦ ground arith
  | inr (row, found) ↦ elim (Option-cases (parse row.state)) [
    | inl unreadable ↦ ground arith
    | inr (s, readable) ↦
        let (r, there, _) = updated_row i b (as_str target) w.now w.db.invoices row found in
        ground arith
  ]
]
