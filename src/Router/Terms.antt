-- ===== src/Router/Terms.antt =====
-- The terms of an invoice: its row without the state and the time of the last change.
use dodo_invoice_service.Base.{
  inr, inl, refl, arith, ◌==◌, Bool-cases, false, if◌then◌else◌, ℤ, ℕ, ◌∷◌, Option, String, ◌≡◌,
  any, List, none, some,
}
use dodo_invoice_service.Models.{NaiveDate, DateTime, Uuid, InvoiceRow}
use dodo_invoice_service.Db.{World}
use dodo_invoice_service.Lifecycle.{
  here, settle, spawn, claim, move, create, settle_invoices, next, Reach, Shop,
}
use dodo_invoice_service.Router.Runs.{Run-History, Run}
use dodo_invoice_service.Lifecycle.Tables.{invoice_has_id}
use dodo_invoice_service.History.{History-Reach}
use dodo_invoice_service.Payments.Settle.{verdict, close_open}
use dodo_invoice_service.Invoices.Transition.{set_state}
use mathlib.Core.List.{[]}
use dodo_invoice_service.StateMachine.{as_str}

-- All of a row but its state and the time of the last change to it.
pub record Terms : Type 0 where
  pub business_id : Uuid
  pub customer_id : Uuid
  pub currency : String
  pub total_cents : ℤ
  pub due_date : Option NaiveDate
  pub created_at : DateTime

abbrev pub terms : InvoiceRow → Terms
terms r = record {
  business_id = r.business_id;
  customer_id = r.customer_id;
  currency = r.currency;
  total_cents = r.total_cents;
  due_date = r.due_date;
  created_at = r.created_at;
}

abbrev pub terms_of : Uuid → List InvoiceRow → Option Terms
terms_of i [] = none
terms_of i (r ∷ rs) = if r.id == i then some (terms r) else terms_of i rs

terms_of-set_state :
    (i k : Uuid) (target : String) (now : ℕ) (rs : List InvoiceRow)
    → terms_of i (set_state k target now rs) ≡ terms_of i rs
terms_of-set_state i k target now [] = refl
terms_of-set_state i k target now (r ∷ rs) = ground (arith, terms_of-set_state i k target now rs)

terms_of-close_open :
    (i k : Uuid) (target : String) (now : ℕ) (rs : List InvoiceRow)
    → terms_of i (close_open k target now rs) ≡ terms_of i rs
terms_of-close_open i k target now [] = refl
terms_of-close_open i k target now (r ∷ rs) = ground (arith, terms_of-close_open i k target now rs)

terms_of-settle :
    (i k : Uuid) (target : Option String) (now : ℕ) (rs : List InvoiceRow)
    → terms_of i (settle_invoices k target now rs) ≡ terms_of i rs
terms_of-settle i k none now rs = refl
terms_of-settle i k (some target) now rs = terms_of-close_open i k target now rs

terms_of-fresh :
    (i : Uuid) (rs : List InvoiceRow) → any (invoice_has_id i) rs ≡ false → terms_of i rs ≡ none
terms_of-fresh i [] h = refl
terms_of-fresh i (r ∷ rs) h = ground (arith, terms_of-fresh i rs)

terms_of-create :
    (i : Uuid) (row : InvoiceRow) (t : Terms) (rs : List InvoiceRow)
    → any (invoice_has_id row.id) rs ≡ false
    → terms_of i rs ≡ some t
    → terms_of i (row ∷ rs) ≡ some t
terms_of-create i row t rs fresh h = elim (Bool-cases (row.id == i)) [
  | inl same ↦ ground (arith, terms_of-fresh row.id rs)
  | inr other ↦ rw other h
]

Reach-terms :
    {s t : Shop} (i : Uuid) (x : Terms)
    → Reach s t
    → terms_of i s.invoices ≡ some x
    → terms_of i t.invoices ≡ some x
Reach-terms i x here h = h
Reach-terms i x (next {t} r (create row d fresh e)) h =
    rw e (terms_of-create i row x t.invoices fresh (Reach-terms i x r h))
Reach-terms i x (next {t} r (move k now {to} g n o e)) h =
    rw (e, terms_of-set_state i k (as_str to) now t.invoices) (Reach-terms i x r h)
Reach-terms i x (next r (claim row p o f g e)) h = rw e (Reach-terms i x r h)
Reach-terms i x (next r (spawn task k e)) h = rw e (Reach-terms i x r h)
Reach-terms i x (next {t} r (settle b j outcome now k d e)) h =
    rw (e, terms_of-settle i j (verdict outcome).invoice_target_state now t.invoices)
      (Reach-terms i x r h)

-- However requests of the API, payment tasks and ticks of the dispatcher interleave, an invoice that is there
-- stays there, with the business, the customer, the total, the due date and the time of creation that it has.
pub terms_never_change :
    {w v : World} (i : Uuid) (t : Terms)
    → terms_of i w.db.invoices ≡ some t
    → Run w v
    → terms_of i v.db.invoices ≡ some t
terms_never_change i t h run = Reach-terms i t (History-Reach (Run-History run)) h
