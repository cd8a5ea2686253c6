-- ===== src/Lifecycle/Refines/Found.antt =====
-- What a row that a query has found says of the tables.
use dodo_invoice_service.Base.{
  eq_refl, ◌≡◌, ◌&&◌, true, some, List, [], ◌∷◌, arith, ◌==◌, any, find,
}
use dodo_invoice_service.StateMachine.{InvoiceState, as_str, parse}
use dodo_invoice_service.StateMachine.Text.{parse_iff}
use dodo_invoice_service.Models.{Uuid, InvoiceRow}
use dodo_invoice_service.Lifecycle.Tables.{is_in_state}

state-of_found :
    (i b : Uuid) (rs : List InvoiceRow) (row : InvoiceRow)
    → find (λ r. r.id == i && r.business_id == b) rs ≡ some row
    → any (is_in_state i row.state) rs ≡ true
state-of_found i b [] row h = cc
state-of_found i b (r ∷ rs) row h = ground (arith, state-of_found i b rs row, eq_refl row.state)

-- An invoice that was found for its business in a state is in that state.
pub in_state-of_found :
    (i b : Uuid) (rs : List InvoiceRow) (row : InvoiceRow) (s : InvoiceState)
    → find (λ r. r.id == i && r.business_id == b) rs ≡ some row
    → parse row.state ≡ some s
    → any (is_in_state i (as_str s)) rs ≡ true
in_state-of_found i b rs row s h e =
    rw (← (parse_iff row.state s).0 e) (state-of_found i b rs row h)
