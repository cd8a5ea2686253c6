-- ===== src/Invoices/Transition.antt =====
-- invoice-service/src/handlers/invoices.rs: `transition`, and the three handlers that are instances of it.
use dodo_invoice_service.Base.{ℕ, String, Bool, not, List, [], ◌∷◌, ◌==◌, if◌then◌else◌}
use dodo_invoice_service.StateMachine.{
  InvoiceState, open_state, void, uncollectible, as_str, parse, can_finalize, can_void,
  can_mark_uncollectible,
}
use dodo_invoice_service.Error.{internal, not_found, reject_invalid_transition}
use dodo_invoice_service.Models.{Uuid, InvoiceRow, InvoiceResponse, from_row}
use dodo_invoice_service.Db.{
  Exec, pure, ok_or, raise_if, ◌>>=◌, ◌>>◌, query, fetch_one, transaction, execute,
}
use dodo_invoice_service.Invoices.{invoice_by_id, invoice_of, line_items_of}

-- UPDATE invoices SET state = $2, updated_at = now() WHERE id = $1
abbrev pub set_state : Uuid → String → ℕ → List InvoiceRow → List InvoiceRow
set_state invoice_id target now [] = []
set_state invoice_id target now (r ∷ rs) =
    (if r.id == invoice_id then record r { state = target; updated_at = now } else r)
    ∷ set_state invoice_id target now rs

-- `transition`, between its `begin` and its `commit`.
unfoldable pub transition_in_tx :
    Uuid → Uuid → String → (InvoiceState → Bool) → InvoiceState → Exec InvoiceResponse
unfolding query execute fetch_one from_row
transition_in_tx business_id invoice_id action allowed target = do
  found ← query (invoice_of invoice_id business_id)
  row ← ok_or found (not_found "invoice_not_found" "no such invoice")
  current_state ← ok_or (parse row.state) (internal "invoice has an unrecognized state")
  raise_if (not (allowed current_state)) (reject_invalid_transition action current_state)
  execute (λ w. record w.db { invoices = set_state invoice_id (as_str target) w.now w.db.invoices })
  invoice_row ← fetch_one (invoice_by_id invoice_id)
  line_items ← query (line_items_of invoice_id)
  pure (from_row invoice_row line_items)

unfoldable pub transition :
    Uuid → Uuid → String → (InvoiceState → Bool) → InvoiceState → Exec InvoiceResponse
unfolding transaction transition_in_tx
transition business_id invoice_id action allowed target =
    transaction (transition_in_tx business_id invoice_id action allowed target)

unfoldable pub finalize_invoice : Uuid → Uuid → Exec InvoiceResponse
unfolding transition
finalize_invoice business_id invoice_id =
    transition business_id invoice_id "finalize" can_finalize open_state

unfoldable pub void_invoice : Uuid → Uuid → Exec InvoiceResponse
unfolding transition
void_invoice business_id invoice_id = transition business_id invoice_id "void" can_void void

unfoldable pub mark_uncollectible : Uuid → Uuid → Exec InvoiceResponse
unfolding transition
mark_uncollectible business_id invoice_id =
    transition business_id invoice_id "mark-uncollectible" can_mark_uncollectible uncollectible
