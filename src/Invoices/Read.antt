-- ===== src/Invoices/Read.antt =====
-- invoice-service/src/handlers/invoices.rs: `get_invoice` and `list_invoices`.
use dodo_invoice_service.Base.{
  String, Bool, true, false, ◌&&◌, Option, none, some, List, [], ◌∷◌, str_eq, ◌==◌, keep,
}
use dodo_invoice_service.StateMachine.{parse}
use dodo_invoice_service.Error.{bad_request, not_found}
use dodo_invoice_service.Models.{Uuid, InvoiceRow, InvoiceResponse, from_row}
use dodo_invoice_service.Db.{Db, Exec, pure, ok_or, raise_if, ◌>>=◌, ◌>>◌, query}
use dodo_invoice_service.Db.Order.{order_desc}
use dodo_invoice_service.Invoices.{invoice_of, line_items_of}

unfoldable pub get_invoice : Uuid → Uuid → Exec InvoiceResponse
unfolding query from_row
get_invoice business_id invoice_id = do
  found ← query (invoice_of invoice_id business_id)
  invoice_row ← ok_or found (not_found "invoice_not_found" "no such invoice")
  line_items ← query (line_items_of invoice_id)
  pure (from_row invoice_row line_items)

-- `if let Some(state_filter) = &query.state { … }`
abbrev pub bad_filter : Option String → Bool
bad_filter none = false
bad_filter (some state_filter) = elim (parse state_filter) [ none ↦ true | some _ ↦ false ]

abbrev pub passes : Option String → InvoiceRow → Bool
passes none row = true
passes (some state_filter) row = str_eq row.state state_filter

-- WHERE business_id = $1 AND ($2::text IS NULL OR state = $2) ORDER BY created_at DESC
unfoldable pub selected : Uuid → Option String → Db → List InvoiceRow
selected business_id state_filter db =
    order_desc (λ r. r.created_at)
      (keep (λ r. r.business_id == business_id && passes state_filter r) db.invoices)

unfoldable pub with_line_items : List InvoiceRow → Exec (List InvoiceResponse)
unfolding query from_row
with_line_items [] = pure []
with_line_items (row ∷ rows) = do
  line_items ← query (line_items_of row.id)
  rest ← with_line_items rows
  pure (from_row row line_items ∷ rest)

unfoldable pub list_invoices : Uuid → Option String → Exec (List InvoiceResponse)
unfolding query with_line_items
list_invoices business_id state_filter = do
  raise_if (bad_filter state_filter) (
      bad_request "invalid_state_filter"
        "state must be one of draft, open, paid, void, uncollectible")
  rows ← query (selected business_id state_filter)
  with_line_items rows
