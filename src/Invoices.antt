-- ===== src/Invoices.antt =====
-- invoice-service/src/handlers/invoices.rs: the queries that its handlers share. The handlers stand
-- in Invoices/Create.antt, Invoices/Read.antt and Invoices/Transition.antt.
pub mod Create
pub mod Read
pub mod Transition
pub mod Isolation
pub mod Theirs
pub mod Listing
pub mod Decision
use dodo_invoice_service.Base.{
  ℕ, String, Bool, true, false, not, ◌&&◌, ◌||◌, Option, none, some, List, [], ◌∷◌, str_eq, ℤ, pos,
  ◌+ℤ◌, ◌*ℤ◌, leb_ℤ, ltb_ℤ, wrap_i64, ◌==◌, any, find, keep, if◌then◌else◌,
}
use dodo_invoice_service.Json.{Json, text, int, uuid, obj, end, field}
use dodo_invoice_service.StateMachine.{
  InvoiceState, open_state, void, uncollectible, as_str, parse, can_finalize, can_void,
  can_mark_uncollectible,
}
use dodo_invoice_service.Error.{
  StatusCode, bad_request, internal, not_found, reject_invalid_transition,
}
use dodo_invoice_service.Models.{
  Uuid, InvoiceRow, LineItemRow, LineItemInput, CreateInvoiceRequest, InvoiceResponse, from_row,
}
use dodo_invoice_service.Db.{
  Db, World, Exec, Outcome, done, violates, pure, ok_or, raise_if, ◌>>=◌, ◌>>◌, statement,
  or_database_error, query, fetch_one, transaction, execute, gen_random_uuid,
}
use dodo_invoice_service.Db.Order.{order_desc}
use dodo_invoice_service.Webhooks.{enqueue_event}

abbrev pub invoice_by_id : Uuid → Db → Option InvoiceRow
invoice_by_id invoice_id db = find (λ r. r.id == invoice_id) db.invoices

-- WHERE id = $1 AND business_id = $2
abbrev pub invoice_of : Uuid → Uuid → Db → Option InvoiceRow
invoice_of invoice_id business_id db =
    find (λ r. r.id == invoice_id && r.business_id == business_id) db.invoices

abbrev pub line_items_of : Uuid → Db → List LineItemRow
line_items_of invoice_id db = keep (λ l. l.invoice_id == invoice_id) db.line_items
