-- ===== src/Invoices/Create.antt =====
-- invoice-service/src/handlers/invoices.rs: `create_invoice`, which validates, computes the total and inserts in one transaction.
pub mod Total
pub mod Billed
use dodo_invoice_service.Base.{
  ℕ, Bool, true, false, not, ◌&&◌, ◌||◌, List, [], ◌∷◌, ℤ, pos, ◌+ℤ◌, ◌*ℤ◌, leb_ℤ, ltb_ℤ, wrap_i64,
  ◌==◌, any, if◌then◌else◌,
}
use dodo_invoice_service.Json.{Json, text, int, uuid, obj, end, field}
use dodo_invoice_service.Error.{StatusCode, bad_request}
use dodo_invoice_service.Models.{
  Uuid, InvoiceRow, LineItemRow, LineItemInput, CreateInvoiceRequest, InvoiceResponse, from_row,
}
use dodo_invoice_service.Db.{
  Db, World, Exec, Outcome, done, violates, pure, raise_if, ◌>>=◌, ◌>>◌, statement,
  or_database_error, query, fetch_one, transaction, gen_random_uuid,
}
use dodo_invoice_service.Webhooks.{enqueue_event}
use dodo_invoice_service.Invoices.{invoice_by_id}

-- The loop over the line items at the head of `create_invoice`.
unfoldable pub check_items : List LineItemInput → Exec (Unit {0})
check_items [] = pure tt
check_items (item ∷ rest) = do
  raise_if (leb_ℤ item.quantity (pos 0))
      (bad_request "invalid_line_item" "quantity must be positive")
  raise_if (ltb_ℤ item.unit_amount_cents (pos 0))
      (bad_request "invalid_line_item" "unit_amount_cents must not be negative")
  check_items rest

-- `i.quantity * i.unit_amount_cents` of a release build, which wraps.
unfoldable pub amount : LineItemInput → ℤ
amount item = wrap_i64 (item.quantity *ℤ item.unit_amount_cents)

-- `.sum()`, from the left, wrapping at each addition.
unfoldable pub total_from : ℤ → List LineItemInput → ℤ
total_from acc [] = acc
total_from acc (item ∷ rest) = total_from (wrap_i64 (acc +ℤ amount item)) rest

unfoldable pub total : List LineItemInput → ℤ
unfolding total_from
total items = total_from (pos 0) items

-- SELECT EXISTS(SELECT 1 FROM customers WHERE id = $1 AND business_id = $2)
abbrev pub customer_exists : Uuid → Uuid → Db → Bool
customer_exists customer_id business_id db =
    any (λ c. c.id == customer_id && c.business_id == business_id) db.customers

abbrev pub new_invoice : Uuid → Uuid → CreateInvoiceRequest → ℤ → ℕ → InvoiceRow
new_invoice id business_id req total_cents now = record {
  id = id;
  business_id = business_id;
  customer_id = req.customer_id;
  state = "draft";
  currency = "USD";
  total_cents = total_cents;
  due_date = req.due_date;
  created_at = now;
  updated_at = now;
}

-- CHECK (total_cents >= 0), and the primary key.
unfoldable pub insert_invoice : Uuid → CreateInvoiceRequest → ℤ → World → Outcome Uuid × World
insert_invoice business_id req total_cents w =
    let (id, w') = gen_random_uuid w in
    if ltb_ℤ total_cents (pos 0)
    then (violates "invoices_total_cents_check", w')
    else if any (λ r. r.id == id) w'.db.invoices
    then (violates "invoices_pkey", w')
    else (
      done id,
      record w' {
        db = record w'.db {
          invoices = new_invoice id business_id req total_cents w'.now ∷ w'.db.invoices;
        };
      },
    )

abbrev pub new_line_item : Uuid → Uuid → LineItemInput → LineItemRow
new_line_item id invoice_id item = record {
  id = id;
  invoice_id = invoice_id;
  description = item.description;
  quantity = item.quantity;
  unit_amount_cents = item.unit_amount_cents;
  amount_cents = amount item;
}

-- CHECK (quantity > 0), (unit_amount_cents >= 0), (amount_cents >= 0), and the primary key.
unfoldable pub insert_item : Uuid → LineItemInput → World → Outcome LineItemRow × World
insert_item invoice_id item w =
    let (id, w') = gen_random_uuid w in
    let row = new_line_item id invoice_id item in
    if leb_ℤ item.quantity (pos 0)
      || (ltb_ℤ item.unit_amount_cents (pos 0) || ltb_ℤ row.amount_cents (pos 0))
    then (violates "invoice_line_items_check", w')
    else if any (λ r. r.id == id) w'.db.line_items
    then (violates "invoice_line_items_pkey", w')
    else (done row, record w' { db = record w'.db { line_items = row ∷ w'.db.line_items } })

unfoldable pub insert_items : Uuid → List LineItemInput → Exec (List LineItemRow)
unfolding insert_item statement
insert_items invoice_id [] = pure []
insert_items invoice_id (item ∷ rest) = do
  inserted ← statement (insert_item invoice_id item)
  row ← or_database_error inserted
  rows ← insert_items invoice_id rest
  pure (row ∷ rows)

abbrev pub created_payload : Uuid → Uuid → ℤ → Json
created_payload invoice_id customer_id total_cents = obj (
    field "event" (text "invoice.created") (
      field "invoice_id" (uuid invoice_id)
        (field "customer_id" (uuid customer_id) (field "total_cents" (int total_cents) end))))

-- The transaction of `create_invoice`.
unfoldable pub create_in_tx : Uuid → CreateInvoiceRequest → Exec InvoiceResponse
unfolding query statement insert_invoice insert_items enqueue_event fetch_one from_row
create_in_tx business_id req = do
  exists ← query (customer_exists req.customer_id business_id)
  raise_if (not exists) (bad_request "invalid_customer" "no such customer for this business")
  let total_cents = total req.line_items
  inserted ← statement (insert_invoice business_id req total_cents)
  invoice_id ← or_database_error inserted
  line_items ← insert_items invoice_id req.line_items
  enqueue_event business_id "invoice.created"
      (created_payload invoice_id req.customer_id total_cents)
  invoice_row ← fetch_one (invoice_by_id invoice_id)
  pure (from_row invoice_row line_items)

abbrev pub is_empty : List LineItemInput → Bool
is_empty [] = true
is_empty (_ ∷ _) = false

unfoldable pub create_invoice : Uuid → CreateInvoiceRequest → Exec (StatusCode × InvoiceResponse)
unfolding check_items transaction create_in_tx
create_invoice business_id req = do
  raise_if (is_empty req.line_items)
      (bad_request "invalid_invoice" "at least one line item is required")
  check_items req.line_items
  created ← transaction (create_in_tx business_id req)
  pure (201, created)
