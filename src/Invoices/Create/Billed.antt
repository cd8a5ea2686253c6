-- ===== src/Invoices/Create/Billed.antt =====
-- What `create_invoice` stores: the invoice and its line items, as the response shows them.
use dodo_invoice_service.Db.Ends.{transaction_result-Ends, continue, Ends}
use dodo_invoice_service.Lifecycle.Refines.Creating.{
  check_items_pure, item_rows, create_in_tx-Created, Created, insert_items-Inserted, item_done,
  invoice_inserted,
}
use dodo_invoice_service.Invoices.Create.{
  check_items, is_empty, new_invoice, create_invoice, insert_items, create_in_tx, total,
  created_payload,
}
use dodo_invoice_service.Webhooks.Outbox.{enqueue_event-Enqueued}
use dodo_invoice_service.Models.{
  from_row, InvoiceRow, InvoiceResponse, LineItemInput, CreateInvoiceRequest, LineItemRow, Uuid,
}
use dodo_invoice_service.Base.{
  map, sym, ap, ◌∙◌, inr, inl, refl, Bool-cases, ◌∷◌, arith, ◌+◌, ◌≡◌, count, ℕ, ◌&&◌, List, ◌==◌,
  Bool,
}
use dodo_invoice_service.Db.{err, Exec, ok, Result, World, Db, transaction, pure, ◌>>=◌}
use mathlib.Core.List.{[]}
use dodo_invoice_service.Lifecycle.Refines.Transactions.{Ends-map}

-- A line item of the invoice that passes a test.
abbrev pub is_item : Uuid → (LineItemRow → Bool) → LineItemRow → Bool
is_item i p l = l.invoice_id == i && p l

-- How many of them the tables have.
abbrev pub items_in : Uuid → (LineItemRow → Bool) → Db → ℕ
items_in i p db = count (is_item i p) db.line_items

module _ (p : LineItemRow → Bool) where
  insert_items-counts :
      (i : Uuid) (items : List LineItemInput) (v : World)
      → Ends
          (insert_items i items v)
          (λ rows u. items_in i p u.db ≡ count p rows + items_in i p v.db)
  unfolding insert_items
  insert_items-counts i [] v = ground arith
  insert_items-counts i (item ∷ rest) v =
      ground (arith, insert_items-counts i rest (item_done i item v))

  create_in_tx-counts :
      (b : Uuid) (req : CreateInvoiceRequest) (v : World)
      → Ends
          (create_in_tx b req v)
          (λ resp u. items_in resp.id p u.db ≡ count p resp.line_items + items_in resp.id p v.db)
  unfolding create_in_tx
  create_in_tx-counts b req v =
      let id = v.uuid_at v.drawn in
      let w = invoice_inserted b req v in
      let payload = created_payload id req.customer_id (total req.line_items) in
      ground (
        arith,
        insert_items-counts id req.line_items w,
        insert_items-Inserted id req.line_items w,
        enqueue_event-Enqueued b "invoice.created" payload (insert_items id req.line_items w).1,
      )

-- What a line item says of the request.
abbrev pub as_input : LineItemRow → LineItemInput
as_input l = record {
  description = l.description;
  quantity = l.quantity;
  unit_amount_cents = l.unit_amount_cents;
}

-- What the response says of the tables: `db` before the request, `db'` after it.
pub record Billed (b : Uuid) (req : CreateInvoiceRequest) (db : Db) (resp : InvoiceResponse)
    (db' : Db) : Type 0 where
  pub row : InvoiceRow
  pub invoices : db'.invoices ≡ row ∷ db.invoices
  pub resp_is : resp ≡ from_row row resp.line_items
  pub owner : row.business_id ≡ b
  pub lines : map as_input resp.line_items ≡ req.line_items
  pub total_is : row.total_cents ≡ total req.line_items
  pub items :
      (p : LineItemRow → Bool)
      → items_in resp.id p db' ≡ count p resp.line_items + items_in resp.id p db

-- Two facts of one end.
Ends-both :
    {A : Type 0} (r : Result A × World) (P Q : A → World → Type 0)
    → Ends r P
    → Ends r Q
    → Ends r (λ a u. P a u × Q a u)
Ends-both (ok a, u) P Q h k = (h, k)
Ends-both (err e, u) P Q h k = tt

Ends-all :
    {A I : Type 0} (r : Result A × World) (P : I → A → World → Type 0)
    → ((i : I) → Ends r (P i))
    → Ends r (λ a u. (i : I) → P i a u)
Ends-all (ok a, u) P h = h
Ends-all (err e, u) P h = tt

Ends-continue :
    {A B : Type 0} (r : Result A × World) (f : A → Exec B) (P : A → World → Type 0)
    (R : B → World → Type 0)
    → Ends r P
    → ((a : A) (u : World) → P a u → Ends (f a u) R)
    → Ends (continue r f) R
Ends-continue (ok a, u) f P R h k = k a u h
Ends-continue (err e, u) f P R h k = tt

shows_row :
    (row : InvoiceRow) (rows : List LineItemRow) (resp : InvoiceResponse)
    → resp ≡ from_row row rows
    → resp ≡ from_row row resp.line_items
unfolding from_row
shows_row row rows resp h = h ∙ ap (from_row row) (sym (ap (λ r. r.line_items) h))

as_input-item_rows :
    (i : Uuid) (uuid_at : ℕ → Uuid) (n : ℕ) (items : List LineItemInput)
    → map as_input (item_rows i uuid_at n items) ≡ items
as_input-item_rows i uuid_at n [] = refl
as_input-item_rows i uuid_at n (item ∷ rest) =
    ap (λ more. item ∷ more) (as_input-item_rows i uuid_at (n + 1) rest)

Ends-same : {A : Type 0} (r : Result A × World) (w : World) → r.1 ≡ w → Ends r (λ _ u. u ≡ w)
Ends-same (ok a, u) w h = h
Ends-same (err e, u) w h = tt

Created-Billed :
    (b : Uuid) (req : CreateInvoiceRequest) (v u : World) (resp : InvoiceResponse)
    → Created b req v u resp
    → ((p : LineItemRow → Bool)
        → items_in resp.id p u.db ≡ count p resp.line_items + items_in resp.id p v.db)
    → Billed b req v.db resp u.db
unfolding from_row
Created-Billed b req v u resp c counts = record {
  row = new_invoice (v.uuid_at v.drawn) b req (total req.line_items) v.now;
  invoices = c.invoices;
  resp_is =
      shows_row (new_invoice (v.uuid_at v.drawn) b req (total req.line_items) v.now)
        (item_rows (v.uuid_at v.drawn) v.uuid_at (v.drawn + 1) req.line_items) resp c.answer;
  owner = refl;
  lines =
      ap (λ (r : InvoiceResponse). map as_input r.line_items) c.answer
      ∙ as_input-item_rows (v.uuid_at v.drawn) v.uuid_at (v.drawn + 1) req.line_items;
  total_is = refl;
  items = counts;
}

create_in_tx-Billed :
    (b : Uuid) (req : CreateInvoiceRequest) (v : World)
    → Ends (create_in_tx b req v) (λ resp u. Billed b req v.db resp u.db)
create_in_tx-Billed b req v =
    let r = create_in_tx b req v in
    Ends-map r
      (λ resp u.
        Created b req v u resp
        × ((p : LineItemRow → Bool)
            → items_in resp.id p u.db ≡ count p resp.line_items + items_in resp.id p v.db))
      (λ resp u. Billed b req v.db resp u.db)
      (λ resp u (c, counts). Created-Billed b req v u resp c counts)
      (Ends-both r (λ resp u. Created b req v u resp)
        (λ resp u.
          (p : LineItemRow → Bool)
          → items_in resp.id p u.db ≡ count p resp.line_items + items_in resp.id p v.db)
        (create_in_tx-Created b req v)
        (Ends-all r
          (λ p resp u. items_in resp.id p u.db ≡ count p resp.line_items + items_in resp.id p v.db)
          (λ p. create_in_tx-counts p b req v)))

pub create_invoice-Billed :
    (b : Uuid) (req : CreateInvoiceRequest) (w : World)
    → Ends
        (create_invoice b req w)
        (λ (status, resp) u. (status ≡ 201) × Billed b req w.db resp u.db)
unfolding create_invoice
create_invoice-Billed b req w = elim (Bool-cases (is_empty req.line_items)) [
  | inl empty ↦ rw empty tt
  | inr some_items ↦ rw some_items (
      Ends-continue (check_items req.line_items w)
        (λ _. do created ← transaction (create_in_tx b req); pure (201, created)) (λ _ u. u ≡ w)
        (λ (status, resp) u. (status ≡ 201) × Billed b req w.db resp u.db)
        (Ends-same (check_items req.line_items w) w (check_items_pure req.line_items w))
        (λ _ u same. rw same (
          Ends-continue (transaction (create_in_tx b req) w) (λ created. pure (201, created))
            (λ resp u. Billed b req w.db resp u.db)
            (λ (status, resp) u. (status ≡ 201) × Billed b req w.db resp u.db)
            (transaction_result-Ends (λ resp db _. Billed b req w.db resp db) (create_in_tx b req) w
              (λ v db tasks. rw⁻¹ db (create_in_tx-Billed b req v)))
            (λ resp u k. (refl, k)))))
]
