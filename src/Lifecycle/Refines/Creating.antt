-- ===== src/Lifecycle/Refines/Creating.antt =====
-- `create_invoice` is the change `create`.
use dodo_invoice_service.Base.{
  inr, inl, Bool-cases, refl, true, false, any, ℕ, ◌+◌, ◌≡◌, List, [], ◌∷◌, arith,
}
use dodo_invoice_service.Models.{
  from_row, InvoiceResponse, CreateInvoiceRequest, Uuid, LineItemInput, LineItemRow,
}
use dodo_invoice_service.Db.{transaction, ◌>>=◌, pure, World, later}
use dodo_invoice_service.Db.Ends.{Ends}
use dodo_invoice_service.Invoices.Create.{
  is_empty, create_invoice, check_items, customer_exists, total, new_invoice, created_payload,
  create_in_tx, new_line_item, insert_items,
}
use dodo_invoice_service.Webhooks.Outbox.{enqueue_event-Enqueued}
use dodo_invoice_service.Lifecycle.Tables.{invoice_has_id}
use dodo_invoice_service.Lifecycle.{create, here, next, shop, Reach}
use dodo_invoice_service.Lifecycle.Refines.Transactions.{Ends-map, transaction-Reach, Reach-bind}

-- The line items of a request, with the ids from number `n` on.
abbrev pub item_rows : Uuid → (ℕ → Uuid) → ℕ → List LineItemInput → List LineItemRow
item_rows invoice_id uuid_at n [] = []
item_rows invoice_id uuid_at n (item ∷ rest) =
    new_line_item (uuid_at n) invoice_id item ∷ item_rows invoice_id uuid_at (n + 1) rest

-- What the loop of `insert_items` has done if it ends well.
pub record Inserted (invoice_id : Uuid) (items : List LineItemInput) (v u : World)
    (rows : List LineItemRow) : Type 0 where
  pub rows_lem : rows ≡ item_rows invoice_id v.uuid_at v.drawn items
  pub invoices : u.db.invoices ≡ v.db.invoices
  pub attempts : u.db.attempts ≡ v.db.attempts
  pub tasks : u.tasks ≡ v.tasks
  pub now : u.now ≡ v.now

abbrev pub item_done : Uuid → LineItemInput → World → World
item_done invoice_id item v = record v {
  faults = later v.faults;
  drawn = v.drawn + 1;
  db = record v.db {
    line_items = new_line_item (v.uuid_at v.drawn) invoice_id item ∷ v.db.line_items;
  };
}

pub insert_items-Inserted :
    (invoice_id : Uuid) (items : List LineItemInput) (v : World)
    → Ends (insert_items invoice_id items v) (λ rows u. Inserted invoice_id items v u rows)
unfolding insert_items
insert_items-Inserted invoice_id [] v = ground arith
insert_items-Inserted invoice_id (item ∷ rest) v =
    ground (arith, insert_items-Inserted invoice_id rest (item_done invoice_id item v))

-- What a creation that ends well has found, and what it has done.
pub record Created (b : Uuid) (req : CreateInvoiceRequest) (v u : World) (resp : InvoiceResponse)
    : Type 0 where
  pub fresh : any (invoice_has_id (v.uuid_at v.drawn)) v.db.invoices ≡ false
  pub owner : customer_exists req.customer_id b v.db ≡ true
  pub invoices :
      u.db.invoices
      ≡ new_invoice (v.uuid_at v.drawn) b req (total req.line_items) v.now ∷ v.db.invoices
  pub attempts : u.db.attempts ≡ v.db.attempts
  pub tasks : u.tasks ≡ v.tasks
  pub answer :
      resp
      ≡ from_row
          (new_invoice (v.uuid_at v.drawn) b req (total req.line_items) v.now)
          (item_rows (v.uuid_at v.drawn) v.uuid_at (v.drawn + 1) req.line_items)

-- The world after the INSERT of the invoice.
abbrev pub invoice_inserted : Uuid → CreateInvoiceRequest → World → World
invoice_inserted b req v = record v {
  faults = later (later v.faults);
  drawn = v.drawn + 1;
  db = record v.db {
    invoices = new_invoice (v.uuid_at v.drawn) b req (total req.line_items) v.now ∷ v.db.invoices;
  };
}

pub create_in_tx-Created :
    (b : Uuid) (req : CreateInvoiceRequest) (v : World)
    → Ends (create_in_tx b req v) (λ resp u. Created b req v u resp)
unfolding create_in_tx
create_in_tx-Created b req v =
    let id = v.uuid_at v.drawn in
    let w = invoice_inserted b req v in
    let payload = created_payload id req.customer_id (total req.line_items) in
    ground (
      arith,
      insert_items-Inserted id req.line_items w,
      enqueue_event-Enqueued b "invoice.created" payload (insert_items id req.line_items w).1,
    )

Created-Reach :
    (b : Uuid) (req : CreateInvoiceRequest) (v : World) (resp : InvoiceResponse) (u : World)
    → Created b req v u resp
    → Reach (shop v) (shop u)
Created-Reach b req v resp u c = next here (
    create (new_invoice (v.uuid_at v.drawn) b req (total req.line_items) v.now) refl c.fresh
      (λ k. record { invoices = c.invoices k; attempts = c.attempts k; tasks = c.tasks k }))

-- The validation of the line items changes nothing.
pub check_items_pure : (items : List LineItemInput) (w : World) → (check_items items w).1 ≡ w
unfolding check_items
check_items_pure [] w = refl
check_items_pure (item ∷ rest) w = ground (arith, check_items_pure rest w)

-- Whatever the database fails, `create_invoice` is the change `create` or leaves all as it was.
pub create_invoice-Reach :
    (b : Uuid) (req : CreateInvoiceRequest) (w : World)
    → Reach (shop w) (shop (create_invoice b req w).1)
unfolding create_invoice
create_invoice-Reach b req w = elim (Bool-cases (is_empty req.line_items)) [
  | inl empty ↦ rw empty here
  | inr some_items ↦ rw some_items (
      Reach-bind (check_items req.line_items)
        (λ _. do created ← transaction (create_in_tx b req); pure (201, created)) w
        (rw (check_items_pure req.line_items w) here)
        (λ _ u _.
          Reach-bind (transaction (create_in_tx b req)) (λ created. pure (201, created)) u
            (transaction-Reach (create_in_tx b req) u (λ v _.
              Ends-map (create_in_tx b req v) (λ resp u. Created b req v u resp)
                (λ resp u. Reach (shop v) (shop u)) (Created-Reach b req v)
                (create_in_tx-Created b req v)))
            (λ a u e. here)))
]
