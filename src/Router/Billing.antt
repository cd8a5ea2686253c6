-- ===== src/Router/Billing.antt =====
-- An invoice from its creation on, over the runs of the service.
use dodo_invoice_service.Db.Ends.{Ends-ok}
use dodo_invoice_service.Invoices.Create.{create_invoice, total}
use dodo_invoice_service.Invoices.Create.Billed.{create_invoice-Billed, is_item, as_input}
use dodo_invoice_service.Invoices.Read.{get_invoice}
use dodo_invoice_service.Invoices.{line_items_of, invoice_of}
use dodo_invoice_service.Router.Bills.{bill_never_changes}
use dodo_invoice_service.Router.Terms.{Terms, terms, terms_of}
use dodo_invoice_service.Models.{
  InvoiceRow, CreateInvoiceRequest, LineItemRow, Uuid, from_row, InvoiceResponse,
}
use dodo_invoice_service.Base.{
  inr, sym, ◌∙◌, ap, inl, map, refl, Bool-cases, ◌&&◌, false, ◌∷◌, ◌==◌, keep, find, arith, some,
  any, [], count, Bool, ◌≡◌, List,
}
use dodo_invoice_service.Db.{ok, World}
use dodo_invoice_service.Router.Runs.{Run}

-- Two responses with the same bill: all but the state, the time of the last change and the order of the items.
pub record IsSameBill (r r' : InvoiceResponse) : Type 0 where
  pub id : r.id ≡ r'.id
  pub business_id : r.business_id ≡ r'.business_id
  pub customer_id : r.customer_id ≡ r'.customer_id
  pub currency : r.currency ≡ r'.currency
  pub total_cents : r.total_cents ≡ r'.total_cents
  pub due_date : r.due_date ≡ r'.due_date
  pub created_at : r.created_at ≡ r'.created_at
  pub items : (p : LineItemRow → Bool) → count p r.line_items ≡ count p r'.line_items

-- The row that the terms are from, as the query of its business finds it.
found-of_terms :
    (i b : Uuid) (t : Terms) (rows : List InvoiceRow)
    → terms_of i rows ≡ some t
    → t.business_id ≡ b
    → (r : InvoiceRow) × (find (λ r. r.id == i && r.business_id == b) rows ≡ some r)
      × (terms r ≡ t)
      × (r.id ≡ i)
found-of_terms i b t [] h own = cc
found-of_terms i b t (r ∷ rows) h own = elim (Bool-cases (r.id == i)) [
  | inl here ↦
      let same : terms r ≡ t = ground (arith, h, here) in
      let mine : r.business_id ≡ b = ap (λ (x : Terms). x.business_id) same ∙ own in
      (r, ground (arith, here, mine), same, ground (arith, here))
  | inr there ↦
      let (r', found, same, id) = found-of_terms i b t rows (ground (arith, h, there)) own in
      (r', ground (arith, there, found), same, id)
]

count-line_items_of :
    (i : Uuid) (p : LineItemRow → Bool) (items : List LineItemRow)
    → count p (keep (λ l. l.invoice_id == i) items) ≡ count (is_item i p) items
count-line_items_of i p [] = refl
count-line_items_of i p (l ∷ items) = ground (arith, count-line_items_of i p items)

none_before :
    (i : Uuid) (p : LineItemRow → Bool) (items : List LineItemRow)
    → any (λ l. l.invoice_id == i) items ≡ false
    → count (is_item i p) items ≡ 0
none_before i p [] h = refl
none_before i p (l ∷ items) h = ground (arith, none_before i p items)

shown_bill :
    (i b : Uuid) (v : World) (row : InvoiceRow)
    → v.faults ≡ []
    → invoice_of i b v.db ≡ some row
    → (get_invoice b i v).0 ≡ ok (from_row row (line_items_of i v.db))
unfolding get_invoice
shown_bill i b v row f found = ground (arith, f, found)

same_bill :
    (row r : InvoiceRow) (rows : List LineItemRow) (resp : InvoiceResponse)
    → terms r ≡ terms row
    → r.id ≡ resp.id
    → resp ≡ from_row row resp.line_items
    → ((p : LineItemRow → Bool) → count p rows ≡ count p resp.line_items)
    → IsSameBill (from_row r rows) resp
unfolding from_row
same_bill row r rows resp same id resp_is items = record {
  id = id;
  business_id =
      ap (λ (x : Terms). x.business_id) same
      ∙ sym (ap (λ (x : InvoiceResponse). x.business_id) resp_is);
  customer_id =
      ap (λ (x : Terms). x.customer_id) same
      ∙ sym (ap (λ (x : InvoiceResponse). x.customer_id) resp_is);
  currency =
      ap (λ (x : Terms). x.currency) same ∙ sym (ap (λ (x : InvoiceResponse). x.currency) resp_is);
  total_cents =
      ap (λ (x : Terms). x.total_cents) same
      ∙ sym (ap (λ (x : InvoiceResponse). x.total_cents) resp_is);
  due_date =
      ap (λ (x : Terms). x.due_date) same ∙ sym (ap (λ (x : InvoiceResponse). x.due_date) resp_is);
  created_at =
      ap (λ (x : Terms). x.created_at) same
      ∙ sym (ap (λ (x : InvoiceResponse). x.created_at) resp_is);
  items = items;
}

-- If an invoice is created, and no line item was there for its id, then, however requests of the API, payment
-- tasks and ticks of the dispatcher interleave from then on, its business gets it, where the database does not
-- fail the query, with the bill of the response to its creation; and that has the line items of the request, and
-- as total their wrapping 64-bit sum.
pub created_bill_is_kept :
    {u v : World} {resp : InvoiceResponse} (b : Uuid) (req : CreateInvoiceRequest) (w : World)
    → create_invoice b req w ≡ (ok (201, resp), u)
    → any (λ l. l.invoice_id == resp.id) w.db.line_items ≡ false
    → Run u v
    → v.faults ≡ []
    → (now : InvoiceResponse) × ((get_invoice b resp.id v).0 ≡ ok now)
      × IsSameBill now resp
      × (map as_input resp.line_items ≡ req.line_items)
      × (resp.total_cents ≡ total req.line_items)
unfolding from_row
created_bill_is_kept {u} {v} {resp} b req w e fresh run f =
    let billed = (Ends-ok _ _ (create_invoice-Billed b req w) e).1 in
    let row = billed.row in
    let id : row.id ≡ resp.id = ap (λ r. r.id) (sym billed.resp_is) in
    let at_first : terms_of resp.id u.db.invoices ≡ some (terms row) =
      ap (terms_of resp.id) billed.invoices ∙ ground (arith, id) in
    let (later, items) = bill_never_changes resp.id (terms row) at_first run in
    let (r, found, same, r_id) =
      found-of_terms resp.id b (terms row) v.db.invoices later billed.owner in
    (
      from_row r (line_items_of resp.id v.db),
      shown_bill resp.id b v r f found,
      same_bill row r (line_items_of resp.id v.db) resp same r_id billed.resp_is (λ p.
          ap (count p) items
          ∙ count-line_items_of resp.id p u.db.line_items
          ∙ billed.items p
          ∙ ground (arith, none_before resp.id p w.db.line_items fresh)),
      billed.lines,
      ap (λ r. r.total_cents) billed.resp_is ∙ billed.total_is,
    )
