-- ===== src/Invoices/Listing.antt =====
-- What `list_invoices` answers.
use dodo_invoice_service.Base.{
  ◌∙◌, String, ◌≡◌, refl, Bool, false, ◌&&◌, Option, List, [], ◌∷◌, arith, ◌==◌, count, keep, map,
}
use dodo_invoice_service.Models.{Uuid, InvoiceRow, InvoiceResponse, from_row}
use dodo_invoice_service.Db.{later, Db, World, ok}
use dodo_invoice_service.Db.Order.Sorted.{IsDesc, order_desc-IsDesc, order_desc-count}
use dodo_invoice_service.Invoices.{line_items_of}
use dodo_invoice_service.Invoices.Read.{
  bad_filter, passes, selected, with_line_items, list_invoices,
}

keep-count :
    {A : Type 0} (p q : A → Bool) (xs : List A) → count p (keep q xs) ≡ count (λ x. p x && q x) xs
keep-count p q [] = refl
keep-count p q (x ∷ xs) = ground (arith, keep-count p q xs)

abbrev pub full : Db → InvoiceRow → InvoiceResponse
full db row = from_row row (line_items_of row.id db)

with_line_items-ok :
    (rows : List InvoiceRow) (w : World)
    → w.faults ≡ []
    → (with_line_items rows w).0 ≡ ok (map (full w.db) rows)
unfolding with_line_items
with_line_items-ok [] w f = refl
with_line_items-ok (row ∷ rows) w f =
    ground (arith, with_line_items-ok rows (record w { faults = later w.faults }))

-- With a valid state filter or none, and if no statement fails, the list is of selected rows, each
-- with its line items; these rows are ordered by their creation, the newest first, and for every
-- test as many of them pass it as rows of the table that also belong to the business and pass the
-- filter.
pub list_invoices_lem :
    (b : Uuid) (state_filter : Option String) (w : World) (p : InvoiceRow → Bool)
    → w.faults ≡ []
    → bad_filter state_filter ≡ false
    → let rows = selected b state_filter w.db in
      ((list_invoices b state_filter w).0 ≡ ok (map (full w.db) rows))
      × IsDesc (λ r. r.created_at) rows
      × (count p rows
          ≡ count (λ r. p r && (r.business_id == b && passes state_filter r)) w.db.invoices)
unfolding list_invoices selected
list_invoices_lem b state_filter w p f valid =
    let kept = keep (λ r. r.business_id == b && passes state_filter r) w.db.invoices in
    let rows = selected b state_filter w.db in
    (
      ground (arith, with_line_items-ok rows (record w { faults = later w.faults })),
      order_desc-IsDesc (λ r. r.created_at) kept,
      order_desc-count (λ r. r.created_at) p kept ∙ keep-count p _ w.db.invoices,
    )
