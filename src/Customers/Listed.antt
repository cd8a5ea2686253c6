-- ===== src/Customers/Listed.antt =====
-- What the creation of a customer does to the lists of customers.
use dodo_invoice_service.Base.{
  refl, ◌∙◌, ℕ, ap, ◌+◌, ◌&&◌, if◌then◌else◌, ◌∷◌, arith, ◌==◌, any, [], keep, count, false,
  is_blank, List, Bool, ◌≡◌,
}
use dodo_invoice_service.Customers.{
  CreateCustomerRequest, new_customer, create_customer, get_customer, list_customers,
}
use dodo_invoice_service.Customers.Found.{create_customer-get}
use dodo_invoice_service.Db.Order.{order_desc}
use dodo_invoice_service.Db.Order.Sorted.{IsDesc, order_desc-IsDesc, order_desc-count}
use dodo_invoice_service.Models.{Customer, Uuid}
use dodo_invoice_service.Db.{ok, Db, World}

abbrev pub customers_of : Uuid → Db → List Customer
customers_of b db = order_desc (λ c. c.created_at) (keep (λ c. c.business_id == b) db.customers)

lists : (b : Uuid) (w : World) → w.faults ≡ [] → (list_customers b w).0 ≡ ok (customers_of b w.db)
unfolding list_customers
lists b w f = ground (arith, f)

-- The statements of a creation do not fail.
still_quiet :
    (b : Uuid) (req : CreateCustomerRequest) (w : World)
    → w.faults ≡ []
    → (create_customer b req w).1.faults ≡ []
unfolding create_customer
still_quiet b req w f = ground (arith, f)

listed_one_more :
    (b other : Uuid) (p : Customer → Bool) (row : Customer) (rows : List Customer)
    → row.business_id ≡ b
    → count p (order_desc (λ c. c.created_at) (keep (λ c. c.business_id == other) (row ∷ rows)))
      ≡ (if b == other && p row then 1 else 0)
        + count p (order_desc (λ c. c.created_at) (keep (λ c. c.business_id == other) rows))
listed_one_more b other p row rows own =
    let key : Customer → ℕ = λ c. c.created_at in
    ground (
      arith,
      own,
      order_desc-count key p (keep (λ c. c.business_id == other) (row ∷ rows)),
      order_desc-count key p (keep (λ c. c.business_id == other) rows),
    )

-- If the name and the email are not blank, no statement fails and the next id is not taken, a customer is
-- created with them, under the next id; its business then gets it by its id; and the list of each business, the
-- newest first, then has one more entry for it if the business is its own, and else what it had before.
pub create_customer-listed :
    (b other : Uuid) (req : CreateCustomerRequest) (w : World)
    → is_blank req.name ≡ false
    → is_blank req.email ≡ false
    → w.faults ≡ []
    → any (λ c. c.id == w.uuid_at w.drawn) w.db.customers ≡ false
    → let row = new_customer (w.uuid_at w.drawn) b req w.now in
      let (r, u) = create_customer b req w in
      (r ≡ ok (201, row))
      × ((get_customer b row.id u).0 ≡ ok row)
      × ((before after : List Customer) × ((list_customers other w).0 ≡ ok before)
          × ((list_customers other u).0 ≡ ok after)
          × IsDesc (λ c. c.created_at) after
          × ((p : Customer → Bool)
              → count p after ≡ (if b == other && p row then 1 else 0) + count p before))
create_customer-listed b other req w named mailed f fresh =
    let (r, same, got) = create_customer-get b req w named mailed f fresh in
    let row = new_customer (w.uuid_at w.drawn) b req w.now in
    let u = (create_customer b req w).1 in
    let quiet = still_quiet b req w f in
    (
      r,
      got,
      (
        customers_of other w.db,
        customers_of other u.db,
        lists other w f,
        lists other u quiet,
        order_desc-IsDesc (λ c. c.created_at) (keep (λ c. c.business_id == other) u.db.customers),
        λ p.
            ap (λ (db : Db). count p (customers_of other db)) same
            ∙ listed_one_more b other p row w.db.customers refl,
      ),
    )
