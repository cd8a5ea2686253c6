-- ===== src/Customers/Found.antt =====
-- A customer from its creation to its look-up by id.
use dodo_invoice_service.Base.{◌≡◌, false, [], ◌∷◌, arith, ◌==◌, any, is_blank}
use dodo_invoice_service.Models.{Uuid}
use dodo_invoice_service.Db.{World, ok}
use dodo_invoice_service.Customers.{
  CreateCustomerRequest, new_customer, create_customer, get_customer,
}

-- If the name and the email are not blank, no statement fails and the next id is not taken, a customer
-- is created with them, under the next id, for the business, at the head of the table; and the business
-- then gets that customer by its id.
pub create_customer-get :
    (b : Uuid) (req : CreateCustomerRequest) (w : World)
    → is_blank req.name ≡ false
    → is_blank req.email ≡ false
    → w.faults ≡ []
    → any (λ c. c.id == w.uuid_at w.drawn) w.db.customers ≡ false
    → let row = new_customer (w.uuid_at w.drawn) b req w.now in
      let (r, u) = create_customer b req w in
      (r ≡ ok (201, row))
      × (u.db ≡ record w.db { customers = row ∷ w.db.customers })
      × ((get_customer b row.id u).0 ≡ ok row)
unfolding create_customer get_customer
create_customer-get b req w named mailed f fresh = ground arith
