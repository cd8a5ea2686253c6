-- ===== src/Customers.antt =====
-- invoice-service/src/handlers/customers.rs.
pub mod Found
pub mod Listed
use dodo_invoice_service.Base.{
  ℕ, String, ◌&&◌, ◌||◌, Option, List, ◌∷◌, ◌==◌, any, find, keep, if◌then◌else◌, is_blank,
}
use dodo_invoice_service.Error.{StatusCode, bad_request, not_found}
use dodo_invoice_service.Models.{Uuid, Customer}
use dodo_invoice_service.Db.{
  Db, World, Exec, Outcome, done, violates, pure, ok_or, raise_if, ◌>>=◌, ◌>>◌, statement,
  or_database_error, query, gen_random_uuid,
}
use dodo_invoice_service.Db.Order.{order_desc}

pub record CreateCustomerRequest : Type 0 where
  pub name : String
  pub email : String

abbrev pub new_customer : Uuid → Uuid → CreateCustomerRequest → ℕ → Customer
new_customer id business_id req now = record {
  id = id;
  business_id = business_id;
  name = req.name;
  email = req.email;
  created_at = now;
}

-- The INSERT, with the primary key of the table.
unfoldable pub insert_customer : Uuid → CreateCustomerRequest → World → Outcome Customer × World
insert_customer business_id req w =
    let (id, w') = gen_random_uuid w in
    let row = new_customer id business_id req w'.now in
    if any (λ c. c.id == id) w'.db.customers
    then (violates "customers_pkey", w')
    else (done row, record w' { db = record w'.db { customers = row ∷ w'.db.customers } })

unfoldable pub create_customer : Uuid → CreateCustomerRequest → Exec (StatusCode × Customer)
unfolding statement insert_customer
create_customer business_id req = do
  raise_if (is_blank req.name || is_blank req.email)
      (bad_request "invalid_customer" "name and email are both required")
  inserted ← statement (insert_customer business_id req)
  customer ← or_database_error inserted
  pure (201, customer)

-- WHERE id = $1 AND business_id = $2
abbrev pub customer_of : Uuid → Uuid → Db → Option Customer
customer_of customer_id business_id db =
    find (λ c. c.id == customer_id && c.business_id == business_id) db.customers

unfoldable pub get_customer : Uuid → Uuid → Exec Customer
unfolding query
get_customer business_id customer_id = do
  customer ← query (customer_of customer_id business_id)
  ok_or customer (not_found "customer_not_found" "no such customer")

-- WHERE business_id = $1 ORDER BY created_at DESC
unfoldable pub list_customers : Uuid → Exec (List Customer)
unfolding query order_desc
list_customers business_id =
    query
      (λ db. order_desc (λ c. c.created_at) (keep (λ c. c.business_id == business_id) db.customers))
