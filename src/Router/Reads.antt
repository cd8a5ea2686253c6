-- ===== src/Router/Reads.antt =====
-- The handlers that only read, and the extractor of the business.
use dodo_invoice_service.Base.{not, ltb, Bool, String, Option, List, [], ◌∷◌}
use dodo_invoice_service.Db.{Task, Db}
use dodo_invoice_service.Payments.Attempts.{attempt_of, get_payment_attempt}
use dodo_invoice_service.Customers.{customer_of, get_customer, list_customers}
use dodo_invoice_service.Invoices.Read.{
  selected, bad_filter, list_invoices, with_line_items, get_invoice,
}
use dodo_invoice_service.Auth.{is_revoked, take, api_key_of, len, strip_prefix, from_request_parts}
use dodo_invoice_service.Models.{from_row, InvoiceRow, Uuid}
use dodo_invoice_service.Db.Keeps.{
  raise_if-Keeps, ok_or-Keeps, pure-Keeps, query-Keeps, bind-Keeps, Keeps,
}
use dodo_invoice_service.Invoices.{line_items_of, invoice_of}

module _ {P : Db → List Task → Type 0} where
  pub from_request_parts-Keeps :
      (verify_secret : String → String → Bool) (authorization : Option String)
      → Keeps P (from_request_parts verify_secret authorization)
  unfolding from_request_parts
  from_request_parts-Keeps verify_secret authorization =
      bind-Keeps _ _ (ok_or-Keeps authorization _) (λ header.
        bind-Keeps _ _ (ok_or-Keeps (strip_prefix "Bearer " header) _) (λ token.
          bind-Keeps _ _ (ok_or-Keeps (strip_prefix "sk_live_" token) _) (λ secret.
            bind-Keeps _ _ (raise_if-Keeps (ltb (len secret) 12) _) (λ _.
              bind-Keeps _ _ (query-Keeps (api_key_of (take 12 secret))) (λ row.
                bind-Keeps _ _ (ok_or-Keeps row _) (λ key.
                  bind-Keeps _ _ (raise_if-Keeps (is_revoked key) _) (λ _.
                    bind-Keeps _ _ (raise_if-Keeps (not (verify_secret secret key.key_hash)) _)
                      (λ _. pure-Keeps key.business_id))))))))

  pub list_customers-Keeps : (b : Uuid) → Keeps P (list_customers b)
  unfolding list_customers
  list_customers-Keeps b = query-Keeps _

  pub get_customer-Keeps : (b c : Uuid) → Keeps P (get_customer b c)
  unfolding get_customer
  get_customer-Keeps b c =
      bind-Keeps _ _ (query-Keeps (customer_of c b)) (λ customer. ok_or-Keeps customer _)

  pub get_payment_attempt-Keeps : (b i a : Uuid) → Keeps P (get_payment_attempt b i a)
  unfolding get_payment_attempt
  get_payment_attempt-Keeps b i a =
      bind-Keeps _ _ (query-Keeps (attempt_of a i b)) (λ row. ok_or-Keeps row _)

  pub get_invoice-Keeps : (b i : Uuid) → Keeps P (get_invoice b i)
  unfolding get_invoice
  get_invoice-Keeps b i = bind-Keeps _ _ (query-Keeps (invoice_of i b)) (λ found.
      bind-Keeps _ _ (ok_or-Keeps found _) (λ row.
        bind-Keeps _ _ (query-Keeps (line_items_of i)) (λ items. pure-Keeps (from_row row items))))

  with_line_items-Keeps : (rows : List InvoiceRow) → Keeps P (with_line_items rows)
  unfolding with_line_items
  with_line_items-Keeps [] = pure-Keeps []
  with_line_items-Keeps (row ∷ rows) = bind-Keeps _ _ (query-Keeps (line_items_of row.id)) (λ items.
      bind-Keeps _ _ (with_line_items-Keeps rows) (λ rest. pure-Keeps (from_row row items ∷ rest)))

  pub list_invoices-Keeps :
      (b : Uuid) (state_filter : Option String) → Keeps P (list_invoices b state_filter)
  unfolding list_invoices
  list_invoices-Keeps b state_filter =
      bind-Keeps _ _ (raise_if-Keeps (bad_filter state_filter) _) (λ _.
        bind-Keeps _ _ (query-Keeps (selected b state_filter)) (λ rows. with_line_items-Keeps rows))
