-- ===== src/Router/Aside.antt =====
-- The handlers of businesses, API keys, customers and endpoints.
use Prim.Native.String.{◌++◌ as str_append}
use dodo_invoice_service.Base.{◌||◌, is_blank, not, arith, String, ◌≡◌, List}
use dodo_invoice_service.Db.{statement, World, Task, Db}
use dodo_invoice_service.Webhooks.Register.{
  is_http, RegisterWebhookRequest, insert_endpoint, register_webhook,
}
use dodo_invoice_service.Customers.{CreateCustomerRequest, insert_customer, create_customer}
use dodo_invoice_service.Business.{
  generate_api_key, GeneratedKey, business_in_tx, insert_api_key, create_business, insert_business,
}
use dodo_invoice_service.Models.{Uuid}
use dodo_invoice_service.Db.Keeps.{
  transaction-Keeps, pure-Keeps, raise_if-Keeps, statement-Keeps, or_database_error-Keeps,
  bind-Keeps, Keeps,
}

-- A property that sees nothing of the businesses, the API keys, the customers and the endpoints.
pub record IsBlind (P : Db → List Task → Type 0) : Type 0 where
  pub blind :
      (db db' : Db) (tasks : List Task)
      → db'.invoices ≡ db.invoices
      → db'.attempts ≡ db.attempts
      → db'.deliveries ≡ db.deliveries
      → db'.line_items ≡ db.line_items
      → db'.idempotency_keys ≡ db.idempotency_keys
      → P db tasks
      → P db' tasks

module _ {P : Db → List Task → Type 0} (blind : IsBlind P) where
  -- A statement that leaves the other tables and the tasks alone.
  aside-Keeps :
      {A : Type 0} (run : World → A × World)
      → ((w : World)
          → ((run w).1.db.invoices ≡ w.db.invoices)
            × ((run w).1.db.attempts ≡ w.db.attempts)
            × ((run w).1.db.deliveries ≡ w.db.deliveries)
            × ((run w).1.db.line_items ≡ w.db.line_items)
            × ((run w).1.db.idempotency_keys ≡ w.db.idempotency_keys)
            × ((run w).1.tasks ≡ w.tasks))
      → Keeps P (statement run)
  aside-Keeps run h = statement-Keeps run (λ w p.
      let (i, a, d, l, k, t) = h w in rw t (blind.blind w.db (run w).1.db w.tasks i a d l k p))

  insert_customer-Keeps :
      (b : Uuid) (req : CreateCustomerRequest) → Keeps P (statement (insert_customer b req))
  unfolding insert_customer
  insert_customer-Keeps b req = aside-Keeps (insert_customer b req) (λ w. ground arith)

  pub create_customer-Keeps :
      (b : Uuid) (req : CreateCustomerRequest) → Keeps P (create_customer b req)
  unfolding create_customer
  create_customer-Keeps b req =
      bind-Keeps _ _ (raise_if-Keeps (is_blank req.name || is_blank req.email) _) (λ _.
        bind-Keeps _ _ (insert_customer-Keeps b req) (λ inserted.
          bind-Keeps _ _ (or_database_error-Keeps inserted) (λ row. pure-Keeps (201, row))))

  insert_endpoint-Keeps :
      (b : Uuid) (url secret : String) → Keeps P (statement (insert_endpoint b url secret))
  unfolding insert_endpoint
  insert_endpoint-Keeps b url secret =
      aside-Keeps (insert_endpoint b url secret) (λ w. ground arith)

  pub register_webhook-Keeps :
      (secret_hex : String) (b : Uuid) (req : RegisterWebhookRequest)
      → Keeps P (register_webhook secret_hex b req)
  unfolding register_webhook
  register_webhook-Keeps secret_hex b req =
      bind-Keeps _ _ (raise_if-Keeps (not (is_http req.url)) _) (λ _.
        bind-Keeps _ _ (insert_endpoint-Keeps b req.url (str_append "whsec_" secret_hex))
          (λ inserted. bind-Keeps _ _ (or_database_error-Keeps inserted) (λ row. pure-Keeps _)))

  insert_business-Keeps : (name : String) → Keeps P (statement (insert_business name))
  unfolding insert_business
  insert_business-Keeps name = aside-Keeps (insert_business name) (λ w. ground arith)

  insert_api_key-Keeps : (b : Uuid) (k : GeneratedKey) → Keeps P (statement (insert_api_key b k))
  unfolding insert_api_key
  insert_api_key-Keeps b k = aside-Keeps (insert_api_key b k) (λ w. ground arith)

  business_in_tx-Keeps : (name : String) (k : GeneratedKey) → Keeps P (business_in_tx name k)
  unfolding business_in_tx
  business_in_tx-Keeps name k = bind-Keeps _ _ (insert_business-Keeps name) (λ inserted.
      bind-Keeps _ _ (or_database_error-Keeps inserted) (λ b.
        bind-Keeps _ _ (insert_api_key-Keeps b k) (λ key_inserted.
          bind-Keeps _ _ (or_database_error-Keeps key_inserted) (λ _. pure-Keeps b))))

  pub create_business-Keeps :
      (hash_secret : String → String) (secret_hex name : String)
      → Keeps P (create_business hash_secret secret_hex name)
  unfolding create_business
  create_business-Keeps hash_secret secret_hex name =
      bind-Keeps _ _ (raise_if-Keeps (is_blank name) _) (λ _.
        bind-Keeps _ _
          (transaction-Keeps (business_in_tx name (generate_api_key hash_secret secret_hex))
            (business_in_tx-Keeps name (generate_api_key hash_secret secret_hex)))
          (λ b. pure-Keeps _))
