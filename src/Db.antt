-- ===== src/Db.antt =====
-- The database as the handlers use it: the tables of migrations/0001_init.sql as lists of rows, a
-- handler as an action on a world that holds them, and transactions. Postgres and sqlx are not
-- under verification; what is written down of them is this: a statement may fail (`faults` says
-- which ones do), a failed statement changes nothing, and a transaction that is dropped before its
-- commit, or whose commit fails, leaves the tables as they were at its start.
pub mod Order
pub mod Ends
pub mod Keeps
use dodo_invoice_service.Base.{
  ℕ, ◌+◌, String, Bool, true, false, Option, none, some, List, [], ◌∷◌, ℤ,
}
use dodo_invoice_service.Error.{AppError, database_error}
use dodo_invoice_service.Models.{
  Uuid, DateTime, InvoiceRow, LineItemRow, PaymentAttemptRow, Customer, WebhookEndpointRow,
  WebhookDeliveryRow, WebhookPost, IdempotencyRow, BusinessRow, ApiKeyRow,
}

pub record Db : Type 0 where
  pub businesses : List BusinessRow
  pub api_keys : List ApiKeyRow
  pub customers : List Customer
  pub invoices : List InvoiceRow
  pub line_items : List LineItemRow
  pub attempts : List PaymentAttemptRow
  pub idempotency_keys : List IdempotencyRow
  pub endpoints : List WebhookEndpointRow
  pub deliveries : List WebhookDeliveryRow

-- A payment task that `try_claim_and_pay` has spawned: what its closure has captured.
pub record Task : Type 0 where
  pub invoice_id : Uuid
  pub attempt_id : Uuid
  pub total_cents : ℤ
  pub card_token : String

-- `uuid_at` is the sequence of ids that `gen_random_uuid` will return, and `drawn` the number of
-- those used up; `faults` says of each next statement whether the database fails it, and none of
-- those beyond its end fails; `tasks` are the payment tasks
-- spawned so far, and `sent` the webhooks posted, the latest first.
pub record World : Type 0 where
  pub db : Db
  pub now : DateTime
  pub uuid_at : ℕ → Uuid
  pub drawn : ℕ
  pub faults : List Bool
  pub tasks : List Task
  pub sent : List WebhookPost

pub data Result (A : Type 0) : Type 0 where
  ok : A → Result A
  err : AppError → Result A

abbrev pub Exec : Type 0 → Type 0
Exec A = World → Result A × World

module _ {A : Type 0} where
  abbrev pub pure : A → Exec A
  pure a w = (ok a, w)

  abbrev pub raise : AppError → Exec A
  raise e w = (err e, w)

  abbrev pub ok_or : Option A → AppError → Exec A
  ok_or none e = raise e
  ok_or (some a) e = pure a

-- An action whose error is looked at and not passed on.
abbrev pub attempt : {A : Type 0} → Exec A → Exec (Result A)
attempt m w = let (r, w') = m w in (ok r, w')

infixl 5 ◌>>=◌ ◌>>◌
abbrev pub ◌>>=◌ : {A B : Type 0} → Exec A → (A → Exec B) → Exec B
◌>>=◌ m f w = let (r, w') = m w in elim r [ ok a ↦ f a w' | err e ↦ raise e w' ]

abbrev pub ◌>>◌ : {B : Type 0} → Exec (Unit {0}) → Exec B → Exec B
m >> k = m >>= λ _. k

abbrev pub raise_if : Bool → AppError → Exec (Unit {0})
raise_if true e = raise e
raise_if false e = pure tt

-- What a statement that the database does not fail leads to: its result, or the name of the
-- constraint that refuses it.
pub data Outcome (A : Type 0) : Type 0 where
  done : A → Outcome A
  violates : String → Outcome A

abbrev pub faulty : List Bool → Bool
faulty [] = false
faulty (b ∷ _) = b

abbrev pub later : List Bool → List Bool
later [] = []
later (_ ∷ bs) = bs

module _ {A : Type 0} where
  -- One statement.
  unfoldable pub statement : (World → A × World) → Exec A
  statement run w =
      let w' = record w { faults = later w.faults } in
      elim (faulty w.faults) [
        | true ↦ raise database_error w'
        | false ↦ let (a, w'') = run w' in (ok a, w'')
      ]

  -- `?` on a statement: a violated constraint is an error of the database.
  abbrev pub or_database_error : Outcome A → Exec A
  or_database_error (done a) = pure a
  or_database_error (violates _) = raise database_error

-- `BEGIN` and `COMMIT` change nothing by themselves.
abbrev pub silent : Exec (Unit {0})
silent = statement (λ w. (tt, w))

module _ {A : Type 0} where
  -- A query; `fetch_optional` and `fetch_all` differ in the type of what they read.
  unfoldable pub query : (Db → A) → Exec A
  unfolding statement
  query read = statement (λ w. (read w.db, w))

  -- From `begin` to `commit`, or to the drop of the transaction.
  unfoldable pub transaction : Exec A → Exec A
  unfolding statement
  transaction body w =
      let (r, w') = (do silent; a ← body; silent; pure a) w in
      elim r [
        | ok a ↦ (ok a, w')
        | err e ↦ (err e, record w { faults = w'.faults; drawn = w'.drawn; sent = w'.sent })
      ]

-- `fetch_one`: no row is an error of the database.
unfoldable pub fetch_one : {A : Type 0} → (Db → Option A) → Exec A
unfolding query
fetch_one read = do row ← query read; ok_or row database_error

unfoldable pub execute : (World → Db) → Exec (Unit {0})
unfolding statement
execute change = statement (λ w. (tt, record w { db = change w }))

-- `gen_random_uuid()`
abbrev pub gen_random_uuid : World → Uuid × World
gen_random_uuid w = (w.uuid_at w.drawn, record w { drawn = w.drawn + 1 })
