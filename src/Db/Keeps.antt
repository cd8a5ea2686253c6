-- ===== src/Db/Keeps.antt =====
-- A property of the tables and the tasks that an action keeps, however it ends.
use dodo_invoice_service.Db.Ends.{Ends, continue}
use dodo_invoice_service.Base.{Bool, true, false, Option, none, some, List, arith}
use dodo_invoice_service.Db.{
  violates, done, err, raise, later, raise_if, ok_or, or_database_error, query, transaction,
  Outcome, ◌>>=◌, silent, execute, fetch_one, ok, pure, statement, World, Task, ◌>>◌, Db, Result,
  Exec,
}
use dodo_invoice_service.Error.{database_error, AppError}

module _ (P : Db → List Task → Type 0) where
  pub record Keeps {A : Type 0} (m : Exec A) : Type 0 where
    pub keeps : (w : World) → P w.db w.tasks → P (m w).1.db (m w).1.tasks

-- The three parts of a transaction.
abbrev committed : {A : Type 0} → Exec A → Exec A
committed body = do silent; a ← body; silent; pure a

module _ {P : Db → List Task → Type 0} where
  pub pure-Keeps : {A : Type 0} (a : A) → Keeps P (pure a)
  pure-Keeps a = record { keeps = λ w p. p }

  pub raise-Keeps : {A : Type 0} (e : AppError) → Keeps P (raise {A = A} e)
  raise-Keeps e = record { keeps = λ w p. p }

  pub ok_or-Keeps : {A : Type 0} (o : Option A) (e : AppError) → Keeps P (ok_or o e)
  ok_or-Keeps none e = raise-Keeps e
  ok_or-Keeps (some a) e = pure-Keeps a

  pub raise_if-Keeps : (b : Bool) (e : AppError) → Keeps P (raise_if b e)
  raise_if-Keeps true e = raise-Keeps e
  raise_if-Keeps false e = pure-Keeps tt

  pub or_database_error-Keeps : {A : Type 0} (o : Outcome A) → Keeps P (or_database_error o)
  or_database_error-Keeps (done a) = pure-Keeps a
  or_database_error-Keeps (violates c) = raise-Keeps database_error

  continue-Keeps :
      {A B : Type 0} (r : Result A × World) (f : A → Exec B)
      → P r.1.db r.1.tasks
      → ((a : A) → Keeps P (f a))
      → P (continue r f).1.db (continue r f).1.tasks
  continue-Keeps (ok a, u) f p k = (k a).keeps u p
  continue-Keeps (err e, u) f p k = p

  pub bind-Keeps :
      {A B : Type 0} (m : Exec A) (f : A → Exec B)
      → Keeps P m
      → ((a : A) → Keeps P (f a))
      → Keeps P (m >>= f)
  bind-Keeps m f h k = record { keeps = λ w p. continue-Keeps (m w) f (h.keeps w p) k }

  pub statement-Keeps :
      {A : Type 0} (run : World → A × World)
      → ((w : World) → P w.db w.tasks → P (run w).1.db (run w).1.tasks)
      → Keeps P (statement run)
  unfolding statement
  statement-Keeps run h = record {
    keeps = λ w p. ground (arith, h (record w { faults = later w.faults }) p);
  }

  pub query-Keeps : {A : Type 0} (read : Db → A) → Keeps P (query read)
  unfolding query
  query-Keeps read = statement-Keeps (λ w. (read w.db, w)) (λ w p. p)

  pub fetch_one-Keeps : {A : Type 0} (read : Db → Option A) → Keeps P (fetch_one read)
  unfolding fetch_one
  fetch_one-Keeps read =
      bind-Keeps (query read) _ (query-Keeps read) (λ row. ok_or-Keeps row database_error)

  pub execute-Keeps :
      (change : World → Db)
      → ((w : World) → P w.db w.tasks → P (change w) w.tasks)
      → Keeps P (execute change)
  unfolding execute
  execute-Keeps change h = statement-Keeps (λ w. (tt, record w { db = change w })) h

  committed-Keeps : {A : Type 0} (body : Exec A) → Keeps P body → Keeps P (committed body)
  committed-Keeps body h = bind-Keeps silent _ (statement-Keeps (λ w. (tt, w)) (λ w p. p)) (λ _.
      bind-Keeps body _ h
        (λ a. bind-Keeps silent _ (statement-Keeps (λ w. (tt, w)) (λ w p. p)) (λ _. pure-Keeps a)))

  pub transaction-Keeps : {A : Type 0} (body : Exec A) → Keeps P body → Keeps P (transaction body)
  unfolding transaction
  transaction-Keeps body h = record {
    keeps = λ w p. ground (arith, (committed-Keeps body h).keeps w p);
  }

transaction_end-Gives :
    {A : Type 0} (R : A → Type 0) (body : Exec A) (w : World)
    → Ends (committed body w) (λ a u. R a)
    → Ends (transaction body w) (λ a u. R a)
unfolding transaction
transaction_end-Gives R body w h = ground (arith, h)

-- The same, with what the result is where there is one.
pub record Gives (P : Db → List Task → Type 0) {A : Type 0} (R : A → Type 0) (m : Exec A)
    : Type 0 where
  pub keeps : (w : World) → P w.db w.tasks → P (m w).1.db (m w).1.tasks
  pub gives : (w : World) → P w.db w.tasks → Ends (m w) (λ a u. R a)

module _ {P : Db → List Task → Type 0} where
  pub Gives-Keeps : {A : Type 0} (R : A → Type 0) (m : Exec A) → Gives P R m → Keeps P m
  Gives-Keeps R m h = record { keeps = h.keeps }

  pub raise-Gives : {A : Type 0} (R : A → Type 0) (e : AppError) → Gives P R (raise {A = A} e)
  raise-Gives R e = record { keeps = λ w p. p; gives = λ w p. tt }

  pub pure-Gives : {A : Type 0} (R : A → Type 0) (a : A) → R a → Gives P R (pure a)
  pure-Gives R a r = record { keeps = λ w p. p; gives = λ w p. r }

  continue-Gives :
      {A B : Type 0} (R : A → Type 0) (S : B → Type 0) (r : Result A × World) (f : A → Exec B)
      → P r.1.db r.1.tasks
      → Ends r (λ a u. R a)
      → ((a : A) → R a → Gives P S (f a))
      → P (continue r f).1.db (continue r f).1.tasks × Ends (continue r f) (λ b u. S b)
  continue-Gives R S (ok a, u) f p given k = ((k a given).keeps u p, (k a given).gives u p)
  continue-Gives R S (err e, u) f p given k = (p, tt)

  -- The rest of the block may use what the first action gives.
  pub bind-Gives :
      {A B : Type 0} (R : A → Type 0) (S : B → Type 0) (m : Exec A) (f : A → Exec B)
      → Gives P R m
      → ((a : A) → R a → Gives P S (f a))
      → Gives P S (m >>= f)
  bind-Gives R S m f h k = record {
    keeps = λ w p. (continue-Gives R S (m w) f (h.keeps w p) (h.gives w p) k).0;
    gives = λ w p. (continue-Gives R S (m w) f (h.keeps w p) (h.gives w p) k).1;
  }

  Ends-after :
      {A B : Type 0} (S : B → Type 0) (r : Result A × World) (f : A → Exec B)
      → P r.1.db r.1.tasks
      → ((a : A) → Gives P S (f a))
      → Ends (continue r f) (λ b u. S b)
  Ends-after S (ok a, u) f p k = (k a).gives u p
  Ends-after S (err e, u) f p k = tt

  pub after-Gives :
      {A B : Type 0} (S : B → Type 0) (m : Exec A) (f : A → Exec B)
      → Keeps P m
      → ((a : A) → Gives P S (f a))
      → Gives P S (m >>= f)
  after-Gives S m f h k = record {
    keeps = (bind-Keeps m f h (λ a. Gives-Keeps S (f a) (k a))).keeps;
    gives = λ w p. Ends-after S (m w) f (h.keeps w p) k;
  }

  use_continue :
      {A B : Type 0} (R : A → Type 0) (r : Result A × World) (f : A → Exec B)
      → P r.1.db r.1.tasks
      → Ends r (λ a u. R a)
      → ((a : A) → R a → Keeps P (f a))
      → P (continue r f).1.db (continue r f).1.tasks
  use_continue R (ok a, u) f p given k = (k a given).keeps u p
  use_continue R (err e, u) f p given k = p

  pub use-Gives :
      {A B : Type 0} (R : A → Type 0) (m : Exec A) (f : A → Exec B)
      → Gives P R m
      → ((a : A) → R a → Keeps P (f a))
      → Keeps P (m >>= f)
  use-Gives R m f h k = record {
    keeps = λ w p. use_continue R (m w) f (h.keeps w p) (h.gives w p) k;
  }

  committed-Gives :
      {A : Type 0} (R : A → Type 0) (body : Exec A) → Gives P R body → Gives P R (committed body)
  committed-Gives R body h =
      after-Gives R silent _ (statement-Keeps (λ w. (tt, w)) (λ w p. p)) (λ _.
        bind-Gives R R body _ h (λ a given.
          after-Gives R silent _ (statement-Keeps (λ w. (tt, w)) (λ w p. p))
            (λ _. pure-Gives R a given)))

  pub transaction-Gives :
      {A : Type 0} (R : A → Type 0) (body : Exec A) → Gives P R body → Gives P R (transaction body)
  transaction-Gives R body h = record {
    keeps = (transaction-Keeps body (Gives-Keeps R body h)).keeps;
    gives = λ w p. transaction_end-Gives R body w ((committed-Gives R body h).gives w p);
  }
