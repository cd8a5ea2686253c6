-- ===== src/Db/Ends.antt =====
-- What holds when an action ends well: the rule for a transaction, which takes back what a failed
-- body has done.
use dodo_invoice_service.Base.{arith, ◌≡◌, refl, List}
use dodo_invoice_service.Db.{later, Db, World, Task, Result, ok, err, Exec, statement, transaction}

-- `P` holds of the result and the world, or the action has failed.
abbrev pub Ends : {A : Type 0} → Result A × World → (A → World → Type 0) → Type 0
Ends (ok a, w) P = P a w
Ends (err _, w) P = Unit

-- A transaction that fails leaves the tables and the tasks as they were; one that commits has done
-- what its body has.
module _ {A : Type 0} (Q : Db → List Task → Type 0) where
  pub transaction-Ends :
      (body : Exec A) (w : World)
      → Q w.db w.tasks
      → ((v : World) → v.db ≡ w.db → v.tasks ≡ w.tasks → Ends (body v) (λ a u. Q u.db u.tasks))
      → Q (transaction body w).1.db (transaction body w).1.tasks
  unfolding transaction statement
  transaction-Ends body w q h = ground (arith, h (record w { faults = later w.faults }) refl refl)

-- The same with the result: what the body ends with is what the transaction ends with.
module _ {A : Type 0} (P : A → Db → List Task → Type 0) where
  pub transaction_result-Ends :
      (body : Exec A) (w : World)
      → ((v : World) → v.db ≡ w.db → v.tasks ≡ w.tasks → Ends (body v) (λ a u. P a u.db u.tasks))
      → Ends (transaction body w) (λ a u. P a u.db u.tasks)
  unfolding transaction statement
  transaction_result-Ends body w h =
      ground (arith, h (record w { faults = later w.faults }) refl refl)

-- What an action that did end well has.
pub Ends-ok :
    {A : Type 0} (r : Result A × World) (P : A → World → Type 0) {a : A} {u : World}
    → Ends r P
    → r ≡ (ok a, u)
    → P a u
Ends-ok r P h e = rw e at h

-- The rest of a `do` block after its first action.
abbrev pub continue : {A B : Type 0} → Result A × World → (A → Exec B) → Result B × World
continue (r, w) f = elim r [ ok a ↦ f a w | err e ↦ (err e, w) ]
