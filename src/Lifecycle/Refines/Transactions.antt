-- ===== src/Lifecycle/Refines/Transactions.antt =====
-- From what the body of a transaction does to a sequence of changes.
use dodo_invoice_service.Base.{refl, ◌≡◌}
use mathlib.Core.Path.{subst}
use dodo_invoice_service.Db.{World, Result, ok, err, Exec, transaction, ◌>>=◌}
use dodo_invoice_service.Db.Ends.{continue, Ends, transaction-Ends}
use dodo_invoice_service.Lifecycle.{Shop, Reach-trans, shop, Reach, here}

module _ {A : Type 0} where
  pub Ends-map :
      (r : Result A × World) (P R : A → World → Type 0)
      → ((a : A) (u : World) → P a u → R a u)
      → Ends r P
      → Ends r R
  Ends-map (ok a, u) P R f h = f a u h
  Ends-map (err e, u) P R f h = tt

  pub transaction-Reach :
      (body : Exec A) (w : World)
      → ((v : World) → shop v ≡ shop w → Ends (body v) (λ a u. Reach (shop v) (shop u)))
      → Reach (shop w) (shop (transaction body w).1)
  transaction-Reach body w h =
      transaction-Ends
        (λ db tasks.
          Reach (shop w) (record { invoices = db.invoices; attempts = db.attempts; tasks = tasks }))
        body w here
        (λ v same_db same_tasks.
          let same : shop v ≡ shop w = λ i. record {
            invoices = (same_db i).invoices;
            attempts = (same_db i).attempts;
            tasks = same_tasks i;
          } in
          Ends-map (body v) (λ a u. Reach (shop v) (shop u)) (λ a u. Reach (shop w) (shop u))
            (λ a u r. subst (λ s. Reach s (shop u)) same r) (h v same))

module _ {A B : Type 0} where
  Reach-continue :
      (s : Shop) (r : Result A × World) (f : A → Exec B)
      → Reach s (shop r.1)
      → ((a : A) (u : World) → r ≡ (ok a, u) → Reach (shop u) (shop (f a u).1))
      → Reach s (shop (continue r f).1)
  Reach-continue s (ok a, w) f h k = Reach-trans h (k a w refl)
  Reach-continue s (err e, w) f h k = h

  -- The changes of two actions, one after the other.
  pub Reach-bind :
      (m : Exec A) (f : A → Exec B) (w : World)
      → Reach (shop w) (shop (m w).1)
      → ((a : A) (u : World) → m w ≡ (ok a, u) → Reach (shop u) (shop (f a u).1))
      → Reach (shop w) (shop ((m >>= f) w).1)
  Reach-bind m f w h k = Reach-continue (shop w) (m w) f h k
