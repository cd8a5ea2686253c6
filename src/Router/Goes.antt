-- ===== src/Router/Goes.antt =====
-- Actions that are histories of the service: those that leave the invoices, attempts and tasks alone, and what is
-- put together of others.
use dodo_invoice_service.Base.{refl, sym, ◌≡◌, Option, List}
use dodo_invoice_service.Db.{err, ok, Task, ok_or, Result, Db, ◌>>=◌, Exec, pure, World}
use dodo_invoice_service.Lifecycle.{shop, Shop}
use dodo_invoice_service.Error.{StatusCode, AppError}
use dodo_invoice_service.Db.Keeps.{bind-Keeps, ok_or-Keeps, Keeps, pure-Keeps}
use dodo_invoice_service.Router.Aside.{IsBlind}
use dodo_invoice_service.History.{elsewhere, History}
use dodo_invoice_service.Router.{with_status, as_ok}
use dodo_invoice_service.Db.Ends.{continue}

-- The invoices, attempts and tasks are those of `s`.
abbrev pub At : Shop → Db → List Task → Type 0
At s db tasks = record { invoices = db.invoices; attempts = db.attempts; tasks = tasks } ≡ s

pub At-IsBlind : (s : Shop) → IsBlind (At s)
At-IsBlind s = record { blind = λ db db' tasks i a d l k h. rw (i, a) h }

pub record Goes {A : Type 0} (m : Exec A) : Type 0 where
  pub goes : {w u : World} → History w u → History w (m u).1

module _ {A : Type 0} where
  -- What leaves the shop alone.
  pub aside-Goes : (m : Exec A) → ((s : Shop) → Keeps (At s) m) → Goes m
  aside-Goes m h = record {
    goes = λ {w} {u} past. elsewhere (m u).1 past (sym ((h (shop u)).keeps u refl));
  }

  continue-Goes :
      {B : Type 0} {w : World} (r : Result A × World) (f : A → Exec B)
      → History w r.1
      → ((a : A) → Goes (f a))
      → History w (continue r f).1
  continue-Goes (ok a, u) f past k = (k a).goes past
  continue-Goes (err e, u) f past k = past

  pub bind-Goes :
      {B : Type 0} (m : Exec A) (f : A → Exec B) → Goes m → ((a : A) → Goes (f a)) → Goes (m >>= f)
  bind-Goes m f h k = record { goes = λ {w} {u} past. continue-Goes (m u) f (h.goes past) k }

  pub ok_or-Goes : (o : Option A) (e : AppError) → Goes (ok_or o e)
  ok_or-Goes o e = aside-Goes (ok_or o e) (λ s. ok_or-Keeps o e)

  pub pure-Goes : (a : A) → Goes (pure a)
  pure-Goes a = aside-Goes (pure a) (λ s. pure-Keeps a)

module _ {A : Type 0} where
  pub as_ok-Goes : (m : Exec A) → Goes m → Goes (as_ok m)
  as_ok-Goes m h = bind-Goes m _ h (λ a. pure-Goes 200)

  pub with_status-Goes : (m : Exec (StatusCode × A)) → Goes m → Goes (with_status m)
  with_status-Goes m h = record {
    goes = λ {w} {u} past. continue-Goes (m u) (λ a. pure a.0) (h.goes past) (λ a. pure-Goes a.0);
  }

  pub as_ok-Keeps : {P : Db → List Task → Type 0} (m : Exec A) → Keeps P m → Keeps P (as_ok m)
  as_ok-Keeps m h = bind-Keeps m _ h (λ a. pure-Keeps 200)

  pub with_status-Keeps :
      {P : Db → List Task → Type 0} (m : Exec (StatusCode × A))
      → Keeps P m
      → Keeps P (with_status m)
  with_status-Keeps m h = bind-Keeps m _ h (λ a. pure-Keeps a.0)
