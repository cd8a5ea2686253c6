-- ===== src/History/Charges.antt =====
-- What every history of the service keeps true of the payments.
use dodo_invoice_service.Base.{◌≤◌, ◌+◌, ◌≡◌, true, [], arith}
use dodo_invoice_service.Models.{Uuid}
use dodo_invoice_service.Db.{World}
use dodo_invoice_service.Lifecycle.{Shop, shop}
use dodo_invoice_service.Lifecycle.Invariant.{IsConsistent, pending, succeeded, in_state}
use dodo_invoice_service.Lifecycle.Safety.{Reach-IsConsistent}
use dodo_invoice_service.History.{History, History-Reach}
use dodo_invoice_service.StateMachine.{
  uncollectible, void, paid, open_state, draft, InvoiceState, as_str,
}

-- A service that begins with no invoice, attempt or task.
abbrev pub empty_shop : Shop
empty_shop = record { invoices = []; attempts = []; tasks = [] }

empty-IsConsistent : IsConsistent empty_shop
empty-IsConsistent = record {
  at_invoice = λ i. ground arith;
  attempt_once = λ a. ground arith;
  owned = λ a i h. cc;
}

pub History-IsConsistent : {w v : World} → shop w ≡ empty_shop → History w v → IsConsistent (shop v)
History-IsConsistent e h = Reach-IsConsistent (rw e empty-IsConsistent) (History-Reach h)

-- In every history that begins with no invoice, attempt or task, and at every moment of it, an
-- invoice has at most one payment attempt that is pending or has succeeded.
pub at_most_one_charge :
    {w v : World} (i : Uuid)
    → shop w ≡ empty_shop
    → History w v
    → pending (shop v) i + succeeded (shop v) i ≤ 1
at_most_one_charge i e h = ((History-IsConsistent e h).at_invoice i).one_live

-- The successful and the pending attempts that an invoice may have in a state.
abbrev pub HasCharges : InvoiceState → Shop → Uuid → Type 0
HasCharges draft s i = pending s i + succeeded s i ≡ 0
HasCharges open_state s i = (succeeded s i ≡ 0) × (pending s i ≤ 1)
HasCharges paid s i = (succeeded s i ≡ 1) × (pending s i ≡ 0)
HasCharges void s i = pending s i + succeeded s i ≤ 1
HasCharges uncollectible s i = pending s i + succeeded s i ≤ 1

-- In a history that begins with no invoice, attempt or task, at every moment of it, a paid invoice
-- has exactly one attempt that has succeeded and none that is pending, an open one has none that
-- has succeeded and at most one that is pending, a draft has none of either kind, and a void or
-- uncollectible one has at most one of both kinds together.
pub charges_of_state :
    {w v : World} (i : Uuid) (state : InvoiceState)
    → shop w ≡ empty_shop
    → History w v
    → in_state (shop v) i (as_str state) ≡ true
    → HasCharges state (shop v) i
unfolding as_str
charges_of_state i draft e h at_state = ground (arith, (History-IsConsistent e h).at_invoice i)
charges_of_state i open_state e h at_state = ground (arith, (History-IsConsistent e h).at_invoice i)
charges_of_state i paid e h at_state = ground (arith, (History-IsConsistent e h).at_invoice i)
charges_of_state i void e h at_state = ((History-IsConsistent e h).at_invoice i).one_live
charges_of_state i uncollectible e h at_state = ((History-IsConsistent e h).at_invoice i).one_live
