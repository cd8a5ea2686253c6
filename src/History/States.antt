-- ===== src/History/States.antt =====
-- What every history of the service keeps true of the states of the invoices.
use dodo_invoice_service.Base.{◌≡◌, true}
use dodo_invoice_service.StateMachine.{InvoiceState, as_str, is_terminal}
use dodo_invoice_service.Models.{Uuid}
use dodo_invoice_service.Db.{World}
use dodo_invoice_service.Lifecycle.{shop}
use dodo_invoice_service.Lifecycle.Invariant.{in_state}
use dodo_invoice_service.Lifecycle.Paths.{MovedFrom, Reach-state, Reach-terminal}
use dodo_invoice_service.History.{History, History-Reach}
use dodo_invoice_service.History.Charges.{empty_shop, History-IsConsistent}

-- From any moment of a history that begins with no invoice, attempt or task to any later one, the
-- state of an invoice has moved along a path of the diagram.
pub follows_diagram :
    {w u v : World} (i : Uuid) (from : InvoiceState)
    → shop w ≡ empty_shop
    → History w u
    → History u v
    → in_state (shop u) i (as_str from) ≡ true
    → MovedFrom from (shop v) i
follows_diagram i from e h k at_from =
    Reach-state i from (History-IsConsistent e h) (History-Reach k) at_from

-- In a history that begins with no invoice, attempt or task, an invoice that is paid, void or
-- uncollectible at some moment is so ever after.
pub terminal_forever :
    {w u v : World} (i : Uuid) (from : InvoiceState)
    → shop w ≡ empty_shop
    → History w u
    → History u v
    → is_terminal from ≡ true
    → in_state (shop u) i (as_str from) ≡ true
    → in_state (shop v) i (as_str from) ≡ true
terminal_forever i from e h k final at_from =
    Reach-terminal i from (History-IsConsistent e h) (History-Reach k) final at_from
