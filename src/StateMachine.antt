-- ===== src/StateMachine.antt =====
-- invoice-service/src/state_machine.rs: the states of an invoice and which action each allows.
-- The error for a refused action stands in Error.antt.
pub mod Text
pub mod Diagram
pub mod Decisions
use dodo_invoice_service.Base.{String, Bool, true, false, Option, none, some, str_eq, if◌then◌else◌}

pub data InvoiceState : Type 0 where
  draft open_state paid void uncollectible : InvoiceState

unfoldable pub as_str : InvoiceState → String
as_str draft = "draft"
as_str open_state = "open"
as_str paid = "paid"
as_str void = "void"
as_str uncollectible = "uncollectible"

unfoldable pub parse : String → Option InvoiceState
parse s =
    if str_eq s "draft"
    then some draft
    else if str_eq s "open"
    then some open_state
    else if str_eq s "paid"
    then some paid
    else if str_eq s "void"
    then some void
    else if str_eq s "uncollectible"
    then some uncollectible
    else none

unfoldable pub is_terminal : InvoiceState → Bool
is_terminal paid = true
is_terminal void = true
is_terminal uncollectible = true
is_terminal _ = false

unfoldable pub can_finalize : InvoiceState → Bool
can_finalize draft = true
can_finalize _ = false

unfoldable pub can_void : InvoiceState → Bool
can_void draft = true
can_void open_state = true
can_void _ = false

unfoldable pub can_mark_uncollectible : InvoiceState → Bool
can_mark_uncollectible open_state = true
can_mark_uncollectible _ = false

unfoldable pub can_accept_payment : InvoiceState → Bool
can_accept_payment open_state = true
can_accept_payment _ = false
