-- ===== src/StateMachine/Diagram.antt =====
-- The transition diagram of DESIGN.md section 2 as a relation, against the tests of the code.
use dodo_invoice_service.StateMachine.{InvoiceState, draft, open_state, paid, void, uncollectible}

infix 40 ◌⟶◌ ◌⟶*◌
pub data ◌⟶◌ : InvoiceState → InvoiceState → Type 0 where
  finalize : draft ⟶ open_state
  void_draft : draft ⟶ void
  void_open : open_state ⟶ void
  pay : open_state ⟶ paid
  write_off : open_state ⟶ uncollectible

pub data ◌⟶*◌ : InvoiceState → InvoiceState → Type 0 where
  here : {s : InvoiceState} → s ⟶* s
  then : {s t u : InvoiceState} → s ⟶ t → t ⟶* u → s ⟶* u

pub ⟶*_trans : {s t u : InvoiceState} → s ⟶* t → t ⟶* u → s ⟶* u
⟶*_trans here q = q
⟶*_trans (then e p) q = then e (⟶*_trans p q)
