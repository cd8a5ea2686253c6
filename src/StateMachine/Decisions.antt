-- ===== src/StateMachine/Decisions.antt =====
-- Each test of the code against the transition diagram of DESIGN.md section 2.
use dodo_invoice_service.Base.{arith, false, Bool, ◌≡◌, true, ◌↔◌, refl}
use dodo_invoice_service.StateMachine.{
  InvoiceState, is_terminal, draft, open_state, paid, void, uncollectible, can_finalize, can_void,
  can_mark_uncollectible, can_accept_payment,
}
use dodo_invoice_service.StateMachine.Diagram.{◌⟶◌, finalize, void_draft, void_open, pay, write_off}

-- The test that guards the step to a state; no handler steps to draft.
unfoldable pub allows : InvoiceState → InvoiceState → Bool
unfolding can_finalize can_void can_mark_uncollectible can_accept_payment
allows s draft = false
allows s open_state = can_finalize s
allows s paid = can_accept_payment s
allows s void = can_void s
allows s uncollectible = can_mark_uncollectible s

allows-of_edge : {s t : InvoiceState} → s ⟶ t → allows s t ≡ true
unfolding allows
allows-of_edge finalize = refl
allows-of_edge void_draft = refl
allows-of_edge void_open = refl
allows-of_edge pay = refl
allows-of_edge write_off = refl

edge-of_allows : (s t : InvoiceState) → allows s t ≡ true → s ⟶ t
unfolding allows
edge-of_allows draft open_state h = finalize
edge-of_allows draft void h = void_draft
edge-of_allows open_state void h = void_open
edge-of_allows open_state paid h = pay
edge-of_allows open_state uncollectible h = write_off
edge-of_allows _ _ h = absurd (ground arith)

-- Grouped by the state that they guard, the tests of the code accept exactly the steps of the
-- diagram: can_finalize those to open, can_accept_payment those to paid, can_void those to void
-- and can_mark_uncollectible those to uncollectible; no step leads to draft.
pub allows_iff : (s t : InvoiceState) → (allows s t ≡ true) ↔ (s ⟶ t)
allows_iff s t = (edge-of_allows s t, allows-of_edge)

terminal-stuck : (s : InvoiceState) → is_terminal s ≡ true → (t : InvoiceState) → s ⟶ t → ⊥
unfolding is_terminal
terminal-stuck draft h t e = cc
terminal-stuck open_state h t e = cc
terminal-stuck paid h t e = elim e [ ]
terminal-stuck void h t e = elim e [ ]
terminal-stuck uncollectible h t e = elim e [ ]

stuck-terminal : (s : InvoiceState) → ((t : InvoiceState) → ¬ (s ⟶ t)) → is_terminal s ≡ true
unfolding is_terminal
stuck-terminal draft stuck = absurd (stuck void void_draft)
stuck-terminal open_state stuck = absurd (stuck void void_open)
stuck-terminal _ stuck = refl

-- `is_terminal` holds of exactly the states that have no step out of them.
pub is_terminal_iff : (s : InvoiceState) → (is_terminal s ≡ true) ↔ ((t : InvoiceState) → ¬ (s ⟶ t))
is_terminal_iff s = (terminal-stuck s, stuck-terminal s)
