-- ===== src/StateMachine/Text.antt =====
-- The texts of the states: `as_str` and `parse` are inverse to one another.
use dodo_invoice_service.Base.{String, ◌≡◌, refl, ◌↔◌, some, arith, eq_iff}
use dodo_invoice_service.StateMachine.{InvoiceState, draft, as_str, parse}

-- Every state is read back from its text.
pub parse-as_str : (s : InvoiceState) → parse (as_str s) ≡ some s
unfolding parse as_str
parse-as_str draft = refl
parse-as_str _ = refl

as_str-of_parse : (t : String) (s : InvoiceState) → parse t ≡ some s → t ≡ as_str s
unfolding parse as_str
as_str-of_parse t s h = ground (
  arith,
  eq_iff t "draft",
  eq_iff t "open",
  eq_iff t "paid",
  eq_iff t "void",
  eq_iff t "uncollectible",
)

-- `parse` accepts a text as a state exactly when it is the text of that state.
pub parse_iff : (t : String) (s : InvoiceState) → (parse t ≡ some s) ↔ (t ≡ as_str s)
parse_iff t s = (as_str-of_parse t s, λ e. rw e (parse-as_str s))
