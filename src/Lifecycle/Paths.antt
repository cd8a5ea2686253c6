-- ===== src/Lifecycle/Paths.antt =====
-- How the state of one invoice moves under the changes: along the edges of the diagram.
use dodo_invoice_service.Base.{
  ◌⊎◌, ℕ, ◌≡◌, refl, inl, inr, true, false, arith, str_eq, ◌==◌, Bool-cases, eq_refl,
}
use dodo_invoice_service.StateMachine.{
  InvoiceState, draft, open_state, paid, void, uncollectible, as_str, is_terminal,
}
use dodo_invoice_service.StateMachine.Diagram.{
  ◌⟶◌, ◌⟶*◌, then, here as stay, ⟶*_trans, pay, finalize, void_draft, void_open, write_off,
}
use dodo_invoice_service.Models.{Uuid}
use dodo_invoice_service.PspClient.{PspOutcome, succeeded, declined, unavailable}
use dodo_invoice_service.Payments.Settle.{settle_attempts, verdict, close_open}
use dodo_invoice_service.Invoices.Transition.{set_state}
use dodo_invoice_service.Lifecycle.{
  settle_invoices, Shop, Change, create, move, claim, spawn, settle, Reach, here, next,
}
use dodo_invoice_service.Lifecycle.Tables.{
  open-close_open, in_state-set_state, in_state-close_open, paid-close_open, one_state, no-state,
}
use dodo_invoice_service.Lifecycle.Invariant.{IsConsistent, in_state}
use dodo_invoice_service.Lifecycle.Safety.{Reach-IsConsistent}

-- The invoice is in a state that the diagram leads to from `from`.
abbrev pub MovedFrom : InvoiceState → Shop → Uuid → Type 0
MovedFrom from t i = (to : InvoiceState) × (from ⟶* to) × (in_state t i (as_str to) ≡ true)

as_str-discrete : (s t : InvoiceState) → (s ≡ t) ⊎ (str_eq (as_str s) (as_str t) ≡ false)
unfolding as_str
as_str-discrete draft draft = inl refl
as_str-discrete open_state open_state = inl refl
as_str-discrete paid paid = inl refl
as_str-discrete void void = inl refl
as_str-discrete uncollectible uncollectible = inl refl
as_str-discrete _ _ = inr refl

moved-state :
    (s : Shop) (i j : Uuid) (now : ℕ) {a from to : InvoiceState}
    → IsConsistent s
    → a ⟶ to
    → in_state s j (as_str a) ≡ true
    → in_state s i (as_str from) ≡ true
    → MovedFrom from (record s { invoices = set_state j (as_str to) now s.invoices }) i
moved-state s i j now {a} {from} {to} c edge ha h = elim (Bool-cases (i == j)) [
  | inr other ↦
      (from, stay, ground (arith, in_state-set_state i j (as_str from) (as_str to) now s.invoices))
  | inl same ↦ elim (as_str-discrete a from) [
    | inr differ ↦ absurd (
        ground (
          arith,
          one_state j (as_str a) (as_str from) s.invoices differ (c.at_invoice j).id_once ha,
        ))
    | inl e ↦ (
      to,
      rw (← e) (then edge stay),
      ground (
        arith,
        in_state-set_state i j (as_str to) (as_str to) now s.invoices,
        eq_refl (as_str to),
        no-state j (as_str a) s.invoices,
      ),
    )
  ]
]

paid-state :
    (s : Shop) (i j : Uuid) (now : ℕ) (from : InvoiceState)
    → in_state s i (as_str from) ≡ true
    → MovedFrom from (record s { invoices = close_open j "paid" now s.invoices }) i
unfolding as_str
paid-state s i j now draft h =
    (draft, stay, in_state-close_open i j "draft" "paid" now s.invoices refl h)
paid-state s i j now paid h =
    (paid, stay, in_state-close_open i j "paid" "paid" now s.invoices refl h)
paid-state s i j now void h =
    (void, stay, in_state-close_open i j "void" "paid" now s.invoices refl h)
paid-state s i j now uncollectible h =
    (uncollectible, stay, in_state-close_open i j "uncollectible" "paid" now s.invoices refl h)
paid-state s i j now open_state h = elim (Bool-cases (i == j)) [
  | inl same ↦ (paid, then pay stay, ground (arith, paid-close_open i j now s.invoices))
  | inr other ↦ (open_state, stay, ground (arith, open-close_open i j now s.invoices))
]

settled-state :
    (s : Shop) (i j a : Uuid) (now : ℕ) (outcome : PspOutcome) (from : InvoiceState)
    → in_state s i (as_str from) ≡ true
    → MovedFrom from
        (record s {
          attempts = settle_attempts a (verdict outcome) now s.attempts;
          invoices = settle_invoices j (verdict outcome).invoice_target_state now s.invoices;
        })
        i
unfolding verdict
settled-state s i j a now (succeeded psp_ref) from h = paid-state s i j now from h
settled-state s i j a now (declined code) from h = (from, stay, h)
settled-state s i j a now (unavailable detail) from h = (from, stay, h)

-- One change moves the state of an invoice along at most one edge.
Change-state :
    {s t : Shop} (i : Uuid) (from : InvoiceState)
    → IsConsistent s
    → Change s t
    → in_state s i (as_str from) ≡ true
    → MovedFrom from t i
Change-state {s} i from c (create row d fresh e) h = (from, stay, ground (arith, e))
Change-state {s} i from c (move j now edge unpaid g e) h = rw e (moved-state s i j now c edge g h)
Change-state {s} i from c (claim a p o fresh free e) h = (from, stay, rw e h)
Change-state {s} i from c (spawn task known e) h = (from, stay, rw e h)
Change-state {s} i from c (settle a j outcome now known due e) h =
    rw e (settled-state s i j a now outcome from h)

-- Any changes move it along a path of the diagram.
pub Reach-state :
    {s t : Shop} (i : Uuid) (from : InvoiceState)
    → IsConsistent s
    → Reach s t
    → in_state s i (as_str from) ≡ true
    → MovedFrom from t i
Reach-state i from c here h = (from, stay, h)
Reach-state i from c (next r ch) h =
    let (mid, path, at_mid) = Reach-state i from c r h in
    let (to, edge, at_to) = Change-state i mid (Reach-IsConsistent c r) ch at_mid in
    (to, ⟶*_trans path edge, at_to)

terminal-stays : {s t : InvoiceState} → is_terminal s ≡ true → s ⟶* t → t ≡ s
unfolding is_terminal
terminal-stays h stay = refl
terminal-stays h (then finalize p) = cc
terminal-stays h (then void_draft p) = cc
terminal-stays h (then void_open p) = cc
terminal-stays h (then pay p) = cc
terminal-stays h (then write_off p) = cc

-- An invoice in a terminal state stays in it.
pub Reach-terminal :
    {s t : Shop} (i : Uuid) (from : InvoiceState)
    → IsConsistent s
    → Reach s t
    → is_terminal from ≡ true
    → in_state s i (as_str from) ≡ true
    → in_state t i (as_str from) ≡ true
Reach-terminal {s} {t} i from c r final h =
    let (to, path, at_to) = Reach-state i from c r h in rw (terminal-stays final path) at at_to
