-- ===== src/Lifecycle/Refines/Moving.antt =====
-- `transition` is the change `move` along an edge of the diagram, and so are the three handlers
-- that are instances of it.
use dodo_invoice_service.Base.{String, ◌≡◌, ◌≢◌, inl, inr, Bool, true, some, arith, Option-cases}
use dodo_invoice_service.StateMachine.{
  InvoiceState, draft, open_state, paid, void, uncollectible, as_str, parse, can_finalize, can_void,
  can_mark_uncollectible,
}
use dodo_invoice_service.StateMachine.Diagram.{◌⟶◌, finalize, void_draft, void_open, write_off}
use dodo_invoice_service.Models.{Uuid, InvoiceRow}
use dodo_invoice_service.Db.{World}
use dodo_invoice_service.Db.Ends.{Ends}
use dodo_invoice_service.Invoices.{invoice_of}
use dodo_invoice_service.Invoices.Transition.{
  set_state, transition_in_tx, transition, finalize_invoice, void_invoice, mark_uncollectible,
}
use dodo_invoice_service.Lifecycle.{shop, move, Reach, here, next}
use dodo_invoice_service.Lifecycle.Refines.Found.{in_state-of_found}
use dodo_invoice_service.Lifecycle.Refines.Transactions.{Ends-map, transaction-Reach}

-- What a transition out of state `from` that ends well has done.
record Moved (i : Uuid) (allowed : InvoiceState → Bool) (from target : InvoiceState) (v u : World)
    : Type 0 where
  was_allowed : allowed from ≡ true
  invoices : u.db.invoices ≡ set_state i (as_str target) v.now v.db.invoices
  attempts : u.db.attempts ≡ v.db.attempts
  tasks : u.tasks ≡ v.tasks

module _ (b i : Uuid) (action : String) (allowed : InvoiceState → Bool)
    (target : InvoiceState) where
  transition_in_tx-Moved :
      (v : World) (row : InvoiceRow) (from : InvoiceState)
      → invoice_of i b v.db ≡ some row
      → parse row.state ≡ some from
      → Ends (transition_in_tx b i action allowed target v) (λ r u. Moved i allowed from target v u)
  unfolding transition_in_tx
  transition_in_tx-Moved v row from found readable = ground arith

  module _ (edge : (s : InvoiceState) → allowed s ≡ true → s ⟶ target)
      (unpaid : target ≢ paid) where
    transition_in_tx-Reach :
        (v : World)
        → Ends (transition_in_tx b i action allowed target v) (λ r u. Reach (shop v) (shop u))
    unfolding transition_in_tx
    transition_in_tx-Reach v = elim (Option-cases (invoice_of i b v.db)) [
      | inl missing ↦ ground arith
      | inr (row, found) ↦ elim (Option-cases (parse row.state)) [
        | inl unreadable ↦ ground arith
        | inr (from, readable) ↦
            Ends-map (transition_in_tx b i action allowed target v)
              (λ r u. Moved i allowed from target v u) (λ r u. Reach (shop v) (shop u))
              (λ r u m. next here (
                move i v.now (edge from m.was_allowed) unpaid
                  (in_state-of_found i b v.db.invoices row from found readable)
                  (λ k. record {
                    invoices = m.invoices k;
                    attempts = m.attempts k;
                    tasks = m.tasks k;
                  })))
              (transition_in_tx-Moved v row from found readable)
      ]
    ]

    transition-Reach :
        (w : World) → Reach (shop w) (shop (transition b i action allowed target w).1)
    unfolding transition
    transition-Reach w =
        transaction-Reach (transition_in_tx b i action allowed target) w
          (λ v _. transition_in_tx-Reach v)

finalize-edge : (s : InvoiceState) → can_finalize s ≡ true → s ⟶ open_state
unfolding can_finalize
finalize-edge draft h = finalize
finalize-edge _ h = cc

void-edge : (s : InvoiceState) → can_void s ≡ true → s ⟶ void
unfolding can_void
void-edge draft h = void_draft
void-edge open_state h = void_open
void-edge _ h = cc

write_off-edge : (s : InvoiceState) → can_mark_uncollectible s ≡ true → s ⟶ uncollectible
unfolding can_mark_uncollectible
write_off-edge open_state h = write_off
write_off-edge _ h = cc

module _ (b i : Uuid) (w : World) where
  pub finalize_invoice-Reach : Reach (shop w) (shop (finalize_invoice b i w).1)
  unfolding finalize_invoice
  finalize_invoice-Reach =
      transition-Reach b i "finalize" can_finalize open_state finalize-edge (λ e. cc) w

  pub void_invoice-Reach : Reach (shop w) (shop (void_invoice b i w).1)
  unfolding void_invoice
  void_invoice-Reach = transition-Reach b i "void" can_void void void-edge (λ e. cc) w

  pub mark_uncollectible-Reach : Reach (shop w) (shop (mark_uncollectible b i w).1)
  unfolding mark_uncollectible
  mark_uncollectible-Reach =
      transition-Reach b i "mark-uncollectible" can_mark_uncollectible uncollectible write_off-edge
        (λ e. cc) w
