-- ===== src/Lifecycle/Refines/Claiming.antt =====
-- `claim_payment_attempt` is the change `claim`.
use dodo_invoice_service.Base.{
  refl, String, ◌≡◌, inl, inr, true, false, ◌∷◌, arith, any, Option-cases,
}
use dodo_invoice_service.StateMachine.{as_str, parse, can_accept_payment}
use dodo_invoice_service.Models.{Uuid}
use dodo_invoice_service.Db.{World}
use dodo_invoice_service.Db.Ends.{Ends}
use dodo_invoice_service.Invoices.{invoice_of}
use dodo_invoice_service.Payments.{is_pending_for}
use dodo_invoice_service.Payments.Claim.{new_attempt, claim_in_tx, claim_payment_attempt}
use dodo_invoice_service.Lifecycle.Tables.{is_in_state, attempt_has_id}
use dodo_invoice_service.Lifecycle.{shop, claim, Reach, here, next}
use dodo_invoice_service.Lifecycle.Refines.Transactions.{Ends-map, transaction-Reach}
use dodo_invoice_service.Lifecycle.Refines.Found.{in_state-of_found}

-- What a claim that ends well has found, and what it has done.
pub record Claimed (i : Uuid) (card_token : String) (v u : World) (id : Uuid) : Type 0 where
  pub was_open : any (is_in_state i "open") v.db.invoices ≡ true
  pub fresh : any (attempt_has_id id) v.db.attempts ≡ false
  pub free : any (is_pending_for i) v.db.attempts ≡ false
  pub db : u.db ≡ record v.db { attempts = new_attempt id i card_token v.now ∷ v.db.attempts }
  pub tasks : u.tasks ≡ v.tasks

pub claim_in_tx-Claimed :
    (b i : Uuid) (card_token : String) (v : World)
    → Ends (claim_in_tx b i card_token v) (λ id u. Claimed i card_token v u id)
unfolding claim_in_tx can_accept_payment as_str
claim_in_tx-Claimed b i card_token v = elim (Option-cases (invoice_of i b v.db)) [
  | inl missing ↦ ground arith
  | inr (row, found) ↦ elim (Option-cases (parse row.state)) [
    | inl unreadable ↦ ground arith
    | inr (s, readable) ↦ ground (arith, in_state-of_found i b v.db.invoices row s found readable)
  ]
]

Claimed-Reach :
    (i : Uuid) (card_token : String) (v : World) (id : Uuid) (u : World)
    → Claimed i card_token v u id
    → Reach (shop v) (shop u)
Claimed-Reach i card_token v id u c = next here (
    claim (new_attempt id i card_token v.now) refl c.was_open c.fresh c.free (λ k. record {
      invoices = (c.db k).invoices;
      attempts = (c.db k).attempts;
      tasks = c.tasks k;
    }))

-- Whatever the database fails, a claim is the change `claim` or leaves all as it was.
pub claim_payment_attempt-Reach :
    (b i : Uuid) (card_token : String) (w : World)
    → Reach (shop w) (shop (claim_payment_attempt b i card_token w).1)
unfolding claim_payment_attempt
claim_payment_attempt-Reach b i card_token w =
    transaction-Reach (claim_in_tx b i card_token) w (λ v _.
      Ends-map (claim_in_tx b i card_token v) (λ id u. Claimed i card_token v u id)
        (λ id u. Reach (shop v) (shop u)) (Claimed-Reach i card_token v)
        (claim_in_tx-Claimed b i card_token v))
