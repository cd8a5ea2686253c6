-- ===== src/Lifecycle/Findings.antt =====
-- An invoice can be voided while a payment of it is in flight: `void_invoice` looks at no attempt.
use dodo_invoice_service.Base.{refl, String, ◌≡◌, true, ◌<◌, arith, any, count}
use dodo_invoice_service.Models.{Uuid}
use dodo_invoice_service.Db.{World, ok}
use dodo_invoice_service.Db.Ends.{Ends, Ends-ok, transaction_result-Ends}
use dodo_invoice_service.PspClient.{succeeded as approved}
use dodo_invoice_service.Payments.Settle.{
  PayResultBody, verdict, settle_in_tx, finalize_payment_attempt,
}
use dodo_invoice_service.Lifecycle.{shop}
use dodo_invoice_service.Lifecycle.Tables.{
  is_in_state, is_success_for, is_due_for, success-settle, in_state-close_open,
}
use dodo_invoice_service.Lifecycle.Invariant.{succeeded, in_state}
use dodo_invoice_service.Lifecycle.Refines.Settling.{Settled, settle_in_tx-Settled}
use dodo_invoice_service.Lifecycle.Refines.Transactions.{Ends-map}

module _ (i a : Uuid) (psp_ref : String) (w : World) where
  settled_void :
      0 < count (is_due_for a i) w.db.attempts
      → any (is_in_state i "void") w.db.invoices ≡ true
      → Ends (finalize_payment_attempt i a (approved psp_ref) w) (λ _ u.
        (any (is_in_state i "void") u.db.invoices ≡ true)
        × (0 < count (is_success_for i) u.db.attempts))
  unfolding finalize_payment_attempt verdict
  settled_void due void =
      transaction_result-Ends
        (λ _ db _.
          (any (is_in_state i "void") db.invoices ≡ true)
          × (0 < count (is_success_for i) db.attempts))
        (settle_in_tx i a (verdict (approved psp_ref))) w
        (λ v same _.
          Ends-map (settle_in_tx i a (verdict (approved psp_ref)) v)
            (λ body u. Settled i a (verdict (approved psp_ref)) v u body) _
            (λ body u s.
              rw (s.invoices, s.attempts)
                (ground (
                  arith,
                  same,
                  success-settle a (verdict (approved psp_ref)) v.now i v.db.attempts,
                  in_state-close_open i i "void" "paid" v.now v.db.invoices refl,
                )))
            (settle_in_tx-Settled i a (verdict (approved psp_ref)) v))

  -- An approval of a payment that was in flight when its invoice was voided is recorded: if the attempt
  -- was pending and the transaction commits, the invoice stays void and has a payment that has succeeded.
  pub charged_though_void :
      {body : PayResultBody} {u : World}
      → 0 < count (is_due_for a i) w.db.attempts
      → in_state (shop w) i "void" ≡ true
      → finalize_payment_attempt i a (approved psp_ref) w ≡ (ok body, u)
      → (in_state (shop u) i "void" ≡ true) × (0 < succeeded (shop u) i)
  charged_though_void due void e = Ends-ok _ _ (settled_void due void) e
