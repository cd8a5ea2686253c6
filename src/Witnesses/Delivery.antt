-- ===== src/Witnesses/Delivery.antt =====
-- The theorems on the webhook dispatcher at concrete inputs: a delivery that has failed once.
use dodo_invoice_service.Base.{length, true, ◌≤◌, refl, ◌∷◌, ◌≡◌, [], false, arith, ◌+◌, ℕ}
use dodo_invoice_service.Db.{ok, err, World}
use dodo_invoice_service.Webhooks.Dispatch.{
  due, due_rows, due_of, dispatch_due_batch, due_in, DueDelivery,
}
use dodo_invoice_service.Webhooks.Dispatch.Progress.{IsHealthy}
use dodo_invoice_service.Samples.{unreachable, endpoint, waiting, unlocked, signer, posting}
use dodo_invoice_service.Webhooks.Dispatch.Health.{all_left}
use dodo_invoice_service.Webhooks.Dispatch.Batch.{posts, Sent}
use dodo_invoice_service.Error.{database_error}
use dodo_invoice_service.Webhooks.Dispatch.Faultless.{failed_commit_resends}
use dodo_invoice_service.Webhooks.Dispatch.Service.{batch_delivers}

posting-IsHealthy : IsHealthy posting.db.deliveries
posting-IsHealthy = record { well = refl; unique = λ k. ground arith }

abbrev waiting_due : DueDelivery
waiting_due = due_of waiting endpoint

is_due_now : due unlocked posting ≡ waiting_due ∷ []
unfolding due_in due_rows
is_due_now = refl

batch_delivers_example :
    let (r, u) = dispatch_due_batch signer unreachable unlocked posting in
    (r ≡ ok tt)
    × Sent signer unreachable (due unlocked posting) posting u
    × (length (due unlocked posting) ≤ 20)
    × IsHealthy u.db.deliveries
    × (all_left u.db.deliveries + length (due unlocked posting) ≤ all_left posting.db.deliveries)
batch_delivers_example =
    batch_delivers signer unreachable unlocked posting posting-IsHealthy refl (rw is_due_now refl)
      (rw is_due_now refl)

-- The fourth statement, the COMMIT, fails.
abbrev failing : World
failing = record posting { faults = false ∷ false ∷ false ∷ true ∷ [] }

is_due_then : due unlocked failing ≡ waiting_due ∷ []
unfolding due_in due_rows
is_due_then = refl

failed_commit_resends_example :
    let (r, u) = dispatch_due_batch signer unreachable unlocked failing in
    (r ≡ err database_error)
    × (u.sent ≡ posts signer unreachable 5 (due unlocked failing) [])
    × (u.db ≡ failing.db)
    × (due_in unlocked 5 u.db ≡ due unlocked failing)
failed_commit_resends_example =
    failed_commit_resends signer unreachable unlocked failing (rw is_due_then (refl, tt)) refl
      (rw is_due_then refl) (rw is_due_then refl)

-- A day passes.
abbrev next_day : ℕ → World → World
next_day q v = record v { now = v.now + 86400; faults = [] }
