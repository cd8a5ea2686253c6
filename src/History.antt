-- ===== src/History.antt =====
-- The service over time: any sequence of requests, of spawned payment tasks and of whatever else
-- leaves the invoices, attempts and tasks alone. A payment runs among other such sequences, one at
-- each place where its transactions leave a gap.
pub mod Charges
pub mod States
use dodo_invoice_service.Base.{String, ◌≡◌, true, Option, any}
use dodo_invoice_service.Models.{Uuid, CreateInvoiceRequest}
use dodo_invoice_service.Db.{World, Task}
use dodo_invoice_service.PspClient.{Psp}
use dodo_invoice_service.Idempotency.{Crypto, Point, Others}
use dodo_invoice_service.Invoices.Create.{create_invoice}
use dodo_invoice_service.Invoices.Transition.{finalize_invoice, void_invoice, mark_uncollectible}
use dodo_invoice_service.Payments.Pay.{Race, run_task, pay_invoice}
use dodo_invoice_service.Lifecycle.{shop, Reach, here, Reach-trans}
use dodo_invoice_service.Lifecycle.Tables.{is_task_of}
use dodo_invoice_service.Lifecycle.Refines.Creating.{create_invoice-Reach}
use dodo_invoice_service.Lifecycle.Refines.Moving.{
  finalize_invoice-Reach, void_invoice-Reach, mark_uncollectible-Reach,
}
use dodo_invoice_service.Lifecycle.Refines.Settling.{finalize_payment_attempt-Reach}
use dodo_invoice_service.Lifecycle.Refines.Paying.{run_task-Reach, pay_invoice-Reach}

pub data History : World → World → Type 0 where
  start : {w : World} → History w w
  elsewhere : {w u : World} (v : World) → History w u → shop u ≡ shop v → History w v
  create :
      {w u : World} (b : Uuid) (req : CreateInvoiceRequest)
      → History w u
      → History w (create_invoice b req u).1
  finalize : {w u : World} (b i : Uuid) → History w u → History w (finalize_invoice b i u).1
  void : {w u : World} (b i : Uuid) → History w u → History w (void_invoice b i u).1
  write_off : {w u : World} (b i : Uuid) → History w u → History w (mark_uncollectible b i u).1
  pay :
      {w u : World} (psp : Psp) (others : Others) (c : Crypto) (race : Race) (b i : Uuid)
      (header : Option String) (card_token : String)
      → ((p : Point) (v : World) → History v (others p v))
      → History w u
      → History w (pay_invoice psp others c race b i header card_token u).1
  resume :
      {w u : World} (psp : Psp) (task : Task)
      → any (is_task_of task.attempt_id task.invoice_id) u.tasks ≡ true
      → History w u
      → History w (run_task psp task u).1

-- The whole service keeps to the contract.
pub History-Reach : {w v : World} → History w v → Reach (shop w) (shop v)
History-Reach start = here
History-Reach (elsewhere v h e) = rw (← e) (History-Reach h)
History-Reach (create {u} b req h) = Reach-trans (History-Reach h) (create_invoice-Reach b req u)
History-Reach (finalize {u} b i h) = Reach-trans (History-Reach h) (finalize_invoice-Reach b i u)
History-Reach (void {u} b i h) = Reach-trans (History-Reach h) (void_invoice-Reach b i u)
History-Reach (write_off {u} b i h) = Reach-trans (History-Reach h) (mark_uncollectible-Reach b i u)
History-Reach (pay {u} psp others c race b i header card_token steady h) =
    Reach-trans (History-Reach h) (
      pay_invoice-Reach psp others (λ p v. History-Reach (steady p v)) c race b i header card_token
        u)
History-Reach (resume {u} psp task known h) =
    Reach-trans (History-Reach h) (run_task-Reach psp task u known)
