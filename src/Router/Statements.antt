-- ===== src/Router/Statements.antt =====
-- The handlers of invoices and payments, and the deliveries that their events become.
use dodo_invoice_service.Db.Keeps.{
  transaction-Gives, use-Gives, bind-Gives, after-Gives, pure-Gives, raise-Gives, Gives,
  fetch_one-Keeps, ok_or-Keeps, or_database_error-Keeps, query-Keeps, raise_if-Keeps,
  transaction-Keeps, bind-Keeps, pure-Keeps, Keeps,
}
use dodo_invoice_service.Router.Rules.{Rules, Done}
use dodo_invoice_service.Base.{
  if◌then◌else◌, str_eq, ltb_ℤ, not, pos, leb_ℤ, ◌==◌, Bool, some, ◌∷◌, String, Option, List,
}
use dodo_invoice_service.Models.{from_row, LineItemInput, CreateInvoiceRequest, Uuid}
use dodo_invoice_service.Invoices.Create.{
  created_payload, total, customer_exists, is_empty, check_items, create_invoice, insert_items,
  create_in_tx,
}
use dodo_invoice_service.Db.{raise, or_database_error, violates, done, Task, Outcome, Db}
use dodo_invoice_service.Payments.Claim.{
  attempt_in_progress, claimed_id, claim_in_tx, claim_payment_attempt,
}
use dodo_invoice_service.Invoices.Transition.{
  transition_in_tx, finalize_invoice, mark_uncollectible, transition, void_invoice,
}
use dodo_invoice_service.Payments.Pay.{run_task}
use dodo_invoice_service.Payments.Settle.{
  settled_body, event_payload, verdict, Verdict, update_invoice, finalize_payment_attempt,
  settle_in_tx,
}
use dodo_invoice_service.PspClient.{charge, Psp}
use dodo_invoice_service.StateMachine.{
  as_str, can_accept_payment, parse, open_state, uncollectible, void, can_finalize, can_void,
  can_mark_uncollectible, InvoiceState,
}
use dodo_invoice_service.Invoices.{line_items_of, invoice_by_id, invoice_of}
use mathlib.Core.Option.{none}
use mathlib.Core.List.{[]}
use dodo_invoice_service.Error.{database_error}
use mathlib.Core.Bool.{false, true}

module _ {P : Db → List Task → Type 0} {NewInvoice NewAttempt : Uuid → Type 0}
    {Reserved : Uuid → String → Type 0} (rules : Rules P NewInvoice NewAttempt Reserved) where
  or_database_error-Gives :
      (o : Outcome Uuid) → Done NewInvoice o → Gives P NewInvoice (or_database_error o)
  or_database_error-Gives (done i) new = pure-Gives NewInvoice i new
  or_database_error-Gives (violates c) new = raise-Gives NewInvoice database_error

  check_items-Keeps : (items : List LineItemInput) → Keeps P (check_items items)
  unfolding check_items
  check_items-Keeps [] = pure-Keeps tt
  check_items-Keeps (item ∷ rest) =
      bind-Keeps _ _ (raise_if-Keeps (leb_ℤ item.quantity (pos 0)) _) (λ _.
        bind-Keeps _ _ (raise_if-Keeps (ltb_ℤ item.unit_amount_cents (pos 0)) _)
          (λ _. check_items-Keeps rest))

  insert_items-Keeps :
      (i : Uuid) (items : List LineItemInput) → NewInvoice i → Keeps P (insert_items i items)
  unfolding insert_items
  insert_items-Keeps i [] new = pure-Keeps []
  insert_items-Keeps i (item ∷ rest) new = bind-Keeps _ _ (rules.item i item new) (λ inserted.
      bind-Keeps _ _ (or_database_error-Keeps inserted)
        (λ row. bind-Keeps _ _ (insert_items-Keeps i rest new) (λ rows. pure-Keeps (row ∷ rows))))

  create_in_tx-Keeps : (b : Uuid) (req : CreateInvoiceRequest) → Keeps P (create_in_tx b req)
  unfolding create_in_tx
  create_in_tx-Keeps b req =
      bind-Keeps _ _ (query-Keeps (customer_exists req.customer_id b)) (λ exists.
        bind-Keeps _ _ (raise_if-Keeps (not exists) _) (λ _.
          use-Gives (Done NewInvoice) _ _ (rules.invoice b req (total req.line_items))
            (λ inserted given.
              use-Gives NewInvoice _ _ (or_database_error-Gives inserted given) (λ i new.
                bind-Keeps _ _ (insert_items-Keeps i req.line_items new) (λ items.
                  bind-Keeps _ _
                    (rules.event b "invoice.created"
                      (created_payload i req.customer_id (total req.line_items)))
                    (λ _.
                      bind-Keeps _ _ (fetch_one-Keeps (invoice_by_id i))
                        (λ row. pure-Keeps (from_row row items))))))))

  pub create_invoice-Keeps :
      (b : Uuid) (req : CreateInvoiceRequest) → Keeps P (create_invoice b req)
  unfolding create_invoice
  create_invoice-Keeps b req = bind-Keeps _ _ (raise_if-Keeps (is_empty req.line_items) _) (λ _.
      bind-Keeps _ _ (check_items-Keeps req.line_items) (λ _.
        bind-Keeps _ _ (transaction-Keeps (create_in_tx b req) (create_in_tx-Keeps b req))
          (λ created. pure-Keeps (201, created))))

  transition_in_tx-Keeps :
      (b i : Uuid) (action : String) (allowed : InvoiceState → Bool) (target : InvoiceState)
      → Keeps P (transition_in_tx b i action allowed target)
  unfolding transition_in_tx
  transition_in_tx-Keeps b i action allowed target =
      bind-Keeps _ _ (query-Keeps (invoice_of i b)) (λ found.
        bind-Keeps _ _ (ok_or-Keeps found _) (λ row.
          bind-Keeps _ _ (ok_or-Keeps (parse row.state) _) (λ current.
            bind-Keeps _ _ (raise_if-Keeps (not (allowed current)) _) (λ _.
              bind-Keeps _ _ (rules.move i (as_str target)) (λ _.
                bind-Keeps _ _ (fetch_one-Keeps (invoice_by_id i)) (λ invoice_row.
                  bind-Keeps _ _ (query-Keeps (line_items_of i))
                    (λ items. pure-Keeps (from_row invoice_row items))))))))

  transition-Keeps :
      (b i : Uuid) (action : String) (allowed : InvoiceState → Bool) (target : InvoiceState)
      → Keeps P (transition b i action allowed target)
  unfolding transition
  transition-Keeps b i action allowed target =
      transaction-Keeps (transition_in_tx b i action allowed target)
        (transition_in_tx-Keeps b i action allowed target)

  pub finalize_invoice-Keeps : (b i : Uuid) → Keeps P (finalize_invoice b i)
  unfolding finalize_invoice
  finalize_invoice-Keeps b i = transition-Keeps b i "finalize" can_finalize open_state

  pub void_invoice-Keeps : (b i : Uuid) → Keeps P (void_invoice b i)
  unfolding void_invoice
  void_invoice-Keeps b i = transition-Keeps b i "void" can_void void

  pub mark_uncollectible-Keeps : (b i : Uuid) → Keeps P (mark_uncollectible b i)
  unfolding mark_uncollectible
  mark_uncollectible-Keeps b i =
      transition-Keeps b i "mark-uncollectible" can_mark_uncollectible uncollectible

  update_invoice-Keeps : (i : Uuid) (target : Option String) → Keeps P (update_invoice i target)
  update_invoice-Keeps i none = pure-Keeps tt
  update_invoice-Keeps i (some target) = rules.close i target

  settle_in_tx-Keeps : (i a : Uuid) (v : Verdict) → NewAttempt a → Keeps P (settle_in_tx i a v)
  unfolding settle_in_tx
  settle_in_tx-Keeps i a v new = bind-Keeps _ _ (rules.settle a v new) (λ updated.
      bind-Keeps _ _ (raise_if-Keeps (updated == 0) _) (λ _.
        bind-Keeps _ _ (update_invoice-Keeps i v.invoice_target_state) (λ _.
          bind-Keeps _ _ (fetch_one-Keeps (invoice_by_id i)) (λ row.
            bind-Keeps _ _ (rules.event row.business_id v.event_type (event_payload i a v))
              (λ _. pure-Keeps (settled_body i a v))))))

  pub run_task-Keeps :
      (psp : Psp) (task : Task) → NewAttempt task.attempt_id → Keeps P (run_task psp task)
  unfolding run_task finalize_payment_attempt
  run_task-Keeps psp task new =
      let v = verdict (charge psp task.total_cents task.card_token) in
      transaction-Keeps (settle_in_tx task.invoice_id task.attempt_id v)
        (settle_in_tx-Keeps task.invoice_id task.attempt_id v new)

  refused :
      (pending : Bool)
      → Gives P NewAttempt (if pending then raise attempt_in_progress else raise database_error)
  refused true = raise-Gives NewAttempt attempt_in_progress
  refused false = raise-Gives NewAttempt database_error

  claimed_id-Gives : (o : Outcome Uuid) → Done NewAttempt o → Gives P NewAttempt (claimed_id o)
  claimed_id-Gives (done id) new = pure-Gives NewAttempt id new
  claimed_id-Gives (violates c) new = refused (str_eq c "uniq_payment_attempts_pending_per_invoice")

  claim_in_tx-Gives :
      (b i : Uuid) (card_token : String) → Gives P NewAttempt (claim_in_tx b i card_token)
  unfolding claim_in_tx
  claim_in_tx-Gives b i card_token =
      after-Gives NewAttempt _ _ (query-Keeps (invoice_of i b)) (λ found.
        after-Gives NewAttempt _ _ (ok_or-Keeps found _) (λ row.
          after-Gives NewAttempt _ _ (ok_or-Keeps (parse row.state) _) (λ state.
            after-Gives NewAttempt _ _ (raise_if-Keeps (not (can_accept_payment state)) _) (λ _.
              bind-Gives (Done NewAttempt) NewAttempt _ _ (rules.claim i card_token)
                (λ inserted given. claimed_id-Gives inserted given)))))

  pub claim_payment_attempt-Gives :
      (b i : Uuid) (card_token : String) → Gives P NewAttempt (claim_payment_attempt b i card_token)
  unfolding claim_payment_attempt
  claim_payment_attempt-Gives b i card_token =
      transaction-Gives NewAttempt (claim_in_tx b i card_token) (claim_in_tx-Gives b i card_token)
