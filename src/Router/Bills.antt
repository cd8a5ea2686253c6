-- ===== src/Router/Bills.antt =====
-- The line items of an invoice over the runs of the service.
use dodo_invoice_service.Base.{refl, ◌∙◌, arith, ◌∷◌, ℤ, true, false, some, ◌≡◌, ◌==◌, any, List}
use dodo_invoice_service.Db.{Task, Db, statement, World}
use dodo_invoice_service.Models.{CreateInvoiceRequest, LineItemInput, InvoiceRow, LineItemRow, Uuid}
use dodo_invoice_service.Router.Terms.{terms_never_change, terms_of, Terms}
use dodo_invoice_service.Invoices.Create.{insert_invoice, insert_item}
use dodo_invoice_service.Router.Rules.{Done, Rules}
use dodo_invoice_service.Lifecycle.Tables.{any-id-close_open, any-id-set_state, invoice_has_id}
use dodo_invoice_service.Router.Unseen.{
  tick-unseen, answer-unseen, reserve-unseen, settle-unseen, claim-unseen, event-unseen,
}
use dodo_invoice_service.Router.Runs.{Run-Keeps, Run}
use dodo_invoice_service.Db.Keeps.{Gives, statement-Keeps, execute-Keeps, Keeps}
use dodo_invoice_service.Invoices.{line_items_of}
use dodo_invoice_service.Invoices.Transition.{set_state}
use mathlib.Core.List.{[]}
use dodo_invoice_service.Payments.Settle.{close_open}

other_id :
    (i k : Uuid) (rows : List InvoiceRow)
    → any (invoice_has_id i) rows ≡ true
    → any (invoice_has_id k) rows ≡ false
    → (k == i) ≡ false
other_id i k [] h fresh = cc
other_id i k (r ∷ rows) h fresh = ground (arith, other_id i k rows)

module _ (i : Uuid) (rows : List LineItemRow) where
  -- The invoice is there, with these line items.
  pub record Bill (db : Db) (tasks : List Task) : Type 0 where
    pub there : any (invoice_has_id i) db.invoices ≡ true
    pub items : line_items_of i db ≡ rows

  invoice-Bill :
      (b : Uuid) (req : CreateInvoiceRequest) (total_cents : ℤ)
      → Gives Bill (Done (λ k. (k == i) ≡ false)) (statement (insert_invoice b req total_cents))
  unfolding insert_invoice statement
  invoice-Bill b req total_cents = record {
    keeps = λ w h. ground (arith, h);
    gives = λ w h. ground (arith, h, other_id i (w.uuid_at w.drawn) w.db.invoices);
  }

  item-Bill :
      (k : Uuid) (item : LineItemInput)
      → (k == i) ≡ false
      → Keeps Bill (statement (insert_item k item))
  unfolding insert_item
  item-Bill k item other = statement-Keeps (insert_item k item) (λ w h. ground (arith, h))

  Bill-rules : Rules Bill (λ k. (k == i) ≡ false) (λ _. Unit) (λ _ _. Unit)
  Bill-rules = record {
    blind = record {
      blind = λ db db' tasks e a d l k h. record { there = rw e h.there; items = rw l h.items };
    };
    event = event-unseen (λ db d tasks h. record { there = h.there; items = h.items });
    invoice = invoice-Bill;
    item = item-Bill;
    move = λ k target.
        execute-Keeps (λ w. record w.db { invoices = set_state k target w.now w.db.invoices })
          (λ w h. record {
            there = any-id-set_state i k target w.now w.db.invoices ∙ h.there;
            items = h.items;
          });
    close = λ k target.
        execute-Keeps (λ w. record w.db { invoices = close_open k target w.now w.db.invoices })
          (λ w h. record {
            there = any-id-close_open i k target w.now w.db.invoices ∙ h.there;
            items = h.items;
          });
    claim = claim-unseen (λ db d tasks h. record { there = h.there; items = h.items });
    spawn = λ task _. record { keeps = λ w h. record { there = h.there; items = h.items } };
    settle =
        λ a v _. settle-unseen (λ db d tasks h. record { there = h.there; items = h.items }) a v;
    known = λ w task h k. tt;
    reserve = reserve-unseen (λ db d tasks h. record { there = h.there; items = h.items });
    answer = λ b k key status body _.
        answer-unseen (λ db d tasks h. record { there = h.there; items = h.items }) b k key status
          body;
    tick = tick-unseen (λ db d tasks h. record { there = h.there; items = h.items });
  }

there-of_terms :
    (i : Uuid) (t : Terms) (rows : List InvoiceRow)
    → terms_of i rows ≡ some t
    → any (invoice_has_id i) rows ≡ true
there-of_terms i t [] h = cc
there-of_terms i t (r ∷ rows) h = ground (arith, there-of_terms i t rows)

-- However requests of the API, payment tasks and ticks of the dispatcher interleave, an invoice that is there
-- stays there, with the business, the customer, the currency, the total, the due date, the time of creation and
-- the line items that it has.
pub bill_never_changes :
    {w v : World} (i : Uuid) (t : Terms)
    → terms_of i w.db.invoices ≡ some t
    → Run w v
    → (terms_of i v.db.invoices ≡ some t) × (line_items_of i v.db ≡ line_items_of i w.db)
bill_never_changes {w} i t h run =
    let bill =
      Run-Keeps (Bill-rules i (line_items_of i w.db)) run
        (record { there = there-of_terms i t w.db.invoices h; items = refl }) in
    (terms_never_change i t h run, bill.items)
