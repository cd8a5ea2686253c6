-- ===== src/Router/Polls.antt =====
-- The poll of a payment attempt over the runs of the service.
use dodo_invoice_service.Payments.Claim.{insert_attempt}
use dodo_invoice_service.Payments.{has_status}
use dodo_invoice_service.Router.Unseen.{
  event-unseen, item-unseen, reserve-unseen, answer-unseen, tick-unseen,
}
use dodo_invoice_service.Invoices.Create.{insert_invoice}
use dodo_invoice_service.Router.Rules.{Done, Rules}
use dodo_invoice_service.Db.Keeps.{statement-Keeps, execute-Keeps, Keeps, Gives}
use dodo_invoice_service.Models.{CreateInvoiceRequest, InvoiceRow, PaymentAttemptRow, Uuid}
use dodo_invoice_service.Payments.Settle.{
  update_attempts, settle_row, settle_attempts, close_open, Verdict,
}
use dodo_invoice_service.Base.{
  ℤ, ◌∙◌, sym, none, refl, inr, inl, arith, Bool-cases, ◌∷◌, ◌&&◌, true, false, some, ◌==◌, ℕ, any,
  ◌≡◌, Option, Bool, find, String, List,
}
use dodo_invoice_service.Invoices.Transition.{set_state}
use mathlib.Core.List.{[]}
use dodo_invoice_service.Db.{Task, Db, statement}

-- The invoice of `i` that belongs to business `b`.
abbrev pub is_owned : Uuid → Uuid → InvoiceRow → Bool
is_owned i b r = r.id == i && r.business_id == b

abbrev pub is_attempt : Uuid → Uuid → PaymentAttemptRow → Bool
is_attempt a i r = r.id == a && r.invoice_id == i

owned-set_state :
    (i b k : Uuid) (target : String) (now : ℕ) (rs : List InvoiceRow)
    → any (is_owned i b) (set_state k target now rs) ≡ any (is_owned i b) rs
owned-set_state i b k target now [] = refl
owned-set_state i b k target now (r ∷ rs) = ground (arith, owned-set_state i b k target now rs)

pub owned-close_open :
    (i b k : Uuid) (target : String) (now : ℕ) (rs : List InvoiceRow)
    → any (is_owned i b) (close_open k target now rs) ≡ any (is_owned i b) rs
owned-close_open i b k target now [] = refl
owned-close_open i b k target now (r ∷ rs) = ground (arith, owned-close_open i b k target now rs)

-- A row of the table with the test of the JOIN.
abbrev pub joined :
    Uuid → Uuid → Uuid → List InvoiceRow → List PaymentAttemptRow → Option PaymentAttemptRow
joined a i b rs rows =
    find
      (λ pa.
        pa.id == a
        && pa.invoice_id == i
        && any (λ r. r.id == pa.invoice_id && r.business_id == b) rs)
      rows

-- The JOIN looks at the invoice of the path only.
pub owned-joined :
    (a i b : Uuid) (rs : List InvoiceRow) (rows : List PaymentAttemptRow)
    → any (is_owned i b) rs ≡ true
    → joined a i b rs rows ≡ find (is_attempt a i) rows
owned-joined a i b rs [] h = refl
owned-joined a i b rs (pa ∷ rows) h = ground (arith, h, owned-joined a i b rs rows)

pub unowned-joined :
    (a i b : Uuid) (rs : List InvoiceRow) (rows : List PaymentAttemptRow)
    → any (is_owned i b) rs ≡ false
    → joined a i b rs rows ≡ none
unowned-joined a i b rs [] h = refl
unowned-joined a i b rs (pa ∷ rows) h = ground (arith, h, unowned-joined a i b rs rows)

pub joined-owned :
    (a i b : Uuid) (rs : List InvoiceRow) (rows : List PaymentAttemptRow) (row : PaymentAttemptRow)
    → joined a i b rs rows ≡ some row
    → (any (is_owned i b) rs ≡ true) × (find (is_attempt a i) rows ≡ some row)
joined-owned a i b rs rows row h = elim (Bool-cases (any (is_owned i b) rs)) [
  | inl owned ↦ (owned, sym (owned-joined a i b rs rows owned) ∙ h)
  | inr not_owned ↦ cc (unowned-joined a i b rs rows not_owned, h)
]

any-of_attempt :
    (a i : Uuid) (rows : List PaymentAttemptRow) (row : PaymentAttemptRow)
    → find (is_attempt a i) rows ≡ some row
    → any (λ r. r.id == a) rows ≡ true
any-of_attempt a i [] row h = cc
any-of_attempt a i (r ∷ rows) row h = ground (arith, any-of_attempt a i rows row)

-- An UPDATE of pending attempts leaves a row that is not pending.
find-settle :
    (a i k : Uuid) (v : Verdict) (now : ℕ) (rows : List PaymentAttemptRow) (row : PaymentAttemptRow)
    → has_status "pending" row ≡ false
    → find (is_attempt a i) rows ≡ some row
    → find (is_attempt a i) (settle_attempts k v now rows) ≡ some row
find-settle a i k v now [] row over h = h
find-settle a i k v now (r ∷ rows) row over h =
    ground (arith, over, h, find-settle a i k v now rows row over)

-- The UPDATE of the attempt itself.
pub find-settled :
    (a i : Uuid) (v : Verdict) (now : ℕ) (rows : List PaymentAttemptRow) (row : PaymentAttemptRow)
    → has_status "pending" row ≡ true
    → find (is_attempt a i) rows ≡ some row
    → find (is_attempt a i) (settle_attempts a v now rows) ≡ some (settle_row v now row)
find-settled a i v now [] row due h = cc
find-settled a i v now (r ∷ rows) row due h =
    ground (arith, due, h, find-settled a i v now rows row due)

module _ (a i b : Uuid) (row : PaymentAttemptRow) where
  -- The invoice belongs to the business, and the row is the attempt's.
  pub record IsPolled (db : Db) (tasks : List Task) : Type 0 where
    pub owned : any (is_owned i b) db.invoices ≡ true
    pub found : find (is_attempt a i) db.attempts ≡ some row

  claim-IsPolled :
      (k : Uuid) (card_token : String)
      → Gives IsPolled (Done (λ _. Unit)) (statement (insert_attempt k card_token))
  unfolding insert_attempt statement
  claim-IsPolled k card_token = record {
    keeps = λ w h. record {
      owned = ground (arith, h.owned);
      found = ground (arith, h.found, any-of_attempt a i w.db.attempts row h.found);
    };
    gives = λ w h. ground arith;
  }

  settle-IsPolled :
      (k : Uuid) (v : Verdict)
      → has_status "pending" row ≡ false
      → Keeps IsPolled (statement (update_attempts k v))
  unfolding update_attempts
  settle-IsPolled k v over = statement-Keeps (update_attempts k v) (λ w h. record {
    owned = h.owned;
    found = find-settle a i k v w.now w.db.attempts row over h.found;
  })

  invoice-IsPolled :
      (k : Uuid) (req : CreateInvoiceRequest) (total_cents : ℤ)
      → Gives IsPolled (Done (λ _. Unit)) (statement (insert_invoice k req total_cents))
  unfolding insert_invoice statement
  invoice-IsPolled k req total_cents = record {
    keeps = λ w h. record { owned = ground (arith, h.owned); found = ground (arith, h.found) };
    gives = λ w h. ground arith;
  }

  pub IsPolled-rules :
      has_status "pending" row ≡ false → Rules IsPolled (λ _. Unit) (λ _. Unit) (λ _ _. Unit)
  IsPolled-rules over = record {
    blind = record {
      blind = λ db db' tasks e at d l k h. record { owned = rw e h.owned; found = rw at h.found };
    };
    event = event-unseen (λ db d tasks h. record { owned = h.owned; found = h.found });
    invoice = invoice-IsPolled;
    item = λ k item _.
        item-unseen (λ db d tasks h. record { owned = h.owned; found = h.found }) k item;
    move = λ k target.
        execute-Keeps (λ w. record w.db { invoices = set_state k target w.now w.db.invoices })
          (λ w h. record {
            owned = owned-set_state i b k target w.now w.db.invoices ∙ h.owned;
            found = h.found;
          });
    close = λ k target.
        execute-Keeps (λ w. record w.db { invoices = close_open k target w.now w.db.invoices })
          (λ w h. record {
            owned = owned-close_open i b k target w.now w.db.invoices ∙ h.owned;
            found = h.found;
          });
    claim = claim-IsPolled;
    spawn = λ task _. record { keeps = λ w h. record { owned = h.owned; found = h.found } };
    settle = λ k v _. settle-IsPolled k v over;
    known = λ w task h k. tt;
    reserve = reserve-unseen (λ db d tasks h. record { owned = h.owned; found = h.found });
    answer = λ k j key status body _.
        answer-unseen (λ db d tasks h. record { owned = h.owned; found = h.found }) k j key status
          body;
    tick = tick-unseen (λ db d tasks h. record { owned = h.owned; found = h.found });
  }
