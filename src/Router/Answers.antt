-- ===== src/Router/Answers.antt =====
-- What a payment answered, and what the polls of its attempt get over the runs of the service.
use dodo_invoice_service.Router.Polls.{
  IsPolled, IsPolled-rules, find-settled, owned-close_open, joined-owned, owned-joined, is_owned,
  is_attempt,
}
use dodo_invoice_service.Payments.Settle.{
  PayResultBody, Verdict, verdict, settle_row, settled_body, settle_in_tx, finalize_payment_attempt,
}
use dodo_invoice_service.PspClient.{succeeded, declined, unavailable, PspOutcome}
use dodo_invoice_service.Db.Ends.{Ends, Ends-ok, transaction_result-Ends}
use dodo_invoice_service.Lifecycle.Refines.Transactions.{Ends-map}
use dodo_invoice_service.Payments.{has_status}
use dodo_invoice_service.Payments.Attempts.{attempt_of, get_payment_attempt}
use dodo_invoice_service.Lifecycle.Refines.Settling.{Settled, settle_in_tx-Settled}
use dodo_invoice_service.Lifecycle.{settle_invoices}
use dodo_invoice_service.Models.{InvoiceRow, Uuid, PaymentAttemptRow}
use dodo_invoice_service.Db.{ok, Task, World, Db}
use dodo_invoice_service.Base.{
  inr, arith, inl, sym, ◌∙◌, Bool-cases, ap, ◌∷◌, any, some, false, true, refl, String, ◌≡◌, find,
  Option, ℕ, List,
}
use mathlib.Core.Option.{none}
use mathlib.Core.List.{[]}
use dodo_invoice_service.Router.Runs.{Run-Keeps, Run}

-- The fields of a row that the answer to a payment shows.
abbrev pub shown : PaymentAttemptRow → PayResultBody
shown r = record {
  attempt_id = r.id;
  invoice_id = r.invoice_id;
  status = r.status;
  failure_code = r.failure_code;
  psp_ref = r.psp_ref;
}

find-is_attempt :
    (a i : Uuid) (rows : List PaymentAttemptRow) (row : PaymentAttemptRow)
    → find (is_attempt a i) rows ≡ some row
    → (row.id ≡ a) × (row.invoice_id ≡ i)
find-is_attempt a i [] row h = cc
find-is_attempt a i (r ∷ rows) row h = elim (Bool-cases (is_attempt a i r)) [
  | inl hit ↦ let same : r ≡ row = ground (arith, h, hit) in rw⁻¹ same (ground (arith, hit))
  | inr miss ↦ find-is_attempt a i rows row (ground (arith, h, miss))
]

shown-settle_row :
    (a i : Uuid) (v : Verdict) (now : ℕ) (row : PaymentAttemptRow)
    → (row.id ≡ a) × (row.invoice_id ≡ i)
    → shown (settle_row v now row) ≡ settled_body i a v
shown-settle_row a i v now row (e, f) = rw (e, f) refl

is_over :
    (outcome : PspOutcome) (now : ℕ) (row : PaymentAttemptRow)
    → has_status "pending" (settle_row (verdict outcome) now row) ≡ false
unfolding verdict
is_over (succeeded psp_ref) now row = refl
is_over (declined code) now row = refl
is_over (unavailable detail) now row = refl

owned-settle :
    (i b k : Uuid) (target : Option String) (now : ℕ) (rs : List InvoiceRow)
    → any (is_owned i b) (settle_invoices k target now rs) ≡ any (is_owned i b) rs
owned-settle i b k none now rs = refl
owned-settle i b k (some target) now rs = owned-close_open i b k target now rs

module _ (a i b : Uuid) where
  -- The attempt has its outcome, and `body` shows it.
  record IsAnswered (body : PayResultBody) (db : Db) (tasks : List Task) : Type 0 where
    pub row : PaymentAttemptRow
    pub polled : IsPolled a i b row db tasks
    pub over : has_status "pending" row ≡ false
    pub body_is : shown row ≡ body

  Settled-IsAnswered :
      (outcome : PspOutcome) (row : PaymentAttemptRow) (w u : World) (body : PayResultBody)
      → IsPolled a i b row w.db w.tasks
      → has_status "pending" row ≡ true
      → Settled i a (verdict outcome) w u body
      → IsAnswered body u.db u.tasks
  Settled-IsAnswered outcome row w u body h due s =
      let v = verdict outcome in
      record {
        row = settle_row v w.now row;
        polled = record {
          owned =
              ap (any (is_owned i b)) s.invoices
              ∙ owned-settle i b i v.invoice_target_state w.now w.db.invoices
              ∙ h.owned;
          found =
              ap (find (is_attempt a i)) s.attempts
              ∙ find-settled a i v w.now w.db.attempts row due h.found;
        };
        over = is_over outcome w.now row;
        body_is =
            shown-settle_row a i v w.now row (find-is_attempt a i w.db.attempts row h.found)
            ∙ sym s.body_is;
      }

  finalize-IsAnswered :
      (outcome : PspOutcome) (row : PaymentAttemptRow) (w : World)
      → IsPolled a i b row w.db w.tasks
      → has_status "pending" row ≡ true
      → Ends (finalize_payment_attempt i a outcome w) (λ body u. IsAnswered body u.db u.tasks)
  unfolding finalize_payment_attempt
  finalize-IsAnswered outcome row w h due =
      transaction_result-Ends IsAnswered (settle_in_tx i a (verdict outcome)) w (λ v db tasks.
        Ends-map (settle_in_tx i a (verdict outcome) v)
          (λ body u. Settled i a (verdict outcome) v u body)
          (λ body u. IsAnswered body u.db u.tasks)
          (λ body u.
            Settled-IsAnswered outcome row v u body
              (record { owned = rw db h.owned; found = rw db h.found }) due)
          (settle_in_tx-Settled i a (verdict outcome) v))

  Run-IsAnswered :
      {u v : World} (body : PayResultBody)
      → IsAnswered body u.db u.tasks
      → Run u v
      → IsAnswered body v.db v.tasks
  Run-IsAnswered body h run = record {
    row = h.row;
    polled = Run-Keeps (IsPolled-rules a i b h.row h.over) run h.polled;
    over = h.over;
    body_is = h.body_is;
  }

  poll-of_found :
      (row : PaymentAttemptRow) (v : World)
      → v.faults ≡ []
      → attempt_of a i b v.db ≡ some row
      → (get_payment_attempt b i a v).0 ≡ ok row
  unfolding get_payment_attempt
  poll-of_found row v f h = ground (arith, f, h)

  -- If an attempt is there and pending, and the outcome of its charge is recorded, then, however requests of the
  -- API, payment tasks and ticks of the dispatcher interleave from then on, a poll of the attempt by the business
  -- of its invoice, where the database does not fail it, gets a row that shows what the payment answered: the
  -- same ids, status, failure code and reference of the provider.
  pub polls_agree :
      {u v : World} {body : PayResultBody} (outcome : PspOutcome) (row : PaymentAttemptRow)
      (w : World)
      → attempt_of a i b w.db ≡ some row
      → has_status "pending" row ≡ true
      → finalize_payment_attempt i a outcome w ≡ (ok body, u)
      → Run u v
      → v.faults ≡ []
      → (r : PaymentAttemptRow) × ((get_payment_attempt b i a v).0 ≡ ok r) × (shown r ≡ body)
  polls_agree {v} {body} outcome row w there due e run f =
      let (owned, found) = joined-owned a i b w.db.invoices w.db.attempts row there in
      let now =
        Ends-ok _ _
          (finalize-IsAnswered outcome row w (record { owned = owned; found = found }) due) e in
      let after = Run-IsAnswered body now run in
      let found_after =
        owned-joined a i b v.db.invoices v.db.attempts after.polled.owned ∙ after.polled.found in
      (after.row, poll-of_found after.row v f found_after, after.body_is)
