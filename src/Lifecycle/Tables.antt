-- ===== src/Lifecycle/Tables.antt =====
-- Questions about the tables, and what the UPDATE statements do to their answers.
use dodo_invoice_service.Base.{
  str_other, count-of_none, str_ne, ℕ, ◌+◌, ◌≤◌, String, ◌≡◌, refl, Bool, true, false, ◌&&◌, ◌||◌,
  List, [], ◌∷◌, str_eq, inl, inr, Bool-cases, arith, ◌==◌, any, count, if◌then◌else◌,
}
use dodo_invoice_service.Models.{Uuid, InvoiceRow, PaymentAttemptRow}
use dodo_invoice_service.Db.{Task}
use dodo_invoice_service.Invoices.Transition.{set_state}
use dodo_invoice_service.Payments.{has_status, is_pending_for}
use dodo_invoice_service.Payments.Settle.{Verdict, is_due, settle_attempts, close_open}

abbrev pub invoice_has_id : Uuid → InvoiceRow → Bool
invoice_has_id i r = r.id == i

abbrev pub is_in_state : Uuid → String → InvoiceRow → Bool
is_in_state i s r = r.id == i && str_eq r.state s

abbrev pub attempt_has_id : Uuid → PaymentAttemptRow → Bool
attempt_has_id a r = r.id == a

abbrev pub is_attempt_of : Uuid → Uuid → PaymentAttemptRow → Bool
is_attempt_of a i r = r.id == a && r.invoice_id == i

abbrev pub is_success_for : Uuid → PaymentAttemptRow → Bool
is_success_for i r = r.invoice_id == i && has_status "succeeded" r

abbrev pub is_due_for : Uuid → Uuid → PaymentAttemptRow → Bool
is_due_for a i r = is_due a r && r.invoice_id == i

abbrev pub is_task_of : Uuid → Uuid → Task → Bool
is_task_of a i t = t.attempt_id == a && t.invoice_id == i

-- After `set_state` the rows of the invoice are in the new state, and the others as they were.
pub in_state-set_state :
    (k i : Uuid) (s target : String) (now : ℕ) (rs : List InvoiceRow)
    → any (is_in_state k s) (set_state i target now rs)
      ≡ (if k == i then any (invoice_has_id i) rs && str_eq target s else any (is_in_state k s) rs)
in_state-set_state k i s target now [] = ground arith
in_state-set_state k i s target now (r ∷ rs) =
    ground (arith, in_state-set_state k i s target now rs)

pub count-id-set_state :
    (k i : Uuid) (target : String) (now : ℕ) (rs : List InvoiceRow)
    → count (invoice_has_id k) (set_state i target now rs) ≡ count (invoice_has_id k) rs
count-id-set_state k i target now [] = refl
count-id-set_state k i target now (r ∷ rs) = ground (arith, count-id-set_state k i target now rs)

pub any-id-set_state :
    (k i : Uuid) (target : String) (now : ℕ) (rs : List InvoiceRow)
    → any (invoice_has_id k) (set_state i target now rs) ≡ any (invoice_has_id k) rs
any-id-set_state k i target now [] = refl
any-id-set_state k i target now (r ∷ rs) = ground (arith, any-id-set_state k i target now rs)

pub any-id-close_open :
    (k i : Uuid) (target : String) (now : ℕ) (rs : List InvoiceRow)
    → any (invoice_has_id k) (close_open i target now rs) ≡ any (invoice_has_id k) rs
any-id-close_open k i target now [] = refl
any-id-close_open k i target now (r ∷ rs) = ground (arith, any-id-close_open k i target now rs)

-- After `close_open` no row of the invoice is open, and those that were are paid.
pub open-close_open :
    (k i : Uuid) (now : ℕ) (rs : List InvoiceRow)
    → any (is_in_state k "open") (close_open i "paid" now rs)
      ≡ (if k == i then false else any (is_in_state k "open") rs)
open-close_open k i now [] = ground arith
open-close_open k i now (r ∷ rs) = elim (Bool-cases (r.id == i && str_eq r.state "open")) [
  | inl e ↦ rw e (ground (arith, open-close_open k i now rs))
  | inr e ↦ rw e (ground (arith, open-close_open k i now rs))
]

pub paid-close_open :
    (k i : Uuid) (now : ℕ) (rs : List InvoiceRow)
    → any (is_in_state k "paid") (close_open i "paid" now rs) ≡ (
        if k == i
        then any (is_in_state i "open") rs || any (is_in_state i "paid") rs
        else any (is_in_state k "paid") rs)
paid-close_open k i now [] = ground arith
paid-close_open k i now (r ∷ rs) = elim (Bool-cases (r.id == i && str_eq r.state "open")) [
  | inl e ↦ rw e (ground (arith, paid-close_open k i now rs))
  | inr e ↦ rw e (ground (arith, paid-close_open k i now rs))
]

pub draft-close_open :
    (k i : Uuid) (now : ℕ) (rs : List InvoiceRow)
    → any (is_in_state k "draft") (close_open i "paid" now rs) ≡ any (is_in_state k "draft") rs
draft-close_open k i now [] = refl
draft-close_open k i now (r ∷ rs) = elim (Bool-cases (r.id == i && str_eq r.state "open")) [
  | inl e ↦ rw e (ground (arith, draft-close_open k i now rs, str_ne r.state "open" "draft" refl))
  | inr e ↦ rw e (ground (arith, draft-close_open k i now rs))
]

pub count-id-close_open :
    (k i : Uuid) (target : String) (now : ℕ) (rs : List InvoiceRow)
    → count (invoice_has_id k) (close_open i target now rs) ≡ count (invoice_has_id k) rs
count-id-close_open k i target now [] = refl
count-id-close_open k i target now (r ∷ rs) = ground (arith, count-id-close_open k i target now rs)

module _ (a : Uuid) (v : Verdict) (now : ℕ) where
  pub count-id-settle :
      (k : Uuid) (rs : List PaymentAttemptRow)
      → count (attempt_has_id k) (settle_attempts a v now rs) ≡ count (attempt_has_id k) rs
  count-id-settle k [] = refl
  count-id-settle k (r ∷ rs) = ground (arith, count-id-settle k rs)

  pub attempt_of-settle :
      (k i : Uuid) (rs : List PaymentAttemptRow)
      → any (is_attempt_of k i) (settle_attempts a v now rs) ≡ any (is_attempt_of k i) rs
  attempt_of-settle k i [] = refl
  attempt_of-settle k i (r ∷ rs) = ground (arith, attempt_of-settle k i rs)

  -- Settling takes the due attempts out of the pending ones,
  pub pending-settle :
      (i : Uuid) (rs : List PaymentAttemptRow)
      → str_eq v.status "pending" ≡ false
      → count (is_pending_for i) (settle_attempts a v now rs) + count (is_due_for a i) rs
        ≡ count (is_pending_for i) rs
  pending-settle i [] h = refl
  pending-settle i (r ∷ rs) h = ground (arith, pending-settle i rs h)

  -- and makes successes of them if the verdict is one.
  pub success-settle :
      (i : Uuid) (rs : List PaymentAttemptRow)
      → count (is_success_for i) (settle_attempts a v now rs)
        ≡ count (is_success_for i) rs
          + (if str_eq v.status "succeeded" then count (is_due_for a i) rs else 0)
  success-settle i [] = ground arith
  success-settle i (r ∷ rs) = elim (Bool-cases (is_due a r)) [
    | inl e ↦ rw e (ground (arith, success-settle i rs, str_ne r.status "pending" "succeeded" refl))
    | inr e ↦ rw e (ground (arith, success-settle i rs))
  ]

no-due :
    (a i : Uuid) (rs : List PaymentAttemptRow)
    → count (attempt_has_id a) rs ≡ 0
    → (count (is_due_for a i) rs ≡ 0)
      × (count (is_due a) rs ≡ 0)
      × (any (is_attempt_of a i) rs ≡ false)
no-due a i [] h = (refl, refl, refl)
no-due a i (r ∷ rs) h = ground (arith, no-due a i rs)

-- Where the id of an attempt is in the table once, for an invoice, what is due is of that invoice.
pub due-of_attempt :
    (a i k : Uuid) (rs : List PaymentAttemptRow)
    → count (attempt_has_id a) rs ≤ 1
    → any (is_attempt_of a i) rs ≡ true
    → count (is_due_for a k) rs ≡ (if k == i then count (is_due a) rs else 0)
due-of_attempt a i k [] h e = ground arith
due-of_attempt a i k (r ∷ rs) h e =
    ground (arith, due-of_attempt a i k rs, no-due a k rs, no-due a i rs)

pub due-le_id :
    (a : Uuid) (rs : List PaymentAttemptRow) → count (is_due a) rs ≤ count (attempt_has_id a) rs
due-le_id a [] = omega arith
due-le_id a (r ∷ rs) = ground (arith, due-le_id a rs)

-- An invoice that is not in the table is in no state.
pub no-state :
    (i : Uuid) (s : String) (rs : List InvoiceRow)
    → any (invoice_has_id i) rs ≡ false
    → any (is_in_state i s) rs ≡ false
no-state i s [] h = refl
no-state i s (r ∷ rs) h = ground (arith, no-state i s rs)

-- An attempt of an invoice that is in the table has its id in the table.
pub attempt_id-of_attempt :
    (a i : Uuid) (rs : List PaymentAttemptRow)
    → any (is_attempt_of a i) rs ≡ true
    → any (attempt_has_id a) rs ≡ true
attempt_id-of_attempt a i [] h = cc
attempt_id-of_attempt a i (r ∷ rs) h = ground (arith, attempt_id-of_attempt a i rs)

no-state_of_count :
    (i : Uuid) (s : String) (rs : List InvoiceRow)
    → count (invoice_has_id i) rs ≡ 0
    → any (is_in_state i s) rs ≡ false
no-state_of_count i s [] h = refl
no-state_of_count i s (r ∷ rs) h = ground (arith, no-state_of_count i s rs)

-- An invoice that is in the table once is in one state.
pub one_state :
    (i : Uuid) (s t : String) (rs : List InvoiceRow)
    → str_eq s t ≡ false
    → count (invoice_has_id i) rs ≤ 1
    → any (is_in_state i s) rs ≡ true
    → any (is_in_state i t) rs ≡ false
one_state i s t [] d h e = refl
one_state i s t (r ∷ rs) d h e = ground (
  arith,
  one_state i s t rs d,
  no-state_of_count i s rs,
  no-state_of_count i t rs,
  str_ne r.state s t d,
)

-- An attempt that is new to the table joins it with an id of its own.
pub count-id-cons :
    (a : PaymentAttemptRow) (k : Uuid) (rs : List PaymentAttemptRow)
    → any (attempt_has_id a.id) rs ≡ false
    → count (attempt_has_id k) rs ≤ 1
    → count (attempt_has_id k) (a ∷ rs) ≤ 1
count-id-cons a k rs fresh h = ground (arith, count-of_none (attempt_has_id a.id) rs)

-- Closing open invoices leaves a row that is not open in its state.
pub in_state-close_open :
    (k i : Uuid) (s target : String) (now : ℕ) (rs : List InvoiceRow)
    → str_eq s "open" ≡ false
    → any (is_in_state k s) rs ≡ true
    → any (is_in_state k s) (close_open i target now rs) ≡ true
in_state-close_open k i s target now [] d h = cc
in_state-close_open k i s target now (r ∷ rs) d h =
    elim (Bool-cases (r.id == i && str_eq r.state "open")) [
      | inl e ↦
          rw e (
            ground (arith, in_state-close_open k i s target now rs d, str_other r.state s "open" d))
      | inr e ↦ rw e (ground (arith, in_state-close_open k i s target now rs d))
    ]
