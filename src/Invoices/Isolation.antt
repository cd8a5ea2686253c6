-- ===== src/Invoices/Isolation.antt =====
-- What the handlers of one invoice answer to a business that it does not belong to.
use dodo_invoice_service.Base.{
  ap, some, ◌∙◌, refl, ◌∷◌, ◌&&◌, suc, ◌==◌, ℕ, false, any, find, is_blank, List, String, ◌≡◌, none,
  [], arith,
}
use dodo_invoice_service.Error.{AppError, not_found}
use dodo_invoice_service.Models.{IdempotencyRow, InvoiceRow, Uuid}
use dodo_invoice_service.Db.{Db, ok, Exec, later, World, Result, err}
use dodo_invoice_service.Invoices.{invoice_of}
use dodo_invoice_service.Db.Ends.{continue}
use dodo_invoice_service.Router.Polls.{unowned-joined}
use dodo_invoice_service.Payments.Attempts.{attempt_of, get_payment_attempt}
use dodo_invoice_service.Payments.Tame.{claim_payment_attempt-IsTame}
use dodo_invoice_service.Idempotency.{
  before_finalize, reserve_or_get, reserved_row, has_key, proceed, before_insert, before_select,
  before_claim, Point, Others, Crypto, stored, reserve_from,
}
use dodo_invoice_service.Payments.Pay.{
  after_claim, finalize_result, request_hash, pay_reserved, pay_invoice, Race,
}
use dodo_invoice_service.Payments.Replay.{
  IsRespectful, IsQuiet, pay_invoice-steps, reserve_or_get-fresh, others-IsQuiet, any-of_find,
}
use dodo_invoice_service.Invoices.Read.{get_invoice}
use dodo_invoice_service.Invoices.Transition.{finalize_invoice, void_invoice, mark_uncollectible}
use dodo_invoice_service.Payments.Claim.{claim_payment_attempt}
use dodo_invoice_service.PspClient.{Psp}

abbrev pub no_such : AppError
no_such = not_found "invoice_not_found" "no such invoice"

-- The error is that there is no such invoice, and the tables and tasks are as they were.
abbrev pub IsHidden : {A : Type 0} → World → Result A × World → Type 0
IsHidden w (r, u) = (r ≡ err no_such) × (u.db ≡ w.db) × (u.tasks ≡ w.tasks)

-- The error is that there is no such attempt, and the tables and tasks are as they were.
abbrev pub HasNoAttempt : {A : Type 0} → World → Result A × World → Type 0
HasNoAttempt w (r, u) =
    (r ≡ err (not_found "payment_attempt_not_found" "no such payment attempt"))
    × (u.db ≡ w.db)
    × (u.tasks ≡ w.tasks)

-- Invoices, attempts and tasks of `w` are those of `u`.
pub record IsSameShop (w u : World) : Type 0 where
  pub invoices : u.db.invoices ≡ w.db.invoices
  pub attempts : u.db.attempts ≡ w.db.attempts
  pub tasks : u.tasks ≡ w.tasks

-- The table has no invoice of that id that belongs to the business.
abbrev pub IsForeign : Uuid → Uuid → List InvoiceRow → Type 0
IsForeign b i rows = any (λ r. r.id == i && r.business_id == b) rows ≡ false

foreign-find :
    (b i : Uuid) (rows : List InvoiceRow)
    → IsForeign b i rows
    → find (λ r. r.id == i && r.business_id == b) rows ≡ none
foreign-find b i [] h = refl
foreign-find b i (r ∷ rows) h = ground (arith, h, foreign-find b i rows)

continue-err :
    {A B : Type 0} (r : Result A × World) (f : A → Exec B) (e : AppError)
    → r.0 ≡ err e
    → continue r f ≡ (err e, r.1)
continue-err (ok a, w) f e h = cc
continue-err (err e', w) f e h = let same : e' ≡ e = cc h in rw same refl

not_claimed :
    (b i : Uuid) (card_token : String) (w : World)
    → w.faults ≡ []
    → invoice_of i b w.db ≡ none
    → IsHidden w (claim_payment_attempt b i card_token w)
unfolding claim_payment_attempt
not_claimed b i card_token w f foreign = ground arith

module _ (psp : Psp) (others : Others) (c : Crypto) (race : Race) (b i : Uuid)
    (key card_token : String) (given : is_blank card_token ≡ false)
    (respect : IsRespectful others b key)
    (stays : (p : Point) (v : World) → IsSameShop v (others p v)) where
  reserve_from-IsSameShop :
      (request_hash : String) (n r : ℕ) (w : World)
      → w.faults ≡ []
      → stored b key w.db ≡ none
      → IsSameShop w (reserve_from others b key request_hash (suc n) r w).1
  unfolding reserve_from
  reserve_from-IsSameShop request_hash n r w f unused =
      let v = others (before_select r) w in
      let v' = record v { faults = later v.faults } in
      let u = others (before_insert r) v' in
      ground (
        arith,
        respect.faults (before_select r) w,
        respect.row (before_select r) w,
        respect.faults (before_insert r) v',
        respect.row (before_insert r) v',
        any-of_find (has_key b key) u.db.idempotency_keys,
        stays (before_select r) w,
        stays (before_insert r) v',
      )

  refusal_stays :
      (row : IdempotencyRow) (w : World)
      → IsQuiet b key row w
      → let (r, u) = finalize_result psp others b i key (err no_such) w in
        (r ≡ err no_such) × IsSameShop w u
  unfolding finalize_result
  refusal_stays row w q =
      ground (
        arith,
        others-IsQuiet others b key respect row before_finalize w q,
        stays before_finalize w,
      )

  not_paid :
      (row : IdempotencyRow) (w : World)
      → IsQuiet b key row w
      → IsForeign b i w.db.invoices
      → let (r, u) = pay_reserved psp others race b i key card_token proceed w in
        (r ≡ err no_such) × IsSameShop w u
  unfolding pay_reserved
  not_paid row w q foreign =
      let v = others before_claim w in
      let quiet = others-IsQuiet others b key respect row before_claim w q in
      let at_claim = stays before_claim w in
      let none_of : invoice_of i b v.db ≡ none =
        foreign-find b i v.db.invoices (rw at_claim.invoices foreign) in
      let (refused, db, tasks) = not_claimed b i card_token v quiet.faults none_of in
      let x = (claim_payment_attempt b i card_token v).1 in
      let tame = claim_payment_attempt-IsTame b i card_token v in
      let (r, after) =
        refusal_stays row x
          (record { faults = tame.faults quiet.faults; has_row = rw db quiet.has_row }) in
      let steps : continue (claim_payment_attempt b i card_token v)
            (after_claim psp others race i card_token)
          ≡ (err no_such, x) =
        continue-err (claim_payment_attempt b i card_token v)
          (after_claim psp others race i card_token) no_such refused in
      rw steps (
        r,
        record {
          invoices = after.invoices ∙ ap (λ (db : Db). db.invoices) db ∙ at_claim.invoices;
          attempts = after.attempts ∙ ap (λ (db : Db). db.attempts) db ∙ at_claim.attempts;
          tasks = after.tasks ∙ tasks ∙ at_claim.tasks;
        },
      )

  pay_invoice-hidden :
      (w : World)
      → w.faults ≡ []
      → stored b key w.db ≡ none
      → IsForeign b i w.db.invoices
      → let (r, u) = pay_invoice psp others c race b i (some key) card_token w in
        (r ≡ err no_such) × IsSameShop w u
  unfolding reserve_or_get
  pay_invoice-hidden w f unused foreign =
      let hash = request_hash c i card_token in
      let (proceeds, quiet) = reserve_or_get-fresh others b key hash respect w f unused in
      let at_first = reserve_from-IsSameShop hash 14 0 w f unused in
      let u = (reserve_or_get others b key hash w).1 in
      let (r, after) = not_paid (reserved_row b key hash) u quiet (rw at_first.invoices foreign) in
      rw (pay_invoice-steps psp others c race b i key card_token given respect w, proceeds)
        (
          r,
          record {
            invoices = after.invoices ∙ at_first.invoices;
            attempts = after.attempts ∙ at_first.attempts;
            tasks = after.tasks ∙ at_first.tasks;
          },
        )

  -- If the table has no row with the id of an invoice that belongs to a business, and no statement fails, then
  -- get_invoice, the finalization, the voiding, the writing off and the claim of a payment by that business say
  -- that there is no such invoice, and the poll of any attempt of it that there is no such attempt; and none of
  -- them changes the tables or the tasks. A payment of it with a card token, under an unused key, gets the same
  -- error and leaves the invoices, the attempts and the tasks as they were, if others leave these and the row of
  -- the key alone and fail no statement of it.
  pub foreign_invoice :
      (a : Uuid) (w : World)
      → w.faults ≡ []
      → stored b key w.db ≡ none
      → any (λ r. r.id == i && r.business_id == b) w.db.invoices ≡ false
      → IsHidden w (get_invoice b i w)
        × IsHidden w (finalize_invoice b i w)
        × IsHidden w (void_invoice b i w)
        × IsHidden w (mark_uncollectible b i w)
        × IsHidden w (claim_payment_attempt b i card_token w)
        × HasNoAttempt w (get_payment_attempt b i a w)
        × (((pay_invoice psp others c race b i (some key) card_token w).0 ≡ err no_such)
            × IsSameShop w (pay_invoice psp others c race b i (some key) card_token w).1)
  unfolding get_invoice finalize_invoice void_invoice mark_uncollectible get_payment_attempt
  foreign_invoice a w f unused foreign =
      let none_of : invoice_of i b w.db ≡ none = foreign-find b i w.db.invoices foreign in
      let no_attempt : attempt_of a i b w.db ≡ none =
        unowned-joined a i b w.db.invoices w.db.attempts foreign in
      (
        ground (arith, f, none_of),
        ground (arith, f, none_of),
        ground (arith, f, none_of),
        ground (arith, f, none_of),
        not_claimed b i card_token w f none_of,
        ground (arith, f, no_attempt),
        pay_invoice-hidden w f unused foreign,
      )
