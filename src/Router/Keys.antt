-- ===== src/Router/Keys.antt =====
-- The row of an idempotency key over the runs of the service.
use dodo_invoice_service.Base.{
  is_blank, refl, ◌∙◌, inr, str_join, inl, str_common, none, any, arith, Bool-cases, ◌∷◌, true,
  false, some, ◌≡◌, str_eq, Option, find, ◌&&◌, ◌==◌, String, List,
}
use dodo_invoice_service.Models.{IdempotencyRow, Uuid}
use dodo_invoice_service.Error.{StatusCode}
use dodo_invoice_service.Json.{Json}
use dodo_invoice_service.Db.{ok, World, statement, Task, Db}
use dodo_invoice_service.Idempotency.{
  before_select, Crypto, Others, stored, finalized, has_key, finalize, insert_key,
}
use dodo_invoice_service.Db.Keeps.{execute-Keeps, Gives, Keeps}
use dodo_invoice_service.Router.Rules.{Rules}
use mathlib.Core.List.{[]}
use dodo_invoice_service.PspClient.{Psp}
use dodo_invoice_service.Router.Unseen.{
  tick-unseen, settle-unseen, claim-unseen, close-unseen, move-unseen, item-unseen, invoice-unseen,
  event-unseen,
}
use dodo_invoice_service.Payments.Pay.{request_hash, pay_invoice, Race}
use dodo_invoice_service.Payments.Replay.{
  pay_replays, answered_row, pay_stores, response, IsRespectful,
}
use dodo_invoice_service.Router.Runs.{Run-Keeps, Run}

-- Another key than `key` of business `b`.
abbrev Other : Uuid → String → Uuid → String → Type 0
Other b key b' key' = (b' == b && str_eq key' key) ≡ false

any-of_stored :
    (b b' : Uuid) (key key' : String) (rows : List IdempotencyRow) (row : IdempotencyRow)
    → find (has_key b key) rows ≡ some row
    → (b' == b && str_eq key' key) ≡ true
    → any (has_key b' key') rows ≡ true
any-of_stored b b' key key' [] row h same = cc
any-of_stored b b' key key' (r ∷ rows) row h same =
    ground (arith, any-of_stored b b' key key' rows row, str_common r.idempotency_key key' key)

find-finalized :
    (b b' : Uuid) (key key' : String) (status : StatusCode) (body : Json) (i a : Option Uuid)
    (rows : List IdempotencyRow)
    → Other b key b' key'
    → find (has_key b key) (finalized b' key' status body i a rows) ≡ find (has_key b key) rows
find-finalized b b' key key' status body i a [] other = refl
find-finalized b b' key key' status body i a (r ∷ rows) other =
    elim (Bool-cases (has_key b' key' r)) [
      | inl hit ↦
          let miss : has_key b key r ≡ false =
            ground (arith, str_join r.idempotency_key key key') in
          rw (hit, miss) (find-finalized b b' key key' status body i a rows other)
      | inr miss ↦ rw miss (ground (arith, find-finalized b b' key key' status body i a rows other))
    ]

module _ (b : Uuid) (key : String) (row : IdempotencyRow) where
  abbrev Stored : Db → List Task → Type 0
  Stored db tasks = stored b key db ≡ some row

  -- An INSERT of the key itself finds the row there.
  reserve-Stored :
      (b' : Uuid) (key' request_hash : String)
      → Gives Stored
          (λ inserted. inserted ≡ true → Other b key b' key')
          (statement (insert_key b' key' request_hash))
  unfolding insert_key statement
  reserve-Stored b' key' request_hash = elim (Bool-cases (b' == b && str_eq key' key)) [
    | inl same ↦ record {
      keeps =
          λ w h. ground (arith, h, any-of_stored b b' key key' w.db.idempotency_keys row h same);
      gives = λ w h. ground (arith, any-of_stored b b' key key' w.db.idempotency_keys row h same);
    }
    | inr other ↦ record {
      keeps = λ w h. ground (arith, h, other);
      gives = λ w h. ground (arith, other);
    }
  ]

  answer-Stored :
      (b' i : Uuid) (key' : String) (status : StatusCode) (body : Json)
      → Other b key b' key'
      → Keeps Stored (finalize b' key' status body (some i) none)
  unfolding finalize
  answer-Stored b' i key' status body other =
      execute-Keeps
        (λ w. record w.db {
          idempotency_keys = finalized b' key' status body (some i) none w.db.idempotency_keys;
        })
        (λ w h.
          find-finalized b b' key key' status body (some i) none w.db.idempotency_keys other ∙ h)

  pub Stored-rules : Rules Stored (λ _. Unit) (λ _. Unit) (Other b key)
  Stored-rules = record {
    blind = record { blind = λ db db' tasks i a d l k h. rw k h };
    event = event-unseen (λ db rows tasks h. h);
    invoice = invoice-unseen (λ db rows tasks h. h);
    item = λ i item _. item-unseen (λ db rows tasks h. h) i item;
    move = move-unseen (λ db rows tasks h. h);
    close = close-unseen (λ db rows tasks h. h);
    claim = claim-unseen (λ db rows tasks h. h);
    spawn = λ task _. record { keeps = λ w h. h };
    settle = λ a v _. settle-unseen (λ db rows tasks h. h) a v;
    known = λ w task h k. tt;
    reserve = reserve-Stored;
    answer = answer-Stored;
    tick = tick-unseen (λ db rows tasks h. h);
  }

module _ (psp psp' : Psp) (others others' : Others) (c : Crypto) (race race' : Race) (b i : Uuid)
    (key card_token : String) (given : is_blank card_token ≡ false)
    (respect : IsRespectful others b key) (respect' : IsRespectful others' b key) where
  -- A payment under an unused key, and the same request again after any run of the service. If the request has
  -- a card token, others fail no statement of the two requests and leave the row of their key alone, and the
  -- database fails none of their statements, then the second gets the status and the body of the response that
  -- the first got, whatever that was, and changes nothing, however the provider would answer now.
  pub same_answer_for_ever :
      (w v : World)
      → w.faults ≡ []
      → stored b key w.db ≡ none
      → Run (pay_invoice psp others c race b i (some key) card_token w).1 v
      → v.faults ≡ []
      → let first = response (pay_invoice psp others c race b i (some key) card_token w).0 in
        pay_invoice psp' others' c race' b i (some key) card_token v
        ≡ (ok (first.status, first.body), others' (before_select 0) v)
  same_answer_for_ever w v f unused run g =
      let (quiet, low, high) =
        pay_stores psp others c race b i key card_token given respect w f unused in
      let first = response (pay_invoice psp others c race b i (some key) card_token w).0 in
      let row = answered_row b key (request_hash c i card_token) i first in
      pay_replays psp' others' c race' b i key card_token given respect' v first
        (record { faults = g; has_row = Run-Keeps (Stored-rules b key row) run quiet.has_row }) low
        high
