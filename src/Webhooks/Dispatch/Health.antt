-- ===== src/Webhooks/Dispatch/Health.antt =====
-- What every batch keeps true of the deliveries, and how each uses up attempts.
use dodo_invoice_service.Base.{
  ap, str_ne, not, String, ℕ, ◌+◌, ◌-◌, ◌≤◌, ◌<◌, ◌≡◌, refl, Bool, true, false, ◌&&◌, ◌||◌, Option,
  none, some, List, [], ◌∷◌, str_eq, ℤ, pos, negsuc, pos_part, arith, ◌==◌, any, count,
  if◌then◌else◌, inl, inr, Bool-cases, Option-cases,
}
use dodo_invoice_service.Models.{Uuid, DateTime, WebhookDeliveryRow}
use dodo_invoice_service.Webhooks.Dispatch.{DueDelivery, update_delivery}
use dodo_invoice_service.Webhooks.Dispatch.Schedule.{recorded}
use dodo_invoice_service.Webhooks.Dispatch.Batch.{can_retry}

abbrev pub is_seven : ℤ → Bool
is_seven (pos n) = n == 7
is_seven (negsuc n) = false

-- Pending and delivered rows have failed at most 6 times, exhausted ones 7 times; there are no others.
abbrev pub is_well : WebhookDeliveryRow → Bool
is_well wd =
    (str_eq wd.status "pending" && can_retry wd.attempt_count)
    || (str_eq wd.status "succeeded" && can_retry wd.attempt_count)
    || (str_eq wd.status "failed_exhausted" && is_seven wd.attempt_count)

abbrev pub delivery_has_id : Uuid → WebhookDeliveryRow → Bool
delivery_has_id k wd = wd.id == k

-- The attempts that are left to a row.
abbrev pub attempts_left : WebhookDeliveryRow → ℕ
attempts_left wd = if str_eq wd.status "pending" then 7 - pos_part wd.attempt_count else 0

abbrev pub all_left : List WebhookDeliveryRow → ℕ
all_left [] = 0
all_left (wd ∷ rows) = attempts_left wd + all_left rows

-- The row that a due delivery was read from.
abbrev pub fits : DueDelivery → WebhookDeliveryRow → Bool
fits d wd =
    wd.id == d.id
    && (str_eq wd.status "pending" && pos_part wd.attempt_count == pos_part d.attempt_count)

abbrev pub Distinct : List DueDelivery → Type 0
Distinct [] = Unit
Distinct (d ∷ ds) = (any (λ e. e.id == d.id) ds ≡ false) × Distinct ds

recorded-left :
    (now : DateTime) (n : ℕ) (o : Option String) (wd : WebhookDeliveryRow)
    → n < 7
    → str_eq wd.status "pending" ≡ true
    → pos_part wd.attempt_count ≡ n
    → attempts_left (recorded now n o wd) + 1 ≤ attempts_left wd
recorded-left now n none wd h p e = ground arith
recorded-left now n (some m) wd h p e = elim (Bool-cases (n == 6)) [
  | inl six ↦ rw six (ground arith)
  | inr less ↦ rw less (ground arith)
]

recorded-is_well :
    (now : DateTime) (n : ℕ) (o : Option String) (wd : WebhookDeliveryRow)
    → n < 7
    → str_eq wd.status "pending" ≡ true
    → pos_part wd.attempt_count ≡ n
    → is_well wd ≡ true
    → is_well (recorded now n o wd) ≡ true
recorded-is_well now n none wd h p e w =
    ground (arith, str_ne wd.status "pending" "failed_exhausted" refl)
recorded-is_well now n (some m) wd h p e w = elim (Bool-cases (n == 6)) [
  | inl six ↦ rw six (ground arith)
  | inr less ↦ rw less (ground arith)
]

module _ (d : DueDelivery) (now : DateTime) (o : Option String) where
  -- The table after the UPDATE of `d`.
  abbrev pub one : List WebhookDeliveryRow → List WebhookDeliveryRow
  one = update_delivery d.id (recorded now (pos_part d.attempt_count) o)

  pub recorded-id : (wd : WebhookDeliveryRow) (n : ℕ) → (recorded now n o wd).id ≡ wd.id
  recorded-id wd n = elim (Option-cases o) [
    | inl e ↦ rw e refl
    | inr (m, e) ↦ elim (Bool-cases (n == 6)) [
      | inl six ↦ rw (e, six) refl
      | inr less ↦ rw (e, less) refl
    ]
  ]

  pub one-id :
      (k : Uuid) (rows : List WebhookDeliveryRow)
      → count (delivery_has_id k) (one rows) ≡ count (delivery_has_id k) rows
  one-id k [] = refl
  one-id k (wd ∷ rows) = ground (arith, one-id k rows, recorded-id wd (pos_part d.attempt_count))

  one-none :
      (rows : List WebhookDeliveryRow) → count (delivery_has_id d.id) rows ≡ 0 → one rows ≡ rows
  one-none [] h = refl
  one-none (wd ∷ rows) h = ground (arith, one-none rows)

  one-none_count :
      (p : WebhookDeliveryRow → Bool) (rows : List WebhookDeliveryRow)
      → count (delivery_has_id d.id) rows ≡ 0
      → count p (one rows) ≡ count p rows
  one-none_count p rows h = ap (count p) (one-none rows h)

  -- Other deliveries keep their rows.
  pub one-fits :
      (e : DueDelivery) (rows : List WebhookDeliveryRow)
      → (e.id == d.id) ≡ false
      → count (fits e) (one rows) ≡ count (fits e) rows
  one-fits e [] h = refl
  one-fits e (wd ∷ rows) h = elim (Bool-cases (wd.id == d.id)) [
    | inl same ↦
        rw same (ground (arith, one-fits e rows, recorded-id wd (pos_part d.attempt_count)))
    | inr other ↦ rw other (ground (arith, one-fits e rows))
  ]

  pub fits-le_id :
      (xs : List WebhookDeliveryRow) → count (fits d) xs ≤ count (delivery_has_id d.id) xs
  fits-le_id [] = omega arith
  fits-le_id (x ∷ xs) = ground (arith, fits-le_id xs)

  pub one-left :
      (rows : List WebhookDeliveryRow)
      → pos_part d.attempt_count < 7
      → count (delivery_has_id d.id) rows ≤ 1
      → 0 < count (fits d) rows
      → all_left (one rows) + 1 ≤ all_left rows
  one-left [] h u f = ground arith
  one-left (wd ∷ rows) h u f = elim (Bool-cases (wd.id == d.id)) [
    | inl same ↦ rw same (
        ground (
          arith,
          one-none rows,
          fits-le_id rows,
          recorded-left now (pos_part d.attempt_count) o wd h,
        ))
    | inr other ↦ rw other (ground (arith, one-left rows h))
  ]

  pub one-is_well :
      (rows : List WebhookDeliveryRow)
      → pos_part d.attempt_count < 7
      → count (delivery_has_id d.id) rows ≤ 1
      → 0 < count (fits d) rows
      → count (λ wd. not (is_well wd)) rows ≡ 0
      → count (λ wd. not (is_well wd)) (one rows) ≡ 0
  one-is_well [] h u f w = refl
  one-is_well (wd ∷ rows) h u f w = elim (Bool-cases (wd.id == d.id)) [
    | inl same ↦ rw same (
        ground (
          arith,
          one-none_count (λ x. not (is_well x)) rows,
          fits-le_id rows,
          recorded-is_well now (pos_part d.attempt_count) o wd h,
        ))
    | inr other ↦ rw other (ground (arith, one-is_well rows h))
  ]
