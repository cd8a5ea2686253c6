-- ===== src/Webhooks/Dispatch/Rows.antt =====
-- The rows that a batch selects: how they stand to the table.
use dodo_invoice_service.Base.{
  ◌<◌, not, ℕ, zero, suc, ◌≤◌, ◌≡◌, refl, Bool, true, List, [], ◌∷◌, arith, count, keep, take,
  length,
}
use dodo_invoice_service.Models.{WebhookEndpointRow, Uuid, DateTime, WebhookDeliveryRow}
use dodo_invoice_service.Db.{Db}
use dodo_invoice_service.Db.Order.{insert_asc, order_asc}
use dodo_invoice_service.Webhooks.Dispatch.{join_endpoints, is_due, due_rows}

module _ {A : Type 0} where
  take-le : (p : A → Bool) (n : ℕ) (xs : List A) → count p (take n xs) ≤ count p xs
  take-le p zero xs = omega arith
  take-le p (suc n) [] = omega arith
  take-le p (suc n) (x ∷ xs) = omega (arith, take-le p n xs)

  length-take : (n : ℕ) (xs : List A) → length (take n xs) ≤ n
  length-take zero xs = omega arith
  length-take (suc n) [] = omega arith
  length-take (suc n) (x ∷ xs) = omega (arith, length-take n xs)

  keep-le : (p q : A → Bool) (xs : List A) → count p (keep q xs) ≤ count p xs
  keep-le p q [] = omega arith
  keep-le p q (x ∷ xs) = ground (arith, keep-le p q xs)

  count-order_asc :
      (key : A → ℕ) (p : A → Bool) (xs : List A) → count p (order_asc key xs) ≡ count p xs
  unfolding order_asc
  count-order_asc key p [] = refl
  count-order_asc key p (x ∷ xs) =
      ground (arith, count-insert_asc x (order_asc key xs), count-order_asc key p xs)
    where
      count-insert_asc : (y : A) (ys : List A) → count p (insert_asc key y ys) ≡ count p (y ∷ ys)
      count-insert_asc y [] = refl
      count-insert_asc y (z ∷ ys) = ground (arith, count-insert_asc y ys)

  count-of_not :
      (p q : A → Bool) (xs : List A)
      → ((x : A) → q x ≡ true → p x ≡ true)
      → count (λ x. not (p x)) (keep q xs) ≡ 0
  count-of_not p q [] h = refl
  count-of_not p q (x ∷ xs) h = ground (arith, h x, count-of_not p q xs h)

-- Every test is passed by no more of the selected rows than rows of the table.
pub due_rows-le :
    (locked : Uuid → Bool) (now : DateTime) (db : Db) (p : WebhookDeliveryRow → Bool)
    → count p (due_rows locked now db) ≤ count p db.deliveries
unfolding due_rows
due_rows-le locked now db p =
    let kept = keep (is_due locked now db.endpoints) db.deliveries in
    omega (
      arith,
      take-le p 20 (order_asc (λ wd. wd.next_attempt_at) kept),
      count-order_asc (λ wd. wd.next_attempt_at) p kept,
      keep-le p (is_due locked now db.endpoints) db.deliveries,
    )

-- Each of the selected rows is due.
pub due_rows-is_due :
    (locked : Uuid → Bool) (now : DateTime) (db : Db)
    → count (λ wd. not (is_due locked now db.endpoints wd)) (due_rows locked now db) ≡ 0
unfolding due_rows
due_rows-is_due locked now db =
    let kept = keep (is_due locked now db.endpoints) db.deliveries in
    let p = λ (wd : WebhookDeliveryRow). not (is_due locked now db.endpoints wd) in
    omega (
      arith,
      take-le p 20 (order_asc (λ wd. wd.next_attempt_at) kept),
      count-order_asc (λ wd. wd.next_attempt_at) p kept,
      count-of_not (is_due locked now db.endpoints) (is_due locked now db.endpoints) db.deliveries
          (λ x h. h),
    )

pub length-due_rows :
    (locked : Uuid → Bool) (now : DateTime) (db : Db) → length (due_rows locked now db) ≤ 20
unfolding due_rows
length-due_rows locked now db = length-take 20 _

count-true-eq-length : {A : Type 0} (xs : List A) → count (λ _. true) xs ≡ length xs
count-true-eq-length [] = refl
count-true-eq-length (x ∷ xs) = omega (arith, count-true-eq-length xs)

length-keep : {A : Type 0} (q : A → Bool) (xs : List A) → length (keep q xs) ≡ count q xs
length-keep q [] = refl
length-keep q (x ∷ xs) = ground (arith, length-keep q xs)

length-take_pos : {A : Type 0} (n : ℕ) (xs : List A) → 0 < length xs → 0 < length (take (suc n) xs)
length-take_pos n [] h = h
length-take_pos n (x ∷ xs) h = omega arith

-- If a row of the table is due, a row is selected.
pub due_rows-pos :
    (locked : Uuid → Bool) (now : DateTime) (db : Db)
    → 0 < count (is_due locked now db.endpoints) db.deliveries
    → 0 < length (due_rows locked now db)
unfolding due_rows
due_rows-pos locked now db h =
    let kept = keep (is_due locked now db.endpoints) db.deliveries in
    let sorted = order_asc (λ wd. wd.next_attempt_at) kept in
    length-take_pos 19 sorted (
      omega (
        arith,
        h,
        length-keep (is_due locked now db.endpoints) db.deliveries,
        count-true-eq-length kept,
        count-true-eq-length sorted,
        count-order_asc (λ wd. wd.next_attempt_at) (λ _. true) kept,
      ))

-- The JOIN keeps each row that is due.
pub length-join :
    (locked : Uuid → Bool) (now : DateTime) (endpoints : List WebhookEndpointRow)
    (rows : List WebhookDeliveryRow)
    → count (λ wd. not (is_due locked now endpoints wd)) rows ≡ 0
    → length (join_endpoints endpoints rows) ≡ length rows
unfolding join_endpoints
length-join locked now endpoints [] h = refl
length-join locked now endpoints (wd ∷ rows) h =
    ground (arith, length-join locked now endpoints rows)
