-- ===== src/Db/Order/Sorted.antt =====
-- `order_desc` sorts, and keeps the items.
use dodo_invoice_service.Base.{ℕ, ◌≤◌, ◌≡◌, refl, Bool, List, [], ◌∷◌, arith, count}
use dodo_invoice_service.Db.Order.{insert_desc, order_desc}

module _ {A : Type 0} (key : A → ℕ) where
  -- No item has a greater key than the one before it, the first none greater than `bound`.
  abbrev pub IsDescFrom : ℕ → List A → Type 0
  IsDescFrom bound [] = Unit
  IsDescFrom bound (x ∷ xs) = (key x ≤ bound) × IsDescFrom (key x) xs

  abbrev pub IsDesc : List A → Type 0
  IsDesc [] = Unit
  IsDesc (x ∷ xs) = IsDescFrom (key x) xs

  insert_desc-IsDescFrom :
      (bound : ℕ) (x : A) (xs : List A)
      → key x ≤ bound
      → IsDescFrom bound xs
      → IsDescFrom bound (insert_desc key x xs)
  unfolding insert_desc
  insert_desc-IsDescFrom bound x [] h s = (h, tt)
  insert_desc-IsDescFrom bound x (y ∷ ys) h s = ground (arith, insert_desc-IsDescFrom (key y) x ys)

  insert_desc-IsDesc : (x : A) (xs : List A) → IsDesc xs → IsDesc (insert_desc key x xs)
  unfolding insert_desc
  insert_desc-IsDesc x [] s = tt
  insert_desc-IsDesc x (y ∷ ys) s = ground (arith, insert_desc-IsDescFrom (key y) x ys)

  pub order_desc-IsDesc : (xs : List A) → IsDesc (order_desc key xs)
  unfolding order_desc
  order_desc-IsDesc [] = tt
  order_desc-IsDesc (x ∷ xs) = insert_desc-IsDesc x (order_desc key xs) (order_desc-IsDesc xs)

  insert_desc-count :
      (p : A → Bool) (x : A) (xs : List A) → count p (insert_desc key x xs) ≡ count p (x ∷ xs)
  unfolding insert_desc
  insert_desc-count p x [] = refl
  insert_desc-count p x (y ∷ ys) = ground (arith, insert_desc-count p x ys)

  pub order_desc-count : (p : A → Bool) (xs : List A) → count p (order_desc key xs) ≡ count p xs
  unfolding order_desc
  order_desc-count p [] = refl
  order_desc-count p (x ∷ xs) =
      ground (arith, insert_desc-count p x (order_desc key xs), order_desc-count p xs)
