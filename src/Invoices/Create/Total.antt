-- ===== src/Invoices/Create/Total.antt =====
-- The total of an invoice against the sum that it stands for.
use dodo_invoice_service.Base.{
  inr, inl, Bool-cases, ltb_ℤ, false, leb_ℤ, ℕ, ◌+◌, ◌*◌, ◌^◌, ◌<◌, ◌≡◌, List, [], ◌∷◌, ℤ, pos,
  negsuc, pos_part, wrap_i64, wrap_i64-pos, ◌+ℤ◌, ◌*ℤ◌, arith,
}
use dodo_invoice_service.Models.{LineItemInput}
use dodo_invoice_service.Db.{World, ok}
use dodo_invoice_service.Invoices.Create.{check_items, amount, total_from, total}

-- The sum of quantity times unit amount, in numbers without a bound.
abbrev pub exact : List LineItemInput → ℕ
exact [] = 0
exact (item ∷ rest) = pos_part item.quantity * pos_part item.unit_amount_cents + exact rest

pos_times : (q u : ℕ) → pos q *ℤ pos u ≡ pos (q * u)
unfolding ◌*ℤ◌
pos_times q u = ground arith

pos_plus : (m n : ℕ) → pos m +ℤ pos n ≡ pos (m + n)
unfolding ◌+ℤ◌
pos_plus m n = ground arith

product :
    (q u : ℤ)
    → leb_ℤ q (pos 0) ≡ false
    → ltb_ℤ u (pos 0) ≡ false
    → pos_part q * pos_part u < 2 ^ 63
    → wrap_i64 (q *ℤ u) ≡ pos (pos_part q * pos_part u)
product (pos q) (pos u) hq hu b = rw (pos_times q u) (wrap_i64-pos (q * u) b)
product (negsuc q) u hq hu b = ground arith
product q (negsuc u) hq hu b = ground arith

-- What the checks of the first item have found.
checked :
    (item : LineItemInput) (rest : List LineItemInput) (w : World)
    → check_items (item ∷ rest) w ≡ (ok tt, w)
    → (leb_ℤ item.quantity (pos 0) ≡ false)
      × (ltb_ℤ item.unit_amount_cents (pos 0) ≡ false)
      × (check_items rest w ≡ (ok tt, w))
unfolding check_items
checked item rest w h = elim (Bool-cases (leb_ℤ item.quantity (pos 0))) [
  | inl e ↦ ground arith
  | inr e ↦ elim (Bool-cases (ltb_ℤ item.unit_amount_cents (pos 0))) [
    | inl e' ↦ ground arith
    | inr e' ↦ ground arith
  ]
]

total_from-exact :
    (acc : ℕ) (items : List LineItemInput) (w : World)
    → check_items items w ≡ (ok tt, w)
    → acc + exact items < 2 ^ 63
    → total_from (pos acc) items ≡ pos (acc + exact items)
unfolding total_from amount
total_from-exact acc [] w h b = ground arith
total_from-exact acc (item ∷ rest) w h b =
    let (hq, hu, ok_rest) = checked item rest w h in
    let cents = pos_part item.quantity * pos_part item.unit_amount_cents in
    rw
      (
        product item.quantity item.unit_amount_cents hq hu (omega arith),
        pos_plus acc cents,
        wrap_i64-pos (acc + cents) (omega arith),
      )
      (ground (arith, total_from-exact (acc + cents) rest w ok_rest))

-- For line items that pass the checks, the total is the exact sum of quantity times unit amount,
-- if that is below 2 ^ 63.
pub total-exact :
    (items : List LineItemInput) (w : World)
    → check_items items w ≡ (ok tt, w)
    → exact items < 2 ^ 63
    → total items ≡ pos (exact items)
unfolding total
total-exact items w h b = ground (arith, total_from-exact 0 items w h)
