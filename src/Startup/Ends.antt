-- ===== src/Startup/Ends.antt =====
-- How `connect_with_retry` ends.
use dodo_invoice_service.Base.{
  lt_or_eq, refl, ltb, ℕ, zero, suc, ◌+◌, ◌≤◌, ◌<◌, ◌≡◌, inl, inr, Bool, true, false, some, arith,
  Bool-cases,
}
use dodo_invoice_service.Startup.{Connected, pool, panicked, connect_from, connect_with_retry}

-- The first connection that succeeds, among those up to number 10; or all of them fail.
pub data Ending (connect : ℕ → Bool) : Connected → Type 0 where
  first :
      (k : ℕ)
      → k ≤ 10
      → connect k ≡ true
      → ((j : ℕ) → j < k → connect j ≡ false)
      → Ending connect (pool k)
  all_fail : ((j : ℕ) → j ≤ 10 → connect j ≡ false) → Ending connect (panicked 10)

below_suc :
    (connect : ℕ → Bool) (a : ℕ)
    → ((j : ℕ) → j < a → connect j ≡ false)
    → connect a ≡ false
    → (j : ℕ) → j < suc a
    → connect j ≡ false
below_suc connect a before e j h = elim (lt_or_eq j a h) [
  | inl lt ↦ before j lt
  | inr same ↦ rw same e
]

connect_from-ends :
    (connect : ℕ → Bool) (fuel a : ℕ)
    → a + fuel ≡ 11
    → a ≤ 10
    → ((j : ℕ) → j < a → connect j ≡ false)
    → (c : Connected) × (connect_from connect fuel a ≡ some c) × Ending connect c
unfolding connect_from
connect_from-ends connect zero a e h before = absurd (omega arith)
connect_from-ends connect (suc fuel) a e h before = elim (Bool-cases (connect a)) [
  | inl success ↦ (pool a, rw success refl, first a h success before)
  | inr failure ↦ elim (Bool-cases (ltb a 10)) [
    | inl more ↦
        let (c, r, ending) =
          connect_from-ends connect fuel (suc a) (omega arith) (ground arith)
            (below_suc connect a before failure) in
        (c, rw (failure, more) r, ending)
    | inr last ↦
        let ten : a ≡ 10 = ground arith in
        (
          panicked 10,
          rw (failure, ten) refl,
          all_fail (λ j hj. below_suc connect a before failure j (omega arith)),
        )
  ]
]

-- The loop ends within the 11 rounds: with the first connection that succeeds, or in the panic if the first 11
-- all fail.
pub connect_with_retry-ends :
    (connect : ℕ → Bool)
    → (c : Connected) × (connect_with_retry connect ≡ some c) × Ending connect c
unfolding connect_with_retry
connect_with_retry-ends connect =
    connect_from-ends connect 11 0 refl (omega arith) (λ j h. absurd (omega arith))
