-- ===== src/Base/Decimal/RoundTrip.antt =====
-- Decimal text there and back.
use dodo_invoice_service.Base.Tests.{Bool-cases, ◌==◌}
use mathlib.Core.Logic.{inl, inr}
use Prim.Native.Nat.{ℕ, zero, suc, ◌+◌, ◌/◌, ◌%◌, ◌≤◌, ◌<◌}
use Prim.Native.Char.{code}
use Prim.Native.String.{String}
use mathlib.Core.Path.{◌≡◌, refl}
use mathlib.Core.Option.{some}
use native.Mathlib.Omega.{arith}
use dodo_invoice_service.Base.Decimal.{digit, digits, show, scan, scan_digits, parse_unsigned}

code-digit : (d : ℕ) → d < 10 → code (digit d) ≡ 48 + d
unfolding digit
code-digit zero h = refl
code-digit (suc zero) h = refl
code-digit (suc (suc zero)) h = refl
code-digit (suc (suc (suc zero))) h = refl
code-digit (suc (suc (suc (suc zero)))) h = refl
code-digit (suc (suc (suc (suc (suc zero))))) h = refl
code-digit (suc (suc (suc (suc (suc (suc zero)))))) h = refl
code-digit (suc (suc (suc (suc (suc (suc (suc zero))))))) h = refl
code-digit (suc (suc (suc (suc (suc (suc (suc (suc zero)))))))) h = refl
code-digit (suc (suc (suc (suc (suc (suc (suc (suc (suc d))))))))) h = omega arith

-- The digits before `out` stand for `n`.
scan-digits :
    (max fuel n : ℕ) (out : String)
    → n ≤ max
    → n < fuel
    → scan max (digits fuel n out) 0 ≡ scan max out n
unfolding digits scan
scan-digits max zero n out fits enough = absurd (omega arith)
scan-digits max (suc fuel) n out fits enough =
    ground
      (arith, code-digit (n % 10), scan-digits max fuel (n / 10) (String.◌∷◌ (digit (n % 10)) out))

-- The first character of a number's text is a digit.
abbrev pub Starts : String → Type 0
Starts String.[] = ⊥
Starts (String.◌∷◌ c s) = (48 ≤ code c) × (code c ≤ 57)

digits-Starts : (fuel n : ℕ) (out : String) → Starts out → Starts (digits fuel n out)
unfolding digits
digits-Starts zero n out h = h
digits-Starts (suc fuel) n out h =
    ground
      (arith, code-digit (n % 10), digits-Starts fuel (n / 10) (String.◌∷◌ (digit (n % 10)) out))

abbrev last : ℕ → String
last n = String.◌∷◌ (digit (n % 10)) ""

show-Starts : (n : ℕ) → Starts (show n)
unfolding show
show-Starts n = elim (Bool-cases (n == 0)) [
  | inl e ↦ rw e (omega arith, omega arith)
  | inr e ↦ rw e (digits-Starts n (n / 10) (last n) (ground (arith, code-digit (n % 10))))
]

parse-of_Starts : (max : ℕ) (s : String) → Starts s → parse_unsigned max s ≡ scan max s 0
unfolding parse_unsigned scan_digits
parse-of_Starts max String.[] h = absurd h
parse-of_Starts max (String.◌∷◌ c s) h = ground arith

-- A number within the bound is read back from its decimal text.
pub parse_unsigned-show : (max n : ℕ) → n ≤ max → parse_unsigned max (show n) ≡ some n
unfolding show parse_unsigned scan_digits scan
parse_unsigned-show max n fits = elim (Bool-cases (n == 0)) [
  | inl e ↦ rw e (ground arith)
  | inr e ↦
      rw (parse-of_Starts max (show n) (show-Starts n), e)
        (ground (arith, scan-digits max n (n / 10) (last n), code-digit (n % 10)))
]
