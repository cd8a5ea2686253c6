-- ===== src/Base/Decimal.antt =====
-- Decimal text: `format!("{n}")` of an unsigned number, and `str::parse` of Rust's standard library.
pub mod RoundTrip
use Prim.Native.Nat.{ℕ, zero, suc, ◌+◌, ◌-◌, ◌*◌, ◌/◌, ◌%◌, ◌<◌}
use Prim.Native.Char.{Char, char, code}
use Prim.Native.String.{String}
use mathlib.Core.Bool.{◌||◌}
use mathlib.Core.Option.{Option, none, some}
use dodo_invoice_service.Base.Tests.{ltb, ◌==◌, if◌then◌else◌}

-- The digit of a number below ten.
unfoldable pub digit : ℕ → Char
digit zero = char 48 tt
digit (suc zero) = char 49 tt
digit (suc (suc zero)) = char 50 tt
digit (suc (suc (suc zero))) = char 51 tt
digit (suc (suc (suc (suc zero)))) = char 52 tt
digit (suc (suc (suc (suc (suc zero))))) = char 53 tt
digit (suc (suc (suc (suc (suc (suc zero)))))) = char 54 tt
digit (suc (suc (suc (suc (suc (suc (suc zero))))))) = char 55 tt
digit (suc (suc (suc (suc (suc (suc (suc (suc zero)))))))) = char 56 tt
digit _ = char 57 tt

-- The digits of `n` before `out`; the rounds are bounded by `fuel`, of which more than `n` is enough.
unfoldable pub digits : ℕ → ℕ → String → String
unfolding digit
digits zero n out = out
digits (suc fuel) n out =
    let rest = digits fuel (n / 10) (String.◌∷◌ (digit (n % 10)) out) in
    if n == 0 then out else rest

unfoldable pub show : ℕ → String
unfolding digits
show n = if n == 0 then "0" else digits (suc n) n ""

-- The loop of `parse`: the number read so far must stay within `max`.
unfoldable pub scan : ℕ → String → ℕ → Option ℕ
scan max String.[] n = some n
scan max (String.◌∷◌ c s) n =
    let m = n * 10 + (code c - 48) in
    let rest = scan max s m in
    if ltb (code c) 48 || ltb 57 (code c) then none else if ltb max m then none else rest

unfoldable pub scan_digits : ℕ → String → Option ℕ
unfolding scan
scan_digits max String.[] = none
scan_digits max (String.◌∷◌ c s) = scan max (String.◌∷◌ c s) 0

-- `s.parse::<uN>()`, where `max` is the greatest number of the type; one `+` may stand in front.
unfoldable pub parse_unsigned : ℕ → String → Option ℕ
unfolding scan_digits
parse_unsigned max String.[] = none
parse_unsigned max (String.◌∷◌ c s) =
    if code c == 43 then scan_digits max s else scan_digits max (String.◌∷◌ c s)
