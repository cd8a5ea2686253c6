-- ===== src/Base/Strings.antt =====
-- Comparing a text with two others.
use Prim.Native.String.{String}
use mathlib.Core.Path.{◌≡◌}
use mathlib.Core.Bool.{true, false}
use native.Mathlib.Omega.{arith}
use text.Mathlib.Text.{◌==◌}
use text.Mathlib.TextEquality.{eq_iff}

-- A text that is one of two different texts is not the other.
pub str_ne : (s a b : String) → (a == b) ≡ false → (s == a) ≡ true → (s == b) ≡ false
str_ne s a b h e = ground (arith, eq_iff s a, eq_iff s b, eq_iff a b)

pub str_other : (s a b : String) → (a == b) ≡ false → (s == b) ≡ true → (s == a) ≡ false
str_other s a b h e = ground (arith, eq_iff s a, eq_iff s b, eq_iff a b)

-- Two texts that equal a third, on either side.
pub str_common : (a b s : String) → (a == s) ≡ true → (b == s) ≡ true → (a == b) ≡ true
str_common a b s e f = ground (arith, eq_iff a s, eq_iff b s, eq_iff a b)

pub str_join : (s a b : String) → (s == a) ≡ true → (s == b) ≡ true → (b == a) ≡ true
str_join s a b e f = ground (arith, eq_iff s a, eq_iff s b, eq_iff b a)
