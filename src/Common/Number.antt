-- ===== src/Common/Number.antt =====
-- `Number` and `parseInt` of the texts that clock times are made of. `none` is NaN.
use Prim.Native.Nat.{ℕ, ◌+◌, ◌-◌, ◌*◌}
use mathlib.Core.Bool.{Bool, false, ◌&&◌}
use mathlib.Core.List.{[], ◌∷◌}
use mathlib.Core.Option.{Option, none, some}
use feed_reader.Common.Tests.{ltb, leb, if◌then◌else◌, ◌==◌, nat_eq}
use feed_reader.Common.Text.{Text, trim, trim_start}

abbrev pub is_digit : ℕ → Bool
is_digit c = leb b'0' c && leb c b'9'

-- The value of a text of digits.
unfoldable pub digits : ℕ → Text → Option ℕ
digits acc [] = some acc
digits acc (c ∷ s) =
    let rest = digits (acc * 10 + (c - b'0')) s in if is_digit c then rest else none

-- `Number(s)` where `s` is blank or decimal digits; the signed, fractional, exponent and radix
-- literals that it also reads are not modelled and are NaN here.
unfoldable pub number : Text → Option ℕ
unfolding digits trim
number s = digits 0 (trim s)

leading_digits : Option ℕ → Text → Option ℕ
leading_digits acc [] = acc
leading_digits none (c ∷ s) =
    let rest = leading_digits (some (c - b'0')) s in if is_digit c then rest else none
leading_digits (some n) (c ∷ s) =
    let rest = leading_digits (some (n * 10 + (c - b'0'))) s in if is_digit c then rest else some n

-- `parseInt(s, 10)` for an unsigned text.
unfoldable pub parse_int : Text → Option ℕ
unfolding leading_digits trim_start
parse_int s = leading_digits none (trim_start s)

-- Comparisons, false when a side is NaN.
abbrev pub num_lt : Option ℕ → Option ℕ → Bool
num_lt (some a) (some b) = ltb a b
num_lt (some a) none = false
num_lt none _ = false

abbrev pub num_le : Option ℕ → Option ℕ → Bool
num_le (some a) (some b) = leb a b
num_le (some a) none = false
num_le none _ = false

abbrev pub num_is : Option ℕ → ℕ → Bool
num_is (some a) b = a == b
num_is none b = false
