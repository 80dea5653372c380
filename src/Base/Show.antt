-- ===== src/Base/Show.antt =====
-- Python's format specifications for numbers: `{n}`, `{n:x}`, `{n:#x}`, `{n:08x}`, `{n:+d}`.
use Prim.Native.Nat.{ℕ, zero, suc, ◌+◌, ◌-◌, ◌/◌, ◌%◌}
use Prim.Native.String
use Prim.Native.String.{String, count}
use mathlib.Core.Bool.{true, false}
use rv32im_5_stage_pipelined.Base.Tests.{◌==◌, if◌then◌else◌}
use rv32im_5_stage_pipelined.Base.Int.{ℤ, pos, negsuc}

infixr 65 ◌<>◌
abbrev pub ◌<>◌ : String → String → String
s <> t = String.◌++◌ s t

-- The character of a digit below 16.
abbrev pub digit_name : ℕ → String
digit_name d =
    if d == 0
    then "0"
    else if d == 1
    then "1"
    else if d == 2
    then "2"
    else if d == 3
    then "3"
    else if d == 4
    then "4"
    else if d == 5
    then "5"
    else if d == 6
    then "6"
    else if d == 7
    then "7"
    else if d == 8
    then "8"
    else if d == 9
    then "9"
    else if d == 10
    then "a"
    else if d == 11
    then "b"
    else if d == 12
    then "c"
    else if d == 13
    then "d"
    else if d == 14
    then "e"
    else "f"

-- The digits of `n` in front of those that are written. There are at most `n + 1`.
unfoldable pub write_digits : ℕ → ℕ → ℕ → String → String
write_digits zero base n written = written
write_digits (suc fuel) base n written = elim (n / base == 0) [
  | true ↦ digit_name (n % base) <> written
  | false ↦ write_digits fuel base (n / base) (digit_name (n % base) <> written)
]

unfoldable pub in_base : ℕ → ℕ → String
unfolding write_digits
in_base base n = write_digits (suc n) base n ""

-- `{n}` and `{n:x}`
unfoldable pub decimal : ℕ → String
unfolding in_base
decimal n = in_base 10 n

unfoldable pub hex : ℕ → String
unfolding in_base
hex n = in_base 16 n

unfoldable pub zeros : ℕ → String
zeros zero = ""
zeros (suc n) = "0" <> zeros n

-- Filled up with zeros to a width.
unfoldable pub padded : ℕ → String → String
unfolding zeros
padded width s = zeros (width - count s) <> s

-- `{v}` and `{v:+d}` of an integer.
unfoldable pub signed_decimal : ℤ → String
unfolding decimal
signed_decimal (pos n) = decimal n
signed_decimal (negsuc n) = "-" <> decimal (n + 1)

unfoldable pub with_sign : ℤ → String
unfolding decimal
with_sign (pos n) = "+" <> decimal n
with_sign (negsuc n) = "-" <> decimal (n + 1)
