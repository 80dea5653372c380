-- ===== src/Base/Bits.antt =====
-- Python's `|`, `&`, `^`, `>>` and `<<` on numbers from 0 upwards.
mod Digits
pub mod Laws
pub mod Digit
pub use Digits.{bit_or_step, bit_and_step, bit_or_split}
use Prim.Native.Nat.{ℕ, ◌-◌, ◌*◌, ◌/◌, ◌%◌, ◌^◌, bit_and}
use mathlib.Core.Bool.{Bool}
use rv32im_5_stage_pipelined.Base.Tests.{◌==◌}

infixl 75 ◌<<<◌ ◌>>>◌
abbrev pub ◌<<<◌ : ℕ → ℕ → ℕ
x <<< k = x * 2 ^ k

abbrev pub ◌>>>◌ : ℕ → ℕ → ℕ
x >>> k = x / 2 ^ k

-- `(x >> k) & ((1 << w) - 1)`: the field of `w` digits from the digit `k` upwards.
abbrev pub field : ℕ → ℕ → ℕ → ℕ
field x k w = x / 2 ^ k % 2 ^ w

-- `(x >> k) & 1`
abbrev pub digit : ℕ → ℕ → ℕ
digit x k = field x k 1

-- `(x >> k) & 1` as a truth value
abbrev pub test_bit : ℕ → ℕ → Bool
test_bit x k = digit x k == 1

-- `x & ~m`: what is left of `x` when the digits that it shares with `m` are taken away.
abbrev pub and_not : ℕ → ℕ → ℕ
and_not x m = x - bit_and x m
