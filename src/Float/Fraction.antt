-- ===== src/Float/Fraction.antt =====
-- What sim/tools/iss.py uses of Python's `fractions.Fraction`, `int.bit_length` and `math.isqrt`.
-- A fraction is kept in lowest terms over a positive denominator. Each recursion takes its argument
-- (or one more) as fuel; each round at least halves it, or takes a remainder by it.
use rv32im_5_stage_pipelined.Base.{
  ℕ, zero, suc, ◌+◌, ◌*◌, ◌/◌, ◌%◌, ◌^◌, Bool, true, false, ◌==◌, leb, if◌then◌else◌,
}
use rv32im_5_stage_pipelined.Base.Int.{
  ℤ, pos, negsuc, pos_part, neg_part, sub_ℕ, ◌+ℤ◌, ◌*ℤ◌, abs, -ℤ◌, leb_ℤ, ltb_ℤ, eqb_ℤ,
}

pub record Fraction : Type 0 where
  pub numerator : ℤ
  pub denominator : ℕ

gcd_fuel : ℕ → ℕ → ℕ → ℕ
gcd_fuel zero a b = a
gcd_fuel (suc f) a b = elim (b == 0) [ true ↦ a | false ↦ gcd_fuel f b (a % b) ]

unfoldable pub gcd : ℕ → ℕ → ℕ
unfolding gcd_fuel
gcd a b = gcd_fuel (suc b) a b

unfoldable pub reduce : ℤ → ℕ → Fraction
unfolding gcd
reduce n d =
    let g = gcd (abs n) d in
    record { numerator = sub_ℕ (pos_part n / g) (neg_part n / g); denominator = d / g }

abbrev pub of_ℕ : ℕ → Fraction
of_ℕ n = record { numerator = pos n; denominator = 1 }

-- `Fraction(2) ** e`
abbrev pub two_pow : ℤ → Fraction
two_pow (pos n) = record { numerator = pos (2 ^ n); denominator = 1 }
two_pow (negsuc n) = record { numerator = pos 1; denominator = 2 ^ suc n }

abbrev pub half : Fraction
half = record { numerator = pos 1; denominator = 2 }

unfoldable pub add : Fraction → Fraction → Fraction
unfolding reduce ◌+ℤ◌ ◌*ℤ◌
add a b =
    reduce (a.numerator *ℤ pos b.denominator +ℤ b.numerator *ℤ pos a.denominator)
      (a.denominator * b.denominator)

abbrev pub neg : Fraction → Fraction
neg a = record a { numerator = -ℤ◌ a.numerator }

abbrev pub fabs : Fraction → Fraction
fabs a = record a { numerator = pos (abs a.numerator) }

unfoldable pub sub : Fraction → Fraction → Fraction
unfolding add
sub a b = add a (neg b)

unfoldable pub mul : Fraction → Fraction → Fraction
unfolding reduce ◌*ℤ◌
mul a b = reduce (a.numerator *ℤ b.numerator) (a.denominator * b.denominator)

-- Division by a positive fraction; the operations divide by no other.
unfoldable pub div : Fraction → Fraction → Fraction
unfolding reduce ◌*ℤ◌
div a b = reduce (a.numerator *ℤ pos b.denominator) (a.denominator * pos_part b.numerator)

unfoldable pub le : Fraction → Fraction → Bool
unfolding ◌*ℤ◌
le a b = leb_ℤ (a.numerator *ℤ pos b.denominator) (b.numerator *ℤ pos a.denominator)

unfoldable pub lt : Fraction → Fraction → Bool
unfolding ◌*ℤ◌
lt a b = ltb_ℤ (a.numerator *ℤ pos b.denominator) (b.numerator *ℤ pos a.denominator)

abbrev pub is_zero : Fraction → Bool
is_zero a = eqb_ℤ a.numerator (pos 0)

abbrev pub is_negative : Fraction → Bool
is_negative a = ltb_ℤ a.numerator (pos 0)

-- `a.numerator // a.denominator`, of a fraction from 0 upwards.
abbrev pub floor : Fraction → ℕ
floor a = pos_part a.numerator / a.denominator

bit_length_fuel : ℕ → ℕ → ℕ
bit_length_fuel zero n = 0
bit_length_fuel (suc f) n = elim (n == 0) [ true ↦ 0 | false ↦ suc (bit_length_fuel f (n / 2)) ]

unfoldable pub bit_length : ℕ → ℕ
unfolding bit_length_fuel
bit_length n = bit_length_fuel n n

-- The root of `n` from the root `r` of `n / 4`.
abbrev isqrt_round : ℕ → ℕ → ℕ
isqrt_round n r = if leb ((2 * r + 1) * (2 * r + 1)) n then 2 * r + 1 else 2 * r

isqrt_fuel : ℕ → ℕ → ℕ
isqrt_fuel zero n = 0
isqrt_fuel (suc f) n = elim (n == 0) [ true ↦ 0 | false ↦ isqrt_round n (isqrt_fuel f (n / 4)) ]

unfoldable pub isqrt : ℕ → ℕ
unfolding isqrt_fuel
isqrt n = isqrt_fuel n n
