-- ===== src/Float/Round.antt =====
-- sim/tools/iss.py, rounding: the decision, the packing, and the normalisation of an exact
-- fraction. The `while` loops take fuel; the bit lengths put the first guess at most two below.
use rv32im_5_stage_pipelined.Base.{
  ℕ, zero, suc, ◌+◌, ◌*◌, ◌%◌, ◌^◌, bit_or, Bool, true, false, ◌==◌, ◌&&◌, ◌||◌, not, ltb, ◌<<<◌,
  ◌>>>◌, test_bit, if◌then◌else◌,
}
use rv32im_5_stage_pipelined.Base.Int.{
  ℤ, pos, pos_part, negsuc, sub_ℕ, ◌+ℤ◌, ◌-ℤ◌, ◌*ℤ◌, shift_right, ltb_ℤ,
}
use rv32im_5_stage_pipelined.Float.Fraction
use rv32im_5_stage_pipelined.Float.Fraction.{Fraction, two_pow, half, bit_length, isqrt}
use rv32im_5_stage_pipelined.Float.Decode.{
  f32_pack_zero, f_of, f_uf, f_nx, rm_rtz, rm_rdn, rm_rup, rm_rmm,
}

-- The remainder against one half.
pub data Cls : Type 0 where
  exact below tie above : Cls

abbrev pub is_exact : Cls → Bool
is_exact exact = true
is_exact _ = false

abbrev pub is_below : Cls → Bool
is_below below = true
is_below _ = false

-- Round to nearest, ties to even.
abbrev pub nearest_even : Cls → ℕ → Bool
nearest_even exact sig_floor = test_bit sig_floor 0
nearest_even below sig_floor = false
nearest_even tie sig_floor = test_bit sig_floor 0
nearest_even above sig_floor = true

-- (round_up, inexact)
unfoldable pub round_up_decision : Cls → ℕ → ℕ → ℕ → Bool × Bool
round_up_decision cls sig_floor sign rm =
    if is_exact cls
    then (false, false)
    else if rm == rm_rtz
    then (false, true)
    else if rm == rm_rdn
    then (sign == 1, true)
    else if rm == rm_rup
    then (sign == 0, true)
    else if rm == rm_rmm
    then (not (is_below cls), true)
    else (nearest_even cls sig_floor, true)

-- `sig_floor += 1`, and the carry out of 24 digits.
unfoldable pub bump : Bool → ℕ → ℤ → ℕ × ℤ
unfolding ◌+ℤ◌
bump round_up sig_floor e =
    if round_up
    then if sig_floor + 1 == 2 ^ 24 then ((sig_floor + 1) >>> 1, e +ℤ pos 1) else (sig_floor + 1, e)
    else (sig_floor, e)

-- The pattern of a rounded value: overflow, underflow, or a normal number.
unfoldable pub pack_finite : ℕ → ℤ → ℕ → Bool → ℕ → ℕ × ℕ
unfolding ◌+ℤ◌ f32_pack_zero
pack_finite sign e sig_floor inexact rm =
    if ltb_ℤ (pos 127) e
    then (
      if rm == rm_rtz || (rm == rm_rdn && sign == 0) || (rm == rm_rup && sign == 1)
          then bit_or (bit_or (sign <<< 31) (0xFE <<< 23)) 0x7FFFFF
          else bit_or (sign <<< 31) (0xFF <<< 23),
      bit_or f_of f_nx,
    )
    else if ltb_ℤ e (negsuc 125)
    then (f32_pack_zero sign, bit_or f_uf f_nx)
    else (
      bit_or (bit_or (sign <<< 31) (pos_part (e +ℤ pos 127) <<< 23)) (sig_floor % 2 ^ 23),
      if inexact then f_nx else 0,
    )

unfoldable pub pack_rounded : ℕ → ℤ → ℕ → Cls → ℕ → ℕ × ℕ
unfolding round_up_decision bump pack_finite
pack_rounded sign e0 sig0 cls rm =
    let (round_up, inexact) = round_up_decision cls sig0 sign rm in
    let (sig_floor, e) = bump round_up sig0 e0 in pack_finite sign e sig_floor inexact rm

-- `remainder` against `Fraction(1, 2)`.
unfoldable pub classify : Fraction → Cls
unfolding Fraction.lt
classify remainder =
    if Fraction.is_zero remainder
    then exact
    else if Fraction.lt remainder half
    then below
    else if Fraction.lt half remainder
    then above
    else tie

-- `while magnitude >= two ** (k * (e + 1)): e += 1`
unfoldable pub raise_exponent : ℕ → ℕ → Fraction → ℤ → ℤ
unfolding Fraction.le ◌+ℤ◌ ◌*ℤ◌
raise_exponent zero k magnitude e = e
raise_exponent (suc fuel) k magnitude e =
    elim (Fraction.le (two_pow (pos k *ℤ (e +ℤ pos 1))) magnitude) [
      | true ↦ raise_exponent fuel k magnitude (e +ℤ pos 1)
      | false ↦ e
    ]

-- `while magnitude < two ** (k * e): e -= 1`
unfoldable pub lower_exponent : ℕ → ℕ → Fraction → ℤ → ℤ
unfolding Fraction.lt ◌-ℤ◌ ◌*ℤ◌
lower_exponent zero k magnitude e = e
lower_exponent (suc fuel) k magnitude e = elim (Fraction.lt magnitude (two_pow (pos k *ℤ e))) [
  | true ↦ lower_exponent fuel k magnitude (e -ℤ pos 1)
  | false ↦ e
]

-- The rounds that are granted to each of the two loops.
abbrev pub rounds : ℕ
rounds = 4

-- `sig_exact`'s floor, and the class of what is left.
unfoldable pub floor_and_class : Fraction → ℕ × Cls
unfolding Fraction.sub classify
floor_and_class x =
    let sig_floor = Fraction.floor x in
    (sig_floor, classify (Fraction.sub x (Fraction.of_ℕ sig_floor)))

unfoldable pub normalize_fraction : Fraction → ℤ × ℕ × Cls
unfolding bit_length raise_exponent lower_exponent Fraction.mul floor_and_class ◌-ℤ◌
normalize_fraction magnitude =
    let guess =
      sub_ℕ (bit_length (pos_part magnitude.numerator)) (bit_length magnitude.denominator)
      -ℤ pos 1 in
    let e = lower_exponent rounds 1 magnitude (raise_exponent rounds 1 magnitude guess) in
    let sig_exact = Fraction.mul magnitude (two_pow (pos 23 -ℤ e)) in
    let (sig_floor, cls) = floor_and_class sig_exact in (e, sig_floor, cls)

-- `n` against the square of `sig_floor + 1/2`.
unfoldable pub sqrt_class : ℕ → ℕ → Cls
sqrt_class sig_floor n =
    if sig_floor * sig_floor == n
    then exact
    else let mid_sq = (2 * sig_floor + 1) ^ 2 in
      if ltb (4 * n) mid_sq then below else if ltb mid_sq (4 * n) then above else tie

-- The source asserts that `scaled` is whole, which a decoded float's is.
unfoldable pub sqrt_normalize : Fraction → ℤ × ℕ × Cls
unfolding bit_length raise_exponent lower_exponent Fraction.mul isqrt sqrt_class ◌-ℤ◌ ◌*ℤ◌
sqrt_normalize magnitude =
    let guess =
      shift_right
        (sub_ℕ (bit_length (pos_part magnitude.numerator)) (bit_length magnitude.denominator)) 1
      -ℤ pos 1 in
    let e = lower_exponent rounds 2 magnitude (raise_exponent rounds 2 magnitude guess) in
    let scaled = Fraction.mul magnitude (two_pow (pos 2 *ℤ (pos 23 -ℤ e))) in
    let n = pos_part scaled.numerator in
    let sig_floor = isqrt n in (e, sig_floor, sqrt_class sig_floor n)

unfoldable pub round_from_fraction : ℕ → Fraction → ℕ → ℕ × ℕ
unfolding normalize_fraction pack_rounded
round_from_fraction sign magnitude rm =
    let (e, sig_floor, cls) = normalize_fraction magnitude in pack_rounded sign e sig_floor cls rm

unfoldable pub round_from_sqrt : ℕ → Fraction → ℕ → ℕ × ℕ
unfolding sqrt_normalize pack_rounded
round_from_sqrt sign magnitude rm =
    let (e, sig_floor, cls) = sqrt_normalize magnitude in pack_rounded sign e sig_floor cls rm
