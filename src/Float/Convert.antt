-- ===== src/Float/Convert.antt =====
-- sim/tools/iss.py, `f_cvt_to_int` and `f_cvt_from_int`.
use rv32im_5_stage_pipelined.Base.{
  ℕ, ◌+◌, ◌%◌, ◌^◌, Bool, ◌==◌, ◌&&◌, ◌||◌, not, ltb, digit, if◌then◌else◌,
}
use rv32im_5_stage_pipelined.Base.Int.{pos, low_bits, -ℤ◌}
use rv32im_5_stage_pipelined.Float.Fraction.{of_ℕ}
use rv32im_5_stage_pipelined.Float.Decode.{f32_decode, finite, f_nv, f_nx}
use rv32im_5_stage_pipelined.Float.Round.{floor_and_class, round_up_decision, round_from_fraction}

-- What a conversion that does not fit gives.
unfoldable pub saturated : Bool → ℕ → ℕ
saturated unsigned sign =
    if unsigned
    then if not (sign == 0) then 0 else 0xFFFFFFFF
    else if not (sign == 0)
    then 0x80000000
    else 0x7FFFFFFF

unfoldable pub out_of_range : Bool → ℕ → ℕ → Bool
out_of_range unsigned sign magnitude =
    if unsigned
    then (not (sign == 0) && not (magnitude == 0)) || ltb 0xFFFFFFFF magnitude
    else (sign == 0 && ltb 0x7FFFFFFF magnitude) || (not (sign == 0) && ltb 0x80000000 magnitude)

unfoldable pub f_cvt_to_int : ℕ → ℕ → Bool → ℕ × ℕ
unfolding f32_decode floor_and_class round_up_decision saturated out_of_range
f_cvt_to_int a_bits rm unsigned =
    let a = f32_decode a_bits in
    let (floor_mag, cls) = floor_and_class (finite a.magnitude) in
    let (round_up, inexact) = round_up_decision cls floor_mag a.sign rm in
    let magnitude = floor_mag + (if round_up then 1 else 0) in
    if a.is_nan
    then (if unsigned then 0xFFFFFFFF else 0x7FFFFFFF, f_nv)
    else if a.is_zero
    then (0, 0)
    else if a.is_inf
    then (saturated unsigned a.sign, f_nv)
    else if out_of_range unsigned a.sign magnitude
    then (saturated unsigned a.sign, f_nv)
    else (
      if a.sign == 0 then low_bits 32 (pos magnitude) else low_bits 32 (-ℤ◌ (pos magnitude)),
      if inexact then f_nx else 0,
    )

unfoldable pub f_cvt_from_int : ℕ → ℕ → Bool → ℕ × ℕ
unfolding round_from_fraction
f_cvt_from_int a_bits rm unsigned =
    let sign = if unsigned then 0 else digit a_bits 31 in
    let magnitude =
      if unsigned
      then a_bits % 2 ^ 32
      else if sign == 1
      then low_bits 32 (-ℤ◌ (pos a_bits))
      else a_bits in
    if a_bits == 0 then (0, 0) else round_from_fraction sign (of_ℕ magnitude) rm
