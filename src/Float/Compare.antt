-- ===== src/Float/Compare.antt =====
-- sim/tools/iss.py, `f_sgnj`, `f_minmax`, `f_cmp` and `f_class`.
use rv32im_5_stage_pipelined.Base.{
  ℕ, ◌%◌, ◌^◌, bit_or, bit_xor, Bool, true, false, ◌==◌, ◌&&◌, ◌||◌, not, ltb, ◌<<<◌, digit, field,
  test_bit, if◌then◌else◌,
}
use rv32im_5_stage_pipelined.Float.Decode.{f32_decode, f32_is_zero_arith, canonical_nan, f_nv}
use rv32im_5_stage_pipelined.Float.Arith.{flag_if}

unfoldable pub f_sgnj : ℕ → ℕ → ℕ → ℕ × ℕ
f_sgnj a_bits b_bits funct3 =
    let sa = digit a_bits 31 in
    let sb = digit b_bits 31 in
    let sign = if funct3 == 0 then sb else if funct3 == 1 then bit_xor sb 1 else bit_xor sa sb in
    (bit_or (sign <<< 31) (a_bits % 2 ^ 31), 0)

-- Of two patterns that are not both zeros: by the signs, then by the magnitudes' patterns.
unfoldable pub nonzero_lt : ℕ → ℕ → ℕ → ℕ → Bool
nonzero_lt sa sb a_bits b_bits =
    if not (sa == sb)
    then not (sa == 0)
    else if not (sa == 0)
    then ltb (b_bits % 2 ^ 31) (a_bits % 2 ^ 31)
    else ltb (a_bits % 2 ^ 31) (b_bits % 2 ^ 31)

unfoldable pub f_minmax : ℕ → ℕ → ℕ → ℕ × ℕ
unfolding f32_decode f32_is_zero_arith nonzero_lt
f_minmax a_bits b_bits funct3 =
    let a = f32_decode a_bits in
    let b = f32_decode b_bits in
    let a_ez = f32_is_zero_arith a_bits in
    let b_ez = f32_is_zero_arith b_bits in
    let a_nz = a_ez && test_bit a_bits 31 in
    let b_nz = b_ez && test_bit b_bits 31 in
    let a_lt_b =
      if a_ez && b_ez then a_nz && not b_nz else nonzero_lt a.sign b.sign a_bits b_bits in
    if a.is_nan && b.is_nan
    then (canonical_nan, flag_if (a.is_snan || b.is_snan))
    else if a.is_nan
    then (b_bits, flag_if a.is_snan)
    else if b.is_nan
    then (a_bits, flag_if b.is_snan)
    else if funct3 == 0
    then (if a_lt_b then a_bits else b_bits, 0)
    else (if a_lt_b then b_bits else a_bits, 0)

unfoldable pub f_cmp : ℕ → ℕ → ℕ → ℕ × ℕ
unfolding f32_decode f32_is_zero_arith nonzero_lt
f_cmp a_bits b_bits funct3 =
    let a = f32_decode a_bits in
    let b = f32_decode b_bits in
    let both_zero = f32_is_zero_arith a_bits && f32_is_zero_arith b_bits in
    let eq = if both_zero then true else a_bits == b_bits in
    let lt = if both_zero then false else nonzero_lt a.sign b.sign a_bits b_bits in
    if a.is_nan || b.is_nan
    then (0, if funct3 == 2 then flag_if (a.is_snan || b.is_snan) else f_nv)
    else if funct3 == 2
    then (if eq then 1 else 0, 0)
    else if funct3 == 1
    then (if lt then 1 else 0, 0)
    else (if lt || eq then 1 else 0, 0)

unfoldable pub f_class : ℕ → ℕ
f_class a_bits =
    let sa = test_bit a_bits 31 in
    let exp = field a_bits 23 8 in
    let frac = a_bits % 2 ^ 23 in
    let finite_normal = not (exp == 0 || exp == 0xFF) in
    if exp == 0xFF && frac == 0 && sa
    then 1 <<< 0
    else if finite_normal && sa
    then 1 <<< 1
    else if exp == 0 && not (frac == 0) && sa
    then 1 <<< 2
    else if exp == 0 && frac == 0 && sa
    then 1 <<< 3
    else if exp == 0 && frac == 0 && not sa
    then 1 <<< 4
    else if exp == 0 && not (frac == 0) && not sa
    then 1 <<< 5
    else if finite_normal && not sa
    then 1 <<< 6
    else if exp == 0xFF && frac == 0 && not sa
    then 1 <<< 7
    else if exp == 0xFF && not (frac == 0) && not (test_bit frac 22)
    then 1 <<< 8
    else 1 <<< 9
