-- ===== src/Float/Arith.antt =====
-- sim/tools/iss.py, `f_add`, `f_mul`, `f_div`, `f_sqrt` and `f_madd`. Each returns the pattern and
-- the flags.
use rv32im_5_stage_pipelined.Base.{
  ℕ, ◌%◌, ◌^◌, bit_or, bit_xor, Bool, ◌==◌, ◌&&◌, ◌||◌, not, ◌<<<◌, if◌then◌else◌,
}
use rv32im_5_stage_pipelined.Float.Fraction
use rv32im_5_stage_pipelined.Float.Fraction.{Fraction, is_zero, is_negative, fabs, neg}
use rv32im_5_stage_pipelined.Float.Decode.{
  f32_decode, finite, f32_pack_zero, f32_pack_inf, canonical_nan, f_nv, f_dz, rm_rdn,
}
use rv32im_5_stage_pipelined.Float.Round.{round_from_fraction, round_from_sqrt}

abbrev pub flag_if : Bool → ℕ
flag_if b = if b then f_nv else 0

abbrev pub flip : ℕ → Bool → ℕ
flip sign b = bit_xor sign (if b then 1 else 0)

abbrev pub signed_value : ℕ → Fraction → Fraction
signed_value sign m = if sign == 0 then m else neg m

-- An exact zero is positive, but under RDN negative.
abbrev pub zero_sum : ℕ → ℕ × ℕ
zero_sum rm = (f32_pack_zero (if rm == rm_rdn then 1 else 0), 0)

-- `total == 0`, and the rounding of what is not.
unfoldable pub round_total : Fraction → ℕ → ℕ × ℕ
unfolding round_from_fraction f32_pack_zero
round_total total rm =
    if is_zero total
    then zero_sum rm
    else round_from_fraction (if is_negative total then 1 else 0) (fabs total) rm

unfoldable pub f_add : ℕ → ℕ → ℕ → Bool → ℕ × ℕ
unfolding f32_decode f32_pack_zero f32_pack_inf Fraction.add round_total
f_add a_bits b_bits rm is_sub =
    let a = f32_decode a_bits in
    let b = f32_decode b_bits in
    let eff_sb = flip b.sign is_sub in
    if a.is_nan || b.is_nan
    then (canonical_nan, flag_if (a.is_snan || b.is_snan))
    else if a.is_inf && b.is_inf && not (a.sign == eff_sb)
    then (canonical_nan, f_nv)
    else if a.is_inf
    then (f32_pack_inf a.sign, 0)
    else if b.is_inf
    then (f32_pack_inf eff_sb, 0)
    else if a.is_zero && b.is_zero
    then if a.sign == eff_sb then (f32_pack_zero a.sign, 0) else zero_sum rm
    else if a.is_zero
    then (bit_or (eff_sb <<< 31) (b_bits % 2 ^ 31), 0)
    else if b.is_zero
    then (a_bits, 0)
    else round_total
        (Fraction.add (signed_value a.sign (finite a.magnitude))
          (signed_value eff_sb (finite b.magnitude)))
        rm

unfoldable pub f_mul : ℕ → ℕ → ℕ → ℕ × ℕ
unfolding f32_decode f32_pack_zero f32_pack_inf Fraction.mul round_from_fraction
f_mul a_bits b_bits rm =
    let a = f32_decode a_bits in
    let b = f32_decode b_bits in
    let s = bit_xor a.sign b.sign in
    if a.is_nan || b.is_nan
    then (canonical_nan, flag_if (a.is_snan || b.is_snan))
    else if (a.is_inf && b.is_zero) || (a.is_zero && b.is_inf)
    then (canonical_nan, f_nv)
    else if a.is_inf || b.is_inf
    then (f32_pack_inf s, 0)
    else if a.is_zero || b.is_zero
    then (f32_pack_zero s, 0)
    else round_from_fraction s (Fraction.mul (finite a.magnitude) (finite b.magnitude)) rm

unfoldable pub f_div : ℕ → ℕ → ℕ → ℕ × ℕ
unfolding f32_decode f32_pack_zero f32_pack_inf Fraction.div round_from_fraction
f_div a_bits b_bits rm =
    let a = f32_decode a_bits in
    let b = f32_decode b_bits in
    let s = bit_xor a.sign b.sign in
    if a.is_nan || b.is_nan
    then (canonical_nan, flag_if (a.is_snan || b.is_snan))
    else if a.is_inf && b.is_inf
    then (canonical_nan, f_nv)
    else if a.is_zero && b.is_zero
    then (canonical_nan, f_nv)
    else if a.is_inf
    then (f32_pack_inf s, 0)
    else if b.is_inf
    then (f32_pack_zero s, 0)
    else if b.is_zero
    then (f32_pack_inf s, f_dz)
    else if a.is_zero
    then (f32_pack_zero s, 0)
    else round_from_fraction s (Fraction.div (finite a.magnitude) (finite b.magnitude)) rm

unfoldable pub f_sqrt : ℕ → ℕ → ℕ × ℕ
unfolding f32_decode round_from_sqrt
f_sqrt a_bits rm =
    let a = f32_decode a_bits in
    if a.is_nan
    then (canonical_nan, flag_if a.is_snan)
    else if a.is_zero
    then (a_bits, 0)
    else if not (a.sign == 0)
    then (canonical_nan, f_nv)
    else if a.is_inf
    then (a_bits, 0)
    else round_from_sqrt 0 (finite a.magnitude) rm

unfoldable pub f_madd : ℕ → ℕ → ℕ → ℕ → Bool → Bool → ℕ × ℕ
unfolding f32_decode f32_pack_zero f32_pack_inf Fraction.add Fraction.mul round_total
f_madd a_bits b_bits c_bits rm neg_prod neg_addend =
    let a = f32_decode a_bits in
    let b = f32_decode b_bits in
    let c = f32_decode c_bits in
    let prod_sign = flip (bit_xor a.sign b.sign) neg_prod in
    let prod_inf = a.is_inf || b.is_inf in
    let eff_sc = flip c.sign neg_addend in
    if a.is_nan || b.is_nan || c.is_nan
    then (canonical_nan, flag_if (a.is_snan || b.is_snan || c.is_snan))
    else if (a.is_inf && b.is_zero) || (a.is_zero && b.is_inf)
    then (canonical_nan, f_nv)
    else if prod_inf && c.is_inf && not (prod_sign == eff_sc)
    then (canonical_nan, f_nv)
    else if prod_inf
    then (f32_pack_inf prod_sign, 0)
    else if c.is_inf
    then (f32_pack_inf eff_sc, 0)
    else if a.is_zero || b.is_zero
    then if c.is_zero
      then if prod_sign == eff_sc then (f32_pack_zero prod_sign, 0) else zero_sum rm
      else (bit_or (eff_sc <<< 31) (c_bits % 2 ^ 31), 0)
    else round_total
        (Fraction.add
          (signed_value prod_sign (Fraction.mul (finite a.magnitude) (finite b.magnitude)))
          (signed_value eff_sc (finite c.magnitude)))
        rm
