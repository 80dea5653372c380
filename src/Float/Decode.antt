-- ===== src/Float/Decode.antt =====
-- sim/tools/iss.py, `f32_decode` and the helpers on float bit patterns, with the flag constants.
use rv32im_5_stage_pipelined.Base.{
  ℕ, ◌%◌, ◌^◌, bit_or, Bool, true, false, Option, none, some, ◌==◌, ◌<<<◌, digit, field,
  if◌then◌else◌,
}
use rv32im_5_stage_pipelined.Base.Int.{pos, sub_ℕ}
use rv32im_5_stage_pipelined.Float.Fraction.{Fraction, of_ℕ, two_pow, reduce, mul}

abbrev pub canonical_nan : ℕ
canonical_nan = 0x7FC00000

abbrev pub f_nv : ℕ
f_nv = 16

abbrev pub f_dz : ℕ
f_dz = 8

abbrev pub f_of : ℕ
f_of = 4

abbrev pub f_uf : ℕ
f_uf = 2

abbrev pub f_nx : ℕ
f_nx = 1

abbrev pub rm_rne : ℕ
rm_rne = 0

abbrev pub rm_rtz : ℕ
rm_rtz = 1

abbrev pub rm_rdn : ℕ
rm_rdn = 2

abbrev pub rm_rup : ℕ
rm_rup = 3

abbrev pub rm_rmm : ℕ
rm_rmm = 4

-- The tuple of `f32_decode`.
pub record Decoded : Type 0 where
  pub sign : ℕ
  pub is_zero : Bool
  pub is_inf : Bool
  pub is_nan : Bool
  pub is_snan : Bool
  pub magnitude : Option Fraction

-- `Fraction((1 << 23) | mant, 1 << 23) * Fraction(2) ** (exp - 127)`
unfoldable pub normal_magnitude : ℕ → ℕ → Fraction
unfolding reduce mul
normal_magnitude exp mant =
    mul (reduce (pos (bit_or (2 ^ 23) mant)) (2 ^ 23)) (two_pow (sub_ℕ exp 127))

-- A subnormal pattern is read as a zero of its sign.
unfoldable pub f32_decode : ℕ → Decoded
f32_decode bits0 =
    let bits = bits0 % 2 ^ 32 in
    let s = digit bits 31 in
    let exp = field bits 23 8 in
    let mant = bits % 2 ^ 23 in
    if exp == 0xFF
    then if mant == 0
      then record {
        sign = s;
        is_zero = false;
        is_inf = true;
        is_nan = false;
        is_snan = false;
        magnitude = none;
      }
      else record {
        sign = s;
        is_zero = false;
        is_inf = false;
        is_nan = true;
        is_snan = digit mant 22 == 0;
        magnitude = none;
      }
    else if exp == 0
    then record {
      sign = s;
      is_zero = true;
      is_inf = false;
      is_nan = false;
      is_snan = false;
      magnitude = some (of_ℕ 0);
    }
    else record {
      sign = s;
      is_zero = false;
      is_inf = false;
      is_nan = false;
      is_snan = false;
      magnitude = some (normal_magnitude exp mant);
    }

-- The magnitude of a finite value. The operations use it only where the pattern is no infinity and
-- no NaN, so the first clause is not reached.
abbrev pub finite : Option Fraction → Fraction
finite none = of_ℕ 0
finite (some m) = m

unfoldable pub f32_is_zero_arith : ℕ → Bool
f32_is_zero_arith bits = field bits 23 8 == 0

unfoldable pub f32_pack_zero : ℕ → ℕ
f32_pack_zero sign = (sign % 2 ^ 1) <<< 31

unfoldable pub f32_pack_inf : ℕ → ℕ
f32_pack_inf sign = bit_or ((sign % 2 ^ 1) <<< 31) (0xFF <<< 23)
