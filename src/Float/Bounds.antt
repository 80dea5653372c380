-- ===== src/Float/Bounds.antt =====
-- sim/tools/iss.py, the rounding helpers: the width of what they pack.
use rv32im_5_stage_pipelined.Base.{
  ℕ, zero, suc, ◌*◌, ◌%◌, ◌^◌, ◌<◌, ◌≡◌, arith, bit_or, bit_xor, Bool, true, false, digit,
  if◌then◌else◌, Bool-cases, inl, inr, ◌==◌,
}
use rv32im_5_stage_pipelined.Base.Int.{ℤ, pos, pos_part, ◌+ℤ◌, ltb_ℤ}
use rv32im_5_stage_pipelined.Base.Bits.Laws.{bit_or-lt}
use rv32im_5_stage_pipelined.Float.Fraction.{Fraction, is_negative, fabs, is_zero}
use rv32im_5_stage_pipelined.Float.Decode.{f32_decode, f32_pack_zero, f32_pack_inf, rm_rdn}
use rv32im_5_stage_pipelined.Float.Round.{
  Cls, round_up_decision, bump, pack_finite, pack_rounded, normalize_fraction, sqrt_normalize,
  round_from_fraction, round_from_sqrt,
}
use rv32im_5_stage_pipelined.Float.Arith.{flip, zero_sum, round_total}
use rv32im_5_stage_pipelined.Float.Compare.{f_sgnj}

-- A sign digit, and a pattern.
abbrev pub IsSign : ℕ → Type 0
IsSign s = s < 2

abbrev pub IsPattern : ℕ → Type 0
IsPattern x = x < 2 ^ 32

decode-IsSign : (bits : ℕ) → IsSign (f32_decode bits).sign
unfolding f32_decode
decode-IsSign bits = ground arith

xor-IsSign : (s t : ℕ) → IsSign s → IsSign t → IsSign (bit_xor s t)
xor-IsSign zero zero h k = omega arith
xor-IsSign zero (suc zero) h k = omega arith
xor-IsSign zero (suc (suc t)) h k = absurd (omega arith)
xor-IsSign (suc zero) zero h k = omega arith
xor-IsSign (suc zero) (suc zero) h k = omega arith
xor-IsSign (suc zero) (suc (suc t)) h k = absurd (omega arith)
xor-IsSign (suc (suc s)) t h k = absurd (omega arith)

flip-IsSign : (s : ℕ) (b : Bool) → IsSign s → IsSign (flip s b)
flip-IsSign s true h = xor-IsSign s 1 h (omega arith)
flip-IsSign s false h = xor-IsSign s 0 h (omega arith)

pack_zero-IsPattern : (s : ℕ) → IsPattern (f32_pack_zero s)
unfolding f32_pack_zero
pack_zero-IsPattern s = omega arith

pack_inf-IsPattern : (s : ℕ) → IsPattern (f32_pack_inf s)
unfolding f32_pack_inf
pack_inf-IsPattern s = bit_or-lt 32 (s % 2 * 2 ^ 31) (255 * 2 ^ 23) (omega arith) (omega arith)

-- A sign, an exponent and a significand that each fit their field.
fields-IsPattern :
    (s e f : ℕ)
    → IsSign s
    → e < 2 ^ 8
    → f < 2 ^ 23
    → IsPattern (bit_or (bit_or (s * 2 ^ 31) (e * 2 ^ 23)) f)
fields-IsPattern s e f hs he hf =
    bit_or-lt 32 (bit_or (s * 2 ^ 31) (e * 2 ^ 23)) f
      (bit_or-lt 32 (s * 2 ^ 31) (e * 2 ^ 23) (omega arith) (omega arith)) (omega arith)

signed-IsPattern : (s m : ℕ) → IsSign s → m < 2 ^ 31 → IsPattern (bit_or (s * 2 ^ 31) m)
signed-IsPattern s m hs hm = bit_or-lt 32 (s * 2 ^ 31) m (omega arith) (omega arith)

biased-lt : (e : ℤ) → ltb_ℤ (pos 127) e ≡ false → pos_part (e +ℤ pos 127) < 2 ^ 8
unfolding ◌+ℤ◌
biased-lt e h = ground arith

pub pack_finite-IsPattern :
    (s : ℕ) (e : ℤ) (sig : ℕ) (inexact : Bool) (rm : ℕ)
    → IsSign s
    → IsPattern (pack_finite s e sig inexact rm).0
unfolding pack_finite
pack_finite-IsPattern s e sig inexact rm hs = elim (Bool-cases (ltb_ℤ (pos 127) e)) [
  | inl over ↦ rw over (
      ground (
        arith,
        fields-IsPattern s 0xFE 0x7FFFFF hs (omega arith) (omega arith),
        signed-IsPattern s (0xFF * 2 ^ 23) hs (omega arith),
      ))
  | inr within ↦ rw within (
      ground (
        arith,
        pack_zero-IsPattern s,
        fields-IsPattern s (pos_part (e +ℤ pos 127)) (sig % 2 ^ 23) hs (biased-lt e within)
            (omega arith),
      ))
]

-- What is rounded and packed with a sign of one digit is a pattern of 32 digits, whatever the exponent,
-- the significand, the class of the remainder and the rounding mode.
pub pack_rounded-IsPattern :
    (s : ℕ) (e0 : ℤ) (sig0 : ℕ) (cls : Cls) (rm : ℕ)
    → IsSign s
    → IsPattern (pack_rounded s e0 sig0 cls rm).0
unfolding pack_rounded
pack_rounded-IsPattern s e0 sig0 cls rm hs =
    let (up, inexact) = round_up_decision cls sig0 s rm in
    let (sig, e) = bump up sig0 e0 in pack_finite-IsPattern s e sig inexact rm hs

round_from_fraction-IsPattern :
    (s : ℕ) (m : Fraction) (rm : ℕ) → IsSign s → IsPattern (round_from_fraction s m rm).0
unfolding round_from_fraction
round_from_fraction-IsPattern s m rm hs =
    let (e, sig, cls) = normalize_fraction m in pack_rounded-IsPattern s e sig cls rm hs

round_from_sqrt-IsPattern : (m : Fraction) (rm : ℕ) → IsPattern (round_from_sqrt 0 m rm).0
unfolding round_from_sqrt
round_from_sqrt-IsPattern m rm =
    let (e, sig, cls) = sqrt_normalize m in pack_rounded-IsPattern 0 e sig cls rm (omega arith)

zero_sum-IsPattern : (rm : ℕ) → IsPattern (zero_sum rm).0
zero_sum-IsPattern rm = pack_zero-IsPattern (if rm == rm_rdn then 1 else 0)

if-IsSign : (b : Bool) → IsSign (if b then 1 else 0)
if-IsSign true = omega arith
if-IsSign false = omega arith

round_total-IsPattern : (t : Fraction) (rm : ℕ) → IsPattern (round_total t rm).0
unfolding round_total
round_total-IsPattern t rm = elim (Bool-cases (is_zero t)) [
  | inl e ↦ rw e (zero_sum-IsPattern rm)
  | inr e ↦ rw e (
      round_from_fraction-IsPattern (if is_negative t then 1 else 0) (fabs t) rm
        (if-IsSign (is_negative t)))
]

pub f_sgnj-IsPattern : (a b f3 : ℕ) → IsPattern (f_sgnj a b f3).0
unfolding f_sgnj
f_sgnj-IsPattern a b f3 =
    signed-IsPattern
      (if f3 == 0
        then digit b 31
        else if f3 == 1
        then bit_xor (digit b 31) 1
        else bit_xor (digit a 31) (digit b 31))
      (a % 2 ^ 31)
      (ground (
        arith,
        xor-IsSign (digit b 31) 1 (omega arith) (omega arith),
        xor-IsSign (digit a 31) (digit b 31) (omega arith) (omega arith),
      ))
      (omega arith)
