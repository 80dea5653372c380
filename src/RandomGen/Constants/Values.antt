-- ===== src/RandomGen/Constants/Values.antt =====
-- sim/tools/random_gen.py: the values of the constants that are built.
use rv32im_5_stage_pipelined.Base.{
  true, eq→==, ℕ, ◌+◌, ◌*◌, ◌%◌, ◌^◌, ◌<◌, ◌≡◌, ap, ◌∙◌, arith, bit_or, ◌<<<◌, ◌>>>◌,
}
use rv32im_5_stage_pipelined.Base.Int.{◌-ℤ◌, low_bits}
use rv32im_5_stage_pipelined.Base.Bits.Laws.{bit_or_low}
use rv32im_5_stage_pipelined.RandomGen.Constants.{
  low_part, high_part, low_signed, sext32, self_check_const64,
}

-- The parts that `lui` and `addi` are given add up to the constant.
pub const_parts-sum :
    (bits : ℕ) → (high_part bits * 2 ^ 12 + low_bits 32 (low_signed bits)) % 2 ^ 32 ≡ bits % 2 ^ 32
unfolding high_part low_signed low_part ◌-ℤ◌
const_parts-sum bits = ground arith

sext32-shifted : (v : ℕ) → v < 2 ^ 32 → (low_bits 64 (sext32 v) <<< 32) % 2 ^ 64 ≡ v * 2 ^ 32
unfolding ◌-ℤ◌
sext32-shifted v h = ground arith

halves : (hi lo : ℕ) → lo < 2 ^ 32 → bit_or (hi * 2 ^ 32) ((lo * 2 ^ 32) >>> 32) ≡ hi * 2 ^ 32 + lo
halves hi lo h =
    let back : (lo * 2 ^ 32) >>> 32 ≡ lo = omega arith in
    ap (bit_or (hi * 2 ^ 32)) back ∙ bit_or_low 32 (hi * 2 ^ 32) lo (omega arith) h

-- The assertion of `_self_check_const64`, which the module makes for eight constants, holds for every
-- constant.
pub self_check_const64-holds : (bits : ℕ) → self_check_const64 bits ≡ true
unfolding self_check_const64
self_check_const64-holds bits =
    let hi = (bits >>> 32) % 2 ^ 32 in
    let lo = bits % 2 ^ 32 in
    let h : lo < 2 ^ 32 = omega arith in
    let same : bit_or (hi * 2 ^ 32) ((lo * 2 ^ 32) >>> 32) % 2 ^ 64 ≡ bits % 2 ^ 64 =
      ap (λ (t : ℕ). t % 2 ^ 64) (halves hi lo h) ∙ omega arith in
    rw (sext32-shifted hi (omega arith), sext32-shifted lo h) (eq→== _ _ same)
