-- ===== src/Iss/Word.antt =====
-- sim/tools/iss.py, the width helpers at the top of the file. A Python int is a ℤ where it may be
-- negative and an ℕ where it cannot be.
pub mod Laws
use rv32im_5_stage_pipelined.Base.{ℕ, ◌-◌, ◌^◌, test_bit, if◌then◌else◌}
use rv32im_5_stage_pipelined.Base.Int.{ℤ, pos, low_bits, ◌-ℤ◌}

-- `v & ((1 << xlen) - 1)`
abbrev pub u_xlen : ℤ → ℕ → ℕ
u_xlen v xlen = low_bits xlen v

-- The two's-complement reading of the low `xlen` digits.
unfoldable pub s_xlen : ℤ → ℕ → ℤ
unfolding ◌-ℤ◌
s_xlen v xlen =
    let m = u_xlen v xlen in if test_bit m (xlen - 1) then pos m -ℤ pos (2 ^ xlen) else pos m

abbrev pub u32 : ℤ → ℕ
u32 v = u_xlen v 32

unfoldable pub s32 : ℤ → ℤ
unfolding s_xlen
s32 v = s_xlen v 32

-- `sext` does the same for a field of `bits` digits.
unfoldable pub sext : ℕ → ℕ → ℤ
unfolding ◌-ℤ◌
sext v bits =
    let m = low_bits bits (pos v) in
    if test_bit m (bits - 1) then pos m -ℤ pos (2 ^ bits) else pos m
