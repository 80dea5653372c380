-- ===== src/Iss/Trap/Status.antt =====
-- sim/tools/iss.py, the digits of mstatus after `trap`, `mret` and `sret`.
use rv32im_5_stage_pipelined.Base.{
  ℕ, ◌*◌, ◌/◌, ◌%◌, ◌^◌, ◌<◌, ◌≡◌, refl, arith, ◌==◌, ◌||◌, digit, and_not, bit_or, if◌then◌else◌,
}
use rv32im_5_stage_pipelined.Base.Bits.Digit.{
  digit-bit_or, digit-and_not, digit-mod, digit-shl_bit, digit-shl_pair, all_equal,
}
use rv32im_5_stage_pipelined.Iss.Csr.{s_status_mask}
use rv32im_5_stage_pipelined.Iss.Csr.Views.{s_mask_digit}
use rv32im_5_stage_pipelined.Iss.Trap.{
  m_status_mask, s_trap_status, m_trap_status, mret_status, sret_status,
}

m_mask_digit :
    (k : ℕ)
    → k < 32
    → digit m_status_mask k ≡ (if k == 3 || k == 7 || k == 11 || k == 12 then 1 else 0)
m_mask_digit k h =
    all_equal 32 (λ y. digit m_status_mask y)
      (λ y. if y == 3 || y == 7 || y == 11 || y == 12 then 1 else 0) k refl h

-- A trap to S saves SIE in SPIE and the mode's low digit in SPP, clears SIE, and keeps the rest of
-- the digits of mstatus below 32.
pub digit-s_trap_status :
    (m priv k : ℕ)
    → k < 32
    → digit (s_trap_status m priv) k
      ≡ (if k == 5 then digit m 1 else if k == 8 then priv % 2 else if k == 1 then 0 else digit m k)
unfolding s_trap_status
digit-s_trap_status m priv k h = ground (
  arith,
  digit-mod 32 k (bit_or (and_not m s_status_mask) (bit_or (digit m 1 * 2 ^ 5) (priv % 2 * 2 ^ 8)))
      h,
  digit-bit_or k (and_not m s_status_mask) (bit_or (digit m 1 * 2 ^ 5) (priv % 2 * 2 ^ 8)),
  digit-bit_or k (digit m 1 * 2 ^ 5) (priv % 2 * 2 ^ 8),
  digit-and_not k m s_status_mask,
  s_mask_digit k h,
  digit-shl_bit 5 k (digit m 1) (omega arith),
  digit-shl_bit 8 k (priv % 2) (omega arith),
)

-- A return by sret restores SIE from SPIE, sets SPIE, clears SPP, and keeps the rest of the digits
-- of mstatus below 32.
pub digit-sret_status :
    (m k : ℕ)
    → k < 32
    → digit (sret_status m) k
      ≡ (if k == 1 then digit m 5 else if k == 5 then 1 else if k == 8 then 0 else digit m k)
unfolding sret_status
digit-sret_status m k h = ground (
  arith,
  digit-mod 32 k (bit_or (and_not m s_status_mask) (bit_or (digit m 5 * 2 ^ 1) (1 * 2 ^ 5))) h,
  digit-bit_or k (and_not m s_status_mask) (bit_or (digit m 5 * 2 ^ 1) (1 * 2 ^ 5)),
  digit-bit_or k (digit m 5 * 2 ^ 1) (1 * 2 ^ 5),
  digit-and_not k m s_status_mask,
  s_mask_digit k h,
  digit-shl_bit 1 k (digit m 5) (omega arith),
  digit-shl_bit 5 k 1 (omega arith),
)

-- A trap to M from a mode of two digits saves MIE in MPIE and the mode in MPP, clears MIE, and keeps
-- the rest of the digits of mstatus below 32.
pub digit-m_trap_status :
    (m priv k : ℕ)
    → priv < 4
    → k < 32
    → digit (m_trap_status m priv) k ≡ (
        if k == 7
        then digit m 3
        else if k == 11
        then priv % 2
        else if k == 12
        then priv / 2
        else if k == 3
        then 0
        else digit m k)
unfolding m_trap_status
digit-m_trap_status m priv k hp h = ground (
  arith,
  digit-mod 32 k (bit_or (and_not m m_status_mask) (bit_or (digit m 3 * 2 ^ 7) (priv * 2 ^ 11))) h,
  digit-bit_or k (and_not m m_status_mask) (bit_or (digit m 3 * 2 ^ 7) (priv * 2 ^ 11)),
  digit-bit_or k (digit m 3 * 2 ^ 7) (priv * 2 ^ 11),
  digit-and_not k m m_status_mask,
  m_mask_digit k h,
  digit-shl_bit 7 k (digit m 3) (omega arith),
  digit-shl_pair 11 k priv hp,
)

-- A return by mret restores MIE from MPIE, sets MPIE, clears MPP, and keeps the rest of the digits
-- of mstatus below 32.
pub digit-mret_status :
    (m k : ℕ)
    → k < 32
    → digit (mret_status m) k ≡ (
        if k == 3
        then digit m 7
        else if k == 7
        then 1
        else if k == 11 || k == 12
        then 0
        else digit m k)
unfolding mret_status
digit-mret_status m k h = ground (
  arith,
  digit-mod 32 k
      (bit_or (and_not m m_status_mask) (bit_or (bit_or (digit m 7 * 2 ^ 3) (1 * 2 ^ 7)) 0)) h,
  digit-bit_or k (and_not m m_status_mask) (bit_or (bit_or (digit m 7 * 2 ^ 3) (1 * 2 ^ 7)) 0),
  digit-bit_or k (bit_or (digit m 7 * 2 ^ 3) (1 * 2 ^ 7)) 0,
  digit-bit_or k (digit m 7 * 2 ^ 3) (1 * 2 ^ 7),
  digit-and_not k m m_status_mask,
  m_mask_digit k h,
  digit-shl_bit 3 k (digit m 7) (omega arith),
  digit-shl_bit 7 k 1 (omega arith),
  digit-shl_bit 0 k 0 (omega arith),
)
