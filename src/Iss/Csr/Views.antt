-- ===== src/Iss/Csr/Views.antt =====
-- sim/tools/iss.py, sstatus as the S-mode view of mstatus.
use rv32im_5_stage_pipelined.Base.{
  ℕ, ◌*◌, ◌^◌, ◌<◌, ◌≡◌, refl, arith, ◌==◌, ◌||◌, digit, bit_or, bit_and, and_not, if◌then◌else◌,
}
use rv32im_5_stage_pipelined.Base.Bits.Digit.{
  digit-bit_or, digit-bit_and, digit-and_not, digit-mod, digit-shl_bit, all_equal,
}
use rv32im_5_stage_pipelined.Iss.State.{Iss}
use rv32im_5_stage_pipelined.Iss.Csr.{
  s_status_mask, write_view, view3, csr_mstatus, csr_sstatus, csr_read, csr_write,
}

pub s_mask_digit :
    (k : ℕ) → k < 32 → digit s_status_mask k ≡ (if k == 1 || k == 5 || k == 8 then 1 else 0)
s_mask_digit k h =
    all_equal 32 (λ y. digit s_status_mask y) (λ y. if y == 1 || y == 5 || y == 8 then 1 else 0) k
      refl h

digit-write_view :
    (mask old val k : ℕ)
    → k < 32
    → digit (write_view mask old val) k ≡ (if digit mask k == 1 then digit val k else digit old k)
digit-write_view mask old val k h = ground (
  arith,
  digit-mod 32 k (bit_or (and_not old mask) (bit_and val mask)) h,
  digit-bit_or k (and_not old mask) (bit_and val mask),
  digit-and_not k old mask,
  digit-bit_and k val mask,
)

digit-s_view :
    (v k : ℕ) → digit (view3 1 5 8 v) k ≡ (if k == 1 || k == 5 || k == 8 then digit v k else 0)
digit-s_view v k =
    rw
      (
        digit-bit_or k (bit_or (digit v 1 * 2 ^ 1) (digit v 5 * 2 ^ 5)) (digit v 8 * 2 ^ 8),
        digit-bit_or k (digit v 1 * 2 ^ 1) (digit v 5 * 2 ^ 5),
        digit-shl_bit 1 k (digit v 1) (omega arith),
        digit-shl_bit 5 k (digit v 5) (omega arith),
        digit-shl_bit 8 k (digit v 8) (omega arith),
      )
      (ground arith)

-- A write of sstatus sets SIE, SPIE and SPP of mstatus to the value's digits and keeps the other
-- digits of mstatus below 32, and a read of sstatus then gives the three digits that were written
-- and 0 for the other digits below 32.
pub csr_write-sstatus :
    (val k : ℕ) (s : Iss)
    → k < 32
    → (digit ((csr_write csr_sstatus val s).csr csr_mstatus) k
        ≡ (if k == 1 || k == 5 || k == 8 then digit val k else digit (s.csr csr_mstatus) k))
      × (digit (csr_read csr_sstatus (csr_write csr_sstatus val s)) k
          ≡ (if k == 1 || k == 5 || k == 8 then digit val k else 0))
unfolding csr_write csr_read
csr_write-sstatus val k s h =
    let new = write_view s_status_mask (s.csr csr_mstatus) val in
    let stored = digit-write_view s_status_mask (s.csr csr_mstatus) val k h in
    let mask = s_mask_digit k h in
    (ground (arith, stored, mask), ground (arith, stored, mask, digit-s_view new k))
