-- ===== src/Iss/Trap.antt =====
-- sim/tools/iss.py, `trap`, `mret` and `sret`: the privilege stack in mstatus.
pub mod Status
pub mod Return
use rv32im_5_stage_pipelined.Base.{
  ℕ, ◌+◌, ◌*◌, ◌%◌, ◌^◌, bit_or, Bool, ◌==◌, ◌&&◌, not, ◌<<<◌, digit, field, test_bit, and_not,
  if◌then◌else◌,
}
use rv32im_5_stage_pipelined.Base.Int.{pos}
use rv32im_5_stage_pipelined.Iss.Word.{u32}
use rv32im_5_stage_pipelined.Iss.State.{Iss, update, priv_u, priv_s, priv_m}
use rv32im_5_stage_pipelined.Iss.Csr.{
  csr_mstatus, csr_mideleg, csr_medeleg, csr_sepc, csr_scause, csr_stval, csr_stvec, csr_mepc,
  csr_mcause, csr_mtval, csr_mtvec, s_status_mask,
}

-- MIE(3), MPIE(7) and MPP(11).
abbrev pub m_status_mask : ℕ
m_status_mask = 2 ^ 3 + 2 ^ 7 + 3 * 2 ^ 11

-- Delegated to S: never from M, and then by the digit of the cause in mideleg or medeleg.
unfoldable pub delegated : ℕ → Iss → Bool
delegated cause s =
    let is_interrupt = test_bit cause 31 in
    let low_cause = cause % 2 ^ 5 in
    let deleg = if is_interrupt then s.csr csr_mideleg else s.csr csr_medeleg in
    not (s.priv_mode == priv_m) && test_bit deleg low_cause

unfoldable pub s_trap_status : ℕ → ℕ → ℕ
s_trap_status m priv =
    let sie = digit m 1 in
    u32 (pos (bit_or (and_not m s_status_mask) (bit_or (sie <<< 5) ((priv % 2 ^ 1) <<< 8))))

unfoldable pub m_trap_status : ℕ → ℕ → ℕ
m_trap_status m priv =
    let mie = digit m 3 in
    u32 (pos (bit_or (and_not m m_status_mask) (bit_or (mie <<< 7) (priv <<< 11))))

unfoldable pub trap_to_s : ℕ → ℕ → Iss → Iss
trap_to_s cause tval s =
    let csr1 = update s.csr csr_sepc s.pc in
    let csr2 = update csr1 csr_scause (u32 (pos cause)) in
    let csr3 = update csr2 csr_stval (u32 (pos tval)) in
    let m = s.csr csr_mstatus in
    let csr4 = update csr3 csr_mstatus (s_trap_status m s.priv_mode) in
    record s { csr = csr4; priv_mode = priv_s; pc = csr4 csr_stvec }

unfoldable pub trap_to_m : ℕ → ℕ → Iss → Iss
trap_to_m cause tval s =
    let csr1 = update s.csr csr_mepc s.pc in
    let csr2 = update csr1 csr_mcause (u32 (pos cause)) in
    let csr3 = update csr2 csr_mtval (u32 (pos tval)) in
    let m = s.csr csr_mstatus in
    let csr4 = update csr3 csr_mstatus (m_trap_status m s.priv_mode) in
    record s { csr = csr4; priv_mode = priv_m; pc = csr4 csr_mtvec }

unfoldable pub trap : ℕ → ℕ → Iss → Iss
trap cause tval s = if delegated cause s then trap_to_s cause tval s else trap_to_m cause tval s

unfoldable pub mret_status : ℕ → ℕ
mret_status m =
    let mpie = digit m 7 in
    u32 (
      pos
        (bit_or (and_not m m_status_mask) (bit_or (bit_or (mpie <<< 3) (1 <<< 7)) (priv_u <<< 11))))

unfoldable pub mret : Iss → Iss
mret s =
    let m = s.csr csr_mstatus in
    record s {
      csr = update s.csr csr_mstatus (mret_status m);
      priv_mode = field m 11 2;
      pc = s.csr csr_mepc;
    }

unfoldable pub sret_status : ℕ → ℕ
sret_status m =
    let spie = digit m 5 in
    u32 (pos (bit_or (and_not m s_status_mask) (bit_or (spie <<< 1) (1 <<< 5))))

unfoldable pub sret : Iss → Iss
sret s =
    let m = s.csr csr_mstatus in
    record s {
      csr = update s.csr csr_mstatus (sret_status m);
      priv_mode = digit m 8;
      pc = s.csr csr_sepc;
    }
