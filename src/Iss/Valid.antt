-- ===== src/Iss/Valid.antt =====
-- sim/tools/iss.py, the well-formed states of `ISS`, with the writes, traps, returns and stores.
pub mod Step
pub mod Dispatch
pub mod Run
use native.Mathlib.Nat.{one-le-pow}
use rv32im_5_stage_pipelined.Base.{
  ℕ, ◌+◌, ◌-◌, ◌*◌, ◌/◌, ◌%◌, ◌^◌, ◌≤◌, ◌<◌, ◌≡◌, ◌≢◌, refl, arith, Bool-cases, inl, inr, ◌==◌, leb,
  if◌then◌else◌, zero, suc, bit_or, ap, Bool, true, false,
}
use rv32im_5_stage_pipelined.Base.Int.{ℤ, pos, low_bits}
use rv32im_5_stage_pipelined.Iss.Word.Laws.{low_bits-lt}
use rv32im_5_stage_pipelined.Iss.State.{
  Iss, Result, ok, raised, wr, set_pc, set_freg, set_fflags, update, new, priv_m, uxlen,
}
use rv32im_5_stage_pipelined.Iss.Csr.{csr_write}
use rv32im_5_stage_pipelined.Iss.Trap.{trap, trap_to_s, trap_to_m, mret, sret}
use rv32im_5_stage_pipelined.Iss.Memory.{mmio_base, store_mem_byte, store_loop}

pub record IsValid (s : Iss) : Type 0 where
  -- register 0 reads as 0
  pub zero_reg : s.regs 0 ≡ 0
  -- every register has XLEN digits, every byte 8
  pub regs_fit : (r : ℕ) → s.regs r < 2 ^ s.xlen
  pub bytes_fit : (a : ℕ) → s.mem a < 2 ^ 8
  pub flags_fit : s.fflags < 2 ^ 5
  pub frm_fits : s.frm < 2 ^ 3
  pub mode_fits : s.priv_mode < 2 ^ 2

pub wr-IsValid : (rd : ℕ) (v : ℤ) (s : Iss) → IsValid s → IsValid (wr rd v s)
unfolding wr
wr-IsValid rd v s h = elim (Bool-cases (rd == 0)) [
  | inl e ↦ rw e h
  | inr e ↦ rw e (record {
    zero_reg = ground (arith, h.zero_reg);
    regs_fit = λ r. ground (arith, h.regs_fit r, low_bits-lt s.xlen v);
    bytes_fit = h.bytes_fit;
    flags_fit = h.flags_fit;
    frm_fits = h.frm_fits;
    mode_fits = h.mode_fits;
  })
]

-- What an operation leaves valid that changes only the pc, the CSR dict and the mode.
same_files-IsValid :
    (s t : Iss)
    → t.regs ≡ s.regs
    → t.xlen ≡ s.xlen
    → t.mem ≡ s.mem
    → t.fflags < 2 ^ 5
    → t.frm < 2 ^ 3
    → t.priv_mode < 2 ^ 2
    → IsValid s
    → IsValid t
same_files-IsValid s t er ex em hf hr hm h = record {
  zero_reg = rw er h.zero_reg;
  regs_fit = λ r. rw (er, ex) (h.regs_fit r);
  bytes_fit = λ a. rw em (h.bytes_fit a);
  flags_fit = hf;
  frm_fits = hr;
  mode_fits = hm;
}

pub set_pc-IsValid : (pc' : ℕ) (s : Iss) → IsValid s → IsValid (set_pc pc' s)
set_pc-IsValid pc' s h =
    same_files-IsValid s (set_pc pc' s) refl refl refl h.flags_fit h.frm_fits h.mode_fits h

pub trap-IsValid : (cause tval : ℕ) (s : Iss) → IsValid s → IsValid (trap cause tval s)
unfolding trap trap_to_s trap_to_m
trap-IsValid cause tval s h =
    same_files-IsValid s (trap cause tval s) (ground arith) (ground arith) (ground arith)
      (ground (arith, h.flags_fit)) (ground (arith, h.frm_fits)) (ground arith) h

pub mret-IsValid : (s : Iss) → IsValid s → IsValid (mret s)
unfolding mret
mret-IsValid s h =
    same_files-IsValid s (mret s) refl refl refl h.flags_fit h.frm_fits (omega arith) h

pub sret-IsValid : (s : Iss) → IsValid s → IsValid (sret s)
unfolding sret
sret-IsValid s h =
    same_files-IsValid s (sret s) refl refl refl h.flags_fit h.frm_fits (omega arith) h

pub csr_write-IsValid : (addr val : ℕ) (s : Iss) → IsValid s → IsValid (csr_write addr val s)
unfolding csr_write
csr_write-IsValid addr val s h =
    same_files-IsValid s (csr_write addr val s) (ground arith) (ground arith) (ground arith)
      (ground (arith, h.flags_fit)) (ground (arith, h.frm_fits)) (ground (arith, h.mode_fits)) h

pub set_freg-IsValid : (rd v : ℕ) (s : Iss) → IsValid s → IsValid (set_freg rd v s)
set_freg-IsValid rd v s h = record {
  zero_reg = h.zero_reg;
  regs_fit = h.regs_fit;
  bytes_fit = h.bytes_fit;
  flags_fit = h.flags_fit;
  frm_fits = h.frm_fits;
  mode_fits = h.mode_fits;
}

pub set_fflags-IsValid : (flags : ℕ) (s : Iss) → IsValid s → IsValid (set_fflags flags s)
unfolding set_fflags
set_fflags-IsValid flags s h =
    same_files-IsValid s (set_fflags flags s) refl refl refl (omega arith) h.frm_fits h.mode_fits h

pub store_mem_byte-IsValid :
    (addr val : ℕ) (s : Iss) → IsValid s → IsValid (store_mem_byte addr val s)
unfolding store_mem_byte
store_mem_byte-IsValid addr val s h = elim (Bool-cases (leb mmio_base addr)) [
  | inl e ↦ rw e h
  | inr e ↦ rw e (record {
    zero_reg = h.zero_reg;
    regs_fit = h.regs_fit;
    bytes_fit = λ a. ground (arith, h.bytes_fit a);
    flags_fit = h.flags_fit;
    frm_fits = h.frm_fits;
    mode_fits = h.mode_fits;
  })
]

pub store_loop-IsValid :
    (left i addr val : ℕ) (s : Iss) → IsValid s → IsValid (store_loop left i addr val s)
unfolding store_loop
store_loop-IsValid zero i addr val s h = h
store_loop-IsValid (suc left) i addr val s h =
    store_loop-IsValid left (i + 1) addr val (store_mem_byte (addr + i) (val / 2 ^ (8 * i)) s)
      (store_mem_byte-IsValid (addr + i) (val / 2 ^ (8 * i)) s h)

pub new-IsValid : (mem_size xlen : ℕ) → mem_size < 2 ^ xlen → IsValid (new mem_size xlen)
unfolding new
new-IsValid mem_size xlen h = record {
  zero_reg = refl;
  regs_fit = λ r. ground (arith, one-le-pow xlen 2);
  bytes_fit = λ a. omega arith;
  flags_fit = omega arith;
  frm_fits = omega arith;
  mode_fits = omega arith;
}
