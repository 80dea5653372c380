-- ===== src/Iss/Trap/Return.antt =====
-- sim/tools/iss.py, a trap and the return from it together, and where a trap may go.
use rv32im_5_stage_pipelined.Base.{
  ℕ, ◌+◌, ◌≤◌, ◌<◌, ◌≡◌, ◌≢◌, refl, arith, true, false, digit, Bool-cases, inl, inr, ◌⊎◌,
}
use rv32im_5_stage_pipelined.Iss.State.{Iss, priv_m, priv_s}
use rv32im_5_stage_pipelined.Iss.Csr.{csr_mstatus, csr_mepc, csr_sepc, csr_mtvec, csr_stvec}
use rv32im_5_stage_pipelined.Iss.Trap.{
  trap, trap_to_m, trap_to_s, delegated, mret, sret, m_trap_status, s_trap_status,
}
use rv32im_5_stage_pipelined.Iss.Trap.Status.{
  digit-m_trap_status, digit-mret_status, digit-s_trap_status, digit-sret_status,
}

-- The mode, the pc and every digit of mstatus that a handler's return gives back.
pub record IsResumed (mpie mpp : ℕ) (s t : Iss) : Type 0 where
  pub same_pc : t.pc ≡ s.pc
  pub same_mode : t.priv_mode ≡ s.priv_mode
  pub same_status :
      (k : ℕ)
      → k < 32
      → k ≢ mpie
      → k ≢ mpp
      → k ≢ mpp + 1
      → digit (t.csr csr_mstatus) k ≡ digit (s.csr csr_mstatus) k

pub mret-trap_to_m :
    (cause tval : ℕ) (s : Iss) → s.priv_mode < 4 → IsResumed 7 11 s (mret (trap_to_m cause tval s))
unfolding mret trap_to_m
mret-trap_to_m cause tval s h =
    let m = s.csr csr_mstatus in
    record {
      same_pc = refl;
      same_mode = omega (
        arith,
        digit-m_trap_status m s.priv_mode 11 h (omega arith),
        digit-m_trap_status m s.priv_mode 12 h (omega arith),
      );
      same_status = λ k hk n7 n11 n12. ground (
        arith,
        digit-mret_status (m_trap_status m s.priv_mode) k hk,
        digit-m_trap_status m s.priv_mode k h hk,
        digit-m_trap_status m s.priv_mode 7 h (omega arith),
      );
    }

-- A trap that is not delegated, from a mode of two digits, is undone by `mret`: the pc and the mode
-- are those before the trap, and every digit of mstatus below 32 is, but for MPIE and MPP.
pub mret-trap :
    (cause tval : ℕ) (s : Iss)
    → s.priv_mode < 4
    → delegated cause s ≡ false
    → IsResumed 7 11 s (mret (trap cause tval s))
unfolding trap
mret-trap cause tval s h e = rw e (mret-trap_to_m cause tval s h)

-- A delegated trap from U or S is undone by `sret`: the pc and the mode are those before the trap,
-- and every digit of mstatus below 32 is, but for the digits 5, 8 and 9.
pub sret-trap :
    (cause tval : ℕ) (s : Iss)
    → s.priv_mode < 2
    → delegated cause s ≡ true
    → IsResumed 5 8 s (sret (trap cause tval s))
unfolding trap sret trap_to_s
sret-trap cause tval s h e =
    let m = s.csr csr_mstatus in
    rw e (record {
      same_pc = refl;
      same_mode = omega (arith, digit-s_trap_status m s.priv_mode 8 (omega arith));
      same_status = λ k hk n5 n8 n9. ground (
        arith,
        digit-sret_status (s_trap_status m s.priv_mode) k hk,
        digit-s_trap_status m s.priv_mode k hk,
        digit-s_trap_status m s.priv_mode 5 (omega arith),
      );
    })

-- The mode, the pc and the interrupt digit after a trap, and what it leaves alone.
pub record IsTrapped (s t : Iss) : Type 0 where
  pub no_demotion : s.priv_mode ≤ t.priv_mode
  pub machine_stays : s.priv_mode ≡ priv_m → t.priv_mode ≡ priv_m
  pub masked :
      ((t.priv_mode ≡ priv_s)
        × (digit (t.csr csr_mstatus) 1 ≡ 0)
        × (t.pc ≡ s.csr csr_stvec)
        × (t.csr csr_sepc ≡ s.pc))
      ⊎ ((t.priv_mode ≡ priv_m)
          × (digit (t.csr csr_mstatus) 3 ≡ 0)
          × (t.pc ≡ s.csr csr_mtvec)
          × (t.csr csr_mepc ≡ s.pc))
  pub same_regs : t.regs ≡ s.regs
  pub same_fregs : t.fregs ≡ s.fregs
  pub same_mem : t.mem ≡ s.mem

trap_to_s-IsTrapped :
    (cause tval : ℕ) (s : Iss) → s.priv_mode < 2 → IsTrapped s (trap_to_s cause tval s)
unfolding trap_to_s
trap_to_s-IsTrapped cause tval s h = record {
  no_demotion = omega arith;
  machine_stays = λ e. absurd (omega arith);
  masked =
      inl (refl, digit-s_trap_status (s.csr csr_mstatus) s.priv_mode 1 (omega arith), refl, refl);
  same_regs = refl;
  same_fregs = refl;
  same_mem = refl;
}

trap_to_m-IsTrapped :
    (cause tval : ℕ) (s : Iss) → s.priv_mode < 4 → IsTrapped s (trap_to_m cause tval s)
unfolding trap_to_m
trap_to_m-IsTrapped cause tval s h = record {
  no_demotion = omega arith;
  machine_stays = λ e. refl;
  masked =
      inr (refl, digit-m_trap_status (s.csr csr_mstatus) s.priv_mode 3 h (omega arith), refl, refl);
  same_regs = refl;
  same_fregs = refl;
  same_mem = refl;
}

machine_not_delegated : (cause : ℕ) (s : Iss) → delegated cause s ≡ true → s.priv_mode ≢ priv_m
unfolding delegated
machine_not_delegated cause s e h = ground arith

-- From a mode of two digits other than the reserved 2, every trap goes to S or M, at that level's
-- vector with its interrupts off and the pc saved, never to a mode below the one it came from,
-- never from M to S, and leaves registers and memory alone.
pub trap-IsTrapped :
    (cause tval : ℕ) (s : Iss) → s.priv_mode < 4 → s.priv_mode ≢ 2 → IsTrapped s (trap cause tval s)
unfolding trap
trap-IsTrapped cause tval s h n2 = elim (Bool-cases (delegated cause s)) [
  | inl e ↦
      let nm = machine_not_delegated cause s e in
      rw e (trap_to_s-IsTrapped cause tval s (omega arith))
  | inr e ↦ rw e (trap_to_m-IsTrapped cause tval s h)
]
