-- ===== src/Iss/Run/Hazards.antt =====
-- sim/tools/iss.py, two corners of `ISS`: the reserved privilege mode, and a fetch page fault whose
-- handler cannot be fetched either.
use rv32im_5_stage_pipelined.Base.{
  ℕ, zero, suc, ◌+◌, ◌*◌, ◌%◌, ◌^◌, ◌<◌, ◌≡◌, refl, ap, arith, true, Bool-cases, inl, inr, Option,
  none, some, List, field, test_bit, leb, ltb, lt→ltb, ne→==, eq→==, ◌∙◌, ◌≢◌, bit_or,
}
use rv32im_5_stage_pipelined.Iss.State.{Iss, Error, raised, priv_s, priv_m}
use rv32im_5_stage_pipelined.Iss.Csr.{csr_mstatus, csr_satp, csr_medeleg}
use rv32im_5_stage_pipelined.Iss.Trap.{trap, trap_to_s, delegated, mret}
use rv32im_5_stage_pipelined.Iss.Memory.{mmio_base, read_pte, load_word, load_mem_byte}
use rv32im_5_stage_pipelined.Iss.Mmu.{
  Access, translate, translate_sv32, walk_sv32, resolve_sv32, or_fault,
}
use rv32im_5_stage_pipelined.Iss.Step.{step, dispatch, step_system, step_privileged, ecall_cause}
use rv32im_5_stage_pipelined.Iss.Run.{
  out_of_fuel, round, redirect, due, fetch, fetched, cleared, run_loop, run,
}

-- After an `mret` that takes the reserved mode 2 from mstatus.MPP, an `ecall` raises a `KeyError`.
pub step-mret-reserved :
    (s : Iss) → field (s.csr csr_mstatus) 11 2 ≡ 2 → step 0x73 (mret s) ≡ raised (Error.key_error 2)
unfolding step dispatch step_system step_privileged ecall_cause mret
step-mret-reserved s h = rw h refl

-- S-mode with paging on, no valid entry in memory, and page faults of fetches delegated to S.
pub record IsStuck (s : Iss) : Type 0 where
  pub rv32 : s.xlen ≡ 32
  pub in_s : s.priv_mode ≡ priv_s
  pub paged : s.csr csr_satp ≡ 2 ^ 31
  pub delegates : s.csr csr_medeleg ≡ 2 ^ 12
  pub blank : (a : ℕ) → s.mem a ≡ 0
  pub quiet : s.pending_interrupt ≡ none

load_mem_byte-blank : (addr : ℕ) (s : Iss) → IsStuck s → load_mem_byte addr s ≡ 0
unfolding load_mem_byte
load_mem_byte-blank addr s h = elim (Bool-cases (leb mmio_base addr)) [
  | inl e ↦ rw e refl
  | inr e ↦ rw e (h.blank _)
]

read_pte-blank : (addr : ℕ) (s : Iss) → IsStuck s → read_pte addr s ≡ 0
unfolding read_pte load_word
read_pte-blank addr s h =
    let byte = λ (i : ℕ). load_mem_byte-blank (addr % 2 ^ 32 + i) s h in
    rw (load_mem_byte-blank (addr % 2 ^ 32) s h, byte 1, byte 2, byte 3) refl

resolve-blank : (vaddr pte0 : ℕ) (s : Iss) → resolve_sv32 vaddr Access.fetch 0 pte0 s ≡ none
unfolding resolve_sv32
resolve-blank vaddr pte0 s = refl

walk-blank : (vaddr satp : ℕ) (s : Iss) → IsStuck s → walk_sv32 vaddr Access.fetch satp s ≡ none
unfolding walk_sv32
walk-blank vaddr satp s h =
    rw (read_pte-blank (bit_or (satp % 2 ^ 20 * 2 ^ 12) (field vaddr 22 10 * 2 ^ 2)) s h)
      (resolve-blank vaddr _ s)

faults : (vaddr : ℕ) (s : Iss) → or_fault none vaddr Access.fetch s ≡ (none, trap 12 vaddr s)
unfolding or_fault
faults vaddr s = refl

translate-blank :
    (vaddr : ℕ) (s : Iss)
    → IsStuck s
    → translate vaddr Access.fetch s ≡ (none, trap 12 (vaddr % 2 ^ 32) s)
unfolding translate translate_sv32
translate-blank vaddr s h =
    let mode : test_bit (s.csr csr_satp) 31 ≡ true = ap (λ (x : ℕ). test_bit x 31) h.paged in
    rw (ne→== s.priv_mode priv_m below, eq→== s.xlen 32 h.rv32, mode)
      (ap (λ (o : Option ℕ). or_fault o (vaddr % 2 ^ 32) Access.fetch s)
          (walk-blank (vaddr % 2 ^ 32) (s.csr csr_satp) s h)
        ∙ faults (vaddr % 2 ^ 32) s)
  where
    below : s.priv_mode ≢ priv_m
    below = omega (arith, h.in_s)

trap-IsStuck : (tval : ℕ) (s : Iss) → IsStuck s → IsStuck (trap 12 tval s)
unfolding trap delegated trap_to_s
trap-IsStuck tval s h =
    rw (h.in_s, h.delegates)
      (record {
        rv32 = h.rv32;
        in_s = refl;
        paged = h.paged;
        delegates = h.delegates;
        blank = h.blank;
        quiet = h.quiet;
      })

due-blank : (steps : ℕ) (s : Iss) → IsStuck s → due steps s ≡ none
unfolding due
due-blank steps s h = rw h.quiet refl

fetch-blank :
    (words : List ℕ) (s : Iss) → IsStuck s → fetch words s ≡ redirect (trap 12 (s.pc % 2 ^ 32) s)
unfolding fetch
fetch-blank words s h =
    ap
      (λ (r : Option ℕ × Iss). elim r.0 [
        | none ↦ redirect r.1
        | some fetch_addr ↦ fetched words fetch_addr r.1
      ])
      (translate-blank s.pc s h)

round-IsStuck :
    (words : List ℕ) (steps : ℕ) (s : Iss)
    → IsStuck s
    → round words steps s ≡ redirect (trap 12 (s.pc % 2 ^ 32) s)
unfolding round
round-IsStuck words steps s h =
    ap
      (λ (d : Option ℕ). elim d [
        | none ↦ fetch words s
        | some cause ↦ redirect (cleared (trap cause 0 s))
      ])
      (due-blank steps s h)
    ∙ fetch-blank words s h

run_loop-IsStuck :
    (fuel : ℕ) (words : List ℕ) (max_steps steps : ℕ) (s : Iss)
    → ltb steps max_steps ≡ true
    → IsStuck s
    → (s' : Iss) × (run_loop fuel words max_steps steps s ≡ out_of_fuel s') × IsStuck s'
unfolding run_loop
run_loop-IsStuck zero words max_steps steps s e h = (s, refl, h)
run_loop-IsStuck (suc fuel) words max_steps steps s e h =
    rw (e, run_loop, round-IsStuck words steps s h)
      (run_loop-IsStuck fuel words max_steps steps (trap 12 (s.pc % 2 ^ 32) s) e
        (trap-IsStuck (s.pc % 2 ^ 32) s h))

-- From a state in S-mode whose page table is blank and that delegates fetch page faults to S, the
-- run of any program with a positive step budget uses up any fuel, and leaves such a state again:
-- the budget does not stop it.
pub run-IsStuck :
    (fuel : ℕ) (words : List ℕ) (max_steps : ℕ) (s : Iss)
    → 0 < max_steps
    → IsStuck s
    → (s' : Iss) × (run fuel words max_steps s ≡ out_of_fuel s') × IsStuck s'
unfolding run
run-IsStuck fuel words max_steps s lt h =
    run_loop-IsStuck fuel words max_steps 0 s (lt→ltb 0 max_steps lt) h
