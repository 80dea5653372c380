-- ===== src/Iss/Step/System.antt =====
-- sim/tools/iss.py, the SYSTEM branch of `ISS.step`: traps, returns, sfence.vma and CSR accesses.
use rv32im_5_stage_pipelined.Base.{
  ℕ, ◌+◌, ◌%◌, ◌^◌, bit_or, and_not, ◌==◌, not, ltb, field, test_bit, if◌then◌else◌,
}
use rv32im_5_stage_pipelined.Base.Int.{pos}
use rv32im_5_stage_pipelined.Iss.State.{
  Iss, Error, Result, ok, raised, ◌>>=◌, wr, set_pc, priv_u, priv_s, priv_m,
}
use rv32im_5_stage_pipelined.Iss.Csr.{csr_read, csr_write}
use rv32im_5_stage_pipelined.Iss.Trap.{trap, mret, sret}
use rv32im_5_stage_pipelined.Iss.Fields.{rd_of, funct3_of, rs1_of, funct7_of}

abbrev pub mcause_illegal : ℕ
mcause_illegal = 2

abbrev pub mcause_breakpoint : ℕ
mcause_breakpoint = 3

-- The dict from privilege modes to causes, which has no entry for the reserved mode 2.
unfoldable pub ecall_cause : ℕ → Result ℕ
ecall_cause priv =
    if priv == priv_m
    then ok 11
    else if priv == priv_s
    then ok 9
    else if priv == priv_u
    then ok 8
    else raised (Error.key_error priv)

-- The value that csrrw, csrrs or csrrc writes; `op` is the low part of funct3.
unfoldable pub csr_result : ℕ → ℕ → ℕ → ℕ
csr_result op old src = if op == 1 then src else if op == 2 then bit_or old src else and_not old src

unfoldable pub step_csr : ℕ → Iss → Result Iss
step_csr word s =
    let csr_addr = field word 20 12 in
    let f3 = funct3_of word in
    let src = if test_bit f3 2 then rs1_of word else s.regs (rs1_of word) in
    let old = csr_read csr_addr s in
    if ltb s.priv_mode (field csr_addr 8 2)
    then ok (trap mcause_illegal 0 s)
    else ok (
        set_pc (s.pc + 4)
          (wr (rd_of word) (pos old) (csr_write csr_addr (csr_result (f3 % 2 ^ 2) old src) s)))

-- funct3 = 0
unfoldable pub step_privileged : ℕ → Iss → Result Iss
step_privileged word s =
    let csr_addr = field word 20 12 in
    if funct7_of word == 0b0001001
    then if s.priv_mode == priv_u then ok (trap mcause_illegal 0 s) else ok (set_pc (s.pc + 4) s)
    else if csr_addr == 0
    then (ecall_cause s.priv_mode >>= λ cause. ok (trap cause 0 s))
    else if csr_addr == 1
    then ok (trap mcause_breakpoint 0 s)
    else if csr_addr == 0x302
    then if not (s.priv_mode == priv_m) then ok (trap mcause_illegal 0 s) else ok (mret s)
    else if csr_addr == 0x102
    then if s.priv_mode == priv_u then ok (trap mcause_illegal 0 s) else ok (sret s)
    else ok (trap mcause_illegal 0 s)

unfoldable pub step_system : ℕ → Iss → Result Iss
unfolding step_privileged step_csr
step_system word s = if funct3_of word == 0 then step_privileged word s else step_csr word s
