-- ===== src/Iss/Step/Integer.antt =====
-- sim/tools/iss.py, the integer branches of `ISS.step`.
use rv32im_5_stage_pipelined.Base.{
  ℕ, ◌+◌, ◌*◌, ◌/◌, bit_or, none, some, ◌==◌, ◌<<<◌, ◌>>>◌, field, test_bit, if◌then◌else◌,
}
use rv32im_5_stage_pipelined.Base.Int.{ℤ, pos, ◌+ℤ◌}
use rv32im_5_stage_pipelined.Iss.Word.{s32}
use rv32im_5_stage_pipelined.Iss.State.{Iss, Error, Result, ok, raised, ◌>>=◌, uxlen, wr, set_pc}
use rv32im_5_stage_pipelined.Iss.Memory.{
  load_mem_byte, store_mem_byte, load_half, load_word, load_loop, store_loop,
}
use rv32im_5_stage_pipelined.Iss.Mmu.{Access, translate}
use rv32im_5_stage_pipelined.Iss.Alu.{op_r, op_32, ctz, op_imm, op_imm_32, branch_taken}
use rv32im_5_stage_pipelined.Iss.Fields.{
  rd_of, funct3_of, rs1_of, rs2_of, funct7_of, imm_i_of, imm_s_of, imm_b_of, imm_j_of,
}

abbrev pub next_pc : Iss → ℕ
next_pc s = s.pc + 4

abbrev pub reg_a : ℕ → Iss → ℕ
reg_a word s = s.regs (rs1_of word)

abbrev pub reg_b : ℕ → Iss → ℕ
reg_b word s = s.regs (rs2_of word)

-- `self.wr(rd, res)` and `self.pc = next_pc`
unfoldable pub retire : ℕ → ℤ → Iss → Iss
retire word res s = set_pc (next_pc s) (wr (rd_of word) res s)

unfoldable pub step_r : ℕ → Iss → Result Iss
unfolding retire
step_r word s = do
  res ← op_r s.xlen (funct3_of word) (funct7_of word) (reg_a word s) (reg_b word s)
  ok (retire word (pos res) s)

-- The word forms sign-extend their 32-digit result.
unfoldable pub step_32 : ℕ → Iss → Result Iss
unfolding retire
step_32 word s = do
  res32 ← op_32 (funct3_of word) (funct7_of word) (reg_a word s) (reg_b word s)
  ok (retire word (s32 (pos res32)) s)

unfoldable pub step_ctz : ℕ → Iss → Result Iss
unfolding retire
step_ctz word s = ok (retire word (pos (ctz s.xlen (reg_a word s))) s)

unfoldable pub step_imm : ℕ → Iss → Result Iss
unfolding retire
step_imm word s = do
  res ← op_imm s.xlen (funct3_of word) word (reg_a word s) (imm_i_of word)
  ok (retire word (pos res) s)

unfoldable pub step_imm_32 : ℕ → Iss → Result Iss
unfolding retire
step_imm_32 word s = do
  res32 ← op_imm_32 (funct3_of word) (funct7_of word) word (reg_a word s) (imm_i_of word)
  ok (retire word (s32 (pos res32)) s)

-- Translate the address, and stop where that faults.
unfoldable pub access : ℤ → Access → (ℕ → Iss → Result Iss) → Iss → Result Iss
access vaddr kind body s =
    let (pa, s') = translate (uxlen s vaddr) kind s in
    elim pa [ none ↦ ok s' | some addr ↦ body addr s' ]

unfoldable pub load_value : ℕ → ℕ → Iss → Result ℤ
load_value f3 addr s =
    let v8 = load_mem_byte addr s in
    let v16 = load_half addr s in
    if f3 == 0
    then ok (s32 (pos (bit_or v8 (if test_bit v8 7 then 0xFFFFFF00 else 0))))
    else if f3 == 1
    then ok (s32 (pos (bit_or v16 (if test_bit v16 15 then 0xFFFF0000 else 0))))
    else if f3 == 2
    then ok (s32 (pos (load_word addr s)))
    else if f3 == 4
    then ok (pos v8)
    else if f3 == 5
    then ok (pos v16)
    else if f3 == 3
    then ok (pos (load_loop 8 0 addr 0 s))
    else if f3 == 6
    then ok (pos (load_word addr s))
    else raised (Error.unknown_load f3)

unfoldable pub step_load : ℕ → Iss → Result Iss
unfolding access ◌+ℤ◌
step_load word s =
    access (pos (reg_a word s) +ℤ imm_i_of word) Access.load
      (λ addr s'. do
        res ← load_value (funct3_of word) addr s'
        ok (set_pc (next_pc s) (wr (rd_of word) res s')))
      s

unfoldable pub store_value : ℕ → ℕ → ℕ → Iss → Result Iss
store_value f3 addr b s =
    if f3 == 0
    then ok (store_mem_byte addr b s)
    else if f3 == 1
    then ok (store_mem_byte (addr + 1) (b >>> 8) (store_mem_byte addr b s))
    else if f3 == 2
    then ok (store_loop 4 0 addr b s)
    else if f3 == 3
    then ok (store_loop 8 0 addr b s)
    else raised (Error.unknown_store f3)

unfoldable pub step_store : ℕ → Iss → Result Iss
unfolding access ◌+ℤ◌
step_store word s =
    access (pos (reg_a word s) +ℤ imm_s_of word) Access.store
      (λ addr s'. do
        s'' ← store_value (funct3_of word) addr (reg_b word s) s'
        ok (set_pc (next_pc s) s''))
      s

unfoldable pub step_branch : ℕ → Iss → Result Iss
unfolding ◌+ℤ◌
step_branch word s = ok (
    set_pc
      (if branch_taken s.xlen (funct3_of word) (reg_a word s) (reg_b word s)
        then uxlen s (pos s.pc +ℤ imm_b_of word)
        else next_pc s)
      s)

unfoldable pub step_jal : ℕ → Iss → Result Iss
unfolding ◌+ℤ◌
step_jal word s =
    ok (set_pc (uxlen s (pos s.pc +ℤ imm_j_of word)) (wr (rd_of word) (pos (next_pc s)) s))

-- `(A + imm_i) & ~1`: the sum with its lowest digit cleared.
abbrev pub clear_lowest : ℤ → ℤ
clear_lowest (pos n) = pos (n / 2 * 2)
clear_lowest (ℤ.negsuc n) = ℤ.negsuc (n / 2 * 2 + 1)

unfoldable pub step_jalr : ℕ → Iss → Result Iss
unfolding ◌+ℤ◌
step_jalr word s =
    let target = uxlen s (clear_lowest (pos (reg_a word s) +ℤ imm_i_of word)) in
    ok (set_pc target (wr (rd_of word) (pos (next_pc s)) s))

-- `word & 0xFFFFF000`, sign-extended from 32 digits.
unfoldable pub upper_imm : ℕ → ℤ
unfolding s32
upper_imm word = s32 (pos (field word 12 20 <<< 12))

unfoldable pub step_lui : ℕ → Iss → Result Iss
unfolding retire upper_imm
step_lui word s = ok (retire word (upper_imm word) s)

unfoldable pub step_auipc : ℕ → Iss → Result Iss
unfolding retire upper_imm ◌+ℤ◌
step_auipc word s = ok (retire word (pos (uxlen s (pos s.pc +ℤ upper_imm word))) s)
