-- ===== src/Asm/Statement.antt =====
-- sim/tools/asm.py, `assemble`: the word of one statement, by its mnemonic.
pub mod Target
use rv32im_5_stage_pipelined.Base.{
  ℕ, zero, suc, ◌+◌, ◌-◌, ◌*◌, ◌%◌, ◌^◌, Bool, true, false, Option, none, some, List, [], ◌∷◌, ◌++◌,
  ◌==◌, if◌then◌else◌,
}
use rv32im_5_stage_pipelined.Base.Lists.{length, get_elem?}
use rv32im_5_stage_pipelined.Base.Int.{ℤ, pos, low_bits, ◌-ℤ◌}
use rv32im_5_stage_pipelined.Asm.Mnemonic.{IType, Branch, CsrOp}
use rv32im_5_stage_pipelined.Asm.Encode
use rv32im_5_stage_pipelined.Asm.Wide
use rv32im_5_stage_pipelined.Asm.Floats
use rv32im_5_stage_pipelined.Asm.Floats.{fp_arith_funct5, madd_opcode}
use rv32im_5_stage_pipelined.Asm.Text.{same, lower, strip, before, without_last, split_fields}
use rv32im_5_stage_pipelined.Asm.Table.{Mnemonic, mnemonic_of}
use rv32im_5_stage_pipelined.Asm.Operands.{
  Error, value_error, Result, ok, raised, ◌>>=◌, or_value_error, arg, reg, freg, number, address,
  base_register, csr_lookup, parse_rm,
}

-- The dict of labels, the newest entry first.
abbrev pub Labels : Type 0
Labels = List (List ℕ × ℕ)

unfoldable pub label_at : Labels → List ℕ → Option ℕ
label_at [] tok = none
label_at ((name, addr) ∷ labels) tok = elim (same name tok) [
  | true ↦ some addr
  | false ↦ label_at labels tok
]

unfoldable pub resolve : Labels → List ℕ → ℕ → Result ℤ
unfolding label_at strip number
resolve labels tok cur_addr = elim (label_at labels (strip tok)) [
  | some addr ↦ ok (pos addr -ℤ pos cur_addr)
  | none ↦ number (strip tok)
]

-- `reg(args[k])`, `freg(args[k])` and the number of `args[k]`.
unfoldable pub reg_at : List (List ℕ) → ℕ → Result ℕ
unfolding arg reg
reg_at args k = arg args k >>= reg

unfoldable pub freg_at : List (List ℕ) → ℕ → Result ℕ
unfolding arg freg
freg_at args k = arg args k >>= freg

unfoldable pub number_arg : List (List ℕ) → ℕ → Result ℤ
unfolding arg number
number_arg args k = arg args k >>= number

-- `reg(args[0]), reg(args[1]), reg(args[2])`
unfoldable pub with_regs : List (List ℕ) → (ℕ → ℕ → ℕ → ℕ) → Result ℕ
unfolding reg_at
with_regs args word = do
  rd ← reg_at args 0
  rs1 ← reg_at args 1
  rs2 ← reg_at args 2
  ok (word rd rs1 rs2)

-- `freg(args[1]), freg(args[2])` behind a destination.
unfoldable pub with_fregs : List (List ℕ) → Result ℕ → (ℕ → ℕ → ℕ → Result ℕ) → Result ℕ
unfolding freg_at
with_fregs args dest word = do
  rd ← dest
  rs1 ← freg_at args 1
  rs2 ← freg_at args 2
  word rd rs1 rs2

-- Two registers and an immediate.
unfoldable pub with_imm : List (List ℕ) → (ℕ → ℕ → ℤ → Option ℕ) → Result ℕ
unfolding reg_at number_arg
with_imm args word = do
  rd ← reg_at args 0
  rs1 ← reg_at args 1
  immv ← number_arg args 2
  or_value_error (word rd rs1 immv)

-- A register, and an offset with a base register.
unfoldable pub with_address : List (List ℕ) → Result ℕ → (ℕ → ℤ → ℕ → Option ℕ) → Result ℕ
unfolding arg address base_register number
with_address args first word = do
  rd ← first
  tok ← arg args 1
  m ← address tok
  rs1 ← base_register m
  offs ← number m.offset
  or_value_error (word rd offs rs1)

-- A register and the upper 20 digits.
unfoldable pub with_upper : List (List ℕ) → ℕ → Result ℕ
unfolding reg_at number_arg
with_upper args opcode = do
  rd ← reg_at args 0
  imm20 ← number_arg args 1
  or_value_error (Encode.u_type opcode rd imm20)

-- `reg(args[k]) if len(args) > k else 0`
unfoldable pub optional_reg : List (List ℕ) → ℕ → Result ℕ
unfolding reg
optional_reg args k = elim (get_elem? args k) [ none ↦ ok 0 | some tok ↦ reg tok ]

unfoldable pub encode_branch : Branch → Labels → ℕ → List (List ℕ) → Result ℕ
unfolding reg_at arg resolve
encode_branch mn labels cur_addr args = do
  rs1 ← reg_at args 0
  rs2 ← reg_at args 1
  tok ← arg args 2
  offset ← resolve labels tok cur_addr
  or_value_error (Encode.branch mn rs1 rs2 offset)

unfoldable pub encode_jal : Labels → ℕ → List (List ℕ) → Result ℕ
unfolding reg_at arg resolve
encode_jal labels cur_addr args = do
  rd ← reg_at args 0
  tok ← arg args 1
  offset ← resolve labels tok cur_addr
  or_value_error (Encode.jal rd offset)

unfoldable pub encode_csr_reg : CsrOp → List (List ℕ) → Result ℕ
unfolding reg_at arg csr_lookup
encode_csr_reg mn args = do
  rd ← reg_at args 0
  csr ← arg args 1
  rs1 ← reg_at args 2
  addr ← csr_lookup csr
  ok (Encode.csr_reg mn rd addr rs1)

unfoldable pub encode_csr_imm : CsrOp → List (List ℕ) → Result ℕ
unfolding reg_at arg csr_lookup number
encode_csr_imm mn args = do
  rd ← reg_at args 0
  csr ← arg args 1
  uimm ← arg args 2
  addr ← csr_lookup csr
  v ← number uimm
  or_value_error (Encode.csr_imm mn rd addr v)

-- The float instructions.
unfoldable pub encode_float : Mnemonic → List (List ℕ) → Result ℕ
unfolding with_address with_fregs freg_at reg_at parse_rm
encode_float Mnemonic.flw args = with_address args (freg_at args 0) Floats.flw
encode_float Mnemonic.fsw args = with_address args (freg_at args 0) Floats.fsw
encode_float (Mnemonic.fp_arith mn) args =
    with_fregs args (freg_at args 0) λ rd rs1 rs2.
      parse_rm args 3 >>= λ rm. ok (Floats.fp_r_type (fp_arith_funct5 mn) rd rs1 rs2 rm)
encode_float Mnemonic.fsqrt args = do
  rd ← freg_at args 0
  rs1 ← freg_at args 1
  rm ← parse_rm args 2
  ok (Floats.fp_sqrt rd rs1 rm)
encode_float (Mnemonic.fp_sgnj mn) args =
    with_fregs args (freg_at args 0) λ rd rs1 rs2. ok (Floats.fp_sgnj mn rd rs1 rs2)
encode_float (Mnemonic.fp_minmax mn) args =
    with_fregs args (freg_at args 0) λ rd rs1 rs2. ok (Floats.fp_minmax mn rd rs1 rs2)
encode_float (Mnemonic.fp_cmp mn) args =
    with_fregs args (reg_at args 0) λ rd rs1 rs2. ok (Floats.fp_cmp mn rd rs1 rs2)
encode_float (Mnemonic.fcvt_w_s unsigned) args = do
  rd ← reg_at args 0
  rs1 ← freg_at args 1
  rm ← parse_rm args 2
  ok (Floats.fp_cvt_w_s unsigned rd rs1 rm)
encode_float (Mnemonic.fcvt_s_w unsigned) args = do
  rd ← freg_at args 0
  rs1 ← reg_at args 1
  rm ← parse_rm args 2
  ok (Floats.fp_cvt_s_w unsigned rd rs1 rm)
encode_float Mnemonic.fmv_x_w args = do
  rd ← reg_at args 0
  rs1 ← freg_at args 1
  ok (Floats.fp_mv_x_w rd rs1)
encode_float Mnemonic.fclass args = do
  rd ← reg_at args 0
  rs1 ← freg_at args 1
  ok (Floats.fp_class rd rs1)
encode_float Mnemonic.fmv_w_x args = do
  rd ← freg_at args 0
  rs1 ← reg_at args 1
  ok (Floats.fp_mv_w_x rd rs1)
encode_float (Mnemonic.madd mn) args = with_fregs args (freg_at args 0) λ rd rs1 rs2. do
  rs3 ← freg_at args 3
  rm ← parse_rm args 4
  ok (Floats.fp_r4_type (madd_opcode mn) rd rs1 rs2 rs3 rm)
encode_float _ args = raised value_error

-- The other mnemonics, and those above by the last clause.
unfoldable pub encode : ℕ → Labels → ℕ → Mnemonic → List (List ℕ) → Result ℕ
unfolding with_regs with_imm with_address with_upper optional_reg number_arg reg_at encode_branch
    encode_jal encode_csr_reg encode_csr_imm encode_float
encode xlen labels cur_addr Mnemonic.nop args =
    or_value_error (Encode.i_type IType.addi 0 0 (pos 0))
encode xlen labels cur_addr (Mnemonic.r mn) args = with_regs args (Encode.r_type mn)
encode xlen labels cur_addr Mnemonic.ctz args = do
  rd ← reg_at args 0
  rs1 ← reg_at args 1
  ok (Encode.ctz rd rs1)
encode xlen labels cur_addr (Mnemonic.i mn) args = with_imm args (Encode.i_type mn)
encode xlen labels cur_addr (Mnemonic.shift mn) args = with_imm args (Encode.i_type_shift xlen mn)
encode xlen labels cur_addr (Mnemonic.r_w mn) args = with_regs args (Wide.r_type_w mn)
encode xlen labels cur_addr (Mnemonic.i_w mn) args = with_imm args (Wide.i_type_w mn)
encode xlen labels cur_addr (Mnemonic.load mn) args =
    with_address args (reg_at args 0) (Encode.load mn)
encode xlen labels cur_addr (Mnemonic.store mn) args =
    with_address args (reg_at args 0) (Encode.store mn)
encode xlen labels cur_addr (Mnemonic.branch mn) args = encode_branch mn labels cur_addr args
encode xlen labels cur_addr Mnemonic.jal args = encode_jal labels cur_addr args
encode xlen labels cur_addr Mnemonic.jalr args = with_address args (reg_at args 0) Encode.jalr
encode xlen labels cur_addr Mnemonic.lui args = with_upper args Encode.op_lui
encode xlen labels cur_addr Mnemonic.auipc args = with_upper args Encode.op_auipc
encode xlen labels cur_addr (Mnemonic.csr_reg mn) args = encode_csr_reg mn args
encode xlen labels cur_addr (Mnemonic.csr_imm mn) args = encode_csr_imm mn args
encode xlen labels cur_addr (Mnemonic.system mn) args = ok (Encode.system_noarg mn)
encode xlen labels cur_addr Mnemonic.sfence_vma args = do
  rs1 ← optional_reg args 0
  rs2 ← optional_reg args 1
  ok (Encode.sfence_vma rs1 rs2)
encode xlen labels cur_addr Mnemonic.fence args = ok Wide.fence
encode xlen labels cur_addr Mnemonic.word args = do v ← number_arg args 0; ok (low_bits 32 v)
encode xlen labels cur_addr mn args = encode_float mn args

-- The fields of a statement: the mnemonic and its operands.
unfoldable pub encode_fields : ℕ → Labels → ℕ → List (List ℕ) → Result ℕ
unfolding encode lower mnemonic_of
encode_fields xlen labels cur_addr [] = raised value_error
encode_fields xlen labels cur_addr (mn ∷ args) = elim (mnemonic_of (lower mn)) [
  | none ↦ raised value_error
  | some m ↦ encode xlen labels cur_addr m args
]

unfoldable pub encode_line : ℕ → Labels → ℕ → List ℕ → Result ℕ
unfolding encode_fields split_fields strip
encode_line xlen labels cur_addr line =
    encode_fields xlen labels cur_addr (split_fields (strip line))
