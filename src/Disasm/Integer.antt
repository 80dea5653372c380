-- ===== src/Disasm/Integer.antt =====
-- sim/tools/disasm.py, `disasm`: the lines of the integer opcodes. The arguments are the fields that
-- `disasm` cuts out of the word.
use Prim.Native.String.{String}
use rv32im_5_stage_pipelined.Base.{
  ℕ, bit_and, bit_or, [], ◌∷◌, ◌==◌, ◌&&◌, ◌||◌, not, leb, ◌<<<◌, ◌>>>◌, digit, field,
  if◌then◌else◌,
}
use rv32im_5_stage_pipelined.Base.Int.{ℤ}
use rv32im_5_stage_pipelined.Base.Show.{◌<>◌, decimal, hex, padded, signed_decimal, with_sign}
use rv32im_5_stage_pipelined.Disasm.Names.{get, sext, csr_name, xreg, line3, line2, line_at}

abbrev pub imm_i : ℕ → ℤ
imm_i word = sext (word >>> 20) 12

unfoldable pub imm_s : ℕ → ℤ
imm_s word = sext (bit_or ((word >>> 25) <<< 5) (field word 7 5)) 12

abbrev pub unknown_op : String → ℕ → ℕ → String
unknown_op kind f7 f3 = kind <> "?(f7=0x" <> padded 2 (hex f7) <> ",f3=" <> decimal f3 <> ")"

unfoldable pub op_line : ℕ → ℕ → ℕ → ℕ → ℕ → String
op_line f7 f3 rd rs1 rs2 =
    if f7 == 0b0000001
    then line3
        (get
          ((0, "mul")
            ∷ (1, "mulh")
            ∷ (2, "mulhsu")
            ∷ (3, "mulhu")
            ∷ (4, "div")
            ∷ (5, "divu")
            ∷ (6, "rem")
            ∷ (7, "remu")
            ∷ [])
          f3 "")
        (xreg rd) (xreg rs1) (xreg rs2)
    else if f7 == 0b0100000 && f3 == 0b111
    then line2 "ctz" (xreg rd) (xreg rs1)
    else line3
        (if f7 == 0b0000000
          then get
              ((0, "add")
                ∷ (1, "sll")
                ∷ (2, "slt")
                ∷ (3, "sltu")
                ∷ (4, "xor")
                ∷ (5, "srl")
                ∷ (6, "or")
                ∷ (7, "and")
                ∷ [])
              f3 (unknown_op "r-type" f7 f3)
          else if f7 == 0b0100000
          then get ((0, "sub") ∷ (5, "sra") ∷ []) f3 (unknown_op "r-type" f7 f3)
          else unknown_op "r-type" f7 f3)
        (xreg rd) (xreg rs1) (xreg rs2)

-- `{1: left, 5: (arith if alt else right)}[f3]`, where f3 is 1 or 5.
abbrev pub shift_mnemonic : ℕ → String → String → String → ℕ → ℕ → String
shift_mnemonic f3 left arith right top alt =
    if f3 == 1 then left else if top == alt then arith else right

unfoldable pub op_imm_line : ℕ → ℕ → ℕ → ℕ → ℕ → ℕ → String
op_imm_line xlen word f7 f3 rd rs1 =
    if f3 == 1 || f3 == 5
    then (if leb 64 xlen
        then line3 (shift_mnemonic f3 "slli" "srai" "srli" (field word 26 6) 0b010000) (xreg rd)
            (xreg rs1) (decimal (field word 20 6))
        else line3 (shift_mnemonic f3 "slli" "srai" "srli" f7 0b0100000) (xreg rd) (xreg rs1)
            (decimal (field word 20 5)))
    else line3
        (get
          ((0, "addi") ∷ (2, "slti") ∷ (3, "sltiu") ∷ (4, "xori") ∷ (6, "ori") ∷ (7, "andi") ∷ [])
          f3 "i-type?")
        (xreg rd) (xreg rs1) (signed_decimal (imm_i word))

unfoldable pub op_32_line : ℕ → ℕ → ℕ → ℕ → ℕ → String
op_32_line f7 f3 rd rs1 rs2 =
    if f7 == 0b0000001
    then line3
        (get ((0, "mulw") ∷ (4, "divw") ∷ (5, "divuw") ∷ (6, "remw") ∷ (7, "remuw") ∷ []) f3
          "op32muldiv?")
        (xreg rd) (xreg rs1) (xreg rs2)
    else line3
        (if f7 == 0b0000000
          then get ((0, "addw") ∷ (1, "sllw") ∷ (5, "srlw") ∷ []) f3 (unknown_op "op32" f7 f3)
          else if f7 == 0b0100000
          then get ((0, "subw") ∷ (5, "sraw") ∷ []) f3 (unknown_op "op32" f7 f3)
          else unknown_op "op32" f7 f3)
        (xreg rd) (xreg rs1) (xreg rs2)

unfoldable pub op_imm_32_line : ℕ → ℕ → ℕ → ℕ → ℕ → String
op_imm_32_line word f7 f3 rd rs1 =
    if f3 == 1 || f3 == 5
    then line3 (shift_mnemonic f3 "slliw" "sraiw" "srliw" f7 0b0100000) (xreg rd) (xreg rs1)
        (decimal (field word 20 5))
    else line3 (get ((0, "addiw") ∷ []) f3 "opimm32?") (xreg rd) (xreg rs1)
        (signed_decimal (imm_i word))

unfoldable pub load_line : ℕ → ℕ → ℕ → ℕ → String
load_line word f3 rd rs1 =
    line_at
      (get
        ((0, "lb") ∷ (1, "lh") ∷ (2, "lw") ∷ (3, "ld") ∷ (4, "lbu") ∷ (5, "lhu") ∷ (6, "lwu") ∷ [])
        f3 "load?")
      (xreg rd) (signed_decimal (imm_i word)) rs1

unfoldable pub store_line : ℕ → ℕ → ℕ → ℕ → String
store_line word f3 rs1 rs2 =
    line_at (get ((0, "sb") ∷ (1, "sh") ∷ (2, "sw") ∷ (3, "sd") ∷ []) f3 "store?") (xreg rs2)
      (signed_decimal (imm_s word)) rs1

unfoldable pub branch_offset : ℕ → ℤ
branch_offset word =
    sext
      (bit_or (bit_or (bit_or (digit word 31 <<< 12) (digit word 7 <<< 11)) (field word 25 6 <<< 5))
        (field word 8 4 <<< 1))
      13

unfoldable pub branch_line : ℕ → ℕ → ℕ → ℕ → String
branch_line word f3 rs1 rs2 =
    line3
      (get
        ((0, "beq")
          ∷ (1, "bne")
          ∷ (2, "ble")
          ∷ (3, "bgt")
          ∷ (4, "blt")
          ∷ (5, "bge")
          ∷ (6, "bltu")
          ∷ (7, "bgeu")
          ∷ [])
        f3 "branch?")
      (xreg rs1) (xreg rs2) (with_sign (branch_offset word))

unfoldable pub jal_offset : ℕ → ℤ
jal_offset word =
    sext
      (bit_or
        (bit_or (bit_or (digit word 31 <<< 20) (field word 12 8 <<< 12)) (digit word 20 <<< 11))
        (field word 21 10 <<< 1))
      21

abbrev pub upper_line : String → ℕ → ℕ → String
upper_line mn word rd = line2 mn (xreg rd) ("0x" <> hex (field word 12 20))

-- `f3 & 0b100`: the field of rs1 is a number in the immediate forms.
unfoldable pub system_line : ℕ → ℕ → ℕ → ℕ → String
system_line csr_addr f3 rd rs1 =
    if f3 == 0
    then get ((0x000, "ecall") ∷ (0x001, "ebreak") ∷ (0x302, "mret") ∷ []) csr_addr
        ("system?(imm12=0x" <> hex csr_addr <> ")")
    else let mn =
        get
          ((0b001, "csrrw")
            ∷ (0b010, "csrrs")
            ∷ (0b011, "csrrc")
            ∷ (0b101, "csrrwi")
            ∷ (0b110, "csrrsi")
            ∷ (0b111, "csrrci")
            ∷ [])
          f3 "csr?" in
      if not (bit_and f3 0b100 == 0)
      then line3 mn (xreg rd) (csr_name csr_addr) (decimal rs1)
      else line3 mn (xreg rd) (csr_name csr_addr) (xreg rs1)
