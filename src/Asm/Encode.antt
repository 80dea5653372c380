-- ===== src/Asm/Encode.antt =====
-- sim/tools/asm.py, the range check of immediates and the encoders. `none` is a `ValueError`.
use rv32im_5_stage_pipelined.Base.{
  ℕ, ◌-◌, ◌%◌, ◌^◌, bit_or, Option, none, some, Bool, true, false, ◌==◌, ◌&&◌, leb, ◌<<<◌, digit,
  field, if◌then◌else◌,
}
use rv32im_5_stage_pipelined.Base.Int.{ℤ, pos, negsuc, low_bits, leb_ℤ}
use rv32im_5_stage_pipelined.Asm.Mnemonic.{
  RType, r_funct7, r_funct3, IType, i_funct3, Shift, srai, shift_funct3, Branch, branch_funct3,
  Load, load_funct3, Store, store_funct3, CsrOp, csr_funct3, SystemOp, system_imm12, funct7_base,
  funct7_alt,
}

abbrev pub op_r : ℕ
op_r = 0b0110011

abbrev pub op_i : ℕ
op_i = 0b0010011

abbrev pub op_load : ℕ
op_load = 0b0000011

abbrev pub op_store : ℕ
op_store = 0b0100011

abbrev pub op_branch : ℕ
op_branch = 0b1100011

abbrev pub op_jal : ℕ
op_jal = 0b1101111

abbrev pub op_jalr : ℕ
op_jalr = 0b1100111

abbrev pub op_lui : ℕ
op_lui = 0b0110111

abbrev pub op_auipc : ℕ
op_auipc = 0b0010111

abbrev pub op_custom : ℕ
op_custom = 0b0101010

abbrev pub op_system : ℕ
op_system = 0b1110011

infixl 5 ◌>>=◌
abbrev pub ◌>>=◌ : Option ℕ → (ℕ → Option ℕ) → Option ℕ
none >>= f = none
some a >>= f = f a

-- `imm(v, bits, signed=True)`
unfoldable pub imm_signed : ℤ → ℕ → Option ℕ
imm_signed v bits =
    if leb_ℤ (negsuc (2 ^ (bits - 1) - 1)) v && leb_ℤ v (pos (2 ^ (bits - 1) - 1))
    then some (low_bits bits v)
    else none

-- `imm(v, bits, signed=False)`
unfoldable pub imm_unsigned : ℤ → ℕ → Option ℕ
imm_unsigned v bits =
    if leb_ℤ (pos 0) v && leb_ℤ v (pos (2 ^ bits - 1)) then some (low_bits bits v) else none

-- `(f7 << 25) | (rs2 << 20) | (rs1 << 15) | (f3 << 12) | (rd << 7) | op`
unfoldable pub word6 : ℕ → ℕ → ℕ → ℕ → ℕ → ℕ → ℕ
word6 f7 rs2 rs1 f3 rd op =
    bit_or
      (bit_or (bit_or (bit_or (bit_or (f7 <<< 25) (rs2 <<< 20)) (rs1 <<< 15)) (f3 <<< 12))
        (rd <<< 7))
      op

-- `(u(imm12, 12) << 20) | (rs1 << 15) | (f3 << 12) | (rd << 7) | op`
unfoldable pub word5 : ℕ → ℕ → ℕ → ℕ → ℕ → ℕ
word5 imm12 rs1 f3 rd op =
    bit_or (bit_or (bit_or (bit_or ((imm12 % 2 ^ 12) <<< 20) (rs1 <<< 15)) (f3 <<< 12)) (rd <<< 7))
      op

unfoldable pub r_type : RType → ℕ → ℕ → ℕ → ℕ
unfolding word6
r_type mn rd rs1 rs2 = word6 (r_funct7 mn) rs2 rs1 (r_funct3 mn) rd op_r

unfoldable pub i_type : IType → ℕ → ℕ → ℤ → Option ℕ
unfolding imm_signed word5
i_type mn rd rs1 immv = do imm12 ← imm_signed immv 12; some (word5 imm12 rs1 (i_funct3 mn) rd op_i)

abbrev pub is_srai : Shift → Bool
is_srai srai = true
is_srai _ = false

-- The shift keys of `i_type`: 6 digits of amount from XLEN 64 upwards.
unfoldable pub i_type_shift : ℕ → Shift → ℕ → ℕ → ℤ → Option ℕ
unfolding imm_unsigned word5
i_type_shift xlen mn rd rs1 immv =
    if leb 64 xlen
    then (imm_unsigned immv 6 >>= λ shamt. some (
        word5 (bit_or ((if is_srai mn then 0b010000 else 0) <<< 6) shamt) rs1 (shift_funct3 mn) rd
          op_i))
    else (imm_unsigned immv 5 >>= λ shamt. some (
        word5 (bit_or ((if is_srai mn then funct7_alt else funct7_base) <<< 5) shamt) rs1
          (shift_funct3 mn) rd op_i))

unfoldable pub load : Load → ℕ → ℤ → ℕ → Option ℕ
unfolding imm_signed word5
load mn rd offs rs1 = do
  imm12 ← imm_signed offs 12
  some (word5 imm12 rs1 (load_funct3 mn) rd op_load)

unfoldable pub store : Store → ℕ → ℤ → ℕ → Option ℕ
unfolding imm_signed word6
store mn rs2 offs rs1 = do
  imm12 ← imm_signed offs 12
  some (word6 (field imm12 5 7) rs2 rs1 (store_funct3 mn) (imm12 % 2 ^ 5) op_store)

unfoldable pub jalr : ℕ → ℤ → ℕ → Option ℕ
unfolding imm_signed
jalr rd offs rs1 = do
  imm12 ← imm_signed offs 12
  some (bit_or (bit_or (bit_or ((imm12 % 2 ^ 12) <<< 20) (rs1 <<< 15)) (rd <<< 7)) op_jalr)

unfoldable pub u_type : ℕ → ℕ → ℤ → Option ℕ
unfolding imm_unsigned
u_type opcode rd imm20 = do
  v ← imm_unsigned imm20 20
  some (bit_or (bit_or (v <<< 12) (rd <<< 7)) opcode)

-- The word of a branch whose offset has the digits `v`.
unfoldable pub branch_word : ℕ → ℕ → ℕ → ℕ → ℕ
branch_word v rs1 rs2 f3 =
    bit_or
      (bit_or
        (bit_or
          (bit_or
            (bit_or (bit_or (bit_or (digit v 12 <<< 31) (field v 5 6 <<< 25)) (rs2 <<< 20))
              (rs1 <<< 15))
            (f3 <<< 12))
          (digit v 11 <<< 7))
        (field v 1 4 <<< 8))
      op_branch

unfoldable pub branch : Branch → ℕ → ℕ → ℤ → Option ℕ
unfolding imm_signed branch_word
branch mn rs1 rs2 offset_bytes = do
  v ← imm_signed offset_bytes 13
  if v % 2 ^ 1 == 1 then none else some (branch_word v rs1 rs2 (branch_funct3 mn))

unfoldable pub jal_word : ℕ → ℕ → ℕ
jal_word v rd =
    bit_or
      (bit_or
        (bit_or (bit_or (bit_or (digit v 20 <<< 31) (field v 12 8 <<< 12)) (digit v 11 <<< 20))
          (field v 1 10 <<< 21))
        (rd <<< 7))
      op_jal

unfoldable pub jal : ℕ → ℤ → Option ℕ
unfolding imm_signed jal_word
jal rd offset_bytes = do
  v ← imm_signed offset_bytes 21
  if v % 2 ^ 1 == 1 then none else some (jal_word v rd)

unfoldable pub ctz : ℕ → ℕ → ℕ
unfolding word6
ctz rd rs1 = word6 funct7_alt 0 rs1 0b111 rd op_custom

unfoldable pub csr_reg : CsrOp → ℕ → ℕ → ℕ → ℕ
unfolding word5
csr_reg mn rd csr_addr rs1 = word5 csr_addr rs1 (csr_funct3 mn) rd op_system

unfoldable pub csr_imm : CsrOp → ℕ → ℕ → ℤ → Option ℕ
unfolding imm_unsigned word5
csr_imm mn rd csr_addr uimm = do
  uimm5 ← imm_unsigned uimm 5
  some (word5 csr_addr uimm5 (csr_funct3 mn) rd op_system)

unfoldable pub system_noarg : SystemOp → ℕ
system_noarg mn = bit_or (system_imm12 mn <<< 20) op_system

unfoldable pub sfence_vma : ℕ → ℕ → ℕ
sfence_vma rs1 rs2 = bit_or (bit_or (bit_or (0b0001001 <<< 25) (rs2 <<< 20)) (rs1 <<< 15)) op_system
