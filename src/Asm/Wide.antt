-- ===== src/Asm/Wide.antt =====
-- sim/tools/asm.py, the word forms of RV64: the tables R_TYPE_W and I_TYPE_W, `r_type_w`,
-- `i_type_w`, and `fence`.
use rv32im_5_stage_pipelined.Base.{ℕ, bit_or, Option, some, ◌<<<◌}
use rv32im_5_stage_pipelined.Base.Int.{ℤ}
use rv32im_5_stage_pipelined.Asm.Mnemonic.{funct7_base, funct7_alt, funct7_muldiv}
use rv32im_5_stage_pipelined.Asm.Encode.{imm_signed, imm_unsigned, word6, word5, ◌>>=◌}

abbrev op_32 : ℕ
op_32 = 0b0111011

abbrev op_imm_32 : ℕ
op_imm_32 = 0b0011011

abbrev op_misc_mem : ℕ
op_misc_mem = 0b0001111

-- R_TYPE_W
pub data RTypeW : Type 0 where
  addw subw sllw srlw sraw mulw divw divuw remw remuw : RTypeW

abbrev pub r_w_funct7 : RTypeW → ℕ
r_w_funct7 addw = funct7_base
r_w_funct7 subw = funct7_alt
r_w_funct7 sllw = funct7_base
r_w_funct7 srlw = funct7_base
r_w_funct7 sraw = funct7_alt
r_w_funct7 mulw = funct7_muldiv
r_w_funct7 divw = funct7_muldiv
r_w_funct7 divuw = funct7_muldiv
r_w_funct7 remw = funct7_muldiv
r_w_funct7 remuw = funct7_muldiv

abbrev pub r_w_funct3 : RTypeW → ℕ
r_w_funct3 addw = 0b000
r_w_funct3 subw = 0b000
r_w_funct3 sllw = 0b001
r_w_funct3 srlw = 0b101
r_w_funct3 sraw = 0b101
r_w_funct3 mulw = 0b000
r_w_funct3 divw = 0b100
r_w_funct3 divuw = 0b101
r_w_funct3 remw = 0b110
r_w_funct3 remuw = 0b111

-- I_TYPE_W
pub data ITypeW : Type 0 where
  addiw slliw srliw sraiw : ITypeW

abbrev pub i_w_funct3 : ITypeW → ℕ
i_w_funct3 addiw = 0b000
i_w_funct3 slliw = 0b001
i_w_funct3 srliw = 0b101
i_w_funct3 sraiw = 0b101

unfoldable pub r_type_w : RTypeW → ℕ → ℕ → ℕ → ℕ
unfolding word6
r_type_w mn rd rs1 rs2 = word6 (r_w_funct7 mn) rs2 rs1 (r_w_funct3 mn) rd op_32

-- The 12 digits of the immediate: a shift has 5 digits of amount whatever XLEN is.
unfoldable pub imm12_w : ITypeW → ℤ → Option ℕ
unfolding imm_signed imm_unsigned
imm12_w addiw immv = imm_signed immv 12
imm12_w slliw immv = imm_unsigned immv 5 >>= λ shamt. some (bit_or (funct7_base <<< 5) shamt)
imm12_w srliw immv = imm_unsigned immv 5 >>= λ shamt. some (bit_or (funct7_base <<< 5) shamt)
imm12_w sraiw immv = imm_unsigned immv 5 >>= λ shamt. some (bit_or (funct7_alt <<< 5) shamt)

unfoldable pub i_type_w : ITypeW → ℕ → ℕ → ℤ → Option ℕ
unfolding imm12_w word5
i_type_w mn rd rs1 immv = do
  imm12 ← imm12_w mn immv
  some (word5 imm12 rs1 (i_w_funct3 mn) rd op_imm_32)

unfoldable pub fence : ℕ
fence = bit_or (0b000011111111 <<< 20) op_misc_mem
