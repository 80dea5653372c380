-- ===== src/Asm/Floats.antt =====
-- sim/tools/asm.py, the RV32F encoders and their tables.
use rv32im_5_stage_pipelined.Base.{
  ℕ, ◌*◌, ◌%◌, ◌^◌, ◌<◌, ◌≡◌, refl, arith, bit_or, Option, some, Bool, ◌<<<◌, field, if◌then◌else◌,
}
use rv32im_5_stage_pipelined.Base.Int.{ℤ}
use rv32im_5_stage_pipelined.Iss.Fields.{opcode_of, rd_of, funct3_of, rs1_of, rs2_of, rs3_of}
use rv32im_5_stage_pipelined.Asm.Encode.{imm_signed, word6, word5, ◌>>=◌}
use rv32im_5_stage_pipelined.Asm.Words.{word6-eq-sum}

abbrev pub op_fp : ℕ
op_fp = 0b1010011

abbrev pub op_load_fp : ℕ
op_load_fp = 0b0000111

abbrev pub op_store_fp : ℕ
op_store_fp = 0b0100111

-- MADD_OPCODES
pub data Madd : Type 0 where
  fmadd fmsub fnmsub fnmadd : Madd

abbrev pub madd_opcode : Madd → ℕ
madd_opcode fmadd = 0b1000011
madd_opcode fmsub = 0b1000111
madd_opcode fnmsub = 0b1001011
madd_opcode fnmadd = 0b1001111

-- FP_ARITH
pub data FpArith : Type 0 where
  fadd fsub fmul fdiv : FpArith

abbrev pub fp_arith_funct5 : FpArith → ℕ
fp_arith_funct5 fadd = 0b00000
fp_arith_funct5 fsub = 0b00001
fp_arith_funct5 fmul = 0b00010
fp_arith_funct5 fdiv = 0b00011

-- FP_SGNJ, FP_MINMAX and FP_CMP
pub data FpSgnj : Type 0 where
  fsgnj fsgnjn fsgnjx : FpSgnj

abbrev pub fp_sgnj_funct3 : FpSgnj → ℕ
fp_sgnj_funct3 fsgnj = 0b000
fp_sgnj_funct3 fsgnjn = 0b001
fp_sgnj_funct3 fsgnjx = 0b010

pub data FpMinmax : Type 0 where
  fmin fmax : FpMinmax

abbrev pub fp_minmax_funct3 : FpMinmax → ℕ
fp_minmax_funct3 fmin = 0b000
fp_minmax_funct3 fmax = 0b001

pub data FpCmp : Type 0 where
  fle flt feq : FpCmp

abbrev pub fp_cmp_funct3 : FpCmp → ℕ
fp_cmp_funct3 fle = 0b000
fp_cmp_funct3 flt = 0b001
fp_cmp_funct3 feq = 0b010

-- `(top5 << 27) | (rs2 << 20) | (rs1 << 15) | (rm << 12) | (rd << 7) | opcode`
unfoldable pub fp_word : ℕ → ℕ → ℕ → ℕ → ℕ → ℕ → ℕ
fp_word top5 rs2 rs1 rm rd opcode =
    bit_or
      (bit_or (bit_or (bit_or (bit_or (top5 <<< 27) (rs2 <<< 20)) (rs1 <<< 15)) (rm <<< 12))
        (rd <<< 7))
      opcode

-- The same without the field of rs2.
unfoldable pub fp_word_unary : ℕ → ℕ → ℕ → ℕ → ℕ
fp_word_unary top5 rs1 rm rd =
    bit_or (bit_or (bit_or (bit_or (top5 <<< 27) (rs1 <<< 15)) (rm <<< 12)) (rd <<< 7)) op_fp

unfoldable pub fp_r_type : ℕ → ℕ → ℕ → ℕ → ℕ → ℕ
unfolding fp_word
fp_r_type funct5 rd rs1 rs2 rm = fp_word funct5 rs2 rs1 rm rd op_fp

unfoldable pub fp_sqrt : ℕ → ℕ → ℕ → ℕ
unfolding fp_word
fp_sqrt rd rs1 rm = fp_word 0b01011 0 rs1 rm rd op_fp

unfoldable pub fp_sgnj : FpSgnj → ℕ → ℕ → ℕ → ℕ
unfolding fp_word
fp_sgnj mn rd rs1 rs2 = fp_word 0b00100 rs2 rs1 (fp_sgnj_funct3 mn) rd op_fp

unfoldable pub fp_minmax : FpMinmax → ℕ → ℕ → ℕ → ℕ
unfolding fp_word
fp_minmax mn rd rs1 rs2 = fp_word 0b00101 rs2 rs1 (fp_minmax_funct3 mn) rd op_fp

unfoldable pub fp_cmp : FpCmp → ℕ → ℕ → ℕ → ℕ
unfolding fp_word
fp_cmp mn rd rs1 rs2 = fp_word 0b10100 rs2 rs1 (fp_cmp_funct3 mn) rd op_fp

unfoldable pub fp_cvt_w_s : Bool → ℕ → ℕ → ℕ → ℕ
unfolding fp_word
fp_cvt_w_s unsigned rd rs1 rm = fp_word 0b11000 (if unsigned then 1 else 0) rs1 rm rd op_fp

unfoldable pub fp_cvt_s_w : Bool → ℕ → ℕ → ℕ → ℕ
unfolding fp_word
fp_cvt_s_w unsigned rd rs1 rm = fp_word 0b11010 (if unsigned then 1 else 0) rs1 rm rd op_fp

unfoldable pub fp_mv_x_w : ℕ → ℕ → ℕ
unfolding fp_word_unary
fp_mv_x_w rd rs1 = fp_word_unary 0b11100 rs1 0b000 rd

unfoldable pub fp_class : ℕ → ℕ → ℕ
unfolding fp_word_unary
fp_class rd rs1 = fp_word_unary 0b11100 rs1 0b001 rd

unfoldable pub fp_mv_w_x : ℕ → ℕ → ℕ
fp_mv_w_x rd rs1 = bit_or (bit_or (bit_or (0b11110 <<< 27) (rs1 <<< 15)) (rd <<< 7)) op_fp

unfoldable pub flw : ℕ → ℤ → ℕ → Option ℕ
unfolding imm_signed word5
flw rd offs rs1 = do imm12 ← imm_signed offs 12; some (word5 imm12 rs1 0b010 rd op_load_fp)

unfoldable pub fsw : ℕ → ℤ → ℕ → Option ℕ
unfolding imm_signed word6
fsw rs2 offs rs1 = do
  imm12 ← imm_signed offs 12
  some (word6 (field imm12 5 7) rs2 rs1 0b010 (imm12 % 2 ^ 5) op_store_fp)

unfoldable pub fp_r4_type : ℕ → ℕ → ℕ → ℕ → ℕ → ℕ → ℕ
unfolding fp_word
fp_r4_type opcode rd rs1 rs2 rs3 rm = fp_word rs3 rs2 rs1 rm rd opcode

fp_word-word6 :
    (top5 rs2 rs1 rm rd opcode : ℕ)
    → fp_word top5 rs2 rs1 rm rd opcode ≡ word6 (top5 * 4) rs2 rs1 rm rd opcode
unfolding fp_word word6
fp_word-word6 top5 rs2 rs1 rm rd opcode =
    let shifted : top5 * 2 ^ 27 ≡ top5 * 4 * 2 ^ 25 = omega arith in rw shifted refl

-- From the word of a fused multiply-add with registers below 32 and a rounding mode below 8, the
-- simulator decodes the opcode, the four registers and the rounding mode.
pub fp_r4_type_decodes :
    (mn : Madd) (rd rs1 rs2 rs3 rm : ℕ)
    → rd < 32
    → rs1 < 32
    → rs2 < 32
    → rs3 < 32
    → rm < 8
    → let w = fp_r4_type (madd_opcode mn) rd rs1 rs2 rs3 rm in
      (opcode_of w ≡ madd_opcode mn)
      × (rd_of w ≡ rd)
      × (funct3_of w ≡ rm)
      × (rs1_of w ≡ rs1)
      × (rs2_of w ≡ rs2)
      × (rs3_of w ≡ rs3)
unfolding fp_r4_type
fp_r4_type_decodes mn rd rs1 rs2 rs3 rm hd h1 h2 h3 hm =
    let op = opcode_bound mn in
    rw
      (
        fp_word-word6 rs3 rs2 rs1 rm rd (madd_opcode mn),
        word6-eq-sum (rs3 * 4) rs2 rs1 rm rd (madd_opcode mn) h2 h1 hm hd op,
      )
      (omega arith)
  where
    opcode_bound : (mn : Madd) → madd_opcode mn < 128
    opcode_bound fmadd = omega arith
    opcode_bound fmsub = omega arith
    opcode_bound fnmsub = omega arith
    opcode_bound fnmadd = omega arith
