-- ===== src/Iss/Fields.antt =====
-- sim/tools/iss.py, the fields that `ISS.step` and `ISS.run` cut out of an instruction word.
use rv32im_5_stage_pipelined.Base.{ℕ, ◌%◌, ◌^◌, bit_or, ◌<<<◌, ◌>>>◌, digit, field}
use rv32im_5_stage_pipelined.Base.Int.{ℤ}
use rv32im_5_stage_pipelined.Iss.Word.{sext}

abbrev pub opcode_of : ℕ → ℕ
opcode_of word = word % 2 ^ 7

abbrev pub rd_of : ℕ → ℕ
rd_of word = field word 7 5

abbrev pub funct3_of : ℕ → ℕ
funct3_of word = field word 12 3

abbrev pub rs1_of : ℕ → ℕ
rs1_of word = field word 15 5

abbrev pub rs2_of : ℕ → ℕ
rs2_of word = field word 20 5

abbrev pub rs3_of : ℕ → ℕ
rs3_of word = field word 27 5

abbrev pub funct7_of : ℕ → ℕ
funct7_of word = field word 25 7

unfoldable pub imm_i_of : ℕ → ℤ
unfolding sext
imm_i_of word = sext (field word 20 12) 12

unfoldable pub imm_s_of : ℕ → ℤ
unfolding sext
imm_s_of word = sext (bit_or ((word >>> 25) <<< 5) (field word 7 5)) 12

unfoldable pub imm_b_of : ℕ → ℤ
unfolding sext
imm_b_of word =
    sext
      (bit_or (bit_or (bit_or (digit word 31 <<< 12) (digit word 7 <<< 11)) (field word 25 6 <<< 5))
        (field word 8 4 <<< 1))
      13

unfoldable pub imm_j_of : ℕ → ℤ
unfolding sext
imm_j_of word =
    sext
      (bit_or
        (bit_or (bit_or (digit word 31 <<< 20) (field word 12 8 <<< 12)) (digit word 20 <<< 11))
        (field word 21 10 <<< 1))
      21
