-- ===== src/Asm/Words.antt =====
-- The encoders' words as sums of their fields, and the fields read back.
use rv32im_5_stage_pipelined.Base.{
  ℕ, ◌+◌, ◌*◌, ◌/◌, ◌%◌, ◌^◌, ◌<◌, bit_or, ◌≡◌, refl, arith, digit, field,
}
use native.Mathlib.Nat.{one-le-pow}
use rv32im_5_stage_pipelined.Base.Bits.{bit_or_split}
use rv32im_5_stage_pipelined.Base.Bits.Laws.{bit_or_low, bit_or_fields, bit_or-zero}
use rv32im_5_stage_pipelined.Asm.Encode.{word6, word5, branch_word, jal_word, op_branch, op_jal}

pub word6-eq-sum :
    (f7 rs2 rs1 f3 rd op : ℕ)
    → rs2 < 32
    → rs1 < 32
    → f3 < 8
    → rd < 32
    → op < 128
    → word6 f7 rs2 rs1 f3 rd op
      ≡ f7 * 2 ^ 25 + rs2 * 2 ^ 20 + rs1 * 2 ^ 15 + f3 * 2 ^ 12 + rd * 2 ^ 7 + op
unfolding word6
word6-eq-sum f7 rs2 rs1 f3 rd op h2 h1 h3 hd ho =
    rw
      (
        bit_or_low 25 (f7 * 2 ^ 25) (rs2 * 2 ^ 20) (omega arith) (omega arith),
        bit_or_low 20 (f7 * 2 ^ 25 + rs2 * 2 ^ 20) (rs1 * 2 ^ 15) (omega arith) (omega arith),
        bit_or_low 15 (f7 * 2 ^ 25 + rs2 * 2 ^ 20 + rs1 * 2 ^ 15) (f3 * 2 ^ 12) (omega arith)
            (omega arith),
        bit_or_low 12 (f7 * 2 ^ 25 + rs2 * 2 ^ 20 + rs1 * 2 ^ 15 + f3 * 2 ^ 12) (rd * 2 ^ 7)
            (omega arith) (omega arith),
        bit_or_low 7 (f7 * 2 ^ 25 + rs2 * 2 ^ 20 + rs1 * 2 ^ 15 + f3 * 2 ^ 12 + rd * 2 ^ 7) op
            (omega arith) (omega arith),
      )
      refl

pub word5-eq-sum :
    (imm12 rs1 f3 rd op : ℕ)
    → imm12 < 4096
    → rs1 < 32
    → f3 < 8
    → rd < 32
    → op < 128
    → word5 imm12 rs1 f3 rd op ≡ imm12 * 2 ^ 20 + rs1 * 2 ^ 15 + f3 * 2 ^ 12 + rd * 2 ^ 7 + op
unfolding word5
word5-eq-sum imm12 rs1 f3 rd op hi h1 h3 hd ho =
    rw
      (
        mod_small imm12 hi,
        bit_or_low 20 (imm12 * 2 ^ 20) (rs1 * 2 ^ 15) (omega arith) (omega arith),
        bit_or_low 15 (imm12 * 2 ^ 20 + rs1 * 2 ^ 15) (f3 * 2 ^ 12) (omega arith) (omega arith),
        bit_or_low 12 (imm12 * 2 ^ 20 + rs1 * 2 ^ 15 + f3 * 2 ^ 12) (rd * 2 ^ 7) (omega arith)
            (omega arith),
        bit_or_low 7 (imm12 * 2 ^ 20 + rs1 * 2 ^ 15 + f3 * 2 ^ 12 + rd * 2 ^ 7) op (omega arith)
            (omega arith),
      )
      refl
  where
    mod_small : (x : ℕ) → x < 4096 → x % 2 ^ 12 ≡ x
    mod_small x h = omega arith

-- A part that goes into a gap: `w` digits from the digit `j`, above `r` and below the rest.
bit_or_gap :
    (j w p x r g : ℕ)
    → x ≡ p * 2 ^ w * 2 ^ j
    → r < 2 ^ j
    → g < 2 ^ w
    → bit_or (x + r) (g * 2 ^ j) ≡ x + g * 2 ^ j + r
bit_or_gap j w p x r g e hr hg = rw e (rw (← right) (rw split (omega arith)))
  where
    right : g * 2 ^ j + 0 ≡ g * 2 ^ j
    right = omega arith

    split : bit_or (p * 2 ^ w * 2 ^ j + r) (g * 2 ^ j + 0) ≡ (p * 2 ^ w + g) * 2 ^ j + r
    split =
        rw (bit_or_split j (p * 2 ^ w) g r 0 hr (one-le-pow j 2 (omega arith)))
          (rw (bit_or_fields w p g hg, bit_or-zero r) refl)

pub branch_word-eq-sum :
    (v rs1 rs2 f3 : ℕ)
    → rs1 < 32
    → rs2 < 32
    → f3 < 8
    → branch_word v rs1 rs2 f3
      ≡ digit v 12 * 2 ^ 31
        + field v 5 6 * 2 ^ 25
        + rs2 * 2 ^ 20
        + rs1 * 2 ^ 15
        + f3 * 2 ^ 12
        + field v 1 4 * 2 ^ 8
        + digit v 11 * 2 ^ 7
        + op_branch
unfolding branch_word
branch_word-eq-sum v rs1 rs2 f3 h1 h2 h3 =
    let x : ℕ =
      digit v 12 * 2 ^ 31 + field v 5 6 * 2 ^ 25 + rs2 * 2 ^ 20 + rs1 * 2 ^ 15 + f3 * 2 ^ 12 in
    rw
      (
        bit_or_low 31 (digit v 12 * 2 ^ 31) (field v 5 6 * 2 ^ 25) (omega arith) (omega arith),
        bit_or_low 25 (digit v 12 * 2 ^ 31 + field v 5 6 * 2 ^ 25) (rs2 * 2 ^ 20) (omega arith)
            (omega arith),
        bit_or_low 20 (digit v 12 * 2 ^ 31 + field v 5 6 * 2 ^ 25 + rs2 * 2 ^ 20) (rs1 * 2 ^ 15)
            (omega arith) (omega arith),
        bit_or_low 15 (digit v 12 * 2 ^ 31 + field v 5 6 * 2 ^ 25 + rs2 * 2 ^ 20 + rs1 * 2 ^ 15)
            (f3 * 2 ^ 12) (omega arith) (omega arith),
        bit_or_low 12 x (digit v 11 * 2 ^ 7) (omega arith) (omega arith),
        bit_or_gap 8 4 (x / 4096) x (digit v 11 * 2 ^ 7) (field v 1 4) (omega arith) (omega arith)
            (omega arith),
        bit_or_low 7 (x + field v 1 4 * 2 ^ 8 + digit v 11 * 2 ^ 7) op_branch (omega arith)
            (omega arith),
      )
      refl

pub jal_word-eq-sum :
    (v rd : ℕ)
    → rd < 32
    → jal_word v rd
      ≡ digit v 20 * 2 ^ 31
        + field v 1 10 * 2 ^ 21
        + digit v 11 * 2 ^ 20
        + field v 12 8 * 2 ^ 12
        + rd * 2 ^ 7
        + op_jal
unfolding jal_word
jal_word-eq-sum v rd h =
    let x : ℕ = digit v 20 * 2 ^ 31 in
    let low : ℕ = digit v 11 * 2 ^ 20 + field v 12 8 * 2 ^ 12 in
    rw
      (
        bit_or_low 31 x (field v 12 8 * 2 ^ 12) (omega arith) (omega arith),
        bit_or_gap 20 11 (digit v 20) x (field v 12 8 * 2 ^ 12) (digit v 11) (omega arith)
            (omega arith) (omega arith),
        regroup x (digit v 11 * 2 ^ 20) (field v 12 8 * 2 ^ 12),
        bit_or_gap 21 10 (digit v 20) x low (field v 1 10) (omega arith) (omega arith)
            (omega arith),
        bit_or_low 12 (x + field v 1 10 * 2 ^ 21 + low) (rd * 2 ^ 7) (omega arith) (omega arith),
        bit_or_low 7 (x + field v 1 10 * 2 ^ 21 + low + rd * 2 ^ 7) op_jal (omega arith)
            (omega arith),
      )
      (omega arith)
  where
    regroup : (a b c : ℕ) → a + b + c ≡ a + (b + c)
    regroup a b c = omega arith
