-- ===== src/Asm/Decode.antt =====
-- The encoders of sim/tools/asm.py against the decoding of sim/tools/iss.py.
use rv32im_5_stage_pipelined.Base.{
  ℕ, ◌+◌, ◌*◌, ◌/◌, ◌%◌, ◌^◌, ◌<◌, ◌≡◌, refl, ap, ◌∙◌, arith, none, some, bit_or, field, digit, ◌⊎◌,
  ◌↔◌,
}
use rv32im_5_stage_pipelined.Base.Int.{ℤ, low_bits}
use rv32im_5_stage_pipelined.Base.Bits.Laws.{bit_or_low}
use rv32im_5_stage_pipelined.Iss.Word.{sext}
use rv32im_5_stage_pipelined.Iss.Word.Laws.{Fits, low_bits-lt, sext-low_bits}
use rv32im_5_stage_pipelined.Iss.Fields.{
  opcode_of, rd_of, funct3_of, rs1_of, rs2_of, funct7_of, imm_i_of, imm_s_of, imm_b_of, imm_j_of,
}
use rv32im_5_stage_pipelined.Asm.Mnemonic.{
  RType, r_funct7, r_funct3, IType, i_funct3, Branch, branch_funct3, Store, store_funct3,
}
use rv32im_5_stage_pipelined.Asm.Encode.{
  imm_signed, r_type, i_type, store, branch, jal, branch_word, jal_word, word5, word6, op_r, op_i,
  op_store, op_branch, op_jal,
}
use rv32im_5_stage_pipelined.Asm.Words.{
  word6-eq-sum, word5-eq-sum, branch_word-eq-sum, jal_word-eq-sum,
}

r_bounds : (mn : RType) → (r_funct7 mn < 128) × (r_funct3 mn < 8)
r_bounds RType.add = omega arith
r_bounds _ = omega arith

i_bounds : (mn : IType) → i_funct3 mn < 8
i_bounds IType.addi = omega arith
i_bounds _ = omega arith

store_bounds : (mn : Store) → store_funct3 mn < 8
store_bounds Store.sb = omega arith
store_bounds _ = omega arith

branch_bounds : (mn : Branch) → branch_funct3 mn < 8
branch_bounds Branch.beq = omega arith
branch_bounds _ = omega arith

-- An R-type word with registers below 32 decodes to its opcode, function fields and registers.
pub r_type_decodes :
    (mn : RType) (rd rs1 rs2 : ℕ)
    → rd < 32
    → rs1 < 32
    → rs2 < 32
    → let w = r_type mn rd rs1 rs2 in
      (opcode_of w ≡ op_r)
      × (funct7_of w ≡ r_funct7 mn)
      × (funct3_of w ≡ r_funct3 mn)
      × (rd_of w ≡ rd)
      × (rs1_of w ≡ rs1)
      × (rs2_of w ≡ rs2)
unfolding r_type
r_type_decodes mn rd rs1 rs2 hd h1 h2 =
    let (b7, b3) = r_bounds mn in
    rw (word6-eq-sum (r_funct7 mn) rs2 rs1 (r_funct3 mn) rd op_r h2 h1 b3 hd (omega arith))
      (omega arith)

imm_signed-Fits : (k : ℕ) (v : ℤ) → Fits k v → imm_signed v k ≡ some (low_bits k v)
unfolding imm_signed
imm_signed-Fits k v h = ground arith

-- For addi, slti, sltiu, xori, ori and andi, an immediate that fits 12 digits, with registers below 32,
-- is encoded, and the simulator decodes that immediate, the opcode, the funct3 of the mnemonic and the
-- registers.
pub i_type_decodes :
    (mn : IType) (rd rs1 : ℕ) (v : ℤ)
    → rd < 32
    → rs1 < 32
    → Fits 12 v
    → (w : ℕ) × (i_type mn rd rs1 v ≡ some w)
      × (imm_i_of w ≡ v)
      × (opcode_of w ≡ op_i)
      × (funct3_of w ≡ i_funct3 mn)
      × (rd_of w ≡ rd)
      × (rs1_of w ≡ rs1)
unfolding i_type imm_i_of
i_type_decodes mn rd rs1 v hd h1 h =
    let b3 = i_bounds mn in
    let m = low_bits 12 v in
    let small : m < 4096 = low_bits-lt 12 v in
    let sum = word5-eq-sum m rs1 (i_funct3 mn) rd op_i small h1 b3 hd (omega arith) in
    let digits : field (word5 m rs1 (i_funct3 mn) rd op_i) 20 12 ≡ m = rw sum (omega arith) in
    (
      word5 m rs1 (i_funct3 mn) rd op_i,
      rw (imm_signed-Fits 12 v h) refl,
      ap (λ (t : ℕ). sext t 12) digits ∙ sext-low_bits 11 v h,
      rw sum (omega arith),
      rw sum (omega arith),
      rw sum (omega arith),
      rw sum (omega arith),
    )

-- A store offset that fits 12 digits, with registers below 32, is encoded, and the simulator
-- decodes that offset, the opcode, the funct3 of the mnemonic and the registers.
pub store_decodes :
    (mn : Store) (rs2 : ℕ) (offs : ℤ) (rs1 : ℕ)
    → rs2 < 32
    → rs1 < 32
    → Fits 12 offs
    → (w : ℕ) × (store mn rs2 offs rs1 ≡ some w)
      × (imm_s_of w ≡ offs)
      × (opcode_of w ≡ op_store)
      × (funct3_of w ≡ store_funct3 mn)
      × (rs1_of w ≡ rs1)
      × (rs2_of w ≡ rs2)
unfolding store imm_s_of
store_decodes mn rs2 offs rs1 h2 h1 h =
    let b3 = store_bounds mn in
    let m = low_bits 12 offs in
    let small : m < 4096 = low_bits-lt 12 offs in
    let hi = field m 5 7 in
    let lo = m % 2 ^ 5 in
    let w : ℕ = word6 hi rs2 rs1 (store_funct3 mn) lo op_store in
    let sum =
      word6-eq-sum hi rs2 rs1 (store_funct3 mn) lo op_store h2 h1 b3 (omega arith) (omega arith) in
    let above : w / 2 ^ 25 ≡ hi = rw sum (omega arith) in
    let below : field w 7 5 ≡ lo = rw sum (omega arith) in
    let digits : bit_or (w / 2 ^ 25 * 2 ^ 5) (field w 7 5) ≡ m =
      rw (above, below, bit_or_low 5 (hi * 2 ^ 5) lo (omega arith) (omega arith)) (omega arith) in
    (
      w,
      rw (imm_signed-Fits 12 offs h) refl,
      ap (λ (t : ℕ). sext t 12) digits ∙ sext-low_bits 11 offs h,
      rw sum (omega arith),
      rw sum (omega arith),
      rw sum (omega arith),
      rw sum (omega arith),
    )

-- The digits of a branch offset, as the simulator puts them together.
branch_digits :
    (v w : ℕ)
    → v < 2 ^ 13
    → v % 2 ≡ 0
    → digit w 31 ≡ digit v 12
    → digit w 7 ≡ digit v 11
    → field w 25 6 ≡ field v 5 6
    → field w 8 4 ≡ field v 1 4
    → bit_or
        (bit_or (bit_or (digit w 31 * 2 ^ 12) (digit w 7 * 2 ^ 11)) (field w 25 6 * 2 ^ 5))
        (field w 8 4 * 2 ^ 1)
      ≡ v
branch_digits v w small even e31 e7 e25 e8 =
    rw
      (
        e31,
        e7,
        e25,
        e8,
        bit_or_low 12 (digit v 12 * 2 ^ 12) (digit v 11 * 2 ^ 11) (omega arith) (omega arith),
        bit_or_low 11 (digit v 12 * 2 ^ 12 + digit v 11 * 2 ^ 11) (field v 5 6 * 2 ^ 5)
            (omega arith) (omega arith),
        bit_or_low 5 (digit v 12 * 2 ^ 12 + digit v 11 * 2 ^ 11 + field v 5 6 * 2 ^ 5)
            (field v 1 4 * 2 ^ 1) (omega arith) (omega arith),
      )
      (omega arith)

-- An even branch offset that fits 13 digits, with registers below 32, is encoded, and the simulator
-- decodes that offset, the opcode, the funct3 of the mnemonic and the registers.
pub branch_decodes :
    (mn : Branch) (rs1 rs2 : ℕ) (offset_bytes : ℤ)
    → rs1 < 32
    → rs2 < 32
    → Fits 13 offset_bytes
    → low_bits 13 offset_bytes % 2 ≡ 0
    → (w : ℕ) × (branch mn rs1 rs2 offset_bytes ≡ some w)
      × (imm_b_of w ≡ offset_bytes)
      × (opcode_of w ≡ op_branch)
      × (funct3_of w ≡ branch_funct3 mn)
      × (rs1_of w ≡ rs1)
      × (rs2_of w ≡ rs2)
unfolding branch imm_b_of
branch_decodes mn rs1 rs2 offset_bytes h1 h2 h even =
    let b3 = branch_bounds mn in
    let v = low_bits 13 offset_bytes in
    let small : v < 2 ^ 13 = low_bits-lt 13 offset_bytes in
    let w : ℕ = branch_word v rs1 rs2 (branch_funct3 mn) in
    let sum = branch_word-eq-sum v rs1 rs2 (branch_funct3 mn) h1 h2 b3 in
    let digits =
      branch_digits v w small even (rw sum (omega arith)) (rw sum (omega arith))
        (rw sum (omega arith)) (rw sum (omega arith)) in
    (
      w,
      rw (imm_signed-Fits 13 offset_bytes h, even) refl,
      ap (λ (t : ℕ). sext t 13) digits ∙ sext-low_bits 12 offset_bytes h,
      rw sum (omega arith),
      rw sum (omega arith),
      rw sum (omega arith),
      rw sum (omega arith),
    )

-- The digits of a jump offset, as the simulator puts them together.
jal_digits :
    (v w : ℕ)
    → v < 2 ^ 21
    → v % 2 ≡ 0
    → digit w 31 ≡ digit v 20
    → field w 12 8 ≡ field v 12 8
    → digit w 20 ≡ digit v 11
    → field w 21 10 ≡ field v 1 10
    → bit_or
        (bit_or (bit_or (digit w 31 * 2 ^ 20) (field w 12 8 * 2 ^ 12)) (digit w 20 * 2 ^ 11))
        (field w 21 10 * 2 ^ 1)
      ≡ v
jal_digits v w small even e31 e12 e20 e21 =
    rw
      (
        e31,
        e12,
        e20,
        e21,
        bit_or_low 20 (digit v 20 * 2 ^ 20) (field v 12 8 * 2 ^ 12) (omega arith) (omega arith),
        bit_or_low 12 (digit v 20 * 2 ^ 20 + field v 12 8 * 2 ^ 12) (digit v 11 * 2 ^ 11)
            (omega arith) (omega arith),
        bit_or_low 11 (digit v 20 * 2 ^ 20 + field v 12 8 * 2 ^ 12 + digit v 11 * 2 ^ 11)
            (field v 1 10 * 2 ^ 1) (omega arith) (omega arith),
      )
      (omega arith)

-- An even jump offset that fits 21 digits, with a register below 32, is encoded, and the simulator
-- decodes that offset, the opcode and the register.
pub jal_decodes :
    (rd : ℕ) (offset_bytes : ℤ)
    → rd < 32
    → Fits 21 offset_bytes
    → low_bits 21 offset_bytes % 2 ≡ 0
    → (w : ℕ) × (jal rd offset_bytes ≡ some w)
      × (imm_j_of w ≡ offset_bytes)
      × (opcode_of w ≡ op_jal)
      × (rd_of w ≡ rd)
unfolding jal imm_j_of
jal_decodes rd offset_bytes hd h even =
    let v = low_bits 21 offset_bytes in
    let small : v < 2 ^ 21 = low_bits-lt 21 offset_bytes in
    let w : ℕ = jal_word v rd in
    let sum = jal_word-eq-sum v rd hd in
    let digits =
      jal_digits v w small even (rw sum (omega arith)) (rw sum (omega arith)) (rw sum (omega arith))
        (rw sum (omega arith)) in
    (
      w,
      rw (imm_signed-Fits 21 offset_bytes h, even) refl,
      ap (λ (t : ℕ). sext t 21) digits ∙ sext-low_bits 20 offset_bytes h,
      rw sum (omega arith),
      rw sum (omega arith),
    )

-- A branch is refused exactly where its offset is odd or does not fit 13 digits.
pub branch_refused :
    (mn : Branch) (rs1 rs2 : ℕ) (offset_bytes : ℤ)
    → (branch mn rs1 rs2 offset_bytes ≡ none)
      ↔ ((¬ (Fits 13 offset_bytes)) ⊎ (low_bits 13 offset_bytes % 2 ≡ 1))
unfolding branch imm_signed
branch_refused mn rs1 rs2 offset_bytes = ground arith
