-- ===== src/Disasm/Print.antt =====
-- What sim/tools/disasm.py prints for the words that sim/tools/asm.py encodes.
use rv32im_5_stage_pipelined.Base.{
  ℕ, ◌/◌, ◌%◌, ◌^◌, ◌<◌, ◌≢◌, ◌≡◌, refl, ap, ◌∙◌, arith, Bool, some, ◌==◌, field, ne→==, test_bit,
  sym, if◌then◌else◌,
}
use rv32im_5_stage_pipelined.Base.Int.{ℤ, low_bits, pos, ◌-ℤ◌}
use rv32im_5_stage_pipelined.Base.Show.{signed_decimal, with_sign}
use rv32im_5_stage_pipelined.Iss.Fields.{imm_i_of, imm_s_of, imm_b_of, imm_j_of}
use rv32im_5_stage_pipelined.Iss.Word
use native.Mathlib.Decide.{ℕ_discrete}
use rv32im_5_stage_pipelined.Iss.Word.Laws.{Fits}
use rv32im_5_stage_pipelined.Asm.Mnemonic.{
  RType, r_name, r_funct7, r_funct3, IType, i_name, i_funct3, Branch, branch_name, branch_funct3,
  Store, store_name, store_funct3,
}
use rv32im_5_stage_pipelined.Asm.Encode.{r_type, i_type, store, branch, jal}
use rv32im_5_stage_pipelined.Asm.Decode.{
  r_type_decodes, i_type_decodes, store_decodes, branch_decodes, jal_decodes,
}
use rv32im_5_stage_pipelined.Disasm.Names.{
  sext, opcode_i, opcode_store, opcode_branch, opcode_jal, line2, xreg, line3, line_at, opcode_r,
}
use rv32im_5_stage_pipelined.Disasm.Integer.{
  op_line, op_imm_line, store_line, branch_line, imm_i, imm_s, branch_offset, jal_offset,
}
use rv32im_5_stage_pipelined.Disasm.{disasm, disasm_op}

-- Past the two special words the opcode decides.
disasm-disasm_op :
    (w xlen op : ℕ) → w % 2 ^ 7 ≡ op → w ≢ 0x13 → w ≢ 0 → disasm w xlen ≡ disasm_op op w xlen
unfolding disasm
disasm-disasm_op w xlen op e h13 h0 =
    ap (λ (b : Bool). if b then "nop" else if w == 0 then "—" else disasm_op (w % 2 ^ 7) w xlen)
      (ne→== w 0x13 h13)
    ∙ ap (λ (b : Bool). if b then "—" else disasm_op (w % 2 ^ 7) w xlen) (ne→== w 0 h0)
    ∙ ap (λ (o : ℕ). disasm_op o w xlen) e

op_line-r_name :
    (mn : RType) (rd rs1 rs2 : ℕ)
    → op_line (r_funct7 mn) (r_funct3 mn) rd rs1 rs2
      ≡ line3 (r_name mn) (xreg rd) (xreg rs1) (xreg rs2)
unfolding op_line
op_line-r_name RType.add rd rs1 rs2 = refl
op_line-r_name _ rd rs1 rs2 = refl

-- For an R-type word with registers below 32, the line is the mnemonic and the three registers.
pub disasm-r_type :
    (mn : RType) (rd rs1 rs2 xlen : ℕ)
    → rd < 32
    → rs1 < 32
    → rs2 < 32
    → disasm (r_type mn rd rs1 rs2) xlen ≡ line3 (r_name mn) (xreg rd) (xreg rs1) (xreg rs2)
unfolding disasm_op
disasm-r_type mn rd rs1 rs2 xlen hd h1 h2 =
    let w : ℕ = r_type mn rd rs1 rs2 in
    let (e, e7, e3, ed, e1, e2) = r_type_decodes mn rd rs1 rs2 hd h1 h2 in
    disasm-disasm_op w xlen opcode_r e (λ h. absurd (omega arith)) (λ h. absurd (omega arith))
    ∙ rw (e7, e3, ed, e1, e2) (op_line-r_name mn rd rs1 rs2)

-- The two files read the same immediates.
imm_i-imm_i_of : (w : ℕ) → imm_i w ≡ imm_i_of w
unfolding sext Word.sext imm_i_of
imm_i-imm_i_of w =
    let masked : w / 2 ^ 20 % 2 ^ 12 % 2 ^ 12 ≡ w / 2 ^ 20 % 2 ^ 12 = omega arith in
    ap (λ (m : ℕ). if test_bit m 11 then pos m -ℤ pos (2 ^ 12) else pos m) (sym masked)

imm_s-imm_s_of : (w : ℕ) → imm_s w ≡ imm_s_of w
unfolding sext Word.sext imm_s imm_s_of
imm_s-imm_s_of w = refl

branch_offset-imm_b_of : (w : ℕ) → branch_offset w ≡ imm_b_of w
unfolding sext Word.sext branch_offset imm_b_of
branch_offset-imm_b_of w = refl

jal_offset-imm_j_of : (w : ℕ) → jal_offset w ≡ imm_j_of w
unfolding sext Word.sext jal_offset imm_j_of
jal_offset-imm_j_of w = refl

op_imm_line-i_name :
    (mn : IType) (xlen w f7 rd rs1 : ℕ)
    → op_imm_line xlen w f7 (i_funct3 mn) rd rs1
      ≡ line3 (i_name mn) (xreg rd) (xreg rs1) (signed_decimal (imm_i w))
unfolding op_imm_line
op_imm_line-i_name IType.addi xlen w f7 rd rs1 = refl
op_imm_line-i_name _ xlen w f7 rd rs1 = refl

disasm-nop : (xlen : ℕ) → disasm 0x13 xlen ≡ "nop"
unfolding disasm
disasm-nop xlen = refl

disasm_op-i :
    (w xlen : ℕ)
    → disasm_op opcode_i w xlen
      ≡ op_imm_line xlen w (field w 25 7) (field w 12 3) (field w 7 5) (field w 15 5)
unfolding disasm_op
disasm_op-i w xlen = refl

-- For addi, slti, sltiu, xori, ori and andi with an immediate that fits 12 digits and registers below
-- 32, the line is "nop" where the word is 0x13, and else the mnemonic, the two registers and the
-- immediate.
pub disasm-i_type :
    (mn : IType) (rd rs1 : ℕ) (v : ℤ) (xlen : ℕ)
    → rd < 32
    → rs1 < 32
    → Fits 12 v
    → (w : ℕ) × (i_type mn rd rs1 v ≡ some w)
      × (disasm w xlen ≡ (
          if w == 0x13 then "nop" else line3 (i_name mn) (xreg rd) (xreg rs1) (signed_decimal v)))
disasm-i_type mn rd rs1 v xlen hd h1 h =
    let (w, coded, ei, e, e3, ed, e1) = i_type_decodes mn rd rs1 v hd h1 h in
    let line = line3 (i_name mn) (xreg rd) (xreg rs1) (signed_decimal v) in
    (
      w,
      coded,
      elim (ℕ_discrete w 0x13) [
        | yes nop ↦ rw (nop) (disasm-nop xlen)
        | no other ↦
            disasm-disasm_op w xlen opcode_i e other (λ h. absurd (omega arith))
            ∙ disasm_op-i w xlen
            ∙ rw (e3, ed, e1) (op_imm_line-i_name mn xlen w (field w 25 7) rd rs1)
            ∙ ap (λ (t : ℤ). line3 (i_name mn) (xreg rd) (xreg rs1) (signed_decimal t))
                (imm_i-imm_i_of w ∙ ei)
            ∙ ap (λ (b : Bool). if b then "nop" else line) (sym (ne→== w 0x13 other))
      ],
    )

store_line-store_name :
    (mn : Store) (w rs1 rs2 : ℕ)
    → store_line w (store_funct3 mn) rs1 rs2
      ≡ line_at (store_name mn) (xreg rs2) (signed_decimal (imm_s w)) rs1
unfolding store_line
store_line-store_name Store.sb w rs1 rs2 = refl
store_line-store_name _ w rs1 rs2 = refl

disasm_op-store :
    (w xlen : ℕ)
    → disasm_op opcode_store w xlen ≡ store_line w (field w 12 3) (field w 15 5) (field w 20 5)
unfolding disasm_op
disasm_op-store w xlen = refl

-- For a store with an offset that fits 12 digits and registers below 32, the line is the mnemonic,
-- the register, the offset and the base register.
pub disasm-store :
    (mn : Store) (rs2 : ℕ) (offs : ℤ) (rs1 xlen : ℕ)
    → rs2 < 32
    → rs1 < 32
    → Fits 12 offs
    → (w : ℕ) × (store mn rs2 offs rs1 ≡ some w)
      × (disasm w xlen ≡ line_at (store_name mn) (xreg rs2) (signed_decimal offs) rs1)
disasm-store mn rs2 offs rs1 xlen h2 h1 h =
    let (w, coded, ei, e, e3, e1, e2) = store_decodes mn rs2 offs rs1 h2 h1 h in
    (
      w,
      coded,
      disasm-disasm_op w xlen opcode_store e (λ h. absurd (omega arith)) (λ h. absurd (omega arith))
          ∙ disasm_op-store w xlen
          ∙ rw (e3, e1, e2) (store_line-store_name mn w rs1 rs2)
          ∙ ap (λ (t : ℤ). line_at (store_name mn) (xreg rs2) (signed_decimal t) rs1)
              (imm_s-imm_s_of w ∙ ei),
    )

branch_line-branch_name :
    (mn : Branch) (w rs1 rs2 : ℕ)
    → branch_line w (branch_funct3 mn) rs1 rs2
      ≡ line3 (branch_name mn) (xreg rs1) (xreg rs2) (with_sign (branch_offset w))
unfolding branch_line
branch_line-branch_name Branch.beq w rs1 rs2 = refl
branch_line-branch_name _ w rs1 rs2 = refl

disasm_op-branch :
    (w xlen : ℕ)
    → disasm_op opcode_branch w xlen ≡ branch_line w (field w 12 3) (field w 15 5) (field w 20 5)
unfolding disasm_op
disasm_op-branch w xlen = refl

-- For a branch with an even offset that fits 13 digits and registers below 32, the line is the
-- mnemonic, the two registers and the offset with its sign.
pub disasm-branch :
    (mn : Branch) (rs1 rs2 : ℕ) (offset_bytes : ℤ) (xlen : ℕ)
    → rs1 < 32
    → rs2 < 32
    → Fits 13 offset_bytes
    → low_bits 13 offset_bytes % 2 ≡ 0
    → (w : ℕ) × (branch mn rs1 rs2 offset_bytes ≡ some w)
      × (disasm w xlen ≡ line3 (branch_name mn) (xreg rs1) (xreg rs2) (with_sign offset_bytes))
disasm-branch mn rs1 rs2 offset_bytes xlen h1 h2 h even =
    let (w, coded, ei, e, e3, e1, e2) = branch_decodes mn rs1 rs2 offset_bytes h1 h2 h even in
    (
      w,
      coded,
      disasm-disasm_op w xlen opcode_branch e (λ h. absurd (omega arith))
            (λ h. absurd (omega arith))
          ∙ disasm_op-branch w xlen
          ∙ rw (e3, e1, e2) (branch_line-branch_name mn w rs1 rs2)
          ∙ ap (λ (t : ℤ). line3 (branch_name mn) (xreg rs1) (xreg rs2) (with_sign t))
              (branch_offset-imm_b_of w ∙ ei),
    )

disasm_op-jal :
    (w xlen : ℕ)
    → disasm_op opcode_jal w xlen ≡ line2 "jal" (xreg (field w 7 5)) (with_sign (jal_offset w))
unfolding disasm_op
disasm_op-jal w xlen = refl

-- For a jump with an even offset that fits 21 digits and a register below 32, the line is "jal", the
-- register and the offset with its sign.
pub disasm-jal :
    (rd : ℕ) (offset_bytes : ℤ) (xlen : ℕ)
    → rd < 32
    → Fits 21 offset_bytes
    → low_bits 21 offset_bytes % 2 ≡ 0
    → (w : ℕ) × (jal rd offset_bytes ≡ some w)
      × (disasm w xlen ≡ line2 "jal" (xreg rd) (with_sign offset_bytes))
disasm-jal rd offset_bytes xlen hd h even =
    let (w, coded, ei, e, ed) = jal_decodes rd offset_bytes hd h even in
    (
      w,
      coded,
      disasm-disasm_op w xlen opcode_jal e (λ h. absurd (omega arith)) (λ h. absurd (omega arith))
          ∙ disasm_op-jal w xlen
          ∙ rw ed
              (ap (λ (t : ℤ). line2 "jal" (xreg rd) (with_sign t)) (jal_offset-imm_j_of w ∙ ei)),
    )
