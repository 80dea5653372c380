-- ===== src/Asm/Statement/Target.antt =====
-- sim/tools/asm.py: where the branch of a statement goes.
use rv32im_5_stage_pipelined.Base.{ℕ, ◌%◌, ◌<◌, ◌≡◌, refl, sym, ap, ◌∙◌, arith, some, List, [], ◌∷◌}
use rv32im_5_stage_pipelined.Base.Int.{ℤ, pos, low_bits, ◌-ℤ◌}
use rv32im_5_stage_pipelined.Base.Lists.{get_elem?}
use rv32im_5_stage_pipelined.Iss.Word.Laws.{Fits}
use rv32im_5_stage_pipelined.Iss.Fields.{opcode_of, funct3_of, imm_b_of}
use rv32im_5_stage_pipelined.Asm.Mnemonic.{Branch, branch_funct3}
use rv32im_5_stage_pipelined.Asm.Encode
use rv32im_5_stage_pipelined.Asm.Encode.{op_branch}
use rv32im_5_stage_pipelined.Asm.Decode.{branch_decodes}
use rv32im_5_stage_pipelined.Asm.Text.{strip}
use rv32im_5_stage_pipelined.Asm.Operands.{
  Result, ok, raised, ◌>>=◌, or_value_error, arg, register, reg,
}
use rv32im_5_stage_pipelined.Asm.Statement.{Labels, label_at, resolve, reg_at, encode_branch}

-- A block that returns has a first operation that returned.
>>=-ok :
    {S T : Type 0} (first : Result S) (next : S → Result T) {result : T}
    → first >>= next ≡ ok result
    → (value : S) × (first ≡ ok value) × (next value ≡ ok result)
>>=-ok (raised error) next e = absurd (cc e)
>>=-ok (ok value) next e = (value, refl, e)

register-lt : (letter : ℕ) (tok : List ℕ) (n : ℕ) → register letter tok ≡ ok n → n < 32
unfolding register
register-lt letter [] n e = absurd (cc e)
register-lt letter (c ∷ []) n e = absurd (cc e)
register-lt letter (c ∷ d ∷ cs) n e = ground arith

reg_at-lt : (args : List (List ℕ)) (k n : ℕ) → reg_at args k ≡ ok n → n < 32
unfolding reg_at reg
reg_at-lt args k n e =
    let (tok, there, named) = >>=-ok (arg args k) reg e in register-lt b'x' (strip tok) n named

branch-eq-some :
    (mn : Branch) (rs1 rs2 : ℕ) (offs : ℤ) (w : ℕ)
    → or_value_error (Encode.branch mn rs1 rs2 offs) ≡ ok w
    → (Encode.branch mn rs1 rs2 offs ≡ some w) × Fits 13 offs × (low_bits 13 offs % 2 ≡ 0)
unfolding Encode.branch Encode.imm_signed
branch-eq-some mn rs1 rs2 offs w e = ground arith

branch-decodes :
    (mn : Branch) (rs1 rs2 : ℕ) (offs : ℤ) (w : ℕ)
    → rs1 < 32
    → rs2 < 32
    → or_value_error (Encode.branch mn rs1 rs2 offs) ≡ ok w
    → (imm_b_of w ≡ offs) × (opcode_of w ≡ op_branch) × (funct3_of w ≡ branch_funct3 mn)
branch-decodes mn rs1 rs2 offs w h1 h2 e =
    let (coded, fits, even) = branch-eq-some mn rs1 rs2 offs w e in
    let (v, coded', imm, op, f3, r1, r2) = branch_decodes mn rs1 rs2 offs h1 h2 fits even in
    let same : v ≡ w = cc (sym coded' ∙ coded) in
    (ap imm_b_of (sym same) ∙ imm, ap opcode_of (sym same) ∙ op, ap funct3_of (sym same) ∙ f3)

pub resolve-label :
    (labels : Labels) (tok : List ℕ) (cur_addr target : ℕ)
    → label_at labels (strip tok) ≡ some target
    → resolve labels tok cur_addr ≡ ok (pos target -ℤ pos cur_addr)
unfolding resolve
resolve-label labels tok cur_addr target e = rw (e, resolve) refl

-- The word of a branch to a label is a branch with the mnemonic's funct3, and the simulator decodes
-- from it the distance from the statement's address to the label's.
pub encode_branch-target :
    (mn : Branch) (labels : Labels) (cur_addr target w : ℕ) (args : List (List ℕ)) (tok : List ℕ)
    → get_elem? args 2 ≡ some tok
    → label_at labels (strip tok) ≡ some target
    → encode_branch mn labels cur_addr args ≡ ok w
    → (opcode_of w ≡ op_branch)
      × (funct3_of w ≡ branch_funct3 mn)
      × (imm_b_of w ≡ pos target -ℤ pos cur_addr)
unfolding encode_branch arg
encode_branch-target mn labels cur_addr target w args tok there labelled e =
    let third : arg args 2 ≡ ok tok = rw (there, arg) refl in
    let placed = resolve-label labels tok cur_addr target labelled in
    let (rs1, e1, k1) = >>=-ok (reg_at args 0) _ e in
    let (rs2, e2, k2) = >>=-ok (reg_at args 1) _ k1 in
    let coded : or_value_error (Encode.branch mn rs1 rs2 (pos target -ℤ pos cur_addr)) ≡ ok w =
      sym (rw (third, placed) refl) ∙ k2 in
    let (imm, op, f3) =
      branch-decodes mn rs1 rs2 (pos target -ℤ pos cur_addr) w (reg_at-lt args 0 rs1 e1)
        (reg_at-lt args 1 rs2 e2) coded in
    (op, f3, imm)
