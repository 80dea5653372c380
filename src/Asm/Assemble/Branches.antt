-- ===== src/Asm/Assemble/Branches.antt =====
-- sim/tools/asm.py, `assemble`: the branches of a program.
use rv32im_5_stage_pipelined.Base.{
  ℕ, ◌+◌, ◌*◌, ◌≤◌, ◌≡◌, refl, sym, ap, ◌∙◌, arith, some, List, [], ◌∷◌, ◌++◌,
}
use rv32im_5_stage_pipelined.Base.Int.{pos, ◌-ℤ◌}
use rv32im_5_stage_pipelined.Base.Lists.{length, get_elem?, get_elem?-lt, get_elem?-some}
use rv32im_5_stage_pipelined.Iss.Fields.{opcode_of, funct3_of, imm_b_of}
use rv32im_5_stage_pipelined.Asm.Mnemonic.{Branch, branch_funct3}
use rv32im_5_stage_pipelined.Asm.Encode.{op_branch}
use rv32im_5_stage_pipelined.Asm.Text.{lower, strip, split_fields}
use rv32im_5_stage_pipelined.Asm.Table.{Mnemonic, mnemonic_of}
use rv32im_5_stage_pipelined.Asm.Operands.{ok}
use rv32im_5_stage_pipelined.Asm.Statement.{
  Labels, label_at, encode, encode_branch, encode_fields, encode_line,
}
use rv32im_5_stage_pipelined.Asm.Statement.Target.{encode_branch-target}
use rv32im_5_stage_pipelined.Asm.Assemble.{first_pass, assemble}
use rv32im_5_stage_pipelined.Asm.Assemble.Lines.{statement, kind_of, count}
use rv32im_5_stage_pipelined.Asm.Assemble.Targets.{IsLabel, NoLabel, label_at-line, get_elem?-line}
use rv32im_5_stage_pipelined.Asm.Assemble.Places.{assemble-places}

encode_line-branch :
    (xlen : ℕ) (labels : Labels) (addr : ℕ) (line name : List ℕ) (args : List (List ℕ))
    (mn : Branch)
    → split_fields (strip line) ≡ name ∷ args
    → mnemonic_of (lower name) ≡ some (Mnemonic.branch mn)
    → encode_line xlen labels addr line ≡ encode_branch mn labels addr args
unfolding encode_line encode_fields encode
encode_line-branch xlen labels addr line name args mn fields named =
    ap (encode_fields xlen labels addr) fields ∙ rw (named, encode_fields) refl

assemble-branch_at :
    (xlen : ℕ) (lines : List (List ℕ)) (words : List ℕ) (k a w : ℕ) (line name tok : List ℕ)
    (args : List (List ℕ)) (mn : Branch) (target : ℕ)
    → assemble xlen lines ≡ ok words
    → get_elem? words k ≡ some w
    → get_elem? (first_pass lines 0 []).stmts k ≡ some (a, line)
    → split_fields (strip line) ≡ name ∷ args
    → mnemonic_of (lower name) ≡ some (Mnemonic.branch mn)
    → get_elem? args 2 ≡ some tok
    → label_at (first_pass lines 0 []).labels (strip tok) ≡ some target
    → (opcode_of w ≡ op_branch)
      × (funct3_of w ≡ branch_funct3 mn)
      × (imm_b_of w ≡ pos target -ℤ pos (4 * k))
      × ((j : ℕ) × (target ≡ 4 * j) × (j ≤ length words))
assemble-branch_at xlen lines words k a w line name tok args mn target e at stated fields named
      third labelled =
    let labels = (first_pass lines 0 []).labels in
    let (size, encoded, placed) = assemble-places xlen lines words e in
    let (line', stated', coded) = encoded k w at in
    let same_line : line' ≡ line = ground (arith, stated, stated') in
    let branched : encode_branch mn labels (4 * k) args ≡ ok w =
      sym (encode_line-branch xlen labels (4 * k) line name args mn fields named)
      ∙ ap (encode_line xlen labels (4 * k)) (sym same_line)
      ∙ coded in
    let (op, f3, imm) =
      encode_branch-target mn labels (4 * k) target w args tok third labelled branched in
    (op, f3, imm, placed (strip tok) target labelled)

-- In a program that is assembled, take a line that is a statement, with a branch mnemonic and a label
-- for its third operand, and the last line that sets this label. The word of the statement has as its
-- index the statements in front of its line; the simulator decodes from it the branch and, as its
-- offset, four times the statements in front of the label less four times those in front of the
-- branch. There are no more statements in front of the label than words.
pub assemble-branch :
    (xlen : ℕ) (lines : List (List ℕ)) (words : List ℕ) (front : List (List ℕ)) (raw line : List ℕ)
    (back : List (List ℕ)) (name tok : List ℕ) (args : List (List ℕ)) (mn : Branch)
    (label_front : List (List ℕ)) (label_raw label_name : List ℕ) (label_back : List (List ℕ))
    → assemble xlen lines ≡ ok words
    → lines ≡ front ++ (raw ∷ back)
    → kind_of raw ≡ statement line
    → split_fields (strip line) ≡ name ∷ args
    → mnemonic_of (lower name) ≡ some (Mnemonic.branch mn)
    → get_elem? args 2 ≡ some tok
    → lines ≡ label_front ++ (label_raw ∷ label_back)
    → IsLabel label_name label_raw
    → strip label_name ≡ strip tok
    → NoLabel (strip label_name) label_back
    → (w : ℕ) × (get_elem? words (count front) ≡ some w)
      × (opcode_of w ≡ op_branch)
      × (funct3_of w ≡ branch_funct3 mn)
      × (imm_b_of w ≡ pos (4 * count label_front) -ℤ pos (4 * count front))
      × (count label_front ≤ length words)
assemble-branch xlen lines words front raw line back name tok args mn label_front label_raw
      label_name label_back e whole stated fields named third label_whole labelled same_name
      none_later =
    let placed : get_elem? (first_pass lines 0 []).stmts (count front)
        ≡ some (0 + 4 * count front, line) =
      ap (λ (ls : List (List ℕ)). get_elem? (first_pass ls 0 []).stmts (count front)) whole
      ∙ get_elem?-line front raw line back 0 [] stated in
    let zero_left : 0 + 4 * count label_front ≡ 4 * count label_front = omega arith in
    let target : label_at (first_pass lines 0 []).labels (strip tok)
        ≡ some (4 * count label_front) =
      ap (label_at (first_pass lines 0 []).labels) (sym same_name)
      ∙ ap (λ (ls : List (List ℕ)). label_at (first_pass ls 0 []).labels (strip label_name))
          label_whole
      ∙ label_at-line label_front label_raw label_name label_back 0 [] labelled none_later
      ∙ ap (λ (a : ℕ). some a) zero_left in
    let size = (assemble-places xlen lines words e).0 in
    let inside =
      get_elem?-lt (first_pass lines 0 []).stmts (count front) (0 + 4 * count front, line) placed in
    let (w, at) = get_elem?-some words (count front) (omega arith) in
    let (op, f3, imm, (j, here, le)) =
      assemble-branch_at xlen lines words (count front) (0 + 4 * count front) w line name tok args
        mn (4 * count label_front) e at placed fields named third target in
    (w, at, op, f3, imm, omega arith)
