-- ===== src/RandomGen/Fine/Assembles.antt =====
-- sim/tools/asm.py: `assemble` encodes every statement of such lines.
use rv32im_5_stage_pipelined.Base.{
  ℕ, suc, ◌*◌, ◌%◌, ◌<◌, ◌≤◌, ◌≡◌, refl, ap, ◌∙◌, arith, some, List, [], ◌∷◌, inl, inr,
}
use rv32im_5_stage_pipelined.Base.Int.{pos, low_bits, ◌-ℤ◌}
use rv32im_5_stage_pipelined.Base.Lists.{length}
use rv32im_5_stage_pipelined.Iss.Word.Laws.{Fits}
use rv32im_5_stage_pipelined.Asm.Mnemonic.{Branch}
use rv32im_5_stage_pipelined.Asm.Decode.{branch_decodes, jal_decodes}
use rv32im_5_stage_pipelined.Asm.Text.{codes, strip}
use rv32im_5_stage_pipelined.Asm.Table.{Mnemonic}
use rv32im_5_stage_pipelined.Asm.Operands.{ok}
use rv32im_5_stage_pipelined.Asm.Statement.{
  Labels, label_at, resolve, encode, encode_branch, encode_jal, encode_line,
}
use rv32im_5_stage_pipelined.Asm.Statement.Target.{resolve-label}
use rv32im_5_stage_pipelined.Asm.Assemble.{first_pass, second_pass, assemble}
use rv32im_5_stage_pipelined.Asm.Assemble.Places.{first_pass-LabelsPlaced}
use rv32im_5_stage_pipelined.RandomGen.Source.{All}
use rv32im_5_stage_pipelined.RandomGen.Lines.{x_reg}
use rv32im_5_stage_pipelined.RandomGen.Texts.{IsPlain}
use rv32im_5_stage_pipelined.RandomGen.Tokens.{reg-x_reg}
use rv32im_5_stage_pipelined.RandomGen.Encodes.{Named, encode_line-line}
use rv32im_5_stage_pipelined.RandomGen.Fine.{
  In, IsName, branch_to, jal_to, Stmt, Fine, jal-Named, IsPlaced, first_pass-IsPlaced,
  first_pass-sets,
}

-- The distance between two statements fits a branch, and is even.
distance-Fits : (i j : ℕ) → i ≤ 1023 → j ≤ 1023 → Fits 13 (pos (4 * j) -ℤ pos (4 * i))
unfolding ◌-ℤ◌
distance-Fits i j hi hj = ground arith

distance_even : (i j : ℕ) → i ≤ 1023 → j ≤ 1023 → low_bits 13 (pos (4 * j) -ℤ pos (4 * i)) % 2 ≡ 0
unfolding ◌-ℤ◌
distance_even i j hi hj = ground arith

distance21-Fits : (i j : ℕ) → i ≤ 1023 → j ≤ 1023 → Fits 21 (pos (4 * j) -ℤ pos (4 * i))
unfolding ◌-ℤ◌
distance21-Fits i j hi hj = ground arith

distance_even21 : (i j : ℕ) → i ≤ 1023 → j ≤ 1023 → low_bits 21 (pos (4 * j) -ℤ pos (4 * i)) % 2 ≡ 0
unfolding ◌-ℤ◌
distance_even21 i j hi hj = ground arith

abbrev Encoded : ℕ → Labels → ℕ → List ℕ → Type 0
Encoded xlen labels addr t = (w : ℕ) × (encode_line xlen labels addr t ≡ ok w)

module _ (xlen : ℕ) (labels : Labels) (i j : ℕ) (hi : i ≤ 1023) (hj : j ≤ 1023) (tok : List ℕ)
    (p : IsPlain tok) (stripped : strip tok ≡ tok)
    (known : label_at labels tok ≡ some (4 * j)) where
  resolved : resolve labels tok (4 * i) ≡ ok (pos (4 * j) -ℤ pos (4 * i))
  resolved = resolve-label labels tok (4 * i) (4 * j) (ap (label_at labels) stripped ∙ known)

  branch_to-Encoded :
      (mn : List ℕ) (m : Branch) (rs1 rs2 : ℕ)
      → Named mn (Mnemonic.branch m)
      → rs1 < 32
      → rs2 < 32
      → Encoded xlen labels (4 * i) (branch_to mn rs1 rs2 tok)
  unfolding encode encode_branch
  branch_to-Encoded mn m rs1 rs2 named h1 h2 =
      let (a, p1) = reg-x_reg rs1 h1 in
      let (b, p2) = reg-x_reg rs2 h2 in
      let (w, coded, e0, e1, e2, e3, e4) =
        branch_decodes m rs1 rs2 (pos (4 * j) -ℤ pos (4 * i)) h1 h2 (distance-Fits i j hi hj)
          (distance_even i j hi hj) in
      (
        w,
        encode_line-line xlen labels (4 * i) mn (x_reg rs1) (x_reg rs2 ∷ tok ∷ [])
              (Mnemonic.branch m) named p1 (p2, (p, tt))
            ∙ rw (a, b, resolved, coded) refl,
      )

  jal_to-Encoded : (rd : ℕ) → rd < 32 → Encoded xlen labels (4 * i) (jal_to rd tok)
  unfolding encode encode_jal
  jal_to-Encoded rd hd =
      let (a, p1) = reg-x_reg rd hd in
      let (w, coded, e0, e1, e2) =
        jal_decodes rd (pos (4 * j) -ℤ pos (4 * i)) hd (distance21-Fits i j hi hj)
          (distance_even21 i j hi hj) in
      (
        w,
        encode_line-line xlen labels (4 * i) (codes "jal") (x_reg rd) (tok ∷ []) Mnemonic.jal
              jal-Named p1 (p, tt)
            ∙ rw (a, resolved, coded) refl,
      )

module _ (xlen : ℕ) (ls : List (List ℕ)) where
  -- Every label of the program is set, at a place within it.
  abbrev AllSet : Labels → Type 0
  AllSet labels =
      (l name : List ℕ)
      → IsName l name
      → In l ls
      → (j : ℕ) × (label_at labels name ≡ some (4 * j)) × (j ≤ 1023)

  Stmt-Encoded :
      (labels : Labels) (i : ℕ)
      → i ≤ 1023
      → AllSet labels
      → {t : List ℕ} → Stmt xlen ls t
      → Encoded xlen labels (4 * i) t
  Stmt-Encoded labels i hi set (Stmt.as_it_stands t e) = e.1 labels (4 * i)
  Stmt-Encoded labels i hi set (Stmt.to_label mn m rs1 rs2 tok l named h1 h2 p n at) =
      let (j, known, hj) = set l tok n at in
      branch_to-Encoded xlen labels i j hi hj tok p n.2 known mn m rs1 rs2 named h1 h2
  Stmt-Encoded labels i hi set (Stmt.jump rd tok l hd p n at) =
      let (j, known, hj) = set l tok n at in
      jal_to-Encoded xlen labels i j hi hj tok p n.2 known rd hd

  second_pass-ok :
      (labels : Labels) (stmts : List (ℕ × List ℕ))
      → AllSet labels
      → All (IsPlaced xlen ls) stmts
      → (words : List ℕ) × (second_pass xlen labels stmts ≡ ok words)
        × (length words ≡ length stmts)
  unfolding second_pass
  second_pass-ok labels [] set h = ([], refl, refl)
  second_pass-ok labels ((addr, t) ∷ stmts) set ((s, (i, e, hi)), h) =
      let (w, coded) = Stmt-Encoded labels i hi set s in
      let here : encode_line xlen labels addr t ≡ ok w =
        ap (λ (a : ℕ). encode_line xlen labels a t) e ∙ coded in
      let (words, made, size) = second_pass-ok labels stmts set h in
      (w ∷ words, rw (here, made) refl, ap suc size)

  -- A program of such lines with at most 1023 statements is assembled, to a word for each.
  pub assemble-Fine :
      All (Fine xlen ls) ls
      → length (first_pass ls 0 []).stmts ≤ 1023
      → (words : List ℕ) × (assemble xlen ls ≡ ok words)
        × (length words ≡ length (first_pass ls 0 []).stmts)
  unfolding assemble label_at
  assemble-Fine fine small =
      second_pass-ok (first_pass ls 0 []).labels (first_pass ls 0 []).stmts set
        (first_pass-IsPlaced xlen ls ls 0 0 [] (omega arith) fine (omega arith))
    where
      set : AllSet (first_pass ls 0 []).labels
      set l name n at =
          let (a, known) = first_pass-sets xlen ls l name ls 0 [] fine n at in
          elim (first_pass-LabelsPlaced ls 0 [] name a known) [
            | inl old ↦ absurd (cc old)
            | inr (j, place, le) ↦
                let here : a ≡ 4 * j = omega arith in (j, known ∙ ap some here, omega arith)
          ]
