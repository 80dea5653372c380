-- ===== src/RandomGen/Fine.antt =====
-- sim/tools/asm.py, `assemble`, on lines of the forms that sim/tools/random_gen.py writes.
pub mod Assembles
pub mod Lines
use Prim.Native.String
use mathlib.Core.Path.{subst}
use rv32im_5_stage_pipelined.Base.{
  ℕ, zero, suc, ◌+◌, ◌-◌, ◌*◌, ◌%◌, ◌<◌, ◌≤◌, ◌≡◌, refl, sym, ap, ◌∙◌, arith, Bool, true, false,
  Option, none, some, List, [], ◌∷◌, ◌++◌, ◌⊎◌, inl, inr,
}
use rv32im_5_stage_pipelined.Base.Int.{ℤ, pos, low_bits, ◌-ℤ◌}
use rv32im_5_stage_pipelined.Base.Lists.{length}
use rv32im_5_stage_pipelined.Iss.Word.Laws.{Fits}
use rv32im_5_stage_pipelined.Asm.Mnemonic.{Branch}
use rv32im_5_stage_pipelined.Asm.Encode
use rv32im_5_stage_pipelined.Asm.Decode.{branch_decodes, jal_decodes}
use rv32im_5_stage_pipelined.Asm.Text.{codes, same, lower, strip, without_last}
use rv32im_5_stage_pipelined.Asm.Table.{Mnemonic, mnemonic_of}
use rv32im_5_stage_pipelined.Asm.Operands.{Result, ok, ◌>>=◌, or_value_error, arg, reg}
use rv32im_5_stage_pipelined.Asm.Statement.{
  Labels, label_at, resolve, reg_at, encode, encode_branch, encode_jal, encode_line,
}
use rv32im_5_stage_pipelined.Asm.Statement.Target.{resolve-label}
use rv32im_5_stage_pipelined.Asm.Assemble.{Pass, clean, first_pass, second_pass, assemble}
use rv32im_5_stage_pipelined.Asm.Assemble.Lines.{put_label, put_stmt}
use rv32im_5_stage_pipelined.Asm.Assemble.Places.{LabelsPlaced, first_pass-LabelsPlaced}
use rv32im_5_stage_pipelined.RandomGen.Source.{All}
use rv32im_5_stage_pipelined.RandomGen.Lines.{x_reg, line}
use rv32im_5_stage_pipelined.RandomGen.Texts.{plain, IsPlain, IsStmt, line-IsStmt}
use rv32im_5_stage_pipelined.RandomGen.Tokens.{reg-x_reg}
use rv32im_5_stage_pipelined.Asm.Text.Same.{same_refl}
use rv32im_5_stage_pipelined.RandomGen.Encodes.{IsEncodable, Named, encode_line-line}

abbrev pub In : {A : Type 0} → A → List A → Type 0
In a [] = ⊥
In a (x ∷ xs) = (a ≡ x) ⊎ In a xs

-- A line that sets a label.
abbrev pub IsName : List ℕ → List ℕ → Type 0
IsName l name = (clean l ≡ l) × (without_last b':' l ≡ some name) × (strip name ≡ name)

-- A branch or a jump to a name.
abbrev pub branch_to : List ℕ → ℕ → ℕ → List ℕ → List ℕ
branch_to mn rs1 rs2 tok = line mn (x_reg rs1) (x_reg rs2 ∷ tok ∷ [])

abbrev pub jal_to : ℕ → List ℕ → List ℕ
jal_to rd tok = line (codes "jal") (x_reg rd) (tok ∷ [])

-- The statements of a program with the lines `ls`: encoded as they stand, or going to a label of it.
pub data Stmt (xlen : ℕ) (ls : List (List ℕ)) : List ℕ → Type 0 where
  as_it_stands : (t : List ℕ) → IsEncodable xlen t → Stmt xlen ls t
  to_label :
      (mn : List ℕ) (m : Branch) (rs1 rs2 : ℕ) (tok l : List ℕ)
      → Named mn (Mnemonic.branch m)
      → rs1 < 32
      → rs2 < 32
      → IsPlain tok
      → IsName l tok
      → In l ls
      → Stmt xlen ls (branch_to mn rs1 rs2 tok)
  jump :
      (rd : ℕ) (tok l : List ℕ)
      → rd < 32
      → IsPlain tok
      → IsName l tok
      → In l ls
      → Stmt xlen ls (jal_to rd tok)

-- A line of such a program.
pub data Fine (xlen : ℕ) (ls : List (List ℕ)) : List ℕ → Type 0 where
  stmt : (t : List ℕ) → Stmt xlen ls t → Fine xlen ls t
  label : (l name : List ℕ) → IsName l name → Fine xlen ls l

pub jal-Named : Named (codes "jal") Mnemonic.jal
unfolding plain mnemonic_of lower
jal-Named = (refl, refl)

module _ (xlen : ℕ) (ls : List (List ℕ)) where
  pub Stmt-IsStmt : {t : List ℕ} → Stmt xlen ls t → IsStmt t
  Stmt-IsStmt (Stmt.as_it_stands t e) = e.0
  Stmt-IsStmt (Stmt.to_label mn m rs1 rs2 tok l named h1 h2 p n i) =
      line-IsStmt mn (x_reg rs1) (x_reg rs2 ∷ tok ∷ []) named.0 (reg-x_reg rs1 h1).1
        ((reg-x_reg rs2 h2).1, (p, tt))
  Stmt-IsStmt (Stmt.jump rd tok l hd p n i) =
      line-IsStmt (codes "jal") (x_reg rd) (tok ∷ []) jal-Named.0 (reg-x_reg rd hd).1 (p, tt)

pub first_pass-stmt :
    (t : List ℕ) (rest : List (List ℕ)) (addr : ℕ) (labels : Labels)
    → IsStmt t
    → first_pass (t ∷ rest) addr labels ≡ put_stmt addr t (first_pass rest (addr + 4) labels)
unfolding first_pass
first_pass-stmt [] rest addr labels h = absurd (cc h.0)
first_pass-stmt (c ∷ cs) rest addr labels (h0, h1, h2, h3) = rw (h1, h3, first_pass) refl

pub first_pass-label :
    (l name : List ℕ) (rest : List (List ℕ)) (addr : ℕ) (labels : Labels)
    → IsName l name
    → first_pass (l ∷ rest) addr labels ≡ first_pass rest addr (put_label addr labels name)
unfolding first_pass without_last
first_pass-label [] name rest addr labels h = absurd (cc h.1)
first_pass-label (c ∷ cs) name rest addr labels (h0, h1, h2) = rw (h0, h1, first_pass) refl

module _ (xlen : ℕ) (ls : List (List ℕ)) where
  -- A line of the program adds a statement or a label.
  pub fine_step :
      (P : Pass → Type 0) (rest : List (List ℕ)) (addr : ℕ) (labels : Labels) {t : List ℕ}
      → Fine xlen ls t
      → (Stmt xlen ls t → P (put_stmt addr t (first_pass rest (addr + 4) labels)))
      → ((name : List ℕ) → IsName t name → P (first_pass rest addr (put_label addr labels name)))
      → P (first_pass (t ∷ rest) addr labels)
  fine_step P rest addr labels (Fine.stmt t s) stated labelled =
      subst P (sym (first_pass-stmt t rest addr labels (Stmt-IsStmt xlen ls s))) (stated s)
  fine_step P rest addr labels (Fine.label l name n) stated labelled =
      subst P (sym (first_pass-label l name rest addr labels n)) (labelled name n)

  -- A statement of the first pass, at an address that is a multiple of 4 below the bound.
  abbrev pub IsPlaced : ℕ × List ℕ → Type 0
  IsPlaced s = Stmt xlen ls s.1 × ((i : ℕ) × (s.0 ≡ 4 * i) × (i ≤ 1023))

  pub first_pass-IsPlaced :
      (rest : List (List ℕ)) (addr i : ℕ) (labels : Labels)
      → addr ≡ 4 * i
      → All (Fine xlen ls) rest
      → i + length (first_pass rest addr labels).stmts ≤ 1023
      → All IsPlaced (first_pass rest addr labels).stmts
  unfolding first_pass
  first_pass-IsPlaced [] addr i labels e h = λ le. tt
  first_pass-IsPlaced (t ∷ rest) addr i labels e (f, h) =
      fine_step (λ p. i + length p.stmts ≤ 1023 → All IsPlaced p.stmts) rest addr labels f
        (λ s le. (
          (s, (i, e, omega arith)),
          first_pass-IsPlaced rest (addr + 4) (suc i) labels (omega arith) h (omega arith),
        ))
        (λ name n. first_pass-IsPlaced rest addr i (put_label addr labels name) e h)

  abbrev pub IsKnown : List ℕ → Labels → Type 0
  IsKnown name labels = (a : ℕ) × (label_at labels name ≡ some a)

  put_label-IsKnown :
      (name new : List ℕ) (addr : ℕ) (labels : Labels)
      → IsKnown name labels
      → IsKnown name (put_label addr labels new)
  unfolding label_at
  put_label-IsKnown name new addr labels known = by_name (same (strip new) name)
    where
      by_name :
          (b : Bool)
          → (a : ℕ) × (elim b [ true ↦ some addr | false ↦ label_at labels name ] ≡ some a)
      by_name true = (addr, refl)
      by_name false = known

  -- A label that is set stays set.
  first_pass-IsKnown :
      (name : List ℕ) (rest : List (List ℕ)) (addr : ℕ) (labels : Labels)
      → All (Fine xlen ls) rest
      → IsKnown name labels
      → IsKnown name (first_pass rest addr labels).labels
  unfolding first_pass
  first_pass-IsKnown name [] addr labels h known = known
  first_pass-IsKnown name (t ∷ rest) addr labels (f, h) known =
      fine_step (λ p. IsKnown name p.labels) rest addr labels f
        (λ s. first_pass-IsKnown name rest (addr + 4) labels h known)
        (λ new n.
          first_pass-IsKnown name rest addr (put_label addr labels new) h
            (put_label-IsKnown name new addr labels known))

  put_label-at :
      (name : List ℕ) (addr : ℕ) (labels : Labels)
      → strip name ≡ name
      → IsKnown name (put_label addr labels name)
  unfolding label_at
  put_label-at name addr labels e =
      let found : same (strip name) name ≡ true =
        ap (λ (t : List ℕ). same t name) e ∙ same_refl name in
      (addr, rw (found, label_at) refl)

  -- The line of a label sets it.
  pub first_pass-sets :
      (l name : List ℕ) (rest : List (List ℕ)) (addr : ℕ) (labels : Labels)
      → All (Fine xlen ls) rest
      → IsName l name
      → In l rest
      → IsKnown name (first_pass rest addr labels).labels
  first_pass-sets l name [] addr labels h n i = absurd i
  first_pass-sets l name (t ∷ rest) addr labels (f, h) n (inl e) =
      subst (λ (t' : List ℕ). IsKnown name (first_pass (t' ∷ rest) addr labels).labels) e
        (subst (λ (p : Pass). IsKnown name p.labels)
          (sym (first_pass-label l name rest addr labels n))
          (first_pass-IsKnown name rest addr (put_label addr labels name) h
            (put_label-at name addr labels n.2)))
  first_pass-sets l name (t ∷ rest) addr labels (f, h) n (inr i) =
      fine_step (λ p. IsKnown name p.labels) rest addr labels f
        (λ s. first_pass-sets l name rest (addr + 4) labels h n i)
        (λ new k. first_pass-sets l name rest addr (put_label addr labels new) h n i)
