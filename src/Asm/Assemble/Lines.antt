-- ===== src/Asm/Assemble/Lines.antt =====
-- sim/tools/asm.py, `assemble`: what the first pass takes a line for.
use rv32im_5_stage_pipelined.Base.{
  ℕ, ◌+◌, ◌≡◌, refl, ap, ◌∙◌, arith, Option, none, some, List, [], ◌∷◌, ◌++◌,
}
use rv32im_5_stage_pipelined.Base.Lists.{length}
use rv32im_5_stage_pipelined.Asm.Text.{strip, without_last}
use rv32im_5_stage_pipelined.Asm.Statement.{Labels}
use rv32im_5_stage_pipelined.Asm.Assemble.{Pass, clean, first_pass}

abbrev pub put_label : ℕ → Labels → List ℕ → Labels
put_label addr labels name = (strip name, addr) ∷ labels

abbrev pub put_stmt : ℕ → List ℕ → Pass → Pass
put_stmt addr line later = record { stmts = (addr, line) ∷ later.stmts; labels = later.labels }

-- An empty line, a label or a statement.
pub data LineKind : Type 0 where
  blank : LineKind
  label : List ℕ → LineKind
  statement : List ℕ → LineKind

abbrev pub unless_named : List ℕ → Option (List ℕ) → LineKind
unless_named line (some name) = label name
unless_named line none = statement line

abbrev pub kind_of_clean : List ℕ → LineKind
kind_of_clean [] = blank
kind_of_clean (c ∷ cs) = unless_named (c ∷ cs) (without_last b':' (c ∷ cs))

abbrev pub kind_of : List ℕ → LineKind
kind_of raw = kind_of_clean (clean raw)

abbrev pub pass_of : LineKind → List (List ℕ) → ℕ → Labels → Pass
pass_of blank rest addr labels = first_pass rest addr labels
pass_of (label name) rest addr labels = first_pass rest addr (put_label addr labels name)
pass_of (statement line) rest addr labels = put_stmt addr line (first_pass rest (addr + 4) labels)

pub first_pass-kind_of :
    (raw : List ℕ) (rest : List (List ℕ)) (addr : ℕ) (labels : Labels)
    → first_pass (raw ∷ rest) addr labels ≡ pass_of (kind_of raw) rest addr labels
unfolding first_pass
first_pass-kind_of raw rest addr labels = by_line (clean raw)
  where
    by_end :
        (line : List ℕ) (left : Option (List ℕ))
        → ◌≡◌ {A = Pass}
            (elim left [
              | some name ↦ first_pass rest addr (put_label addr labels name)
              | none ↦ put_stmt addr line (first_pass rest (addr + 4) labels)
            ])
            (pass_of (unless_named line left) rest addr labels)
    by_end line (some name) = refl
    by_end line none = refl

    by_line :
        (line : List ℕ)
        → ◌≡◌ {A = Pass}
            (elim line [
              | [] ↦ first_pass rest addr labels
              | c ∷ cs ↦ elim (without_last b':' (c ∷ cs)) [
                | some name ↦ first_pass rest addr (put_label addr labels name)
                | none ↦ put_stmt addr (c ∷ cs) (first_pass rest (addr + 4) labels)
              ]
            ])
            (pass_of (kind_of_clean line) rest addr labels)
    by_line [] = refl
    by_line (c ∷ cs) = by_end (c ∷ cs) (without_last b':' (c ∷ cs))

abbrev pub weight_of : LineKind → ℕ
weight_of blank = 0
weight_of (label name) = 0
weight_of (statement line) = 1

-- The statements among the lines.
abbrev pub count : List (List ℕ) → ℕ
count [] = 0
count (raw ∷ lines) = weight_of (kind_of raw) + count lines

pub count-append : (xs ys : List (List ℕ)) → count (xs ++ ys) ≡ count xs + count ys
count-append [] ys = omega arith
count-append (x ∷ xs) ys = omega (arith, count-append xs ys)

pub count-first_pass :
    (lines : List (List ℕ)) (addr : ℕ) (labels : Labels)
    → length (first_pass lines addr labels).stmts ≡ count lines
unfolding first_pass
count-first_pass [] addr labels = refl
count-first_pass (raw ∷ lines) addr labels =
    ap (λ (p : Pass). length p.stmts) (first_pass-kind_of raw lines addr labels)
    ∙ by_kind (count-first_pass lines) (kind_of raw)
  where
    by_kind :
        ((a : ℕ) (l : Labels) → length (first_pass lines a l).stmts ≡ count lines)
        → (k : LineKind) → length (pass_of k lines addr labels).stmts ≡ weight_of k + count lines
    by_kind later blank = omega (arith, later addr labels)
    by_kind later (label name) = omega (arith, later addr (put_label addr labels name))
    by_kind later (statement line) = omega (arith, later (addr + 4) labels)
