-- ===== src/Asm/Assemble/Places.antt =====
-- sim/tools/asm.py, `assemble`: the addresses of statements and labels, and the words at them.
use mathlib.Core.Path.{subst}
use rv32im_5_stage_pipelined.Base.{
  ℕ, zero, suc, ◌+◌, ◌*◌, ◌≤◌, ◌≡◌, refl, sym, ap, ◌∙◌, arith, Bool, true, false, Option, some,
  List, [], ◌∷◌, inl, inr, ◌⊎◌,
}
use rv32im_5_stage_pipelined.Base.Lists.{length, get_elem?}
use rv32im_5_stage_pipelined.Asm.Text.{same, strip}
use rv32im_5_stage_pipelined.Asm.Operands.{Result, ok, raised, ◌>>=◌}
use rv32im_5_stage_pipelined.Asm.Statement.{Labels, label_at, encode_line}
use rv32im_5_stage_pipelined.Asm.Assemble.Lines.{
  put_label, put_stmt, LineKind, blank, label, statement, kind_of, pass_of, first_pass-kind_of,
}
use rv32im_5_stage_pipelined.Asm.Assemble.{Pass, first_pass, second_pass, assemble}

-- A line is empty, a label or a statement.
first_pass-cases :
    (P : Pass → Type 0) (raw : List ℕ) (rest : List (List ℕ)) (addr : ℕ) (labels : Labels)
    → P (first_pass rest addr labels)
    → ((name : List ℕ) → P (first_pass rest addr (put_label addr labels name)))
    → ((line : List ℕ) → P (put_stmt addr line (first_pass rest (addr + 4) labels)))
    → P (first_pass (raw ∷ rest) addr labels)
first_pass-cases P raw rest addr labels empty labelled stated =
    subst P (sym (first_pass-kind_of raw rest addr labels)) (by_kind (kind_of raw))
  where
    by_kind : (k : LineKind) → P (pass_of k rest addr labels)
    by_kind blank = empty
    by_kind (label name) = labelled name
    by_kind (statement line) = stated line

-- The statement `k` stands `k` words behind the address where the pass begins.
abbrev StmtsPlaced : ℕ → Pass → Type 0
StmtsPlaced addr p =
    (k a : ℕ) (line : List ℕ) → get_elem? p.stmts k ≡ some (a, line) → a ≡ addr + 4 * k

put_stmt-StmtsPlaced :
    (addr : ℕ) (line : List ℕ) (later : Pass)
    → StmtsPlaced (addr + 4) later
    → StmtsPlaced addr (put_stmt addr line later)
put_stmt-StmtsPlaced addr line later h zero a line' e = ground arith
put_stmt-StmtsPlaced addr line later h (suc k) a line' e = omega (arith, h k a line' e)

first_pass-StmtsPlaced :
    (lines : List (List ℕ)) (addr : ℕ) (labels : Labels)
    → StmtsPlaced addr (first_pass lines addr labels)
unfolding first_pass
first_pass-StmtsPlaced [] addr labels = λ k a line e. absurd (cc e)
first_pass-StmtsPlaced (raw ∷ rest) addr labels =
    first_pass-cases (StmtsPlaced addr) raw rest addr labels
      (first_pass-StmtsPlaced rest addr labels)
      (λ name. first_pass-StmtsPlaced rest addr (put_label addr labels name))
      λ line.
        put_stmt-StmtsPlaced addr line (first_pass rest (addr + 4) labels)
          (first_pass-StmtsPlaced rest (addr + 4) labels)

-- A label stands at a statement of the pass or behind the last, or was there before.
abbrev pub LabelsPlaced : ℕ → Labels → Pass → Type 0
LabelsPlaced addr labels p =
    (name : List ℕ) (a : ℕ)
    → label_at p.labels name ≡ some a
    → (label_at labels name ≡ some a) ⊎ ((j : ℕ) × (a ≡ addr + 4 * j) × (j ≤ length p.stmts))

put_label-LabelsPlaced :
    (addr : ℕ) (labels : Labels) (name : List ℕ) (p : Pass)
    → LabelsPlaced addr (put_label addr labels name) p
    → LabelsPlaced addr labels p
unfolding label_at
put_label-LabelsPlaced addr labels name p h key a e = elim (h key a e) [
  | inr found ↦ inr found
  | inl newest ↦ by_name (same (strip name) key) newest
]
  where
    by_name :
        (b : Bool)
        → ◌≡◌ {A = Option ℕ} (elim b [ true ↦ some addr | false ↦ label_at labels key ]) (some a)
        → (label_at labels key ≡ some a) ⊎ ((j : ℕ) × (a ≡ addr + 4 * j) × (j ≤ length p.stmts))
    by_name true q = let at : addr ≡ a = ground arith in inr (0, omega arith, omega arith)
    by_name false q = inl q

put_stmt-LabelsPlaced :
    (addr : ℕ) (labels : Labels) (line : List ℕ) (later : Pass)
    → LabelsPlaced (addr + 4) labels later
    → LabelsPlaced addr labels (put_stmt addr line later)
put_stmt-LabelsPlaced addr labels line later h name a e = elim (h name a e) [
  | inl old ↦ inl old
  | inr (j, at, le) ↦ inr (suc j, omega arith, omega arith)
]

pub first_pass-LabelsPlaced :
    (lines : List (List ℕ)) (addr : ℕ) (labels : Labels)
    → LabelsPlaced addr labels (first_pass lines addr labels)
unfolding first_pass
first_pass-LabelsPlaced [] addr labels = λ name a e. inl e
first_pass-LabelsPlaced (raw ∷ rest) addr labels =
    first_pass-cases (LabelsPlaced addr labels) raw rest addr labels
      (first_pass-LabelsPlaced rest addr labels)
      (λ name.
        put_label-LabelsPlaced addr labels name (first_pass rest addr (put_label addr labels name))
          (first_pass-LabelsPlaced rest addr (put_label addr labels name)))
      λ line.
        put_stmt-LabelsPlaced addr labels line (first_pass rest (addr + 4) labels)
          (first_pass-LabelsPlaced rest (addr + 4) labels)

-- The words are those of the statements, in their order.
Encodes : ℕ → Labels → List (ℕ × List ℕ) → List ℕ → Type 0
Encodes xlen labels stmts words =
    (length words ≡ length stmts)
    × ((k w : ℕ)
        → get_elem? words k ≡ some w
        → (a : ℕ) × (line : List ℕ) × (get_elem? stmts k ≡ some (a, line))
          × (encode_line xlen labels a line ≡ ok w))

Encodes-cons :
    (xlen : ℕ) (labels : Labels) (addr : ℕ) (line : List ℕ) (stmts : List (ℕ × List ℕ)) (w : ℕ)
    (ws : List ℕ)
    → encode_line xlen labels addr line ≡ ok w
    → Encodes xlen labels stmts ws
    → Encodes xlen labels ((addr, line) ∷ stmts) (w ∷ ws)
unfolding Encodes
Encodes-cons xlen labels addr line stmts w ws e h = (omega (arith, h.0), at)
  where
    at :
        (k w' : ℕ)
        → get_elem? (w ∷ ws) k ≡ some w'
        → (a : ℕ) × (line' : List ℕ) × (get_elem? ((addr, line) ∷ stmts) k ≡ some (a, line'))
          × (encode_line xlen labels a line' ≡ ok w')
    at zero w' q = let same_word : w ≡ w' = ground arith in (addr, line, refl, e ∙ ap ok same_word)
    at (suc k) w' q = h.1 k w' q

second_pass-Encodes :
    (xlen : ℕ) (labels : Labels) (stmts : List (ℕ × List ℕ)) (words : List ℕ)
    → second_pass xlen labels stmts ≡ ok words
    → Encodes xlen labels stmts words
unfolding second_pass Encodes
second_pass-Encodes xlen labels [] words e =
    let shape : words ≡ [] = ground arith in rw shape (refl, λ k w q. absurd (cc q))
second_pass-Encodes xlen labels ((addr, line) ∷ stmts) words e =
    by_word (encode_line xlen labels addr line) refl (second_pass xlen labels stmts)
      (λ ws q. second_pass-Encodes xlen labels stmts ws q) e
  where
    by_word :
        (r : Result ℕ)
        → encode_line xlen labels addr line ≡ r
        → (rs : Result (List ℕ)) → ((ws : List ℕ) → rs ≡ ok ws → Encodes xlen labels stmts ws)
        → (r >>= λ word. rs >>= λ ws. ok (word ∷ ws)) ≡ ok words
        → Encodes xlen labels ((addr, line) ∷ stmts) words
    by_word (raised x) q rs rest e' = absurd (cc e')
    by_word (ok w) q (raised x) rest e' = absurd (cc e')
    by_word (ok w) q (ok ws) rest e' =
        let shape : words ≡ w ∷ ws = ground arith in
        rw shape (Encodes-cons xlen labels addr line stmts w ws q (rest ws refl))

-- A program that is assembled has a word for each statement. The word `k` is that of the statement
-- `k`, encoded at the address `4 * k`. Every label stands at the address of a statement or behind the
-- last.
pub assemble-places :
    (xlen : ℕ) (lines : List (List ℕ)) (words : List ℕ)
    → assemble xlen lines ≡ ok words
    → let pass = first_pass lines 0 [] in
      (length words ≡ length pass.stmts)
      × ((k w : ℕ)
          → get_elem? words k ≡ some w
          → (line : List ℕ) × (get_elem? pass.stmts k ≡ some (4 * k, line))
            × (encode_line xlen pass.labels (4 * k) line ≡ ok w))
      × ((name : List ℕ) (a : ℕ)
          → label_at pass.labels name ≡ some a
          → (j : ℕ) × (a ≡ 4 * j) × (j ≤ length words))
unfolding assemble Encodes label_at
assemble-places xlen lines words e =
    let pass = first_pass lines 0 [] in
    let (size, at) = second_pass-Encodes xlen pass.labels pass.stmts words e in
    (
      size,
      λ k w q.
          let (a, line, there, coded) = at k w q in
          let place : a ≡ 4 * k = omega (arith, first_pass-StmtsPlaced lines 0 [] k a line there) in
          (
            line,
            there ∙ ap (λ (n : ℕ). some (n, line)) place,
            ap (λ (n : ℕ). encode_line xlen pass.labels n line) (sym place) ∙ coded,
          ),
      λ name a q. elim (first_pass-LabelsPlaced lines 0 [] name a q) [
        | inl old ↦ absurd (cc old)
        | inr (j, place, le) ↦ (j, omega arith, omega (arith, size))
      ],
    )
