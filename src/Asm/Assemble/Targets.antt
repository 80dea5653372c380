-- ===== src/Asm/Assemble/Targets.antt =====
-- sim/tools/asm.py, `assemble`: where the labels and the statements of a program stand among its lines.
use rv32im_5_stage_pipelined.Base.{
  ℕ, suc, ◌+◌, ◌*◌, ◌≡◌, refl, ap, ◌∙◌, arith, Bool, true, false, Option, none, some, List, [], ◌∷◌,
  ◌++◌, ◌==◌, eq→==, ==→eq, if◌then◌else◌,
}
use rv32im_5_stage_pipelined.Base.Lists.{get_elem?}
use rv32im_5_stage_pipelined.Asm.Text.{same, strip, without_last}
use rv32im_5_stage_pipelined.Asm.Text.Same.{same_refl, same-eq}
use rv32im_5_stage_pipelined.Asm.Statement.{Labels, label_at}
use rv32im_5_stage_pipelined.Asm.Assemble.{Pass, clean, first_pass}
use rv32im_5_stage_pipelined.Asm.Assemble.Lines.{
  put_label, LineKind, blank, label, statement, unless_named, kind_of_clean, kind_of, pass_of,
  first_pass-kind_of, weight_of, count,
}

-- A line without its comment is the name and a colon.
abbrev pub IsLabel : List ℕ → List ℕ → Type 0
IsLabel name raw = clean raw ≡ name ++ (b':' ∷ [])

-- No line is the label of this name, spaces at the ends of the names aside.
abbrev pub NoLabel : List ℕ → List (List ℕ) → Type 0
NoLabel key [] = Unit
NoLabel key (raw ∷ lines) =
    ((name : List ℕ) → IsLabel name raw → ¬ (strip name ≡ key)) × NoLabel key lines

without_last-append : (c : ℕ) (name : List ℕ) → without_last c (name ++ (c ∷ [])) ≡ some name
unfolding without_last
without_last-append c [] = rw (eq→== c c refl) refl
without_last-append c (d ∷ []) =
    ap (λ (o : Option (List ℕ)). elim o [ none ↦ none | some rest ↦ some (d ∷ rest) ])
      (without_last-append c [])
without_last-append c (d ∷ e ∷ name) =
    ap (λ (o : Option (List ℕ)). elim o [ none ↦ none | some rest ↦ some (d ∷ rest) ])
      (without_last-append c (e ∷ name))

without_last-some :
    (c : ℕ) (line name : List ℕ) → without_last c line ≡ some name → line ≡ name ++ (c ∷ [])
unfolding without_last
without_last-some c [] name e = absurd (cc e)
without_last-some c (d ∷ []) name e = by_mark (d == c) refl e
  where
    by_mark :
        (b : Bool)
        → d == c ≡ b
        → ◌≡◌ {A = Option (List ℕ)} (if b then some [] else none) (some name)
        → d ∷ [] ≡ name ++ (c ∷ [])
    by_mark true q e' =
        let empty : [] ≡ name = ground arith in
        ap (λ (m : ℕ). m ∷ []) (==→eq d c q) ∙ ap (λ (n : List ℕ). n ++ (c ∷ [])) empty
    by_mark false q e' = absurd (cc e')
without_last-some c (d ∷ e ∷ line) name q =
    by_rest (without_last c (e ∷ line)) (without_last-some c (e ∷ line)) q
  where
    by_rest :
        (o : Option (List ℕ))
        → ((n : List ℕ) → o ≡ some n → e ∷ line ≡ n ++ (c ∷ []))
        → ◌≡◌ {A = Option (List ℕ)}
            (elim o [ none ↦ none | some rest ↦ some (d ∷ rest) ])
            (some name)
        → d ∷ e ∷ line ≡ name ++ (c ∷ [])
    by_rest none later q' = absurd (cc q')
    by_rest (some rest) later q' =
        let whole : d ∷ rest ≡ name = ground arith in
        ap (λ (l : List ℕ). d ∷ l) (later rest refl) ∙ ap (λ (n : List ℕ). n ++ (c ∷ [])) whole

pub kind_of-label : (raw name : List ℕ) → IsLabel name raw → kind_of raw ≡ label name
kind_of-label raw name e = ap kind_of_clean e ∙ by_name name (without_last-append b':' name)
  where
    by_name :
        (n : List ℕ)
        → without_last b':' (n ++ (b':' ∷ [])) ≡ some n
        → kind_of_clean (n ++ (b':' ∷ [])) ≡ label n
    by_name [] q = ap (unless_named (b':' ∷ [])) q
    by_name (c ∷ cs) q = ap (unless_named (c ∷ (cs ++ (b':' ∷ [])))) q

label-IsLabel : (raw name : List ℕ) → kind_of raw ≡ label name → IsLabel name raw
label-IsLabel raw name e = by_line (clean raw) e
  where
    by_end :
        (line : List ℕ) (o : Option (List ℕ))
        → without_last b':' line ≡ o
        → unless_named line o ≡ label name
        → line ≡ name ++ (b':' ∷ [])
    by_end line none q h = absurd (cc h)
    by_end line (some n) q h =
        let same_name : n ≡ name = cc h in
        without_last-some b':' line n q ∙ ap (λ (t : List ℕ). t ++ (b':' ∷ [])) same_name

    by_line : (line : List ℕ) → kind_of_clean line ≡ label name → line ≡ name ++ (b':' ∷ [])
    by_line [] h = absurd (cc h)
    by_line (c ∷ cs) h = by_end (c ∷ cs) (without_last b':' (c ∷ cs)) refl h

label_at-put_label :
    (key name : List ℕ) (addr : ℕ) (labels : Labels)
    → ¬ (strip name ≡ key)
    → label_at (put_label addr labels name) key ≡ label_at labels key
unfolding label_at
label_at-put_label key name addr labels differs = by_same (same (strip name) key) refl
  where
    by_same :
        (b : Bool)
        → same (strip name) key ≡ b
        → elim b [ true ↦ some addr | false ↦ label_at labels key ] ≡ label_at labels key
    by_same true q = absurd (differs (same-eq (strip name) key q))
    by_same false q = refl

-- Lines without the label leave its entry alone.
label_at-first_pass :
    (key : List ℕ) (lines : List (List ℕ)) (addr : ℕ) (labels : Labels)
    → NoLabel key lines
    → label_at (first_pass lines addr labels).labels key ≡ label_at labels key
unfolding first_pass
label_at-first_pass key [] addr labels h = refl
label_at-first_pass key (raw ∷ lines) addr labels (other, h) =
    ap (λ (p : Pass). label_at p.labels key) (first_pass-kind_of raw lines addr labels)
    ∙ by_kind (λ a l. label_at-first_pass key lines a l h) (kind_of raw) refl
  where
    by_kind :
        ((a : ℕ) (l : Labels) → label_at (first_pass lines a l).labels key ≡ label_at l key)
        → (k : LineKind) → kind_of raw ≡ k
        → label_at (pass_of k lines addr labels).labels key ≡ label_at labels key
    by_kind later blank q = later addr labels
    by_kind later (label name) q =
        later addr (put_label addr labels name)
        ∙ label_at-put_label key name addr labels (other name (label-IsLabel raw name q))
    by_kind later (statement line) q = later (addr + 4) labels

put_label-label_at :
    (addr : ℕ) (labels : Labels) (name : List ℕ)
    → label_at (put_label addr labels name) (strip name) ≡ some addr
unfolding label_at
put_label-label_at addr labels name = rw (same_refl (strip name), label_at) refl

-- A label stands behind the statements in front of the last line that sets it.
pub label_at-line :
    (front : List (List ℕ)) (raw name : List ℕ) (back : List (List ℕ)) (addr : ℕ) (labels : Labels)
    → IsLabel name raw
    → NoLabel (strip name) back
    → label_at (first_pass (front ++ (raw ∷ back)) addr labels).labels (strip name)
      ≡ some (addr + 4 * count front)
label_at-line [] raw name back addr labels h none_later =
    let here : addr ≡ addr + 4 * 0 = omega arith in
    ap (λ (p : Pass). label_at p.labels (strip name)) (first_pass-kind_of raw back addr labels)
    ∙ ap (λ (k : LineKind). label_at (pass_of k back addr labels).labels (strip name))
        (kind_of-label raw name h)
    ∙ label_at-first_pass (strip name) back addr (put_label addr labels name) none_later
    ∙ put_label-label_at addr labels name
    ∙ ap (λ (a : ℕ). some a) here
label_at-line (other ∷ front) raw name back addr labels h none_later =
    ap (λ (p : Pass). label_at p.labels (strip name))
      (first_pass-kind_of other (front ++ (raw ∷ back)) addr labels)
    ∙ by_kind (λ a l. label_at-line front raw name back a l h none_later) (kind_of other)
  where
    by_kind :
        ((a : ℕ) (l : Labels)
          → label_at (first_pass (front ++ (raw ∷ back)) a l).labels (strip name)
            ≡ some (a + 4 * count front))
        → (k : LineKind)
        → label_at (pass_of k (front ++ (raw ∷ back)) addr labels).labels (strip name)
          ≡ some (addr + 4 * (weight_of k + count front))
    by_kind later blank =
        let same_place : addr + 4 * count front ≡ addr + 4 * (0 + count front) = omega arith in
        later addr labels ∙ ap (λ (a : ℕ). some a) same_place
    by_kind later (label new) =
        let same_place : addr + 4 * count front ≡ addr + 4 * (0 + count front) = omega arith in
        later addr (put_label addr labels new) ∙ ap (λ (a : ℕ). some a) same_place
    by_kind later (statement line) =
        let same_place : addr + 4 + 4 * count front ≡ addr + 4 * (1 + count front) = omega arith in
        later (addr + 4) labels ∙ ap (λ (a : ℕ). some a) same_place

-- A statement has as its index the statements in front of its line.
pub get_elem?-line :
    (front : List (List ℕ)) (raw line : List ℕ) (back : List (List ℕ)) (addr : ℕ) (labels : Labels)
    → kind_of raw ≡ statement line
    → get_elem? (first_pass (front ++ (raw ∷ back)) addr labels).stmts (count front)
      ≡ some (addr + 4 * count front, line)
get_elem?-line [] raw line back addr labels h =
    let here : addr ≡ addr + 4 * 0 = omega arith in
    ap (λ (p : Pass). get_elem? p.stmts 0) (first_pass-kind_of raw back addr labels)
    ∙ ap (λ (k : LineKind). get_elem? (pass_of k back addr labels).stmts 0) h
    ∙ ap (λ (a : ℕ). some (a, line)) here
get_elem?-line (other ∷ front) raw line back addr labels h =
    ap (λ (p : Pass). get_elem? p.stmts (count (other ∷ front)))
      (first_pass-kind_of other (front ++ (raw ∷ back)) addr labels)
    ∙ by_kind (λ a l. get_elem?-line front raw line back a l h) (kind_of other)
  where
    by_kind :
        ((a : ℕ) (l : Labels)
          → get_elem? (first_pass (front ++ (raw ∷ back)) a l).stmts (count front)
            ≡ some (a + 4 * count front, line))
        → (k : LineKind)
        → get_elem?
            (pass_of k (front ++ (raw ∷ back)) addr labels).stmts
            (weight_of k + count front)
          ≡ some (addr + 4 * (weight_of k + count front), line)
    by_kind later blank =
        let n : 0 + count front ≡ count front = omega arith in rw n (later addr labels)
    by_kind later (label new) =
        let n : 0 + count front ≡ count front = omega arith in
        rw n (later addr (put_label addr labels new))
    by_kind later (statement l) =
        let n : 1 + count front ≡ suc (count front) = omega arith in
        let same_place : addr + 4 + 4 * count front ≡ addr + 4 * (1 + count front) = omega arith in
        ap
          (λ (i : ℕ). get_elem? (pass_of (statement l) (front ++ (raw ∷ back)) addr labels).stmts i)
          n
        ∙ later (addr + 4) labels
        ∙ ap (λ (a : ℕ). some (a, line)) same_place
