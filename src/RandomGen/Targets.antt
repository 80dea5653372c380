-- ===== src/RandomGen/Targets.antt =====
-- sim/tools/random_gen.py, `gen_program`: every drawn target gets its label.
use mathlib.Core.Path.{subst}
use native.Mathlib.Decide.{dec_lt}
use rv32im_5_stage_pipelined.Base.{
  ℕ, suc, ◌+◌, min, ◌<◌, ◌≤◌, ◌≡◌, refl, sym, arith, List, [], ◌∷◌, ◌++◌, ◌⊎◌, inl, inr,
}
use rv32im_5_stage_pipelined.Base.Lists.{length}
use rv32im_5_stage_pipelined.RandomGen.Source.{
  Random, IsRandom, Draw, ◌>>=◌, drawn, Gives, Gives-bind, Gives-drawn, All, randint_bounds,
}
use rv32im_5_stage_pipelined.RandomGen.Lines.{label_text, label_line}
use rv32im_5_stage_pipelined.RandomGen.Tokens.{label_text-read}
use rv32im_5_stage_pipelined.RandomGen.Items.{Item}
use rv32im_5_stage_pipelined.RandomGen.Drawn.{IsGood}
use rv32im_5_stage_pipelined.RandomGen.Resolve.{
  Resolved, before_rest, branch_line, jal_line, label_if, target_of, resolve_items,
}
use rv32im_5_stage_pipelined.RandomGen.Fine.{In, Stmt}
use rv32im_5_stage_pipelined.RandomGen.Fine.Lines.{
  label_line-IsName, In-append_left, In-append_right, FineLines, FineLines-append, FineLines-Stmt,
  label_if-FineLines, label_if-In,
}

le-suc_cases : (t cur : ℕ) → t ≤ cur + 1 → (t ≤ cur) ⊎ (t ≡ cur + 1)
le-suc_cases t cur le = elim (dec_lt cur t) [
  | yes above ↦ inr (omega arith)
  | no within ↦ inl (omega arith)
]

-- What the pass has done from an index on, with the labels that were drawn before.
pub record Done (xlen total cur : ℕ) (labels : List ℕ) (n : ℕ) (d : Resolved) : Type 0 where
  pub kept : (t : ℕ) → In t labels → In t d.labels_at
  pub bounded : (t : ℕ) → In t d.labels_at → t ≤ total
  pub set :
      (t : ℕ)
      → In t d.labels_at
      → (In t labels × (t ≤ cur)) ⊎ (In (label_line t) d.out ⊎ (t ≡ total))
  pub fine :
      (ls : List (List ℕ))
      → ((t : ℕ) → In t d.labels_at → In (label_line t) ls)
      → FineLines xlen ls d.out n

module _ (xlen total cur : ℕ) (small : total ≤ 1000) (within : cur ≤ total)
    (labels labels' : List ℕ) (tx : List ℕ) (n : ℕ) (d : Resolved)
    (done : Done xlen total (cur + 1) labels' n d) where
  -- One round of the pass: a statement, and the label behind it.
  before_rest-Done :
      ((t : ℕ) → In t labels → In t labels')
      → ((t : ℕ) → In t labels' → In t labels ⊎ ((cur + 1 ≤ t) ⊎ (t ≡ total)))
      → ((ls : List (List ℕ)) → ((t : ℕ) → In t labels' → In (label_line t) ls) → Stmt xlen ls tx)
      → Done xlen total cur labels (suc n) (before_rest tx (label_if (cur + 1) labels') d)
  before_rest-Done more fewer coded = record {
    kept = λ t i. done.kept t (more t i);
    bounded = done.bounded;
    set = λ t i. by_place t (done.set t i);
    fine = λ ls all.
        FineLines-Stmt xlen ls (label_if (cur + 1) labels' ++ d.out) tx n
          (coded ls (λ t i. all t (done.kept t i)))
          (let (h, e) =
              FineLines-append xlen ls (label_if (cur + 1) labels') d.out 0 n
                (label_if-FineLines xlen ls (cur + 1) labels' (omega arith)) (done.fine ls all) in
            (h, omega arith));
  }
    where
      emitted :
          (t : ℕ) → In t labels' → t ≡ cur + 1 → In (label_line t) (label_if (cur + 1) labels')
      emitted t i e =
          subst (λ (m : ℕ). In (label_line m) (label_if (cur + 1) labels')) (sym e)
            (label_if-In (cur + 1) labels' (subst (λ (m : ℕ). In m labels') e i))

      by_label :
          (t : ℕ)
          → In t labels'
          → t ≤ cur + 1
          → (t ≤ cur) ⊎ (t ≡ cur + 1)
          → (In t labels × (t ≤ cur))
            ⊎ (In (label_line t) (tx ∷ (label_if (cur + 1) labels' ++ d.out)) ⊎ (t ≡ total))
      by_label t i le (inr e) = inr (
          inl (
            inr (In-append_left (label_line t) (label_if (cur + 1) labels') d.out (emitted t i e))))
      by_label t i le (inl below) = elim (fewer t i) [
        | inl old ↦ inl (old, below)
        | inr (inl later) ↦ absurd (omega arith)
        | inr (inr last) ↦ inr (inr last)
      ]

      by_place :
          (t : ℕ)
          → (In t labels' × (t ≤ cur + 1)) ⊎ (In (label_line t) d.out ⊎ (t ≡ total))
          → (In t labels × (t ≤ cur))
            ⊎ (In (label_line t) (tx ∷ (label_if (cur + 1) labels' ++ d.out)) ⊎ (t ≡ total))
      by_place t (inl (i, le)) = by_label t i le (le-suc_cases t cur le)
      by_place t (inr (inl there)) =
          inr (inl (inr (In-append_right (label_line t) (label_if (cur + 1) labels') d.out there)))
      by_place t (inr (inr last)) = inr (inr last)

module _ (rnd : Random) (r : IsRandom rnd) (xlen total : ℕ) (small : total ≤ 1000) where
  target_of_bounds :
      (cur : ℕ)
      → cur ≤ total
      → Gives (λ t. ((cur + 1 ≤ t) ⊎ (t ≡ total)) × (t ≤ total)) (target_of rnd total cur)
  unfolding target_of
  target_of_bounds cur le =
      let h = randint_bounds rnd (min (cur + 1) total) total r (omega arith) in
      record { all = λ s. (place (h.all s).0 (h.all s).1, (h.all s).1) }
    where
      place : {t : ℕ} → min (cur + 1) total ≤ t → t ≤ total → (cur + 1 ≤ t) ⊎ (t ≡ total)
      place {t} lo hi = elim (dec_lt t (cur + 1)) [
        | yes below ↦ inr (omega arith)
        | no later ↦ inl (omega arith)
      ]

  -- A round that draws a target.
  target-Done :
      (cur : ℕ) (labels : List ℕ) (n : ℕ) (next : ℕ → Draw rnd.State Resolved) (tx : ℕ → List ℕ)
      → cur ≤ total
      → ((t : ℕ) → In t labels → t ≤ total)
      → ((target : ℕ)
          → ((t : ℕ) → In t (target ∷ labels) → t ≤ total)
          → Gives (Done xlen total (cur + 1) (target ∷ labels) n) (next target))
      → ((ls : List (List ℕ)) (target : ℕ)
          → target < 1024
          → In (label_line target) ls
          → Stmt xlen ls (tx target))
      → Gives (Done xlen total cur labels (suc n)) (
          target_of rnd total cur >>= λ target. next target >>= λ rest.
          drawn (before_rest (tx target) (label_if (cur + 1) (target ∷ labels)) rest))
  target-Done cur labels n next tx le bound later coded =
      Gives-bind (target_of_bounds cur le) λ target (place, below).
        Gives-bind (later target (new_bound target below)) λ d done.
          Gives-drawn (Done xlen total cur labels (suc n))
            (before_rest (tx target) (label_if (cur + 1) (target ∷ labels)) d)
            (before_rest-Done xlen total cur small le labels (target ∷ labels) (tx target) n d done
              (λ t i. inr i) (new_place target place)
              (λ ls all. coded ls target (omega arith) (all target (inl refl))))
    where
      new_bound : (target : ℕ) → target ≤ total → (t : ℕ) → In t (target ∷ labels) → t ≤ total
      new_bound target below t (inl q) = omega arith
      new_bound target below t (inr i) = bound t i

      new_place :
          (target : ℕ)
          → (cur + 1 ≤ target) ⊎ (target ≡ total)
          → (t : ℕ) → In t (target ∷ labels)
          → In t labels ⊎ ((cur + 1 ≤ t) ⊎ (t ≡ total))
      new_place target (inl after) t (inl q) = inr (inl (omega arith))
      new_place target (inr last) t (inl q) = inr (inr (omega arith))
      new_place target place t (inr i) = inl i

  branch_line-Stmt :
      (mn : List ℕ) (rs1 rs2 : ℕ)
      → IsGood xlen (Item.branch mn rs1 rs2)
      → (ls : List (List ℕ)) (target : ℕ) → target < 1024
      → In (label_line target) ls
      → Stmt xlen ls (branch_line mn rs1 rs2 target)
  unfolding branch_line
  branch_line-Stmt mn rs1 rs2 (m, named, h1, h2) ls target lt i =
      Stmt.to_label mn m rs1 rs2 (label_text target) (label_line target) named h1 h2
        (label_text-read target lt).3 (label_line-IsName target lt) i

  jal_line-Stmt :
      (rd : ℕ)
      → rd < 32
      → (ls : List (List ℕ)) (target : ℕ) → target < 1024
      → In (label_line target) ls
      → Stmt xlen ls (jal_line rd target)
  unfolding jal_line
  jal_line-Stmt rd hd ls target lt i =
      Stmt.jump rd (label_text target) (label_line target) hd (label_text-read target lt).3
        (label_line-IsName target lt) i

  -- The pass over the instructions from an index on.
  pub resolve_items-Done :
      (items : List Item) (cur : ℕ) (labels : List ℕ)
      → All (IsGood xlen) items
      → cur + length items ≡ total + 1
      → ((t : ℕ) → In t labels → t ≤ total)
      → Gives (Done xlen total cur labels (length items)) (resolve_items rnd total items cur labels)
  unfolding resolve_items
  resolve_items-Done [] cur labels h e bound =
      Gives-drawn (Done xlen total cur labels 0) (record { out = []; labels_at = labels })
        (record {
          kept = λ t i. i;
          bounded = bound;
          set = λ t i. let b : t ≤ total = bound t i in inl (i, omega arith);
          fine = λ ls all. (tt, refl);
        })
  resolve_items-Done (Item.text t ∷ items) cur labels (good, h) e bound =
      Gives-bind (resolve_items-Done items (cur + 1) labels h (omega arith) bound) λ d done.
        Gives-drawn (Done xlen total cur labels (suc (length items)))
          (before_rest t (label_if (cur + 1) labels) d)
          (before_rest-Done xlen total cur small (omega arith) labels labels t (length items) d done
            (λ t i. i) (λ t i. inl i) (λ ls all. Stmt.as_it_stands t good))
  resolve_items-Done (Item.branch mn rs1 rs2 ∷ items) cur labels (good, h) e bound =
      target-Done cur labels (length items)
        (λ target. resolve_items rnd total items (cur + 1) (target ∷ labels))
        (branch_line mn rs1 rs2) (omega arith) bound
        (λ target b. resolve_items-Done items (cur + 1) (target ∷ labels) h (omega arith) b)
        (branch_line-Stmt mn rs1 rs2 good)
  resolve_items-Done (Item.jal rd ∷ items) cur labels (good, h) e bound =
      target-Done cur labels (length items)
        (λ target. resolve_items rnd total items (cur + 1) (target ∷ labels)) (jal_line rd)
        (omega arith) bound
        (λ target b. resolve_items-Done items (cur + 1) (target ∷ labels) h (omega arith) b)
        (jal_line-Stmt rd good)
