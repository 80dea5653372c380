-- ===== src/RandomGen/Resolve.antt =====
-- sim/tools/random_gen.py, `gen_program`: the second pass, which draws the targets of branches and
-- jumps and places the labels. `labels_at` is the list of its keys: the label at `n` is `__L{n}`.
use rv32im_5_stage_pipelined.Base.{ℕ, ◌+◌, min, List, [], ◌∷◌, ◌++◌, if◌then◌else◌}
use rv32im_5_stage_pipelined.Asm.Text.{codes}
use rv32im_5_stage_pipelined.Iss.State.{member}
use rv32im_5_stage_pipelined.RandomGen.Source.{Random, Draw, ◌>>=◌, drawn, randint}
use rv32im_5_stage_pipelined.RandomGen.Lines.{x_reg, label_text, label_line, line}
use rv32im_5_stage_pipelined.RandomGen.Items.{Item}

unfoldable pub branch_line : List ℕ → ℕ → ℕ → ℕ → List ℕ
unfolding line x_reg label_text
branch_line mn rs1 rs2 target = line mn (x_reg rs1) (x_reg rs2 ∷ label_text target ∷ [])

unfoldable pub jal_line : ℕ → ℕ → List ℕ
unfolding line x_reg label_text
jal_line rd target = line (codes "jal") (x_reg rd) (label_text target ∷ [])

-- The label in front of the next instruction, if a branch went there.
unfoldable pub label_if : ℕ → List ℕ → List (List ℕ)
unfolding label_line
label_if n labels_at = if member n labels_at then label_line n ∷ [] else []

-- What the pass has appended to `out`, and `labels_at`.
pub record Resolved : Type 0 where
  pub out : List (List ℕ)
  pub labels_at : List ℕ

abbrev pub before_rest : List ℕ → List (List ℕ) → Resolved → Resolved
before_rest stmt label rest = record rest { out = stmt ∷ (label ++ rest.out) }

module _ (rnd : Random) (total : ℕ) where
  unfoldable pub target_of : ℕ → Draw rnd.State ℕ
  unfolding randint
  target_of cur_idx = randint rnd (min (cur_idx + 1) total) total

  unfoldable pub resolve_items : List Item → ℕ → List ℕ → Draw rnd.State Resolved
  unfolding target_of branch_line jal_line label_if
  resolve_items [] cur_idx labels_at = drawn (record { out = []; labels_at = labels_at })
  resolve_items (Item.text t ∷ items) cur_idx labels_at = do
    rest ← resolve_items items (cur_idx + 1) labels_at
    drawn (before_rest t (label_if (cur_idx + 1) labels_at) rest)
  resolve_items (Item.branch mn rs1 rs2 ∷ items) cur_idx labels_at = do
    target_idx ← target_of cur_idx
    rest ← resolve_items items (cur_idx + 1) (target_idx ∷ labels_at)
    drawn (
        before_rest (branch_line mn rs1 rs2 target_idx)
          (label_if (cur_idx + 1) (target_idx ∷ labels_at)) rest)
  resolve_items (Item.jal rd ∷ items) cur_idx labels_at = do
    target_idx ← target_of cur_idx
    rest ← resolve_items items (cur_idx + 1) (target_idx ∷ labels_at)
    drawn (
        before_rest (jal_line rd target_idx) (label_if (cur_idx + 1) (target_idx ∷ labels_at)) rest)
