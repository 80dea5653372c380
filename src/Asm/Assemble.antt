-- ===== src/Asm/Assemble.antt =====
-- sim/tools/asm.py, `assemble`: the labels in a first pass, the words in a second.
pub mod Lines
pub mod Targets
pub mod Places
pub mod Branches
use rv32im_5_stage_pipelined.Base.{
  ℕ, zero, suc, ◌+◌, ◌-◌, ◌*◌, ◌%◌, ◌^◌, Bool, true, false, Option, none, some, List, [], ◌∷◌, ◌++◌,
  ◌==◌, if◌then◌else◌,
}
use rv32im_5_stage_pipelined.Base.Lists.{length, get_elem?}
use rv32im_5_stage_pipelined.Base.Int.{ℤ, pos, low_bits, ◌-ℤ◌}
use rv32im_5_stage_pipelined.Asm.Text.{same, lower, strip, before, without_last, split_fields}
use rv32im_5_stage_pipelined.Asm.Table.{Mnemonic, mnemonic_of}
use rv32im_5_stage_pipelined.Asm.Statement.{Labels, encode_line}
use rv32im_5_stage_pipelined.Asm.Operands.{
  Error, value_error, Result, ok, raised, ◌>>=◌, or_value_error, arg, reg, freg, number, address,
  base_register, csr_lookup, parse_rm,
}

-- `raw.split("#", 1)[0].strip()`
unfoldable pub clean : List ℕ → List ℕ
unfolding before strip
clean raw = strip (before b'#' raw)

pub record Pass : Type 0 where
  pub stmts : List (ℕ × List ℕ)
  pub labels : Labels

unfoldable pub first_pass : List (List ℕ) → ℕ → Labels → Pass
unfolding clean without_last strip
first_pass [] addr labels = record { stmts = []; labels = labels }
first_pass (raw ∷ rest) addr labels = elim (clean raw) [
  | [] ↦ first_pass rest addr labels
  | c ∷ cs ↦ elim (without_last b':' (c ∷ cs)) [
    | some name ↦ first_pass rest addr ((strip name, addr) ∷ labels)
    | none ↦
        let later = first_pass rest (addr + 4) labels in
        record { stmts = (addr, c ∷ cs) ∷ later.stmts; labels = later.labels }
  ]
]

-- The words of the statements, up to the first that raises.
unfoldable pub second_pass : ℕ → Labels → List (ℕ × List ℕ) → Result (List ℕ)
unfolding encode_line
second_pass xlen labels [] = ok []
second_pass xlen labels ((cur_addr, line) ∷ stmts) = do
  word ← encode_line xlen labels cur_addr line
  words ← second_pass xlen labels stmts
  ok (word ∷ words)

unfoldable pub assemble : ℕ → List (List ℕ) → Result (List ℕ)
unfolding first_pass second_pass
assemble xlen lines = let pass = first_pass lines 0 [] in second_pass xlen pass.labels pass.stmts
