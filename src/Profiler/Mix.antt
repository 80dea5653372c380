-- ===== src/Profiler/Mix.antt =====
-- sim/tools/profiler.py, `classify_mix`: what is counted.
use rv32im_5_stage_pipelined.Base.{
  ℕ, suc, ◌+◌, ◌≡◌, refl, sym, ◌∙◌, arith, Bool, true, false, Option, none, some, List, [], ◌∷◌,
}
use rv32im_5_stage_pipelined.Base.Lists.{length}
use rv32im_5_stage_pipelined.Asm.Text.{same, strip, without_last}
use rv32im_5_stage_pipelined.Asm.Statement.{Labels}
use rv32im_5_stage_pipelined.Asm.Operands.{ok}
use rv32im_5_stage_pipelined.Asm.Assemble.{clean, first_pass, assemble}
use rv32im_5_stage_pipelined.Asm.Assemble.Places.{assemble-places}
use rv32im_5_stage_pipelined.Profiler.{
  Counted, bucket_of, count_one, count_stmt, classify_from, classify_mix,
}

abbrev pub sum_of : List (List ℕ × ℕ) → ℕ
sum_of [] = 0
sum_of ((name, n) ∷ counts) = n + sum_of counts

sum_of-count_one :
    (bucket : List ℕ) (counts : List (List ℕ × ℕ))
    → sum_of (count_one bucket counts) ≡ sum_of counts + 1
unfolding count_one
sum_of-count_one bucket [] = refl
sum_of-count_one bucket ((name, n) ∷ counts) =
    by_name (same bucket name) (sum_of-count_one bucket counts)
  where
    by_name :
        (b : Bool)
        → sum_of (count_one bucket counts) ≡ sum_of counts + 1
        → sum_of
            (elim b [ true ↦ (name, n + 1) ∷ counts | false ↦ (name, n) ∷ count_one bucket counts ])
          ≡ n + sum_of counts + 1
    by_name true e = omega arith
    by_name false e = omega arith

-- The loop counts `n` statements, and each of them in one bucket.
abbrev CountsFrom : Counted → Counted → ℕ → Type 0
CountsFrom old new n = (new.total ≡ old.total + n) × (sum_of new.counts ≡ sum_of old.counts + n)

count_stmt-CountsFrom :
    (stmt : List ℕ) (mix new : Counted) (n : ℕ)
    → CountsFrom (count_stmt stmt mix) new n
    → CountsFrom mix new (suc n)
unfolding count_stmt
count_stmt-CountsFrom stmt mix new n (total, sum) =
    (omega arith, omega (arith, sum_of-count_one (bucket_of stmt) mix.counts))

-- The rest of the lines is counted, wherever it stands.
abbrev Later : List (List ℕ) → Type 0
Later lines =
    (addr : ℕ) (labels : Labels) (mix : Counted)
    → CountsFrom mix (classify_from lines mix) (length (first_pass lines addr labels).stmts)

classify_from-CountsFrom :
    (lines : List (List ℕ)) (addr : ℕ) (labels : Labels) (mix : Counted)
    → CountsFrom mix (classify_from lines mix) (length (first_pass lines addr labels).stmts)
unfolding classify_from first_pass
classify_from-CountsFrom [] addr labels mix = (omega arith, omega arith)
classify_from-CountsFrom (raw ∷ lines) addr labels mix =
    by_line (classify_from-CountsFrom lines) (clean raw) refl
  where
    here : ℕ
    here = length (first_pass (raw ∷ lines) addr labels).stmts

    by_end :
        Later lines
        → (c : ℕ) (cs : List ℕ) (left : Option (List ℕ)) → clean raw ≡ c ∷ cs
        → without_last b':' (c ∷ cs) ≡ left
        → CountsFrom mix (classify_from (raw ∷ lines) mix) here
    by_end later c cs (some name) e q =
        rw (e, q, classify_from, first_pass) (later addr ((strip name, addr) ∷ labels) mix)
    by_end later c cs none e q =
        rw (e, q, classify_from, first_pass)
          (count_stmt-CountsFrom (c ∷ cs) mix (classify_from lines (count_stmt (c ∷ cs) mix))
            (length (first_pass lines (addr + 4) labels).stmts)
            (later (addr + 4) labels (count_stmt (c ∷ cs) mix)))

    by_line :
        Later lines
        → (l : List ℕ) → clean raw ≡ l
        → CountsFrom mix (classify_from (raw ∷ lines) mix) here
    by_line later [] e = rw (e, classify_from, first_pass) (later addr labels mix)
    by_line later (c ∷ cs) e = by_end later c cs (without_last b':' (c ∷ cs)) e refl

pub total-first_pass :
    (lines : List (List ℕ)) (addr : ℕ) (labels : Labels)
    → (classify_mix lines).total ≡ length (first_pass lines addr labels).stmts
unfolding classify_mix
total-first_pass lines addr labels =
    let (total, sum) =
      classify_from-CountsFrom lines addr labels (record { counts = []; total = 0 }) in
    omega arith

-- The total of the mix of lines that are assembled is the number of their words, and the sum of the
-- counts.
pub classify_mix-assemble :
    (xlen : ℕ) (lines : List (List ℕ)) (words : List ℕ)
    → assemble xlen lines ≡ ok words
    → ((classify_mix lines).total ≡ length words)
      × (sum_of (classify_mix lines).counts ≡ (classify_mix lines).total)
unfolding classify_mix
classify_mix-assemble xlen lines words e =
    let (total, sum) = classify_from-CountsFrom lines 0 [] (record { counts = []; total = 0 }) in
    (omega (arith, (assemble-places xlen lines words e).0), sum ∙ sym total)
