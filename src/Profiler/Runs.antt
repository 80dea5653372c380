-- ===== src/Profiler/Runs.antt =====
-- sim/tools/profiler.py, `build_run_a` and `build_run_b`: what the assembler makes of their lines.
use rv32im_5_stage_pipelined.Base.{
  ℕ, ◌+◌, ◌≡◌, refl, sym, ap, ◌∙◌, arith, Bool, true, false, Option, none, some, List, [], ◌∷◌,
  ◌++◌, ◌⊎◌, inl, inr,
}
use rv32im_5_stage_pipelined.Base.Lists.{length}
use rv32im_5_stage_pipelined.Asm.Text.{without_last}
use rv32im_5_stage_pipelined.Asm.Operands.{ok}
use rv32im_5_stage_pipelined.Asm.Assemble.{clean, assemble}
use rv32im_5_stage_pipelined.Asm.Assemble.Lines.{count, count-append, count-first_pass}
use rv32im_5_stage_pipelined.Asm.Assemble.Places.{assemble-places}
use rv32im_5_stage_pipelined.RandomGen.Source.{All}
use rv32im_5_stage_pipelined.Profiler.{
  csrrs, for_each, behind, in_front, is_halt, insert_before_halt, epilogue_a, preamble_b,
  build_run_a, build_run_b,
}

-- No line is a `halt:`.
abbrev pub NoHalt : List (List ℕ) → Type 0
NoHalt lines = All (λ l. is_halt l ≡ false) lines

-- The lines split at the first `halt:`.
pub record Split (lines new_lines : List (List ℕ)) : Type 0 where
  pub front : List (List ℕ)
  pub halt : List ℕ
  pub back : List (List ℕ)
  pub whole : lines ≡ front ++ (halt ∷ back)
  pub first : NoHalt front
  pub is_there : is_halt halt ≡ true
  pub inserted : insert_before_halt lines new_lines ≡ some (front ++ (new_lines ++ (halt ∷ back)))

-- The new lines are placed in front of the first `halt:`, and all others are kept in their order;
-- without a `halt:` the kernel is refused.
pub insert_before_halt-Split :
    (lines new_lines : List (List ℕ))
    → Split lines new_lines ⊎ (NoHalt lines × (insert_before_halt lines new_lines ≡ none))
unfolding insert_before_halt
insert_before_halt-Split [] new_lines = inr (tt, refl)
insert_before_halt-Split (l ∷ lines) new_lines =
    by_line (is_halt l) refl (insert_before_halt-Split lines new_lines)
  where
    by_line :
        (b : Bool)
        → is_halt l ≡ b
        → Split lines new_lines ⊎ (NoHalt lines × (insert_before_halt lines new_lines ≡ none))
        → Split (l ∷ lines) new_lines
          ⊎ (NoHalt (l ∷ lines) × (insert_before_halt (l ∷ lines) new_lines ≡ none))
    by_line true e rest = inl (record {
      front = [];
      halt = l;
      back = lines;
      whole = refl;
      first = tt;
      is_there = e;
      inserted = rw (e, insert_before_halt) refl;
    })
    by_line false e (inl s) = inl (record {
      front = l ∷ s.front;
      halt = s.halt;
      back = s.back;
      whole = ap (λ (ls : List (List ℕ)). l ∷ ls) s.whole;
      first = (e, s.first);
      is_there = s.is_there;
      inserted = rw (e, insert_before_halt) (ap (in_front l) s.inserted);
    })
    by_line false e (inr (none_there, missing)) =
        inr ((e, none_there), rw (e, insert_before_halt) (ap (in_front l) missing))

abbrev of_some : List (List ℕ) → Option (List (List ℕ)) → List (List ℕ)
of_some default none = default
of_some default (some ls) = ls

count-insert_before_halt :
    (lines new_lines out : List (List ℕ))
    → insert_before_halt lines new_lines ≡ some out
    → count out ≡ count lines + count new_lines
count-insert_before_halt lines new_lines out e = elim (insert_before_halt-Split lines new_lines) [
  | inl s ↦
      let placed : out ≡ s.front ++ (new_lines ++ (s.halt ∷ s.back)) =
        ap (of_some out) (sym e ∙ s.inserted) in
      ap count placed
      ∙ omega (
        arith,
        ap count s.whole,
        count-append s.front (s.halt ∷ s.back),
        count-append s.front (new_lines ++ (s.halt ∷ s.back)),
        count-append new_lines (s.halt ∷ s.back),
      )
  | inr (none_there, missing) ↦ absurd (cc (e, missing))
]

length-assemble :
    (xlen : ℕ) (lines : List (List ℕ)) (words : List ℕ)
    → assemble xlen lines ≡ ok words
    → length words ≡ count lines
length-assemble xlen lines words e =
    (assemble-places xlen lines words e).0 ∙ count-first_pass lines 0 []

count-behind :
    (preamble out : List (List ℕ)) (m : Option (List (List ℕ))) (n : ℕ)
    → ((mid : List (List ℕ)) → m ≡ some mid → count mid ≡ n)
    → behind preamble m ≡ some out
    → count out ≡ count preamble + n
count-behind preamble out none n h e = absurd (cc e)
count-behind preamble out (some mid) n h e =
    ap count (ap (of_some out) (sym e)) ∙ omega (arith, count-append preamble mid, h mid refl)

count-epilogue_a : count epilogue_a ≡ 11
unfolding epilogue_a clean without_last
count-epilogue_a = refl

count-preamble_b : count preamble_b ≡ 18
unfolding preamble_b clean without_last
count-preamble_b = refl

count-epilogue_b : count (for_each csrrs 19 0xB03 9) ≡ 9
unfolding csrrs clean without_last
count-epilogue_b = refl

module _ (xlen : ℕ) (kernel_lines out : List (List ℕ)) (words run_words : List ℕ)
    (made : assemble xlen kernel_lines ≡ ok words) (run : assemble xlen out ≡ ok run_words) where
  -- The program of the first run has 11 words more than the kernel, where both are assembled.
  pub build_run_a-assemble :
      build_run_a kernel_lines ≡ some out → length run_words ≡ length words + 11
  unfolding build_run_a
  build_run_a-assemble e = omega (
    arith,
    length-assemble xlen kernel_lines words made,
    length-assemble xlen out run_words run,
    count-insert_before_halt kernel_lines epilogue_a out e,
    count-epilogue_a,
  )

  -- The program of the second run has 27 words more than the kernel, where both are assembled.
  pub build_run_b-assemble :
      build_run_b kernel_lines ≡ some out → length run_words ≡ length words + 27
  unfolding build_run_b
  build_run_b-assemble e =
      let epilogue = for_each csrrs 19 0xB03 9 in
      omega (
        arith,
        length-assemble xlen kernel_lines words made,
        length-assemble xlen out run_words run,
        count-behind preamble_b out (insert_before_halt kernel_lines epilogue)
            (count kernel_lines + count epilogue)
            (λ mid. count-insert_before_halt kernel_lines epilogue mid) e,
        count-preamble_b,
        count-epilogue_b,
      )
