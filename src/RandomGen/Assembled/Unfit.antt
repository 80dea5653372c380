-- ===== src/RandomGen/Assembled/Unfit.antt =====
-- sim/tools/random_gen.py, `budget`, and asm.py, `write_mem`: which programs fit the memory.
use rv32im_5_stage_pipelined.Base.{
  ℕ, ◌+◌, ◌*◌, ◌<◌, ◌≤◌, ◌≡◌, refl, arith, Bool, true, false, Option, none, some, List, [], ◌∷◌,
  leb, ltb, if◌then◌else◌,
}
use rv32im_5_stage_pipelined.Base.Lists.{length, get_elem?}
use rv32im_5_stage_pipelined.Asm.Operands.{ok}
use rv32im_5_stage_pipelined.Asm.Assemble.{assemble}
use rv32im_5_stage_pipelined.Asm.Image.{put_word, store_words, write_mem, load_words}
use rv32im_5_stage_pipelined.Asm.Image.Swap.{byte_swap, load_words-write_mem}
use rv32im_5_stage_pipelined.RandomGen.Source.{Random, IsRandom}
use rv32im_5_stage_pipelined.RandomGen.Program.{returned, budget, gen_program}
use rv32im_5_stage_pipelined.RandomGen.Assembled.Generated.{gen_program-assembles}

store_words-overflow :
    (size i : ℕ) (words : List ℕ) (bytes : ℕ → ℕ)
    → 0 < length words
    → size < (i + length words) * 4
    → store_words size i words bytes ≡ none
unfolding store_words
store_words-overflow size i [] bytes some_word h = absurd (omega arith)
store_words-overflow size i (w ∷ []) bytes some_word h =
    let over : ltb size (i * 4 + 4) ≡ true = ground arith in rw over refl
store_words-overflow size i (w ∷ v ∷ words) bytes some_word h = by_test (ltb size (i * 4 + 4)) (
    store_words-overflow size (i + 1) (v ∷ words) (put_word (i * 4) w bytes) (omega arith)
      (omega arith))
  where
    by_test : (b : Bool) {m : Option (ℕ → ℕ)} → m ≡ none → (if b then none else m) ≡ none
    by_test true e = refl
    by_test false e = e

write_mem-overflow :
    (words : List ℕ) (size : ℕ)
    → 0 < length words
    → size < length words * 4
    → write_mem words size ≡ none
unfolding write_mem
write_mem-overflow words size some_word h =
    rw (store_words-overflow size 0 words (λ _. 0) some_word (omega arith)) refl

module _ (rnd : Random) (r : IsRandom rnd) (seed n base mem_size xlen : ℕ) (small : n ≤ 1000)
    (low : base < 2048) where
  -- For a memory of just the words that the budget counts, a program of at most 1000 random
  -- instructions, without an interrupt or page tables and with a base address below 2048, is returned
  -- and assembled, and `write_mem` raises an error on its words.
  pub gen_program-overflows :
      mem_size ≡ budget (leb 64 xlen) false n 0 * 4
      → (out : List (List ℕ)) × ((words : List ℕ) × (gen_program rnd seed n base mem_size none false
              xlen
            ≡ returned (out, none))
          × (assemble xlen out ≡ ok words)
          × (write_mem words mem_size ≡ none))
  gen_program-overflows full =
      let (out, given, (words, made, size)) =
        gen_program-assembles rnd r seed n base mem_size xlen small low (omega arith) in
      (out, (words, given, made, write_mem-overflow words mem_size (omega arith) (omega arith)))

  -- For a memory of one word more than the budget counts, or larger, a program of at most 1000 random
  -- instructions, without an interrupt or page tables and with a base address below 2048, is returned,
  -- assembled and written, and what is read back has at the place of each word of the program that
  -- word with its four bytes in reverse.
  pub gen_program-load_words :
      (budget (leb 64 xlen) false n 0 + 1) * 4 ≤ mem_size
      → (out : List (List ℕ)) × ((words : List ℕ) × ((file : List ℕ) × (gen_program rnd seed n base
                mem_size none false xlen
              ≡ returned (out, none))
            × (assemble xlen out ≡ ok words)
            × (write_mem words mem_size ≡ some file)
            × ((k w : ℕ)
                → get_elem? words k ≡ some w
                → get_elem? (load_words file) k ≡ some (byte_swap w))))
  gen_program-load_words room =
      let (out, given, (words, made, size)) =
        gen_program-assembles rnd r seed n base mem_size xlen small low (omega arith) in
      let (file, written, read) = load_words-write_mem words mem_size (omega arith) in
      (out, (words, (file, given, made, written, read)))
