-- ===== src/Tests/Programs.antt =====
-- The theorems on the generated and the profiled programs at concrete inputs.
use native.Mathlib.Nat.{mod-lt}
use rv32im_5_stage_pipelined.Base.{
  true, ℕ, ◌+◌, ◌*◌, ◌%◌, ◌^◌, ◌≡◌, refl, arith, false, none, some, List, [], ◌∷◌, ◌++◌, ◌⊎◌, ◌==◌,
  leb,
}
use rv32im_5_stage_pipelined.Base.Int.{low_bits}
use rv32im_5_stage_pipelined.Base.Lists.{length, get_elem?}
use rv32im_5_stage_pipelined.Asm.Operands.{ok}
use rv32im_5_stage_pipelined.Asm.Assemble.{assemble}
use rv32im_5_stage_pipelined.Asm.Image.{write_mem, load_words}
use rv32im_5_stage_pipelined.Asm.Image.Swap.{byte_swap}
use rv32im_5_stage_pipelined.Asm.Text.{codes}
use rv32im_5_stage_pipelined.Asm.Encode.{i_type, jal, csr_reg, csr_imm}
use rv32im_5_stage_pipelined.Base.Int.{◌-ℤ◌}
use rv32im_5_stage_pipelined.Profiler.{
  classify_mix, insert_before_halt, preamble_b, csrrs, for_each, build_run_b,
}
use rv32im_5_stage_pipelined.Profiler.Mix.{sum_of, classify_mix-assemble}
use rv32im_5_stage_pipelined.Profiler.Runs.{
  Split, NoHalt, insert_before_halt-Split, build_run_b-assemble,
}
use rv32im_5_stage_pipelined.RandomGen.Source.{Random, IsRandom}
use rv32im_5_stage_pipelined.RandomGen.Constants.{high_part, low_signed, self_check_const64}
use rv32im_5_stage_pipelined.RandomGen.Constants.Values.{const_parts-sum, self_check_const64-holds}
use rv32im_5_stage_pipelined.RandomGen.Program.{returned, budget, gen_program}
use rv32im_5_stage_pipelined.RandomGen.Assembled.Generated.{IsAssembled, gen_program-assembles}
use rv32im_5_stage_pipelined.RandomGen.Assembled.Unfit.{
  gen_program-overflows, gen_program-load_words,
}

-- A source that draws the numbers in their order.
abbrev counting : Random
counting = record {
  State = ℕ;
  seeded = λ seed. seed;
  below = λ n s. (s % n, s + 1);
  weighted = λ weights s. (s % length weights, s + 1);
  below_half = λ s. (s % 2 == 0, s + 1);
}

counting-IsRandom : IsRandom counting
counting-IsRandom = record { below_bound = λ n s h. mod-lt s h }

gen_program-assembles_example :
    (out : List (List ℕ)) × (gen_program counting 5 12 32 128 none false 32 ≡ returned (out, none))
    × IsAssembled 32 out (budget (leb 64 32) false 12 0 + 1)
unfolding budget
gen_program-assembles_example =
    gen_program-assembles counting counting-IsRandom 5 12 32 128 32 (omega arith) (omega arith)
      (omega arith)

gen_program-overflows_example :
    (out : List (List ℕ)) × ((words : List ℕ) × (gen_program counting 5 18 32 128 none false 32
        ≡ returned (out, none))
      × (assemble 32 out ≡ ok words)
      × (write_mem words 128 ≡ none))
unfolding budget
gen_program-overflows_example =
    gen_program-overflows counting counting-IsRandom 5 18 32 128 32 (omega arith) (omega arith) refl

gen_program-load_words_example :
    (out : List (List ℕ)) × ((words : List ℕ) × ((file : List ℕ) × (gen_program counting 5 12 32 256
            none false 64
          ≡ returned (out, none))
        × (assemble 64 out ≡ ok words)
        × (write_mem words 256 ≡ some file)
        × ((k w : ℕ)
            → get_elem? words k ≡ some w
            → get_elem? (load_words file) k ≡ some (byte_swap w))))
unfolding budget
gen_program-load_words_example =
    gen_program-load_words counting counting-IsRandom 5 12 32 256 64 (omega arith) (omega arith)
      (omega arith)

const_parts-sum_example :
    (high_part 0x12345FFF * 2 ^ 12 + low_bits 32 (low_signed 0x12345FFF)) % 2 ^ 32
    ≡ 0x12345FFF % 2 ^ 32
const_parts-sum_example = const_parts-sum 0x12345FFF

self_check_const64-holds_example : self_check_const64 0xDEADBEEF12345678 ≡ true
self_check_const64-holds_example = self_check_const64-holds 0xDEADBEEF12345678

-- A kernel, and the program of its second run.
abbrev kernel : List (List ℕ)
kernel = codes "addi x1, x0, 5" ∷ codes "halt:" ∷ codes "jal x0, halt" ∷ []

abbrev kernel_words : List ℕ
kernel_words = 0x00500093 ∷ 0x6F ∷ []

kernel-assembles : assemble 32 kernel ≡ ok kernel_words
unfolding assemble i_type jal ◌-ℤ◌
kernel-assembles = refl

classify_mix-assemble_example :
    ((classify_mix kernel).total ≡ length kernel_words)
    × (sum_of (classify_mix kernel).counts ≡ (classify_mix kernel).total)
classify_mix-assemble_example = classify_mix-assemble 32 kernel kernel_words kernel-assembles

insert_before_halt-Split_example :
    Split kernel (codes "nop" ∷ [])
    ⊎ (NoHalt kernel × (insert_before_halt kernel (codes "nop" ∷ []) ≡ none))
insert_before_halt-Split_example = insert_before_halt-Split kernel (codes "nop" ∷ [])

abbrev run_b : List (List ℕ)
run_b =
    preamble_b
    ++ (codes "addi x1, x0, 5"
        ∷ (for_each csrrs 19 0xB03 9 ++ (codes "halt:" ∷ codes "jal x0, halt" ∷ [])))

abbrev run_b_words : List ℕ
run_b_words =
    0x32355073 ∷ 0x3245D073 ∷ 0x32565073 ∷ 0x3266D073 ∷ 0x32775073 ∷ 0x3287D073 ∷ 0x32985073
    ∷ 0x32A8D073 ∷ 0x32B95073 ∷ 0xB0301073 ∷ 0xB0401073 ∷ 0xB0501073 ∷ 0xB0601073 ∷ 0xB0701073
    ∷ 0xB0801073 ∷ 0xB0901073 ∷ 0xB0A01073 ∷ 0xB0B01073 ∷ 0x00500093 ∷ 0xB03029F3 ∷ 0xB0402A73
    ∷ 0xB0502AF3 ∷ 0xB0602B73 ∷ 0xB0702BF3 ∷ 0xB0802C73 ∷ 0xB0902CF3 ∷ 0xB0A02D73 ∷ 0xB0B02DF3
    ∷ 0x0000006F ∷ []

run_b-assembles : assemble 32 run_b ≡ ok run_b_words
unfolding assemble i_type jal csr_reg csr_imm ◌-ℤ◌ preamble_b csrrs
run_b-assembles = refl

build_run_b-assemble_example : length run_b_words ≡ length kernel_words + 27
unfolding build_run_b
build_run_b-assemble_example =
    build_run_b-assemble 32 kernel run_b kernel_words run_b_words kernel-assembles run_b-assembles
      refl
