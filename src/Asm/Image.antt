-- ===== src/Asm/Image.antt =====
-- sim/tools/asm.py, `write_mem`: the memory image of a program, one byte for each line. And
-- sim/tools/run_random_tests.py, `load_words`, which reads such a file back; sim/tools/debugger.py
-- and sim/tools/bench_runner.py have copies of it. A line is the byte that its digits denote.
pub mod Swap
use rv32im_5_stage_pipelined.Base.{
  ℕ, zero, suc, ◌+◌, ◌*◌, ◌/◌, ◌%◌, ◌^◌, Option, none, some, List, [], ◌∷◌, ◌==◌, ltb, ◌>>>◌,
  if◌then◌else◌,
}
use rv32im_5_stage_pipelined.Iss.State.{update}

-- The four bytes of a word from `off` upwards, the lowest first.
unfoldable pub put_word : ℕ → ℕ → (ℕ → ℕ) → ℕ → ℕ
put_word off w bytes =
    let bytes1 = update bytes (off + 0) (w % 2 ^ 8) in
    let bytes2 = update bytes1 (off + 1) ((w >>> 8) % 2 ^ 8) in
    let bytes3 = update bytes2 (off + 2) ((w >>> 16) % 2 ^ 8) in
    update bytes3 (off + 3) ((w >>> 24) % 2 ^ 8)

-- The loop over the words at the index `i`. `none` is the `ValueError` of a program that exceeds
-- the memory.
unfoldable pub store_words : ℕ → ℕ → List ℕ → (ℕ → ℕ) → Option (ℕ → ℕ)
unfolding put_word
store_words size_bytes i [] bytes = some bytes
store_words size_bytes i (w ∷ words) bytes =
    let rest = store_words size_bytes (i + 1) words (put_word (i * 4) w bytes) in
    if ltb size_bytes (i * 4 + 4) then none else rest

-- `count` bytes from `j` upwards, as the lines of the file.
unfoldable pub lines_of : ℕ → ℕ → (ℕ → ℕ) → List ℕ
lines_of zero j bytes = []
lines_of (suc count) j bytes = bytes j ∷ lines_of count (j + 1) bytes

abbrev lines_or_error : ℕ → Option (ℕ → ℕ) → Option (List ℕ)
lines_or_error size_bytes none = none
lines_or_error size_bytes (some bytes) = some (lines_of size_bytes 0 bytes)

unfoldable pub write_mem : List ℕ → ℕ → Option (List ℕ)
unfolding store_words lines_of
write_mem words size_bytes = lines_or_error size_bytes (store_words size_bytes 0 words (λ _. 0))

-- `int(b[0] + b[1] + b[2] + b[3], 2)`: the first line holds the highest digits.
abbrev pub word_of : ℕ → ℕ → ℕ → ℕ → ℕ
word_of b0 b1 b2 b3 = ((b0 * 2 ^ 8 + b1) * 2 ^ 8 + b2) * 2 ^ 8 + b3

-- Four lines at a time; the last group is dropped where it is not full.
unfoldable pub load_words : List ℕ → List ℕ
load_words [] = []
load_words (b0 ∷ []) = []
load_words (b0 ∷ b1 ∷ []) = []
load_words (b0 ∷ b1 ∷ b2 ∷ []) = []
load_words (b0 ∷ b1 ∷ b2 ∷ b3 ∷ lines) = word_of b0 b1 b2 b3 ∷ load_words lines
