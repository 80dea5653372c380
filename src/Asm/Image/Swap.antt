-- ===== src/Asm/Image/Swap.antt =====
-- sim/tools/asm.py and sim/tools/run_random_tests.py: what `load_words` makes of a file that `write_mem` wrote.
use rv32im_5_stage_pipelined.Base.{
  ℕ, zero, suc, ◌+◌, ◌*◌, ◌/◌, ◌%◌, ◌^◌, ◌≤◌, ◌<◌, ◌≡◌, ◌∙◌, refl, ap, arith, Bool-cases, inl, inr,
  Option, none, some, List, [], ◌∷◌, ltb, ltb→lt,
}
use rv32im_5_stage_pipelined.Base.Lists.{length, get_elem?, get_elem?-lt}
use rv32im_5_stage_pipelined.Asm.Image.{
  put_word, store_words, lines_of, write_mem, word_of, load_words,
}

-- The word with its four bytes in reverse.
unfoldable pub byte_swap : ℕ → ℕ
byte_swap w = word_of (w % 2 ^ 8) (w / 2 ^ 8 % 2 ^ 8) (w / 2 ^ 16 % 2 ^ 8) (w / 2 ^ 24 % 2 ^ 8)

-- The word that the bytes from `off` upwards spell.
abbrev word_at : (ℕ → ℕ) → ℕ → ℕ
word_at bytes off = word_of (bytes off) (bytes (off + 1)) (bytes (off + 2)) (bytes (off + 3))

put_word-below : (off w : ℕ) (bytes : ℕ → ℕ) (j : ℕ) → j < off → put_word off w bytes j ≡ bytes j
unfolding put_word
put_word-below off w bytes j h = ground arith

word_at-put_word : (off w : ℕ) (bytes : ℕ → ℕ) → word_at (put_word off w bytes) off ≡ byte_swap w
unfolding put_word byte_swap
word_at-put_word off w bytes = ground arith

-- What the loop leaves: it succeeds, keeps what stands below, and puts each word at its place.
record IsStored (i : ℕ) (words : List ℕ) (bytes bytes' : ℕ → ℕ) : Type 0 where
  keeps : (j : ℕ) → j < i * 4 → bytes' j ≡ bytes j
  puts : (k w : ℕ) → get_elem? words k ≡ some w → word_at bytes' ((i + k) * 4) ≡ byte_swap w

store_words-IsStored :
    (size i : ℕ) (words : List ℕ) (bytes : ℕ → ℕ)
    → (i + length words) * 4 ≤ size
    → (bytes' : ℕ → ℕ) × (store_words size i words bytes ≡ some bytes')
      × IsStored i words bytes bytes'
unfolding store_words
store_words-IsStored size i [] bytes h =
    (bytes, refl, record { keeps = λ j hj. refl; puts = λ k w e. cc e })
store_words-IsStored size i (w ∷ words) bytes h =
    let (bytes', e, stored) =
      store_words-IsStored size (i + 1) words (put_word (i * 4) w bytes) (omega arith) in
    (
      bytes',
      fits e,
      record {
        keeps = λ j hj. stored.keeps j (omega arith) ∙ put_word-below (i * 4) w bytes j hj;
        puts = at stored;
      },
    )
  where
    at :
        {bytes' : ℕ → ℕ}
        → IsStored (i + 1) words (put_word (i * 4) w bytes) bytes'
        → (k w' : ℕ) → get_elem? (w ∷ words) k ≡ some w'
        → word_at bytes' ((i + k) * 4) ≡ byte_swap w'
    at {bytes'} stored zero w' e =
        let here : (i + 0) * 4 ≡ i * 4 = omega arith in
        rw
          (
            here,
            stored.keeps (i * 4) (omega arith),
            stored.keeps (i * 4 + 1) (omega arith),
            stored.keeps (i * 4 + 2) (omega arith),
            stored.keeps (i * 4 + 3) (omega arith),
          )
          (word_at-put_word (i * 4) w bytes
            ∙ ap (λ (o : Option ℕ). elim o [ none ↦ 0 | some x ↦ byte_swap x ]) e)
    at {bytes'} stored (suc k) w' e =
        let there : (i + suc k) * 4 ≡ (i + 1 + k) * 4 = omega arith in
        ap (word_at bytes') there ∙ stored.puts k w' e

    fits :
        {bytes' : ℕ → ℕ}
        → store_words size (i + 1) words (put_word (i * 4) w bytes) ≡ some bytes'
        → store_words size i (w ∷ words) bytes ≡ some bytes'
    fits e = elim (Bool-cases (ltb size (i * 4 + 4))) [
      | inl over ↦ absurd (omega (arith, ltb→lt size (i * 4 + 4) over))
      | inr within ↦ rw (within, store_words) e
    ]

load_words-lines_of :
    (k count j : ℕ) (bytes : ℕ → ℕ)
    → k * 4 + 4 ≤ count
    → get_elem? (load_words (lines_of count j bytes)) k ≡ some (word_at bytes (j + k * 4))
unfolding load_words lines_of
load_words-lines_of k zero j bytes h = absurd (omega arith)
load_words-lines_of k (suc zero) j bytes h = absurd (omega arith)
load_words-lines_of k (suc (suc zero)) j bytes h = absurd (omega arith)
load_words-lines_of k (suc (suc (suc zero))) j bytes h = absurd (omega arith)
load_words-lines_of zero (suc (suc (suc (suc count)))) j bytes h =
    let second : j + 1 + 1 ≡ j + 2 = omega arith in
    let third : j + 2 + 1 ≡ j + 3 = omega arith in
    let here : j + 0 * 4 ≡ j = omega arith in rw (here, second, third) refl
load_words-lines_of (suc k) (suc (suc (suc (suc count)))) j bytes h =
    let there : j + 1 + 1 + 1 + 1 + k * 4 ≡ j + suc k * 4 = omega arith in
    load_words-lines_of k count (j + 1 + 1 + 1 + 1) bytes (omega arith)
    ∙ ap (λ (x : ℕ). some (word_at bytes x)) there

-- A program that fits the memory is written, and what is read back has at the place of each word
-- of the program that word with its four bytes in reverse.
pub load_words-write_mem :
    (words : List ℕ) (size_bytes : ℕ)
    → length words * 4 ≤ size_bytes
    → (lines : List ℕ) × (write_mem words size_bytes ≡ some lines)
      × ((k w : ℕ)
          → get_elem? words k ≡ some w
          → get_elem? (load_words lines) k ≡ some (byte_swap w))
unfolding write_mem
load_words-write_mem words size_bytes h =
    let (bytes, e, stored) = store_words-IsStored size_bytes 0 words (λ _. 0) (omega arith) in
    (
      lines_of size_bytes 0 bytes,
      rw e refl,
      λ k w found.
          let inside = get_elem?-lt words k w found in
          let here : 0 + k * 4 ≡ (0 + k) * 4 = omega arith in
          load_words-lines_of k size_bytes 0 bytes (omega arith)
          ∙ ap (λ (x : ℕ). some (word_at bytes x)) here
          ∙ ap (λ (x : ℕ). some x) (stored.puts k w found),
    )
