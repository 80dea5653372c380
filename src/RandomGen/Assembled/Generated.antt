-- ===== src/RandomGen/Assembled/Generated.antt =====
-- sim/tools/random_gen.py, `gen_program` without an interrupt or page tables, and asm.py.
use mathlib.Core.Path.{subst}
use rv32im_5_stage_pipelined.Base.{
  ℕ, suc, ◌+◌, ◌/◌, ◌<◌, ◌≤◌, ◌≡◌, refl, sym, ◌∙◌, arith, Bool, true, false, none, List, [], ◌∷◌,
  ◌++◌, ◌⊎◌, inl, inr, leb, ltb,
}
use rv32im_5_stage_pipelined.Base.Lists.{length}
use rv32im_5_stage_pipelined.Base.Show.{signed_decimal}
use rv32im_5_stage_pipelined.Base.Int.{pos}
use rv32im_5_stage_pipelined.Asm.Mnemonic.{IType}
use rv32im_5_stage_pipelined.Asm.Text.{codes, lower, strip, without_last}
use rv32im_5_stage_pipelined.Asm.Table.{mnemonic_of}
use rv32im_5_stage_pipelined.Asm.Operands.{ok}
use rv32im_5_stage_pipelined.Asm.Statement.{encode, encode_line}
use rv32im_5_stage_pipelined.Asm.Assemble.{clean, first_pass, assemble}
use rv32im_5_stage_pipelined.RandomGen.Source.{Random, IsRandom, Gives, Gives-bind}
use rv32im_5_stage_pipelined.RandomGen.Lines.{x_reg, int_text, label_line, line}
use rv32im_5_stage_pipelined.RandomGen.Resolve.{Resolved, label_if, resolve_items}
use rv32im_5_stage_pipelined.RandomGen.Program.{
  returned, budget, seed_lines, end_lines, out_of, random_part, config_of, plain_program,
  gen_program,
}
use rv32im_5_stage_pipelined.RandomGen.Texts.{plain}
use rv32im_5_stage_pipelined.RandomGen.Encodes.{IsEncodable, i_line}
use rv32im_5_stage_pipelined.RandomGen.Drawn.FloatItems.{AllPool}
use rv32im_5_stage_pipelined.RandomGen.Encodes.Memory.{IsCsr}
use rv32im_5_stage_pipelined.RandomGen.Drawn.Loop.{gen_items-IsGood}
use rv32im_5_stage_pipelined.RandomGen.Drawn.Names.{csr_names-IsCsr, inert_csr_names-IsCsr}
use rv32im_5_stage_pipelined.RandomGen.Fine.{In, IsName, Stmt, Fine}
use rv32im_5_stage_pipelined.RandomGen.Fine.Assembles.{assemble-Fine}
use rv32im_5_stage_pipelined.RandomGen.Targets.{Done, resolve_items-Done}
use rv32im_5_stage_pipelined.RandomGen.Fine.Lines.{
  FineLines, FineLines-append, FineLines-Stmt, label_if-FineLines, label_if-In, In-append_right,
  In-append_left,
}
use rv32im_5_stage_pipelined.RandomGen.Assembled.{
  AllStmts, seed_lines-AllStmts, length-seed_lines, length-first_pass,
}

-- The CSRs that a program reads and writes are known to the assembler.
config_csrs :
    (base mem_size : ℕ) (interrupted mmu wide : Bool)
    → AllPool IsCsr (config_of base mem_size interrupted mmu wide).csr_names_pool
unfolding config_of
config_csrs base mem_size true mmu wide = inert_csr_names-IsCsr
config_csrs base mem_size false mmu wide = csr_names-IsCsr

random_part-Done :
    (rnd : Random)
    → IsRandom rnd
    → (xlen n base mem_size : ℕ) (interrupted mmu : Bool) → n ≤ 1000
    → Gives
        (Done xlen n 1 [] n)
        (random_part rnd (config_of base mem_size interrupted mmu (leb 64 xlen)) n)
unfolding random_part config_of
random_part-Done rnd r xlen n base mem_size interrupted mmu small =
    Gives-bind
      (gen_items-IsGood rnd r xlen (config_of base mem_size interrupted mmu (leb 64 xlen))
        (config_csrs base mem_size interrupted mmu (leb 64 xlen)) refl n)
      λ items (good, size). record {
        all = λ s.
            subst (λ m. Done xlen n 1 [] m (resolve_items rnd n items 1 [] s).0) size
              ((resolve_items-Done rnd r xlen n small items 1 [] good (omega arith)
                  (λ t i. absurd i)).all
                s);
      }

halt_line : IsName (codes "__halt:") (codes "__halt")
unfolding clean without_last strip
halt_line = (refl, refl, refl)

-- A program of a first line, the seeds, what the pass has appended, its last label and the end.
module _ (xlen n : ℕ) (small : n ≤ 1000) (first : List ℕ) (seeds : List (List ℕ)) (d : Resolved)
    (done : Done xlen n 1 [] n d) where
  abbrev tail_lines : List (List ℕ)
  tail_lines = label_if n d.labels_at ++ end_lines

  abbrev framed : List (List ℕ)
  framed = first ∷ (seeds ++ (d.out ++ tail_lines))

  tail-In : (l : List ℕ) → In l (d.out ++ tail_lines) → In l framed
  tail-In l i = inr (In-append_right l seeds (d.out ++ tail_lines) i)

  -- The label of every target is a line of the program.
  target-In : (t : ℕ) → In t d.labels_at → In (label_line t) framed
  target-In t i = tail-In (label_line t) (by_place (done.set t i))
    where
      by_place :
          (In t [] × (t ≤ 1)) ⊎ (In (label_line t) d.out ⊎ (t ≡ n))
          → In (label_line t) (d.out ++ tail_lines)
      by_place (inl (none_before, le)) = absurd none_before
      by_place (inr (inl there)) = In-append_left (label_line t) d.out tail_lines there
      by_place (inr (inr last)) = In-append_right (label_line t) d.out tail_lines (
          In-append_left (label_line t) (label_if n d.labels_at) end_lines (
            subst (λ (m : ℕ). In (label_line m) (label_if n d.labels_at)) (sym last)
              (label_if-In n d.labels_at (subst (λ (m : ℕ). In m d.labels_at) last i))))

  halt-In : In (codes "__halt:") framed
  halt-In = tail-In (codes "__halt:") (
      In-append_right (codes "__halt:") d.out tail_lines
        (In-append_right (codes "__halt:") (label_if n d.labels_at) end_lines (inr (inl refl))))

  fence_line : IsEncodable xlen (codes "fence")
  unfolding encode encode_line lower mnemonic_of clean without_last
  fence_line = ((refl, refl, refl, refl), λ labels addr. (_, refl))

  end_lines-FineLines : FineLines xlen framed end_lines 2
  unfolding plain line x_reg
  end_lines-FineLines = (
    (
      Fine.stmt (codes "fence") (Stmt.as_it_stands (codes "fence") fence_line),
      (
        Fine.label (codes "__halt:") (codes "__halt") halt_line,
        (
          Fine.stmt (codes "jal x0, __halt")
              (Stmt.jump 0 (codes "__halt") (codes "__halt:") (omega arith) refl halt_line halt-In),
          tt,
        ),
      ),
    ),
    refl,
  )

  framed-FineLines :
      IsEncodable xlen first
      → AllStmts xlen framed seeds
      → FineLines xlen framed framed (suc (length seeds + (n + (0 + 2))))
  framed-FineLines first_coded seeded =
      FineLines-Stmt xlen framed (seeds ++ (d.out ++ tail_lines)) first
        (length seeds + (n + (0 + 2))) (Stmt.as_it_stands first first_coded)
        (FineLines-append xlen framed seeds (d.out ++ tail_lines) (length seeds) (n + (0 + 2))
          seeded
          (FineLines-append xlen framed d.out tail_lines n (0 + 2) (done.fine framed target-In) (
            FineLines-append xlen framed (label_if n d.labels_at) end_lines 0 2
              (label_if-FineLines xlen framed n d.labels_at (omega arith)) end_lines-FineLines)))

-- The words that a program of such lines is assembled to.
FineLines-assemble :
    (xlen : ℕ) (ls : List (List ℕ)) (count : ℕ)
    → count ≤ 1023
    → FineLines xlen ls ls count
    → (words : List ℕ) × (assemble xlen ls ≡ ok words) × (length words ≡ count)
FineLines-assemble xlen ls count le (h, e) =
    let counted : length (first_pass ls 0 []).stmts ≡ count =
      length-first_pass xlen ls ls 0 [] h ∙ e in
    let (words, made, size) = assemble-Fine xlen ls h (omega arith) in (words, made, size ∙ counted)

abbrev pub IsAssembled : ℕ → List (List ℕ) → ℕ → Type 0
IsAssembled xlen out count =
    (words : List ℕ) × (assemble xlen out ≡ ok words) × (length words ≡ count)

-- The budget of such a program, and one more.
abbrev pub word_count : Bool → ℕ → ℕ
word_count wide n = budget wide false n 0 + 1

base_line :
    (xlen base : ℕ)
    → base < 2048
    → IsEncodable xlen (line (codes "addi") (x_reg 31) (x_reg 0 ∷ int_text (pos base) ∷ []))
unfolding plain mnemonic_of lower
base_line xlen base low =
    i_line xlen 31 0 (omega arith) (omega arith) (codes "addi") IType.addi (pos base) low
      (refl, refl)

lines-counted :
    (wide : Bool) (n : ℕ) → suc (length (seed_lines wide) + (n + (0 + 2))) ≡ word_count wide n
unfolding budget
lines-counted true n = let e = length-seed_lines true in omega arith
lines-counted false n = let e = length-seed_lines false in omega arith

lines-le : (wide : Bool) (n : ℕ) → n ≤ 1000 → suc (length (seed_lines wide) + (n + (0 + 2))) ≤ 1023
lines-le true n small = let e = length-seed_lines true in omega arith
lines-le false n small = let e = length-seed_lines false in omega arith

out_of-framed :
    (wide : Bool) (n base : ℕ) (d : Resolved)
    → out_of wide base n d
      ≡ line (codes "addi") (x_reg 31) (x_reg 0 ∷ int_text (pos base) ∷ [])
        ∷ (seed_lines wide ++ (d.out ++ (label_if n d.labels_at ++ end_lines)))
unfolding out_of int_text signed_decimal
out_of-framed wide n base d = refl

out_of-IsAssembled :
    (xlen n base : ℕ)
    → n ≤ 1000
    → base < 2048
    → (d : Resolved) → Done xlen n 1 [] n d
    → IsAssembled xlen (out_of (leb 64 xlen) base n d) (word_count (leb 64 xlen) n)
out_of-IsAssembled xlen n base small low d done =
    subst (λ ls. IsAssembled xlen ls (word_count (leb 64 xlen) n))
      (sym (out_of-framed (leb 64 xlen) n base d))
      (let (words, made, size) =
          FineLines-assemble xlen (framed xlen n small first seeds d done)
            (suc (length seeds + (n + (0 + 2)))) (lines-le (leb 64 xlen) n small)
            (framed-FineLines xlen n small first seeds d done (base_line xlen base low)
              (seed_lines-AllStmts xlen (framed xlen n small first seeds d done))) in
        (words, made, size ∙ lines-counted (leb 64 xlen) n))
  where
    first : List ℕ
    first = line (codes "addi") (x_reg 31) (x_reg 0 ∷ int_text (pos base) ∷ [])

    seeds : List (List ℕ)
    seeds = seed_lines (leb 64 xlen)

-- Whatever a source of random numbers draws: a program of at most 1000 random instructions, without
-- an interrupt or page tables, with a base address below 2048 and within its budget, is returned, and
-- it is assembled to one word more than the budget counts.
pub gen_program-assembles :
    (rnd : Random)
    → IsRandom rnd
    → (seed n base mem_size xlen : ℕ) → n ≤ 1000
    → base < 2048
    → budget (leb 64 xlen) false n 0 ≤ mem_size / 4
    → (out : List (List ℕ)) × (gen_program rnd seed n base mem_size none false xlen
        ≡ returned (out, none))
      × IsAssembled xlen out (budget (leb 64 xlen) false n 0 + 1)
unfolding gen_program plain_program
gen_program-assembles rnd r seed n base mem_size xlen small low room =
    let wide = leb 64 xlen in
    let cfg = config_of base mem_size false false wide in
    let d : Resolved = (random_part rnd cfg n (rnd.seeded seed)).0 in
    let within : ltb (mem_size / 4) (budget wide false n 0) ≡ false = ground arith in
    (
      out_of wide base n d,
      rw (within, gen_program) refl,
      out_of-IsAssembled xlen n base small low d
          ((random_part-Done rnd r xlen n base mem_size false false small).all (rnd.seeded seed)),
    )
