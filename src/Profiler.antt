-- ===== src/Profiler.antt =====
-- sim/tools/profiler.py: the static mix of instructions, and the programs of its two runs, as lists
-- of lines. A missing `halt:` is `none`. Buckets are their names.
pub mod Mix
pub mod Runs
use Prim.Native.String
use Prim.Native.String.{String}
use rv32im_5_stage_pipelined.Base.{
  ℕ, zero, suc, ◌+◌, Bool, true, false, Option, none, some, List, [], ◌∷◌, ◌++◌, if◌then◌else◌,
}
use rv32im_5_stage_pipelined.Asm.Text.{codes, same, lower, strip, without_last, split_fields}
use rv32im_5_stage_pipelined.Asm.Assemble.{clean}
use rv32im_5_stage_pipelined.RandomGen.Lines.{x_reg, hex_text, int_text, line}
use rv32im_5_stage_pipelined.Base.Int.{pos}

abbrev texts : List String → List (List ℕ)
texts [] = []
texts (s ∷ ss) = codes s ∷ texts ss

abbrev pub mix_buckets : List (List ℕ × List (List ℕ))
mix_buckets =
    (codes "branch", texts ("beq" ∷ "bne" ∷ "blt" ∷ "bge" ∷ "ble" ∷ "bgt" ∷ []))
    ∷ (codes "jump", texts ("jal" ∷ "jalr" ∷ []))
    ∷ (codes "load", texts ("lw" ∷ "lh" ∷ "lb" ∷ "lhu" ∷ "lbu" ∷ "flw" ∷ []))
    ∷ (codes "store", texts ("sw" ∷ "sh" ∷ "sb" ∷ "fsw" ∷ []))
    ∷ (
      codes "muldiv",
      texts ("mul" ∷ "mulh" ∷ "mulhsu" ∷ "mulhu" ∷ "div" ∷ "divu" ∷ "rem" ∷ "remu" ∷ []),
    )
    ∷ (
      codes "fp",
      texts (
          "fadd.s" ∷ "fsub.s" ∷ "fmul.s" ∷ "fdiv.s" ∷ "fsqrt.s" ∷ "fmadd.s" ∷ "fmsub.s" ∷ "fnmadd.s"
          ∷ "fnmsub.s" ∷ "fcvt.w.s" ∷ "fcvt.wu.s" ∷ "fcvt.s.w" ∷ "fcvt.s.wu" ∷ "fmv.x.w" ∷ "fmv.w.x"
          ∷ "fclass.s" ∷ "feq.s" ∷ "flt.s" ∷ "fle.s" ∷ "fmin.s" ∷ "fmax.s" ∷ []),
    )
    ∷ (codes "csr", texts ("csrrw" ∷ "csrrs" ∷ "csrrc" ∷ "csrrwi" ∷ "csrrsi" ∷ "csrrci" ∷ []))
    ∷ (
      codes "system",
      texts ("ecall" ∷ "ebreak" ∷ "mret" ∷ "sret" ∷ "sfence.vma" ∷ "fence" ∷ "nop" ∷ []),
    )
    ∷ []

-- `mn in mns`
unfoldable pub is_one_of : List ℕ → List (List ℕ) → Bool
is_one_of mn [] = false
is_one_of mn (m ∷ mns) = if same mn m then true else is_one_of mn mns

unfoldable pub bucket_from : List ℕ → List (List ℕ × List (List ℕ)) → List ℕ
unfolding is_one_of
bucket_from mn [] = codes "alu"
bucket_from mn ((name, mns) ∷ rest) = if is_one_of mn mns then name else bucket_from mn rest

abbrev first_of : List (List ℕ) → List ℕ
first_of [] = []
first_of (t ∷ ts) = t

unfoldable pub bucket_of : List ℕ → List ℕ
unfolding bucket_from lower split_fields
bucket_of stmt = bucket_from (lower (first_of (split_fields stmt))) mix_buckets

-- `counts[bucket] = counts.get(bucket, 0) + 1`, on the entries of the dict in their order.
unfoldable pub count_one : List ℕ → List (List ℕ × ℕ) → List (List ℕ × ℕ)
count_one bucket [] = (bucket, 1) ∷ []
count_one bucket ((name, n) ∷ counts) = elim (same bucket name) [
  | true ↦ (name, n + 1) ∷ counts
  | false ↦ (name, n) ∷ count_one bucket counts
]

pub record Counted : Type 0 where
  pub counts : List (List ℕ × ℕ)
  pub total : ℕ

unfoldable pub count_stmt : List ℕ → Counted → Counted
unfolding bucket_of count_one
count_stmt stmt mix = record {
  counts = count_one (bucket_of stmt) mix.counts;
  total = mix.total + 1;
}

-- The loop of `classify_mix`. A line ends with ":" where something is left without it.
unfoldable pub classify_from : List (List ℕ) → Counted → Counted
unfolding clean without_last count_stmt
classify_from [] mix = mix
classify_from (raw ∷ lines) mix = elim (clean raw) [
  | [] ↦ classify_from lines mix
  | c ∷ cs ↦ elim (without_last b':' (c ∷ cs)) [
    | some name ↦ classify_from lines mix
    | none ↦ classify_from lines (count_stmt (c ∷ cs) mix)
  ]
]

unfoldable pub classify_mix : List (List ℕ) → Counted
unfolding classify_from
classify_mix kernel_lines = classify_from kernel_lines (record { counts = []; total = 0 })

-- `line.strip() == "halt:"`
unfoldable pub is_halt : List ℕ → Bool
unfolding strip
is_halt l = same (strip l) (codes "halt:")

abbrev pub in_front : List ℕ → Option (List (List ℕ)) → Option (List (List ℕ))
in_front l none = none
in_front l (some out) = some (l ∷ out)

-- Behind the first `halt:` the lines are only copied.
unfoldable pub insert_before_halt : List (List ℕ) → List (List ℕ) → Option (List (List ℕ))
unfolding is_halt
insert_before_halt [] new_lines = none
insert_before_halt (l ∷ lines) new_lines = elim (is_halt l) [
  | true ↦ some (new_lines ++ (l ∷ lines))
  | false ↦ in_front l (insert_before_halt lines new_lines)
]

unfoldable pub csrrs : ℕ → ℕ → List ℕ
unfolding line x_reg hex_text
csrrs rd csr_addr = line (codes "csrrs") (x_reg rd) (hex_text csr_addr ∷ x_reg 0 ∷ [])

unfoldable pub csrrwi : ℕ → ℕ → List ℕ
unfolding line x_reg hex_text int_text
csrrwi csr_addr uimm =
    line (codes "csrrwi") (x_reg 0) (hex_text csr_addr ∷ int_text (pos uimm) ∷ [])

-- `[f(a + i, b + i) for i in range(n)]`
abbrev pub for_each : (ℕ → ℕ → List ℕ) → ℕ → ℕ → ℕ → List (List ℕ)
for_each f a b zero = []
for_each f a b (suc n) = f a b ∷ for_each f (a + 1) (b + 1) n

unfoldable pub epilogue_a : List (List ℕ)
unfolding csrrs
epilogue_a = csrrs 19 0xB00 ∷ csrrs 20 0xB02 ∷ for_each csrrs 21 0xB03 9

unfoldable pub preamble_b : List (List ℕ)
unfolding csrrwi line x_reg hex_text
preamble_b =
    for_each csrrwi 0x323 10 9
    ++ for_each (λ csr i. line (codes "csrrw") (x_reg 0) (hex_text csr ∷ x_reg 0 ∷ [])) 0xB03 0 9

unfoldable pub build_run_a : List (List ℕ) → Option (List (List ℕ))
unfolding insert_before_halt epilogue_a
build_run_a kernel_lines = insert_before_halt kernel_lines epilogue_a

abbrev pub behind : List (List ℕ) → Option (List (List ℕ)) → Option (List (List ℕ))
behind preamble none = none
behind preamble (some out) = some (preamble ++ out)

unfoldable pub build_run_b : List (List ℕ) → Option (List (List ℕ))
unfolding insert_before_halt preamble_b csrrs
build_run_b kernel_lines =
    behind preamble_b (insert_before_halt kernel_lines (for_each csrrs 19 0xB03 9))
