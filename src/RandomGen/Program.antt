-- ===== src/RandomGen/Program.antt =====
-- sim/tools/random_gen.py, `gen_program`: the lines of a program, which `"\n".join` makes its text.
use rv32im_5_stage_pipelined.Base.{
  ℕ, ◌+◌, ◌*◌, ◌/◌, ◌^◌, min, Bool, true, false, Option, none, some, List, [], ◌∷◌, ◌++◌, ◌==◌, leb,
  ltb, if◌then◌else◌,
}
use rv32im_5_stage_pipelined.Base.Lists.{length}
use rv32im_5_stage_pipelined.Base.Show.{decimal}
use rv32im_5_stage_pipelined.Asm.Text.{codes, rstrip}
use rv32im_5_stage_pipelined.RandomGen.Source.{Random, Draw, ◌>>=◌, randint}
use rv32im_5_stage_pipelined.RandomGen.Lines.{x_reg, f_reg, line}
use rv32im_5_stage_pipelined.RandomGen.Constants.{const_to_reg_instrs, const64_to_reg_instrs}
use rv32im_5_stage_pipelined.RandomGen.Kinds.{csr_names, inert_csr_names}
use rv32im_5_stage_pipelined.RandomGen.Items.{Config, gen_items, base_reg}
use rv32im_5_stage_pipelined.RandomGen.Resolve.{Resolved, resolve_items, label_if}

-- The argument `interrupt` where it is not None; `other` is any other text.
pub data Interrupt : Type 0 where
  timer uart msi both other : Interrupt

pub data Error : Type 0 where
  value_error key_error : Error

pub data Outcome (T : Type 0) : Type 0 where
  raised : Error → Outcome T
  returned : T → Outcome T

-- `interrupt_info`
pub record Info : Type 0 where
  pub after : ℕ
  pub cause : ℕ

unfoldable pub source_cost : Interrupt → Option ℕ
source_cost Interrupt.timer = some 4
source_cost Interrupt.uart = some 3
source_cost Interrupt.msi = some 3
source_cost Interrupt.both = some 7
source_cost Interrupt.other = none

abbrev pub float_seed_bits : List ℕ
float_seed_bits = 0x00000000 ∷ 0x3F800000 ∷ 0xBF800000 ∷ 0x7F800000 ∷ 0x7FC00000 ∷ 0x00400000 ∷ []

unfoldable pub budget : Bool → Bool → ℕ → ℕ → ℕ
budget wide mmu n_instrs interrupt_prefix_cost =
    1
    + 2 * length float_seed_bits
    + (if wide then 8 else 0)
    + n_instrs
    + 1
    + interrupt_prefix_cost
    + (if mmu then if wide then 24 else 13 else 0)

-- The seeds of the float registers from `fr` on.
unfoldable pub float_seeds : ℕ → List ℕ → List (List ℕ)
unfolding const_to_reg_instrs line f_reg x_reg
float_seeds fr [] = []
float_seeds fr (bits ∷ rest) =
    const_to_reg_instrs 30 bits
    ++ (line (codes "fmv.w.x") (f_reg fr) (x_reg 30 ∷ []) ∷ float_seeds (fr + 1) rest)

unfoldable pub seed_lines : Bool → List (List ℕ)
unfolding float_seeds const64_to_reg_instrs
seed_lines wide =
    float_seeds 1 float_seed_bits
    ++ (if wide then const64_to_reg_instrs 29 30 0xDEADBEEF12345678 else [])

abbrev pub end_lines : List (List ℕ)
end_lines = codes "fence" ∷ codes "__halt:" ∷ codes "jal x0, __halt" ∷ []

-- `out` of the program, behind what the second pass has appended.
unfoldable pub out_of : Bool → ℕ → ℕ → Resolved → List (List ℕ)
unfolding seed_lines label_if line x_reg decimal
out_of wide base_addr n_instrs done =
    line (codes "addi") (x_reg base_reg) (x_reg 0 ∷ codes (decimal base_addr) ∷ [])
    ∷ (seed_lines wide ++ (done.out ++ (label_if n_instrs done.labels_at ++ end_lines)))

-- `sum(1 for l in lines if not l.rstrip().endswith(":"))`
abbrev ends_colon : List ℕ → Bool
ends_colon [] = false
ends_colon (c ∷ []) = c == b':'
ends_colon (c ∷ d ∷ cs) = ends_colon (d ∷ cs)

unfoldable pub instr_count : List (List ℕ) → ℕ
unfolding rstrip
instr_count [] = 0
instr_count (l ∷ ls) = (if ends_colon (rstrip l) then 0 else 1) + instr_count ls

-- `addi x1, x0, n`, where `n` takes the place of the placeholder.
abbrev load_address : ℕ → ℕ → List ℕ
load_address rd n = codes "addi  x" ++ (codes (decimal rd) ++ (codes ", x0, " ++ codes (decimal n)))

-- The prefix of the page tables, up to the placeholder.
unfoldable pub tables_prefix : Bool → List (List ℕ)
unfolding const_to_reg_instrs const64_to_reg_instrs
tables_prefix true =
    const_to_reg_instrs 1 0x401
    ++ (codes "sw x1, 0(x0)"
        ∷ codes "lui x4, 0x1"
        ∷ (const_to_reg_instrs 2 0x801
            ++ (codes "sw x2, 0(x4)"
                ∷ codes "lui x5, 0x2"
                ∷ (const_to_reg_instrs 3 0x1F
                    ++ (codes "sw x3, 0(x5)"
                        ∷ codes "fence"
                        ∷ (const64_to_reg_instrs 1 6 (8 * 2 ^ 60)
                            ++ (codes "csrrw x0, 0x180, x1" ∷ [])))))))
tables_prefix false =
    const_to_reg_instrs 1 0x401
    ++ (codes "sw x1, 0(x0)"
        ∷ codes "lui x3, 0x1"
        ∷ (const_to_reg_instrs 2 0x1F
            ++ (codes "sw x2, 0(x3)"
                ∷ codes "fence"
                ∷ (const_to_reg_instrs 1 0x80000000 ++ (codes "csrrw x0, 0x180, x1" ∷ [])))))

unfoldable pub mmu_prefix : Bool → List (List ℕ)
unfolding tables_prefix decimal line x_reg instr_count
mmu_prefix wide =
    let mepc_target = (instr_count (tables_prefix wide) + 3) * 4 in
    tables_prefix wide
    ++ (line (codes "addi") (x_reg 1) (x_reg 0 ∷ codes (decimal mepc_target) ∷ [])
        ∷ codes "csrrw x0, mepc, x1"
        ∷ codes "mret"
        ∷ [])

-- The prefixes of the interrupts, with the handler's address in the place of the placeholder.
unfoldable pub interrupt_prefix : Interrupt → ℕ → ℕ → List (List ℕ)
unfolding const_to_reg_instrs decimal
interrupt_prefix Interrupt.timer k handler =
    codes "lui   x2, 0x10104"
    ∷ load_address 5 handler
    ∷ codes "csrrw x0, mtvec, x5"
    ∷ codes "addi  x6, x0, 128"
    ∷ codes "csrrw x0, mie, x6"
    ∷ (const_to_reg_instrs 7 (100 + k * 10)
        ++ (codes "sw    x7, 0(x2)" ∷ codes "csrrsi x0, mstatus, 8" ∷ []))
interrupt_prefix Interrupt.uart k handler =
    codes "lui   x1, 0x10000"
    ∷ load_address 5 handler
    ∷ codes "csrrw x0, mtvec, x5"
    ∷ codes "addi  x6, x0, -2048"
    ∷ codes "csrrw x0, mie, x6"
    ∷ codes "addi  x8, x0, 1"
    ∷ codes "sw    x8, 4(x1)"
    ∷ codes "csrrsi x0, mstatus, 8"
    ∷ []
interrupt_prefix Interrupt.msi k handler =
    codes "lui   x2, 0x10100"
    ∷ load_address 5 handler
    ∷ codes "csrrw x0, mtvec, x5"
    ∷ codes "addi  x6, x0, 8"
    ∷ codes "csrrw x0, mie, x6"
    ∷ codes "addi  x7, x0, 1"
    ∷ codes "sw    x7, 0(x2)"
    ∷ codes "csrrsi x0, mstatus, 8"
    ∷ []
interrupt_prefix Interrupt.both k handler =
    codes "lui   x1, 0x10000"
    ∷ codes "lui   x2, 0x10104"
    ∷ load_address 5 handler
    ∷ codes "csrrw x0, mtvec, x5"
    ∷ codes "addi  x6, x0, -1920"
    ∷ codes "csrrw x0, mie, x6"
    ∷ (const_to_reg_instrs 7 (100 + k * 10)
        ++ (codes "sw    x7, 0(x2)"
            ∷ codes "addi  x8, x0, 1"
            ∷ codes "sw    x8, 4(x1)"
            ∷ codes "csrrsi x0, mstatus, 8"
            ∷ []))
interrupt_prefix Interrupt.other k handler = []

unfoldable pub interrupt_cause : Interrupt → ℕ
interrupt_cause Interrupt.timer = 0x80000007
interrupt_cause Interrupt.uart = 0x8000000B
interrupt_cause Interrupt.msi = 0x80000003
interrupt_cause Interrupt.both = 0x8000000B
interrupt_cause Interrupt.other = 0

abbrev handler_lines : List (List ℕ)
handler_lines = codes "handler:" ∷ codes "csrrw x0, mie, x0" ∷ codes "mret" ∷ []

-- The prefix has the same length whatever the address is.
unfoldable pub with_interrupt : Interrupt → ℕ → List (List ℕ) → List (List ℕ)
unfolding interrupt_prefix instr_count
with_interrupt source k out =
    let handler = (instr_count (interrupt_prefix source k 0) + instr_count out) * 4 in
    interrupt_prefix source k handler ++ (out ++ handler_lines)

-- `addr_space`, the pool and the weight of the CSR instructions.
unfoldable pub config_of : ℕ → ℕ → Bool → Bool → Bool → Config
config_of base_addr mem_size interrupted mmu wide = record {
  wide = wide;
  addr_space = if mmu then min mem_size 4096 else mem_size;
  base_addr = base_addr;
  csr_names_pool = if interrupted then inert_csr_names else csr_names;
  csr_weight = if mmu then 0 else 6;
}

-- The random part of the program: the draws from the seeded source in their order.
module _ (rnd : Random) where
  unfoldable pub random_part : Config → ℕ → Draw rnd.State Resolved
  unfolding gen_items resolve_items
  random_part cfg n_instrs = do
    instrs ← gen_items rnd cfg n_instrs
    resolve_items rnd n_instrs instrs 1 []

  -- A program without an interrupt.
  unfoldable pub plain_program : ℕ → ℕ → ℕ → ℕ → Bool → Bool → Outcome (List (List ℕ) × Option Info)
  unfolding budget random_part out_of mmu_prefix config_of
  plain_program seed n_instrs base_addr mem_size mmu wide =
      if ltb (mem_size / 4) (budget wide mmu n_instrs 0)
      then raised value_error
      else let cfg = config_of base_addr mem_size false mmu wide in
        let out = out_of wide base_addr n_instrs (random_part cfg n_instrs (rnd.seeded seed)).0 in
        returned ((if mmu then mmu_prefix wide ++ out else out), none)

  -- A program with one. `rnd.randint(1, 0)` is a `ValueError`.
  unfoldable pub interrupted_program :
      ℕ → ℕ → ℕ → ℕ → Bool → Interrupt → ℕ → Outcome (List (List ℕ) × Option Info)
  unfolding budget random_part out_of with_interrupt interrupt_cause randint config_of
  interrupted_program seed n_instrs base_addr mem_size wide source cost =
      if ltb (mem_size / 4) (budget wide false n_instrs (5 + cost + 2))
      then raised value_error
      else if n_instrs == 0
      then raised value_error
      else let k = randint rnd 1 n_instrs (rnd.seeded seed) in
        let cfg = config_of base_addr mem_size true false wide in
        let out = out_of wide base_addr n_instrs (random_part cfg n_instrs k.1).0 in
        returned (
          with_interrupt source k.0 out,
          some (record { after = k.0; cause = interrupt_cause source }),
        )

  unfoldable pub gen_program :
      ℕ → ℕ → ℕ → ℕ → Option Interrupt → Bool → ℕ → Outcome (List (List ℕ) × Option Info)
  unfolding plain_program interrupted_program source_cost
  gen_program seed n_instrs base_addr mem_size none mmu xlen =
      plain_program seed n_instrs base_addr mem_size mmu (leb 64 xlen)
  gen_program seed n_instrs base_addr mem_size (some source) true xlen = raised value_error
  gen_program seed n_instrs base_addr mem_size (some source) false xlen =
      elim (source_cost source) [
        | none ↦ raised key_error
        | some cost ↦ interrupted_program seed n_instrs base_addr mem_size (leb 64 xlen) source cost
      ]
