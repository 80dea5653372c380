-- ===== src/RandomGen/Kinds.antt =====
-- sim/tools/random_gen.py: its pools of mnemonics, names and kinds of instruction. A pool is its first
-- element with the others.
use Prim.Native.String.{String}
use rv32im_5_stage_pipelined.Base.{ℕ, Bool, true, false, List, [], ◌∷◌, if◌then◌else◌}
use rv32im_5_stage_pipelined.Asm.Text.{codes}

abbrev pub Pool : Type 0
Pool = List ℕ × List (List ℕ)

abbrev texts : List String → List (List ℕ)
texts [] = []
texts (s ∷ ss) = codes s ∷ texts ss

abbrev pub r_type : Pool
r_type = (
  codes "add",
  texts (
      "sub" ∷ "sll" ∷ "slt" ∷ "sltu" ∷ "xor" ∷ "srl" ∷ "sra" ∷ "or" ∷ "and" ∷ "mul" ∷ "mulh"
      ∷ "mulhsu" ∷ "mulhu" ∷ "div" ∷ "divu" ∷ "rem" ∷ "remu" ∷ []),
)

abbrev pub i_type : Pool
i_type = (codes "addi", texts ("slti" ∷ "sltiu" ∷ "xori" ∷ "ori" ∷ "andi" ∷ []))

abbrev pub shift_i : Pool
shift_i = (codes "slli", texts ("srli" ∷ "srai" ∷ []))

abbrev pub branches : Pool
branches = (codes "beq", texts ("bne" ∷ "blt" ∷ "bge" ∷ "ble" ∷ "bgt" ∷ "bltu" ∷ "bgeu" ∷ []))

abbrev pub csr_reg_op : Pool
csr_reg_op = (codes "csrrw", texts ("csrrs" ∷ "csrrc" ∷ []))

abbrev pub csr_imm_op : Pool
csr_imm_op = (codes "csrrwi", texts ("csrrsi" ∷ "csrrci" ∷ []))

abbrev pub csr_names : Pool
csr_names = (codes "mstatus", texts ("mtvec" ∷ "mscratch" ∷ "mepc" ∷ "mcause" ∷ []))

-- The names that are left with an interrupt.
abbrev pub inert_csr_names : Pool
inert_csr_names = (codes "mscratch", [])

abbrev pub fp_arith_pool : Pool
fp_arith_pool = (codes "fadd.s", texts ("fsub.s" ∷ "fmul.s" ∷ "fdiv.s" ∷ []))

abbrev pub fp_sgnj_pool : Pool
fp_sgnj_pool = (codes "fsgnj.s", texts ("fsgnjn.s" ∷ "fsgnjx.s" ∷ []))

abbrev pub fp_minmax_pool : Pool
fp_minmax_pool = (codes "fmin.s", texts ("fmax.s" ∷ []))

abbrev pub fp_cmp_pool : Pool
fp_cmp_pool = (codes "feq.s", texts ("flt.s" ∷ "fle.s" ∷ []))

abbrev pub fp_cvt_to_int_pool : Pool
fp_cvt_to_int_pool = (codes "fcvt.w.s", texts ("fcvt.wu.s" ∷ []))

abbrev pub fp_cvt_from_int_pool : Pool
fp_cvt_from_int_pool = (codes "fcvt.s.w", texts ("fcvt.s.wu" ∷ []))

abbrev pub fmadd_family : Pool
fmadd_family = (codes "fmadd.s", texts ("fmsub.s" ∷ "fnmsub.s" ∷ "fnmadd.s" ∷ []))

abbrev pub rm_names : Pool
rm_names = (codes "rne", texts ("rtz" ∷ "rdn" ∷ "rup" ∷ "rmm" ∷ "dyn" ∷ []))

-- `FCSR_ADDR[name]` of the `FCSR_NAMES`
abbrev pub fcsr_addrs : Pool
fcsr_addrs = (codes "0x1", texts ("0x2" ∷ "0x3" ∷ []))

abbrev pub r_type_w : Pool
r_type_w = (
  codes "addw",
  texts ("subw" ∷ "sllw" ∷ "srlw" ∷ "sraw" ∷ "mulw" ∷ "divw" ∷ "divuw" ∷ "remw" ∷ "remuw" ∷ []),
)

-- `I_TYPE_W`, with whether the operand is an immediate of 12 digits.
abbrev pub i_type_w : (List ℕ × Bool) × List (List ℕ × Bool)
i_type_w = (
  (codes "addiw", true),
  (codes "slliw", false) ∷ (codes "srliw", false) ∷ (codes "sraiw", false) ∷ [],
)

-- `load_mnemonics` and `store_mnemonics`, with their widths.
abbrev pub WidthPool : Type 0
WidthPool = (List ℕ × ℕ) × List (List ℕ × ℕ)

abbrev pub load_mnemonics : Bool → WidthPool
load_mnemonics wide = (
  (codes "lb", 1),
  (codes "lh", 2)
      ∷ (codes "lw", 4)
      ∷ (codes "lbu", 1)
      ∷ (codes "lhu", 2)
      ∷ (if wide then (codes "ld", 8) ∷ (codes "lwu", 4) ∷ [] else []),
)

abbrev pub store_mnemonics : Bool → WidthPool
store_mnemonics wide = (
  (codes "sb", 1),
  (codes "sh", 2) ∷ (codes "sw", 4) ∷ (if wide then (codes "sd", 8) ∷ [] else []),
)

pub data Kind : Type 0 where
  r i shift load store branch jal csr fp_arith fp_sqrt fp_sgnj fp_minmax fp_cmp : Kind
  fp_cvt_to_int fp_cvt_from_int fp_madd fload fstore fcsr rw_ iw : Kind

-- `kind_names` behind the first, and `kind_weights`.
abbrev pub kind_names : Bool → List Kind
kind_names wide =
    Kind.i
    ∷ Kind.shift
    ∷ Kind.load
    ∷ Kind.store
    ∷ Kind.branch
    ∷ Kind.jal
    ∷ Kind.csr
    ∷ Kind.fp_arith
    ∷ Kind.fp_sqrt
    ∷ Kind.fp_sgnj
    ∷ Kind.fp_minmax
    ∷ Kind.fp_cmp
    ∷ Kind.fp_cvt_to_int
    ∷ Kind.fp_cvt_from_int
    ∷ Kind.fp_madd
    ∷ Kind.fload
    ∷ Kind.fstore
    ∷ Kind.fcsr
    ∷ (if wide then Kind.rw_ ∷ Kind.iw ∷ [] else [])

abbrev pub kind_weights : Bool → ℕ → List ℕ
kind_weights wide csr_weight =
    24
    ∷ 16
    ∷ 8
    ∷ 10
    ∷ 10
    ∷ 8
    ∷ 5
    ∷ csr_weight
    ∷ 10
    ∷ 4
    ∷ 4
    ∷ 4
    ∷ 4
    ∷ 4
    ∷ 4
    ∷ 6
    ∷ 6
    ∷ 6
    ∷ 4
    ∷ (if wide then 12 ∷ 8 ∷ [] else [])
