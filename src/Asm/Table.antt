-- ===== src/Asm/Table.antt =====
-- sim/tools/asm.py: the mnemonics that `assemble` tells apart, by the names in its tables.
use Prim.Native.String.{String}
use rv32im_5_stage_pipelined.Base.{ℕ, Option, none, some, true, false, Bool, List, [], ◌∷◌, ◌++◌}
use rv32im_5_stage_pipelined.Asm.Mnemonic.{
  RType, IType, Shift, Branch, Load, Store, CsrOp, SystemOp,
}
use rv32im_5_stage_pipelined.Asm.Wide.{RTypeW, ITypeW}
use rv32im_5_stage_pipelined.Asm.Floats.{Madd, FpArith, FpSgnj, FpMinmax, FpCmp}
use rv32im_5_stage_pipelined.Asm.Text.{codes, same}

-- The cases of `assemble`.
pub data Mnemonic : Type 0 where
  nop ctz jal jalr lui auipc sfence_vma fence word flw fsw fsqrt fmv_x_w fclass fmv_w_x : Mnemonic
  r : RType → Mnemonic
  i : IType → Mnemonic
  shift : Shift → Mnemonic
  r_w : RTypeW → Mnemonic
  i_w : ITypeW → Mnemonic
  load : Load → Mnemonic
  store : Store → Mnemonic
  branch : Branch → Mnemonic
  csr_reg : CsrOp → Mnemonic
  csr_imm : CsrOp → Mnemonic
  system : SystemOp → Mnemonic
  fp_arith : FpArith → Mnemonic
  fp_sgnj : FpSgnj → Mnemonic
  fp_minmax : FpMinmax → Mnemonic
  fp_cmp : FpCmp → Mnemonic
  -- with whether the integer is unsigned
  fcvt_w_s : Bool → Mnemonic
  fcvt_s_w : Bool → Mnemonic
  madd : Madd → Mnemonic

abbrev pub find {ℓ} : {A : Type ℓ} → List (String × A) → List ℕ → Option A
find [] key = none
find ((name, a) ∷ table) key = elim (same (codes name) key) [
  | true ↦ some a
  | false ↦ find table key
]

abbrev integer_table : List (String × Mnemonic)
integer_table =
    ("nop", nop)
    ∷ ("add", r RType.add)
    ∷ ("sub", r RType.sub)
    ∷ ("sll", r RType.sll)
    ∷ ("slt", r RType.slt)
    ∷ ("sltu", r RType.sltu)
    ∷ ("xor", r RType.xor)
    ∷ ("srl", r RType.srl)
    ∷ ("sra", r RType.sra)
    ∷ ("or", r RType.or)
    ∷ ("and", r RType.and)
    ∷ ("mul", r RType.mul)
    ∷ ("mulh", r RType.mulh)
    ∷ ("mulhsu", r RType.mulhsu)
    ∷ ("mulhu", r RType.mulhu)
    ∷ ("div", r RType.div)
    ∷ ("divu", r RType.divu)
    ∷ ("rem", r RType.rem)
    ∷ ("remu", r RType.remu)
    ∷ ("ctz", ctz)
    ∷ ("addi", i IType.addi)
    ∷ ("slti", i IType.slti)
    ∷ ("sltiu", i IType.sltiu)
    ∷ ("xori", i IType.xori)
    ∷ ("ori", i IType.ori)
    ∷ ("andi", i IType.andi)
    ∷ ("slli", shift Shift.slli)
    ∷ ("srli", shift Shift.srli)
    ∷ ("srai", shift Shift.srai)
    ∷ []

abbrev wide_table : List (String × Mnemonic)
wide_table =
    ("addw", r_w RTypeW.addw)
    ∷ ("subw", r_w RTypeW.subw)
    ∷ ("sllw", r_w RTypeW.sllw)
    ∷ ("srlw", r_w RTypeW.srlw)
    ∷ ("sraw", r_w RTypeW.sraw)
    ∷ ("mulw", r_w RTypeW.mulw)
    ∷ ("divw", r_w RTypeW.divw)
    ∷ ("divuw", r_w RTypeW.divuw)
    ∷ ("remw", r_w RTypeW.remw)
    ∷ ("remuw", r_w RTypeW.remuw)
    ∷ ("addiw", i_w ITypeW.addiw)
    ∷ ("slliw", i_w ITypeW.slliw)
    ∷ ("srliw", i_w ITypeW.srliw)
    ∷ ("sraiw", i_w ITypeW.sraiw)
    ∷ []

abbrev memory_table : List (String × Mnemonic)
memory_table =
    ("lb", load Load.lb)
    ∷ ("lh", load Load.lh)
    ∷ ("lw", load Load.lw)
    ∷ ("lbu", load Load.lbu)
    ∷ ("lhu", load Load.lhu)
    ∷ ("ld", load Load.ld)
    ∷ ("lwu", load Load.lwu)
    ∷ ("sb", store Store.sb)
    ∷ ("sh", store Store.sh)
    ∷ ("sw", store Store.sw)
    ∷ ("sd", store Store.sd)
    ∷ []

abbrev control_table : List (String × Mnemonic)
control_table =
    ("beq", branch Branch.beq)
    ∷ ("bne", branch Branch.bne)
    ∷ ("blt", branch Branch.blt)
    ∷ ("bge", branch Branch.bge)
    ∷ ("ble", branch Branch.ble)
    ∷ ("bgt", branch Branch.bgt)
    ∷ ("bltu", branch Branch.bltu)
    ∷ ("bgeu", branch Branch.bgeu)
    ∷ ("jal", jal)
    ∷ ("jalr", jalr)
    ∷ ("lui", lui)
    ∷ ("auipc", auipc)
    ∷ ("csrrw", csr_reg CsrOp.csrrw)
    ∷ ("csrrs", csr_reg CsrOp.csrrs)
    ∷ ("csrrc", csr_reg CsrOp.csrrc)
    ∷ ("csrrwi", csr_imm CsrOp.csrrwi)
    ∷ ("csrrsi", csr_imm CsrOp.csrrsi)
    ∷ ("csrrci", csr_imm CsrOp.csrrci)
    ∷ ("ecall", system SystemOp.ecall)
    ∷ ("ebreak", system SystemOp.ebreak)
    ∷ ("mret", system SystemOp.mret)
    ∷ ("sret", system SystemOp.sret)
    ∷ ("sfence.vma", sfence_vma)
    ∷ ("fence", fence)
    ∷ ("word", word)
    ∷ []

abbrev float_table : List (String × Mnemonic)
float_table =
    ("flw", flw)
    ∷ ("fsw", fsw)
    ∷ ("fadd.s", fp_arith FpArith.fadd)
    ∷ ("fsub.s", fp_arith FpArith.fsub)
    ∷ ("fmul.s", fp_arith FpArith.fmul)
    ∷ ("fdiv.s", fp_arith FpArith.fdiv)
    ∷ ("fsqrt.s", fsqrt)
    ∷ ("fsgnj.s", fp_sgnj FpSgnj.fsgnj)
    ∷ ("fsgnjn.s", fp_sgnj FpSgnj.fsgnjn)
    ∷ ("fsgnjx.s", fp_sgnj FpSgnj.fsgnjx)
    ∷ ("fmin.s", fp_minmax FpMinmax.fmin)
    ∷ ("fmax.s", fp_minmax FpMinmax.fmax)
    ∷ ("fle.s", fp_cmp FpCmp.fle)
    ∷ ("flt.s", fp_cmp FpCmp.flt)
    ∷ ("feq.s", fp_cmp FpCmp.feq)
    ∷ ("fcvt.w.s", fcvt_w_s false)
    ∷ ("fcvt.wu.s", fcvt_w_s true)
    ∷ ("fcvt.s.w", fcvt_s_w false)
    ∷ ("fcvt.s.wu", fcvt_s_w true)
    ∷ ("fmv.x.w", fmv_x_w)
    ∷ ("fclass.s", fclass)
    ∷ ("fmv.w.x", fmv_w_x)
    ∷ ("fmadd.s", madd Madd.fmadd)
    ∷ ("fmsub.s", madd Madd.fmsub)
    ∷ ("fnmsub.s", madd Madd.fnmsub)
    ∷ ("fnmadd.s", madd Madd.fnmadd)
    ∷ []

unfoldable pub mnemonic_of : List ℕ → Option Mnemonic
mnemonic_of mn =
    find (integer_table ++ wide_table ++ memory_table ++ control_table ++ float_table) mn

abbrev pub csr_table : List (String × ℕ)
csr_table =
    ("mstatus", 0x300)
    ∷ ("mie", 0x304)
    ∷ ("mtvec", 0x305)
    ∷ ("mscratch", 0x340)
    ∷ ("mepc", 0x341)
    ∷ ("mcause", 0x342)
    ∷ ("mip", 0x344)
    ∷ []

abbrev pub rm_table : List (String × ℕ)
rm_table =
    ("rne", 0b000)
    ∷ ("rtz", 0b001)
    ∷ ("rdn", 0b010)
    ∷ ("rup", 0b011)
    ∷ ("rmm", 0b100)
    ∷ ("dyn", 0b111)
    ∷ []
