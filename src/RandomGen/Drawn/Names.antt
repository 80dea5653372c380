-- ===== src/RandomGen/Drawn/Names.antt =====
-- sim/tools/random_gen.py and asm.py: the assembler knows the names of branches, CSRs and float
-- instructions in the pools.
use rv32im_5_stage_pipelined.Base.{refl, true, false}
use rv32im_5_stage_pipelined.Asm.Mnemonic.{Branch, CsrOp}
use rv32im_5_stage_pipelined.Asm.Floats.{FpArith, FpCmp, Madd}
use rv32im_5_stage_pipelined.Asm.Text.{lower}
use rv32im_5_stage_pipelined.Asm.Table.{mnemonic_of}
use rv32im_5_stage_pipelined.RandomGen.Kinds
use rv32im_5_stage_pipelined.RandomGen.Kinds.{Pool, WidthPool, Kind}
use rv32im_5_stage_pipelined.RandomGen.Texts.{plain}
use rv32im_5_stage_pipelined.RandomGen.Drawn.{IsBranch}
use rv32im_5_stage_pipelined.RandomGen.Encodes.Memory.{IsCsr}
use rv32im_5_stage_pipelined.RandomGen.Encodes.FloatLines.{IsRm}
use rv32im_5_stage_pipelined.Asm.Operands.{parse_rm, csr_lookup}
use rv32im_5_stage_pipelined.RandomGen.Drawn.FloatItems.{
  AllPool, IsFpArith, IsFpCmp, IsMadd, IsCvtToInt, IsCvtFromInt, IsCsrReg, IsCsrImm,
}

pub branches-IsBranch : AllPool IsBranch Kinds.branches
unfolding plain mnemonic_of lower
branches-IsBranch = (
  (Branch.beq, (refl, refl)),
  (
    (Branch.bne, (refl, refl)),
    (
      (Branch.blt, (refl, refl)),
      (
        (Branch.bge, (refl, refl)),
        (
          (Branch.ble, (refl, refl)),
          (
            (Branch.bgt, (refl, refl)),
            ((Branch.bltu, (refl, refl)), ((Branch.bgeu, (refl, refl)), tt)),
          ),
        ),
      ),
    ),
  ),
)

pub csr_reg_op-IsCsrReg : AllPool IsCsrReg Kinds.csr_reg_op
unfolding plain mnemonic_of lower
csr_reg_op-IsCsrReg =
    ((CsrOp.csrrw, (refl, refl)), ((CsrOp.csrrs, (refl, refl)), ((CsrOp.csrrc, (refl, refl)), tt)))

pub csr_imm_op-IsCsrImm : AllPool IsCsrImm Kinds.csr_imm_op
unfolding plain mnemonic_of lower
csr_imm_op-IsCsrImm = (
  (CsrOp.csrrwi, (refl, refl)),
  ((CsrOp.csrrsi, (refl, refl)), ((CsrOp.csrrci, (refl, refl)), tt)),
)

pub fp_arith_pool-IsFpArith : AllPool IsFpArith Kinds.fp_arith_pool
unfolding plain mnemonic_of lower
fp_arith_pool-IsFpArith = (
  (FpArith.fadd, (refl, refl)),
  (
    (FpArith.fsub, (refl, refl)),
    ((FpArith.fmul, (refl, refl)), ((FpArith.fdiv, (refl, refl)), tt)),
  ),
)

pub fp_cmp_pool-IsFpCmp : AllPool IsFpCmp Kinds.fp_cmp_pool
unfolding plain mnemonic_of lower
fp_cmp_pool-IsFpCmp =
    ((FpCmp.feq, (refl, refl)), ((FpCmp.flt, (refl, refl)), ((FpCmp.fle, (refl, refl)), tt)))

pub madd_names : AllPool IsMadd Kinds.fmadd_family
unfolding plain mnemonic_of lower
madd_names = (
  (Madd.fmadd, (refl, refl)),
  ((Madd.fmsub, (refl, refl)), ((Madd.fnmsub, (refl, refl)), ((Madd.fnmadd, (refl, refl)), tt))),
)

pub to_int_names : AllPool IsCvtToInt Kinds.fp_cvt_to_int_pool
unfolding plain mnemonic_of lower
to_int_names = ((false, (refl, refl)), ((true, (refl, refl)), tt))

pub from_int_names : AllPool IsCvtFromInt Kinds.fp_cvt_from_int_pool
unfolding plain mnemonic_of lower
from_int_names = ((false, (refl, refl)), ((true, (refl, refl)), tt))

pub rm_names-IsRm : AllPool IsRm Kinds.rm_names
unfolding plain parse_rm
rm_names-IsRm = (
  (refl, (0, refl)),
  (
    (refl, (1, refl)),
    ((refl, (2, refl)), ((refl, (3, refl)), ((refl, (4, refl)), ((refl, (7, refl)), tt)))),
  ),
)

pub csr_names-IsCsr : AllPool IsCsr Kinds.csr_names
unfolding plain csr_lookup
csr_names-IsCsr = (
  (refl, (0x300, refl)),
  (
    (refl, (0x305, refl)),
    ((refl, (0x340, refl)), ((refl, (0x341, refl)), ((refl, (0x342, refl)), tt))),
  ),
)

pub inert_csr_names-IsCsr : AllPool IsCsr Kinds.inert_csr_names
unfolding plain csr_lookup
inert_csr_names-IsCsr = ((refl, (0x340, refl)), tt)

pub fcsr_pool : AllPool IsCsr Kinds.fcsr_addrs
unfolding plain csr_lookup
fcsr_pool = ((refl, (1, refl)), ((refl, (2, refl)), ((refl, (3, refl)), tt)))
