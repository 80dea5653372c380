-- ===== src/RandomGen/Drawn/Pools.antt =====
-- sim/tools/random_gen.py and asm.py: the assembler knows the mnemonics in the pools, with their
-- operands.
use rv32im_5_stage_pipelined.Base.{ℕ, ◌≢◌, refl, List, leb, if◌then◌else◌}
use rv32im_5_stage_pipelined.Base.Int.{pos, negsuc}
use rv32im_5_stage_pipelined.Asm.Mnemonic.{RType, IType, Shift, Load, Store}
use rv32im_5_stage_pipelined.Asm.Wide.{RTypeW, ITypeW}
use rv32im_5_stage_pipelined.Asm.Floats.{FpSgnj, FpMinmax}
use rv32im_5_stage_pipelined.Asm.Text.{codes, lower}
use rv32im_5_stage_pipelined.Asm.Table.{Mnemonic, mnemonic_of}
use rv32im_5_stage_pipelined.RandomGen.Lines.{x_reg}
use rv32im_5_stage_pipelined.RandomGen.Kinds
use rv32im_5_stage_pipelined.RandomGen.Kinds.{Pool, WidthPool, Kind}
use rv32im_5_stage_pipelined.RandomGen.Texts.{plain}
use rv32im_5_stage_pipelined.RandomGen.Encodes.{
  Named, IsInt12, r_line, r_w_line, i_line, shift_line, shift_w_line,
}
use rv32im_5_stage_pipelined.RandomGen.Drawn.{IsRegs, IsImm, IsUpTo, IsAccess}
use rv32im_5_stage_pipelined.RandomGen.Encodes.Memory.{load_line, store_line}
use rv32im_5_stage_pipelined.RandomGen.Encodes.FloatLines.{fp_sgnj_line, fp_minmax_line}
use rv32im_5_stage_pipelined.RandomGen.Drawn.FloatItems.{AllPool, IsFpPair}

r-Named : (xlen : ℕ) (m : RType) (mn : List ℕ) → Named mn (Mnemonic.r m) → IsRegs xlen mn
r-Named xlen m mn named rd rs1 rs2 hd h1 h2 = r_line xlen rd rs1 hd h1 mn m rs2 h2 named

r_w-Named : (xlen : ℕ) (m : RTypeW) (mn : List ℕ) → Named mn (Mnemonic.r_w m) → IsRegs xlen mn
r_w-Named xlen m mn named rd rs1 rs2 hd h1 h2 = r_w_line xlen rd rs1 hd h1 mn m rs2 h2 named

i-Named : (xlen : ℕ) (m : IType) (mn : List ℕ) → Named mn (Mnemonic.i m) → IsImm xlen IsInt12 mn
i-Named xlen m mn named rd rs1 v hd h1 hv = i_line xlen rd rs1 hd h1 mn m v hv named

shift-Named :
    (xlen : ℕ) (m : Shift) (mn : List ℕ)
    → Named mn (Mnemonic.shift m)
    → IsImm xlen (IsUpTo (if leb 64 xlen then 63 else 31)) mn
shift-Named xlen m mn named rd rs1 (pos n) hd h1 hv = shift_line xlen rd rs1 hd h1 mn m n hv named
shift-Named xlen m mn named rd rs1 (negsuc n) hd h1 hv = absurd hv

pub shift_w-Named :
    (xlen : ℕ) (m : ITypeW) (mn : List ℕ)
    → m ≢ ITypeW.addiw
    → Named mn (Mnemonic.i_w m)
    → IsImm xlen (IsUpTo 31) mn
shift_w-Named xlen m mn other named rd rs1 (pos n) hd h1 hv =
    shift_w_line xlen rd rs1 hd h1 mn m n hv other named
shift_w-Named xlen m mn other named rd rs1 (negsuc n) hd h1 hv = absurd hv

pub load-Named :
    (xlen : ℕ) (m : Load) (mn : List ℕ) → Named mn (Mnemonic.load m) → IsAccess xlen x_reg mn
load-Named xlen m mn named rd off hd lt = load_line xlen rd off hd lt mn m named

pub store-Named :
    (xlen : ℕ) (m : Store) (mn : List ℕ) → Named mn (Mnemonic.store m) → IsAccess xlen x_reg mn
store-Named xlen m mn named rd off hd lt = store_line xlen rd off hd lt mn m named

sgnj-Named :
    (xlen : ℕ) (m : FpSgnj) (mn : List ℕ) → Named mn (Mnemonic.fp_sgnj m) → IsFpPair xlen mn
sgnj-Named xlen m mn named rd rs1 rs2 hd h1 h2 = fp_sgnj_line xlen rd rs1 hd h1 mn m rs2 h2 named

minmax-Named :
    (xlen : ℕ) (m : FpMinmax) (mn : List ℕ) → Named mn (Mnemonic.fp_minmax m) → IsFpPair xlen mn
minmax-Named xlen m mn named rd rs1 rs2 hd h1 h2 =
    fp_minmax_line xlen rd rs1 hd h1 mn m rs2 h2 named

module _ (xlen : ℕ) where
  pub r_pool : AllPool (IsRegs xlen) Kinds.r_type
  unfolding plain mnemonic_of lower
  r_pool = (
    r-Named xlen RType.add (codes "add") (refl, refl),
    (
      r-Named xlen RType.sub (codes "sub") (refl, refl),
      (
        r-Named xlen RType.sll (codes "sll") (refl, refl),
        (
          r-Named xlen RType.slt (codes "slt") (refl, refl),
          (
            r-Named xlen RType.sltu (codes "sltu") (refl, refl),
            (
              r-Named xlen RType.xor (codes "xor") (refl, refl),
              (
                r-Named xlen RType.srl (codes "srl") (refl, refl),
                (
                  r-Named xlen RType.sra (codes "sra") (refl, refl),
                  (
                    r-Named xlen RType.or (codes "or") (refl, refl),
                    (
                      r-Named xlen RType.and (codes "and") (refl, refl),
                      (
                        r-Named xlen RType.mul (codes "mul") (refl, refl),
                        (
                          r-Named xlen RType.mulh (codes "mulh") (refl, refl),
                          (
                            r-Named xlen RType.mulhsu (codes "mulhsu") (refl, refl),
                            (
                              r-Named xlen RType.mulhu (codes "mulhu") (refl, refl),
                              (
                                r-Named xlen RType.div (codes "div") (refl, refl),
                                (
                                  r-Named xlen RType.divu (codes "divu") (refl, refl),
                                  (
                                    r-Named xlen RType.rem (codes "rem") (refl, refl),
                                    (r-Named xlen RType.remu (codes "remu") (refl, refl), tt),
                                  ),
                                ),
                              ),
                            ),
                          ),
                        ),
                      ),
                    ),
                  ),
                ),
              ),
            ),
          ),
        ),
      ),
    ),
  )

  pub r_w_pool : AllPool (IsRegs xlen) Kinds.r_type_w
  unfolding plain mnemonic_of lower
  r_w_pool = (
    r_w-Named xlen RTypeW.addw (codes "addw") (refl, refl),
    (
      r_w-Named xlen RTypeW.subw (codes "subw") (refl, refl),
      (
        r_w-Named xlen RTypeW.sllw (codes "sllw") (refl, refl),
        (
          r_w-Named xlen RTypeW.srlw (codes "srlw") (refl, refl),
          (
            r_w-Named xlen RTypeW.sraw (codes "sraw") (refl, refl),
            (
              r_w-Named xlen RTypeW.mulw (codes "mulw") (refl, refl),
              (
                r_w-Named xlen RTypeW.divw (codes "divw") (refl, refl),
                (
                  r_w-Named xlen RTypeW.divuw (codes "divuw") (refl, refl),
                  (
                    r_w-Named xlen RTypeW.remw (codes "remw") (refl, refl),
                    (r_w-Named xlen RTypeW.remuw (codes "remuw") (refl, refl), tt),
                  ),
                ),
              ),
            ),
          ),
        ),
      ),
    ),
  )

  pub i_pool : AllPool (IsImm xlen IsInt12) Kinds.i_type
  unfolding plain mnemonic_of lower
  i_pool = (
    i-Named xlen IType.addi (codes "addi") (refl, refl),
    (
      i-Named xlen IType.slti (codes "slti") (refl, refl),
      (
        i-Named xlen IType.sltiu (codes "sltiu") (refl, refl),
        (
          i-Named xlen IType.xori (codes "xori") (refl, refl),
          (
            i-Named xlen IType.ori (codes "ori") (refl, refl),
            (i-Named xlen IType.andi (codes "andi") (refl, refl), tt),
          ),
        ),
      ),
    ),
  )

  pub shift_pool : AllPool (IsImm xlen (IsUpTo (if leb 64 xlen then 63 else 31))) Kinds.shift_i
  unfolding plain mnemonic_of lower
  shift_pool = (
    shift-Named xlen Shift.slli (codes "slli") (refl, refl),
    (
      shift-Named xlen Shift.srli (codes "srli") (refl, refl),
      (shift-Named xlen Shift.srai (codes "srai") (refl, refl), tt),
    ),
  )

  pub sgnj_pool : AllPool (IsFpPair xlen) Kinds.fp_sgnj_pool
  unfolding plain mnemonic_of lower
  sgnj_pool = (
    sgnj-Named xlen FpSgnj.fsgnj (codes "fsgnj.s") (refl, refl),
    (
      sgnj-Named xlen FpSgnj.fsgnjn (codes "fsgnjn.s") (refl, refl),
      (sgnj-Named xlen FpSgnj.fsgnjx (codes "fsgnjx.s") (refl, refl), tt),
    ),
  )

  pub minmax_pool : AllPool (IsFpPair xlen) Kinds.fp_minmax_pool
  unfolding plain mnemonic_of lower
  minmax_pool = (
    minmax-Named xlen FpMinmax.fmin (codes "fmin.s") (refl, refl),
    (minmax-Named xlen FpMinmax.fmax (codes "fmax.s") (refl, refl), tt),
  )
