-- ===== src/RandomGen/Drawn/FloatItems.antt =====
-- sim/tools/random_gen.py, `gen_program`: the drawn float and CSR instructions.
use rv32im_5_stage_pipelined.Base.{ℕ, ◌<◌, Bool, true, false, List, [], ◌∷◌, if◌then◌else◌}
use rv32im_5_stage_pipelined.Base.Int.{ℤ, pos, negsuc}
use rv32im_5_stage_pipelined.Asm.Mnemonic.{CsrOp}
use rv32im_5_stage_pipelined.Asm.Floats.{FpArith, FpCmp, Madd}
use rv32im_5_stage_pipelined.Asm.Text.{codes}
use rv32im_5_stage_pipelined.Asm.Table.{Mnemonic}
use rv32im_5_stage_pipelined.RandomGen.Source.{
  Random, IsRandom, Gives, Gives-bind, Gives-drawn, All,
}
use rv32im_5_stage_pipelined.RandomGen.Lines.{x_reg, f_reg, int_text, line}
use rv32im_5_stage_pipelined.RandomGen.Kinds
use rv32im_5_stage_pipelined.RandomGen.Kinds.{Pool, WidthPool, Kind}
use rv32im_5_stage_pipelined.RandomGen.Items
use rv32im_5_stage_pipelined.RandomGen.Items.{Item, Config}
use rv32im_5_stage_pipelined.RandomGen.Encodes.{IsEncodable, Named}
use rv32im_5_stage_pipelined.RandomGen.Drawn.{
  IsGood, IsUpTo, gp_reg-lt, freg-lt, unsigned-IsUpTo, choose-All,
}
use rv32im_5_stage_pipelined.RandomGen.Encodes.Memory.{IsCsr, csr_reg_line, csr_imm_line}
use rv32im_5_stage_pipelined.RandomGen.Encodes.FloatLines.{
  IsRm, fp_arith_line, fp_cmp_line, fp_madd_line, fp_sqrt_line, fcvt_w_s_line, fcvt_s_w_line,
}

-- The mnemonics of the float forms and of the CSR forms.
abbrev pub IsFpArith : List ℕ → Type 0
IsFpArith mn = (m : FpArith) × Named mn (Mnemonic.fp_arith m)

abbrev pub IsFpCmp : List ℕ → Type 0
IsFpCmp mn = (m : FpCmp) × Named mn (Mnemonic.fp_cmp m)

abbrev pub IsMadd : List ℕ → Type 0
IsMadd mn = (m : Madd) × Named mn (Mnemonic.madd m)

abbrev pub IsCvtToInt : List ℕ → Type 0
IsCvtToInt mn = (unsigned : Bool) × Named mn (Mnemonic.fcvt_w_s unsigned)

abbrev pub IsCvtFromInt : List ℕ → Type 0
IsCvtFromInt mn = (unsigned : Bool) × Named mn (Mnemonic.fcvt_s_w unsigned)

abbrev pub IsCsrReg : List ℕ → Type 0
IsCsrReg mn = (m : CsrOp) × Named mn (Mnemonic.csr_reg m)

abbrev pub IsCsrImm : List ℕ → Type 0
IsCsrImm mn = (m : CsrOp) × Named mn (Mnemonic.csr_imm m)

abbrev pub IsFpPair : ℕ → List ℕ → Type 0
IsFpPair xlen mn =
    (rd rs1 rs2 : ℕ)
    → rd < 32
    → rs1 < 32
    → rs2 < 32
    → IsEncodable xlen (line mn (f_reg rd) (f_reg rs1 ∷ f_reg rs2 ∷ []))

-- Every element of a pool.
abbrev pub AllPool : (List ℕ → Type 0) → Pool → Type 0
AllPool P pool = P pool.0 × All P pool.1

module _ (rnd : Random) (r : IsRandom rnd) (xlen : ℕ) where
  pool_choice :
      (P : List ℕ → Type 0) (pool : Pool) → AllPool P pool → Gives P (Items.choose rnd pool)
  pool_choice P pool h = choose-All rnd r P pool h.0 h.1

  pub fp_pair_item-IsGood :
      (pool : Pool)
      → AllPool (IsFpPair xlen) pool
      → Gives (IsGood xlen) (Items.fp_pair_item rnd pool)
  unfolding Items.fp_pair_item
  fp_pair_item-IsGood pool h = Gives-bind (pool_choice (IsFpPair xlen) pool h) λ mn form.
      Gives-bind (freg-lt rnd r) λ rd hd. Gives-bind (freg-lt rnd r) λ rs1 h1.
        Gives-bind (freg-lt rnd r) λ rs2 h2.
          Gives-drawn (IsGood xlen) (Item.text (line mn (f_reg rd) (f_reg rs1 ∷ f_reg rs2 ∷ [])))
            (form rd rs1 rs2 hd h1 h2)

  pub fp_cmp_item-IsGood :
      AllPool IsFpCmp Kinds.fp_cmp_pool → Gives (IsGood xlen) (Items.fp_cmp_item rnd)
  unfolding Items.fp_cmp_item
  fp_cmp_item-IsGood h = Gives-bind (pool_choice IsFpCmp Kinds.fp_cmp_pool h) λ mn (m, named).
      Gives-bind (gp_reg-lt rnd r) λ rd hd. Gives-bind (freg-lt rnd r) λ rs1 h1.
        Gives-bind (freg-lt rnd r) λ rs2 h2.
          Gives-drawn (IsGood xlen) (Item.text (line mn (x_reg rd) (f_reg rs1 ∷ f_reg rs2 ∷ [])))
            (fp_cmp_line xlen rd rs1 hd h1 mn m rs2 h2 named)

  pub csr_item-IsGood :
      (pool : Pool)
      → AllPool IsCsr pool
      → AllPool IsCsrReg Kinds.csr_reg_op
      → AllPool IsCsrImm Kinds.csr_imm_op
      → Gives (IsGood xlen) (Items.csr_item rnd pool)
  unfolding Items.csr_item Items.csr_reg_item Items.csr_imm_item
  csr_item-IsGood pool h regs imms = Gives-bind (pool_choice IsCsr pool h) λ csr known.
      Gives-bind (gp_reg-lt rnd r) λ rd hd.
        Gives-bind {P = λ b. Unit {0}} (record { all = λ s. tt })
          λ by_register always. operand csr known rd hd by_register
    where
      operand :
          (csr : List ℕ)
          → IsCsr csr
          → (rd : ℕ) → rd < 32
          → (b : Bool)
          → Gives
              (IsGood xlen)
              (if b then Items.csr_reg_item rnd csr rd else Items.csr_imm_item rnd csr rd)
      operand csr known rd hd true =
          Gives-bind (pool_choice IsCsrReg Kinds.csr_reg_op regs) λ mn (m, named).
            Gives-bind (gp_reg-lt rnd r) λ rs1 h1.
              Gives-drawn (IsGood xlen) (Item.text (line mn (x_reg rd) (csr ∷ x_reg rs1 ∷ [])))
                (csr_reg_line xlen rd hd mn csr m known rs1 h1 named)
      operand csr known rd hd false =
          Gives-bind (pool_choice IsCsrImm Kinds.csr_imm_op imms) λ mn (m, named).
            Gives-bind (unsigned-IsUpTo rnd r 31) λ v hv.
              Gives-drawn (IsGood xlen) (Item.text (line mn (x_reg rd) (csr ∷ int_text v ∷ [])))
                (by_sign mn m named csr known rd hd v hv)
        where
          by_sign :
              (mn : List ℕ) (m : CsrOp)
              → Named mn (Mnemonic.csr_imm m)
              → (csr : List ℕ) → IsCsr csr
              → (rd : ℕ) → rd < 32
              → (v : ℤ) → IsUpTo 31 v
              → IsEncodable xlen (line mn (x_reg rd) (csr ∷ int_text v ∷ []))
          by_sign mn m named csr known rd hd (pos n) le =
              csr_imm_line xlen rd hd mn csr m known n le named
          by_sign mn m named csr known rd hd (negsuc n) le = absurd le

  module _ (rms : AllPool IsRm Kinds.rm_names) where
    pub fp_arith_item-IsGood :
        AllPool IsFpArith Kinds.fp_arith_pool → Gives (IsGood xlen) (Items.fp_arith_item rnd)
    unfolding Items.fp_arith_item
    fp_arith_item-IsGood h =
        Gives-bind (pool_choice IsFpArith Kinds.fp_arith_pool h) λ mn (m, named).
          Gives-bind (freg-lt rnd r) λ rd hd. Gives-bind (freg-lt rnd r) λ rs1 h1.
            Gives-bind (freg-lt rnd r) λ rs2 h2.
              Gives-bind (pool_choice IsRm Kinds.rm_names rms) λ rm mode.
                Gives-drawn (IsGood xlen)
                  (Item.text (line mn (f_reg rd) (f_reg rs1 ∷ f_reg rs2 ∷ rm ∷ [])))
                  (fp_arith_line xlen rd rs1 hd h1 mn m rs2 rm h2 mode named)

    pub fp_sqrt_item-IsGood :
        Named (codes "fsqrt.s") Mnemonic.fsqrt → Gives (IsGood xlen) (Items.fp_sqrt_item rnd)
    unfolding Items.fp_sqrt_item
    fp_sqrt_item-IsGood named = Gives-bind (freg-lt rnd r) λ rd hd.
        Gives-bind (freg-lt rnd r) λ rs1 h1.
          Gives-bind (pool_choice IsRm Kinds.rm_names rms) λ rm mode.
            Gives-drawn (IsGood xlen)
              (Item.text (line (codes "fsqrt.s") (f_reg rd) (f_reg rs1 ∷ rm ∷ [])))
              (fp_sqrt_line xlen rd rs1 hd h1 (codes "fsqrt.s") rm mode named)

    pub fp_cvt_to_int_item-IsGood :
        AllPool IsCvtToInt Kinds.fp_cvt_to_int_pool
        → Gives (IsGood xlen) (Items.fp_cvt_to_int_item rnd)
    unfolding Items.fp_cvt_to_int_item
    fp_cvt_to_int_item-IsGood h =
        Gives-bind (pool_choice IsCvtToInt Kinds.fp_cvt_to_int_pool h) λ mn (u, named).
          Gives-bind (gp_reg-lt rnd r) λ rd hd. Gives-bind (freg-lt rnd r) λ rs1 h1.
            Gives-bind (pool_choice IsRm Kinds.rm_names rms) λ rm mode.
              Gives-drawn (IsGood xlen) (Item.text (line mn (x_reg rd) (f_reg rs1 ∷ rm ∷ [])))
                (fcvt_w_s_line xlen rd rs1 hd h1 mn u rm mode named)

    pub fp_cvt_from_int_item-IsGood :
        AllPool IsCvtFromInt Kinds.fp_cvt_from_int_pool
        → Gives (IsGood xlen) (Items.fp_cvt_from_int_item rnd)
    unfolding Items.fp_cvt_from_int_item
    fp_cvt_from_int_item-IsGood h =
        Gives-bind (pool_choice IsCvtFromInt Kinds.fp_cvt_from_int_pool h) λ mn (u, named).
          Gives-bind (freg-lt rnd r) λ rd hd. Gives-bind (gp_reg-lt rnd r) λ rs1 h1.
            Gives-bind (pool_choice IsRm Kinds.rm_names rms) λ rm mode.
              Gives-drawn (IsGood xlen) (Item.text (line mn (f_reg rd) (x_reg rs1 ∷ rm ∷ [])))
                (fcvt_s_w_line xlen rd rs1 hd h1 mn u rm mode named)

    pub fp_madd_item-IsGood :
        AllPool IsMadd Kinds.fmadd_family → Gives (IsGood xlen) (Items.fp_madd_item rnd)
    unfolding Items.fp_madd_item
    fp_madd_item-IsGood h = Gives-bind (pool_choice IsMadd Kinds.fmadd_family h) λ mn (m, named).
        Gives-bind (freg-lt rnd r) λ rd hd. Gives-bind (freg-lt rnd r) λ rs1 h1.
          Gives-bind (freg-lt rnd r) λ rs2 h2. Gives-bind (freg-lt rnd r) λ rs3 h3.
            Gives-bind (pool_choice IsRm Kinds.rm_names rms) λ rm mode.
              Gives-drawn (IsGood xlen)
                (Item.text (line mn (f_reg rd) (f_reg rs1 ∷ f_reg rs2 ∷ f_reg rs3 ∷ rm ∷ [])))
                (fp_madd_line xlen rd rs1 hd h1 mn m rs2 rs3 rm h2 h3 mode named)
