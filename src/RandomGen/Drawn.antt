-- ===== src/RandomGen/Drawn.antt =====
-- sim/tools/random_gen.py, `gen_program`: each drawn instruction is one that the assembler encodes.
pub mod FloatItems
pub mod Names
pub mod Pools
pub mod Loop
use Prim.Native.String
use native.Mathlib.Nat.{mul-div-le, mul-le-mul_left}
use rv32im_5_stage_pipelined.Base.{
  ℕ, zero, suc, ◌+◌, ◌-◌, ◌*◌, ◌/◌, min, ◌<◌, ◌≤◌, ◌≡◌, ◌≢◌, refl, arith, Bool, true, false, List,
  [], ◌∷◌, leb, if◌then◌else◌,
}
use rv32im_5_stage_pipelined.Base.Int.{ℤ, pos, negsuc, ◌-ℤ◌}
use rv32im_5_stage_pipelined.Asm.Mnemonic.{RType, IType, Shift, Branch, Load, Store, CsrOp}
use rv32im_5_stage_pipelined.Asm.Wide.{RTypeW, ITypeW}
use rv32im_5_stage_pipelined.Asm.Floats.{FpArith, FpSgnj, FpMinmax, FpCmp, Madd}
use rv32im_5_stage_pipelined.Asm.Text.{codes, lower}
use rv32im_5_stage_pipelined.Asm.Table.{Mnemonic, mnemonic_of}
use rv32im_5_stage_pipelined.RandomGen.Source.{
  Random, IsRandom, Draw, ◌>>=◌, drawn, choice, randint, Gives, Gives-bind, Gives-drawn, All,
  choice-All, randint_bounds,
}
use rv32im_5_stage_pipelined.RandomGen.Lines.{x_reg, f_reg, int_text, address_text, line}
use rv32im_5_stage_pipelined.RandomGen.Kinds
use rv32im_5_stage_pipelined.RandomGen.Kinds.{Pool, WidthPool, Kind}
use rv32im_5_stage_pipelined.RandomGen.Items
use rv32im_5_stage_pipelined.RandomGen.Items.{Item, Config}
use rv32im_5_stage_pipelined.RandomGen.Texts.{plain}
use rv32im_5_stage_pipelined.RandomGen.Encodes.{
  IsEncodable, Named, IsInt12, r_line, r_w_line, i_line, shift_line, addiw_line, shift_w_line,
}

-- An item whose line is encoded, or will be once its target is drawn.
abbrev pub IsGood : ℕ → Item → Type 0
IsGood xlen (Item.text t) = IsEncodable xlen t
IsGood xlen (Item.branch mn rs1 rs2) =
    (m : Branch) × Named mn (Mnemonic.branch m) × (rs1 < 32) × (rs2 < 32)
IsGood xlen (Item.jal rd) = rd < 32

-- The mnemonic of three registers; of two and an integer.
abbrev pub IsRegs : ℕ → List ℕ → Type 0
IsRegs xlen mn =
    (rd rs1 rs2 : ℕ)
    → rd < 32
    → rs1 < 32
    → rs2 < 32
    → IsEncodable xlen (line mn (x_reg rd) (x_reg rs1 ∷ x_reg rs2 ∷ []))

abbrev pub IsImm : ℕ → (ℤ → Type 0) → List ℕ → Type 0
IsImm xlen P mn =
    (rd rs1 : ℕ) (v : ℤ)
    → rd < 32
    → rs1 < 32
    → P v
    → IsEncodable xlen (line mn (x_reg rd) (x_reg rs1 ∷ int_text v ∷ []))

-- `0 <= v <= hi`
abbrev pub IsUpTo : ℕ → ℤ → Type 0
IsUpTo hi (pos n) = n ≤ hi
IsUpTo hi (negsuc n) = ⊥

-- An entry of `I_TYPE_W` with what its operand is.
abbrev pub IsImmW : ℕ → List ℕ × Bool → Type 0
IsImmW xlen (mn, true) = IsImm xlen IsInt12 mn
IsImmW xlen (mn, false) = IsImm xlen (IsUpTo 31) mn

abbrev pub IsAccess : ℕ → (ℕ → List ℕ) → List ℕ → Type 0
IsAccess xlen tok mn =
    (rd off : ℕ)
    → rd < 32
    → off < 2048
    → IsEncodable xlen (line mn (tok rd) (address_text off 31 ∷ []))

abbrev pub IsBranch : List ℕ → Type 0
IsBranch mn = (m : Branch) × Named mn (Mnemonic.branch m)

module _ (rnd : Random) (r : IsRandom rnd) where
  pub gp_reg-lt : Gives (λ n. n < 32) (Items.gp_reg rnd)
  unfolding Items.gp_reg
  gp_reg-lt =
      let h = randint_bounds rnd 1 30 r (omega arith) in
      record { all = λ s. omega (arith, h.all s) }

  pub freg-lt : Gives (λ n. n < 32) (Items.freg rnd)
  unfolding Items.freg
  freg-lt =
      let h = randint_bounds rnd 0 31 r (omega arith) in
      record { all = λ s. omega (arith, h.all s) }

  pub imm12-IsInt12 : Gives IsInt12 (Items.imm12 rnd)
  unfolding Items.imm12 ◌-ℤ◌
  imm12-IsInt12 =
      Gives-bind (randint_bounds rnd 0 4095 r (omega arith))
        λ v h. Gives-drawn IsInt12 (pos v -ℤ pos 2048) (shifted v h.1)
    where
      shifted : (v : ℕ) → v ≤ 4095 → IsInt12 (pos v -ℤ pos 2048)
      shifted v h = ground arith

  pub unsigned-IsUpTo : (hi : ℕ) → Gives (IsUpTo hi) (Items.unsigned rnd hi)
  unfolding Items.unsigned
  unsigned-IsUpTo hi =
      Gives-bind (randint_bounds rnd 0 hi r (omega arith))
        λ v h. Gives-drawn (IsUpTo hi) (pos v) h.1

  pub offset-lt :
      (cfg : Config) (width : ℕ) → Gives (λ off. off < 2048) (Items.offset rnd cfg width)
  unfolding Items.offset
  offset-lt cfg width = by_test (leb (cfg.base_addr + width) cfg.addr_space)
    where
      by_test :
          (b : Bool)
          → Gives
              (λ off. off < 2048)
              (if b
                then (do
                  k ← randint rnd 0 (min (cfg.addr_space - cfg.base_addr - width) 2047 / width)
                  drawn (width * k))
                else drawn 0)
      by_test false = Gives-drawn (λ off. off < 2048) 0 (omega arith)
      by_test true =
          let q : ℕ = min (cfg.addr_space - cfg.base_addr - width) 2047 in
          Gives-bind (randint_bounds rnd 0 (q / width) r (omega arith)) λ k h.
            Gives-drawn (λ off. off < 2048) (width * k)
              (omega (arith, mul-le-mul_left width h.1, mul-div-le q width))

  pub choose-All :
      (P : List ℕ → Type 0) (pool : Pool)
      → P pool.0
      → All P pool.1
      → Gives P (Items.choose rnd pool)
  unfolding Items.choose
  choose-All P pool h k = choice-All P rnd pool.0 pool.1 h k

  pub r_item-IsGood :
      (xlen : ℕ) (pool : Pool)
      → IsRegs xlen pool.0
      → All (IsRegs xlen) pool.1
      → Gives (IsGood xlen) (Items.r_item rnd pool)
  unfolding Items.r_item
  r_item-IsGood xlen pool h k = Gives-bind (choose-All (IsRegs xlen) pool h k) λ mn form.
      Gives-bind gp_reg-lt λ rd hd. Gives-bind gp_reg-lt λ rs1 h1. Gives-bind gp_reg-lt λ rs2 h2.
        Gives-drawn (IsGood xlen) (Item.text (line mn (x_reg rd) (x_reg rs1 ∷ x_reg rs2 ∷ [])))
          (form rd rs1 rs2 hd h1 h2)

  pub i_item-IsGood :
      (xlen : ℕ)
      → IsImm xlen IsInt12 Kinds.i_type.0
      → All (IsImm xlen IsInt12) Kinds.i_type.1
      → Gives (IsGood xlen) (Items.i_item rnd)
  unfolding Items.i_item
  i_item-IsGood xlen h k = Gives-bind (choose-All (IsImm xlen IsInt12) Kinds.i_type h k) λ mn form.
      Gives-bind gp_reg-lt λ rd hd. Gives-bind gp_reg-lt λ rs1 h1. Gives-bind imm12-IsInt12 λ v hv.
        Gives-drawn (IsGood xlen) (Item.text (line mn (x_reg rd) (x_reg rs1 ∷ int_text v ∷ [])))
          (form rd rs1 v hd h1 hv)

  pub iw_item-IsGood :
      (xlen : ℕ)
      → IsImmW xlen Kinds.i_type_w.0
      → All (IsImmW xlen) Kinds.i_type_w.1
      → Gives (IsGood xlen) (Items.iw_item rnd)
  unfolding Items.iw_item
  iw_item-IsGood xlen h k =
      Gives-bind (choice-All (IsImmW xlen) rnd Kinds.i_type_w.0 Kinds.i_type_w.1 h k) λ mn form.
        Gives-bind gp_reg-lt λ rd hd. Gives-bind gp_reg-lt λ rs1 h1. operand mn form rd rs1 hd h1
    where
      operand :
          (mn : List ℕ × Bool)
          → IsImmW xlen mn
          → (rd rs1 : ℕ) → rd < 32
          → rs1 < 32
          → Gives (IsGood xlen) (
              (if mn.1 then Items.imm12 rnd else Items.unsigned rnd 31) >>= λ imm.
              drawn (Item.text (line mn.0 (x_reg rd) (x_reg rs1 ∷ int_text imm ∷ []))))
      operand (mn, true) form rd rs1 hd h1 = Gives-bind imm12-IsInt12 λ v hv.
          Gives-drawn (IsGood xlen) (Item.text (line mn (x_reg rd) (x_reg rs1 ∷ int_text v ∷ [])))
            (form rd rs1 v hd h1 hv)
      operand (mn, false) form rd rs1 hd h1 = Gives-bind (unsigned-IsUpTo 31) λ v hv.
          Gives-drawn (IsGood xlen) (Item.text (line mn (x_reg rd) (x_reg rs1 ∷ int_text v ∷ [])))
            (form rd rs1 v hd h1 hv)

  pub shift_item-IsGood :
      (xlen : ℕ) (wide : Bool)
      → IsImm xlen (IsUpTo (if wide then 63 else 31)) Kinds.shift_i.0
      → All (IsImm xlen (IsUpTo (if wide then 63 else 31))) Kinds.shift_i.1
      → Gives (IsGood xlen) (Items.shift_item rnd wide)
  unfolding Items.shift_item
  shift_item-IsGood xlen wide h k =
      let hi : ℕ = if wide then 63 else 31 in
      Gives-bind (choose-All (IsImm xlen (IsUpTo hi)) Kinds.shift_i h k) λ mn form.
        Gives-bind gp_reg-lt λ rd hd. Gives-bind gp_reg-lt λ rs1 h1.
          Gives-bind (unsigned-IsUpTo hi) λ v hv.
            Gives-drawn (IsGood xlen) (Item.text (line mn (x_reg rd) (x_reg rs1 ∷ int_text v ∷ [])))
              (form rd rs1 v hd h1 hv)

  pub memory_item-IsGood :
      (xlen : ℕ) (cfg : Config) (pool : WidthPool)
      → IsAccess xlen x_reg pool.0.0
      → All (λ entry. IsAccess xlen x_reg entry.0) pool.1
      → Gives (IsGood xlen) (Items.memory_item rnd cfg pool)
  unfolding Items.memory_item
  memory_item-IsGood xlen cfg pool h k =
      Gives-bind (choice-All (λ entry. IsAccess xlen x_reg entry.0) rnd pool.0 pool.1 h k)
        λ mn form. Gives-bind gp_reg-lt λ rd hd. Gives-bind (offset-lt cfg mn.1) λ off lt.
          Gives-drawn (IsGood xlen) (Item.text (line mn.0 (x_reg rd) (address_text off 31 ∷ [])))
            (form rd off hd lt)

  pub float_memory_item-IsGood :
      (xlen : ℕ) (cfg : Config) (mn : List ℕ)
      → IsAccess xlen f_reg mn
      → Gives (IsGood xlen) (Items.float_memory_item rnd cfg mn)
  unfolding Items.float_memory_item
  float_memory_item-IsGood xlen cfg mn form = Gives-bind freg-lt λ rd hd.
      Gives-bind (offset-lt cfg 4) λ off lt.
        Gives-drawn (IsGood xlen) (Item.text (line mn (f_reg rd) (address_text off 31 ∷ [])))
          (form rd off hd lt)

  pub branch_item-IsGood :
      (xlen : ℕ)
      → IsBranch Kinds.branches.0
      → All IsBranch Kinds.branches.1
      → Gives (IsGood xlen) (Items.branch_item rnd)
  unfolding Items.branch_item
  branch_item-IsGood xlen h k = Gives-bind (choose-All IsBranch Kinds.branches h k) λ mn (m, named).
      Gives-bind gp_reg-lt λ rs1 h1.
        Gives-bind gp_reg-lt
          λ rs2 h2. Gives-drawn (IsGood xlen) (Item.branch mn rs1 rs2) (m, named, h1, h2)

  pub jal_item-IsGood : (xlen : ℕ) → Gives (IsGood xlen) (Items.jal_item rnd)
  unfolding Items.jal_item
  jal_item-IsGood xlen = Gives-bind gp_reg-lt λ rd hd. Gives-drawn (IsGood xlen) (Item.jal rd) hd
