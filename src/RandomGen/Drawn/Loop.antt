-- ===== src/RandomGen/Drawn/Loop.antt =====
-- sim/tools/random_gen.py, `gen_program`: every drawn instruction is one that the assembler encodes.
use rv32im_5_stage_pipelined.Base.{
  ℕ, zero, suc, ◌≡◌, refl, ap, Bool, true, false, List, [], ◌∷◌, leb, if◌then◌else◌,
}
use rv32im_5_stage_pipelined.Asm.Mnemonic.{Load, Store}
use rv32im_5_stage_pipelined.Asm.Wide.{ITypeW}
use rv32im_5_stage_pipelined.Asm.Text.{codes, lower}
use rv32im_5_stage_pipelined.Asm.Table.{mnemonic_of}
use rv32im_5_stage_pipelined.RandomGen.Source.{
  Random, IsRandom, Gives, Gives-bind, Gives-drawn, All,
}
use rv32im_5_stage_pipelined.RandomGen.Lines.{x_reg}
use rv32im_5_stage_pipelined.RandomGen.Kinds
use rv32im_5_stage_pipelined.RandomGen.Kinds.{Pool, WidthPool, Kind}
use rv32im_5_stage_pipelined.RandomGen.Items
use rv32im_5_stage_pipelined.RandomGen.Items.{Item, Config}
use rv32im_5_stage_pipelined.RandomGen.Texts.{plain}
use rv32im_5_stage_pipelined.RandomGen.Encodes.{addiw_line}
use rv32im_5_stage_pipelined.RandomGen.Drawn.{
  IsGood, IsAccess, r_item-IsGood, i_item-IsGood, iw_item-IsGood, shift_item-IsGood,
  memory_item-IsGood, float_memory_item-IsGood, branch_item-IsGood, jal_item-IsGood,
}
use rv32im_5_stage_pipelined.RandomGen.Encodes.Memory.{IsCsr, flw_line, fsw_line}
use rv32im_5_stage_pipelined.RandomGen.Drawn.FloatItems.{AllPool}
use rv32im_5_stage_pipelined.Base.Lists.{length}
use rv32im_5_stage_pipelined.RandomGen.Drawn.FloatItems.{
  fp_pair_item-IsGood, fp_cmp_item-IsGood, csr_item-IsGood, fp_arith_item-IsGood,
  fp_sqrt_item-IsGood, fp_cvt_to_int_item-IsGood, fp_cvt_from_int_item-IsGood, fp_madd_item-IsGood,
}
use rv32im_5_stage_pipelined.RandomGen.Drawn.Pools.{
  r_pool, r_w_pool, i_pool, shift_pool, sgnj_pool, minmax_pool, load-Named, store-Named,
  shift_w-Named,
}
use rv32im_5_stage_pipelined.RandomGen.Drawn.Names.{
  branches-IsBranch, csr_reg_op-IsCsrReg, csr_imm_op-IsCsrImm, fp_arith_pool-IsFpArith,
  fp_cmp_pool-IsFpCmp, madd_names, to_int_names, from_int_names, rm_names-IsRm, fcsr_pool,
}

loads_named :
    (xlen : ℕ) (wide : Bool)
    → IsAccess xlen x_reg (Kinds.load_mnemonics wide).0.0
      × All (λ entry. IsAccess xlen x_reg entry.0) (Kinds.load_mnemonics wide).1
unfolding plain mnemonic_of lower
loads_named xlen wide = (
  load-Named xlen Load.lb (codes "lb") (refl, refl),
  (
    load-Named xlen Load.lh (codes "lh") (refl, refl),
    (
      load-Named xlen Load.lw (codes "lw") (refl, refl),
      (
        load-Named xlen Load.lbu (codes "lbu") (refl, refl),
        (load-Named xlen Load.lhu (codes "lhu") (refl, refl), by_width wide),
      ),
    ),
  ),
)
  where
    by_width :
        (b : Bool)
        → All
            (λ (entry : List ℕ × ℕ). IsAccess xlen x_reg entry.0)
            (if b then (codes "ld", 8) ∷ (codes "lwu", 4) ∷ [] else [])
    by_width false = tt
    by_width true = (
      load-Named xlen Load.ld (codes "ld") (refl, refl),
      (load-Named xlen Load.lwu (codes "lwu") (refl, refl), tt),
    )

stores_named :
    (xlen : ℕ) (wide : Bool)
    → IsAccess xlen x_reg (Kinds.store_mnemonics wide).0.0
      × All (λ entry. IsAccess xlen x_reg entry.0) (Kinds.store_mnemonics wide).1
unfolding plain mnemonic_of lower
stores_named xlen wide = (
  store-Named xlen Store.sb (codes "sb") (refl, refl),
  (
    store-Named xlen Store.sh (codes "sh") (refl, refl),
    (store-Named xlen Store.sw (codes "sw") (refl, refl), by_width wide),
  ),
)
  where
    by_width :
        (b : Bool)
        → All
            (λ (entry : List ℕ × ℕ). IsAccess xlen x_reg entry.0)
            (if b then (codes "sd", 8) ∷ [] else [])
    by_width false = tt
    by_width true = (store-Named xlen Store.sd (codes "sd") (refl, refl), tt)

module _ (rnd : Random) (r : IsRandom rnd) (xlen : ℕ) where
  loads-IsGood :
      (cfg : Config)
      → Gives (IsGood xlen) (Items.memory_item rnd cfg (Kinds.load_mnemonics cfg.wide))
  loads-IsGood cfg =
      let (h, k) = loads_named xlen cfg.wide in
      memory_item-IsGood rnd r xlen cfg (Kinds.load_mnemonics cfg.wide) h k

  stores-IsGood :
      (cfg : Config)
      → Gives (IsGood xlen) (Items.memory_item rnd cfg (Kinds.store_mnemonics cfg.wide))
  stores-IsGood cfg =
      let (h, k) = stores_named xlen cfg.wide in
      memory_item-IsGood rnd r xlen cfg (Kinds.store_mnemonics cfg.wide) h k

  iw-IsGood : Gives (IsGood xlen) (Items.iw_item rnd)
  unfolding plain mnemonic_of lower
  iw-IsGood =
      iw_item-IsGood rnd r xlen
        (λ rd rs1 v hd h1 hv. addiw_line xlen rd rs1 hd h1 (codes "addiw") v hv (refl, refl))
        (
          shift_w-Named xlen ITypeW.slliw (codes "slliw") (λ e. cc e) (refl, refl),
          (
            shift_w-Named xlen ITypeW.srliw (codes "srliw") (λ e. cc e) (refl, refl),
            (shift_w-Named xlen ITypeW.sraiw (codes "sraiw") (λ e. cc e) (refl, refl), tt),
          ),
        )

  module _ (cfg : Config) (csrs : AllPool IsCsr cfg.csr_names_pool) where
    item_of-IsGood :
        cfg.wide ≡ leb 64 xlen → (kind : Kind) → Gives (IsGood xlen) (Items.item_of rnd cfg kind)
    unfolding Items.item_of plain mnemonic_of lower
    item_of-IsGood e Kind.r = let (h, k) = r_pool xlen in r_item-IsGood rnd r xlen Kinds.r_type h k
    item_of-IsGood e Kind.rw_ =
        let (h, k) = r_w_pool xlen in r_item-IsGood rnd r xlen Kinds.r_type_w h k
    item_of-IsGood e Kind.i = let (h, k) = i_pool xlen in i_item-IsGood rnd r xlen h k
    item_of-IsGood e Kind.iw = iw-IsGood
    item_of-IsGood e Kind.shift =
        let (h, k) = shift_pool xlen in rw e (shift_item-IsGood rnd r xlen (leb 64 xlen) h k)
    item_of-IsGood e Kind.load = loads-IsGood cfg
    item_of-IsGood e Kind.store = stores-IsGood cfg
    item_of-IsGood e Kind.branch =
        branch_item-IsGood rnd r xlen branches-IsBranch.0 branches-IsBranch.1
    item_of-IsGood e Kind.jal = jal_item-IsGood rnd r xlen
    item_of-IsGood e Kind.csr =
        csr_item-IsGood rnd r xlen cfg.csr_names_pool csrs csr_reg_op-IsCsrReg csr_imm_op-IsCsrImm
    item_of-IsGood e Kind.fp_arith =
        fp_arith_item-IsGood rnd r xlen rm_names-IsRm fp_arith_pool-IsFpArith
    item_of-IsGood e Kind.fp_sqrt = fp_sqrt_item-IsGood rnd r xlen rm_names-IsRm (refl, refl)
    item_of-IsGood e Kind.fp_sgnj =
        fp_pair_item-IsGood rnd r xlen Kinds.fp_sgnj_pool (sgnj_pool xlen)
    item_of-IsGood e Kind.fp_minmax =
        fp_pair_item-IsGood rnd r xlen Kinds.fp_minmax_pool (minmax_pool xlen)
    item_of-IsGood e Kind.fp_cmp = fp_cmp_item-IsGood rnd r xlen fp_cmp_pool-IsFpCmp
    item_of-IsGood e Kind.fp_cvt_to_int =
        fp_cvt_to_int_item-IsGood rnd r xlen rm_names-IsRm to_int_names
    item_of-IsGood e Kind.fp_cvt_from_int =
        fp_cvt_from_int_item-IsGood rnd r xlen rm_names-IsRm from_int_names
    item_of-IsGood e Kind.fp_madd = fp_madd_item-IsGood rnd r xlen rm_names-IsRm madd_names
    item_of-IsGood e Kind.fload =
        float_memory_item-IsGood rnd r xlen cfg (codes "flw")
          (λ rd off hd lt. flw_line xlen rd off hd lt (codes "flw") (refl, refl))
    item_of-IsGood e Kind.fstore =
        float_memory_item-IsGood rnd r xlen cfg (codes "fsw")
          (λ rd off hd lt. fsw_line xlen rd off hd lt (codes "fsw") (refl, refl))
    item_of-IsGood e Kind.fcsr =
        csr_item-IsGood rnd r xlen Kinds.fcsr_addrs fcsr_pool csr_reg_op-IsCsrReg
          csr_imm_op-IsCsrImm

    -- As many instructions as asked for, each one that the assembler encodes.
    pub gen_items-IsGood :
        cfg.wide ≡ leb 64 xlen
        → (n : ℕ)
        → Gives (λ items. All (IsGood xlen) items × (length items ≡ n)) (Items.gen_items rnd cfg n)
    unfolding Items.gen_items Items.gen_item
    gen_items-IsGood e zero =
        Gives-drawn (λ items. All (IsGood xlen) items × (length items ≡ 0)) [] (tt, refl)
    gen_items-IsGood e (suc n) =
        Gives-bind
          (Gives-bind {P = λ k. Unit {0}} (record { all = λ s. tt })
            λ kind always. item_of-IsGood e kind)
          λ item good. Gives-bind (gen_items-IsGood e n) λ items (h, k).
            Gives-drawn (λ l. All (IsGood xlen) l × (length l ≡ suc n)) (item ∷ items)
              ((good, h), ap suc k)
