-- ===== src/RandomGen/Items.antt =====
-- sim/tools/random_gen.py, `gen_program`: the loop that draws the instructions.
use rv32im_5_stage_pipelined.Base.{
  ℕ, zero, suc, ◌+◌, ◌-◌, ◌*◌, ◌/◌, min, Bool, List, [], ◌∷◌, leb, if◌then◌else◌,
}
use rv32im_5_stage_pipelined.Base.Int.{ℤ, pos, ◌-ℤ◌}
use rv32im_5_stage_pipelined.Asm.Text.{codes}
use rv32im_5_stage_pipelined.RandomGen.Source.{Random, Draw, ◌>>=◌, drawn, pick, choice, randint}
use rv32im_5_stage_pipelined.RandomGen.Lines.{x_reg, f_reg, int_text, address_text, line}
use rv32im_5_stage_pipelined.RandomGen.Kinds
use rv32im_5_stage_pipelined.RandomGen.Kinds.{Pool, WidthPool, Kind}

-- An element of `instrs`: a line, or a tuple whose target is not drawn yet.
pub data Item : Type 0 where
  text : List ℕ → Item
  branch : List ℕ → ℕ → ℕ → Item
  jal : ℕ → Item

-- What the loop reads: `xlen >= 64`, `addr_space`, `base_addr`, `csr_names_pool`, `csr_weight`.
pub record Config : Type 0 where
  pub wide : Bool
  pub addr_space : ℕ
  pub base_addr : ℕ
  pub csr_names_pool : Pool
  pub csr_weight : ℕ

abbrev pub base_reg : ℕ
base_reg = 31

module _ (rnd : Random) where
  unfoldable pub choose : Pool → Draw rnd.State (List ℕ)
  unfolding choice
  choose pool = choice rnd pool.0 pool.1

  -- `rnd.choice(GP_REGS)` and `rnd.choice(FREGS)`
  unfoldable pub gp_reg : Draw rnd.State ℕ
  unfolding randint
  gp_reg = randint rnd 1 30

  unfoldable pub freg : Draw rnd.State ℕ
  unfolding randint
  freg = randint rnd 0 31

  -- `rnd.randint(-2048, 2047)`
  unfoldable pub imm12 : Draw rnd.State ℤ
  unfolding randint
  imm12 = do v ← randint rnd 0 4095; drawn (pos v -ℤ pos 2048)

  unfoldable pub unsigned : ℕ → Draw rnd.State ℤ
  unfolding randint
  unsigned hi = do v ← randint rnd 0 hi; drawn (pos v)

  -- `rnd.randrange(0, max_off + 1, width) if max_off >= 0 else 0`
  unfoldable pub offset : Config → ℕ → Draw rnd.State ℕ
  unfolding randint
  offset cfg width =
      if leb (cfg.base_addr + width) cfg.addr_space
      then (do
        k ← randint rnd 0 (min (cfg.addr_space - cfg.base_addr - width) 2047 / width)
        drawn (width * k))
      else drawn 0

  unfoldable pub r_item : Pool → Draw rnd.State Item
  unfolding choose gp_reg line x_reg
  r_item pool = do
    mn ← choose pool
    rd ← gp_reg
    rs1 ← gp_reg
    rs2 ← gp_reg
    drawn (Item.text (line mn (x_reg rd) (x_reg rs1 ∷ x_reg rs2 ∷ [])))

  unfoldable pub i_item : Draw rnd.State Item
  unfolding choose gp_reg imm12 line x_reg int_text
  i_item = do
    mn ← choose Kinds.i_type
    rd ← gp_reg
    rs1 ← gp_reg
    imm ← imm12
    drawn (Item.text (line mn (x_reg rd) (x_reg rs1 ∷ int_text imm ∷ [])))

  unfoldable pub iw_item : Draw rnd.State Item
  unfolding choice gp_reg imm12 unsigned line x_reg int_text
  iw_item = do
    mn ← choice rnd Kinds.i_type_w.0 Kinds.i_type_w.1
    rd ← gp_reg
    rs1 ← gp_reg
    imm ← if mn.1 then imm12 else unsigned 31
    drawn (Item.text (line mn.0 (x_reg rd) (x_reg rs1 ∷ int_text imm ∷ [])))

  unfoldable pub shift_item : Bool → Draw rnd.State Item
  unfolding choose gp_reg unsigned line x_reg int_text
  shift_item wide = do
    mn ← choose Kinds.shift_i
    rd ← gp_reg
    rs1 ← gp_reg
    shamt ← unsigned (if wide then 63 else 31)
    drawn (Item.text (line mn (x_reg rd) (x_reg rs1 ∷ int_text shamt ∷ [])))

  -- `load` and `store`
  unfoldable pub memory_item : Config → WidthPool → Draw rnd.State Item
  unfolding choice gp_reg offset line x_reg address_text
  memory_item cfg pool = do
    mn ← choice rnd pool.0 pool.1
    rd ← gp_reg
    off ← offset cfg mn.1
    drawn (Item.text (line mn.0 (x_reg rd) (address_text off base_reg ∷ [])))

  -- `fload` and `fstore`
  unfoldable pub float_memory_item : Config → List ℕ → Draw rnd.State Item
  unfolding freg offset line f_reg address_text
  float_memory_item cfg mn = do
    rd ← freg
    off ← offset cfg 4
    drawn (Item.text (line mn (f_reg rd) (address_text off base_reg ∷ [])))

  unfoldable pub branch_item : Draw rnd.State Item
  unfolding choose gp_reg
  branch_item = do
    mn ← choose Kinds.branches
    rs1 ← gp_reg
    rs2 ← gp_reg
    drawn (Item.branch mn rs1 rs2)

  unfoldable pub jal_item : Draw rnd.State Item
  unfolding gp_reg
  jal_item = do rd ← gp_reg; drawn (Item.jal rd)

  -- `csr` and `fcsr`
  unfoldable pub csr_reg_item : List ℕ → ℕ → Draw rnd.State Item
  unfolding choose gp_reg line x_reg
  csr_reg_item csr rd = do
    mn ← choose Kinds.csr_reg_op
    rs1 ← gp_reg
    drawn (Item.text (line mn (x_reg rd) (csr ∷ x_reg rs1 ∷ [])))

  unfoldable pub csr_imm_item : List ℕ → ℕ → Draw rnd.State Item
  unfolding choose unsigned line x_reg int_text
  csr_imm_item csr rd = do
    mn ← choose Kinds.csr_imm_op
    uimm ← unsigned 31
    drawn (Item.text (line mn (x_reg rd) (csr ∷ int_text uimm ∷ [])))

  unfoldable pub csr_item : Pool → Draw rnd.State Item
  unfolding choose gp_reg csr_reg_item csr_imm_item
  csr_item pool = do
    csr ← choose pool
    rd ← gp_reg
    by_register ← rnd.below_half
    if by_register then csr_reg_item csr rd else csr_imm_item csr rd

  unfoldable pub fp_arith_item : Draw rnd.State Item
  unfolding choose freg line f_reg
  fp_arith_item = do
    mn ← choose Kinds.fp_arith_pool
    rd ← freg
    rs1 ← freg
    rs2 ← freg
    rm ← choose Kinds.rm_names
    drawn (Item.text (line mn (f_reg rd) (f_reg rs1 ∷ f_reg rs2 ∷ rm ∷ [])))

  unfoldable pub fp_sqrt_item : Draw rnd.State Item
  unfolding choose freg line f_reg
  fp_sqrt_item = do
    rd ← freg
    rs1 ← freg
    rm ← choose Kinds.rm_names
    drawn (Item.text (line (codes "fsqrt.s") (f_reg rd) (f_reg rs1 ∷ rm ∷ [])))

  -- `fp_sgnj` and `fp_minmax`
  unfoldable pub fp_pair_item : Pool → Draw rnd.State Item
  unfolding choose freg line f_reg
  fp_pair_item pool = do
    mn ← choose pool
    rd ← freg
    rs1 ← freg
    rs2 ← freg
    drawn (Item.text (line mn (f_reg rd) (f_reg rs1 ∷ f_reg rs2 ∷ [])))

  unfoldable pub fp_cmp_item : Draw rnd.State Item
  unfolding choose gp_reg freg line x_reg f_reg
  fp_cmp_item = do
    mn ← choose Kinds.fp_cmp_pool
    rd ← gp_reg
    rs1 ← freg
    rs2 ← freg
    drawn (Item.text (line mn (x_reg rd) (f_reg rs1 ∷ f_reg rs2 ∷ [])))

  unfoldable pub fp_cvt_to_int_item : Draw rnd.State Item
  unfolding choose gp_reg freg line x_reg f_reg
  fp_cvt_to_int_item = do
    mn ← choose Kinds.fp_cvt_to_int_pool
    rd ← gp_reg
    rs1 ← freg
    rm ← choose Kinds.rm_names
    drawn (Item.text (line mn (x_reg rd) (f_reg rs1 ∷ rm ∷ [])))

  unfoldable pub fp_cvt_from_int_item : Draw rnd.State Item
  unfolding choose gp_reg freg line x_reg f_reg
  fp_cvt_from_int_item = do
    mn ← choose Kinds.fp_cvt_from_int_pool
    rd ← freg
    rs1 ← gp_reg
    rm ← choose Kinds.rm_names
    drawn (Item.text (line mn (f_reg rd) (x_reg rs1 ∷ rm ∷ [])))

  unfoldable pub fp_madd_item : Draw rnd.State Item
  unfolding choose freg line f_reg
  fp_madd_item = do
    mn ← choose Kinds.fmadd_family
    rd ← freg
    rs1 ← freg
    rs2 ← freg
    rs3 ← freg
    rm ← choose Kinds.rm_names
    drawn (Item.text (line mn (f_reg rd) (f_reg rs1 ∷ f_reg rs2 ∷ f_reg rs3 ∷ rm ∷ [])))

  -- The branches on `kind`.
  unfoldable pub item_of : Config → Kind → Draw rnd.State Item
  unfolding r_item i_item iw_item shift_item memory_item float_memory_item branch_item jal_item
      csr_item fp_arith_item fp_sqrt_item fp_pair_item fp_cmp_item fp_cvt_to_int_item
      fp_cvt_from_int_item fp_madd_item
  item_of cfg Kind.r = r_item Kinds.r_type
  item_of cfg Kind.rw_ = r_item Kinds.r_type_w
  item_of cfg Kind.i = i_item
  item_of cfg Kind.iw = iw_item
  item_of cfg Kind.shift = shift_item cfg.wide
  item_of cfg Kind.load = memory_item cfg (Kinds.load_mnemonics cfg.wide)
  item_of cfg Kind.store = memory_item cfg (Kinds.store_mnemonics cfg.wide)
  item_of cfg Kind.branch = branch_item
  item_of cfg Kind.jal = jal_item
  item_of cfg Kind.csr = csr_item cfg.csr_names_pool
  item_of cfg Kind.fp_arith = fp_arith_item
  item_of cfg Kind.fp_sqrt = fp_sqrt_item
  item_of cfg Kind.fp_sgnj = fp_pair_item Kinds.fp_sgnj_pool
  item_of cfg Kind.fp_minmax = fp_pair_item Kinds.fp_minmax_pool
  item_of cfg Kind.fp_cmp = fp_cmp_item
  item_of cfg Kind.fp_cvt_to_int = fp_cvt_to_int_item
  item_of cfg Kind.fp_cvt_from_int = fp_cvt_from_int_item
  item_of cfg Kind.fp_madd = fp_madd_item
  item_of cfg Kind.fload = float_memory_item cfg (codes "flw")
  item_of cfg Kind.fstore = float_memory_item cfg (codes "fsw")
  item_of cfg Kind.fcsr = csr_item Kinds.fcsr_addrs

  -- `rnd.choices(kind_names, weights=kind_weights)[0]`
  unfoldable pub kind_of : Config → Draw rnd.State Kind
  kind_of cfg = do
    i ← rnd.weighted (Kinds.kind_weights cfg.wide cfg.csr_weight)
    drawn (pick Kind.r (Kinds.kind_names cfg.wide) i)

  unfoldable pub gen_item : Config → Draw rnd.State Item
  unfolding kind_of item_of
  gen_item cfg = do kind ← kind_of cfg; item_of cfg kind

  unfoldable pub gen_items : Config → ℕ → Draw rnd.State (List Item)
  unfolding gen_item
  gen_items cfg zero = drawn []
  gen_items cfg (suc n) = do item ← gen_item cfg; items ← gen_items cfg n; drawn (item ∷ items)
