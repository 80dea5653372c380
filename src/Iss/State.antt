-- ===== src/Iss/State.antt =====
-- sim/tools/iss.py, the state of `class ISS`: the constructor, the register-file write, the sticky
-- float flags and the scheduled interrupt. The register files, the memory and the CSR dict are
-- functions; the CSR dict's fixed key set is `implemented`.
use rv32im_5_stage_pipelined.Base.{
  ℕ, ◌-◌, ◌%◌, ◌^◌, bit_or, Bool, Option, none, some, List, [], ◌∷◌, ◌==◌, ◌||◌, false,
  if◌then◌else◌,
}
use rv32im_5_stage_pipelined.Base.Int.{ℤ}
use rv32im_5_stage_pipelined.Iss.Word.{u_xlen, s_xlen}

abbrev pub priv_u : ℕ
priv_u = 0

abbrev pub priv_s : ℕ
priv_s = 1

abbrev pub priv_m : ℕ
priv_m = 3

-- `{"after": after_steps, "cause": cause}`
pub record Pending : Type 0 where
  pub after : ℕ
  pub cause : ℕ

pub record Iss : Type 0 where
  pub xlen : ℕ
  pub regs : ℕ → ℕ
  pub mem : ℕ → ℕ
  pub mem_mask : ℕ
  pub pc : ℕ
  pub csr : ℕ → ℕ
  pub priv_mode : ℕ
  pub fregs : ℕ → ℕ
  pub frm : ℕ
  pub fflags : ℕ
  pub pending_interrupt : Option Pending

-- What the simulator raises: the `ValueError`s of `step`, and the `KeyError` of the table from
-- privilege modes to causes.
pub data Error : Type 0 where
  unknown_r_type unknown_op32 : ℕ → ℕ → Error
  unknown_i_type unknown_op_imm32 unknown_load unknown_store unknown_op_fp : ℕ → Error
  key_error : ℕ → Error

pub data Result {ℓ} (A : Type ℓ) : Type ℓ where
  ok : A → Result A
  raised : Error → Result A

infixl 5 ◌>>=◌
abbrev pub ◌>>=◌ {ℓ κ} : {S : Type ℓ} {T : Type κ} → Result S → (S → Result T) → Result T
raised error >>= next = raised error
ok value >>= next = next value

-- `d[k] = v`
abbrev pub update : (ℕ → ℕ) → ℕ → ℕ → ℕ → ℕ
update f k v j = if j == k then v else f j

abbrev pub member : ℕ → List ℕ → Bool
member a [] = false
member a (x ∷ xs) = a == x || member a xs

unfoldable pub new : ℕ → ℕ → Iss
new mem_size xlen = record {
  xlen = xlen;
  regs = update (λ _. 0) 2 mem_size;
  mem = λ _. 0;
  mem_mask = mem_size - 1;
  pc = 0;
  csr = λ _. 0;
  priv_mode = priv_m;
  fregs = λ _. 0;
  frm = 0;
  fflags = 0;
  pending_interrupt = none;
}

unfoldable pub schedule_interrupt : ℕ → ℕ → Iss → Iss
schedule_interrupt after_steps cause s = record s {
  pending_interrupt = some (record { after = after_steps; cause = cause });
}

abbrev pub sxlen : Iss → ℤ → ℤ
sxlen s v = s_xlen v s.xlen

abbrev pub uxlen : Iss → ℤ → ℕ
uxlen s v = u_xlen v s.xlen

-- Register 0 is hard-wired: a write to it is dropped.
unfoldable pub wr : ℕ → ℤ → Iss → Iss
wr rd val s = if rd == 0 then s else record s { regs = update s.regs rd (uxlen s val) }

abbrev pub set_pc : ℕ → Iss → Iss
set_pc pc' s = record s { pc = pc' }

abbrev pub set_freg : ℕ → ℕ → Iss → Iss
set_freg rd v s = record s { fregs = update s.fregs rd v }

-- The flags are sticky: what was raised stays raised.
unfoldable pub set_fflags : ℕ → Iss → Iss
set_fflags flags s = record s { fflags = bit_or s.fflags flags % 2 ^ 5 }

abbrev pub rm_dyn : ℕ
rm_dyn = 7

unfoldable pub resolve_rm : ℕ → Iss → ℕ
resolve_rm rm_field s = if rm_field == rm_dyn then s.frm else rm_field
