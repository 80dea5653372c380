-- ===== src/Iss/Csr.antt =====
-- sim/tools/iss.py, `csr_read` and `csr_write` with the CSR addresses and the writable masks.
pub mod Views
use rv32im_5_stage_pipelined.Base.{
  ℕ, ◌+◌, ◌*◌, ◌%◌, ◌^◌, bit_and, bit_or, Bool, [], ◌∷◌, ◌==◌, ◌&&◌, ◌||◌, ◌<<<◌, ◌>>>◌, digit,
  and_not, if◌then◌else◌,
}
use rv32im_5_stage_pipelined.Base.Int.{pos}
use rv32im_5_stage_pipelined.Iss.Word.{u32}
use rv32im_5_stage_pipelined.Iss.State.{Iss, update, member}

abbrev pub csr_fflags : ℕ
csr_fflags = 0x001

abbrev pub csr_frm : ℕ
csr_frm = 0x002

abbrev pub csr_fcsr : ℕ
csr_fcsr = 0x003

abbrev pub csr_sstatus : ℕ
csr_sstatus = 0x100

abbrev pub csr_sie : ℕ
csr_sie = 0x104

abbrev pub csr_stvec : ℕ
csr_stvec = 0x105

abbrev pub csr_sscratch : ℕ
csr_sscratch = 0x140

abbrev pub csr_sepc : ℕ
csr_sepc = 0x141

abbrev pub csr_scause : ℕ
csr_scause = 0x142

abbrev pub csr_stval : ℕ
csr_stval = 0x143

abbrev pub csr_sip : ℕ
csr_sip = 0x144

abbrev pub csr_satp : ℕ
csr_satp = 0x180

abbrev pub csr_mstatus : ℕ
csr_mstatus = 0x300

abbrev pub csr_medeleg : ℕ
csr_medeleg = 0x302

abbrev pub csr_mideleg : ℕ
csr_mideleg = 0x303

abbrev pub csr_mie : ℕ
csr_mie = 0x304

abbrev pub csr_mtvec : ℕ
csr_mtvec = 0x305

abbrev pub csr_mscratch : ℕ
csr_mscratch = 0x340

abbrev pub csr_mepc : ℕ
csr_mepc = 0x341

abbrev pub csr_mcause : ℕ
csr_mcause = 0x342

abbrev pub csr_mtval : ℕ
csr_mtval = 0x343

abbrev pub csr_mip : ℕ
csr_mip = 0x344

-- The keys that the constructor puts into the CSR dict.
abbrev pub implemented : ℕ → Bool
implemented addr = member addr (
    csr_mstatus ∷ csr_mtvec ∷ csr_mscratch ∷ csr_mepc ∷ csr_mcause ∷ csr_sscratch ∷ csr_sepc
    ∷ csr_scause ∷ csr_stval ∷ csr_mtval ∷ csr_stvec ∷ csr_satp ∷ csr_mideleg ∷ csr_medeleg
    ∷ csr_mie ∷ csr_mip ∷ [])

-- SIE(1), SPIE(5) and SPP(8), as the S-mode view of mstatus.
abbrev pub s_status_mask : ℕ
s_status_mask = 2 ^ 1 + 2 ^ 5 + 2 ^ 8

-- SSIE(1), STIE(5) and SEIE(9), as the S-mode view of mie and mip.
abbrev pub s_int_mask : ℕ
s_int_mask = 2 ^ 1 + 2 ^ 5 + 2 ^ 9

-- MIE(3), MPIE(7), SIE, SPIE, SPP and the two digits of MPP(11).
abbrev pub mstatus_mask : ℕ
mstatus_mask = 2 ^ 3 + 2 ^ 7 + 2 ^ 1 + 2 ^ 5 + 2 ^ 8 + 3 * 2 ^ 11

abbrev pub mie_mask : ℕ
mie_mask = 2 ^ 3 + 2 ^ 7 + 2 ^ 11 + 2 ^ 1 + 2 ^ 5 + 2 ^ 9

abbrev pub medeleg_mask : ℕ
medeleg_mask = 2 ^ 2 + 2 ^ 3 + 2 ^ 8 + 2 ^ 9 + 2 ^ 11 + 2 ^ 12 + 2 ^ 13 + 2 ^ 15

abbrev pub mideleg_mask : ℕ
mideleg_mask = 2 ^ 1 + 2 ^ 5 + 2 ^ 3 + 2 ^ 7 + 2 ^ 9 + 2 ^ 11

-- `self.csr.get(addr, 0)`
abbrev pub csr_get : ℕ → Iss → ℕ
csr_get addr s = if implemented addr then s.csr addr else 0

abbrev pub set_csr : ℕ → ℕ → Iss → Iss
set_csr addr v s = record s { csr = update s.csr addr v }

-- The three digits of `v` at the places `a`, `b` and `c`, each kept where it stands.
abbrev pub view3 : ℕ → ℕ → ℕ → ℕ → ℕ
view3 a b c v = bit_or (bit_or (digit v a <<< a) (digit v b <<< b)) (digit v c <<< c)

-- A write through a view: what the mask leaves out is kept.
abbrev pub write_view : ℕ → ℕ → ℕ → ℕ
write_view mask old val = u32 (pos (bit_or (and_not old mask) (bit_and val mask)))

unfoldable pub csr_read : ℕ → Iss → ℕ
csr_read addr s =
    if addr == csr_fflags
    then s.fflags % 2 ^ 5
    else if addr == csr_frm
    then s.frm % 2 ^ 3
    else if addr == csr_fcsr
    then bit_or ((s.frm % 2 ^ 3) <<< 5) (s.fflags % 2 ^ 5)
    else if addr == csr_sstatus
    then view3 1 5 8 (s.csr csr_mstatus)
    else if addr == csr_sie
    then view3 1 5 9 (s.csr csr_mie)
    else if addr == csr_sip
    then view3 1 5 9 (s.csr csr_mip)
    else if addr == csr_mstatus && s.xlen == 64
    then bit_or (bit_or (csr_get addr s) (2 <<< 32)) (2 <<< 34)
    else csr_get addr s

-- The value as the masks of mstatus, mie, medeleg and mideleg leave it.
unfoldable pub csr_mask : ℕ → ℕ → ℕ
csr_mask addr val =
    if addr == csr_mstatus
    then bit_and val mstatus_mask
    else if addr == csr_mie
    then bit_and val mie_mask
    else if addr == csr_medeleg
    then bit_and val medeleg_mask
    else if addr == csr_mideleg
    then bit_and val mideleg_mask
    else val

unfoldable pub csr_write : ℕ → ℕ → Iss → Iss
unfolding csr_mask
csr_write addr val s =
    if addr == csr_fflags
    then record s { fflags = val % 2 ^ 5 }
    else if addr == csr_frm
    then record s { frm = val % 2 ^ 3 }
    else if addr == csr_fcsr
    then record s { frm = (val >>> 5) % 2 ^ 3; fflags = val % 2 ^ 5 }
    else if addr == csr_sstatus
    then set_csr csr_mstatus (write_view s_status_mask (s.csr csr_mstatus) val) s
    else if addr == csr_sie
    then set_csr csr_mie (write_view s_int_mask (s.csr csr_mie) val) s
    else if addr == csr_mip || addr == csr_sip
    then set_csr csr_mip (u32 (pos (bit_and val s_int_mask))) s
    else if implemented addr
    then set_csr addr (u32 (pos (csr_mask addr val))) s
    else s
