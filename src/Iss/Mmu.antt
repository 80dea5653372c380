-- ===== src/Iss/Mmu.antt =====
-- sim/tools/iss.py, address translation: `translate`, `_translate_sv32`, `_translate_sv39` and
-- `_pte_perm_ok`. `none` stands for the `None` of a page fault, whose trap is then in the state.
pub mod Walk
use rv32im_5_stage_pipelined.Base.{
  ℕ, ◌%◌, ◌^◌, bit_or, Bool, false, Option, none, some, ◌==◌, ◌||◌, not, ◌<<<◌, ◌>>>◌, field,
  test_bit, if◌then◌else◌,
}
use rv32im_5_stage_pipelined.Base.Int.{pos}
use rv32im_5_stage_pipelined.Iss.Word.{u32}
use rv32im_5_stage_pipelined.Iss.State.{Iss, uxlen, priv_u, priv_m}
use rv32im_5_stage_pipelined.Iss.Csr.{csr_satp}
use rv32im_5_stage_pipelined.Iss.Trap.{trap}
use rv32im_5_stage_pipelined.Iss.Memory.{read_pte, read_pte64}

pub data Access : Type 0 where
  fetch load store : Access

abbrev pub fault_cause : Access → ℕ
fault_cause fetch = 12
fault_cause load = 13
fault_cause store = 15

-- PTE_X_BIT, PTE_R_BIT and PTE_W_BIT.
abbrev pub access_bit : Access → ℕ
access_bit fetch = 3
access_bit load = 1
access_bit store = 2

unfoldable pub pte_perm_ok : ℕ → Access → Iss → Bool
pte_perm_ok pte access s =
    if not (test_bit pte (access_bit access))
    then false
    else if s.priv_mode == priv_u
    then test_bit pte 4
    else not (test_bit pte 4)

abbrev pub is_valid : ℕ → Bool
is_valid pte = test_bit pte 0

-- R, W or X is set.
abbrev pub is_leaf : ℕ → Bool
is_leaf pte = test_bit pte 1 || test_bit pte 2 || test_bit pte 3

-- The page-number field, of which this core keeps 20 digits.
abbrev pub pte_ppn20 : ℕ → ℕ
pte_ppn20 pte = field pte 10 20

-- What the Sv32 walk makes of the entries that it meets, before the trap of a fault is taken. The
-- second entry is looked at only behind a pointer.
unfoldable pub resolve_sv32 : ℕ → Access → ℕ → ℕ → Iss → Option ℕ
resolve_sv32 vaddr access pte1 pte0 s =
    let vpn0 = field vaddr 12 10 in
    let offset = vaddr % 2 ^ 12 in
    if not (is_valid pte1)
    then none
    else if is_leaf pte1
    then if not (pte_ppn20 pte1 % 2 ^ 10 == 0)
      then none
      else if not (pte_perm_ok pte1 access s)
      then none
      else some (u32 (pos (bit_or (bit_or (pte_ppn20 pte1 >>> 10 <<< 10) vpn0 <<< 12) offset)))
    else if not (is_valid pte0)
    then none
    else if not (is_leaf pte0)
    then none
    else if not (pte_perm_ok pte0 access s)
    then none
    else some (u32 (pos (bit_or (pte_ppn20 pte0 <<< 12) offset)))

unfoldable pub walk_sv32 : ℕ → Access → ℕ → Iss → Option ℕ
walk_sv32 vaddr access satp s =
    let vpn1 = field vaddr 22 10 in
    let vpn0 = field vaddr 12 10 in
    let satp_ppn20 = satp % 2 ^ 20 in
    let pte1 = read_pte (bit_or (satp_ppn20 <<< 12) (vpn1 <<< 2)) s in
    let pte0 = read_pte (bit_or (pte_ppn20 pte1 <<< 12) (vpn0 <<< 2)) s in
    resolve_sv32 vaddr access pte1 pte0 s

-- The same of the Sv39 walk, which has one level more.
unfoldable pub resolve_sv39 : ℕ → Access → ℕ → ℕ → ℕ → Iss → Option ℕ
resolve_sv39 vaddr access pte2 pte1 pte0 s =
    let vpn1 = field vaddr 21 9 in
    let vpn0 = field vaddr 12 9 in
    let offset = vaddr % 2 ^ 12 in
    if not (is_valid pte2)
    then none
    else if is_leaf pte2
    then if not (pte_ppn20 pte2 % 2 ^ 18 == 0)
      then none
      else if not (pte_perm_ok pte2 access s)
      then none
      else some (
          uxlen s (
            pos (
              bit_or (bit_or (bit_or (pte_ppn20 pte2 >>> 18 <<< 18) (vpn1 <<< 9)) vpn0 <<< 12)
                offset)))
    else if not (is_valid pte1)
    then none
    else if is_leaf pte1
    then if not (pte_ppn20 pte1 % 2 ^ 9 == 0)
      then none
      else if not (pte_perm_ok pte1 access s)
      then none
      else some (uxlen s (pos (bit_or (bit_or (pte_ppn20 pte1 >>> 9 <<< 9) vpn0 <<< 12) offset)))
    else if not (is_valid pte0)
    then none
    else if not (is_leaf pte0)
    then none
    else if not (pte_perm_ok pte0 access s)
    then none
    else some (uxlen s (pos (bit_or (pte_ppn20 pte0 <<< 12) offset)))

unfoldable pub walk_sv39 : ℕ → Access → ℕ → Iss → Option ℕ
walk_sv39 vaddr access satp s =
    let vpn2 = field vaddr 30 9 in
    let vpn1 = field vaddr 21 9 in
    let vpn0 = field vaddr 12 9 in
    let satp_ppn20 = satp % 2 ^ 20 in
    let pte2 = read_pte64 (bit_or (satp_ppn20 <<< 12) (vpn2 <<< 3)) s in
    let pte1 = read_pte64 (bit_or (pte_ppn20 pte2 <<< 12) (vpn1 <<< 3)) s in
    let pte0 = read_pte64 (bit_or (pte_ppn20 pte1 <<< 12) (vpn0 <<< 3)) s in
    resolve_sv39 vaddr access pte2 pte1 pte0 s

-- `fault()`: the trap carries the faulting address.
unfoldable pub or_fault : Option ℕ → ℕ → Access → Iss → Option ℕ × Iss
or_fault (some pa) vaddr access s = (some pa, s)
or_fault none vaddr access s = (none, trap (fault_cause access) vaddr s)

unfoldable pub translate_sv32 : ℕ → Access → ℕ → Iss → Option ℕ × Iss
unfolding walk_sv32 or_fault
translate_sv32 vaddr access satp s =
    let v = u32 (pos vaddr) in or_fault (walk_sv32 v access satp s) v access s

unfoldable pub translate_sv39 : ℕ → Access → ℕ → Iss → Option ℕ × Iss
unfolding walk_sv39 or_fault
translate_sv39 vaddr access satp s = or_fault (walk_sv39 vaddr access satp s) vaddr access s

unfoldable pub translate : ℕ → Access → Iss → Option ℕ × Iss
translate vaddr access s =
    let satp = s.csr csr_satp in
    if s.priv_mode == priv_m
    then (some (uxlen s (pos vaddr)), s)
    else if s.xlen == 32
    then if not (test_bit satp 31)
      then (some (uxlen s (pos vaddr)), s)
      else translate_sv32 vaddr access satp s
    else if not (field satp 60 4 == 8)
    then (some (uxlen s (pos vaddr)), s)
    else translate_sv39 vaddr access satp s
