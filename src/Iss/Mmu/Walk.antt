-- ===== src/Iss/Mmu/Walk.antt =====
-- sim/tools/iss.py, `_translate_sv32`: what the page tables say, without the walk's order of tests and digit operations, and the walks
-- as deciders of it.
use rv32im_5_stage_pipelined.Base.{
  ℕ, ◌+◌, ◌*◌, ◌/◌, ◌%◌, ◌^◌, ◌<◌, ◌≡◌, ◌≢◌, ◌↔◌, refl, arith, Bool, true, false, ◌==◌, digit,
  field, test_bit, if◌then◌else◌, ap, inl, inr, ◌∙◌, ◌⊎◌, ==→eq, eq→==, ne→==, sym, Option-cases,
  Option, none, some, not, bit_or,
}
use rv32im_5_stage_pipelined.Base.Bits.Laws.{bit_or_low}
use rv32im_5_stage_pipelined.Iss.State.{Iss, priv_m, priv_u}
use rv32im_5_stage_pipelined.Iss.Csr.{csr_satp}
use rv32im_5_stage_pipelined.Iss.Trap.{trap}
use rv32im_5_stage_pipelined.Iss.Memory.{read_pte}
use rv32im_5_stage_pipelined.Iss.Mmu.{
  Access, access_bit, fault_cause, pte_perm_ok, is_valid, is_leaf, pte_ppn20, resolve_sv32,
  walk_sv32, or_fault, translate_sv32, translate,
}

-- The page may be accessed: its R, W or X digit is set, and its U digit agrees with the mode.
abbrev pub IsPermitted : ℕ → Access → Iss → Type 0
IsPermitted pte access s =
    (digit pte (access_bit access) ≡ 1)
    × ((s.priv_mode ≡ priv_u → digit pte 4 ≡ 1) × (s.priv_mode ≢ priv_u → digit pte 4 ≡ 0))

-- The permission check passes exactly where the digit of the access is set and the U digit is set
-- in U-mode and clear in the other modes.
pub pte_perm_ok-IsPermitted :
    (pte : ℕ) (access : Access) (s : Iss)
    → (pte_perm_ok pte access s ≡ true) ↔ IsPermitted pte access s
unfolding pte_perm_ok
pte_perm_ok-IsPermitted pte access s = ground arith

-- The entry of a table at the page `ppn`, with entries of 4 bytes.
abbrev pub entry32 : ℕ → ℕ → Iss → ℕ
entry32 ppn index s = read_pte (ppn * 4096 + index * 4) s

-- The page tables map `vaddr` to `pa`: by a 4 MiB page of the root table, or by a 4 KiB page of
-- the table that a root entry points to.
abbrev pub MapsMega : Access → ℕ → ℕ → ℕ → Iss → Type 0
MapsMega access vaddr root pa s =
    (is_valid root ≡ true)
    × (is_leaf root ≡ true)
    × (pte_ppn20 root % 2 ^ 10 ≡ 0)
    × IsPermitted root access s
    × (pa ≡ pte_ppn20 root * 4096 + vaddr % 2 ^ 22)

abbrev pub MapsPage : Access → ℕ → ℕ → ℕ → ℕ → Iss → Type 0
MapsPage access vaddr root leaf pa s =
    (is_valid root ≡ true)
    × (is_leaf root ≡ false)
    × (is_valid leaf ≡ true)
    × (is_leaf leaf ≡ true)
    × IsPermitted leaf access s
    × (pa ≡ pte_ppn20 leaf * 4096 + vaddr % 2 ^ 12)

abbrev pub Maps32 : Access → ℕ → ℕ → ℕ → Iss → Type 0
Maps32 access satp vaddr pa s =
    let root = entry32 (satp % 2 ^ 20) (field vaddr 22 10) s in
    let leaf = entry32 (pte_ppn20 root) (field vaddr 12 10) s in
    MapsMega access vaddr root pa s ⊎ MapsPage access vaddr root leaf pa s

-- The digit operations of the walk as sums.
table_address :
    (ppn index : ℕ)
    → index < 2 ^ 10
    → bit_or (ppn * 2 ^ 12) (index * 2 ^ 2) ≡ ppn * 4096 + index * 4
table_address ppn index h = bit_or_low 12 (ppn * 2 ^ 12) (index * 2 ^ 2) (omega arith) (omega arith)

page_address :
    (ppn vaddr : ℕ)
    → ppn < 2 ^ 20
    → bit_or (ppn * 2 ^ 12) (vaddr % 2 ^ 12) % 2 ^ 32 ≡ ppn * 4096 + vaddr % 2 ^ 12
page_address ppn vaddr h =
    rw (bit_or_low 12 (ppn * 2 ^ 12) (vaddr % 2 ^ 12) (omega arith) (omega arith)) (omega arith)

mega_address :
    (ppn vaddr : ℕ)
    → ppn < 2 ^ 20
    → ppn % 2 ^ 10 ≡ 0
    → bit_or (bit_or (ppn / 2 ^ 10 * 2 ^ 10) (field vaddr 12 10) * 2 ^ 12) (vaddr % 2 ^ 12) % 2 ^ 32
      ≡ ppn * 4096 + vaddr % 2 ^ 22
mega_address ppn vaddr h e =
    rw
      (
        bit_or_low 10 (ppn / 2 ^ 10 * 2 ^ 10) (field vaddr 12 10) (omega arith) (omega arith),
        bit_or_low 12 ((ppn / 2 ^ 10 * 2 ^ 10 + field vaddr 12 10) * 2 ^ 12) (vaddr % 2 ^ 12)
            (omega arith) (omega arith),
      )
      (omega arith)

-- The ladder of tests, over the tests' results.
ladder :
    (v l aligned p v' l' p' : Bool) (m q pa : ℕ)
    → ((if not v
          then none
          else if l
          then if not aligned then none else if not p then none else some m
          else if not v'
          then none
          else if not l'
          then none
          else if not p'
          then none
          else some q)
        ≡ some pa)
      ↔ (((v ≡ true) × (l ≡ true) × (aligned ≡ true) × (p ≡ true) × (pa ≡ m))
          ⊎ ((v ≡ true) × (l ≡ false) × (v' ≡ true) × (l' ≡ true) × (p' ≡ true) × (pa ≡ q)))
ladder v l aligned p v' l' p' m q pa = ground arith

resolve_sv32-Maps :
    (vaddr : ℕ) (access : Access) (root leaf pa : ℕ) (s : Iss)
    → (resolve_sv32 vaddr access root leaf s ≡ some pa)
      ↔ (MapsMega access vaddr root pa s ⊎ MapsPage access vaddr root leaf pa s)
unfolding resolve_sv32
resolve_sv32-Maps vaddr access root leaf pa s = (
  λ h. elim (steps.0 h) [
    | inl (v, l, a, p, e) ↦
        let al = ==→eq (pte_ppn20 root % 2 ^ 10) 0 a in
        inl (
          v,
          l,
          al,
          (pte_perm_ok-IsPermitted root access s).0 p,
          e ∙ mega_address (pte_ppn20 root) vaddr (omega arith) al,
        )
    | inr (v, l, v', l', p, e) ↦ inr (
      v,
      l,
      v',
      l',
      (pte_perm_ok-IsPermitted leaf access s).0 p,
      e ∙ page_address (pte_ppn20 leaf) vaddr (omega arith),
    )
  ],
  λ m. steps.1 (elim m [
    | inl (v, l, a, p, e) ↦ inl (
      v,
      l,
      eq→== (pte_ppn20 root % 2 ^ 10) 0 a,
      (pte_perm_ok-IsPermitted root access s).1 p,
      e ∙ sym (mega_address (pte_ppn20 root) vaddr (omega arith) a),
    )
    | inr (v, l, v', l', p, e) ↦ inr (
      v,
      l,
      v',
      l',
      (pte_perm_ok-IsPermitted leaf access s).1 p,
      e ∙ sym (page_address (pte_ppn20 leaf) vaddr (omega arith)),
    )
  ]),
)
  where
    steps : (resolve_sv32 vaddr access root leaf s ≡ some pa) ↔ (
        ((is_valid root ≡ true)
          × (is_leaf root ≡ true)
          × ((pte_ppn20 root % 2 ^ 10 == 0) ≡ true)
          × (pte_perm_ok root access s ≡ true)
          × (pa
              ≡ bit_or
                  (bit_or (pte_ppn20 root / 2 ^ 10 * 2 ^ 10) (field vaddr 12 10) * 2 ^ 12)
                  (vaddr % 2 ^ 12)
                % 2 ^ 32))
        ⊎ ((is_valid root ≡ true)
            × (is_leaf root ≡ false)
            × (is_valid leaf ≡ true)
            × (is_leaf leaf ≡ true)
            × (pte_perm_ok leaf access s ≡ true)
            × (pa ≡ bit_or (pte_ppn20 leaf * 2 ^ 12) (vaddr % 2 ^ 12) % 2 ^ 32)))
    steps =
        ladder (is_valid root) (is_leaf root) (pte_ppn20 root % 2 ^ 10 == 0)
          (pte_perm_ok root access s) (is_valid leaf) (is_leaf leaf) (pte_perm_ok leaf access s)
          (bit_or (bit_or (pte_ppn20 root / 2 ^ 10 * 2 ^ 10) (field vaddr 12 10) * 2 ^ 12)
              (vaddr % 2 ^ 12)
            % 2 ^ 32)
          (bit_or (pte_ppn20 leaf * 2 ^ 12) (vaddr % 2 ^ 12) % 2 ^ 32) pa

-- The Sv32 walk finds an address exactly where the page tables map to it.
pub walk_sv32-Maps32 :
    (vaddr : ℕ) (access : Access) (satp pa : ℕ) (s : Iss)
    → (walk_sv32 vaddr access satp s ≡ some pa) ↔ Maps32 access satp vaddr pa s
unfolding walk_sv32
walk_sv32-Maps32 vaddr access satp pa s =
    let root = entry32 (satp % 2 ^ 20) (field vaddr 22 10) s in
    rw
      (
        table_address (satp % 2 ^ 20) (field vaddr 22 10) (omega arith),
        table_address (pte_ppn20 root) (field vaddr 12 10) (omega arith),
      )
      (resolve_sv32-Maps vaddr access root (entry32 (pte_ppn20 root) (field vaddr 12 10) s) pa s)

-- Sv32 translation is on: below M-mode, at XLEN 32, with satp.MODE set.
abbrev pub IsTranslated : Iss → Type 0
IsTranslated s = (s.priv_mode ≢ priv_m) × (s.xlen ≡ 32) × (test_bit (s.csr csr_satp) 31 ≡ true)

pub translate-or_fault :
    (vaddr : ℕ) (access : Access) (s : Iss)
    → IsTranslated s
    → vaddr < 2 ^ 32
    → translate vaddr access s ≡ or_fault (walk_sv32 vaddr access (s.csr csr_satp) s) vaddr access s
unfolding translate translate_sv32
translate-or_fault vaddr access s (below, wide, mode) h =
    rw (ne→== s.priv_mode priv_m below, eq→== s.xlen 32 wide, mode, same) refl
  where
    same : vaddr % 2 ^ 32 ≡ vaddr
    same = omega arith

-- With Sv32 translation on, for an address of 32 digits, an access succeeds exactly at the address that the page tables map it
-- to, with the state unchanged; where they map it nowhere it takes the page fault's trap.
pub translate-Maps32 :
    (vaddr : ℕ) (access : Access) (s : Iss)
    → IsTranslated s
    → vaddr < 2 ^ 32
    → ((pa : ℕ)
        → (translate vaddr access s ≡ (some pa, s)) ↔ Maps32 access (s.csr csr_satp) vaddr pa s)
      × (((pa : ℕ) → ¬ Maps32 access (s.csr csr_satp) vaddr pa s)
          → translate vaddr access s ≡ (none, trap (fault_cause access) vaddr s))
unfolding or_fault
translate-Maps32 vaddr access s on h =
    let satp = s.csr csr_satp in
    let found = walk_sv32-Maps32 vaddr access satp in
    let unfolded = translate-or_fault vaddr access s on h in
    (
      λ pa. (
        λ e. (found pa s).0 (some_of (walk_sv32 vaddr access satp s) pa (sym unfolded ∙ e)),
        λ m. unfolded ∙ rw ((found pa s).1 m) refl,
      ),
      λ nowhere. elim (Option-cases (walk_sv32 vaddr access satp s)) [
        | inl e ↦ unfolded ∙ rw e refl
        | inr (pa, e) ↦ absurd (nowhere pa ((found pa s).0 e))
      ],
    )
  where
    some_of : (o : Option ℕ) (pa : ℕ) → or_fault o vaddr access s ≡ (some pa, s) → o ≡ some pa
    some_of none pa e = cc (ap (λ (t : Option ℕ × Iss). t.0) e)
    some_of (some x) pa e = ap (λ (t : Option ℕ × Iss). t.0) e
