-- ===== src/Iss/Memory/Bytes.antt =====
-- sim/tools/iss.py, the loads and stores of one and of several bytes against each other.
use native.Mathlib.Nat.{mod-lt, mod-add-mod, mod-eq_of_lt, mod-eq-sub-mod, one-le-pow, pow-suc}
use native.Mathlib.Decide.{dec_lt}
use rv32im_5_stage_pipelined.Base.{
  ℕ, zero, suc, ◌+◌, ◌-◌, ◌*◌, ◌/◌, ◌%◌, ◌^◌, ◌≤◌, ◌<◌, ◌≡◌, ◌≢◌, refl, arith, ◌==◌, leb,
  if◌then◌else◌, ap, sym, ◌∙◌, bit_and, bit_or,
}
use rv32im_5_stage_pipelined.Base.Bits.{bit_and_step}
use rv32im_5_stage_pipelined.Base.Bits.Laws.{bit_or_high, bit_and-zero}
use rv32im_5_stage_pipelined.Base.Bits.Digit.{mod-half, mod-even}
use rv32im_5_stage_pipelined.Iss.State.{Iss}
use rv32im_5_stage_pipelined.Iss.Memory.{
  mmio_base, load_mem_byte, store_mem_byte, load_word, store_loop,
}

-- The byte that an address below the peripherals stands for.
abbrev pub slot : ℕ → Iss → ℕ
slot addr s = bit_and addr s.mem_mask

-- A byte that is stored in RAM is read back, cut to 8 digits; other slots are left alone, and an
-- address in the peripheral space changes nothing.
pub load-store_mem_byte :
    (addr val a : ℕ) (s : Iss)
    → load_mem_byte a (store_mem_byte addr val s) ≡ (
        if leb mmio_base a
        then 0
        else if leb mmio_base addr
        then load_mem_byte a s
        else if slot a s == slot addr s
        then val % 2 ^ 8
        else load_mem_byte a s)
unfolding load_mem_byte store_mem_byte
load-store_mem_byte addr val a s = ground arith

-- A store keeps the mask; it is read back at its own address, and leaves the other slots alone.
keeps_mask :
    (addr val mask : ℕ) (s : Iss) → s.mem_mask ≡ mask → (store_mem_byte addr val s).mem_mask ≡ mask
unfolding store_mem_byte
keeps_mask addr val mask s e = ground arith

hit :
    (addr val : ℕ) (s : Iss)
    → addr < mmio_base
    → load_mem_byte addr (store_mem_byte addr val s) ≡ val % 2 ^ 8
unfolding load_mem_byte store_mem_byte
hit addr val s h = ground arith

miss :
    (a addr val mask : ℕ) (s : Iss)
    → s.mem_mask ≡ mask
    → bit_and a mask ≢ bit_and addr mask
    → load_mem_byte a (store_mem_byte addr val s) ≡ load_mem_byte a s
unfolding load_mem_byte store_mem_byte
miss a addr val mask s e ne =
    ground (arith, ap (λ (t : ℕ). bit_and a t) e, ap (λ (t : ℕ). bit_and addr t) e)

-- The mask of a power of two keeps the low digits.
pub bit_and_mask : (k a : ℕ) → bit_and a (2 ^ k - 1) ≡ a % 2 ^ k
bit_and_mask zero a = omega (arith, bit_and-zero a)
bit_and_mask (suc k) a =
    let m = 2 ^ suc k - 1 in
    let wide : 2 ^ suc k ≡ 2 ^ k * 2 = pow-suc 2 k in
    let some_one : 1 ≤ 2 ^ k = one-le-pow k 2 (omega arith) in
    let half : m / 2 ≡ 2 ^ k - 1 = omega arith in
    let halves : bit_and (a / 2) (m / 2) ≡ a / 2 % 2 ^ k =
      ap (λ (t : ℕ). bit_and (a / 2) t) half ∙ bit_and_mask k (a / 2) in
    omega (arith, bit_and_step a m, mod-half a k, mod-even a k)

-- Two addresses less than the memory's size apart lie in two slots.
slots_differ : (k a d : ℕ) → 0 < d → d < 2 ^ k → bit_and a (2 ^ k - 1) ≢ bit_and (a + d) (2 ^ k - 1)
slots_differ k a d pos_d small e =
    let apart : a % 2 ^ k ≡ (a + d) % 2 ^ k = sym (bit_and_mask k a) ∙ e ∙ bit_and_mask k (a + d) in
    let r = a % 2 ^ k in
    let below : r < 2 ^ k = mod-lt a (one-le-pow k 2 (omega arith)) in
    let moved : (r + d) % 2 ^ k ≡ r = mod-add-mod a (2 ^ k) d ∙ sym apart in
    elim (dec_lt (r + d) (2 ^ k)) [
      | yes inside ↦ omega (arith, mod-eq_of_lt inside)
      | no wraps ↦
          let over : 2 ^ k ≤ r + d = omega arith in
          let rest : r + d - 2 ^ k < 2 ^ k = omega arith in
          omega (arith, mod-eq-sub-mod over, mod-eq_of_lt rest)
    ]

-- A memory of `2 ^ k` bytes.
abbrev pub HasSize : ℕ → Iss → Type 0
HasSize k s = s.mem_mask ≡ 2 ^ k - 1

-- A byte under a store at a slot apart from it.
under :
    (k a addr d val v : ℕ) (s : Iss)
    → HasSize k s
    → addr ≡ a + d
    → 0 < d
    → d < 2 ^ k
    → load_mem_byte a s ≡ v
    → load_mem_byte a (store_mem_byte addr val s) ≡ v
under k a addr d val v s size e pos_d small h =
    miss a addr val (2 ^ k - 1) s size
      (λ same. slots_differ k a d pos_d small (same ∙ ap (λ (t : ℕ). bit_and t (2 ^ k - 1)) e))
    ∙ h

-- The four bytes after the four stores of a word.
stored_bytes :
    (k addr b0 b1 b2 b3 : ℕ) (s : Iss)
    → HasSize k s
    → 3 < 2 ^ k
    → addr + 3 < mmio_base
    → let t =
        store_mem_byte (addr + 3) b3 (
          store_mem_byte (addr + 2) b2 (store_mem_byte (addr + 1) b1 (store_mem_byte addr b0 s))) in
      (load_mem_byte addr t ≡ b0 % 2 ^ 8)
      × (load_mem_byte (addr + 1) t ≡ b1 % 2 ^ 8)
      × (load_mem_byte (addr + 2) t ≡ b2 % 2 ^ 8)
      × (load_mem_byte (addr + 3) t ≡ b3 % 2 ^ 8)
stored_bytes k addr b0 b1 b2 b3 s size big h =
    let m : ℕ = 2 ^ k - 1 in
    let s1 : Iss = store_mem_byte addr b0 s in
    let size1 : HasSize k s1 = keeps_mask addr b0 m s size in
    let s2 : Iss = store_mem_byte (addr + 1) b1 s1 in
    let size2 : HasSize k s2 = keeps_mask (addr + 1) b1 m s1 size1 in
    let s3 : Iss = store_mem_byte (addr + 2) b2 s2 in
    let size3 : HasSize k s3 = keeps_mask (addr + 2) b2 m s2 size2 in
    let in0 = hit addr b0 s (omega arith) in
    let in1 = hit (addr + 1) b1 s1 (omega arith) in
    let in2 = hit (addr + 2) b2 s2 (omega arith) in
    let up0 =
      under k addr (addr + 2) 2 b2 (b0 % 2 ^ 8) s2 size2 refl (omega arith) (omega arith)
        (under k addr (addr + 1) 1 b1 (b0 % 2 ^ 8) s1 size1 refl (omega arith) (omega arith) in0) in
    let up1 =
      under k (addr + 1) (addr + 2) 1 b2 (b1 % 2 ^ 8) s2 size2 (omega arith) (omega arith)
        (omega arith) in1 in
    (
      under k addr (addr + 3) 3 b3 (b0 % 2 ^ 8) s3 size3 refl (omega arith) big up0,
      under k (addr + 1) (addr + 3) 2 b3 (b1 % 2 ^ 8) s3 size3 (omega arith) (omega arith)
          (omega arith) up1,
      under k (addr + 2) (addr + 3) 1 b3 (b2 % 2 ^ 8) s3 size3 (omega arith) (omega arith)
          (omega arith) in2,
      hit (addr + 3) b3 s3 (omega arith),
    )

-- Four bytes joined.
join_bytes :
    (v b0 b1 b2 b3 : ℕ)
    → b0 ≡ v / 2 ^ 0 % 2 ^ 8
    → b1 ≡ v / 2 ^ 8 % 2 ^ 8
    → b2 ≡ v / 2 ^ 16 % 2 ^ 8
    → b3 ≡ v / 2 ^ 24 % 2 ^ 8
    → bit_or (bit_or (bit_or b0 (b1 * 2 ^ 8)) (b2 * 2 ^ 16)) (b3 * 2 ^ 24) ≡ v % 2 ^ 32
join_bytes v b0 b1 b2 b3 e0 e1 e2 e3 =
    rw
      (
        bit_or_high 8 b0 b1 (omega arith),
        bit_or_high 16 (b0 + b1 * 2 ^ 8) b2 (omega arith),
        bit_or_high 24 (b0 + b1 * 2 ^ 8 + b2 * 2 ^ 16) b3 (omega arith),
      )
      (omega arith)

-- What the stores of a word write is what a word load reads, in a memory of at least 4 bytes and
-- below the peripherals, also where the word wraps round the end of the memory.
pub load_word-store_loop :
    (k addr val : ℕ) (s : Iss)
    → HasSize k s
    → 3 < 2 ^ k
    → addr + 3 < mmio_base
    → load_word addr (store_loop 4 0 addr val s) ≡ val % 2 ^ 32
unfolding load_word store_loop
load_word-store_loop k addr val s size big h =
    let (e0, e1, e2, e3) =
      stored_bytes k addr (val / 2 ^ 0) (val / 2 ^ 8) (val / 2 ^ 16) (val / 2 ^ 24) s size big h in
    rw (start addr) (join_bytes val _ _ _ _ e0 e1 e2 e3)
  where
    start : (a : ℕ) → a + 0 ≡ a
    start a = omega arith
