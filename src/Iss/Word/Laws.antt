-- ===== src/Iss/Word/Laws.antt =====
-- The two's-complement reading against the truncation, at every width.
use native.Mathlib.Nat.{pow-suc, one-le-pow, mod-eq_of_lt, mod-lt, div-eq_of_lt, div-eq-sub-div}
use native.Mathlib.Decide.{dec_lt}
use rv32im_5_stage_pipelined.Base.{
  ℕ, suc, ◌-◌, ◌*◌, ◌/◌, ◌%◌, ◌^◌, ◌≤◌, ◌<◌, ◌≡◌, refl, ap, ◌∙◌, arith,
}
use rv32im_5_stage_pipelined.Base.Int.{ℤ, pos, negsuc, low_bits, ◌≤ℤ◌, ◌-ℤ◌}
use rv32im_5_stage_pipelined.Iss.Word.{s_xlen, sext}

-- `v` is an integer of `w` two's-complement digits.
abbrev pub Fits : ℕ → ℤ → Type 0
Fits w v = (negsuc (2 ^ (w - 1) - 1) ≤ℤ v) × (v ≤ℤ pos (2 ^ (w - 1) - 1))

pub low_bits-lt : (w : ℕ) (v : ℤ) → low_bits w v < 2 ^ w
low_bits-lt w (pos n) = omega (arith, mod-lt n (one-le-pow w 2 (omega arith)))
low_bits-lt w (negsuc n) = omega (arith, one-le-pow w 2 (omega arith))

-- The two halves of the `w`-digit numbers, told apart by the top digit.
top_digit_low : (k m : ℕ) → m < 2 ^ k → m / 2 ^ k % 2 ≡ 0
top_digit_low k m h = omega (arith, div-eq_of_lt h)

top_digit_high : (k m : ℕ) → 2 ^ k ≤ m → m < 2 ^ suc k → m / 2 ^ k % 2 ≡ 1
top_digit_high k m l h =
    let bound : m - 2 ^ k < 2 ^ k = omega (arith, pow-suc 2 k) in
    omega (arith, div-eq-sub-div (one-le-pow k 2 (omega arith)) l, div-eq_of_lt bound)

pred-suc : (k : ℕ) → suc k - 1 ≡ k
pred-suc k = omega arith

pub sext_low : (k m : ℕ) → m < 2 ^ k → sext m (suc k) ≡ pos m
unfolding sext
sext_low k m h =
    let small : m % 2 ^ suc k ≡ m = mod-eq_of_lt (omega (arith, pow-suc 2 k)) in
    rw (small, pred-suc k, top_digit_low k m h) refl

pub sext_high : (k m : ℕ) → 2 ^ k ≤ m → m < 2 ^ suc k → sext m (suc k) ≡ negsuc (2 ^ suc k - m - 1)
unfolding sext ◌-ℤ◌
sext_high k m l h = rw (mod-eq_of_lt h, pred-suc k, top_digit_high k m l h) (ground arith)

pred_pow : (k : ℕ) → 2 ^ (suc k - 1) ≡ 2 ^ k
pred_pow k = ap (λ (t : ℕ). 2 ^ t) (pred-suc k)

-- Truncation and the signed reading are inverse on what fits.
pub sext-low_bits : (k : ℕ) (v : ℤ) → Fits (suc k) v → sext (low_bits (suc k) v) (suc k) ≡ v
sext-low_bits k (pos n) h =
    let small : n < 2 ^ k = omega (arith, one-le-pow k 2 (omega arith), pred_pow k) in
    let same : n % 2 ^ suc k ≡ n = mod-eq_of_lt (omega (arith, pow-suc 2 k)) in
    rw same (sext_low k n small)
sext-low_bits k (negsuc n) h =
    let small : n < 2 ^ k = omega (arith, one-le-pow k 2 (omega arith), pred_pow k) in
    let wide : 2 ^ suc k ≡ 2 ^ k * 2 = pow-suc 2 k in
    let same : n % 2 ^ suc k ≡ n = mod-eq_of_lt (omega arith) in
    rw same (sext_high k (2 ^ suc k - 1 - n) (omega arith) (omega arith) ∙ ap negsuc (omega arith))

-- The register-width reading of a register is that of a field of as many digits.
pub s_xlen-eq-sext : (a w : ℕ) → s_xlen (pos a) w ≡ sext a w
unfolding s_xlen sext
s_xlen-eq-sext a w = refl

-- The signed reading of a number of `w` digits fits `w` digits, and truncation gives the number.
pub sext_parts :
    (k m : ℕ)
    → m < 2 ^ suc k
    → Fits (suc k) (sext m (suc k)) × (low_bits (suc k) (sext m (suc k)) ≡ m)
sext_parts k m h = elim (dec_lt m (2 ^ k)) [
  | yes low ↦
      rw (sext_low k m low)
        (omega (arith, pred_pow k, one-le-pow k 2 (omega arith)), mod-eq_of_lt h)
  | no high ↦
      let wide : 2 ^ suc k ≡ 2 ^ k * 2 = pow-suc 2 k in
      let same : (2 ^ suc k - m - 1) % 2 ^ suc k ≡ 2 ^ suc k - m - 1 = mod-eq_of_lt (omega arith) in
      rw (sext_high k m (omega arith) h) (omega (arith, pred_pow k), rw same (omega arith))
]
