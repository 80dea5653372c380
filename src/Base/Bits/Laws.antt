-- ===== src/Base/Bits/Laws.antt =====
-- `|`, `&` and the field notation as arithmetic, at every width.
use Prim.Native.Nat.{
  ℕ, zero, suc, ◌+◌, ◌*◌, ◌/◌, ◌%◌, ◌^◌, ◌≤◌, ◌<◌, bit_and, bit_or, bit_and-bitwise,
}
use mathlib.Core.Path.{◌≡◌, refl, ap}
use mathlib.Core.WellFounded
use native.Mathlib.Nat.{one-le-pow, pow-suc, div-add-mod}
use native.Mathlib.Omega.{arith}
use rv32im_5_stage_pipelined.Base.Order.{lt_wf}
use rv32im_5_stage_pipelined.Base.Bits.Digits.{bit_or_step, bit_and_step, bit_or_split}

-- Induction from the half of a number to the number.
by_halves {ℓ} :
    (P : ℕ → Type ℓ) → P 0 → ((half : ℕ) → P (suc half / 2) → P (suc half)) → (x : ℕ) → P x
by_halves P base up x = WellFounded.induction lt_wf {C = P} x visit
  where
    visit : (y : ℕ) → ((z : ℕ) → z < y → P z) → P y
    visit zero below = base
    visit (suc y) below = up y (below (suc y / 2) (omega arith))

pub bit_or-zero : (x : ℕ) → bit_or x 0 ≡ x
bit_or-zero =
    by_halves (λ x. bit_or x 0 ≡ x) refl (λ x half. omega (arith, bit_or_step (suc x) 0, half))

pub zero-bit_or : (x : ℕ) → bit_or 0 x ≡ x
zero-bit_or =
    by_halves (λ x. bit_or 0 x ≡ x) refl (λ x half. omega (arith, bit_or_step 0 (suc x), half))

pub bit_and-zero : (x : ℕ) → bit_and x 0 ≡ 0
bit_and-zero =
    by_halves (λ x. bit_and x 0 ≡ 0) refl (λ x half. omega (arith, bit_and_step (suc x) 0, half))

-- `(p << k) | r` is a sum where `r` fits `k` digits.
pub bit_or_fields : (k p r : ℕ) → r < 2 ^ k → bit_or (p * 2 ^ k) r ≡ p * 2 ^ k + r
bit_or_fields k p r h =
    rw (← the (p * 2 ^ k), ← zero_left r)
      (rw (bit_or_split k p 0 0 r (one-le-pow k 2 (omega arith)) h)
        (rw (bit_or-zero p, zero-bit_or r) (ground arith)))
  where
    the : (x : ℕ) → x + 0 ≡ x
    the x = omega arith

    zero_left : (x : ℕ) → 0 * 2 ^ k + x ≡ x
    zero_left x = ground arith

-- Two operands below a power of two stay below it.
pub bit_or-lt : (k a b : ℕ) → a < 2 ^ k → b < 2 ^ k → bit_or a b < 2 ^ k
bit_or-lt zero a b ha hb =
    ground (arith, ap (λ (t : ℕ). bit_or t b) (the a ha), ap (λ (t : ℕ). bit_or 0 t) (the b hb))
  where
    the : (r : ℕ) → r < 1 → r ≡ 0
    the r h = omega arith
bit_or-lt (suc k) a b ha hb = omega (
  arith,
  pow-suc 2 k,
  bit_or_step a b,
  bit_or-lt k (a / 2) (b / 2) (omega (arith, pow-suc 2 k)) (omega (arith, pow-suc 2 k)),
)

-- `x & m` takes nothing that `x` does not have.
pub bit_and-le : (a m : ℕ) → bit_and a m ≤ a
bit_and-le =
    by_halves (λ x. (m : ℕ) → bit_and x m ≤ x) (λ m. omega (arith, bit_and-bitwise 0 m))
      (λ x half m. omega (arith, bit_and_step (suc x) m, half (m / 2)))

-- The same, of an `x` that has nothing in its low `k` digits.
pub bit_or_low : (k x r : ℕ) → x % 2 ^ k ≡ 0 → r < 2 ^ k → bit_or x r ≡ x + r
bit_or_low k x r e h =
    ground (arith, bit_or_fields k (x / 2 ^ k) r h, ap (λ (t : ℕ). bit_or t r) (cut e))
  where
    cut : x % 2 ^ k ≡ 0 → x ≡ x / 2 ^ k * 2 ^ k
    cut e = omega (arith, div-add-mod x (2 ^ k))

-- A part that is joined above a low one.
pub bit_or_high : (k r q : ℕ) → r < 2 ^ k → bit_or r (q * 2 ^ k) ≡ r + q * 2 ^ k
bit_or_high k r q h =
    rw (← the (q * 2 ^ k), ← zero_left r)
      (rw (bit_or_split k 0 q r 0 h (one-le-pow k 2 (omega arith)))
        (rw (zero-bit_or q, bit_or-zero r) (ground arith)))
  where
    the : (x : ℕ) → x + 0 ≡ x
    the x = omega arith

    zero_left : (x : ℕ) → 0 * 2 ^ k + x ≡ x
    zero_left x = ground arith
