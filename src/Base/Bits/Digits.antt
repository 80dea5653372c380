-- ===== src/Base/Bits/Digits.antt =====
-- The native operations on binary digits, one equation for the lowest digit each, and the
-- equation for a cut at any place.
use Prim.Native.Nat.{
  ℕ, zero, suc, ◌+◌, ◌*◌, ◌/◌, ◌%◌, ◌^◌, ◌≤◌, ◌<◌, min, max, digits, bitwise, bit_and, bit_or,
  bit_and-bitwise, bit_or-bitwise,
}
use mathlib.Core.Path.{◌≡◌, refl, ap}
use mathlib.Core.WellFounded
use native.Mathlib.Nat.{pow-suc}
use rv32im_5_stage_pipelined.Base.Order.{lt_wf}
use native.Mathlib.Omega.{arith}

-- The recursion of `digits` reads at most as many rounds as its first number says, so that fuel
-- beyond it changes nothing.
module _ (alone : ℕ → ℕ) (pair : ℕ → ℕ → ℕ) where
  Stable : ℕ → Type 0
  Stable x = (fuel y : ℕ) → x ≤ fuel → digits alone pair fuel x y ≡ digits alone pair x x y

  digits-Stable : (x : ℕ) → Stable x
  unfolding Stable
  digits-Stable x = WellFounded.induction lt_wf {C = Stable} x step
    where
      step : (n : ℕ) → ((m : ℕ) → m < n → Stable m) → Stable n
      step zero below zero y enough = refl
      step zero below (suc fuel) y enough = refl
      step (suc n) below zero y enough = absurd (omega arith)
      step (suc n) below (suc fuel) y enough =
          let half = below (suc n / 2) (omega arith) in
          rw (half fuel (y / 2) (omega arith), half n (y / 2) (omega arith)) refl

  lowest_digit :
      (x y : ℕ)
      → bitwise alone pair (suc x) y
        ≡ bitwise alone pair (suc x / 2) (y / 2) * 2 + pair (suc x % 2) (y % 2)
  unfolding Stable
  lowest_digit x y = rw (digits-Stable (suc x / 2) x (y / 2) (omega arith)) refl

pub bit_and_step : (x y : ℕ) → bit_and x y ≡ 2 * bit_and (x / 2) (y / 2) + min (x % 2) (y % 2)
bit_and_step zero y = simp bit_and-bitwise (omega arith)
bit_and_step (suc x) y = simp bit_and-bitwise (omega (arith, lowest_digit (λ rest. 0) min x y))

pub bit_or_step : (x y : ℕ) → bit_or x y ≡ 2 * bit_or (x / 2) (y / 2) + max (x % 2) (y % 2)
bit_or_step zero y = simp bit_or-bitwise (omega arith)
bit_or_step (suc x) y = simp bit_or-bitwise (omega (arith, lowest_digit (λ rest. rest) max x y))

-- A number shifted by one place more is twice as large.
doubled : (place n : ℕ) → 2 * (n * 2 ^ place) ≡ n * 2 ^ suc place
doubled place n = omega (arith, ap (λ (weight : ℕ). n * weight) (pow-suc 2 place))

-- Both numbers cut at the digit `k`.
pub bit_or_split :
    (k p q r s : ℕ)
    → r < 2 ^ k
    → s < 2 ^ k
    → bit_or (p * 2 ^ k + r) (q * 2 ^ k + s) ≡ bit_or p q * 2 ^ k + bit_or r s
bit_or_split zero p q r s hr hs =
    ground (arith, ap (λ (t : ℕ). bit_or t s) (the r hr), ap (λ (t : ℕ). bit_or 0 t) (the s hs))
  where
    the : (r : ℕ) → r < 1 → r ≡ 0
    the r h = omega arith
bit_or_split (suc k) p q r s hr hs = ground (
  arith,
  bit_or_step (p * 2 ^ suc k + r) (q * 2 ^ suc k + s),
  bit_or_step r s,
  doubled k p,
  doubled k q,
  doubled k (bit_or p q),
  pow-suc 2 k,
  bit_or_split k p q (r / 2) (s / 2) (omega (arith, pow-suc 2 k)) (omega (arith, pow-suc 2 k)),
)
