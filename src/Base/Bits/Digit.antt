-- ===== src/Base/Bits/Digit.antt =====
-- Single digits of `|`, `&`, `& ~` and shifted numbers, and a test of all small numbers.
use Prim.Native.Nat.{ℕ, zero, suc, ◌+◌, ◌-◌, ◌*◌, ◌/◌, ◌%◌, ◌^◌, ◌<◌, min, max, bit_and, bit_or}
use mathlib.Core.Path.{◌≡◌, ap, ◌∙◌, sym}
use mathlib.Core.Bool.{Bool, true, ◌&&◌}
use native.Mathlib.Nat.{
  pow-succ', div-div-eq-div-mul, div-add-mod, mul_assoc, div-eq_of_lt, mul-one, add-zero, add-suc,
  one-le-pow,
}
use native.Mathlib.Decide.{dec_lt}
use mathlib.Core.Logic.{◌⊎◌, inl, inr}
use native.Mathlib.Omega.{arith}
use rv32im_5_stage_pipelined.Base.Tests.{◌==◌, if◌then◌else◌}
use rv32im_5_stage_pipelined.Base.Bits.{digit, and_not}
use rv32im_5_stage_pipelined.Base.Bits.Digits.{bit_or_step, bit_and_step}
use rv32im_5_stage_pipelined.Base.Bits.Laws.{bit_and-le}

-- The digit `suc k` is the digit `k` of the half.
pub digit-suc : (x k : ℕ) → digit x (suc k) ≡ digit (x / 2) k
digit-suc x k =
    ap (λ (t : ℕ). t % 2)
      (ap (λ (t : ℕ). x / t) (pow-succ' 2 k) ∙ sym (div-div-eq-div-mul x 2 (2 ^ k)))

pub digit-bit_or : (k a b : ℕ) → digit (bit_or a b) k ≡ max (digit a k) (digit b k)
digit-bit_or zero a b = omega (arith, bit_or_step a b)
digit-bit_or (suc k) a b =
    let halves : bit_or a b / 2 ≡ bit_or (a / 2) (b / 2) = omega (arith, bit_or_step a b) in
    rw (digit-suc (bit_or a b) k, digit-suc a k, digit-suc b k, halves)
      (digit-bit_or k (a / 2) (b / 2))

pub digit-bit_and : (k a b : ℕ) → digit (bit_and a b) k ≡ min (digit a k) (digit b k)
digit-bit_and zero a b = omega (arith, bit_and_step a b)
digit-bit_and (suc k) a b =
    let halves : bit_and a b / 2 ≡ bit_and (a / 2) (b / 2) = omega (arith, bit_and_step a b) in
    rw (digit-suc (bit_and a b) k, digit-suc a k, digit-suc b k, halves)
      (digit-bit_and k (a / 2) (b / 2))

-- A digit of `x & ~m` is 1 exactly where that of `x` is and that of `m` is not.
pub digit-and_not : (k a b : ℕ) → digit (and_not a b) k ≡ digit a k - digit b k
digit-and_not zero a b = omega (arith, bit_and_step a b, bit_and-le (a / 2) (b / 2))
digit-and_not (suc k) a b =
    let halves : and_not a b / 2 ≡ and_not (a / 2) (b / 2) =
      omega (arith, bit_and_step a b, bit_and-le (a / 2) (b / 2)) in
    rw (digit-suc (and_not a b) k, digit-suc a k, digit-suc b k, halves)
      (digit-and_not k (a / 2) (b / 2))

pub mod-half : (x w : ℕ) → x % 2 ^ suc w / 2 ≡ x / 2 % 2 ^ w
mod-half x w =
    let wide : 2 ^ suc w ≡ 2 * 2 ^ w = pow-succ' 2 w in
    let q = x / 2 ^ suc w in
    let nest : x / 2 / 2 ^ w ≡ q =
      div-div-eq-div-mul x 2 (2 ^ w) ∙ ap (λ (t : ℕ). x / t) (sym wide) in
    let whole : 2 ^ suc w * q ≡ 2 * (2 ^ w * q) =
      ap (λ (t : ℕ). t * q) wide ∙ mul_assoc 2 (2 ^ w) q in
    let half : 2 ^ w * (x / 2 / 2 ^ w) ≡ 2 ^ w * q = ap (λ (t : ℕ). 2 ^ w * t) nest in
    omega (arith, div-add-mod x (2 ^ suc w), div-add-mod (x / 2) (2 ^ w))

pub mod-even : (x w : ℕ) → x % 2 ^ suc w % 2 ≡ x % 2
mod-even x w =
    let q = x / 2 ^ suc w in
    let whole : 2 ^ suc w * q ≡ 2 * (2 ^ w * q) =
      ap (λ (t : ℕ). t * q) (pow-succ' 2 w) ∙ mul_assoc 2 (2 ^ w) q in
    omega (arith, div-add-mod x (2 ^ suc w))

-- A truncation keeps the digits below its width.
pub digit-mod : (w k x : ℕ) → k < w → digit (x % 2 ^ w) k ≡ digit x k
digit-mod zero k x h = absurd (omega arith)
digit-mod (suc w) zero x h = omega (arith, mod-even x w)
digit-mod (suc w) (suc k) x h =
    rw (digit-suc (x % 2 ^ suc w) k, digit-suc x k, mod-half x w)
      (digit-mod w k (x / 2) (omega arith))

-- A shift to the left by `j` leaves zeros below the digit `j`, and moves every digit up.
shl-half : (j x : ℕ) → x * 2 ^ suc j / 2 ≡ x * 2 ^ j
shl-half j x = omega (arith, ap (λ (t : ℕ). x * t) (pow-succ' 2 j))

pub digit-shl_low : (j k x : ℕ) → k < j → digit (x * 2 ^ j) k ≡ 0
digit-shl_low zero k x h = absurd (omega arith)
digit-shl_low (suc j) zero x h = omega (arith, ap (λ (t : ℕ). x * t) (pow-succ' 2 j))
digit-shl_low (suc j) (suc k) x h =
    rw (digit-suc (x * 2 ^ suc j) k, shl-half j x) (digit-shl_low j k x (omega arith))

pub digit-shl_high : (j k x : ℕ) → digit (x * 2 ^ j) (k + j) ≡ digit x k
digit-shl_high zero k x = rw (mul-one x, add-zero k)
digit-shl_high (suc j) k x =
    rw (add-suc k j, digit-suc (x * 2 ^ suc j) (k + j), shl-half j x) (digit-shl_high j k x)

pub digit_small : (k x : ℕ) → x < 2 ^ k → digit x k ≡ 0
digit_small k x h = omega (arith, div-eq_of_lt h)

Nat-cases : (k j : ℕ) → (k < j) ⊎ ((d : ℕ) × (k ≡ d + j))
Nat-cases k j = elim (dec_lt k j) [ yes h ↦ inl h | no h ↦ inr (k - j, omega arith) ]

-- A single digit that is shifted.
pub digit-shl_bit : (j k b : ℕ) → b < 2 → digit (b * 2 ^ j) k ≡ (if k == j then b else 0)
digit-shl_bit j k b h = elim (Nat-cases k j) [
  | inl low ↦ ground (arith, digit-shl_low j k b low)
  | inr (zero, e) ↦ ground (arith, ap (λ (t : ℕ). digit (b * 2 ^ j) t) e, digit-shl_high j 0 b)
  | inr (suc d, e) ↦ ground (
    arith,
    ap (λ (t : ℕ). digit (b * 2 ^ j) t) e,
    digit-shl_high j (suc d) b,
    digit_small (suc d) b (omega (arith, pow-succ' 2 d, one-le-pow d 2 (omega arith))),
  )
]

-- Two digits that are shifted.
pub digit-shl_pair :
    (j k b : ℕ)
    → b < 4
    → digit (b * 2 ^ j) k ≡ (if k == j then b % 2 else if k == suc j then b / 2 else 0)
digit-shl_pair j k b h = elim (Nat-cases k j) [
  | inl low ↦ ground (arith, digit-shl_low j k b low)
  | inr (zero, e) ↦ ground (arith, ap (λ (t : ℕ). digit (b * 2 ^ j) t) e, digit-shl_high j 0 b)
  | inr (suc zero, e) ↦ ground (arith, ap (λ (t : ℕ). digit (b * 2 ^ j) t) e, digit-shl_high j 1 b)
  | inr (suc (suc d), e) ↦ ground (
    arith,
    ap (λ (t : ℕ). digit (b * 2 ^ j) t) e,
    digit-shl_high j (suc (suc d)) b,
    digit_small (suc (suc d)) b
        (omega (arith, pow-succ' 2 (suc d), pow-succ' 2 d, one-le-pow d 2 (omega arith))),
  )
]

-- Two functions agree on every number below `bound`, as a test that is evaluated.
abbrev pub agree_below : ℕ → (ℕ → ℕ) → (ℕ → ℕ) → Bool
agree_below zero f g = true
agree_below (suc bound) f g = agree_below bound f g && f bound == g bound

pub all_equal :
    (bound : ℕ) (f g : ℕ → ℕ) (x : ℕ) → agree_below bound f g ≡ true → x < bound → f x ≡ g x
all_equal zero f g x agrees inside = absurd (omega arith)
all_equal (suc bound) f g x agrees inside = ground (arith, all_equal bound f g x)
