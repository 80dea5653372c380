-- ===== src/Float/Laws.antt =====
-- sim/tools/iss.py, `f_cmp` and `f_class`: laws of the float comparisons and the classification.
use rv32im_5_stage_pipelined.Base.{
  ℕ, ◌+◌, ◌%◌, ◌^◌, ◌<◌, ◌≡◌, refl, arith, ◌==◌, ◌||◌, ◌&&◌, not, test_bit, field, digit, Bool,
  true, false, if◌then◌else◌,
}
use rv32im_5_stage_pipelined.Float.Decode.{f32_decode, f32_is_zero_arith}
use rv32im_5_stage_pipelined.Float.Compare.{nonzero_lt, f_cmp, f_class}

abbrev IsOneHot : ℕ → Type 0
IsOneHot x = (k : ℕ) × (k < 10) × (x ≡ 2 ^ k)

pick : (b : Bool) {x y : ℕ} → IsOneHot x → IsOneHot y → IsOneHot (if b then x else y)
pick true hx hy = hx
pick false hx hy = hy

-- Every pattern has exactly one class of the ten.
pub f_class-one_hot : (a_bits : ℕ) → (k : ℕ) × (k < 10) × (f_class a_bits ≡ 2 ^ k)
unfolding f_class
f_class-one_hot a_bits =
    let sa = test_bit a_bits 31 in
    let exp = field a_bits 23 8 in
    let frac = a_bits % 2 ^ 23 in
    let finite_normal = not (exp == 0 || exp == 0xFF) in
    pick (exp == 0xFF && frac == 0 && sa) (0, omega arith, refl)
      (pick (finite_normal && sa) (1, omega arith, refl)
        (pick (exp == 0 && not (frac == 0) && sa) (2, omega arith, refl)
          (pick (exp == 0 && frac == 0 && sa) (3, omega arith, refl)
            (pick (exp == 0 && frac == 0 && not sa) (4, omega arith, refl)
              (pick (exp == 0 && not (frac == 0) && not sa) (5, omega arith, refl)
                (pick (finite_normal && not sa) (6, omega arith, refl)
                  (pick (exp == 0xFF && frac == 0 && not sa) (7, omega arith, refl)
                    (pick (exp == 0xFF && not (frac == 0) && not (test_bit frac 22))
                      (8, omega arith, refl) (9, omega arith, refl)))))))))

decode-sign : (a : ℕ) → a < 2 ^ 32 → (f32_decode a).sign ≡ digit a 31
unfolding f32_decode
decode-sign a h = ground arith

abbrev of_bool : Bool → ℕ
of_bool b = if b then 1 else 0

nonzero_trichotomy :
    (a b : ℕ)
    → a < 2 ^ 32
    → b < 2 ^ 32
    → of_bool (nonzero_lt (digit a 31) (digit b 31) a b)
        + of_bool (a == b)
        + of_bool (nonzero_lt (digit b 31) (digit a 31) b a)
      ≡ 1
unfolding nonzero_lt
nonzero_trichotomy a b ha hb = ground arith

-- Of two patterns of 32 digits that are no NaN, exactly one of flt, feq and the reversed flt holds.
pub f_cmp_trichotomy :
    (a b : ℕ)
    → a < 2 ^ 32
    → b < 2 ^ 32
    → (f32_decode a).is_nan ≡ false
    → (f32_decode b).is_nan ≡ false
    → (f_cmp a b 1).0 + (f_cmp a b 2).0 + (f_cmp b a 1).0 ≡ 1
unfolding f_cmp
f_cmp_trichotomy a b ha hb na nb =
    rw (na, nb, decode-sign a ha, decode-sign b hb)
      (zeros (f32_is_zero_arith a) (f32_is_zero_arith b))
  where
    zeros :
        (za zb : Bool)
        → of_bool (if za && zb then false else nonzero_lt (digit a 31) (digit b 31) a b)
            + of_bool (if za && zb then true else a == b)
            + of_bool (if zb && za then false else nonzero_lt (digit b 31) (digit a 31) b a)
          ≡ 1
    zeros true true = refl
    zeros true false = nonzero_trichotomy a b ha hb
    zeros false true = nonzero_trichotomy a b ha hb
    zeros false false = nonzero_trichotomy a b ha hb
