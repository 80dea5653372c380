-- ===== src/Dtb/Bytes/Laws.antt =====
-- The byte operations of sim/tools/gen_dtb.py against one another: what is packed is unpacked, and
-- slices of joined bytes.
use Prim.Native.Char.{code}
use Prim.Native.String.{String}
use mathlib.Core.List.{append_assoc}
use rv32im_5_stage_pipelined.Base.{
  ℕ, zero, suc, ◌+◌, ◌-◌, ◌*◌, ◌/◌, ◌%◌, ◌^◌, ◌<◌, ◌≡◌, refl, sym, ap, ◌∙◌, arith, some, List, [],
  ◌∷◌, ◌++◌, inl, inr, Option-cases,
}
use rv32im_5_stage_pipelined.Base.Lists.{length, length-append}
use rv32im_5_stage_pipelined.Dtb.Bytes.{
  be32, pack32, unpack32, zero_bytes, align4, encode, drop, take, find_zero,
}

pub unpack32-be32 : (n : ℕ) (rest : List ℕ) → n < 2 ^ 32 → unpack32 (be32 n ++ rest) ≡ some n
unpack32-be32 n rest h = ap some (omega arith)

pub pack32-eq-some :
    (n : ℕ) {bytes : List ℕ} → pack32 n ≡ some bytes → (bytes ≡ be32 n) × (n < 2 ^ 32)
unfolding pack32
pack32-eq-some n e = ground arith

pub length-zero_bytes : (n : ℕ) → length (zero_bytes n) ≡ n
unfolding zero_bytes
length-zero_bytes zero = refl
length-zero_bytes (suc n) = omega (arith, length-zero_bytes n)

pub length-align4 : (xs : List ℕ) → length (align4 xs) ≡ (length xs + 3) / 4 * 4
unfolding align4
length-align4 xs = omega (
  arith,
  length-append xs (zero_bytes ((4 - length xs % 4) % 4)),
  length-zero_bytes ((4 - length xs % 4) % 4),
)

pub align4-append :
    (xs ys : List ℕ) → align4 xs ++ ys ≡ xs ++ (zero_bytes ((4 - length xs % 4) % 4) ++ ys)
unfolding align4
align4-append xs ys = append_assoc xs (zero_bytes ((4 - length xs % 4) % 4)) ys

pub drop-append : (xs ys : List ℕ) → drop (length xs) (xs ++ ys) ≡ ys
unfolding drop
drop-append [] ys = refl
drop-append (x ∷ xs) ys = drop-append xs ys

drop-nil : (k : ℕ) → drop k [] ≡ []
unfolding drop
drop-nil zero = refl
drop-nil (suc k) = refl

pub drop-add : (i k : ℕ) (xs : List ℕ) → drop (i + k) xs ≡ drop k (drop i xs)
unfolding drop
drop-add zero k xs = let e : 0 + k ≡ k = omega arith in ap (λ (n : ℕ). drop n xs) e
drop-add (suc i) k [] = drop-nil (suc i + k) ∙ sym (drop-nil k)
drop-add (suc i) k (x ∷ xs) =
    let e : suc i + k ≡ suc (i + k) = omega arith in
    ap (λ (n : ℕ). drop n (x ∷ xs)) e ∙ drop-add i k xs

pub take-append : (xs ys : List ℕ) → take (length xs) (xs ++ ys) ≡ xs
unfolding take
take-append [] ys = refl
take-append (x ∷ xs) ys = ap (λ (l : List ℕ). x ∷ l) (take-append xs ys)

pub take-length : (xs : List ℕ) → take (length xs) xs ≡ xs
unfolding take
take-length [] = refl
take-length (x ∷ xs) = ap (λ (l : List ℕ). x ∷ l) (take-length xs)

-- A name without the character 0.
abbrev pub HasNoNul : String → Type 0
HasNoNul String.[] = Unit
HasNoNul (String.◌∷◌ c s) = (0 < code c) × HasNoNul s

-- The first 0 behind such a name is its end.
pub find_zero-encode :
    (name : String) {bytes : List ℕ} (rest : List ℕ)
    → HasNoNul name
    → encode name ≡ some bytes
    → find_zero (bytes ++ (0 ∷ rest)) ≡ some (length bytes)
unfolding encode find_zero
find_zero-encode String.[] {bytes} rest h e = let shape : bytes ≡ [] = ground arith in rw shape refl
find_zero-encode (String.◌∷◌ c s) {bytes} rest h e = elim (Option-cases (encode s)) [
  | inl bad ↦ absurd (cc (bad, e))
  | inr (b, eb) ↦
      let shape : bytes ≡ code c ∷ b = ground arith in
      rw shape (ground (arith, find_zero-encode s {bytes = b} rest h.1 eb))
]
