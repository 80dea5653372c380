-- ===== src/RandomGen/Source.antt =====
-- What sim/tools/random_gen.py uses of Python's `random.Random`, which is a parameter: a state, the
-- numbers that it draws below a bound, the index that `choices` draws by weights, and a test of
-- `random()` against 0.5.
use rv32im_5_stage_pipelined.Base.{ℕ, zero, suc, ◌+◌, ◌-◌, ◌<◌, ◌≤◌, arith, Bool, List, [], ◌∷◌}
use rv32im_5_stage_pipelined.Base.Lists.{length}

pub record Random : Type 1 where
  pub State : Type 0
  pub seeded : ℕ → State
  pub below : ℕ → State → ℕ × State
  pub weighted : List ℕ → State → ℕ × State
  pub below_half : State → Bool × State

-- A drawn number is below its bound.
pub record IsRandom (rnd : Random) : Type 0 where
  pub below_bound : (n : ℕ) (s : rnd.State) → 0 < n → (rnd.below n s).0 < n

abbrev pub Draw : Type 0 → Type 0 → Type 0
Draw S A = S → A × S

infixl 5 ◌>>=◌
unfoldable pub ◌>>=◌ : {S A B : Type 0} → Draw S A → (A → Draw S B) → Draw S B
◌>>=◌ m next s = next (m s).0 (m s).1

unfoldable pub drawn : {S A : Type 0} → A → Draw S A
drawn a s = (a, s)

-- The element at an index, the last one past the end.
abbrev pub pick {ℓ} : {A : Type ℓ} → A → List A → ℕ → A
pick a rest zero = a
pick a [] (suc i) = a
pick a (b ∷ rest) (suc i) = pick b rest i

-- `rnd.choice` of a list with a first element.
unfoldable pub choice : {A : Type 0} (rnd : Random) → A → List A → Draw rnd.State A
choice rnd a rest s = let d = rnd.below (suc (length rest)) s in (pick a rest d.0, d.1)

-- `rnd.randint(lo, hi)` for `lo <= hi`.
unfoldable pub randint : (rnd : Random) → ℕ → ℕ → Draw rnd.State ℕ
randint rnd lo hi s = let d = rnd.below (hi - lo + 1) s in (lo + d.0, d.1)

-- Every draw satisfies the predicate.
pub record Gives {S A : Type 0} (P : A → Type 0) (m : Draw S A) : Type 0 where
  pub all : (s : S) → P (m s).0

pub Gives-bind :
    {S A B : Type 0} {P : A → Type 0} {Q : B → Type 0} {m : Draw S A} {next : A → Draw S B}
    → Gives P m
    → ((a : A) → P a → Gives Q (next a))
    → Gives Q (m >>= next)
unfolding ◌>>=◌
Gives-bind {m = m} h k = record { all = λ s. (k (m s).0 (h.all s)).all (m s).1 }

pub Gives-drawn : {S A : Type 0} (P : A → Type 0) (a : A) → P a → Gives {S = S} P (drawn a)
unfolding drawn
Gives-drawn P a h = record { all = λ s. h }

abbrev pub All {ℓ κ} : {A : Type ℓ} → (A → Type κ) → List A → Type κ
All P [] = Unit
All P (x ∷ xs) = P x × All P xs

pub pick-All {ℓ κ} :
    {A : Type ℓ} (P : A → Type κ) (a : A) (rest : List A) (i : ℕ)
    → P a
    → All P rest
    → P (pick a rest i)
pick-All P a rest zero h k = h
pick-All P a [] (suc i) h k = h
pick-All P a (b ∷ rest) (suc i) h k = pick-All P b rest i k.0 k.1

pub choice-All :
    {A : Type 0} (P : A → Type 0) (rnd : Random) (a : A) (rest : List A)
    → P a
    → All P rest
    → Gives P (choice rnd a rest)
unfolding choice
choice-All P rnd a rest h k = record {
  all = λ s. pick-All P a rest (rnd.below (suc (length rest)) s).0 h k;
}

pub randint_bounds :
    (rnd : Random) (lo hi : ℕ)
    → IsRandom rnd
    → lo ≤ hi
    → Gives (λ v. (lo ≤ v) × (v ≤ hi)) (randint rnd lo hi)
unfolding randint
randint_bounds rnd lo hi r le = record {
  all = λ s.
      let h : (rnd.below (hi - lo + 1) s).0 < hi - lo + 1 =
        r.below_bound (hi - lo + 1) s (omega arith) in
      omega arith;
}
