-- ===== src/Asm/Text/Same.antt =====
-- sim/tools/asm.py: `==` on texts.
use rv32im_5_stage_pipelined.Base.{
  ℕ, ◌≡◌, refl, arith, Bool, true, false, ==→eq, List, [], ◌∷◌, ◌==◌, ◌&&◌,
}
use rv32im_5_stage_pipelined.Asm.Text.{same}

pub same_refl : (t : List ℕ) → same t t ≡ true
same_refl [] = refl
same_refl (c ∷ cs) = ground (arith, same_refl cs)

pub both_true : (a b : Bool) → a && b ≡ true → (a ≡ true) × (b ≡ true)
both_true true b h = (refl, h)
both_true false b h = absurd (cc h)

pub same-eq : (s t : List ℕ) → same s t ≡ true → s ≡ t
same-eq [] [] h = refl
same-eq [] (d ∷ ds) h = absurd (cc h)
same-eq (c ∷ cs) [] h = absurd (cc h)
same-eq (c ∷ cs) (d ∷ ds) h =
    let (first, rest) = both_true (c == d) (same cs ds) h in
    cc (==→eq c d first, same-eq cs ds rest)
