-- ===== src/RandomGen/Texts.antt =====
-- sim/tools/random_gen.py and asm.py: how the assembler reads a line of a mnemonic and operands.
use rv32im_5_stage_pipelined.Base.{
  ℕ, ◌≡◌, refl, sym, ap, ◌∙◌, arith, Bool, true, false, not, ◌&&◌, ◌==◌, none, List, [], ◌∷◌, ◌++◌,
}
use mathlib.Core.List.{append_assoc, append-nil}
use rv32im_5_stage_pipelined.Asm.Text.{
  is_space, is_separator, lstrip, rstrip, strip, before, without_last, split_from, split_fields,
}
use rv32im_5_stage_pipelined.Asm.Assemble.{clean}
use rv32im_5_stage_pipelined.RandomGen.Source.{All}
use rv32im_5_stage_pipelined.RandomGen.Lines.{join_from, line}

-- A character of an operand: no separator, and neither `#` nor `:`.
unfoldable pub is_plain : ℕ → Bool
unfolding is_separator
is_plain c = not (is_separator c) && (not (c == b'#') && not (c == b':'))

abbrev pub all_plain : List ℕ → Bool
all_plain [] = true
all_plain (c ∷ cs) = is_plain c && all_plain cs

-- A text of such characters, at least one.
unfoldable pub plain : List ℕ → Bool
unfolding is_plain
plain [] = false
plain (c ∷ cs) = is_plain c && all_plain cs

abbrev pub IsPlain : List ℕ → Type 0
IsPlain t = plain t ≡ true

module _ (c : ℕ) (h : is_plain c ≡ true) where
  plain-separator : is_separator c ≡ false
  unfolding is_plain
  plain-separator = by_test (is_separator c) (not (c == b'#') && not (c == b':')) h
    where
      by_test : (a b : Bool) → not a && b ≡ true → a ≡ false
      by_test true b e = absurd (cc e)
      by_test false b e = refl

  plain-hash : c == b'#' ≡ false
  unfolding is_plain
  plain-hash = ground (arith, h)

  plain-colon : c == b':' ≡ false
  unfolding is_plain
  plain-colon = ground (arith, h)

  plain-space : is_space c ≡ false
  unfolding is_plain is_separator
  plain-space = ground (arith, plain-separator)

&&-true : (a b : Bool) → a && b ≡ true → (a ≡ true) × (b ≡ true)
&&-true true b e = (refl, e)
&&-true false b e = absurd (cc e)

module _ (c : ℕ) (cs : List ℕ) (h : all_plain (c ∷ cs) ≡ true) where
  first_plain : is_plain c ≡ true
  first_plain = (&&-true (is_plain c) (all_plain cs) h).0

  rest_plain : all_plain cs ≡ true
  rest_plain = (&&-true (is_plain c) (all_plain cs) h).1

-- Plain characters are kept in the field that is begun.
split_from-plain :
    (begun t rest : List ℕ)
    → all_plain t ≡ true
    → split_from false begun (t ++ rest) ≡ split_from false (begun ++ t) rest
unfolding split_from
split_from-plain begun [] rest h = rw (append-nil begun) refl
split_from-plain begun (c ∷ cs) rest h =
    rw (plain-separator c (first_plain c cs h), split_from)
      (split_from-plain (begun ++ (c ∷ [])) cs rest (rest_plain c cs h)
        ∙ ap (λ (l : List ℕ). split_from false l rest) (append_assoc begun (c ∷ []) cs))

plain-all : (t : List ℕ) → IsPlain t → all_plain t ≡ true
unfolding plain
plain-all [] h = refl
plain-all (c ∷ cs) h = h

split_from-first :
    (t rest : List ℕ) → IsPlain t → split_from true [] (t ++ rest) ≡ split_from false t rest
unfolding plain split_from
split_from-first [] rest h = absurd (cc h)
split_from-first (c ∷ cs) rest h =
    rw (plain-separator c (first_plain c cs h), split_from)
      (split_from-plain (c ∷ []) cs rest (rest_plain c cs h))

split_from-join :
    (tok : List ℕ) (toks : List (List ℕ))
    → IsPlain tok
    → All IsPlain toks
    → split_from true [] (join_from tok toks) ≡ tok ∷ toks
unfolding join_from split_from is_separator is_space
split_from-join tok [] h k =
    ap (split_from true []) (sym (append-nil tok)) ∙ split_from-first tok [] h
split_from-join tok (next ∷ toks) h k =
    split_from-first tok (b',' ∷ b' ' ∷ join_from next toks) h
    ∙ ap (λ (l : List (List ℕ)). tok ∷ l) (split_from-join next toks k.0 k.1)

-- The fields of a line are its mnemonic and operands.
pub split_fields-line :
    (mn tok : List ℕ) (toks : List (List ℕ))
    → IsPlain mn
    → IsPlain tok
    → All IsPlain toks
    → split_fields (line mn tok toks) ≡ mn ∷ tok ∷ toks
unfolding line split_fields split_from is_separator is_space
split_fields-line mn tok toks hm h k =
    split_from-plain [] mn (b' ' ∷ join_from tok toks) (plain-all mn hm)
    ∙ ap (λ (l : List (List ℕ)). mn ∷ l) (split_from-join tok toks h k)

abbrev is_cons : List ℕ → Bool
is_cons [] = false
is_cons (c ∷ cs) = true

-- A text without a comment that neither ends with a space nor with a colon.
abbrev Kept : List ℕ → Type 0
Kept v = (is_cons v ≡ true) × (rstrip v ≡ v) × (before b'#' v ≡ v) × (without_last b':' v ≡ none)

Kept-cons : (c : ℕ) (v : List ℕ) → c == b'#' ≡ false → Kept v → Kept (c ∷ v)
unfolding rstrip before without_last
Kept-cons c [] e h = absurd (cc h.0)
Kept-cons c (d ∷ ds) e (h0, h1, h2, h3) = (
  refl,
  rw (h1, rstrip) refl,
  rw (e, before) (ap (λ (l : List ℕ). c ∷ l) h2),
  rw (h3, without_last) refl,
)

Kept-append : (u v : List ℕ) → all_plain u ≡ true → Kept v → Kept (u ++ v)
Kept-append [] v e h = h
Kept-append (c ∷ u) v e h =
    Kept-cons c (u ++ v) (plain-hash c (first_plain c u e)) (Kept-append u v (rest_plain c u e) h)

Kept-one : (c : ℕ) → is_plain c ≡ true → Kept (c ∷ [])
unfolding rstrip before without_last
Kept-one c h = (
  refl,
  rw (plain-space c h, rstrip) refl,
  rw (plain-hash c h, before) refl,
  rw (plain-colon c h, without_last) refl,
)

Kept-plain : (t : List ℕ) → IsPlain t → Kept t
unfolding plain
Kept-plain [] h = absurd (cc h)
Kept-plain (c ∷ []) h = Kept-one c (first_plain c [] h)
Kept-plain (c ∷ d ∷ ds) h =
    Kept-cons c (d ∷ ds) (plain-hash c (first_plain c (d ∷ ds) h))
      (Kept-plain (d ∷ ds) (rest_plain c (d ∷ ds) h))

Kept-join :
    (tok : List ℕ) (toks : List (List ℕ))
    → IsPlain tok
    → All IsPlain toks
    → Kept (join_from tok toks)
unfolding join_from
Kept-join tok [] h k = Kept-plain tok h
Kept-join tok (next ∷ toks) h k =
    Kept-append tok (b',' ∷ b' ' ∷ join_from next toks) (plain-all tok h) (
      Kept-cons b',' (b' ' ∷ join_from next toks) refl
        (Kept-cons b' ' (join_from next toks) refl (Kept-join next toks k.0 k.1)))

-- The first pass keeps a text as a statement.
abbrev pub IsStmt : List ℕ → Type 0
IsStmt t = (is_cons t ≡ true) × (clean t ≡ t) × (strip t ≡ t) × (without_last b':' t ≡ none)

lstrip-plain : (t : List ℕ) (rest : List ℕ) → IsPlain t → lstrip (t ++ rest) ≡ t ++ rest
unfolding plain lstrip
lstrip-plain [] rest h = absurd (cc h)
lstrip-plain (c ∷ cs) rest h = rw (plain-space c (first_plain c cs h), lstrip) refl

Kept-IsStmt : (t rest : List ℕ) → IsPlain t → Kept (t ++ rest) → IsStmt (t ++ rest)
unfolding clean strip
Kept-IsStmt t rest h (k0, k1, k2, k3) =
    let stripped : strip (t ++ rest) ≡ t ++ rest = ap lstrip k1 ∙ lstrip-plain t rest h in
    (k0, ap strip k2 ∙ stripped, stripped, k3)

pub line-IsStmt :
    (mn tok : List ℕ) (toks : List (List ℕ))
    → IsPlain mn
    → IsPlain tok
    → All IsPlain toks
    → IsStmt (line mn tok toks)
unfolding line
line-IsStmt mn tok toks hm h k = Kept-IsStmt mn (b' ' ∷ join_from tok toks) hm (
    Kept-append mn (b' ' ∷ join_from tok toks) (plain-all mn hm)
      (Kept-cons b' ' (join_from tok toks) refl (Kept-join tok toks h k)))
