-- ===== src/Asm/Text.antt =====
-- What sim/tools/asm.py does with text. A text is the list of its codes, which are ASCII: the
-- operations are Python's `str.strip`, `str.lower`, `int(s, 0)`, `re.split` and `re.match` there.
-- Not modelled: the limit of 4300 digits of `int` for decimal texts.
pub mod Same
use Prim.Native.Char.{code}
use Prim.Native.String.{String}
use rv32im_5_stage_pipelined.Base.{
  ℕ, ◌+◌, ◌-◌, ◌*◌, Bool, true, false, Option, none, some, List, [], ◌∷◌, ◌++◌, ◌==◌, ◌&&◌, ◌||◌,
  leb, ltb, if◌then◌else◌,
}
use rv32im_5_stage_pipelined.Base.Int.{ℤ, pos, -ℤ◌}

abbrev pub codes : String → List ℕ
codes String.[] = []
codes (String.◌∷◌ c s) = code c ∷ codes s

abbrev pub same : List ℕ → List ℕ → Bool
same [] [] = true
same [] (b ∷ bs) = false
same (a ∷ as') [] = false
same (a ∷ as') (b ∷ bs) = a == b && same as' bs

-- `str.isspace`, which is also `\s`
unfoldable pub is_space : ℕ → Bool
is_space c = leb 9 c && leb c 13 || leb 28 c && leb c 32

unfoldable pub is_digit : ℕ → Bool
is_digit c = leb b'0' c && leb c b'9'

unfoldable pub is_lower : ℕ → Bool
is_lower c = leb b'a' c && leb c b'z'

unfoldable pub is_upper : ℕ → Bool
is_upper c = leb b'A' c && leb c b'Z'

-- `\w`
unfoldable pub is_word : ℕ → Bool
unfolding is_digit is_lower is_upper
is_word c = is_digit c || is_lower c || is_upper c || c == b'_'

unfoldable pub lower : List ℕ → List ℕ
unfolding is_upper
lower [] = []
lower (c ∷ cs) = (if is_upper c then c + 32 else c) ∷ lower cs

unfoldable pub lstrip : List ℕ → List ℕ
unfolding is_space
lstrip [] = []
lstrip (c ∷ cs) = elim (is_space c) [ true ↦ lstrip cs | false ↦ c ∷ cs ]

-- `cs.rstrip()`: a space is kept in front of what is kept.
unfoldable pub rstrip : List ℕ → List ℕ
unfolding is_space
rstrip [] = []
rstrip (c ∷ cs) = elim (rstrip cs) [ [] ↦ if is_space c then [] else c ∷ [] | d ∷ ds ↦ c ∷ d ∷ ds ]

unfoldable pub strip : List ℕ → List ℕ
unfolding lstrip rstrip
strip cs = lstrip (rstrip cs)

-- `cs.split(mark, 1)[0]`
unfoldable pub before : ℕ → List ℕ → List ℕ
before mark [] = []
before mark (c ∷ cs) = elim (c == mark) [ true ↦ [] | false ↦ c ∷ before mark cs ]

-- `cs[:-1]` where `cs` ends with the mark.
unfoldable pub without_last : ℕ → List ℕ → Option (List ℕ)
without_last mark [] = none
without_last mark (c ∷ []) = if c == mark then some [] else none
without_last mark (c ∷ d ∷ cs) = elim (without_last mark (d ∷ cs)) [
  | none ↦ none
  | some rest ↦ some (c ∷ rest)
]

-- `[,\s]`
unfoldable pub is_separator : ℕ → Bool
unfolding is_space
is_separator c = c == b',' || is_space c

-- The fields of `re.split(r"[,\s]+", cs)`, the last one begun; `in_run` is inside a run of separators.
unfoldable pub split_from : Bool → List ℕ → List ℕ → List (List ℕ)
unfolding is_separator
split_from in_run begun [] = begun ∷ []
split_from in_run begun (c ∷ cs) = elim (is_separator c) [
  | false ↦ split_from false (begun ++ (c ∷ [])) cs
  | true ↦ elim in_run [ true ↦ split_from true begun cs | false ↦ begun ∷ split_from true [] cs ]
]

unfoldable pub split_fields : List ℕ → List (List ℕ)
unfolding split_from
split_fields cs = split_from false [] cs

-- The value of a character as a digit; 36 where it is none.
unfoldable pub digit_value : ℕ → ℕ
unfolding is_digit is_lower is_upper
digit_value c =
    if is_digit c
    then c - b'0'
    else if is_lower c
    then c - b'a' + 10
    else if is_upper c
    then c - b'A' + 10
    else 36

-- Digits with single underscores between them; the last character was a digit if `closed`.
unfoldable pub digits_from : ℕ → Bool → ℕ → List ℕ → Option ℕ
unfolding digit_value
digits_from base closed n [] = if closed then some n else none
digits_from base closed n (c ∷ cs) = elim (c == b'_') [
  | true ↦ elim closed [ true ↦ digits_from base false n cs | false ↦ none ]
  | false ↦ elim (ltb (digit_value c) base) [
    | true ↦ digits_from base true (n * base + digit_value c) cs
    | false ↦ none
  ]
]

-- Behind a prefix such as `0x` one underscore may stand.
unfoldable pub after_prefix : ℕ → List ℕ → Option ℕ
unfolding digits_from
after_prefix base [] = none
after_prefix base (c ∷ cs) =
    if c == b'_' then digits_from base false 0 cs else digits_from base false 0 (c ∷ cs)

-- Decimal digits that begin with 0 have the value 0.
unfoldable pub zero_only : Option ℕ → Option ℕ
zero_only none = none
zero_only (some n) = if n == 0 then some 0 else none

unfoldable pub after_zero : List ℕ → Option ℕ
unfolding after_prefix digits_from zero_only
after_zero [] = some 0
after_zero (c ∷ cs) =
    if c == b'x' || c == b'X'
    then after_prefix 16 cs
    else if c == b'o' || c == b'O'
    then after_prefix 8 cs
    else if c == b'b' || c == b'B'
    then after_prefix 2 cs
    else zero_only (digits_from 10 true 0 (c ∷ cs))

unfoldable pub unsigned_int : List ℕ → Option ℕ
unfolding after_zero digits_from
unsigned_int [] = none
unsigned_int (c ∷ cs) = if c == b'0' then after_zero cs else digits_from 10 false 0 (c ∷ cs)

abbrev positive : Option ℕ → Option ℤ
positive none = none
positive (some n) = some (pos n)

abbrev negative : Option ℕ → Option ℤ
negative none = none
negative (some n) = some (-ℤ◌ (pos n))

unfoldable pub signed_int : List ℕ → Option ℤ
unfolding unsigned_int
signed_int [] = none
signed_int (c ∷ cs) =
    if c == b'-'
    then negative (unsigned_int cs)
    else if c == b'+'
    then positive (unsigned_int cs)
    else positive (unsigned_int (c ∷ cs))

-- `int(cs, 0)`, where `none` is the `ValueError`.
unfoldable pub int_of : List ℕ → Option ℤ
unfolding strip signed_int
int_of cs = signed_int (strip cs)

-- `\d+` at the start, its value, and the rest.
unfoldable pub number_at : ℕ → List ℕ → ℕ × List ℕ
unfolding is_digit
number_at n [] = (n, [])
number_at n (c ∷ cs) = elim (is_digit c) [
  | true ↦ number_at (n * 10 + (c - b'0')) cs
  | false ↦ (n, c ∷ cs)
]

-- `\w+` at the start, and the rest.
unfoldable pub word_at : List ℕ → List ℕ × List ℕ
unfolding is_word
word_at [] = ([], [])
word_at (c ∷ cs) = elim (is_word c) [
  | true ↦ (c ∷ (word_at cs).0, (word_at cs).1)
  | false ↦ ([], c ∷ cs)
]
