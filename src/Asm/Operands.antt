-- ===== src/Asm/Operands.antt =====
-- sim/tools/asm.py: the operands of a line as text. An operand that is not there is an `IndexError`,
-- and an address that does not match is an `AttributeError`, since `re.match` returns None.
use rv32im_5_stage_pipelined.Base.{
  ℕ, true, false, Option, none, some, List, [], ◌∷◌, ◌++◌, ◌==◌, leb, if◌then◌else◌,
}
use rv32im_5_stage_pipelined.Base.Lists.{get_elem?}
use rv32im_5_stage_pipelined.Base.Int.{ℤ, low_bits}
use rv32im_5_stage_pipelined.Asm.Text.{is_digit, lower, strip, int_of, number_at, word_at}
use rv32im_5_stage_pipelined.Asm.Table.{find, csr_table, rm_table}

-- What a line raises.
pub data Error : Type 0 where
  value_error index_error attribute_error : Error

-- What the operations on a line return.
pub data Result {ℓ} (T : Type ℓ) : Type ℓ where
  raised : Error → Result T
  ok : T → Result T

abbrev pub or_value_error {ℓ} : {T : Type ℓ} → Option T → Result T
or_value_error (some value) = ok value
or_value_error none = raised value_error

-- An exception ends the `do` block.
abbrev pub ◌>>=◌ {ℓ κ} : {S : Type ℓ} {T : Type κ} → Result S → (S → Result T) → Result T
raised error >>= next = raised error
ok value >>= next = next value

infixl 5 ◌>>=◌
-- `args[k]`
unfoldable pub arg : List (List ℕ) → ℕ → Result (List ℕ)
arg args k = elim (get_elem? args k) [ none ↦ raised index_error | some tok ↦ ok tok ]

-- `^x(\d+)$` with the letter given, and the range.
unfoldable pub register : ℕ → List ℕ → Result ℕ
unfolding number_at is_digit
register letter [] = raised value_error
register letter (c ∷ []) = raised value_error
register letter (c ∷ d ∷ cs) = elim (c == letter) [
  | false ↦ raised value_error
  | true ↦ elim (is_digit d) [
    | false ↦ raised value_error
    | true ↦ elim (number_at 0 (d ∷ cs)).1 [
      | [] ↦
          if leb (number_at 0 (d ∷ cs)).0 31
          then ok (number_at 0 (d ∷ cs)).0
          else raised value_error
      | e ∷ es ↦ raised value_error
    ]
  ]
]

unfoldable pub reg : List ℕ → Result ℕ
unfolding register strip
reg tok = register b'x' (strip tok)

unfoldable pub freg : List ℕ → Result ℕ
unfolding register strip
freg tok = register b'f' (strip tok)

unfoldable pub number : List ℕ → Result ℤ
unfolding int_of
number tok = or_value_error (int_of tok)

-- `(-?\w+)\((x\d+)\)` at the start: the offset and the register's number, which has digits.
pub record Address : Type 0 where
  pub offset : List ℕ
  pub base : ℕ

abbrev closed_at : ℕ × List ℕ → Option ℕ
closed_at (n, []) = none
closed_at (n, c ∷ cs) = if c == b')' then some n else none

unfoldable pub base_at : List ℕ → Option ℕ
unfolding number_at is_digit
base_at (open_mark ∷ x ∷ d ∷ cs) =
    if open_mark == b'('
    then if x == b'x' then if is_digit d then closed_at (number_at 0 (d ∷ cs)) else none else none
    else none
base_at _ = none

abbrev with_base : List ℕ → Option ℕ → Option Address
with_base offset none = none
with_base offset (some n) = some (record { offset = offset; base = n })

abbrev word_address : List ℕ → List ℕ × List ℕ → Option Address
word_address sign ([], rest) = none
word_address sign (c ∷ cs, rest) = with_base (sign ++ (c ∷ cs)) (base_at rest)

unfoldable pub address_of : List ℕ → Option Address
unfolding word_at base_at
address_of [] = none
address_of (c ∷ cs) =
    if c == b'-' then word_address (b'-' ∷ []) (word_at cs) else word_address [] (word_at (c ∷ cs))

unfoldable pub address : List ℕ → Result Address
unfolding address_of
address tok = elim (address_of tok) [ none ↦ raised attribute_error | some m ↦ ok m ]

-- `reg(m.group(2))`
unfoldable pub base_register : Address → Result ℕ
base_register m = if leb m.base 31 then ok m.base else raised value_error

unfoldable pub csr_lookup : List ℕ → Result ℕ
unfolding number
csr_lookup csr = elim (find csr_table csr) [
  | some addr ↦ ok addr
  | none ↦ (number csr >>= λ v. ok (low_bits 12 v))
]

abbrev rm_named : List ℕ → Result ℕ
rm_named [] = ok 0b111
rm_named (c ∷ cs) = or_value_error (find rm_table (lower (c ∷ cs)))

unfoldable pub parse_rm : List (List ℕ) → ℕ → Result ℕ
unfolding lower strip
parse_rm args idx = elim (get_elem? args idx) [ none ↦ ok 0b111 | some tok ↦ rm_named (strip tok) ]
