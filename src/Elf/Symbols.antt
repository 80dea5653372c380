-- ===== src/Elf/Symbols.antt =====
-- sim/tools/elf2mem.py, `get_symbol`: what it reads in the lines that nm prints.
use rv32im_5_stage_pipelined.Base.{
  ℕ, ◌≡◌, refl, ap, ◌∙◌, arith, Bool, true, false, Option, none, some, List, [], ◌∷◌, ◌++◌,
  if◌then◌else◌,
}
use rv32im_5_stage_pipelined.Asm.Text.{same}
use rv32im_5_stage_pipelined.Asm.Text.Same.{same_refl, same-eq}
use rv32im_5_stage_pipelined.Elf.Hex.{IsNumber, hex_int-IsNumber}
use rv32im_5_stage_pipelined.Elf.{
  Tools, runtime_error, Result, ok, or_raised, split_words, hex_int, last_field, symbol_field,
  symbol_in, get_symbol,
}
use rv32im_5_stage_pipelined.Elf.Listed.{>>=-ok, or_raised-ok}

-- Three fields at least, of which the first is the address and the last is the name.
abbrev pub IsSymbol : List ℕ → List ℕ → List (List ℕ) → Type 0
IsSymbol name addr fields =
    (kind : List ℕ) × (mid : List (List ℕ)) × (fields ≡ addr ∷ kind ∷ (mid ++ (name ∷ [])))

-- The first such line of a text has this first field.
pub data FirstSymbol (name addr : List ℕ) : List (List ℕ) → Type 0 where
  at_line :
      (line : List ℕ) (lines : List (List ℕ))
      → IsSymbol name addr (split_words [] line)
      → FirstSymbol name addr (line ∷ lines)
  behind :
      (line : List ℕ) (lines : List (List ℕ))
      → ((other : List ℕ) → ¬ IsSymbol name other (split_words [] line))
      → FirstSymbol name addr lines
      → FirstSymbol name addr (line ∷ lines)

last_field-append :
    (part : List ℕ) (parts : List (List ℕ))
    → (mid : List (List ℕ)) × (part ∷ parts ≡ mid ++ (last_field part parts ∷ []))
last_field-append part [] = ([], refl)
last_field-append part (next ∷ parts) =
    let (mid, e) = last_field-append next parts in
    (part ∷ mid, ap (λ (l : List (List ℕ)). part ∷ l) e)

abbrev last_of : List (List ℕ) → List ℕ
last_of [] = []
last_of (part ∷ parts) = last_field part parts

last_of-append : (mid : List (List ℕ)) (name : List ℕ) → last_of (mid ++ (name ∷ [])) ≡ name
last_of-append [] name = refl
last_of-append (part ∷ []) name = refl
last_of-append (part ∷ next ∷ mid) name = last_of-append (next ∷ mid) name

rest_of : List (List ℕ) → List (List ℕ)
rest_of [] = []
rest_of (a ∷ []) = []
rest_of (a ∷ b ∷ rest) = rest

symbol_field-none :
    (name other : List ℕ) (fields : List (List ℕ))
    → symbol_field name fields ≡ none
    → ¬ IsSymbol name other fields
unfolding symbol_field rest_of
symbol_field-none name other [] e (kind, mid, q) = absurd (cc q)
symbol_field-none name other (a ∷ []) e (kind, mid, q) = absurd (cc q)
symbol_field-none name other (a ∷ b ∷ []) e (kind, mid, q) = absurd (by_mid mid (ap rest_of q))
  where
    by_mid : (mid' : List (List ℕ)) → [] ≡ mid' ++ (name ∷ []) → ⊥
    by_mid [] r = absurd (cc r)
    by_mid (m ∷ ms) r = absurd (cc r)
symbol_field-none name other (a ∷ b ∷ part ∷ parts) e (kind, mid, q) =
    let last : last_field part parts ≡ name = ap last_of (ap rest_of q) ∙ last_of-append mid name in
    let found : same (last_field part parts) name ≡ true =
      ap (λ (t : List ℕ). same t name) last ∙ same_refl name in
    ground (arith, e, found)

symbol_field-some :
    (name addr : List ℕ) (fields : List (List ℕ))
    → symbol_field name fields ≡ some addr
    → IsSymbol name addr fields
unfolding symbol_field
symbol_field-some name addr [] e = absurd (cc e)
symbol_field-some name addr (a ∷ []) e = absurd (cc e)
symbol_field-some name addr (a ∷ b ∷ []) e = absurd (cc e)
symbol_field-some name addr (a ∷ b ∷ part ∷ parts) e =
    by_last (same (last_field part parts) name) refl e
  where
    by_last :
        (t : Bool)
        → same (last_field part parts) name ≡ t
        → ◌≡◌ {A = Option (List ℕ)} (if t then some a else none) (some addr)
        → IsSymbol name addr (a ∷ b ∷ part ∷ parts)
    by_last false q e' = absurd (cc e')
    by_last true q e' =
        let (mid, whole) = last_field-append part parts in
        let named : last_field part parts ≡ name = same-eq (last_field part parts) name q in
        (b, mid, cc (whole, named, e'))

symbol_in-FirstSymbol :
    (name : List ℕ) (lines : List (List ℕ)) (off : ℕ)
    → symbol_in name lines ≡ ok off
    → (addr : List ℕ) × FirstSymbol name addr lines × (hex_int addr ≡ ok off)
unfolding symbol_in
symbol_in-FirstSymbol name [] off e = absurd (cc e)
symbol_in-FirstSymbol name (line ∷ lines) off e =
    by_field (symbol_in-FirstSymbol name lines off) (symbol_field name (split_words [] line)) refl e
  where
    by_field :
        (symbol_in name lines ≡ ok off
          → (addr : List ℕ) × FirstSymbol name addr lines × (hex_int addr ≡ ok off))
        → (o : Option (List ℕ)) → symbol_field name (split_words [] line) ≡ o
        → ◌≡◌ {A = Result ℕ}
            (elim o [ none ↦ symbol_in name lines | some addr ↦ hex_int addr ])
            (ok off)
        → (addr : List ℕ) × FirstSymbol name addr (line ∷ lines) × (hex_int addr ≡ ok off)
    by_field later none q e' =
        let (addr, first, value) = later e' in
        (
          addr,
          FirstSymbol.behind line lines
              (λ other. symbol_field-none name other (split_words [] line) q) first,
          value,
        )
    by_field later (some addr) q e' = (
      addr,
      FirstSymbol.at_line line lines (symbol_field-some name addr (split_words [] line) q),
      e',
    )

-- nm prints the symbol at this address: it is the number, to base 16, of the first field of the first
-- line of at least three fields whose last is the name.
pub record Printed (tools : Tools) (name : List ℕ) (off : ℕ) : Type 0 where
  pub lines : List (List ℕ)
  pub addr : List ℕ
  pub printed : tools.nm ≡ some lines
  pub first : FirstSymbol name addr lines
  pub value : IsNumber addr off

pub get_symbol-Printed :
    (tools : Tools) (name : List ℕ) (off : ℕ)
    → get_symbol tools name ≡ ok off
    → Printed tools name off
unfolding get_symbol
get_symbol-Printed tools name off e =
    let (lines, printed, e1) = >>=-ok (or_raised runtime_error tools.nm) (symbol_in name) e in
    let (addr, first, value) = symbol_in-FirstSymbol name lines off e1 in
    record {
      lines = lines;
      addr = addr;
      printed = or_raised-ok runtime_error tools.nm lines printed;
      first = first;
      value = hex_int-IsNumber addr off value;
    }
