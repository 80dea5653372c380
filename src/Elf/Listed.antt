-- ===== src/Elf/Listed.antt =====
-- sim/tools/elf2mem.py, `get_section_vma` and `get_symbol`: what they read in the printed lines.
use rv32im_5_stage_pipelined.Base.{
  ℕ, ◌≡◌, refl, ap, ◌∙◌, arith, Bool, true, false, Option, none, some, List, [], ◌∷◌, if◌then◌else◌,
}
use rv32im_5_stage_pipelined.Asm.Text.{same}
use rv32im_5_stage_pipelined.Asm.Text.Same.{same_refl, same-eq}
use rv32im_5_stage_pipelined.Elf.Hex.{IsNumber, hex_int-IsNumber}
use rv32im_5_stage_pipelined.Elf.{
  Tools, Error, runtime_error, Result, ok, raised, ◌>>=◌, or_raised, split_words, hex_int,
  vma_field, section_in, get_section_vma,
}

pub >>=-ok :
    {S T : Type 0} (first : Result S) (next : S → Result T) {result : T}
    → first >>= next ≡ ok result
    → (value : S) × (first ≡ ok value) × (next value ≡ ok result)
>>=-ok (raised error) next e = absurd (cc e)
>>=-ok (ok value) next e = (value, refl, e)

pub or_raised-ok :
    {T : Type 0} (error : Error) (o : Option T) (value : T)
    → or_raised error o ≡ ok value
    → o ≡ some value
or_raised-ok error none value e = absurd (cc e)
or_raised-ok error (some v) value e = ground arith

-- The fields of a line, of which at least four, name the section in the second.
abbrev pub IsOf : List ℕ → List (List ℕ) → Type 0
IsOf section (idx ∷ name ∷ size ∷ vma ∷ rest) = name ≡ section
IsOf section _ = ⊥

-- The first such line of a text has this fourth field.
pub data FirstOf (section vma : List ℕ) : List (List ℕ) → Type 0 where
  at_line :
      (line idx size : List ℕ) (rest lines : List (List ℕ))
      → split_words [] line ≡ idx ∷ section ∷ size ∷ vma ∷ rest
      → FirstOf section vma (line ∷ lines)
  behind :
      (line : List ℕ) (lines : List (List ℕ))
      → ¬ IsOf section (split_words [] line)
      → FirstOf section vma lines
      → FirstOf section vma (line ∷ lines)

vma_field-none :
    (section : List ℕ) (fields : List (List ℕ))
    → vma_field section fields ≡ none
    → ¬ IsOf section fields
unfolding vma_field
vma_field-none section [] e h = h
vma_field-none section (a ∷ []) e h = h
vma_field-none section (a ∷ b ∷ []) e h = h
vma_field-none section (a ∷ b ∷ c ∷ []) e h = h
vma_field-none section (idx ∷ name ∷ size ∷ vma ∷ rest) e h =
    let found : same name section ≡ true =
      ap (λ (r : List ℕ). same r section) h ∙ same_refl section in
    ground (arith, e, found)

vma_field-some :
    (section field : List ℕ) (fields : List (List ℕ))
    → vma_field section fields ≡ some field
    → (idx size : List ℕ) × (rest : List (List ℕ)) × (fields ≡ idx ∷ section ∷ size ∷ field ∷ rest)
unfolding vma_field
vma_field-some section field [] e = absurd (cc e)
vma_field-some section field (a ∷ []) e = absurd (cc e)
vma_field-some section field (a ∷ b ∷ []) e = absurd (cc e)
vma_field-some section field (a ∷ b ∷ c ∷ []) e = absurd (cc e)
vma_field-some section field (idx ∷ name ∷ size ∷ vma ∷ rest) e = by_name (same name section) refl e
  where
    by_name :
        (b : Bool)
        → same name section ≡ b
        → ◌≡◌ {A = Option (List ℕ)} (if b then some vma else none) (some field)
        → (idx' size' : List ℕ) × (rest' : List (List ℕ)) × (idx ∷ name ∷ size ∷ vma ∷ rest
            ≡ idx' ∷ section ∷ size' ∷ field ∷ rest')
    by_name false q e' = absurd (cc e')
    by_name true q e' = (idx, size, rest, cc (same-eq name section q, e'))

section_in-FirstOf :
    (section : List ℕ) (lines : List (List ℕ)) (off : ℕ)
    → section_in section lines ≡ ok (some off)
    → (vma : List ℕ) × FirstOf section vma lines × (hex_int vma ≡ ok off)
unfolding section_in
section_in-FirstOf section [] off e = absurd (cc e)
section_in-FirstOf section (line ∷ lines) off e =
    by_field (section_in-FirstOf section lines off) (vma_field section (split_words [] line)) refl e
  where
    by_field :
        (section_in section lines ≡ ok (some off)
          → (vma : List ℕ) × FirstOf section vma lines × (hex_int vma ≡ ok off))
        → (o : Option (List ℕ)) → vma_field section (split_words [] line) ≡ o
        → ◌≡◌ {A = Result (Option ℕ)}
            (elim o [
              | none ↦ section_in section lines
              | some vma ↦ (hex_int vma >>= λ n. ok (some n))
            ])
            (ok (some off))
        → (vma : List ℕ) × FirstOf section vma (line ∷ lines) × (hex_int vma ≡ ok off)
    by_field later none q e' =
        let (vma, first, value) = later e' in
        (
          vma,
          FirstOf.behind line lines (vma_field-none section (split_words [] line) q) first,
          value,
        )
    by_field later (some vma) q e' =
        let (idx, size, rest, split) = vma_field-some section vma (split_words [] line) q in
        let (n, value, same_n) = >>=-ok (hex_int vma) (λ n. ok (some n)) e' in
        let at : n ≡ off = ground arith in
        (vma, FirstOf.at_line line idx size rest lines split, value ∙ ap ok at)

-- objdump lists the section at this address: it is the number, to base 16, of the fourth field of the
-- first line that names the section in the second of at least four fields.
pub record Listed (tools : Tools) (section : List ℕ) (off : ℕ) : Type 0 where
  pub lines : List (List ℕ)
  pub vma : List ℕ
  pub printed : tools.objdump ≡ some lines
  pub first : FirstOf section vma lines
  pub value : IsNumber vma off

pub get_section_vma-Listed :
    (tools : Tools) (section : List ℕ) (off : ℕ)
    → get_section_vma tools section ≡ ok (some off)
    → Listed tools section off
unfolding get_section_vma
get_section_vma-Listed tools section off e =
    let (lines, printed, e1) =
      >>=-ok (or_raised runtime_error tools.objdump) (section_in section) e in
    let (vma, first, value) = section_in-FirstOf section lines off e1 in
    record {
      lines = lines;
      vma = vma;
      printed = or_raised-ok runtime_error tools.objdump lines printed;
      first = first;
      value = hex_int-IsNumber vma off value;
    }
