-- ===== src/Elf.antt =====
-- sim/tools/elf2mem.py: the memory images of an ELF file. objcopy, objdump and nm are other programs:
-- what they print is a parameter. Not modelled: an address that they print with a sign.
pub mod Placed
pub mod Hex
pub mod Listed
pub mod Symbols
pub mod Sections
pub mod Images
use Prim.Native.String
use rv32im_5_stage_pipelined.Base.{
  ℕ, zero, suc, ◌+◌, ◌-◌, Bool, true, false, Option, none, some, List, [], ◌∷◌, ◌++◌, ◌==◌, ◌||◌,
  ltb, if◌then◌else◌,
}
use rv32im_5_stage_pipelined.Base.Lists.{length}
use rv32im_5_stage_pipelined.Asm.Text.{codes, same, is_space, strip, digits_from, after_prefix}
use rv32im_5_stage_pipelined.Dtb.Bytes.{take, drop, zero_bytes}

pub data Error : Type 0 where
  runtime_error value_error assertion_error : Error

pub data Result {ℓ} (T : Type ℓ) : Type ℓ where
  raised : Error → Result T
  ok : T → Result T

abbrev pub or_raised {ℓ} : {T : Type ℓ} → Error → Option T → Result T
or_raised error none = raised error
or_raised error (some value) = ok value

infixl 5 ◌>>=◌
abbrev pub ◌>>=◌ {ℓ κ} : {S : Type ℓ} {T : Type κ} → Result S → (S → Result T) → Result T
raised error >>= next = raised error
ok value >>= next = next value

-- The bytes that objcopy extracts for a section, and the lines that `objdump -h` and nm print;
-- `none` where the program fails.
pub record Tools : Type 0 where
  pub objcopy : List ℕ → Option (List ℕ)
  pub objdump : Option (List (List ℕ))
  pub nm : Option (List (List ℕ))

abbrev end_word : List ℕ → List (List ℕ) → List (List ℕ)
end_word [] rest = rest
end_word (c ∷ cs) rest = (c ∷ cs) ∷ rest

-- `cs.split()`, the last field begun.
unfoldable pub split_words : List ℕ → List ℕ → List (List ℕ)
unfolding is_space
split_words begun [] = end_word begun []
split_words begun (c ∷ cs) = elim (is_space c) [
  | true ↦ end_word begun (split_words [] cs)
  | false ↦ split_words (begun ++ (c ∷ [])) cs
]

abbrev pub prefixed_hex : List ℕ → Option ℕ
prefixed_hex [] = none
prefixed_hex (c ∷ []) = digits_from 16 false 0 (c ∷ [])
prefixed_hex (c ∷ d ∷ cs) =
    if c == b'0'
    then if d == b'x' || d == b'X' then after_prefix 16 cs else digits_from 16 false 0 (c ∷ d ∷ cs)
    else digits_from 16 false 0 (c ∷ d ∷ cs)

-- `int(cs, 16)`
unfoldable pub hex_int : List ℕ → Result ℕ
unfolding strip digits_from after_prefix
hex_int cs = or_raised value_error (prefixed_hex (strip cs))

unfoldable pub extract_raw : Tools → List ℕ → Result (List ℕ)
extract_raw tools section = or_raised runtime_error (tools.objcopy section)

unfoldable pub extract_all : Tools → List (List ℕ) → Result (List ℕ)
unfolding extract_raw
extract_all tools [] = ok []
extract_all tools (section ∷ sections) = do
  raw ← extract_raw tools section
  rest ← extract_all tools sections
  ok (raw ++ rest)

unfoldable pub extract_binary : Tools → List (List ℕ) → ℕ → Result (List ℕ)
unfolding extract_all zero_bytes
extract_binary tools sections size = do
  data_ ← extract_all tools sections
  if ltb size (length data_)
      then raised value_error
      else ok (data_ ++ zero_bytes (size - length data_))

-- The fourth field of a line whose second is the section.
unfoldable pub vma_field : List ℕ → List (List ℕ) → Option (List ℕ)
vma_field section (idx ∷ name ∷ size ∷ vma ∷ rest) = if same name section then some vma else none
vma_field section _ = none

unfoldable pub section_in : List ℕ → List (List ℕ) → Result (Option ℕ)
unfolding vma_field split_words hex_int
section_in section [] = ok none
section_in section (line ∷ lines) = elim (vma_field section (split_words [] line)) [
  | none ↦ section_in section lines
  | some vma ↦ (hex_int vma >>= λ n. ok (some n))
]

unfoldable pub get_section_vma : Tools → List ℕ → Result (Option ℕ)
unfolding section_in
get_section_vma tools section =
    or_raised runtime_error tools.objdump >>= λ lines. section_in section lines

abbrev pub last_field : List ℕ → List (List ℕ) → List ℕ
last_field part [] = part
last_field part (next ∷ parts) = last_field next parts

-- The first field of a line of three or more whose last is the name.
unfoldable pub symbol_field : List ℕ → List (List ℕ) → Option (List ℕ)
symbol_field name (addr ∷ kind ∷ part ∷ parts) =
    if same (last_field part parts) name then some addr else none
symbol_field name _ = none

unfoldable pub symbol_in : List ℕ → List (List ℕ) → Result ℕ
unfolding symbol_field split_words hex_int
symbol_in name [] = raised value_error
symbol_in name (line ∷ lines) = elim (symbol_field name (split_words [] line)) [
  | none ↦ symbol_in name lines
  | some addr ↦ hex_int addr
]

unfoldable pub get_symbol : Tools → List ℕ → Result ℕ
unfolding symbol_in
get_symbol tools name = or_raised runtime_error tools.nm >>= λ lines. symbol_in name lines

-- Reverses each group of four bytes.
unfoldable pub swap_instruction_words : List ℕ → Result (List ℕ)
swap_instruction_words [] = ok []
swap_instruction_words (b0 ∷ b1 ∷ b2 ∷ b3 ∷ bytes) = do
  rest ← swap_instruction_words bytes
  ok (b3 ∷ b2 ∷ b1 ∷ b0 ∷ rest)
swap_instruction_words _ = raised assertion_error

-- `image[off:off + len(blob)] = blob`
unfoldable pub put_at : List ℕ → ℕ → List ℕ → List ℕ
unfolding take drop
put_at image off blob = take off image ++ (blob ++ drop (off + length blob) image)

unfoldable pub put_within : ℕ → ℕ → List ℕ → List ℕ → Result (List ℕ)
unfolding put_at
put_within size off blob image =
    if ltb size (off + length blob) then raised value_error else ok (put_at image off blob)

unfoldable pub put_section : Tools → ℕ → List ℕ → List ℕ → List ℕ → Result (List ℕ)
unfolding get_section_vma put_within
put_section tools size section [] image = ok image
put_section tools size section (b ∷ bs) image = do
  found ← get_section_vma tools section
  vma ← or_raised value_error found
  put_within size vma (b ∷ bs) image

-- The loop over the sections of the instruction memory.
unfoldable pub put_sections : Tools → ℕ → List (List ℕ) → List ℕ → Result (List ℕ)
unfolding extract_raw put_section
put_sections tools size [] image = ok image
put_sections tools size (section ∷ sections) image = do
  raw ← extract_raw tools section
  image' ← put_section tools size section raw image
  put_sections tools size sections image'

-- `get_symbol(...) if blob else 0`
unfoldable pub start_of : Tools → List ℕ → List ℕ → Result ℕ
unfolding get_symbol
start_of tools name [] = ok 0
start_of tools name (b ∷ bs) = get_symbol tools name

-- The data memory.
unfoldable pub data_image : Tools → ℕ → Result (List ℕ)
unfolding extract_raw start_of put_within zero_bytes
data_image tools size = do
  rodata_raw ← extract_raw tools (codes ".rodata")
  data_raw ← extract_raw tools (codes ".data")
  rodata_off ← start_of tools (codes "_rodata_start") rodata_raw
  data_off ← start_of tools (codes "_data_start") data_raw
  image ← put_within size rodata_off rodata_raw (zero_bytes size)
  put_within size data_off data_raw image

-- The two images that `main` writes.
unfoldable pub images : Tools → List (List ℕ) → ℕ → ℕ → Result (List ℕ × List ℕ)
unfolding put_sections data_image zero_bytes
images tools sections imem_size dmem_size = do
  imem ← put_sections tools imem_size sections (zero_bytes imem_size)
  dmem ← data_image tools dmem_size
  ok (imem, dmem)
