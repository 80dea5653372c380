-- ===== src/Dtb/Builder.antt =====
-- sim/tools/gen_dtb.py, `class FdtBuilder`. `none` is the exception of an operation: a character that
-- is not ASCII, or a number of more than 32 digits where a word is packed.
use Prim.Native.String.{String}
use text.Mathlib.Text
use rv32im_5_stage_pipelined.Base.{ℕ, ◌+◌, Option, none, some, true, false, List, [], ◌∷◌, ◌++◌}
use rv32im_5_stage_pipelined.Base.Int.{ℤ, low_bits}
use rv32im_5_stage_pipelined.Base.Lists.{length}
use rv32im_5_stage_pipelined.Dtb.Bytes.{◌>>=◌, be32, pack32, be64, align4, encode}

abbrev pub fdt_magic : ℕ
fdt_magic = 0xd00dfeed

abbrev pub fdt_version : ℕ
fdt_version = 17

abbrev pub fdt_last_comp_version : ℕ
fdt_last_comp_version = 16

abbrev pub fdt_begin_node : ℕ
fdt_begin_node = 0x1

abbrev pub fdt_end_node : ℕ
fdt_end_node = 0x2

abbrev pub fdt_prop : ℕ
fdt_prop = 0x3

abbrev pub fdt_end : ℕ
fdt_end = 0x9

pub record FdtBuilder : Type 0 where
  pub tree : List ℕ
  pub strings : List ℕ
  pub string_offsets : List (String × ℕ)

abbrev pub new : FdtBuilder
new = record { tree = []; strings = []; string_offsets = [] }

abbrev pub get_offset : List (String × ℕ) → String → Option ℕ
get_offset [] name = none
get_offset ((key, off) ∷ rest) name = elim (Text.◌==◌ key name) [
  | true ↦ some off
  | false ↦ get_offset rest name
]

unfoldable pub string_off : String → FdtBuilder → Option (ℕ × FdtBuilder)
string_off name b = elim (get_offset b.string_offsets name) [
  | some off ↦ some (off, b)
  | none ↦ do
    bytes ← encode name
    some (
      length b.strings,
      record b {
        strings = b.strings ++ bytes ++ (0 ∷ []);
        string_offsets = (name, length b.strings) ∷ b.string_offsets;
      },
    )
]

unfoldable pub begin_node : String → FdtBuilder → Option FdtBuilder
unfolding align4
begin_node name b = do
  bytes ← encode name
  some (record b { tree = b.tree ++ be32 fdt_begin_node ++ align4 (bytes ++ (0 ∷ [])) })

unfoldable pub end_node : FdtBuilder → FdtBuilder
end_node b = record b { tree = b.tree ++ be32 fdt_end_node }

unfoldable pub prop_raw : String → List ℕ → FdtBuilder → Option FdtBuilder
unfolding string_off pack32 align4
prop_raw name value b = do
  (off, named) ← string_off name b
  len_word ← pack32 (length value)
  off_word ← pack32 off
  some (record named { tree = named.tree ++ be32 fdt_prop ++ len_word ++ off_word ++ align4 value })

unfoldable pub prop_empty : String → FdtBuilder → Option FdtBuilder
unfolding prop_raw
prop_empty name b = prop_raw name [] b

unfoldable pub prop_u32 : String → ℤ → FdtBuilder → Option FdtBuilder
unfolding prop_raw
prop_u32 name val b = prop_raw name (be32 (low_bits 32 val)) b

unfoldable pub prop_u64 : String → ℤ → FdtBuilder → Option FdtBuilder
unfolding prop_raw be64
prop_u64 name val b = prop_raw name (be64 (low_bits 64 val)) b

unfoldable pub cells_bytes : List ℤ → List ℕ
cells_bytes [] = []
cells_bytes (c ∷ cells) = be32 (low_bits 32 c) ++ cells_bytes cells

unfoldable pub prop_cells : String → List ℤ → FdtBuilder → Option FdtBuilder
unfolding prop_raw cells_bytes
prop_cells name cells b = prop_raw name (cells_bytes cells) b

unfoldable pub prop_str : String → String → FdtBuilder → Option FdtBuilder
unfolding prop_raw encode
prop_str name val b = do bytes ← encode val; prop_raw name (bytes ++ (0 ∷ [])) b

unfoldable pub strlist_bytes : List String → Option (List ℕ)
unfolding encode
strlist_bytes [] = some []
strlist_bytes (v ∷ vals) = do
  bytes ← encode v
  rest ← strlist_bytes vals
  some (bytes ++ (0 ∷ []) ++ rest)

unfoldable pub prop_strlist : String → List String → FdtBuilder → Option FdtBuilder
unfolding prop_raw strlist_bytes
prop_strlist name vals b = do bytes ← strlist_bytes vals; prop_raw name bytes b

-- `struct.pack(">10I", ...)`
unfoldable pub header : ℕ → ℕ → ℕ → ℕ → ℕ → Option (List ℕ)
unfolding pack32
header totalsize off_dt_struct off_dt_strings size_strings size_struct = do
  a ← pack32 totalsize
  b ← pack32 off_dt_struct
  c ← pack32 off_dt_strings
  d ← pack32 size_strings
  e ← pack32 size_struct
  some (
      be32 fdt_magic
      ++ a
      ++ b
      ++ c
      ++ be32 40
      ++ be32 fdt_version
      ++ be32 fdt_last_comp_version
      ++ be32 0
      ++ d
      ++ e)

-- `build`, with the final token already in the tree.
unfoldable pub assemble : FdtBuilder → Option (List ℕ)
unfolding header be64
assemble b =
    let rsvmap = be64 0 ++ be64 0 in
    let off_mem_rsvmap : ℕ = 40 in
    let off_dt_struct = off_mem_rsvmap + length rsvmap in
    let off_dt_strings = off_dt_struct + length b.tree in
    let totalsize = off_dt_strings + length b.strings in
    do
      head ← header totalsize off_dt_struct off_dt_strings (length b.strings) (length b.tree)
      some (head ++ rsvmap ++ b.tree ++ b.strings)

abbrev pub ended : FdtBuilder → FdtBuilder
ended b = record b { tree = b.tree ++ be32 fdt_end }

-- The blob and the builder that `build` leaves.
unfoldable pub build : FdtBuilder → Option (List ℕ × FdtBuilder)
unfolding assemble
build b = do blob ← assemble (ended b); some (blob, ended b)
