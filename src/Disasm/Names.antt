-- ===== src/Disasm/Names.antt =====
-- sim/tools/disasm.py, the opcodes, the tables of names, and the helpers `rm_name`, `sext` and
-- `csr_name`.
use Prim.Native.String.{String}
use rv32im_5_stage_pipelined.Base.{
  ℕ, ◌-◌, ◌^◌, true, false, Option, none, some, List, [], ◌∷◌, ◌==◌, test_bit, if◌then◌else◌,
}
use rv32im_5_stage_pipelined.Base.Int.{ℤ, pos, low_bits, ◌-ℤ◌}
use rv32im_5_stage_pipelined.Base.Show.{◌<>◌, decimal, hex, padded}

abbrev pub opcode_r : ℕ
opcode_r = 0b0110011

abbrev pub opcode_i : ℕ
opcode_i = 0b0010011

abbrev pub opcode_load : ℕ
opcode_load = 0b0000011

abbrev pub opcode_store : ℕ
opcode_store = 0b0100011

abbrev pub opcode_branch : ℕ
opcode_branch = 0b1100011

abbrev pub opcode_jal : ℕ
opcode_jal = 0b1101111

abbrev pub opcode_jalr : ℕ
opcode_jalr = 0b1100111

abbrev pub opcode_lui : ℕ
opcode_lui = 0b0110111

abbrev pub opcode_auipc : ℕ
opcode_auipc = 0b0010111

abbrev pub opcode_custom : ℕ
opcode_custom = 0b0101010

abbrev pub opcode_system : ℕ
opcode_system = 0b1110011

abbrev pub opcode_op_32 : ℕ
opcode_op_32 = 0b0111011

abbrev pub opcode_op_imm_32 : ℕ
opcode_op_imm_32 = 0b0011011

abbrev pub opcode_fp : ℕ
opcode_fp = 0b1010011

abbrev pub opcode_load_fp : ℕ
opcode_load_fp = 0b0000111

abbrev pub opcode_store_fp : ℕ
opcode_store_fp = 0b0100111

-- `table.get(key)`
abbrev pub get? : List (ℕ × String) → ℕ → Option String
get? [] key = none
get? ((k, name) ∷ table) key = elim (key == k) [ true ↦ some name | false ↦ get? table key ]

-- `table.get(key, otherwise)`
abbrev pub get : List (ℕ × String) → ℕ → String → String
get table key otherwise = elim (get? table key) [ none ↦ otherwise | some name ↦ name ]

abbrev pub madd_names : List (ℕ × String)
madd_names =
    (0b1000011, "fmadd.s")
    ∷ (0b1000111, "fmsub.s")
    ∷ (0b1001011, "fnmsub.s")
    ∷ (0b1001111, "fnmadd.s")
    ∷ []

abbrev pub rm_names : List (ℕ × String)
rm_names =
    (0b000, "rne")
    ∷ (0b001, "rtz")
    ∷ (0b010, "rdn")
    ∷ (0b011, "rup")
    ∷ (0b100, "rmm")
    ∷ (0b111, "dyn")
    ∷ []

abbrev pub csr_names : List (ℕ × String)
csr_names =
    (0x300, "mstatus")
    ∷ (0x305, "mtvec")
    ∷ (0x340, "mscratch")
    ∷ (0x341, "mepc")
    ∷ (0x342, "mcause")
    ∷ (0x001, "fflags")
    ∷ (0x002, "frm")
    ∷ (0x003, "fcsr")
    ∷ []

unfoldable pub rm_name : ℕ → String
rm_name rm = get rm_names rm ("rm?" <> decimal rm)

unfoldable pub csr_name : ℕ → String
csr_name addr = get csr_names addr ("0x" <> padded 3 (hex addr))

unfoldable pub sext : ℕ → ℕ → ℤ
unfolding ◌-ℤ◌
sext v bits =
    let m = low_bits bits (pos v) in
    if test_bit m (bits - 1) then pos m -ℤ pos (2 ^ bits) else pos m

abbrev pub xreg : ℕ → String
xreg n = "x" <> decimal n

abbrev pub freg : ℕ → String
freg n = "f" <> decimal n

-- `{mn} {a},{b},{c}`
abbrev pub line3 : String → String → String → String → String
line3 mn a b c = mn <> " " <> a <> "," <> b <> "," <> c

-- `{mn} {a},{b}`
abbrev pub line2 : String → String → String → String
line2 mn a b = mn <> " " <> a <> "," <> b

-- `{mn} {a},{offset}(x{base})`
abbrev pub line_at : String → String → String → ℕ → String
line_at mn a offset base = mn <> " " <> a <> "," <> offset <> "(x" <> decimal base <> ")"
