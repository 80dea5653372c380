-- ===== src/RandomGen/Constants.antt =====
-- sim/tools/random_gen.py: the instructions that build a constant.
pub mod Values
use Prim.Native.String
use rv32im_5_stage_pipelined.Base.{
  ℕ, Bool, ◌+◌, ◌-◌, ◌*◌, ◌/◌, ◌%◌, ◌^◌, List, [], ◌∷◌, ◌++◌, ◌==◌, ltb, ◌>>>◌, ◌<<<◌, bit_or,
  if◌then◌else◌,
}
use rv32im_5_stage_pipelined.Base.Int.{ℤ, pos, ◌-ℤ◌, low_bits}
use rv32im_5_stage_pipelined.Asm.Text.{codes}
use rv32im_5_stage_pipelined.RandomGen.Lines.{x_reg, int_text, hex_text, line}

-- The lower 12 digits, and the upper 20 that `lui` is given.
unfoldable pub low_part : ℕ → ℕ
low_part bits32 = bits32 % 2 ^ 12

unfoldable pub high_part : ℕ → ℕ
unfolding low_part
high_part bits32 =
    let hi = (bits32 >>> 12) % 2 ^ 20 in
    if ltb (low_part bits32) 0x800 then hi else (hi + 1) % 2 ^ 20

unfoldable pub low_signed : ℕ → ℤ
unfolding low_part ◌-ℤ◌
low_signed bits32 =
    if ltb (low_part bits32) 0x800
    then pos (low_part bits32)
    else pos (low_part bits32) -ℤ pos 0x1000

unfoldable pub const_to_reg_instrs : ℕ → ℕ → List (List ℕ)
unfolding low_part high_part low_signed x_reg int_text hex_text line
const_to_reg_instrs rd bits32 =
    line (codes "lui") (x_reg rd) (hex_text (high_part bits32) ∷ [])
    ∷ (if low_part bits32 == 0
        then []
        else line (codes "addi") (x_reg rd) (x_reg rd ∷ int_text (low_signed bits32) ∷ []) ∷ [])

abbrev shift_line : List ℕ → ℕ → List ℕ
shift_line mn rd = line mn (x_reg rd) (x_reg rd ∷ codes "32" ∷ [])

unfoldable pub const64_to_reg_instrs : ℕ → ℕ → ℕ → List (List ℕ)
unfolding const_to_reg_instrs x_reg line
const64_to_reg_instrs rd rd_scratch bits64 =
    const_to_reg_instrs rd ((bits64 >>> 32) % 2 ^ 32)
    ++ (shift_line (codes "slli") rd
        ∷ (const_to_reg_instrs rd_scratch (bits64 % 2 ^ 32)
            ++ (shift_line (codes "slli") rd_scratch
                ∷ shift_line (codes "srli") rd_scratch
                ∷ line (codes "or") (x_reg rd) (x_reg rd ∷ x_reg rd_scratch ∷ [])
                ∷ [])))

abbrev sext32 : ℕ → ℤ
sext32 v =
    if ltb (v % 2 ^ 32) 0x80000000 then pos (v % 2 ^ 32) else pos (v % 2 ^ 32) -ℤ pos (2 ^ 32)

-- Whether the assertion of `_self_check_const64` holds.
unfoldable pub self_check_const64 : ℕ → Bool
unfolding ◌-ℤ◌
self_check_const64 bits64 =
    let hi32 = (bits64 >>> 32) % 2 ^ 32 in
    let lo32 = bits64 % 2 ^ 32 in
    let rd = (low_bits 64 (sext32 hi32) <<< 32) % 2 ^ 64 in
    let scratch = (low_bits 64 (sext32 lo32) <<< 32) % 2 ^ 64 in
    bit_or rd (scratch >>> 32) % 2 ^ 64 == bits64 % 2 ^ 64
