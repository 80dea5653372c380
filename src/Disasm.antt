-- ===== src/Disasm.antt =====
-- sim/tools/disasm.py: `disasm`, from the word of an instruction to its line.
mod Names
mod Integer
mod Floats
pub mod Print
use Prim.Native.String.{String}
use rv32im_5_stage_pipelined.Base.{ℕ, ◌%◌, ◌^◌, none, some, ◌==◌, field, if◌then◌else◌}
use rv32im_5_stage_pipelined.Base.Show.{◌<>◌, hex, padded, signed_decimal, with_sign}
use rv32im_5_stage_pipelined.Disasm.Names.{
  opcode_r, opcode_i, opcode_load, opcode_store, opcode_branch, opcode_jal, opcode_jalr, opcode_lui,
  opcode_auipc, opcode_custom, opcode_system, opcode_op_32, opcode_op_imm_32, opcode_fp,
  opcode_load_fp, opcode_store_fp, get?, madd_names, xreg, freg, line2, line_at,
}
use rv32im_5_stage_pipelined.Disasm.Integer.{
  imm_i, imm_s, op_line, op_imm_line, op_32_line, op_imm_32_line, load_line, store_line,
  branch_line, jal_offset, upper_line, system_line,
}
use rv32im_5_stage_pipelined.Disasm.Floats.{madd_line, fp_line}

-- The tests on the opcode, in their order.
unfoldable pub disasm_op : ℕ → ℕ → ℕ → String
unfolding op_line op_imm_line op_32_line op_imm_32_line load_line store_line branch_line jal_offset
disasm_op op word xlen =
    let rd = field word 7 5 in
    let f3 = field word 12 3 in
    let rs1 = field word 15 5 in
    let rs2 = field word 20 5 in
    let f7 = field word 25 7 in
    if op == opcode_r
    then op_line f7 f3 rd rs1 rs2
    else if op == opcode_i
    then op_imm_line xlen word f7 f3 rd rs1
    else if op == opcode_op_32
    then op_32_line f7 f3 rd rs1 rs2
    else if op == opcode_op_imm_32
    then op_imm_32_line word f7 f3 rd rs1
    else if op == opcode_load
    then load_line word f3 rd rs1
    else if op == opcode_store
    then store_line word f3 rs1 rs2
    else if op == opcode_branch
    then branch_line word f3 rs1 rs2
    else if op == opcode_jal
    then line2 "jal" (xreg rd) (with_sign (jal_offset word))
    else if op == opcode_jalr
    then line_at "jalr" (xreg rd) (signed_decimal (imm_i word)) rs1
    else if op == opcode_lui
    then upper_line "lui" word rd
    else if op == opcode_auipc
    then upper_line "auipc" word rd
    else if op == opcode_custom
    then line2 "ctz" (xreg rd) (xreg rs1)
    else if op == opcode_system
    then system_line (field word 20 12) f3 rd rs1
    else if op == opcode_load_fp
    then line_at "flw" (freg rd) (signed_decimal (imm_i word)) rs1
    else if op == opcode_store_fp
    then line_at "fsw" (freg rs2) (signed_decimal (imm_s word)) rs1
    else elim (get? madd_names op) [
      | some mn ↦ madd_line mn rd rs1 rs2 (field word 27 5) f3
      | none ↦
          if op == opcode_fp
          then fp_line (field word 27 5) f3 rd rs1 rs2
          else "0x" <> padded 8 (hex word) <> "?"
    ]

unfoldable pub disasm : ℕ → ℕ → String
unfolding disasm_op
disasm word xlen =
    if word == 0x00000013
    then "nop"
    else if word == 0
    then "—"
    else disasm_op (word % 2 ^ 7) word xlen
