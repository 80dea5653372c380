-- ===== src/Iss/Step.antt =====
-- sim/tools/iss.py, `ISS.step`: one handler for each opcode. A handler gets the word and the state,
-- and moves the pc itself, as the branches of `step` do.
mod Integer
mod System
mod Floats
unfoldable pub use Integer.{
  next_pc, reg_a, reg_b, retire, access, step_r, step_32, step_ctz, step_imm, step_imm_32,
  load_value, step_load, store_value, step_store, step_branch, step_jal, step_jalr, step_lui,
  step_auipc,
}
unfoldable pub use System.{ecall_cause, csr_result, step_csr, step_privileged, step_system}
unfoldable pub use Floats.{
  write_float, write_int, step_flw, step_fsw, op_fp, advance, step_op_fp, step_madd,
}
use rv32im_5_stage_pipelined.Base.{ℕ, ◌+◌, ◌%◌, ◌^◌, ◌==◌, ◌&&◌, ◌||◌, field, if◌then◌else◌}
use rv32im_5_stage_pipelined.Iss.State.{Iss, Result, ok, set_pc}
use rv32im_5_stage_pipelined.Iss.Trap.{trap}
use rv32im_5_stage_pipelined.Iss.Fields.{opcode_of, funct3_of}

-- The opcode's branch. A word that fits none is an illegal instruction.
unfoldable pub dispatch : ℕ → Iss → Result Iss
dispatch word s =
    let op = opcode_of word in
    if op == 0b0110011
    then step_r word s
    else if op == 0b0111011
    then step_32 word s
    else if op == 0b0101010
    then step_ctz word s
    else if op == 0b0010011
    then step_imm word s
    else if op == 0b0011011
    then step_imm_32 word s
    else if op == 0b0000011
    then step_load word s
    else if op == 0b0100011
    then step_store word s
    else if op == 0b1100011
    then step_branch word s
    else if op == 0b1101111
    then step_jal word s
    else if op == 0b1100111
    then step_jalr word s
    else if op == 0b0110111
    then step_lui word s
    else if op == 0b0010111
    then step_auipc word s
    else if op == 0b1110011
    then step_system word s
    else if op == 0b0000111
    then step_flw word s
    else if op == 0b0100111
    then step_fsw word s
    else if op == 0b1010011
    then step_op_fp word s
    else if op == 0b1000011 || op == 0b1000111 || op == 0b1001011 || op == 0b1001111
    then step_madd word s
    else if op == 0b0001111 && funct3_of word == 0
    then ok (set_pc (next_pc s) s)
    else ok (trap 2 0 s)

unfoldable pub step : ℕ → Iss → Result Iss
step word s = if word == 0 then ok (set_pc (s.pc + 4) s) else dispatch word s
