-- ===== src/Iss/Step/Floats.antt =====
-- sim/tools/iss.py, the RV32F branches of `ISS.step`.
use rv32im_5_stage_pipelined.Base.{ℕ, true, false, ◌==◌, field, test_bit, if◌then◌else◌}
use rv32im_5_stage_pipelined.Base.Int.{pos, ◌+ℤ◌}
use rv32im_5_stage_pipelined.Iss.Word.{u32, s32}
use rv32im_5_stage_pipelined.Iss.State.{
  Iss, Error, Result, ok, raised, wr, set_pc, set_freg, set_fflags, resolve_rm,
}
use rv32im_5_stage_pipelined.Iss.Memory.{load_word, store_loop}
use rv32im_5_stage_pipelined.Iss.Mmu.{Access}
use rv32im_5_stage_pipelined.Iss.Fields.{
  opcode_of, rd_of, funct3_of, rs1_of, rs2_of, rs3_of, imm_i_of, imm_s_of,
}
use rv32im_5_stage_pipelined.Iss.Step.Integer.{access, next_pc, reg_a}
use rv32im_5_stage_pipelined.Float.Arith.{f_add, f_mul, f_div, f_sqrt, f_madd}
use rv32im_5_stage_pipelined.Float.Compare.{f_sgnj, f_minmax, f_cmp, f_class}
use rv32im_5_stage_pipelined.Float.Convert.{f_cvt_to_int, f_cvt_from_int}

unfoldable pub step_flw : ℕ → Iss → Result Iss
unfolding access ◌+ℤ◌
step_flw word s =
    access (pos (reg_a word s) +ℤ imm_i_of word) Access.load
      (λ addr s'. ok (set_pc (next_pc s) (set_freg (rd_of word) (load_word addr s') s'))) s

unfoldable pub step_fsw : ℕ → Iss → Result Iss
unfolding access ◌+ℤ◌
step_fsw word s =
    access (pos (reg_a word s) +ℤ imm_s_of word) Access.store
      (λ addr s'. ok (set_pc (next_pc s) (store_loop 4 0 addr (s.fregs (rs2_of word)) s'))) s

-- A result and its flags, into the float file or into the integer file.
unfoldable pub write_float : ℕ → ℕ × ℕ → Iss → Iss
unfolding set_fflags
write_float rd (res, flags) s = set_fflags flags (set_freg rd res s)

unfoldable pub write_int : ℕ → ℕ × ℕ → Iss → Iss
unfolding set_fflags wr
write_int rd (res, flags) s = set_fflags flags (wr rd (pos res) s)

-- The state with its results written, by funct5.
unfoldable pub op_fp : ℕ → Iss → Result Iss
unfolding write_float write_int wr resolve_rm
op_fp word s =
    let funct5 = field word 27 5 in
    let f3 = funct3_of word in
    let rd = rd_of word in
    let rm = resolve_rm f3 s in
    let fa = s.fregs (rs1_of word) in
    let fb = s.fregs (rs2_of word) in
    let unsigned = rs2_of word == 1 in
    if funct5 == 0b00000
    then ok (write_float rd (f_add fa fb rm false) s)
    else if funct5 == 0b00001
    then ok (write_float rd (f_add fa fb rm true) s)
    else if funct5 == 0b00010
    then ok (write_float rd (f_mul fa fb rm) s)
    else if funct5 == 0b00011
    then ok (write_float rd (f_div fa fb rm) s)
    else if funct5 == 0b01011
    then ok (write_float rd (f_sqrt fa rm) s)
    else if funct5 == 0b00100
    then ok (set_freg rd (f_sgnj fa fb f3).0 s)
    else if funct5 == 0b00101
    then ok (write_float rd (f_minmax fa fb f3) s)
    else if funct5 == 0b10100
    then ok (write_int rd (f_cmp fa fb f3) s)
    else if funct5 == 0b11000
    then ok (write_int rd (f_cvt_to_int fa rm unsigned) s)
    else if funct5 == 0b11010
    then ok (write_float rd (f_cvt_from_int (u32 (pos (reg_a word s))) rm unsigned) s)
    else if funct5 == 0b11100
    then if f3 == 1 then ok (wr rd (pos (f_class fa)) s) else ok (wr rd (s32 (pos fa)) s)
    else if funct5 == 0b11110
    then ok (set_freg rd (u32 (pos (reg_a word s))) s)
    else raised (Error.unknown_op_fp funct5)

abbrev pub advance : ℕ → Result Iss → Result Iss
advance pc' (ok s) = ok (set_pc pc' s)
advance pc' (raised e) = raised e

unfoldable pub step_op_fp : ℕ → Iss → Result Iss
unfolding op_fp
step_op_fp word s = advance (next_pc s) (op_fp word s)

-- The digits 3 and 2 of the opcode negate the product and the addend.
unfoldable pub step_madd : ℕ → Iss → Result Iss
unfolding write_float resolve_rm
step_madd word s =
    let rm = resolve_rm (funct3_of word) s in
    let neg_prod = test_bit (opcode_of word) 3 in
    let neg_addend = test_bit (opcode_of word) 2 in
    let result =
      f_madd (s.fregs (rs1_of word)) (s.fregs (rs2_of word)) (s.fregs (rs3_of word)) rm neg_prod
        neg_addend in
    ok (set_pc (next_pc s) (write_float (rd_of word) result s))
