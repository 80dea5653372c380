-- ===== src/Iss/Valid/Dispatch.antt =====
-- sim/tools/iss.py, well-formedness under `ISS.step`: the branches that access memory, SYSTEM, the
-- floats, and the step as a whole.
use rv32im_5_stage_pipelined.Base.{
  ℕ, ◌+◌, ◌==◌, if◌then◌else◌, Bool, true, false, field, test_bit, not, ltb, ◌||◌, ◌&&◌, Option,
  none, some,
}
use rv32im_5_stage_pipelined.Base.Int.{ℤ, pos}
use rv32im_5_stage_pipelined.Iss.State.{
  Iss, Result, Error, ok, ◌>>=◌, uxlen, priv_m, priv_u, wr, set_pc, set_freg,
}
use rv32im_5_stage_pipelined.Iss.Csr.{csr_satp}
use rv32im_5_stage_pipelined.Iss.Memory.{load_word, store_loop}
use rv32im_5_stage_pipelined.Iss.Mmu.{Access, translate}
use rv32im_5_stage_pipelined.Iss.Fields.{opcode_of, rd_of, rs1_of, rs2_of, funct3_of, funct7_of}
use rv32im_5_stage_pipelined.Iss.Step.{
  next_pc, reg_a, reg_b, op_fp, advance, access, load_value, step_load, step_store, ecall_cause,
  step_csr, step_privileged, step_system, write_float, write_int, step_flw, step_fsw, step_op_fp,
  step_madd, dispatch, step,
}
use rv32im_5_stage_pipelined.Float.Compare.{f_class}
use rv32im_5_stage_pipelined.Iss.Word.{s32, u32}
use rv32im_5_stage_pipelined.Iss.Mmu.{or_fault, translate_sv32, translate_sv39, fault_cause}
use rv32im_5_stage_pipelined.Iss.Valid.{
  IsValid, wr-IsValid, set_pc-IsValid, trap-IsValid, mret-IsValid, sret-IsValid, csr_write-IsValid,
  set_freg-IsValid, set_fflags-IsValid, store_loop-IsValid,
}
use rv32im_5_stage_pipelined.Iss.Valid.Step.{
  Keeps, kept, crashed, bind-Keeps, either, store_value-Keeps, step_r-Keeps, step_32-Keeps,
  step_ctz-Keeps, step_imm-Keeps, step_imm_32-Keeps, step_branch-Keeps, step_jal-Keeps,
  step_jalr-Keeps, step_lui-Keeps, step_auipc-Keeps,
}

or_fault-IsValid :
    (r : Option ℕ) (vaddr : ℕ) (kind : Access) (s : Iss)
    → IsValid s
    → IsValid (or_fault r vaddr kind s).1
unfolding or_fault
or_fault-IsValid (some pa) vaddr kind s h = h
or_fault-IsValid none vaddr kind s h = trap-IsValid (fault_cause kind) vaddr s h

pick :
    (b : Bool) (x y : Option ℕ × Iss) → IsValid x.1 → IsValid y.1 → IsValid (if b then x else y).1
pick true x y hx hy = hx
pick false x y hx hy = hy

pub translate-IsValid :
    (vaddr : ℕ) (kind : Access) (s : Iss) → IsValid s → IsValid (translate vaddr kind s).1
unfolding translate translate_sv32 translate_sv39
translate-IsValid vaddr kind s h = pick (s.priv_mode == priv_m) _ _ h (
    pick (s.xlen == 32) _ _
      (pick (not (test_bit (s.csr csr_satp) 31)) _ _ h (or_fault-IsValid _ _ kind s h))
      (pick (not (field (s.csr csr_satp) 60 4 == 8)) _ _ h (or_fault-IsValid _ vaddr kind s h)))

-- The body runs only where the address translates.
access-Keeps :
    (vaddr : ℤ) (kind : Access) (body : ℕ → Iss → Result Iss) (s : Iss)
    → ((addr : ℕ) (s' : Iss) → IsValid s' → Keeps (body addr s'))
    → IsValid s
    → Keeps (access vaddr kind body s)
unfolding access
access-Keeps vaddr kind body s hb h =
    after (translate (uxlen s vaddr) kind s) (translate-IsValid (uxlen s vaddr) kind s h)
  where
    after :
        (r : Option ℕ × Iss)
        → IsValid r.1
        → Keeps (elim r.0 [ none ↦ ok r.1 | some addr ↦ body addr r.1 ])
    after (none, s') h' = kept h'
    after (some addr, s') h' = hb addr s' h'

step_load-Keeps : (word : ℕ) (s : Iss) → IsValid s → Keeps (step_load word s)
unfolding step_load
step_load-Keeps word s h =
    access-Keeps _ Access.load _ s
      (λ addr s' h'.
        bind-Keeps (load_value (funct3_of word) addr s') _
          (λ res. kept (set_pc-IsValid (next_pc s) _ (wr-IsValid (rd_of word) res s' h'))))
      h

step_store-Keeps : (word : ℕ) (s : Iss) → IsValid s → Keeps (step_store word s)
unfolding step_store
step_store-Keeps word s h =
    access-Keeps _ Access.store _ s
      (λ addr s' h'.
        then_set_pc (next_pc s) (store_value-Keeps (funct3_of word) addr (reg_b word s) s' h'))
      h
  where
    then_set_pc : (pc' : ℕ) {r : Result Iss} → Keeps r → Keeps (r >>= λ s''. ok (set_pc pc' s''))
    then_set_pc pc' (kept h') = kept (set_pc-IsValid pc' _ h')
    then_set_pc pc' crashed = crashed

step_flw-Keeps : (word : ℕ) (s : Iss) → IsValid s → Keeps (step_flw word s)
unfolding step_flw
step_flw-Keeps word s h =
    access-Keeps _ Access.load
      (λ addr s'. ok (set_pc (next_pc s) (set_freg (rd_of word) (load_word addr s') s'))) s
      (λ addr s' h'.
        kept
          (set_pc-IsValid (next_pc s) _ (set_freg-IsValid (rd_of word) (load_word addr s') s' h')))
      h

step_fsw-Keeps : (word : ℕ) (s : Iss) → IsValid s → Keeps (step_fsw word s)
unfolding step_fsw
step_fsw-Keeps word s h =
    let b = s.fregs (rs2_of word) in
    access-Keeps _ Access.store (λ addr s'. ok (set_pc (next_pc s) (store_loop 4 0 addr b s'))) s
      (λ addr s' h'. kept (set_pc-IsValid (next_pc s) _ (store_loop-IsValid 4 0 addr b s' h'))) h

step_csr-Keeps : (word : ℕ) (s : Iss) → IsValid s → Keeps (step_csr word s)
unfolding step_csr
step_csr-Keeps word s h =
    either (ltb s.priv_mode (field (field word 20 12) 8 2)) (kept (trap-IsValid 2 0 s h)) (
      kept (
        set_pc-IsValid (s.pc + 4) _
          (wr-IsValid (rd_of word) _ _ (csr_write-IsValid (field word 20 12) _ s h))))

step_privileged-Keeps : (word : ℕ) (s : Iss) → IsValid s → Keeps (step_privileged word s)
unfolding step_privileged
step_privileged-Keeps word s h =
    let illegal = kept (trap-IsValid 2 0 s h) in
    either (funct7_of word == 0b0001001)
      (either (s.priv_mode == priv_u) illegal (kept (set_pc-IsValid (s.pc + 4) s h)))
      (either (field word 20 12 == 0)
        (bind-Keeps (ecall_cause s.priv_mode) _ (λ cause. kept (trap-IsValid cause 0 s h)))
        (either (field word 20 12 == 1) (kept (trap-IsValid 3 0 s h)) (
          either (field word 20 12 == 0x302)
            (either (not (s.priv_mode == priv_m)) illegal (kept (mret-IsValid s h)))
            (either (field word 20 12 == 0x102)
              (either (s.priv_mode == priv_u) illegal (kept (sret-IsValid s h))) illegal))))

step_system-Keeps : (word : ℕ) (s : Iss) → IsValid s → Keeps (step_system word s)
unfolding step_system
step_system-Keeps word s h =
    either (funct3_of word == 0) (step_privileged-Keeps word s h) (step_csr-Keeps word s h)

write_float-IsValid : (rd : ℕ) (r : ℕ × ℕ) (s : Iss) → IsValid s → IsValid (write_float rd r s)
unfolding write_float
write_float-IsValid rd (res, flags) s h =
    set_fflags-IsValid flags (set_freg rd res s) (set_freg-IsValid rd res s h)

write_int-IsValid : (rd : ℕ) (r : ℕ × ℕ) (s : Iss) → IsValid s → IsValid (write_int rd r s)
unfolding write_int
write_int-IsValid rd (res, flags) s h =
    set_fflags-IsValid flags (wr rd (pos res) s) (wr-IsValid rd (pos res) s h)

op_fp-Keeps : (word : ℕ) (s : Iss) → IsValid s → Keeps (op_fp word s)
unfolding op_fp
op_fp-Keeps word s h =
    let fa = s.fregs (rs1_of word) in
    let is : ℕ → Bool = λ code. field word 27 5 == code in
    let float : (r : ℕ × ℕ) → Keeps (ok (write_float (rd_of word) r s)) =
      λ r. kept (write_float-IsValid (rd_of word) r s h) in
    let int : (r : ℕ × ℕ) → Keeps (ok (write_int (rd_of word) r s)) =
      λ r. kept (write_int-IsValid (rd_of word) r s h) in
    either (is 0b00000) (float _) (
      either (is 0b00001) (float _) (
        either (is 0b00010) (float _) (
          either (is 0b00011) (float _) (
            either (is 0b01011) (float _) (
              either (is 0b00100) (kept (set_freg-IsValid (rd_of word) _ s h)) (
                either (is 0b00101) (float _) (
                  either (is 0b10100) (int _) (
                    either (is 0b11000) (int _) (
                      either (is 0b11010) (float _) (
                        either (is 0b11100)
                          (either (funct3_of word == 1)
                            (kept (wr-IsValid (rd_of word) (pos (f_class fa)) s h))
                            (kept (wr-IsValid (rd_of word) (s32 (pos fa)) s h)))
                          (either (is 0b11110)
                            (kept (set_freg-IsValid (rd_of word) (u32 (pos (reg_a word s))) s h))
                            (crashed {e = Error.unknown_op_fp (field word 27 5)}))))))))))))

step_op_fp-Keeps : (word : ℕ) (s : Iss) → IsValid s → Keeps (step_op_fp word s)
unfolding step_op_fp
step_op_fp-Keeps word s h = then_advance (next_pc s) (op_fp-Keeps word s h)
  where
    then_advance : (pc' : ℕ) {r : Result Iss} → Keeps r → Keeps (advance pc' r)
    then_advance pc' (kept h') = kept (set_pc-IsValid pc' _ h')
    then_advance pc' crashed = crashed

step_madd-Keeps : (word : ℕ) (s : Iss) → IsValid s → Keeps (step_madd word s)
unfolding step_madd
step_madd-Keeps word s h =
    kept (set_pc-IsValid (next_pc s) _ (write_float-IsValid (rd_of word) _ s h))

dispatch-Keeps : (word : ℕ) (s : Iss) → IsValid s → Keeps (dispatch word s)
unfolding dispatch
dispatch-Keeps word s h =
    let is : ℕ → Bool = λ code. opcode_of word == code in
    either (is 0b0110011) (step_r-Keeps word s h) (
      either (is 0b0111011) (step_32-Keeps word s h) (
        either (is 0b0101010) (step_ctz-Keeps word s h) (
          either (is 0b0010011) (step_imm-Keeps word s h) (
            either (is 0b0011011) (step_imm_32-Keeps word s h) (
              either (is 0b0000011) (step_load-Keeps word s h) (
                either (is 0b0100011) (step_store-Keeps word s h) (
                  either (is 0b1100011) (step_branch-Keeps word s h) (
                    either (is 0b1101111) (step_jal-Keeps word s h) (
                      either (is 0b1100111) (step_jalr-Keeps word s h) (
                        either (is 0b0110111) (step_lui-Keeps word s h) (
                          either (is 0b0010111) (step_auipc-Keeps word s h) (
                            either (is 0b1110011) (step_system-Keeps word s h) (
                              either (is 0b0000111) (step_flw-Keeps word s h) (
                                either (is 0b0100111) (step_fsw-Keeps word s h) (
                                  either (is 0b1010011) (step_op_fp-Keeps word s h) (
                                    either
                                      (is 0b1000011 || is 0b1000111 || is 0b1001011 || is 0b1001111)
                                      (step_madd-Keeps word s h)
                                      (either (is 0b0001111 && funct3_of word == 0)
                                        (kept (set_pc-IsValid (next_pc s) s h))
                                        (kept (trap-IsValid 2 0 s h)))))))))))))))))))

-- From a well-formed state, a step of any word raises an exception or leaves a well-formed state:
-- x0 reads 0, and the registers, the bytes of memory, the float flags, the rounding mode and the
-- privilege mode are within their widths.
pub step-Keeps : (word : ℕ) (s : Iss) → IsValid s → Keeps (step word s)
unfolding step
step-Keeps word s h =
    either (word == 0) (kept (set_pc-IsValid (s.pc + 4) s h)) (dispatch-Keeps word s h)
