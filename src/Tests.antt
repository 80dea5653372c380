-- ===== src/Tests.antt =====
-- The theorems at concrete states, words and operands.
mod Programs
mod Tools
use rv32im_5_stage_pipelined.Base.{
  ℕ, ◌+◌, ◌-◌, ◌%◌, ◌^◌, ◌<◌, ◌≡◌, ◌↔◌, ◌⊎◌, refl, arith, true, none, some, List, [], ◌∷◌, ◌==◌,
  if◌then◌else◌, digit, leb,
}
use rv32im_5_stage_pipelined.Base.Lists.{get_elem?}
use rv32im_5_stage_pipelined.Base.Int.{pos, negsuc, low_bits}
use rv32im_5_stage_pipelined.Iss.State.{Iss, Error, raised, new}
use rv32im_5_stage_pipelined.Iss.Csr.{
  csr_mstatus, csr_satp, csr_medeleg, csr_sstatus, csr_read, csr_write,
}
use rv32im_5_stage_pipelined.Iss.Csr.Views.{csr_write-sstatus}
use rv32im_5_stage_pipelined.Iss.Trap.{
  trap, delegated, mret, sret, m_trap_status, s_trap_status, mret_status, sret_status,
}
use rv32im_5_stage_pipelined.Iss.Trap.Status.{
  digit-m_trap_status, digit-s_trap_status, digit-mret_status, digit-sret_status,
}
use rv32im_5_stage_pipelined.Iss.Trap.Return.{
  IsResumed, IsTrapped, mret-trap, sret-trap, trap-IsTrapped,
}
use rv32im_5_stage_pipelined.Iss.Memory.{
  mmio_base, load_mem_byte, store_mem_byte, load_word, store_loop,
}
use rv32im_5_stage_pipelined.Iss.Memory.Bytes.{load-store_mem_byte, load_word-store_loop}
use rv32im_5_stage_pipelined.Iss.Mmu.{Access, fault_cause, pte_perm_ok, walk_sv32, translate}
use rv32im_5_stage_pipelined.Iss.Mmu.Walk.{
  IsPermitted, Maps32, pte_perm_ok-IsPermitted, walk_sv32-Maps32, translate-Maps32,
}
use rv32im_5_stage_pipelined.Iss.Alu.{ctz}
use rv32im_5_stage_pipelined.Iss.Alu.Ctz.{IsFirst, ctz-IsFirst}
use rv32im_5_stage_pipelined.Iss.Fields.{
  opcode_of, rd_of, funct3_of, rs1_of, rs2_of, rs3_of, funct7_of, imm_i_of, imm_s_of, imm_b_of,
  imm_j_of,
}
use rv32im_5_stage_pipelined.Iss.Step.{step}
use rv32im_5_stage_pipelined.Iss.Run.{out_of_fuel, run}
use rv32im_5_stage_pipelined.Iss.Run.Hazards.{IsStuck, step-mret-reserved, run-IsStuck}
use rv32im_5_stage_pipelined.Iss.Valid.{new-IsValid}
use rv32im_5_stage_pipelined.Iss.Valid.Step.{Keeps}
use rv32im_5_stage_pipelined.Iss.Valid.Dispatch.{step-Keeps}
use rv32im_5_stage_pipelined.Iss.Valid.Run.{Ends, run-Ends}
use rv32im_5_stage_pipelined.Asm.Mnemonic.{RType, IType, Branch, Store, branch_funct3}
use rv32im_5_stage_pipelined.Asm.Encode.{
  r_type, i_type, store, branch, jal, op_r, op_i, op_store, op_branch, op_jal,
}
use rv32im_5_stage_pipelined.Asm.Decode.{
  r_type_decodes, i_type_decodes, store_decodes, branch_decodes, jal_decodes, branch_refused,
}
use rv32im_5_stage_pipelined.Asm.Floats.{Madd, fp_r4_type, fp_r4_type_decodes}
use rv32im_5_stage_pipelined.Iss.Word.Laws.{Fits}
use rv32im_5_stage_pipelined.Asm.Image.{write_mem, load_words}
use rv32im_5_stage_pipelined.Asm.Image.Swap.{byte_swap, load_words-write_mem}
use rv32im_5_stage_pipelined.Float.Decode.{f32_decode}
use rv32im_5_stage_pipelined.Float.Compare.{f_cmp, f_class}
use rv32im_5_stage_pipelined.Float.Laws.{f_class-one_hot, f_cmp_trichotomy}
use rv32im_5_stage_pipelined.Float.Round.{Cls, pack_rounded}
use rv32im_5_stage_pipelined.Float.Bounds.{pack_rounded-IsPattern}

-- A machine of 64 KiB in M-mode, and one in U-mode that delegates the calls from U to S.
abbrev machine : Iss
machine = record {
  xlen = 32;
  regs = λ r. if r == 2 then 65536 else 0;
  mem = λ _. 0;
  mem_mask = 2 ^ 16 - 1;
  pc = 0;
  csr = λ _. 0;
  priv_mode = 3;
  fregs = λ _. 0;
  frm = 0;
  fflags = 0;
  pending_interrupt = none;
}

abbrev user : Iss
user = record machine { priv_mode = 0; csr = λ a. if a == csr_medeleg then 2 ^ 8 else 0 }

-- S-mode with Sv32 on: the root table at 4096 maps the first 4 MiB to themselves.
abbrev paged_machine : Iss
paged_machine = record machine {
  priv_mode = 1;
  csr = λ a. if a == csr_satp then 2 ^ 31 + 1 else 0;
  mem = λ a. if a == 4096 then 15 else 0;
}

abbrev stuck : Iss
stuck = record machine {
  priv_mode = 1;
  csr = λ a. if a == csr_satp then 2 ^ 31 else if a == csr_medeleg then 2 ^ 12 else 0;
}

-- addi x1, x0, 5 and a jump to itself.
abbrev program : List ℕ
program = 0x00500093 ∷ 0x6F ∷ []

run-Ends_example : Ends 10 (run 20 program 10 (new 65536 32))
run-Ends_example = run-Ends 20 program 10 (new 65536 32) (new-IsValid 65536 32 (omega arith))

step-Keeps_example : Keeps (step 0x00500093 (new 65536 32))
step-Keeps_example = step-Keeps 0x00500093 (new 65536 32) (new-IsValid 65536 32 (omega arith))

translate-Maps32_example :
    ((pa : ℕ)
      → (translate 0x1234 Access.load paged_machine ≡ (some pa, paged_machine))
        ↔ Maps32 Access.load (2 ^ 31 + 1) 0x1234 pa paged_machine)
    × (((pa : ℕ) → ¬ Maps32 Access.load (2 ^ 31 + 1) 0x1234 pa paged_machine)
        → translate 0x1234 Access.load paged_machine
          ≡ (none, trap (fault_cause Access.load) 0x1234 paged_machine))
translate-Maps32_example =
    translate-Maps32 0x1234 Access.load paged_machine (omega arith, refl, refl) (omega arith)

mret-trap_example : IsResumed 7 11 machine (mret (trap 11 0 machine))
unfolding delegated
mret-trap_example = mret-trap 11 0 machine (omega arith) refl

sret-trap_example : IsResumed 5 8 user (sret (trap 8 0 user))
unfolding delegated
sret-trap_example = sret-trap 8 0 user (omega arith) refl

trap-IsTrapped_example : IsTrapped user (trap 8 0 user)
trap-IsTrapped_example = trap-IsTrapped 8 0 user (omega arith) (omega arith)

load_word-store_loop_example :
    load_word 100 (store_loop 4 0 100 0x12345678 machine) ≡ 0x12345678 % 2 ^ 32
load_word-store_loop_example =
    load_word-store_loop 16 100 0x12345678 machine refl (omega arith) (omega arith)

csr_write-sstatus_example :
    (digit ((csr_write csr_sstatus 0x1FF machine).csr csr_mstatus) 5 ≡ 1)
    × (digit (csr_read csr_sstatus (csr_write csr_sstatus 0x1FF machine)) 5 ≡ 1)
csr_write-sstatus_example = csr_write-sstatus 0x1FF 5 machine (omega arith)

ctz-IsFirst_example : IsFirst 0 31 40 (ctz 32 40)
ctz-IsFirst_example = ctz-IsFirst 32 40

step-mret-reserved_example :
    step 0x73 (mret (record machine { csr = λ a. 2 ^ 12 })) ≡ raised (Error.key_error 2)
step-mret-reserved_example = step-mret-reserved (record machine { csr = λ a. 2 ^ 12 }) refl

run-IsStuck_example : (s' : Iss) × (run 100 program 10 stuck ≡ out_of_fuel s') × IsStuck s'
run-IsStuck_example = run-IsStuck 100 program 10 stuck (omega arith) (record {
  rv32 = refl;
  in_s = refl;
  paged = refl;
  delegates = refl;
  blank = λ a. refl;
  quiet = refl;
})

r_type_decodes_example :
    let w = r_type RType.sub 1 2 3 in
    (opcode_of w ≡ op_r)
    × (funct7_of w ≡ 32)
    × (funct3_of w ≡ 0)
    × (rd_of w ≡ 1)
    × (rs1_of w ≡ 2)
    × (rs2_of w ≡ 3)
r_type_decodes_example = r_type_decodes RType.sub 1 2 3 (omega arith) (omega arith) (omega arith)

i_type_decodes_example :
    (w : ℕ) × (i_type IType.addi 1 2 (negsuc 6) ≡ some w)
    × (imm_i_of w ≡ negsuc 6)
    × (opcode_of w ≡ op_i)
    × (funct3_of w ≡ 0)
    × (rd_of w ≡ 1)
    × (rs1_of w ≡ 2)
i_type_decodes_example =
    i_type_decodes IType.addi 1 2 (negsuc 6) (omega arith) (omega arith) (omega arith)

store_decodes_example :
    (w : ℕ) × (store Store.sw 3 (negsuc 7) 2 ≡ some w)
    × (imm_s_of w ≡ negsuc 7)
    × (opcode_of w ≡ op_store)
    × (funct3_of w ≡ 2)
    × (rs1_of w ≡ 2)
    × (rs2_of w ≡ 3)
store_decodes_example =
    store_decodes Store.sw 3 (negsuc 7) 2 (omega arith) (omega arith) (omega arith)

branch_decodes_example :
    (w : ℕ) × (branch Branch.bne 1 2 (negsuc 7) ≡ some w)
    × (imm_b_of w ≡ negsuc 7)
    × (opcode_of w ≡ op_branch)
    × (funct3_of w ≡ branch_funct3 Branch.bne)
    × (rs1_of w ≡ 1)
    × (rs2_of w ≡ 2)
branch_decodes_example =
    branch_decodes Branch.bne 1 2 (negsuc 7) (omega arith) (omega arith) (omega arith) refl

jal_decodes_example :
    (w : ℕ) × (jal 1 (negsuc 2047) ≡ some w)
    × (imm_j_of w ≡ negsuc 2047)
    × (opcode_of w ≡ op_jal)
    × (rd_of w ≡ 1)
jal_decodes_example = jal_decodes 1 (negsuc 2047) (omega arith) (omega arith) refl

branch_refused_example :
    (branch Branch.beq 1 2 (pos 7) ≡ none) ↔ ((¬ Fits 13 (pos 7)) ⊎ (low_bits 13 (pos 7) % 2 ≡ 1))
branch_refused_example = branch_refused Branch.beq 1 2 (pos 7)

load_words-write_mem_example :
    (lines : List ℕ) × (write_mem program 16 ≡ some lines)
    × ((k w : ℕ)
        → get_elem? program k ≡ some w
        → get_elem? (load_words lines) k ≡ some (byte_swap w))
load_words-write_mem_example = load_words-write_mem program 16 (omega arith)

-- The two zeros compare as equal.
f_cmp_trichotomy_example :
    (f_cmp 0 0x80000000 1).0 + (f_cmp 0 0x80000000 2).0 + (f_cmp 0x80000000 0 1).0 ≡ 1
unfolding f32_decode
f_cmp_trichotomy_example = f_cmp_trichotomy 0 0x80000000 (omega arith) (omega arith) refl refl

pack_rounded-IsPattern_example : (pack_rounded 1 (pos 200) 0xC00000 Cls.exact 1).0 < 2 ^ 32
pack_rounded-IsPattern_example =
    pack_rounded-IsPattern 1 (pos 200) 0xC00000 Cls.exact 1 (omega arith)

fp_r4_type_decodes_example :
    let w = fp_r4_type 0b1000111 1 2 3 4 7 in
    (opcode_of w ≡ 0b1000111)
    × (rd_of w ≡ 1)
    × (funct3_of w ≡ 7)
    × (rs1_of w ≡ 2)
    × (rs2_of w ≡ 3)
    × (rs3_of w ≡ 4)
fp_r4_type_decodes_example =
    fp_r4_type_decodes Madd.fmsub 1 2 3 4 7 (omega arith) (omega arith) (omega arith) (omega arith)
      (omega arith)
