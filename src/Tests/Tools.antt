-- ===== src/Tests/Tools.antt =====
-- The theorems on the debugger, the disassembler and the device tree at concrete inputs.
use rv32im_5_stage_pipelined.Base.{
  ℕ, ◌*◌, ◌≤◌, ◌≡◌, ◌≢◌, refl, arith, some, List, [], ◌∷◌, ◌==◌, if◌then◌else◌,
}
use rv32im_5_stage_pipelined.Base.Int.{pos, negsuc, ◌-ℤ◌}
use rv32im_5_stage_pipelined.Base.Lists.{length, get_elem?}
use rv32im_5_stage_pipelined.Base.Show.{decimal, signed_decimal, with_sign}
use rv32im_5_stage_pipelined.Iss.Mmu.{translate}
use rv32im_5_stage_pipelined.Iss.Run.{due, run}
use rv32im_5_stage_pipelined.Iss.Valid.{new-IsValid}
use rv32im_5_stage_pipelined.Iss.Fields.{opcode_of, funct3_of, imm_b_of, imm_j_of, imm_i_of}
use rv32im_5_stage_pipelined.Asm.Mnemonic.{RType, IType, Branch, Store, branch_funct3}
use rv32im_5_stage_pipelined.Asm.Encode.{op_branch, r_type, i_type, store, branch, jal}
use rv32im_5_stage_pipelined.Asm.Text.{codes, same, strip, split_fields, lower, without_last}
use rv32im_5_stage_pipelined.Asm.Table.{mnemonic_of}
use rv32im_5_stage_pipelined.Asm.Operands.{ok}
use rv32im_5_stage_pipelined.Asm.Statement.{label_at, encode_line}
use rv32im_5_stage_pipelined.Asm.Assemble.{clean, first_pass, assemble}
use rv32im_5_stage_pipelined.Asm.Assemble.Targets.{NoLabel, kind_of-label}
use rv32im_5_stage_pipelined.Asm.Assemble.Places.{assemble-places}
use rv32im_5_stage_pipelined.Asm.Assemble.Branches.{assemble-branch}
use rv32im_5_stage_pipelined.Disasm.{disasm}
use rv32im_5_stage_pipelined.Disasm.Print.{
  disasm-r_type, disasm-i_type, disasm-store, disasm-branch, disasm-jal,
}
use rv32im_5_stage_pipelined.Debugger.{Debugger, start, halted_self_loop, run_until}
use rv32im_5_stage_pipelined.Iss.State.{Iss, wr, update}
use rv32im_5_stage_pipelined.Iss.Step.{step, dispatch, step_imm}
use rv32im_5_stage_pipelined.Iss.Alu.{op_imm}
use rv32im_5_stage_pipelined.Debugger.Control.{Stops, run_until-Stops}
use rv32im_5_stage_pipelined.Debugger.Follows.{outcome_of, run_until-run}
use rv32im_5_stage_pipelined.Dtb.Bytes.{◌>>=◌, encode}
use rv32im_5_stage_pipelined.Dtb.Builder.{FdtBuilder, new, build}
use rv32im_5_stage_pipelined.Dtb.Core.{
  Call, begin_node, end_node, prop_u32, calls, build_this_core_dtb,
}
use rv32im_5_stage_pipelined.Dtb.Core.Reads.{all_nested}
use rv32im_5_stage_pipelined.Dtb.Core.Builds.{rooms}
use rv32im_5_stage_pipelined.Dtb.Core.Accepts.{calls-accepted}
use rv32im_5_stage_pipelined.Dtb.Core.Own.{build_this_core_dtb-accepted}
use rv32im_5_stage_pipelined.Dtb.Parse.{Failure, accepted, failed, parse_and_validate}
use rv32im_5_stage_pipelined.Dtb.Parse.Ends.{parse_and_validate-ends}
use rv32im_5_stage_pipelined.Elf.{Tools, Result, images}
use rv32im_5_stage_pipelined.Elf.Sections.{Found}
use rv32im_5_stage_pipelined.Elf.Images.{Holds, DataPlaced, images-placed}

-- addi x1, x0, 5 and a jump to itself, with a breakpoint at the jump.
abbrev debugged : Debugger
debugged = record (start (0x00500093 ∷ 0x6F ∷ []) 65536 32) { breakpoints = 4 ∷ [] }

run_until-Stops_example : Stops 10 0 10 debugged (run_until 10 debugged)
run_until-Stops_example =
    run_until-Stops 10 debugged (unfold start in new-IsValid 65536 32 (omega arith))

-- The debugger behind the first instruction.
abbrev stepped_once : Iss
stepped_once = record debugged.iss { pc = 4; regs = update debugged.iss.regs 1 5 }

abbrev stopped : Debugger
stopped = record debugged { iss = stepped_once; history = (0, 0x00500093) ∷ [] }

run_until-run_example :
    run 12 debugged.words 10 debugged.iss
    ≡ outcome_of 10 debugged.words 10 1 halted_self_loop stepped_once
unfolding run_until start due translate step wr dispatch step_imm op_imm imm_j_of imm_i_of
run_until-run_example =
    run_until-run 10 10 debugged stopped halted_self_loop ((0, 0x00500093) ∷ [])
      (new-IsValid 65536 32 (omega arith)) refl refl
      ((refl, refl), (stepped_once, refl, (refl, refl)))

disasm-r_type_example : disasm (r_type RType.mulh 1 2 3) 32 ≡ "mulh x1,x2,x3"
unfolding decimal
disasm-r_type_example = disasm-r_type RType.mulh 1 2 3 32 (omega arith) (omega arith) (omega arith)

disasm-i_type_example :
    (w : ℕ) × (i_type IType.addi 1 2 (negsuc 6) ≡ some w)
    × (disasm w 32 ≡ (if w == 0x13 then "nop" else "addi x1,x2,-7"))
unfolding decimal signed_decimal
disasm-i_type_example =
    disasm-i_type IType.addi 1 2 (negsuc 6) 32 (omega arith) (omega arith) (omega arith)

disasm-branch_example :
    (w : ℕ) × (branch Branch.bne 1 2 (negsuc 7) ≡ some w) × (disasm w 32 ≡ "bne x1,x2,-8")
unfolding decimal with_sign
disasm-branch_example =
    disasm-branch Branch.bne 1 2 (negsuc 7) 32 (omega arith) (omega arith) (omega arith) refl

disasm-store_example :
    (w : ℕ) × (store Store.sw 3 (negsuc 7) 2 ≡ some w) × (disasm w 32 ≡ "sw x3,-8(x2)")
unfolding decimal signed_decimal
disasm-store_example =
    disasm-store Store.sw 3 (negsuc 7) 2 32 (omega arith) (omega arith) (omega arith)

disasm-jal_example : (w : ℕ) × (jal 1 (negsuc 2047) ≡ some w) × (disasm w 64 ≡ "jal x1,-2048")
unfolding decimal with_sign
disasm-jal_example = disasm-jal 1 (negsuc 2047) 64 (omega arith) (omega arith) refl

abbrev small_tree : List Call
small_tree = begin_node "" ∷ begin_node "a" ∷ prop_u32 "reg" (pos 5) ∷ end_node ∷ end_node ∷ []

-- 32 MiB of memory, with a ramdisk.
build_this_core_dtb-accepted_example :
    (blob : List ℕ) × (build_this_core_dtb
        (pos 0x2000000)
        (pos 1000000)
        (pos 1843200)
        "ro"
        (some (pos 4096))
        (some (pos 8192))
      ≡ some blob)
    × (parse_and_validate blob
        ≡ accepted (record { max_depth = 4; prop_count = 36; totalsize = length blob }))
unfolding encode
build_this_core_dtb-accepted_example =
    build_this_core_dtb-accepted (pos 0x2000000) (pos 1000000) (pos 1843200) "ro" (some (pos 4096))
      (some (pos 8192)) refl (omega arith)

calls-accepted_example :
    (blob : List ℕ) × (b : FdtBuilder) × ((calls small_tree new >>= build) ≡ some (blob, b))
    × (parse_and_validate blob
        ≡ accepted (record { max_depth = 2; prop_count = 1; totalsize = length blob }))
unfolding all_nested rooms encode
calls-accepted_example =
    calls-accepted small_tree (record { depth = 0; max_depth = 2; prop_count = 1 }) 48 (omega arith)
      refl (record { closed = refl; deep = omega arith; has_properties = omega arith }) refl
      (omega arith)

parse_and_validate-ends_example : parse_and_validate (1 ∷ 2 ∷ []) ≢ failed Failure.out_of_rounds
parse_and_validate-ends_example = parse_and_validate-ends (1 ∷ 2 ∷ [])

-- A loop that counts x1 down.
abbrev counting : List (List ℕ)
counting = codes "loop:" ∷ codes " addi x1, x1, -1 # down" ∷ codes "bne x1, x0, loop" ∷ []

abbrev counting_words : List ℕ
counting_words = 0xFFF08093 ∷ 0xFE009EE3 ∷ []

counting-assembles : assemble 32 counting ≡ ok counting_words
unfolding assemble i_type branch ◌-ℤ◌
counting-assembles = refl

assemble-places_example :
    let pass = first_pass counting 0 [] in
    (length counting_words ≡ length pass.stmts)
    × ((k w : ℕ)
        → get_elem? counting_words k ≡ some w
        → (line : List ℕ) × (get_elem? pass.stmts k ≡ some (4 * k, line))
          × (encode_line 32 pass.labels (4 * k) line ≡ ok w))
    × ((name : List ℕ) (a : ℕ)
        → label_at pass.labels name ≡ some a
        → (j : ℕ) × (a ≡ 4 * j) × (j ≤ length counting_words))
assemble-places_example = assemble-places 32 counting counting_words counting-assembles

counting-NoLabel :
    NoLabel (codes "loop") (codes " addi x1, x1, -1 # down" ∷ codes "bne x1, x0, loop" ∷ [])
unfolding clean without_last
counting-NoLabel = (
  λ name h q. absurd (cc (kind_of-label (codes " addi x1, x1, -1 # down") name h)),
  (λ name h q. absurd (cc (kind_of-label (codes "bne x1, x0, loop") name h)), tt),
)

assemble-branch_example :
    (w : ℕ) × (get_elem? counting_words 1 ≡ some w)
    × (opcode_of w ≡ op_branch)
    × (funct3_of w ≡ branch_funct3 Branch.bne)
    × (imm_b_of w ≡ pos (4 * 0) -ℤ pos (4 * 1))
    × (0 ≤ length counting_words)
unfolding clean without_last split_fields mnemonic_of lower strip
assemble-branch_example =
    assemble-branch 32 counting counting_words
      (codes "loop:" ∷ codes " addi x1, x1, -1 # down" ∷ []) (codes "bne x1, x0, loop")
      (codes "bne x1, x0, loop") [] (codes "bne") (codes "loop")
      (codes "x1" ∷ codes "x0" ∷ codes "loop" ∷ []) Branch.bne [] (codes "loop:") (codes "loop")
      (codes " addi x1, x1, -1 # down" ∷ codes "bne x1, x0, loop" ∷ []) counting-assembles refl refl
      refl refl refl refl refl refl counting-NoLabel

-- A program of one instruction with one byte of data at the address 2.
abbrev tools : Tools
tools = record {
  objcopy = λ section.
      if same section (codes ".text")
      then some (0x13 ∷ 0 ∷ 0 ∷ 0 ∷ [])
      else if same section (codes ".data")
      then some (7 ∷ [])
      else some [];
  objdump =
      some (codes "Sections:" ∷ codes " 0 .text 00000004 00000004 00000000 00001000 2**2" ∷ []);
  nm = some (codes "00000002 D _data_start" ∷ []);
}

abbrev text_sections : List (List ℕ)
text_sections = codes ".text.init" ∷ codes ".text" ∷ []

images-tools :
    images tools text_sections 8 4
    ≡ Result.ok (0 ∷ 0 ∷ 0 ∷ 0 ∷ 0x13 ∷ 0 ∷ 0 ∷ 0 ∷ [], 0 ∷ 0 ∷ 7 ∷ 0 ∷ [])
unfolding images
images-tools = refl

images-placed_example :
    ((places : List (ℕ × List ℕ)) × Found tools 8 text_sections places
      × Holds 8 places (0 ∷ 0 ∷ 0 ∷ 0 ∷ 0x13 ∷ 0 ∷ 0 ∷ 0 ∷ []))
    × DataPlaced tools 4 (0 ∷ 0 ∷ 7 ∷ 0 ∷ [])
images-placed_example =
    images-placed tools text_sections 8 4 (0 ∷ 0 ∷ 0 ∷ 0 ∷ 0x13 ∷ 0 ∷ 0 ∷ 0 ∷ [])
      (0 ∷ 0 ∷ 7 ∷ 0 ∷ []) images-tools
