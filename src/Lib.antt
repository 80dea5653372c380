-- ===== src/Lib.antt =====
-- rv32im_5_stage_pipelined: a model of the Python tools around the five-stage RISC-V core, with
-- proofs.
--
-- The program. `class ISS` in sim/tools/iss.py is the reference simulator against which the
-- hardware is checked. `ISS.run` fetches words from a list, through `ISS.translate`, and gives them
-- to `ISS.step`, which decodes a word, changes the registers, the byte memory, the CSR dict, the
-- privilege mode and the float state, and calls `ISS.trap`, `ISS.mret` and `ISS.sret`. The float
-- instructions call the functions `f_add` to `f_cvt_from_int` of the same file, which compute on
-- exact fractions and round once. `assemble` in sim/tools/asm.py turns lines into words, the labels
-- in a first pass and the words in a second, with one function for each format, and `write_mem`
-- turns words into the memory image; `load_words` reads the image back. sim/tools/disasm.py turns
-- words into lines again, sim/tools/debugger.py steps the simulator, and sim/tools/gen_dtb.py emits
-- the device tree of the system around the core and checks it. sim/tools/elf2mem.py places the
-- sections of an ELF file in two memory images. `gen_program` in sim/tools/random_gen.py writes the
-- lines of a random program, which `assemble` reads. sim/tools/profiler.py counts the instructions
-- of a kernel by their kind, and adds to the kernel the instructions that read the counters.
--
-- The files.
--   Base          names passed on, Boolean tests, Python's integers (Base/Int), the digits of a
--                 number (Base/Bits), sequences (Base/Lists). `x >> n` is `x / 2 ^ n`, `x << n` is
--                 `x * 2 ^ n`, and `x & (2 ** n - 1)` is `x % 2 ^ n`.
--   Iss/Word      s32, u32, sXLEN, uXLEN and sext.
--   Iss/State     the attributes of `ISS` as a record, its constructor, `wr`, `set_fflags`,
--                 `resolve_rm`, and what a step raises. Register files, memory and CSR dict are
--                 functions from their index; the keys of the dict are `implemented` in Iss/Csr.
--   Iss/Csr       csr_read and csr_write.
--   Iss/Trap      trap, mret and sret; Iss/Trap/Status and Iss/Trap/Return hold their theorems.
--   Iss/Memory    load_mem_byte, store_mem_byte, the page-table reads and the multi-byte accesses.
--   Iss/Mmu       translate, _translate_sv32, _translate_sv39 and _pte_perm_ok. The walk is kept
--                 apart from the trap of its fault. Iss/Mmu/Walk relates Sv32 to the page tables.
--   Iss/Alu       the results that `step` computes inline; Iss/Fields its decoding.
--   Iss/Step      one function for each branch of `step`, and `dispatch` between them.
--   Iss/Run       one round of the loop of `run`, and the loop.
--   Iss/Valid     the well-formed states, and that every operation keeps them.
--   Float         the RV32F functions: Decode, Round, Arith, Compare, Convert; Fraction is what they
--                 use of `fractions.Fraction`, `int.bit_length` and `math.isqrt`.
--   Asm           Mnemonic, Wide and Floats hold the tables and encoders, Encode the base formats, a
--                 `ValueError` being `none`; Decode their theorems; Image write_mem and load_words.
--                 Text is what asm.py uses of Python's strings, on lists of ASCII codes; Table the
--                 names of the mnemonics, Operands the operands as text, Statement the word of one
--                 line, Assemble the two passes. An exception there is a value of `Error`.
--                 Assemble/Lines and Targets find labels and statements among the lines of a program,
--                 Places and Branches hold the theorems on the words.
--   Debugger      sim/tools/debugger.py: the class around the simulator, and its loop `run_until`;
--                 Debugger/Control holds their theorems, Debugger/Follows those against `ISS.run`.
--   Disasm        sim/tools/disasm.py: Names, Integer and Floats hold the tables and the lines of the
--                 opcodes; Print relates the lines to the encoders of asm.py. Lines are native texts.
--   Dtb           sim/tools/gen_dtb.py: Bytes is `struct` and slices on lists of numbers, Builder the
--                 class `FdtBuilder`, Core `build_this_core_dtb` as the list of its method calls, and
--                 Parse `parse_and_validate`. An exception is `none` in the builder and a value of
--                 `Failure` in the check. Core/Reads, Written, Builds and Accepts relate the two.
--   Elf           sim/tools/elf2mem.py: the images from what objcopy, objdump and nm print, which is a
--                 parameter; Hex, Listed and Symbols are about what is read from the
--                 printed lines, Placed, Sections and Images about the images.
--   RandomGen     sim/tools/random_gen.py: Source is what it uses of Python's `random.Random`, a
--                 parameter with the hypothesis that a number is drawn below its bound. Lines and
--                 Constants build texts, Kinds holds the pools, Items draws the instructions,
--                 Resolve their targets, and Program is `gen_program`, its text a list of lines. The
--                 others lead to its theorems: Texts and Tokens read the lines back, Encodes encodes
--                 them, Drawn and Targets follow the draws, Fine is about `assemble` on such lines,
--                 and Assembled joins them.
--   Profiler      sim/tools/profiler.py: `classify_mix`, and the programs of the two runs; Mix and
--                 Runs hold their theorems.
--   Tests         the theorems at concrete inputs.
--
-- Bounds and fuel. The registers have XLEN digits, 32 or 64, and the wrap-around is written out.
-- `run` takes fuel beside its step budget, since a fetch that faults counts as no step. The two
-- loops that correct the exponent in Float/Round take 4 rounds each; the first guess, a difference
-- of bit lengths, is off by at most two. The recursions of Float/Fraction take their argument as
-- fuel, and halve it or take a remainder by it. The loop of `parse_and_validate` has a round for each
-- byte, and one more; a round takes at least four bytes. The bound of 1000 random instructions is
-- within the reach of a branch, whose offset has 13 digits, over the whole program.
--
-- Not modelled. The command lines of the tools, the command loop of the debugger, the runs of the
-- Verilog simulator, the reports and the build scripts, which are text, files and processes; texts
-- beyond ASCII in a program for asm.py; addresses that objdump and nm would print with a sign; the
-- hardware in design, its testbenches in sim/tb, the firmware and the benchmarks, which are in
-- other languages. Python's `self.halted` is set by nothing. The memory size is a power of two, as
-- the constructor's comment says.
pub mod Base
pub mod Float
pub mod Asm
pub mod Iss
pub mod RandomGen
pub mod Profiler
pub mod Debugger
pub mod Disasm
pub mod Elf
pub mod Dtb
mod Tests
