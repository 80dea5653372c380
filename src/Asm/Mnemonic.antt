-- ===== src/Asm/Mnemonic.antt =====
-- sim/tools/asm.py, the encoding tables: one data type for the keys of each dict, its values as
-- functions, and the keys' spelling, which is also what sim/tools/disasm.py prints.
use Prim.Native.String.{String}
use rv32im_5_stage_pipelined.Base.{ℕ}

-- R_TYPE
pub data RType : Type 0 where
  add sub sll slt sltu xor srl sra or and mul mulh mulhsu mulhu div divu rem remu : RType

abbrev pub funct7_base : ℕ
funct7_base = 0b0000000

abbrev pub funct7_alt : ℕ
funct7_alt = 0b0100000

abbrev pub funct7_muldiv : ℕ
funct7_muldiv = 0b0000001

abbrev pub r_funct7 : RType → ℕ
r_funct7 sub = funct7_alt
r_funct7 sra = funct7_alt
r_funct7 mul = funct7_muldiv
r_funct7 mulh = funct7_muldiv
r_funct7 mulhsu = funct7_muldiv
r_funct7 mulhu = funct7_muldiv
r_funct7 div = funct7_muldiv
r_funct7 divu = funct7_muldiv
r_funct7 rem = funct7_muldiv
r_funct7 remu = funct7_muldiv
r_funct7 _ = funct7_base

abbrev pub r_funct3 : RType → ℕ
r_funct3 add = 0b000
r_funct3 sub = 0b000
r_funct3 sll = 0b001
r_funct3 slt = 0b010
r_funct3 sltu = 0b011
r_funct3 xor = 0b100
r_funct3 srl = 0b101
r_funct3 sra = 0b101
r_funct3 or = 0b110
r_funct3 and = 0b111
r_funct3 mul = 0b000
r_funct3 mulh = 0b001
r_funct3 mulhsu = 0b010
r_funct3 mulhu = 0b011
r_funct3 div = 0b100
r_funct3 divu = 0b101
r_funct3 rem = 0b110
r_funct3 remu = 0b111

abbrev pub r_name : RType → String
r_name add = "add"
r_name sub = "sub"
r_name sll = "sll"
r_name slt = "slt"
r_name sltu = "sltu"
r_name xor = "xor"
r_name srl = "srl"
r_name sra = "sra"
r_name or = "or"
r_name and = "and"
r_name mul = "mul"
r_name mulh = "mulh"
r_name mulhsu = "mulhsu"
r_name mulhu = "mulhu"
r_name div = "div"
r_name divu = "divu"
r_name rem = "rem"
r_name remu = "remu"

-- I_TYPE, the keys with a 12-digit immediate and those with a shift amount.
pub data IType : Type 0 where
  addi slti sltiu xori ori andi : IType

abbrev pub i_funct3 : IType → ℕ
i_funct3 addi = 0b000
i_funct3 slti = 0b010
i_funct3 sltiu = 0b011
i_funct3 xori = 0b100
i_funct3 ori = 0b110
i_funct3 andi = 0b111

abbrev pub i_name : IType → String
i_name addi = "addi"
i_name slti = "slti"
i_name sltiu = "sltiu"
i_name xori = "xori"
i_name ori = "ori"
i_name andi = "andi"

pub data Shift : Type 0 where
  slli srli srai : Shift

abbrev pub shift_funct3 : Shift → ℕ
shift_funct3 slli = 0b001
shift_funct3 srli = 0b101
shift_funct3 srai = 0b101

abbrev pub shift_name : Shift → String
shift_name slli = "slli"
shift_name srli = "srli"
shift_name srai = "srai"

-- BRANCH
pub data Branch : Type 0 where
  beq bne blt bge ble bgt bltu bgeu : Branch

abbrev pub branch_funct3 : Branch → ℕ
branch_funct3 beq = 0b000
branch_funct3 bne = 0b001
branch_funct3 blt = 0b100
branch_funct3 bge = 0b101
branch_funct3 ble = 0b010
branch_funct3 bgt = 0b011
branch_funct3 bltu = 0b110
branch_funct3 bgeu = 0b111

abbrev pub branch_name : Branch → String
branch_name beq = "beq"
branch_name bne = "bne"
branch_name blt = "blt"
branch_name bge = "bge"
branch_name ble = "ble"
branch_name bgt = "bgt"
branch_name bltu = "bltu"
branch_name bgeu = "bgeu"

-- LOAD and STORE
pub data Load : Type 0 where
  lb lh lw lbu lhu ld lwu : Load

abbrev pub load_funct3 : Load → ℕ
load_funct3 lb = 0b000
load_funct3 lh = 0b001
load_funct3 lw = 0b010
load_funct3 lbu = 0b100
load_funct3 lhu = 0b101
load_funct3 ld = 0b011
load_funct3 lwu = 0b110

abbrev pub load_name : Load → String
load_name lb = "lb"
load_name lh = "lh"
load_name lw = "lw"
load_name lbu = "lbu"
load_name lhu = "lhu"
load_name ld = "ld"
load_name lwu = "lwu"

pub data Store : Type 0 where
  sb sh sw sd : Store

abbrev pub store_funct3 : Store → ℕ
store_funct3 sb = 0b000
store_funct3 sh = 0b001
store_funct3 sw = 0b010
store_funct3 sd = 0b011

abbrev pub store_name : Store → String
store_name sb = "sb"
store_name sh = "sh"
store_name sw = "sw"
store_name sd = "sd"

-- CSR_OP
pub data CsrOp : Type 0 where
  csrrw csrrs csrrc csrrwi csrrsi csrrci : CsrOp

abbrev pub csr_funct3 : CsrOp → ℕ
csr_funct3 csrrw = 0b001
csr_funct3 csrrs = 0b010
csr_funct3 csrrc = 0b011
csr_funct3 csrrwi = 0b101
csr_funct3 csrrsi = 0b110
csr_funct3 csrrci = 0b111

-- SYSTEM_IMM12
pub data SystemOp : Type 0 where
  ecall ebreak mret sret : SystemOp

abbrev pub system_imm12 : SystemOp → ℕ
system_imm12 ecall = 0x000
system_imm12 ebreak = 0x001
system_imm12 mret = 0x302
system_imm12 sret = 0x102
