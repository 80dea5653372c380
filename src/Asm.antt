-- ===== src/Asm.antt =====
-- sim/tools/asm.py: the assembler from lines to words, its encoders, and the memory image.
pub mod Mnemonic
pub mod Encode
pub mod Words
pub mod Decode
pub mod Image
pub mod Text
pub mod Table
pub mod Operands
pub mod Statement
pub mod Assemble
pub mod Wide
pub mod Floats
