-- ===== src/Iss.antt =====
-- sim/tools/iss.py: the instruction set simulator, module by module.
pub mod Word
pub mod State
pub mod Csr
pub mod Trap
pub mod Memory
pub mod Mmu
pub mod Alu
pub mod Fields
pub mod Step
pub mod Run
pub mod Valid
