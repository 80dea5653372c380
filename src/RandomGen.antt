-- ===== src/RandomGen.antt =====
-- sim/tools/random_gen.py: the random programs that the hardware is checked with.
pub mod Source
pub mod Lines
pub mod Constants
pub mod Kinds
pub mod Items
pub mod Resolve
pub mod Program
pub mod Texts
pub mod Tokens
pub mod Encodes
pub mod Fine
pub mod Targets
pub mod Assembled
pub mod Drawn
