-- ===== src/Dtb.antt =====
-- sim/tools/gen_dtb.py: the emitter of the flattened device tree and its own check.
pub mod Bytes
pub mod Builder
pub mod Core
pub mod Parse
