-- ===== src/Float.antt =====
-- sim/tools/iss.py, the RV32F reference model: decoding, rounding and the operations.
pub mod Fraction
pub mod Decode
pub mod Round
pub mod Arith
pub mod Compare
pub mod Convert
pub mod Bounds
pub mod Laws
