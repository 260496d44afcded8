-- ===== src/Tool/Hex.antt =====
-- src/bin/tsf_sync_debugfs/asm/hex.rs: the scalar parser of a hexadecimal TSF value, and the
-- choice between it and the SSSE3 pipeline of the child `Simd`.
pub mod Digits
pub mod Simd
pub mod Scalar
pub mod Auto
pub mod RoundTrip
