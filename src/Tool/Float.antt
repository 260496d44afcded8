-- ===== src/Tool/Float.antt =====
-- The f64 of the language, as a parameter: the operations that src/bin/tsf_sync_debugfs/control.rs
-- and stats.rs use.
use tsf_sync.Prelude.{ℕ, Bool}
use tsf_sync.Prelude.Int.{ℤ, InI64}

pub record Float : Type 1 where
  pub F64 : Type 0
  pub of_i64 : ℤ → F64  -- `x as f64`
  pub of_u64 : ℕ → F64  -- `x as f64`, and the literals that are whole numbers
  pub to_i64 : F64 → ℤ  -- `x as i64`, which saturates
  pub add : F64 → F64 → F64
  pub sub : F64 → F64 → F64
  pub mul : F64 → F64 → F64
  pub div : F64 → F64 → F64
  pub sqrt : F64 → F64
  pub gt : F64 → F64 → Bool
  -- the cast saturates at the bounds of the type
  pub to_i64-InI64 : (x : F64) → InI64 (to_i64 x)
