-- ===== src/Tool/Control/Bounds.antt =====
-- src/bin/tsf_sync_debugfs/control.rs: what bounds the correction step, and when the clamp panics.
use tsf_sync.Prelude.{ℕ, ◌^◌, ◌-◌, ◌≤◌, ◌<◌, ◌⊎◌, inl, inr, ◌↔◌, ◌≢◌, none, some, ◌≡◌, arith}
use tsf_sync.Prelude.Tests.{Option-cases}
use tsf_sync.Prelude.Int.{ℤ, pos, negsuc, abs, ◌≤ℤ◌, InI64}
use tsf_sync.Tool.Control.{clamp_step}

-- The two values point the same way, or the second is zero.
abbrev pub Follows : ℤ → ℤ → Type 0
Follows err step = ((pos 0 ≤ℤ err) × (pos 0 ≤ℤ step)) ⊎ ((err ≤ℤ pos 0) × (step ≤ℤ pos 0))

-- For every positive limit that an i64 holds, the step exists and its size is at most the limit; it
-- is not zero where the error is not zero; it points as the error does where the step before the
-- clamp does; and a nonzero step within the limit is kept as it is.
pub clamp_step_lem :
    (step err : ℤ) (limit : ℕ)
    → 1 ≤ limit
    → limit < 2 ^ 63
    → (r : ℤ) × (clamp_step step (pos limit) err ≡ some r)
      × (abs r ≤ limit)
      × (err ≢ pos 0 → r ≢ pos 0)
      × (Follows err step → Follows err r)
      × (abs step ≤ limit → step ≢ pos 0 → r ≡ step)
unfolding clamp_step
clamp_step_lem step err limit low high = elim (Option-cases (clamp_step step (pos limit) err)) [
  | inl e ↦ absurd (ground arith)
  | inr (r, e) ↦ (r, e, ground arith, ground arith, ground arith, ground arith)
]

-- The clamp panics exactly for a negative limit other than the least i64, whose negation wraps to
-- itself.
pub clamp_step-panic :
    (step err limit : ℤ)
    → InI64 limit
    → (clamp_step step limit err ≡ none) ↔ ((limit ≤ℤ negsuc 0) × (limit ≢ negsuc (2 ^ 63 - 1)))
unfolding clamp_step
clamp_step-panic step err limit fits = ground arith
