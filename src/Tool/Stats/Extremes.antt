-- ===== src/Tool/Stats/Extremes.antt =====
-- src/bin/tsf_sync_debugfs/stats.rs, `update`: the count and the extremes over a run.
use tsf_sync.Prelude.{ℕ, ◌+◌, ◌^◌, ◌<◌, List, [], ◌∷◌, ◌≡◌, refl, arith}
use Prim.Native.Nat.{max}
use tsf_sync.Prelude.Lists.{length, All}
use tsf_sync.Prelude.Int.{ℤ, pos, abs}
use tsf_sync.Tool.Float.{Float}
use tsf_sync.Tool.Stats.{WelfordStats, update, update_all, new}

-- Every i64 but the least one.
abbrev pub IsProper : ℤ × ℤ → Type 0
IsProper (err, step) = (abs err < 2 ^ 63) × (abs step < 2 ^ 63)

-- The largest absolute error and step of a run, at least the values given.
abbrev pub largest : ℕ → ℕ → List (ℤ × ℤ) → ℕ × ℕ
largest e s [] = (e, s)
largest e s ((err, step) ∷ obs) = largest (max e (abs err)) (max s (abs step)) obs

module _ {fl : Float} where
  update-extremes :
      (st : WelfordStats fl) (err step : ℤ) (k e s : ℕ)
      → IsProper (err, step)
      → (st.n ≡ k) × (st.max_abs_err ≡ pos e) × (st.max_abs_step ≡ pos s)
      → k + 1 < 2 ^ 64
      → let st' = update st err step in
        (st'.n ≡ k + 1)
        × (st'.max_abs_err ≡ pos (max e (abs err)))
        × (st'.max_abs_step ≡ pos (max s (abs step)))
  unfolding update
  update-extremes st err step k e s proper inv small = (ground arith, ground arith, ground arith)

  update_all-extremes :
      (obs : List (ℤ × ℤ)) (st : WelfordStats fl) (k e s : ℕ)
      → All IsProper obs
      → (st.n ≡ k) × (st.max_abs_err ≡ pos e) × (st.max_abs_step ≡ pos s)
      → k + length obs < 2 ^ 64
      → let st' = update_all st obs in
        (st'.n ≡ k + length obs)
        × (st'.max_abs_err ≡ pos (largest e s obs).0)
        × (st'.max_abs_step ≡ pos (largest e s obs).1)
  unfolding update_all
  update_all-extremes [] st k e s proper inv small = (omega arith, inv.1, inv.2)
  update_all-extremes ((err, step) ∷ obs) st k e s (p, proper) inv small =
      let (count, es, ss) =
        update_all-extremes obs (update st err step) (k + 1) (max e (abs err)) (max s (abs step))
          proper (update-extremes st err step k e s p inv (omega arith)) (omega arith) in
      (omega arith, es, ss)

-- After a run of fewer than 2 ^ 64 observations from a fresh accumulator, none of them the least
-- i64, the count is their number and the two extremes are the largest absolute values, whatever the
-- floating-point operations give.
pub update_all-new :
    (fl : Float) (obs : List (ℤ × ℤ))
    → All IsProper obs
    → length obs < 2 ^ 64
    → let st = update_all {fl = fl} new obs in
      (st.n ≡ length obs)
      × (st.max_abs_err ≡ pos (largest 0 0 obs).0)
      × (st.max_abs_step ≡ pos (largest 0 0 obs).1)
unfolding new
update_all-new fl obs proper small =
    let (count, es, ss) =
      update_all-extremes obs (new {fl = fl}) 0 0 0 proper (refl, refl, refl) (omega arith) in
    (omega arith, es, ss)
