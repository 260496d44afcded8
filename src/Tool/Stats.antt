-- ===== src/Tool/Stats.antt =====
-- src/bin/tsf_sync_debugfs/stats.rs: the accumulator of errors and steps.
pub mod Extremes
pub mod Constant
use tsf_sync.Prelude.{
  ℕ, zero, suc, ◌+◌, ◌-◌, ◌*◌, ◌/◌, ◌%◌, ◌^◌, ◌<◌, ◌≤◌, Bool, true, false, Option, none, some, List,
  [], ◌∷◌, ◌++◌, ◌≡◌, refl, ◌∙◌, arith,
}
use tsf_sync.Prelude.Tests.{ltb, ◌==◌, if◌then◌else◌}
use tsf_sync.Prelude.Int.{ℤ, pos, negsuc, ltb_ℤ, abs, signed64}
use tsf_sync.Tool.Float.{Float}

module _ (fl : Float) where
  open fl use {F64}

  pub record WelfordStats : Type 0 where
    pub n : ℕ
    pub mean : F64
    pub m2 : F64
    pub max_abs_err : ℤ
    pub max_abs_step : ℤ

-- `x.unsigned_abs() as i64`: the least i64 comes out negative.
unfoldable pub magnitude : ℤ → ℤ
unfolding signed64
magnitude x = signed64 (abs x)

-- The larger of a maximum so far and a new value.
abbrev pub raise : ℤ → ℤ → ℤ
raise largest x = if ltb_ℤ largest x then x else largest

module _ {fl : Float} where
  open fl use {F64, of_i64, of_u64, add, sub, mul, div, sqrt}

  -- `WelfordStats::new`
  unfoldable pub new : WelfordStats fl
  new = record { n = 0; mean = of_u64 0; m2 = of_u64 0; max_abs_err = pos 0; max_abs_step = pos 0 }

  unfoldable pub update : WelfordStats fl → ℤ → ℤ → WelfordStats fl
  unfolding magnitude
  update st err step =
      let n' = (st.n + 1) % 2 ^ 64 in
      let x = of_i64 err in
      let delta = sub x st.mean in
      let mean' = add st.mean (div delta (of_u64 n')) in
      let delta2 = sub x mean' in
      record {
        n = n';
        mean = mean';
        m2 = add st.m2 (mul delta delta2);
        max_abs_err = raise st.max_abs_err (magnitude err);
        max_abs_step = raise st.max_abs_step (magnitude step);
      }

  unfoldable pub rms : WelfordStats fl → F64
  rms st = if st.n == 0 then of_u64 0 else sqrt (div st.m2 (of_u64 st.n))

  -- The accumulator afterwards, and the value that is printed and returned.
  unfoldable pub print_and_reset : WelfordStats fl → WelfordStats fl × F64
  unfolding new rms
  print_and_reset st = (new, rms st)

  -- A run of observations, an error and a step each.
  unfoldable pub update_all : WelfordStats fl → List (ℤ × ℤ) → WelfordStats fl
  update_all st [] = st
  update_all st ((err, step) ∷ obs) = update_all (update st err step) obs
