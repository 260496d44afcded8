-- ===== src/Tool/Control.antt =====
-- src/bin/tsf_sync_debugfs/control.rs: the Kalman filter and the proportional controller.
pub mod Bounds
pub mod Converge
use tsf_sync.Prelude.{ℕ, ◌^◌, Bool, true, false, ◌&&◌, not, Option, none, some, ◌≡◌, refl}
use tsf_sync.Prelude.Tests.{◌==◌, if◌then◌else◌}
use tsf_sync.Prelude.Int.{
  ℤ, pos, negsuc, abs, ltb_ℤ, ◌-ℤ◌, ◌*ℤ◌, tdiv, wrap64, signed64, pattern64, ◌+ℤ◌,
}
use tsf_sync.Tool.Float.{Float}

module _ (fl : Float) where
  open fl use {F64, of_i64, of_u64, to_i64, add, sub, mul, div}

  pub record KalmanFilter1D : Type 0 where
    pub x : F64
    pub p : F64
    pub q : F64
    pub r : F64

  pub record Controller : Type 0 where
    pub kp_ppm : ℤ
    pub max_step_us : ℤ
    pub kalman : Option KalmanFilter1D

module _ {fl : Float} where
  open fl use {F64, of_i64, of_u64, to_i64, add, sub, mul, div}

  -- `KalmanFilter1D::new`
  unfoldable pub kalman_new : KalmanFilter1D fl
  kalman_new = record { x = of_u64 0; p = of_u64 1; q = of_u64 50; r = of_u64 4000 }

  -- `KalmanFilter1D::update`: the new filter and the estimate.
  unfoldable pub update : KalmanFilter1D fl → F64 → KalmanFilter1D fl × F64
  update kf z =
      let p1 = add kf.p kf.q in
      let k = div p1 (add p1 kf.r) in
      let x1 = add kf.x (mul k (sub z kf.x)) in
      (record kf { x = x1; p = mul p1 (sub (of_u64 1) k) }, x1)

  -- `Controller::new`
  unfoldable pub new : ℤ → ℤ → Bool → Controller fl
  new kp_ppm max_step_us use_kalman = record {
    kp_ppm = kp_ppm;
    max_step_us = max_step_us;
    kalman = if use_kalman then some kalman_new else none;
  }

-- `-x` on an i64
unfoldable pub neg64 : ℤ → ℤ
unfolding wrap64 ◌-ℤ◌
neg64 a = wrap64 (pos 0 -ℤ a)

abbrev pub is_zero : ℤ → Bool
is_zero a = abs a == 0

-- `Ord::clamp`, which panics (`none`) where the bounds are crossed.
unfoldable pub clamp : ℤ → ℤ → ℤ → Option ℤ
clamp a lo hi =
    if ltb_ℤ hi lo then none else some (if ltb_ℤ a lo then lo else if ltb_ℤ hi a then hi else a)

-- What `clamp_step` does behind the clamp.
abbrev pub force_step : ℤ → ℤ → ℤ
force_step clamped err =
    if is_zero clamped && not (is_zero err)
    then (if ltb_ℤ (pos 0) err then pos 1 else negsuc 0)
    else clamped

unfoldable pub clamp_step : ℤ → ℤ → ℤ → Option ℤ
unfolding clamp neg64
clamp_step step max_step_us err = elim (clamp step (neg64 max_step_us) max_step_us) [
  | none ↦ none
  | some clamped ↦ some (force_step clamped err)
]

-- `(err * kp_ppm) / 1_000_000`
unfoldable pub proportional : ℤ → ℤ → ℤ
unfolding wrap64 ◌*ℤ◌ tdiv
proportional err kp_ppm = tdiv (wrap64 (err *ℤ kp_ppm)) 1_000_000

-- `master_tsf as i64 - follower_tsf as i64`
unfoldable pub raw_error : ℕ → ℕ → ℤ
unfolding wrap64 ◌-ℤ◌ signed64
raw_error master_tsf follower_tsf = wrap64 (signed64 master_tsf -ℤ signed64 follower_tsf)

module _ {fl : Float} where
  open fl use {F64, of_i64, of_u64, to_i64, add, sub, mul, div}

  -- The error that the step is computed from, and the filter afterwards.
  unfoldable pub filtered : Option (KalmanFilter1D fl) → ℤ → Option (KalmanFilter1D fl) × ℤ
  unfolding update
  filtered none raw_err = (none, raw_err)
  filtered (some kf) raw_err =
      let (kf', estimate) = update kf (of_i64 raw_err) in (some kf', to_i64 estimate)

  -- `Controller::apply`: the controller afterwards, the step and the raw error; `none` is a panic.
  unfoldable pub apply : Controller fl → ℕ → ℕ → Option (Controller fl × ℤ × ℤ)
  unfolding filtered
  apply c master_tsf follower_tsf =
      let raw_err = raw_error master_tsf follower_tsf in
      let (kalman', err) = filtered c.kalman raw_err in
      elim (clamp_step (proportional err c.kp_ppm) c.max_step_us err) [
        | none ↦ none
        | some step ↦ some (record c { kalman = kalman' }, step, raw_err)
      ]

-- `(follower_tsf as i64 + step) as u64`, of src/bin/tsf_sync_debugfs/threading.rs.
unfoldable pub new_tsf : ℕ → ℤ → ℕ
unfolding pattern64 wrap64 signed64 ◌+ℤ◌
new_tsf follower_tsf step = pattern64 (wrap64 (signed64 follower_tsf +ℤ step))

clamp_step_test : clamp_step (pos 500) (pos 200) (pos 500) ≡ some (pos 200)
unfolding clamp_step
clamp_step_test = refl

clamp_step_minimum_test : clamp_step (pos 0) (pos 200) (negsuc 9) ≡ some (negsuc 0)
unfolding clamp_step
clamp_step_minimum_test = refl

raw_error_test : raw_error 1_000_000 1_000_050 ≡ negsuc 49
unfolding raw_error
raw_error_test = refl
