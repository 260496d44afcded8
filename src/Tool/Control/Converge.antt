-- ===== src/Tool/Control/Converge.antt =====
-- src/bin/tsf_sync_debugfs/control.rs, `apply`, with no Kalman filter, and the sum that threading.rs
-- writes to the follower: the follower moves toward the master and never past it.
use tsf_sync.Prelude.{
  ℕ, zero, suc, ◌+◌, ◌-◌, ◌*◌, ◌/◌, ◌^◌, ◌<◌, ◌≤◌, none, some, ◌≡◌, arith, ap, ◌∙◌,
}
use Prim.Native.Nat.{min, max}
use native.Mathlib.Decide.{dec_le}
use tsf_sync.Prelude.Tests.{leb, ◌==◌, if◌then◌else◌}
use tsf_sync.Prelude.Int.{ℤ, pos, negsuc, sub_ℕ}
use tsf_sync.Tool.Float.{Float}
use tsf_sync.Tool.Control.{
  Controller, clamp_step, apply, filtered, proportional, raw_error, new_tsf,
}

-- The size of the error, and the size of the correction for it.
abbrev pub dist : ℕ → ℕ → ℕ
dist a b = (a - b) + (b - a)

pub amount : ℕ → ℕ → ℕ → ℕ
amount kp limit d = if d == 0 then 0 else max 1 (min limit (d * kp / 1_000_000))

pub amount-le : (kp limit d : ℕ) → kp ≤ 1_000_000 → amount kp limit d ≤ d
unfolding amount
amount-le kp limit d h = let share : d * kp ≤ d * 1_000_000 = grind arith in ground arith

-- What the follower is set to.
abbrev pub moved : ℕ → ℕ → ℕ → ℕ
moved master follower a = if leb follower master then follower + a else follower - a

pub amount-pos : (kp limit d : ℕ) → 1 ≤ d → 1 ≤ amount kp limit d
unfolding amount
amount-pos kp limit d h = ground arith

pub amount-le-limit : (kp limit d : ℕ) → 1 ≤ limit → amount kp limit d ≤ limit
unfolding amount
amount-le-limit kp limit d h = ground arith

raw_error-sub_ℕ : (m f : ℕ) → m < 2 ^ 63 → f < 2 ^ 63 → raw_error m f ≡ sub_ℕ m f
unfolding raw_error
raw_error-sub_ℕ m f hm hf = ground arith

proportional-pos :
    (d kp : ℕ) → d * kp < 2 ^ 63 → proportional (pos d) (pos kp) ≡ pos (d * kp / 1_000_000)
unfolding proportional
proportional-pos d kp h = ground arith

proportional-negsuc :
    (d kp : ℕ)
    → suc d * kp < 2 ^ 63
    → proportional (negsuc d) (pos kp) ≡ sub_ℕ 0 (suc d * kp / 1_000_000)
unfolding proportional
proportional-negsuc d kp h = ground arith

clamp_step-pos :
    (d p limit : ℕ)
    → 1 ≤ limit
    → limit < 2 ^ 63
    → clamp_step (pos p) (pos limit) (pos d)
      ≡ some (pos (if d == 0 then min limit p else max 1 (min limit p)))
unfolding clamp_step
clamp_step-pos d p limit low high = ground arith

clamp_step-negsuc :
    (d p limit : ℕ)
    → 1 ≤ limit
    → limit < 2 ^ 63
    → clamp_step (sub_ℕ 0 p) (pos limit) (negsuc d) ≡ some (sub_ℕ 0 (max 1 (min limit p)))
unfolding clamp_step
clamp_step-negsuc d p limit low high = ground arith

new_tsf-up : (f a : ℕ) → f + a < 2 ^ 63 → new_tsf f (pos a) ≡ f + a
unfolding new_tsf
new_tsf-up f a h = ground arith

new_tsf-down : (f a : ℕ) → f < 2 ^ 63 → a ≤ f → new_tsf f (sub_ℕ 0 a) ≡ f - a
unfolding new_tsf
new_tsf-down f a h le = ground arith

-- The step with a sign, up where the master is ahead.
abbrev pub signed_step : ℕ → ℕ → ℕ → ℤ
signed_step master follower a = if leb follower master then pos a else sub_ℕ 0 a

abbrev pub plain : {fl : Float} → ℕ → ℕ → Controller fl
plain kp limit = record { kp_ppm = pos kp; max_step_us = pos limit; kalman = none }

apply_steps :
    (fl : Float) (kp limit master follower : ℕ) (p e r : ℤ)
    → raw_error master follower ≡ e
    → proportional e (pos kp) ≡ p
    → clamp_step p (pos limit) e ≡ some r
    → apply (plain {fl = fl} kp limit) master follower ≡ some (plain kp limit, r, e)
unfolding apply filtered
apply_steps fl kp limit master follower p e r he hp hr = ground arith

amount_up :
    (kp limit d : ℕ)
    → (if d == 0 then min limit (d * kp / 1_000_000) else max 1 (min limit (d * kp / 1_000_000)))
      ≡ amount kp limit d
unfolding amount
amount_up kp limit zero = ground arith
amount_up kp limit (suc d) = ground arith

amount_down :
    (kp limit d : ℕ) → max 1 (min limit (suc d * kp / 1_000_000)) ≡ amount kp limit (suc d)
unfolding amount
amount_down kp limit d = ground arith

module _ (fl : Float) (kp limit : ℕ) (low : 1 ≤ limit) (high : limit < 2 ^ 63) where
  -- The master is `d` ahead.
  apply-up :
      (follower d : ℕ)
      → follower + d < 2 ^ 63
      → d * kp < 2 ^ 63
      → apply (plain {fl = fl} kp limit) (follower + d) follower
        ≡ some (plain kp limit, pos (amount kp limit d), pos d)
  apply-up follower d h fits =
      apply_steps fl kp limit (follower + d) follower (pos (d * kp / 1_000_000)) (pos d) _
        (raw_error-sub_ℕ (follower + d) follower h (omega arith) ∙ ground arith)
        (proportional-pos d kp fits)
        (clamp_step-pos d (d * kp / 1_000_000) limit low high
          ∙ ap (λ (a : ℕ). some (pos a)) (amount_up kp limit d))

  -- The master is `d + 1` behind.
  apply-down :
      (master d : ℕ)
      → master + suc d < 2 ^ 63
      → suc d * kp < 2 ^ 63
      → apply (plain {fl = fl} kp limit) master (master + suc d)
        ≡ some (plain kp limit, sub_ℕ 0 (amount kp limit (suc d)), negsuc d)
  apply-down master d h fits =
      apply_steps fl kp limit master (master + suc d) (sub_ℕ 0 (suc d * kp / 1_000_000)) (negsuc d)
        _ (raw_error-sub_ℕ master (master + suc d) (omega arith) h ∙ ground arith)
        (proportional-negsuc d kp fits)
        (clamp_step-negsuc d (suc d * kp / 1_000_000) limit low high
          ∙ ap (λ (a : ℕ). some (sub_ℕ 0 a)) (amount_down kp limit d))

  -- A controller with no filter, a gain that is not negative, a positive limit, and clocks below 2
  -- ^ 63 whose error times the gain fits an i64: the call succeeds, leaves the controller as it is
  -- and gives the error and the step, which points toward the master and has the clamped
  -- proportional size, at least 1 where there is an error.
  pub apply-plain :
      (master follower : ℕ)
      → master < 2 ^ 63
      → follower < 2 ^ 63
      → dist master follower * kp < 2 ^ 63
      → apply (plain {fl = fl} kp limit) master follower
        ≡ some (
          plain kp limit,
          signed_step master follower (amount kp limit (dist master follower)),
          sub_ℕ master follower,
        )
  apply-plain master follower hm hf fits = elim (dec_le follower master) [
    | yes up ↦
        let d : dist master follower ≡ master - follower = omega arith in
        let m : follower + (master - follower) ≡ master = omega arith in
        let fits' : (master - follower) * kp < 2 ^ 63 = rw d at fits in
        rw m at (apply-up follower (master - follower) (omega arith) fits') ∙ rw d (ground arith)
    | no down ↦
        let d : dist master follower ≡ suc (follower - master - 1) = omega arith in
        let f : master + suc (follower - master - 1) ≡ follower = omega arith in
        let fits' : suc (follower - master - 1) * kp < 2 ^ 63 = rw d at fits in
        rw f at (apply-down master (follower - master - 1) (omega arith) fits')
        ∙ rw d (ground arith)
  ]

-- The new follower value.
pub new_tsf-moved :
    (kp limit master follower : ℕ)
    → kp ≤ 1_000_000
    → master < 2 ^ 63
    → follower < 2 ^ 63
    → let a = amount kp limit (dist master follower) in
      new_tsf follower (signed_step master follower a) ≡ moved master follower a
new_tsf-moved kp limit master follower gain hm hf =
    let a = amount kp limit (dist master follower) in
    let le : a ≤ dist master follower = amount-le kp limit (dist master follower) gain in
    ground (arith, new_tsf-up follower a, new_tsf-down follower a)
