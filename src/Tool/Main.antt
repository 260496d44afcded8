-- ===== src/Tool/Main.antt =====
-- src/bin/tsf_sync_debugfs/main.rs and cli.rs: what the tool does with its arguments, those that clap
-- has parsed, up to the call of the loop.
pub mod Arguments
pub mod Whole
use tsf_sync.Prelude.{
  ℕ, ◌⊎◌, inl, inr, ◌*◌, ◌/◌, ◌%◌, ◌^◌, ◌<◌, ◌≡◌, refl, ap, ◌∙◌, suc, Bool, true, false, Option,
  none, some, List, [], ◌∷◌, arith,
}
use tsf_sync.Prelude.Tests.{ltb, ◌==◌, if◌then◌else◌, Bool-cases}
use tsf_sync.Prelude.Lists.{length}
use tsf_sync.Prelude.Int.{ℤ, pos, wrap64, wrap64_fits, signed64, ◌*ℤ◌}
use tsf_sync.Prelude.Text.{Bytes, codes}
use tsf_sync.Tool.Float.{Float}
use tsf_sync.Tool.Control.{Controller}
use tsf_sync.Tool.Control
use tsf_sync.Tool.Rt.{RtCall, setup_rt}
use tsf_sync.Tool.Debugfs.{Kernel, TsfFile, IoError, Outcome, ok, err, panic, open_tsf, read_tsf}
use tsf_sync.Tool.Threading.{Params}

pub record Cli : Type 0 where
  pub master : Bytes
  pub followers : List Bytes
  pub cpu : Option ℕ
  pub period_ms : ℕ
  pub priority : ℕ
  pub kp_ppm : ℤ
  pub max_step_us : ℤ
  pub stats_interval : ℕ
  pub rms_warn : ℕ
  pub kalman : Bool
  pub parallel : Bool

-- How the set-up ends: the exit with status 1, a panic, or the call of `run_single` or `run_parallel`
-- with its arguments, behind the calls of the real-time set-up.
pub data Setup (fl : Float) : Type 0 where
  exits panics : Setup fl
  runs : Bool → Params → List (Controller fl) → List RtCall → Setup fl

-- The cycles between two reports, in u64; the division by a period of zero is a panic.
unfoldable pub report_cycles : ℕ → ℕ → Option ℕ
report_cycles stats_interval period_ms =
    if ltb 0 stats_interval
    then if period_ms == 0 then none else some ((stats_interval * 1000 % 2 ^ 64) / period_ms)
    else some 0

-- `period_ms as i64 * 1_000_000`
unfoldable pub period_of : ℕ → ℤ
period_of period_ms = wrap64 (signed64 period_ms *ℤ pos 1_000_000)

module _ (k : Kernel) where
  -- The `for` over the paths of the followers; the first that fails ends the program.
  unfoldable pub open_followers : List Bytes → k.St → Outcome (List TsfFile) × k.St
  open_followers [] st = (ok [], st)
  open_followers (path ∷ paths) st =
      let (opened, st1) = open_tsf k path st in
      let (rest, st2) = open_followers paths st1 in
      elim opened [
        | ok f ↦ (elim rest [ ok fs ↦ ok (f ∷ fs) | err e ↦ err e | panic ↦ panic ], st2)
        | err e ↦ (err e, st1)
        | panic ↦ (panic, st1)
      ]

module _ (fl : Float) where
  -- `(0..followers.len()).map(|_| Controller::new(..))`
  unfoldable pub build_controllers : List TsfFile → Cli → List (Controller fl)
  build_controllers [] args = []
  build_controllers (f ∷ fs) args =
      Control.new args.kp_ppm args.max_step_us args.kalman ∷ build_controllers fs args

  -- From the opened files on.
  unfoldable pub prepare : (RtCall → Option ℕ) → Cli → TsfFile → List TsfFile → Setup fl
  prepare os args master followers =
      let (calls, _) = setup_rt os args.priority args.cpu in
      elim (report_cycles args.stats_interval args.period_ms) [
        | none ↦ panics
        | some cycles ↦
            runs args.parallel
              (record {
                master = master;
                followers = followers;
                period_ns = period_of args.period_ms;
                stats_interval_cycles = cycles;
                rms_warn_us = args.rms_warn;
              })
              (build_controllers followers args) calls
      ]

-- A step that can fail: its error ends the program, its panic too.
abbrev pub on_ok {ℓ} :
    {A : Type ℓ} {St : Type 0} {fl : Float}
    → Outcome A × St
    → (A → St → Setup fl × St)
    → Setup fl × St
on_ok (ok a, st) next = next a st
on_ok (err e, st) next = (exits, st)
on_ok (panic, st) next = (panics, st)

module _ (k : Kernel) (fl : Float) (has_ssse3 : Bool) (os : RtCall → Option ℕ)
    (exists : Bytes → Bool) where
  -- Behind the reading of the master.
  abbrev pub with_followers : Cli → TsfFile → k.St → Setup fl × k.St
  with_followers args master st =
      on_ok (open_followers k args.followers st)
        (λ followers st'. (prepare fl os args master followers, st'))

  abbrev pub with_master : Cli → TsfFile → k.St → Setup fl × k.St
  with_master args master st =
      on_ok (read_tsf k has_ssse3 master st) (λ tsf st'. with_followers args master st')

  unfoldable pub set_up : Cli → k.St → Setup fl × k.St
  set_up args st =
      if exists (codes "/sys/kernel/debug")
      then on_ok (open_tsf k args.master st) (with_master args)
      else (exits, st)
