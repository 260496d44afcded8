-- ===== src/Tool/Threading.antt =====
-- src/bin/tsf_sync_debugfs/threading.rs: the correction of one follower, the report of the
-- statistics and the single-threaded loop.
pub mod Correction
pub mod Follower
pub mod Locks
pub mod Together
use tsf_sync.Prelude.{
  ℕ, zero, suc, ◌+◌, ◌-◌, ◌*◌, ◌/◌, ◌%◌, ◌^◌, ◌<◌, ◌≤◌, Bool, true, false, ◌&&◌, ◌||◌, Option, none,
  some, List, [], ◌∷◌, ◌++◌, ◌≡◌, refl, ◌∙◌, arith, not,
}
use tsf_sync.Prelude.Tests.{ltb, ◌==◌, if◌then◌else◌}
use tsf_sync.Prelude.Int.{ℤ, pos}
use tsf_sync.Tool.Float.{Float}
use tsf_sync.Tool.Control.{Controller, apply, new_tsf}
use tsf_sync.Tool.Stats.{WelfordStats}
use tsf_sync.Tool.Stats
use tsf_sync.Tool.Rt.{Timespec, advance_deadline}
use tsf_sync.Tool.Debugfs.{Kernel, TsfFile, Outcome, ok, err, panic, read_tsf, write_tsf}

-- The errors of the write are dropped; a panic is not.
abbrev pub after {ℓ} : {A : Type ℓ} → Outcome (Unit {0}) → A → Option A
after panic a = none
after _ a = some a

module _ {fl : Float} where
  -- The statistics afterwards, the value that was reported, and whether it was warned of.
  unfoldable pub check_stats :
      WelfordStats fl → ℕ → ℕ → ℕ → WelfordStats fl × Option (fl.F64 × Bool)
  check_stats stats cycle interval rms_warn_us =
      if ltb 0 interval && cycle % interval == 0
      then (let (fresh, rms) = Stats.print_and_reset stats in
          (fresh, some (rms, ltb 0 rms_warn_us && fl.gt rms (fl.of_u64 rms_warn_us))))
      else (stats, none)

module _ (k : Kernel) (fl : Float) (has_ssse3 : Bool) where
  -- The controller afterwards, the step and the error unless the read failed; `none` is a panic.
  unfoldable pub correct_follower :
      TsfFile → Controller fl → ℕ → k.St → Option (Controller fl × Option (ℤ × ℤ)) × k.St
  correct_follower follower controller master_tsf st =
      let (r, st1) = read_tsf k has_ssse3 follower st in
      elim r [
        | panic ↦ (none, st1)
        | err e ↦ (some (controller, none), st1)
        | ok follower_tsf ↦ elim (apply controller master_tsf follower_tsf) [
          | none ↦ (none, st1)
          | some (controller', step, e) ↦
              let (w, st2) = write_tsf k follower (new_tsf follower_tsf step) st1 in
              (after w (controller', some (step, e)), st2)
        ]
      ]

  -- The `for` over the followers; `controllers[i]` out of range is a panic.
  unfoldable pub correct_all :
      List TsfFile
      → List (Controller fl)
      → WelfordStats fl
      → ℕ
      → k.St
      → Option (List (Controller fl) × WelfordStats fl) × k.St
  correct_all [] controllers stats master_tsf st = (some (controllers, stats), st)
  correct_all (f ∷ fs) [] stats master_tsf st = (none, st)
  correct_all (f ∷ fs) (c ∷ cs) stats master_tsf st =
      let (r, st1) = correct_follower f c master_tsf st in
      elim r [
        | none ↦ (none, st1)
        | some (c', observed) ↦
            let stats' : WelfordStats fl = elim observed [
              | none ↦ stats
              | some (step, e) ↦ Stats.update stats e step
            ] in
            let (rest, st2) = correct_all fs cs stats' master_tsf st1 in
            (elim rest [ none ↦ none | some (cs', stats'') ↦ some (c' ∷ cs', stats'') ], st2)
      ]

-- The local variables of `run_single`.
pub record Single (fl : Float) : Type 0 where
  pub controllers : List (Controller fl)
  pub stats : WelfordStats fl
  pub cycle : ℕ
  pub deadline : Timespec

-- Before the first test of `RUNNING`.
unfoldable pub begin_single : {fl : Float} → List (Controller fl) → Timespec → Single fl
begin_single controllers now = record {
  controllers = controllers;
  stats = Stats.new;
  cycle = 0;
  deadline = now;
}

-- The deadline of the next cycle; `Rt.Deadline` shows that the fuel is enough.
abbrev pub next_deadline : Timespec → ℤ → Timespec
next_deadline ts period_ns = elim (advance_deadline ts period_ns) [ none ↦ ts | some ts' ↦ ts' ]

-- The arguments of `run_single` and `run_parallel`.
pub record Params : Type 0 where
  pub master : TsfFile
  pub followers : List TsfFile
  pub period_ns : ℤ
  pub stats_interval_cycles : ℕ
  pub rms_warn_us : ℕ

module _ (k : Kernel) (fl : Float) (has_ssse3 : Bool) (ps : Params) where
  -- One round of the loop: a failed read of the master leaves all but the deadline alone.
  unfoldable pub round : Single fl → k.St → Option (Single fl) × k.St
  round s st =
      let later = next_deadline s.deadline ps.period_ns in
      let (r, st1) = read_tsf k has_ssse3 ps.master st in
      elim r [
        | panic ↦ (none, st1)
        | err e ↦ (some (record s { deadline = later }), st1)
        | ok master_tsf ↦
            let (all, st2) =
              correct_all k fl has_ssse3 ps.followers s.controllers s.stats master_tsf st1 in
            (
              elim all [
                | none ↦ none
                | some (controllers, stats) ↦
                    let cycle = (s.cycle + 1) % 2 ^ 64 in
                    let (stats', _) =
                      check_stats stats cycle ps.stats_interval_cycles ps.rms_warn_us in
                    some (record {
                      controllers = controllers;
                      stats = stats';
                      cycle = cycle;
                      deadline = later;
                    })
              ],
              st2,
            )
      ]

  -- The loop over the values of `RUNNING` that its tests load. The result is `none` after a panic;
  -- the flag says whether the loop has been left.
  unfoldable pub run_single : List Bool → Single fl → k.St → Option (Single fl × Bool) × k.St
  run_single [] s st = (some (s, false), st)
  run_single (false ∷ loads) s st =
      (some (record s { stats = (Stats.print_and_reset s.stats).0 }, true), st)
  run_single (true ∷ loads) s st =
      let (r, st1) = round s st in elim r [ none ↦ (none, st1) | some s' ↦ run_single loads s' st1 ]
