-- ===== src/Tool/Parallel.antt =====
-- src/bin/tsf_sync_debugfs/threading.rs, `run_parallel`: the sampler and its workers, one step of one
-- thread at a time. A barrier is for all the threads, and each waits at it once in a cycle: so it
-- opens when all of them wait at it, which is a step of the system. RUNNING is the flag of signal.rs.
pub mod Places
pub mod InStep
pub mod Shutdown
pub mod Finish
pub mod Cycle
pub mod Rounds
pub mod Sequential
pub mod Refines
pub mod Nearer
pub mod Kept
pub mod Converge
pub mod Pace
pub mod Onward
pub mod Progress
use tsf_sync.Prelude.{
  ℕ, zero, suc, ◌+◌, ◌%◌, ◌^◌, Bool, true, false, ◌&&◌, ◌||◌, Option, none, some, List, [], ◌∷◌,
  ◌≡◌, refl, map,
}
use tsf_sync.Prelude.Tests.{if◌then◌else◌}
use tsf_sync.Prelude.Int.{ℤ}
use tsf_sync.Tool.Float.{Float}
use tsf_sync.Tool.Control.{Controller}
use tsf_sync.Tool.Stats.{WelfordStats}
use tsf_sync.Tool.Stats
use tsf_sync.Tool.Rt.{Timespec}
use tsf_sync.Tool.Debugfs.{Kernel, TsfFile, Outcome, ok, err, panic, read_tsf}
use tsf_sync.Tool.Threading.{correct_follower, check_stats, next_deadline, Params}

-- Where a worker stands: before its test of RUNNING, waiting at the first barrier, behind it, before
-- the load of the master's value, with that value, waiting at the second barrier, out of the loop,
-- or stopped by a panic.
pub data WorkerPc : Type 0 where
  starting ready released loading : WorkerPc
  correcting : ℕ → WorkerPc
  written done panicked : WorkerPc

-- Where the sampler stands: before its test of RUNNING, before the read, with the value to publish,
-- waiting at the first and at the second barrier, behind it, waiting at the first barrier after the
-- loop, joining the workers, returned, or stopped by a panic.
pub data SamplerPc : Type 0 where
  polling sampling : SamplerPc
  publishing : ℕ → SamplerPc
  meeting collecting resting leaving joining finished crashed : SamplerPc

pub record Worker (fl : Float) : Type 0 where
  pub follower : TsfFile
  pub controller : Controller fl
  pub stats : WelfordStats fl
  pub pc : WorkerPc

-- The threads, and what they share.
pub record System (k : Kernel) (fl : Float) : Type 0 where
  pub running : Bool
  pub master_tsf : ℕ
  pub sampler : SamplerPc
  pub cycle : ℕ
  pub deadline : Timespec
  pub stats : WelfordStats fl
  pub workers : List (Worker fl)
  pub kst : k.St

-- Which thread moves; `signal` is the handler of signal.rs.
pub data Move : Type 0 where
  signal sampler_step open_first open_second : Move
  worker_step : ℕ → Move

abbrev pub is_ready : WorkerPc → Bool
is_ready ready = true
is_ready _ = false

abbrev pub is_written : WorkerPc → Bool
is_written written = true
is_written _ = false

-- Out of the loop, by its end or by a panic.
abbrev pub is_gone : WorkerPc → Bool
is_gone done = true
is_gone panicked = true
is_gone _ = false

module _ {fl : Float} where
  abbrev pub all_at : (WorkerPc → Bool) → List (Worker fl) → Bool
  all_at p [] = true
  all_at p (w ∷ ws) = p w.pc && all_at p ws

  abbrev pub move_to : WorkerPc → List (Worker fl) → List (Worker fl)
  move_to pc [] = []
  move_to pc (w ∷ ws) = record w { pc = pc } ∷ move_to pc ws

  -- The workers that are spawned, for `followers.into_iter().zip(controllers)`.
  unfoldable pub spawn_workers : List TsfFile → List (Controller fl) → List (Worker fl)
  spawn_workers [] cs = []
  spawn_workers (f ∷ fs) [] = []
  spawn_workers (f ∷ fs) (c ∷ cs) =
      record { follower = f; controller = c; stats = Stats.new; pc = starting }
      ∷ spawn_workers fs cs

module _ (k : Kernel) (fl : Float) (has_ssse3 : Bool) where
  -- The correction of a worker, and what it notes of it.
  unfoldable pub worker_correct : Worker fl → ℕ → k.St → Worker fl × k.St
  worker_correct w master_tsf st =
      let (r, st') = correct_follower k fl has_ssse3 w.follower w.controller master_tsf st in
      (
        elim r [
          | none ↦ record w { pc = panicked }
          | some (controller, none) ↦ record w { controller = controller; pc = written }
          | some (controller, some (step, e)) ↦ record w {
            controller = controller;
            stats = Stats.update w.stats e step;
            pc = written;
          }
        ],
        st',
      )

  -- A step of a worker at a place; `none` where it waits or is gone. Out of the loop it prints its
  -- statistics and resets them.
  unfoldable pub worker_move : WorkerPc → Bool → ℕ → Worker fl → k.St → Option (Worker fl × k.St)
  worker_move starting running master_tsf w st =
      some
        (if running then record w { pc = ready } else record w { stats = Stats.new; pc = done }, st)
  worker_move released running master_tsf w st =
      some (
        if running then record w { pc = loading } else record w { stats = Stats.new; pc = done },
        st,
      )
  worker_move loading running master_tsf w st = some (record w { pc = correcting master_tsf }, st)
  worker_move (correcting v) running master_tsf w st = some (worker_correct w v st)
  worker_move ready running master_tsf w st = none
  worker_move written running master_tsf w st = none
  worker_move done running master_tsf w st = none
  worker_move panicked running master_tsf w st = none

  -- The worker with a number moves; `none` also where there is none.
  unfoldable pub move_worker :
      ℕ → Bool → ℕ → List (Worker fl) → k.St → Option (List (Worker fl) × k.St)
  move_worker i running master_tsf [] st = none
  move_worker zero running master_tsf (w ∷ ws) st =
      elim (worker_move w.pc running master_tsf w st) [
        | none ↦ none
        | some (w', st') ↦ some (w' ∷ ws, st')
      ]
  move_worker (suc i) running master_tsf (w ∷ ws) st =
      elim (move_worker i running master_tsf ws st) [
        | none ↦ none
        | some (ws', st') ↦ some (w ∷ ws', st')
      ]

  module _ (ps : Params) where
    -- A step of the sampler; `none` where it waits or has returned.
    unfoldable pub sampler_move : SamplerPc → System k fl → Option (System k fl)
    sampler_move polling s = some (record s { sampler = if s.running then sampling else leaving })
    sampler_move sampling s =
        let (r, st') = read_tsf k has_ssse3 ps.master s.kst in
        some (record s {
          sampler = elim r [ ok v ↦ publishing v | err e ↦ meeting | panic ↦ crashed ];
          kst = st';
        })
    sampler_move (publishing v) s = some (record s { master_tsf = v; sampler = meeting })
    sampler_move resting s =
        let cycle' = (s.cycle + 1) % 2 ^ 64 in
        some (record s {
          cycle = cycle';
          stats = (check_stats s.stats cycle' ps.stats_interval_cycles ps.rms_warn_us).0;
          deadline = next_deadline s.deadline ps.period_ns;
          sampler = polling;
        })
    sampler_move joining s =
        if all_at is_gone s.workers then some (record s { sampler = finished }) else none
    sampler_move meeting s = none
    sampler_move collecting s = none
    sampler_move leaving s = none
    sampler_move finished s = none
    sampler_move crashed s = none

    -- The first barrier opens; the sampler waits at it in the loop, or after it.
    unfoldable pub first_opens : SamplerPc → System k fl → Option (System k fl)
    first_opens meeting s =
        if all_at is_ready s.workers
        then some (record s { sampler = collecting; workers = move_to released s.workers })
        else none
    first_opens leaving s =
        if all_at is_ready s.workers
        then some (record s { sampler = joining; workers = move_to released s.workers })
        else none
    first_opens _ s = none

    unfoldable pub second_opens : SamplerPc → System k fl → Option (System k fl)
    second_opens collecting s =
        if all_at is_written s.workers
        then some (record s { sampler = resting; workers = move_to starting s.workers })
        else none
    second_opens _ s = none

    -- The state after a move that can be made.
    unfoldable pub step : Move → System k fl → Option (System k fl)
    step signal s = some (record s { running = false })
    step sampler_step s = sampler_move s.sampler s
    step open_first s = first_opens s.sampler s
    step open_second s = second_opens s.sampler s
    step (worker_step i) s = elim (move_worker i s.running s.master_tsf s.workers s.kst) [
      | none ↦ none
      | some (ws, st') ↦ some (record s { workers = ws; kst = st' })
    ]

    -- `run_parallel` up to its first test of RUNNING, and the moves from there in some order.
    unfoldable pub begin_parallel : List (Controller fl) → Timespec → k.St → System k fl
    begin_parallel controllers now st = record {
      running = true;
      master_tsf = 0;
      sampler = polling;
      cycle = 0;
      deadline = now;
      stats = Stats.new;
      workers = spawn_workers ps.followers controllers;
      kst = st;
    }

    unfoldable pub run_moves : List Move → System k fl → Option (System k fl)
    run_moves [] s = some s
    run_moves (mv ∷ mvs) s = elim (step mv s) [ none ↦ none | some s' ↦ run_moves mvs s' ]
