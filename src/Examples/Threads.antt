-- ===== src/Examples/Threads.antt =====
-- The theorems about `run_parallel` at concrete inputs: a master that cannot be read, and a cycle over
-- two registers.
use tsf_sync.Prelude.{
  ℕ, ◌+◌, ◌%◌, ◌^◌, ◌≡◌, ◌≢◌, ◌⊎◌, refl, true, false, some, List, [], ◌∷◌, arith,
}
use tsf_sync.Prelude.Lists.{length, All}
use tsf_sync.Prelude.Int.{pos, negsuc}
use tsf_sync.Tool.Control.{Controller, apply, new_tsf, clamp_step, proportional, raw_error}
use tsf_sync.Tool.Control.Converge.{plain}
use tsf_sync.Tool.Stats
use tsf_sync.Tool.Stats.{WelfordStats}
use tsf_sync.Tool.Rt.Deadline.{at}
use tsf_sync.Tool.Debugfs.{Kernel, TsfFile, ok, read_tsf, read_raw}
use tsf_sync.Tool.Threading.{correct_all, Params}
use tsf_sync.Tool.Parallel.{
  WorkerPc, ready, released, correcting, written, done, polling, collecting, finished, Worker,
  System, Move, signal, sampler_step, open_first, worker_step, all_at, is_gone, spawn_workers,
  worker_correct, worker_move, move_worker, sampler_move, first_opens, step, begin_parallel,
  run_moves,
}
use tsf_sync.Tool.Parallel.InStep.{run_parallel-published, run_parallel-rms}
use tsf_sync.Tool.Parallel.Shutdown.{run_parallel-hangs}
use tsf_sync.Tool.Parallel.Finish.{remaining, Moves, run_parallel-returns}
use tsf_sync.Tool.Parallel.Cycle.{worker_correct-some}
use tsf_sync.Tool.Parallel.Sequential.{files_of, controllers_of}
use tsf_sync.Tool.Parallel.Refines.{run_parallel-correct_all}
use tsf_sync.Examples.Hosts.{
  int_float, Registers, set, debugfs, registers, follower_file, two_registers,
}

-- Every read fails.
abbrev broken : Kernel
broken = record debugfs {
  St = Unit {0};
  open_file = λ path st. (ok 3, st);
  raw_pread64 = λ fd n st. (negsuc 4, [], st);
  raw_pwrite64 = λ fd buf st. (pos 0, st);
  lseek = λ fd st. st;
  libc_read = λ fd n st. (negsuc 0, [], st);
  libc_write = λ fd buf st. (pos 0, st);
  errno = λ st. 5;
}

abbrev pub params : Params
params = record {
  master = record { fd = 3; pread_ok = true };
  followers = follower_file ∷ record { fd = 5; pread_ok = true } ∷ [];
  period_ns = pos 10_000_000;
  stats_interval_cycles = 100;
  rms_warn_us = 5;
}

abbrev controllers : List (Controller int_float)
controllers = plain 10_000 200 ∷ plain 10_000 200 ∷ []

abbrev first_moves : List Move
first_moves =
    sampler_step
    ∷ worker_step 1
    ∷ sampler_step
    ∷ worker_step 0
    ∷ open_first
    ∷ worker_step 1
    ∷ worker_step 1
    ∷ []

abbrev pub worker : TsfFile → WorkerPc → Worker int_float
worker f pc = record { follower = f; controller = plain 10_000 200; stats = Stats.new; pc = pc }

abbrev mid_cycle : System broken int_float
mid_cycle = record {
  running = true;
  master_tsf = 0;
  sampler = collecting;
  cycle = 0;
  deadline = at 1 0;
  stats = Stats.new;
  workers =
      worker follower_file released
      ∷ worker (record { fd = 5; pread_ok = true }) (correcting 0)
      ∷ [];
  kst = tt;
}

comes_to_mid_cycle :
    run_moves broken int_float false params first_moves
      (begin_parallel broken int_float false params controllers (at 1 0) tt)
    ≡ some mid_cycle
unfolding run_moves step begin_parallel spawn_workers sampler_move first_opens move_worker
    worker_move read_tsf read_raw
comes_to_mid_cycle = refl

run_parallel-published_example :
    (mid_cycle.sampler ≡ collecting) × (◌≡◌ {A = ℕ} 0 (mid_cycle.master_tsf))
run_parallel-published_example =
    run_parallel-published broken int_float false params controllers (at 1 0) tt first_moves
      mid_cycle 1 (worker (record { fd = 5; pread_ok = true }) (correcting 0)) 0 comes_to_mid_cycle
      refl refl

run_parallel-rms_example : Stats.rms (mid_cycle.stats) ≡ pos 0
run_parallel-rms_example =
    run_parallel-rms broken int_float false params controllers (at 1 0) tt first_moves mid_cycle
      comes_to_mid_cycle

abbrev pub other_file : TsfFile
other_file = record { fd = 5; pread_ok = true }

abbrev hung : System broken int_float
hung = record mid_cycle {
  running = false;
  workers = worker follower_file done ∷ worker other_file written ∷ [];
}

abbrev cut : System broken int_float
cut = record mid_cycle { workers = worker follower_file released ∷ worker other_file written ∷ [] }

comes_to_hung :
    run_moves broken int_float false params (signal ∷ worker_step 0 ∷ []) cut ≡ some hung
unfolding run_moves step move_worker worker_move
comes_to_hung = refl

run_parallel-hangs_example : hung.sampler ≢ finished
run_parallel-hangs_example =
    run_parallel-hangs broken int_float false params 0 (worker follower_file released) [] cut hung
      refl refl refl comes_to_hung

abbrev calm_state : System broken int_float
calm_state = record mid_cycle {
  running = false;
  sampler = polling;
  workers = worker follower_file ready ∷ worker other_file ready ∷ [];
}

abbrev last_moves : List Move
last_moves = sampler_step ∷ open_first ∷ worker_step 1 ∷ worker_step 0 ∷ sampler_step ∷ []

abbrev over : System broken int_float
over = record calm_state {
  sampler = finished;
  workers = worker follower_file done ∷ worker other_file done ∷ [];
}

comes_to_over : run_moves broken int_float false params last_moves calm_state ≡ some over
unfolding run_moves step move_worker worker_move sampler_move first_opens
comes_to_over = refl

run_parallel-returns_example :
    (length last_moves + remaining over ≡ remaining calm_state)
    × (((over.sampler ≡ finished) × (all_at is_gone over.workers ≡ true))
        ⊎ Moves broken int_float false params over)
run_parallel-returns_example =
    run_parallel-returns broken int_float false params last_moves calm_state over
      (refl, (refl, (refl, (refl, (refl, tt)))))
      (record { off = refl; late = refl; settled = refl }) comes_to_over

-- A cycle with registers, in which the second worker is the faster one.
abbrev pub opened : System debugfs int_float
opened = record {
  running = true;
  master_tsf = 1000;
  sampler = collecting;
  cycle = 0;
  deadline = at 1 0;
  stats = Stats.new;
  workers = worker follower_file released ∷ worker other_file released ∷ [];
  kst = two_registers;
}

abbrev pub cycle_moves : List Move
cycle_moves =
    worker_step 1
    ∷ worker_step 0
    ∷ worker_step 1
    ∷ worker_step 1
    ∷ worker_step 0
    ∷ worker_step 0
    ∷ []

-- The two corrections, by 10 microseconds each.
abbrev pub fixed : TsfFile → Worker int_float
fixed f = record {
  follower = f;
  controller = plain 10_000 200;
  stats = Stats.update Stats.new (pos 1000) (pos 10);
  pc = written;
}

abbrev pub after_cycle : System debugfs int_float
after_cycle = record opened {
  workers = fixed follower_file ∷ fixed other_file ∷ [];
  kst = set 4 10 (set 5 10 two_registers);
}

fixed_other :
    worker_correct debugfs int_float false (worker other_file (correcting 1000)) 1000 two_registers
    ≡ (fixed other_file, set 5 10 two_registers)
unfolding apply new_tsf two_registers clamp_step proportional raw_error
fixed_other =
    worker_correct-some debugfs registers int_float false (worker other_file (correcting 1000)) 1000
      two_registers (plain 10_000 200) (pos 10) (pos 1000) refl refl

fixed_first :
    worker_correct debugfs int_float false
      (worker follower_file (correcting 1000))
      1000
      (set 5 10 two_registers)
    ≡ (fixed follower_file, set 4 10 (set 5 10 two_registers))
unfolding apply new_tsf two_registers set clamp_step proportional raw_error
fixed_first =
    worker_correct-some debugfs registers int_float false (worker follower_file (correcting 1000))
      1000 (set 5 10 two_registers) (plain 10_000 200) (pos 10) (pos 1000) refl refl

pub comes_to_after_cycle :
    run_moves debugfs int_float false params cycle_moves opened ≡ some after_cycle
unfolding run_moves step move_worker worker_move
comes_to_after_cycle = rw fixed_other (rw fixed_first refl)

run_parallel-correct_all_example :
    (stats' : WelfordStats int_float) × (st' : Registers) × (correct_all debugfs int_float false
        (files_of opened.workers)
        (controllers_of opened.workers)
        Stats.new
        1000
        two_registers
      ≡ (some (controllers_of after_cycle.workers, stats'), st'))
    × All
        (λ w. set 4 10 (set 5 10 two_registers) w.follower.fd % 2 ^ 64 ≡ st' w.follower.fd % 2 ^ 64)
        opened.workers
run_parallel-correct_all_example =
    run_parallel-correct_all debugfs registers int_float false params cycle_moves Stats.new opened
      after_cycle (refl, (refl, tt)) ((omega arith, tt), (tt, tt)) (refl, refl, refl)
      (refl, (refl, (refl, (refl, (refl, (refl, tt)))))) comes_to_after_cycle refl
