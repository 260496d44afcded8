-- ===== src/Examples/Convergence.antt =====
-- A whole cycle of `run_parallel` over two registers.
use tsf_sync.Prelude.{◌%◌, ◌^◌, ◌≡◌, ◌≢◌, refl, ◌∙◌, true, false, some, List, [], ◌∷◌, ◌++◌, arith}
use tsf_sync.Prelude.Lists.{All}
use tsf_sync.Tool.Rt.Deadline.{at}
use tsf_sync.Tool.Debugfs.{ok, read_tsf}
use tsf_sync.Tool.Debugfs.Register.{read_tsf-tsf}
use tsf_sync.Prelude.Int.{pos}
use tsf_sync.Tool.Stats
use tsf_sync.Tool.Threading.{check_stats, next_deadline}
use tsf_sync.Tool.Parallel.Finish.{is_signal, Moves}
use tsf_sync.Tool.Parallel.Progress.{run_parallel-converges}
use tsf_sync.Tool.Threading.Together.{Nearer, plains}
use tsf_sync.Tool.Parallel.{
  resting, starting, ready, sampling, publishing, polling, crashed, System, Move, sampler_step,
  open_first, open_second, worker_step, all_at, spawn_workers, move_to, worker_move, move_worker,
  sampler_move, first_opens, second_opens, step, begin_parallel, run_moves,
}
use tsf_sync.Tool.Parallel.InStep.{run_moves-cons}
use tsf_sync.Tool.Parallel.Kept.{unless_panicked}
use tsf_sync.Tool.Parallel.Converge.{run_parallel-Nearer}
use tsf_sync.Examples.Hosts.{int_float, follower_file, debugfs, registers, two_registers}
use tsf_sync.Examples.Threads.{
  params, worker, other_file, opened, cycle_moves, after_cycle, comes_to_after_cycle,
}

abbrev last_opening : List Move
last_opening = sampler_step ∷ worker_step 0 ∷ open_first ∷ []

abbrev opening_moves : List Move
opening_moves = worker_step 1 ∷ sampler_step ∷ sampler_step ∷ last_opening

abbrev pub begun : System debugfs int_float
begun =
    begin_parallel debugfs int_float false params (plains 10_000 200 params.followers) (at 1 0)
      two_registers

read_1000 : read_tsf debugfs false params.master two_registers ≡ (ok 1000, two_registers)
unfolding two_registers
read_1000 = read_tsf-tsf debugfs registers params.master refl false two_registers

run_moves-append :
    (mvs later : List Move) (s t : System debugfs int_float)
    → run_moves debugfs int_float false params mvs s ≡ some t
    → run_moves debugfs int_float false params (mvs ++ later) s
      ≡ run_moves debugfs int_float false params later t
unfolding run_moves
run_moves-append [] later s t ran = ground arith
run_moves-append (mv ∷ mvs) later s t ran =
    let (s', e, rest) = run_moves-cons debugfs int_float false params mv mvs s t ran in
    rw (e, run_moves) (run_moves-append mvs later s' t rest)

-- Before the read, and behind it.
abbrev at_read : System debugfs int_float
at_read = record begun {
  sampler = sampling;
  workers = worker follower_file starting ∷ worker other_file ready ∷ [];
}

abbrev behind_read : System debugfs int_float
behind_read = record at_read { sampler = publishing 1000 }

reads : step debugfs int_float false params sampler_step at_read ≡ some behind_read
unfolding step sampler_move begin_parallel
reads = ground (arith, read_1000)

comes_to_opened : run_moves debugfs int_float false params opening_moves begun ≡ some opened
unfolding run_moves step begin_parallel spawn_workers sampler_move first_opens move_worker
    worker_move
comes_to_opened =
    run_moves-append (worker_step 1 ∷ sampler_step ∷ []) (sampler_step ∷ last_opening) begun at_read
      refl
    ∙ run_moves-append (sampler_step ∷ []) last_opening at_read behind_read
        (rw (reads, run_moves) refl)
    ∙ refl

abbrev rested : System debugfs int_float
rested = record after_cycle { sampler = resting; workers = move_to starting after_cycle.workers }

comes_to_rested :
    run_moves debugfs int_float false params
      (opening_moves ++ (cycle_moves ++ open_second ∷ []))
      begun
    ≡ some rested
unfolding run_moves step second_opens
comes_to_rested =
    run_moves-append opening_moves (cycle_moves ++ open_second ∷ []) begun opened comes_to_opened
    ∙ run_moves-append cycle_moves (open_second ∷ []) opened after_cycle comes_to_after_cycle
    ∙ refl

run_parallel-Nearer_test :
    All
      (Nearer debugfs registers int_float false 10_000 200 1000 1 two_registers rested.kst)
      params.followers
    × (rested.kst 3 % 2 ^ 64 ≡ 1000)
    × (all_at unless_panicked rested.workers ≡ true)
    × (rested.sampler ≢ crashed)
unfolding two_registers
run_parallel-Nearer_test =
    run_parallel-Nearer debugfs registers int_float false params 10_000 200
      (opening_moves ++ (cycle_moves ++ open_second ∷ [])) (at 1 0) two_registers rested
      (omega arith) (omega arith) (omega arith) (omega arith) refl (omega arith, (omega arith, tt))
      ((omega arith, tt), (tt, tt))
      ((refl, omega arith, omega arith), ((refl, omega arith, omega arith), tt)) comes_to_rested

-- The last step of the sampler in the cycle.
abbrev pub polled : System debugfs int_float
polled = record rested {
  sampler = polling;
  cycle = 1;
  stats = (check_stats Stats.new 1 100 5).0;
  deadline = next_deadline (at 1 0) (pos 10_000_000);
}

abbrev pub whole_cycle : List Move
whole_cycle = (opening_moves ++ (cycle_moves ++ open_second ∷ [])) ++ sampler_step ∷ []

pub comes_to_polled : run_moves debugfs int_float false params whole_cycle begun ≡ some polled
unfolding run_moves step sampler_move
comes_to_polled =
    run_moves-append (opening_moves ++ (cycle_moves ++ open_second ∷ [])) (sampler_step ∷ []) begun
      rested comes_to_rested
    ∙ refl

pub no_signal : All (λ mv. is_signal mv ≡ false) whole_cycle
no_signal = (
  refl,
  (
    refl,
    (
      refl,
      (refl, (refl, (refl, (refl, (refl, (refl, (refl, (refl, (refl, (refl, (refl, tt))))))))))),
    ),
  ),
)

run_parallel-converges_test :
    All
      (Nearer debugfs registers int_float false 10_000 200 1000 1 two_registers polled.kst)
      params.followers
    × Moves debugfs int_float false params polled
unfolding two_registers
run_parallel-converges_test =
    run_parallel-converges debugfs registers int_float false params 10_000 200 1 whole_cycle
      (at 1 0) two_registers polled (omega arith) (omega arith) (omega arith) (omega arith) refl
      (omega arith, (omega arith, tt)) ((omega arith, tt), (tt, tt))
      ((refl, omega arith, omega arith), ((refl, omega arith, omega arith), tt)) no_signal
      comes_to_polled (omega arith)
