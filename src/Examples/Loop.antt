-- ===== src/Examples/Loop.antt =====
-- The single-threaded loop over two registers.
use tsf_sync.Prelude.{◌^◌, ◌%◌, ◌≡◌, refl, true, false, some, [], ◌∷◌, arith}
use tsf_sync.Prelude.Int.{pos}
use tsf_sync.Prelude.Lists.{All}
use tsf_sync.Tool.Control.Converge.{plain}
use tsf_sync.Tool.Stats
use tsf_sync.Tool.Rt.Deadline.{at}
use tsf_sync.Tool.Threading.{Params, Single, run_single}
use tsf_sync.Tool.Threading.Together.{stops_after, Nearer, run_single-Nearer}
use tsf_sync.Examples.Hosts.{int_float, Registers, debugfs, registers, follower_file, two_registers}

abbrev loop_params : Params
loop_params = record {
  master = record { fd = 3; pread_ok = true };
  followers = follower_file ∷ record { fd = 5; pread_ok = true } ∷ [];
  period_ns = pos 10_000_000;
  stats_interval_cycles = 1;
  rms_warn_us = 5;
}

abbrev begun : Single int_float
begun = record {
  controllers = plain 10_000 200 ∷ plain 10_000 200 ∷ [];
  stats = Stats.new;
  cycle = 0;
  deadline = at 1 0;
}

run_single-Nearer_test :
    (s' : Single int_float) × (st' : Registers) × (run_single debugfs int_float false loop_params
        (stops_after 3)
        begun
        two_registers
      ≡ (some (s', true), st'))
    × All
        (Nearer debugfs registers int_float false 10_000 200 1000 3 two_registers st')
        loop_params.followers
    × (st' 3 % 2 ^ 64 ≡ 1000)
unfolding two_registers
run_single-Nearer_test =
    run_single-Nearer debugfs registers int_float false loop_params 10_000 200 3 begun two_registers
      (omega arith) (omega arith) (omega arith) (omega arith) refl (omega arith, (omega arith, tt))
      ((omega arith, tt), (tt, tt)) refl
      ((refl, omega arith, omega arith), ((refl, omega arith, omega arith), tt))
