-- ===== src/Examples/Whole.antt =====
-- The tool from its arguments to the end of its single-threaded loop, over two registers.
use tsf_sync.Prelude.{false, true, none, [], ◌∷◌}
use tsf_sync.Prelude.Int.{pos}
use tsf_sync.Prelude.Text.{codes}
use tsf_sync.Tool.Control
use tsf_sync.Tool.Threading.{Params}
use tsf_sync.Tool.Main.{Cli, Setup, set_up}
use tsf_sync.Examples.Threads
use tsf_sync.Examples.Hosts.{int_float, Registers, debugfs, two_registers}

abbrev args : Cli
args = record {
  master = codes "phy0";
  followers = codes "phy1" ∷ codes "phy2" ∷ [];
  cpu = none;
  period_ms = 10;
  priority = 80;
  kp_ppm = pos 10_000;
  max_step_us = pos 200;
  stats_interval = 5;
  rms_warn = 0;
  kalman = false;
  parallel = false;
}

abbrev params : Params
params = record {
  master = record { fd = 3; pread_ok = true };
  followers = record { fd = 4; pread_ok = true } ∷ record { fd = 5; pread_ok = true } ∷ [];
  period_ns = pos 10_000_000;
  stats_interval_cycles = 500;
  rms_warn_us = 0;
}

abbrev made : Setup int_float × Registers
made = set_up debugfs int_float false (λ c. none) (λ path. true) args two_registers

abbrev left : Registers
left = made.1

-- The parallel loop.
abbrev args_parallel : Cli
args_parallel = record args { stats_interval = 1; rms_warn = 5; parallel = true }

abbrev made_parallel : Setup int_float × Registers
made_parallel =
    set_up debugfs int_float false (λ c. none) (λ path. true) args_parallel two_registers

abbrev left_parallel : Registers
left_parallel = made_parallel.1
