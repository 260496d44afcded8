-- ===== src/Examples/Commands.antt =====
-- The theorems about the commands of both programs at concrete inputs.
use tsf_sync.Prelude.{◌≡◌, ◌↔◌, inl, refl, true, false, Option, none, some, [], ◌∷◌, arith}
use tsf_sync.Prelude.Tests.{if◌then◌else◌}
use tsf_sync.Prelude.Text.{Bytes, codes}
use tsf_sync.Prelude.Strings.{trim, text_eq, parse_i64, parse_digits, scan_digits}
use tsf_sync.Prelude.Int.{pos, ◌*ℤ◌, wrap64, signed64}
use tsf_sync.Sync.Mode.{kernel, iouring, as_kernel_param, param_line}
use tsf_sync.Sync.Discovery.{card_of}
use tsf_sync.Sync.Discovery.Cards.{card_of-IsConsistent}
use tsf_sync.Sync.Table.{needs, status_of, status_of-needs}
use tsf_sync.Sync.Health.{read_param}
use tsf_sync.Sync.Status.{not_installed, kernel_stats, status, status-kernel}
use tsf_sync.Sync.Daemon.{lacks_module}
use tsf_sync.Sync.Module
use tsf_sync.Sync.Module.{unload_tsf_ptp}
use tsf_sync.Sync.Command.{
  Console, finished, stop_all, daemon, run_command, run_command-stop_all, run_command-IsIdle,
}
use tsf_sync.Tool.Control.Converge.{plain}
use tsf_sync.Tool.Debugfs.{ok, open_tsf, read_tsf, read_raw}
use tsf_sync.Tool.Debugfs.Register.{read_tsf-tsf}
use tsf_sync.Tool.Threading.{Params}
use tsf_sync.Tool.Rt.{mlockall, sched_setscheduler, setup_rt}
use tsf_sync.Tool.Main.{
  Cli, runs, set_up, open_followers, build_controllers, prepare, report_cycles, period_of,
}
use tsf_sync.Tool.Main.Arguments.{Fits, Opened, behind_master, set_up-runs}
use tsf_sync.Tool.Control
use tsf_sync.Examples.Hosts.{int_float, debugfs, registers, two_registers}
use tsf_sync.Examples.Stack.{fs, world, quiet_host, pair}

status_of_test :
    (status_of (card_of fs (codes "phy0")) ≡ needs)
    ↔ (lacks_module (card_of fs (codes "phy0")) ≡ true)
status_of_test =
    status_of-needs (card_of fs (codes "phy0")) (card_of-IsConsistent fs (codes "phy0"))

abbrev sysfs : Bytes → Option Bytes
sysfs name =
    some (
      if text_eq name (codes "sync_mode") then param_line (as_kernel_param kernel) else codes "7\n")

mode_file : sysfs (codes "sync_mode") ≡ some (param_line (as_kernel_param kernel))
unfolding text_eq
mode_file = refl

status_test : status sysfs not_installed ≡ (
  kernel_stats kernel (record {
    sync_count = pos 7;
    sync_error_count = pos 7;
    adjtime_skip_count = pos 7;
    adjtime_apply_count = pos 7;
  }),
  some (pos 7, pos 7),
)
unfolding read_param text_eq trim parse_i64 parse_digits scan_digits
status_test =
    status-kernel sysfs not_installed (pos 7) (pos 7) (pos 7) (pos 7) mode_file refl refl refl refl

abbrev console : Console
console = record { module_params = sysfs; pmc = not_installed; write_error = λ path. none }

run_command-stop_all_test :
    let r = run_command (world pair) console [] stop_all [] tt tt in
    (r.1 ≡ (unload_tsf_ptp quiet_host tt).1)
    × (r.2 ≡ tt)
    × ((r.0 ≡ finished) ↔ ((unload_tsf_ptp quiet_host tt).0 ≡ Module.ok tt))
run_command-stop_all_test = run_command-stop_all (world pair) console [] [] tt tt

run_command_idle_test :
    let r =
      run_command
        (world pair)
        console
        []
        (daemon (codes "auto") (codes "10") 5000 iouring 10)
        []
        tt
        tt in
    (r.1 ≡ tt) × (r.2 ≡ tt)
run_command_idle_test =
    run_command-IsIdle (world pair) console [] (daemon (codes "auto") (codes "10") 5000 iouring 10)
      [] tt tt (inl refl)

abbrev args : Cli
args = record {
  master = codes "phy0";
  followers = codes "phy1" ∷ codes "phy2" ∷ [];
  cpu = none;
  period_ms = 10;
  priority = 80;
  kp_ppm = pos 10_000;
  max_step_us = pos 200;
  stats_interval = 5;
  rms_warn = 0;
  kalman = false;
  parallel = true;
}

abbrev params : Params
params = record {
  master = record { fd = 3; pread_ok = true };
  followers = record { fd = 4; pread_ok = true } ∷ record { fd = 5; pread_ok = true } ∷ [];
  period_ns = pos 10_000_000;
  stats_interval_cycles = 500;
  rms_warn_us = 0;
}

comes_to_params :
    (set_up debugfs int_float false (λ c. none) (λ path. true) args two_registers).0
    ≡ runs true params
        (plain 10_000 200 ∷ plain 10_000 200 ∷ [])
        (mlockall ∷ sched_setscheduler 80 ∷ [])
unfolding set_up open_tsf read_tsf read_raw open_followers build_controllers prepare report_cycles
    period_of setup_rt ◌*ℤ◌ wrap64 signed64 Control.new
comes_to_params =
    rw
      (read_tsf-tsf debugfs registers (record { fd = 3; pread_ok = true }) refl false two_registers)
      refl

set_up-runs_example :
    Fits int_float args true params (plain 10_000 200 ∷ plain 10_000 200 ∷ [])
    × ((open_tsf debugfs args.master two_registers).0 ≡ ok (record { fd = 3; pread_ok = true }))
    × Opened debugfs args.followers
        (behind_master debugfs int_float false
          (λ c. none)
          (λ path. true)
          args
          params.master
          two_registers)
        params.followers
set_up-runs_example =
    set_up-runs debugfs int_float false (λ c. none) (λ path. true) args two_registers true params
      (plain 10_000 200 ∷ plain 10_000 200 ∷ []) (mlockall ∷ sched_setscheduler 80 ∷ [])
      (omega arith) (omega arith) comes_to_params
