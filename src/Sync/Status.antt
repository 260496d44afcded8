-- ===== src/Sync/Status.antt =====
-- src/daemon.rs, `status`, and `query_health` of src/health.rs: what is shown of the sync. The
-- parameters of the module are the texts that sysfs shows, and pmc is a parameter.
use tsf_sync.Prelude.{ℕ, ◌≡◌, Option, none, some, List, [], ◌∷◌}
use tsf_sync.Prelude.Text.{Bytes, codes}
use tsf_sync.Prelude.Int.{ℤ}
use tsf_sync.Sync.Mode.{
  SyncMode, ptp, kernel, iouring, detect_active_sync_mode, as_kernel_param, param_line,
  detect-as_kernel_param,
}
use tsf_sync.Sync.Health.{
  ClockStatus, KernelSyncStatus, parse_port_data_set, query_kernel_sync_health, read_param,
}
use tsf_sync.Sync.Table.{format_status_table}

-- What running pmc gives.
pub data Pmc : Type 0 where
  not_installed : Pmc
  not_run : ℕ → Pmc
  output : Bytes → Pmc

-- `query_health`
unfoldable pub query_health : Pmc → Option (List ClockStatus)
query_health not_installed = none
query_health (not_run e) = none
query_health (output text) = some (parse_port_data_set text)

-- What the first part shows.
pub data Shown : Type 0 where
  kernel_stats : SyncMode → KernelSyncStatus → Shown
  kernel_error no_clocks pmc_error : Shown
  table : Bytes → Shown

abbrev pub show_kernel : SyncMode → Option KernelSyncStatus → Shown
show_kernel mode none = kernel_error
show_kernel mode (some stats) = kernel_stats mode stats

abbrev pub show_clocks : Option (List ClockStatus) → Shown
show_clocks none = pmc_error
show_clocks (some []) = no_clocks
show_clocks (some (s ∷ statuses)) = table (format_status_table (s ∷ statuses))

abbrev pub show_mode : (Bytes → Option Bytes) → Pmc → Option SyncMode → Shown
show_mode sysfs pmc (some kernel) = show_kernel kernel (query_kernel_sync_health sysfs)
show_mode sysfs pmc (some iouring) = show_kernel iouring (query_kernel_sync_health sysfs)
show_mode sysfs pmc (some ptp) = show_clocks (query_health pmc)
show_mode sysfs pmc none = show_clocks (query_health pmc)

-- The counters of the last line, applied and skipped.
abbrev pub counters : Option ℤ → Option ℤ → Option (ℤ × ℤ)
counters none apply = none
counters (some skip) none = none
counters (some skip) (some apply) = some (apply, skip)

unfoldable pub status : (Bytes → Option Bytes) → Pmc → Shown × Option (ℤ × ℤ)
status sysfs pmc = (
  show_mode sysfs pmc (detect_active_sync_mode (sysfs (codes "sync_mode"))),
  counters (read_param sysfs (codes "adjtime_skip_count"))
      (read_param sysfs (codes "adjtime_apply_count")),
)

-- With the module loaded in the kernel's mode and its four counters readable, `status` shows that
-- mode with the counters, and does not ask pmc: the result is the same for every answer of it.
pub status-kernel :
    (sysfs : Bytes → Option Bytes) (pmc : Pmc) (synced errors skipped applied : ℤ)
    → sysfs (codes "sync_mode") ≡ some (param_line (as_kernel_param kernel))
    → read_param sysfs (codes "sync_count") ≡ some synced
    → read_param sysfs (codes "sync_error_count") ≡ some errors
    → read_param sysfs (codes "adjtime_skip_count") ≡ some skipped
    → read_param sysfs (codes "adjtime_apply_count") ≡ some applied
    → status sysfs pmc ≡ (
      kernel_stats kernel (record {
        sync_count = synced;
        sync_error_count = errors;
        adjtime_skip_count = skipped;
        adjtime_apply_count = applied;
      }),
      some (applied, skipped),
    )
unfolding status query_kernel_sync_health
status-kernel sysfs pmc synced errors skipped applied mode e1 e2 e3 e4 =
    rw (mode, status) (rw (detect-as_kernel_param kernel, status) (rw (e1, e2, e3, e4)))
