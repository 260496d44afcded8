-- ===== src/Tool/Main/Whole.antt =====
-- src/bin/tsf_sync_debugfs/main.rs: the set-up and the loop that it comes to, of one thread or of more.
use tsf_sync.Prelude.{ℕ, ◌≡◌, false}
use tsf_sync.Prelude.Int.{pos}
use tsf_sync.Tool.Float.{Float}
use tsf_sync.Tool.Control
use tsf_sync.Tool.Main.{Cli}

-- Arguments for controllers without a filter.
abbrev pub IsUnfiltered : Cli → ℕ → ℕ → Type 0
IsUnfiltered args kp limit =
    (args.kalman ≡ false) × (args.kp_ppm ≡ pos kp) × (args.max_step_us ≡ pos limit)
