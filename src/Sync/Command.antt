-- ===== src/Sync/Command.antt =====
-- src/main.rs, `run`: the commands of tsf-sync, built without the `iouring` feature. The arguments are
-- those that clap has parsed; what is printed or written is part of the reply.
use tsf_sync.Prelude.{
  ℕ, ◌≡◌, ◌↔◌, ◌⊎◌, refl, Bool, true, false, Option, none, some, List, [], ◌∷◌, arith,
}
use tsf_sync.Prelude.Int.{ℤ}
use tsf_sync.Prelude.Tests.{if◌then◌else◌}
use tsf_sync.Prelude.Text.{Bytes, codes}
use tsf_sync.Sync.Mode.{SyncMode, iouring}
use tsf_sync.Sync.Discovery.{WifiCard, discover_cards}
use tsf_sync.Sync.Config
use tsf_sync.Sync.Config.{ConfigError, generate_config}
use tsf_sync.Sync.Module
use tsf_sync.Sync.Module.{unload_tsf_ptp, module_name, unload_module, is_tsf_ptp_loaded}
use tsf_sync.Sync.Interval.{parse_interval}
use tsf_sync.Sync.Table.{format_table}
use tsf_sync.Sync.Status.{Pmc, Shown, status}
use tsf_sync.Sync.Daemon
use tsf_sync.Sync.Daemon.{
  DaemonError, module_error, SyncState, phc2sys, World, HostState, ProcState, start, run_daemon,
}

pub data Command : Type 0 where
  discover show_status stop_all : Command
  config : Bytes → Option Bytes → Command
  start_stack : Bytes → ℕ → SyncMode → ℕ → Command
  daemon : Bytes → Bytes → ℕ → SyncMode → ℕ → Command

pub data RunError : Type 0 where
  discovery_failed no_iouring bad_interval : RunError
  config_failed : ConfigError → RunError
  write_failed : ℕ → RunError
  daemon_failed : DaemonError → RunError

-- What a command comes to: a text that is printed, a file that is written, what `status` shows, an
-- end with nothing shown, a stack that is held in an endless loop, an error, or a panic.
pub data Reply : Type 0 where
  printed : Bytes → Reply
  wrote : Bytes → Bytes → Reply
  shown : Shown → Option (ℤ × ℤ) → Reply
  finished panicked : Reply
  holds : SyncState → Reply
  failed : RunError → Reply

-- What the commands read and write besides: the parameters of the module, the answer of pmc and the
-- error of a write to a file.
pub record Console : Type 0 where
  pub module_params : Bytes → Option Bytes
  pub pmc : Pmc
  pub write_error : Bytes → Option ℕ

abbrev pub is_iouring : SyncMode → Bool
is_iouring iouring = true
is_iouring _ = false

module _ (w : World) (console : Console) (linuxptp : Bytes) where
  abbrev discovered : Option (List WifiCard) → Reply
  discovered none = failed discovery_failed
  discovered (some []) = printed (codes "No WiFi cards found.\n")
  discovered (some (c ∷ cards)) = printed (format_table (c ∷ cards))

  abbrev configured : Option Bytes → Option (Config.Result Bytes) → Reply
  configured output none = panicked
  configured output (some (Config.err e)) = failed (config_failed e)
  configured none (some (Config.ok text)) = printed text
  configured (some path) (some (Config.ok text)) = elim (console.write_error path) [
    | none ↦ wrote path text
    | some e ↦ failed (write_failed e)
  ]

  abbrev started : Daemon.Result SyncState → Reply
  started (Daemon.ok state) = holds state
  started (Daemon.err e) = failed (daemon_failed e)

  abbrev ended : Daemon.Result SyncState → Reply
  ended (Daemon.ok state) = finished
  ended (Daemon.err e) = failed (daemon_failed e)

  -- The values of `running` that the daemon's loop loads are `loads`.
  unfoldable pub run_command :
      Command → List (Bool × Bool) → HostState w → ProcState w → Reply × HostState w × ProcState w
  run_command discover loads hs ps = (discovered (discover_cards (w.sysfs hs)), hs, ps)
  run_command (config primary output) loads hs ps = (
    elim (discover_cards (w.sysfs hs)) [
      | none ↦ failed discovery_failed
      | some cards ↦ configured output (generate_config cards primary)
    ],
    hs,
    ps,
  )
  run_command (start_stack primary threshold mode interval) loads hs ps =
      if is_iouring mode
      then (failed no_iouring, hs, ps)
      else (let (r, hs', ps') = start w primary linuxptp threshold mode interval hs ps in
          (started r, hs', ps'))
  run_command show_status loads hs ps =
      let (what, counts) = status console.module_params console.pmc in (shown what counts, hs, ps)
  run_command stop_all loads hs ps =
      let (r, hs', ps') = Daemon.stop w (phc2sys []) hs ps in (ended r, hs', ps')
  run_command (daemon primary interval_text threshold mode interval) loads hs ps =
      if is_iouring mode then (failed no_iouring, hs, ps) else elim (parse_interval interval_text) [
        | none ↦ (failed bad_interval, hs, ps)
        | some _ ↦
            let (r, hs', ps') = run_daemon w primary linuxptp threshold mode interval loads hs ps in
            (ended r, hs', ps')
      ]

  ended-finished :
      (r : Module.Result (Unit {0}))
      → (ended (elim r [
        | Module.err e ↦ Daemon.err (module_error e)
        | Module.ok _ ↦ Daemon.ok (phc2sys [])
      ])
          ≡ finished)
        ↔ (r ≡ Module.ok tt)
  ended-finished (Module.ok tt) = (λ h. refl, λ h. refl)
  ended-finished (Module.err e) = ground arith

  -- `stop` leaves every process alone, also the phc2sys processes that an earlier `start` holds: all
  -- it does is to unload the module, and it fails exactly as the unloading does.
  pub run_command-stop_all :
      (loads : List (Bool × Bool)) (hs : HostState w) (ps : ProcState w)
      → let r = run_command stop_all loads hs ps in
        (r.1 ≡ (unload_tsf_ptp w.host hs).1)
        × (r.2 ≡ ps)
        × ((r.0 ≡ finished) ↔ ((unload_tsf_ptp w.host hs).0 ≡ Module.ok tt))
  unfolding run_command Daemon.stop Daemon.drop_all Daemon.stop_all
  run_command-stop_all loads hs ps = (refl, refl, ended-finished (unload_tsf_ptp w.host hs).0)

  -- `discover`, `config` and `status` change nothing, and neither do `start` and `daemon` in the mode
  -- that is not built in, or `daemon` where the interval is not one.
  abbrev pub IsIdle : Command → Type 0
  IsIdle discover = Unit
  IsIdle (config primary output) = Unit
  IsIdle show_status = Unit
  IsIdle stop_all = ⊥
  IsIdle (start_stack primary threshold mode interval) = is_iouring mode ≡ true
  IsIdle (daemon primary text threshold mode interval) =
      (is_iouring mode ≡ true) ⊎ (parse_interval text ≡ none)

  pub run_command-IsIdle :
      (c : Command) (loads : List (Bool × Bool)) (hs : HostState w) (ps : ProcState w)
      → IsIdle c
      → let r = run_command c loads hs ps in (r.1 ≡ hs) × (r.2 ≡ ps)
  unfolding run_command
  run_command-IsIdle discover loads hs ps h = (refl, refl)
  run_command-IsIdle (config primary output) loads hs ps h = (refl, refl)
  run_command-IsIdle show_status loads hs ps h = (refl, refl)
  run_command-IsIdle stop_all loads hs ps h = absurd h
  run_command-IsIdle (start_stack primary threshold mode interval) loads hs ps h = ground arith
  run_command-IsIdle (daemon primary text threshold mode interval) loads hs ps h = ground arith
