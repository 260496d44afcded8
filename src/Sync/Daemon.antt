-- ===== src/Sync/Daemon.antt =====
-- src/daemon.rs: starting and stopping the stack and the loop of the daemon, built without the
-- `iouring` feature. The kernel module's side and the processes' side of the system have a state
-- each; what sysfs shows follows from the first.
pub mod Start
pub mod Launch
pub mod Owned
pub mod Synced
use tsf_sync.Prelude.{
  ℕ, zero, suc, ◌≡◌, ◌<◌, refl, Bool, true, false, not, ◌&&◌, ◌||◌, Option, none, some, List, [],
  ◌∷◌, ◌++◌,
}
use tsf_sync.Prelude.Tests.{ltb, ◌==◌, if◌then◌else◌}
use tsf_sync.Prelude.Lists.{length}
use tsf_sync.Prelude.Text.{Bytes, codes}
use tsf_sync.Prelude.Strings.{text_eq}
use tsf_sync.Sync.Mode.{SyncMode, ptp, kernel, iouring}
use tsf_sync.Sync.Discovery.{WifiCard, Sysfs, no_source, discover_cards}
use tsf_sync.Sync.Config
use tsf_sync.Sync.Config.{ConfigError, with_clock, select_primary, only_one_clock, is_some, auto}
use tsf_sync.Sync.Module
use tsf_sync.Sync.Module.{ModuleError, Host, load_tsf_ptp, unload_tsf_ptp}
use tsf_sync.Sync.Process
use tsf_sync.Sync.Process.{SyncError, SyncProcess, Processes}

pub data DaemonError : Type 0 where
  discovery : DaemonError
  config : ConfigError → DaemonError
  module_error : ModuleError → DaemonError
  sync : SyncError → DaemonError
  unsupported : DaemonError

pub data Result {ℓ} (A : Type ℓ) : Type ℓ where
  ok : A → Result A
  err : DaemonError → Result A

pub data SyncState : Type 0 where
  phc2sys : List SyncProcess → SyncState
  in_kernel : SyncState

abbrev is_no_source : WifiCard → Bool
is_no_source c = elim (c.ptp_source) [ no_source ↦ true | _ ↦ false ]

-- A card that the module could give a clock.
abbrev pub lacks_module : WifiCard → Bool
lacks_module c = c.can_set_tsf && not (is_some (c.ptp_clock)) && is_no_source c

unfoldable pub needs_module : List WifiCard → Bool
needs_module [] = false
needs_module (c ∷ cs) = lacks_module c || needs_module cs

abbrev pub primary_for_module : Bytes → Option Bytes
primary_for_module primary = if text_eq primary auto then none else some primary

-- `ptp_clock.as_ref().unwrap()`, of a card that has a clock.
abbrev pub clock_of : WifiCard → Bytes
clock_of c = elim (c.ptp_clock) [ none ↦ [] | some path ↦ path ]

pub record World : Type 1 where
  pub host : Host
  pub procs : Processes
  pub sysfs : host.St → Sysfs

module _ (w : World) where
  abbrev pub HostState : Type 0
  HostState = w.host.St

  abbrev pub ProcState : Type 0
  ProcState = w.procs.St

  -- The end of a vector of processes: each is dropped.
  unfoldable pub drop_all : List SyncProcess → ProcState → ProcState
  drop_all [] ps = ps
  drop_all (p ∷ rest) ps = drop_all rest (Process.drop_process w.procs p ps)

  -- The loop of mode A, over the cards; `started` are the processes so far, which are dropped where
  -- one cannot be started.
  unfoldable pub start_all :
      Bytes
      → WifiCard
      → List WifiCard
      → List SyncProcess
      → ProcState
      → Result (List SyncProcess) × ProcState
  start_all bin primary [] started ps = (ok started, ps)
  start_all bin primary (c ∷ cs) started ps =
      let skip = start_all bin primary cs started ps in
      let (p, ps1) = Process.start_phc2sys w.procs (clock_of primary) (clock_of c) bin ps in
      let next : Result (List SyncProcess) × ProcState = elim p [
        | Process.err e ↦ (err (sync e), drop_all started ps1)
        | Process.ok proc ↦ start_all bin primary cs (started ++ proc ∷ []) ps1
      ] in
      if text_eq c.phy primary.phy then skip else next

  -- Step 1 and 2 of `start`: discovery, and the module where a card needs it.
  unfoldable pub prepare : Bytes → ℕ → SyncMode → ℕ → HostState → Result (Unit {0}) × HostState
  prepare primary threshold mode interval hs = elim (discover_cards (w.sysfs hs)) [
    | none ↦ (err discovery, hs)
    | some cards ↦
        if needs_module cards
        then (let (r, hs') =
              load_tsf_ptp w.host threshold mode (primary_for_module primary) (some interval) hs in
            (elim r [ Module.err e ↦ err (module_error e) | Module.ok _ ↦ ok tt ], hs'))
        else (ok tt, hs)
  ]

  -- Step 3: the cards with a clock and the primary among them.
  unfoldable pub choose : Bytes → HostState → Result (WifiCard × List WifiCard)
  choose primary hs = elim (discover_cards (w.sysfs hs)) [
    | none ↦ err discovery
    | some cards ↦
        let ptp_cards = with_clock cards in
        if ltb (length ptp_cards) 2
        then err (config only_one_clock)
        else elim (select_primary ptp_cards primary) [
          | Config.err e ↦ err (config e)
          | Config.ok c ↦ ok (c, ptp_cards)
        ]
  ]

  -- The `match` on the mode.
  unfoldable pub launch :
      Bytes → SyncMode → WifiCard → List WifiCard → ProcState → Result SyncState × ProcState
  launch linuxptp ptp primary cards ps =
      let (r, ps') = start_all (Process.phc2sys_bin_from linuxptp) primary cards [] ps in
      (elim r [ err e ↦ err e | ok processes ↦ ok (phc2sys processes) ], ps')
  launch linuxptp kernel primary cards ps = (ok in_kernel, ps)
  launch linuxptp iouring primary cards ps = (err unsupported, ps)

  unfoldable pub start :
      Bytes
      → Bytes
      → ℕ
      → SyncMode
      → ℕ
      → HostState
      → ProcState
      → Result SyncState × HostState × ProcState
  start primary linuxptp threshold mode interval hs ps =
      let (r, hs') = prepare primary threshold mode interval hs in
      elim r [
        | err e ↦ (err e, hs', ps)
        | ok _ ↦ elim (choose primary hs') [
          | err e ↦ (err e, hs', ps)
          | ok (c, ptp_cards) ↦
              let (state, ps') = launch linuxptp mode c ptp_cards ps in (state, hs', ps')
        ]
      ]

  -- `p.stop()` for each process, with its error dropped.
  unfoldable pub stop_all : List SyncProcess → ProcState → ProcState
  stop_all [] ps = ps
  stop_all (p ∷ rest) ps = stop_all rest (Process.stop w.procs p ps).1

  -- The state afterwards: the processes are cleared, which drops them.
  unfoldable pub stop : SyncState → HostState → ProcState → Result SyncState × HostState × ProcState
  stop state hs ps =
      let ps' : ProcState = elim state [
        | phc2sys processes ↦ drop_all processes (stop_all processes ps)
        | in_kernel ↦ ps
      ] in
      let state' : SyncState = elim state [
        | phc2sys processes ↦ phc2sys []
        | in_kernel ↦ in_kernel
      ] in
      let (r, hs') = unload_tsf_ptp w.host hs in
      (elim r [ Module.err e ↦ err (module_error e) | Module.ok _ ↦ ok state' ], hs', ps')

  -- A round of the daemon's loop polls each process; nothing is started again.
  unfoldable pub monitor : SyncState → ProcState → ProcState
  monitor in_kernel ps = ps
  monitor (phc2sys []) ps = ps
  monitor (phc2sys (p ∷ rest)) ps = monitor (phc2sys rest) (Process.is_running w.procs p ps).1

  -- The loop over the values of `running` that its two tests load in a round.
  unfoldable pub watch : List (Bool × Bool) → SyncState → ProcState → ProcState
  watch [] state ps = ps
  watch ((false, _) ∷ loads) state ps = ps
  watch ((true, false) ∷ loads) state ps = ps
  watch ((true, true) ∷ loads) state ps = watch loads state (monitor state ps)

  unfoldable pub run_daemon :
      Bytes
      → Bytes
      → ℕ
      → SyncMode
      → ℕ
      → List (Bool × Bool)
      → HostState
      → ProcState
      → Result SyncState × HostState × ProcState
  run_daemon primary linuxptp threshold mode interval loads hs ps =
      let (r, hs1, ps1) = start primary linuxptp threshold mode interval hs ps in
      elim r [ err e ↦ (err e, hs1, ps1) | ok state ↦ stop state hs1 (watch loads state ps1) ]
