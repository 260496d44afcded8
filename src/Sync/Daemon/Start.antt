-- ===== src/Sync/Daemon/Start.antt =====
-- src/daemon.rs: the start of the stack in the kernel's mode, and the failures before any process.
use tsf_sync.Prelude.{ℕ, ◌≡◌, refl, true, false, some, List}
use tsf_sync.Prelude.Tests.{ltb}
use tsf_sync.Prelude.Lists.{length}
use tsf_sync.Prelude.Text.{Bytes}
use tsf_sync.Sync.Mode.{SyncMode, kernel}
use tsf_sync.Sync.Discovery.{WifiCard, discover_cards}
use tsf_sync.Sync.Config
use tsf_sync.Sync.Config.{ConfigError, with_clock, select_primary, only_one_clock}
use tsf_sync.Sync.Daemon.{
  World, ok, err, config, in_kernel, needs_module, prepare, choose, launch, start, HostState,
  ProcState,
}

pub prepare-unneeded :
    (w : World)
    → (primary : Bytes) → (threshold interval : ℕ) → (mode : SyncMode) → (hs : HostState w)
    → (cards : List WifiCard) → discover_cards (w.sysfs hs) ≡ some cards
    → needs_module cards ≡ false
    → prepare w primary threshold mode interval hs ≡ (ok tt, hs)
unfolding prepare
prepare-unneeded w primary threshold interval mode hs cards found none_needs =
    rw (found, prepare) (rw (none_needs, prepare) refl)

pub choose-ok :
    (w : World)
    → (primary : Bytes) → (hs : HostState w) → (cards : List WifiCard) → (c : WifiCard)
    → discover_cards (w.sysfs hs) ≡ some cards
    → ltb (length (with_clock cards)) 2 ≡ false
    → select_primary (with_clock cards) primary ≡ Config.ok c
    → choose w primary hs ≡ ok (c, with_clock cards)
unfolding choose
choose-ok w primary hs cards c found two chosen =
    rw (found, choose) (rw (two, choose) (rw (chosen, choose) refl))

choose-few :
    (w : World)
    → (primary : Bytes) → (hs : HostState w) → (cards : List WifiCard)
    → discover_cards (w.sysfs hs) ≡ some cards
    → ltb (length (with_clock cards)) 2 ≡ true
    → choose w primary hs ≡ err (config only_one_clock)
unfolding choose
choose-few w primary hs cards found few = rw (found, choose) (rw (few, choose) refl)

-- Where no card needs the module, the start in the kernel's mode reports an active sync although it
-- ran no command: the states of the system and of the processes are the ones before. The cards found
-- have a primary with the name and two clocks.
pub start-in_kernel :
    (w : World)
    → (primary linuxptp : Bytes) → (threshold interval : ℕ) → (hs : HostState w)
    → (ps : ProcState w) → (cards : List WifiCard) → (c : WifiCard)
    → discover_cards (w.sysfs hs) ≡ some cards
    → needs_module cards ≡ false
    → ltb (length (with_clock cards)) 2 ≡ false
    → select_primary (with_clock cards) primary ≡ Config.ok c
    → start w primary linuxptp threshold kernel interval hs ps ≡ (ok in_kernel, hs, ps)
unfolding start launch
start-in_kernel w primary linuxptp threshold interval hs ps cards c found none_needs two chosen =
    let unneeded = prepare-unneeded w primary threshold interval kernel hs cards found none_needs in
    rw (unneeded, start)
      (rw unneeded (rw (choose-ok w primary hs cards c found two chosen, start) (rw unneeded refl)))

-- Where fewer than two of the cards have a clock and none needs the module, the start fails in every
-- mode with `OnlyOneClock` and changes no state.
pub start-only_one_clock :
    (w : World)
    → (primary linuxptp : Bytes) → (threshold interval : ℕ) → (mode : SyncMode) → (hs : HostState w)
    → (ps : ProcState w) → (cards : List WifiCard) → discover_cards (w.sysfs hs) ≡ some cards
    → needs_module cards ≡ false
    → ltb (length (with_clock cards)) 2 ≡ true
    → start w primary linuxptp threshold mode interval hs ps ≡ (err (config only_one_clock), hs, ps)
unfolding start
start-only_one_clock w primary linuxptp threshold interval mode hs ps cards found none_needs few =
    let unneeded = prepare-unneeded w primary threshold interval mode hs cards found none_needs in
    rw (unneeded, start)
      (rw unneeded (rw (choose-few w primary hs cards found few, start) (rw unneeded refl)))
