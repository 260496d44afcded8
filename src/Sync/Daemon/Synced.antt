-- ===== src/Sync/Daemon/Synced.antt =====
-- src/daemon.rs, `start` in mode A: what a start that succeeds has done.
use tsf_sync.Prelude.{ℕ, ◌≤◌, ◌≡◌, inl, inr, refl, ◌∙◌, sym, some, List, [], ◌∷◌, ◌++◌, arith}
use mathlib.Core.Path.{subst}
use mathlib.Core.List.{append-nil, append_assoc}
use tsf_sync.Prelude.Tests.{Bool-cases, Option-cases}
use tsf_sync.Prelude.Lists.{length}
use tsf_sync.Prelude.Text.{Bytes, codes}
use tsf_sync.Prelude.Strings.{text_eq}
use tsf_sync.Sync.Mode.{ptp}
use tsf_sync.Sync.Discovery.{WifiCard, discover_cards}
use tsf_sync.Sync.Config
use tsf_sync.Sync.Config.{with_clock, select_primary}
use tsf_sync.Sync.Config.Sections.{others}
use tsf_sync.Sync.Process
use tsf_sync.Sync.Process.{SyncProcess, child}
use tsf_sync.Sync.Daemon.{
  World, DaemonError, ok, err, SyncState, phc2sys, HostState, ProcState, clock_of, start_all,
  launch, prepare, choose, start,
}
use tsf_sync.Sync.Daemon.Launch.{Result-cases, outcome_cases, state_inj}

-- The name of the process that brings the clock of a card to that of the primary.
abbrev pub label : WifiCard → WifiCard → Bytes
label primary c = codes "phc2sys[" ++ clock_of primary ++ codes "→" ++ clock_of c ++ codes "]"

-- The arguments of phc2sys: the clock to follow and the clock to steer, ten updates in a second, no
-- offset, and the log on its output.
abbrev pub arguments : WifiCard → WifiCard → List Bytes
arguments primary c =
    codes "-s"
    ∷ clock_of primary
    ∷ codes "-c"
    ∷ clock_of c
    ∷ codes "-R"
    ∷ codes "10"
    ∷ codes "-O"
    ∷ codes "0"
    ∷ codes "-m"
    ∷ []

err_ok : {e : DaemonError} {ps : List SyncProcess} → err e ≡ ok ps → ⊥
err_ok h = cc

module _ (w : World) (bin : Bytes) (primary : WifiCard) where
  open w.procs use {spawn}

  -- One process for each card, spawned one behind the other with its arguments, and no other call.
  abbrev pub Spawns : List WifiCard → ProcState w → List SyncProcess → ProcState w → Type 0
  Spawns [] ps processes ps' = (processes ≡ []) × (ps' ≡ ps)
  Spawns (c ∷ cs) ps processes ps' =
      (p : SyncProcess) × (rest : List SyncProcess) × (processes ≡ p ∷ rest)
      × ((spawn bin (arguments primary c) ps).0 ≡ child p.pid)
      × (p.name ≡ label primary c)
      × Spawns cs (spawn bin (arguments primary c) ps).1 rest ps'

  start_phc2sys-spawn :
      (c : WifiCard) (ps : ProcState w) (p : SyncProcess)
      → (Process.start_phc2sys w.procs (clock_of primary) (clock_of c) bin ps).0 ≡ Process.ok p
      → ((spawn bin (arguments primary c) ps).0 ≡ child p.pid) × (p.name ≡ label primary c)
  unfolding Process.start_phc2sys Process.spawn_process
  start_phc2sys-spawn c ps p up = (ground arith, ground arith)

  start_phc2sys-state :
      (c : WifiCard) (ps : ProcState w)
      → (Process.start_phc2sys w.procs (clock_of primary) (clock_of c) bin ps).1
        ≡ (spawn bin (arguments primary c) ps).1
  unfolding Process.start_phc2sys Process.spawn_process
  start_phc2sys-state c ps = refl

  start_all-Spawns :
      (cards : List WifiCard) (started : List SyncProcess) (ps : ProcState w)
      (processes : List SyncProcess)
      → (start_all w bin primary cards started ps).0 ≡ ok processes
      → (procs : List SyncProcess) × (processes ≡ started ++ procs)
        × Spawns (others primary.phy cards) ps procs (start_all w bin primary cards started ps).1
  unfolding start_all
  start_all-Spawns [] started ps processes done =
      let same : processes ≡ started = ground arith in
      ([], same ∙ sym (append-nil started), (refl, refl))
  start_all-Spawns (c ∷ cs) started ps processes done =
      elim (Bool-cases (text_eq c.phy primary.phy)) [
        | inl e ↦
            rw (e, start_all) (start_all-Spawns cs started ps processes (rw (e, start_all) at done))
        | inr e ↦
            let run = Process.start_phc2sys w.procs (clock_of primary) (clock_of c) bin ps in
            elim (Result-cases run.0) [
              | inl (p, up) ↦
                  let (procs, same, later) =
                    start_all-Spawns cs (started ++ p ∷ []) run.1 processes
                      (rw (up, start_all) at (rw (e, start_all) at done)) in
                  let (made, named) = start_phc2sys-spawn c ps p up in
                  let behind = (start_all w bin primary cs (started ++ p ∷ []) run.1).1 in
                  let spawned : Spawns (others primary.phy cs)
                      (spawn bin (arguments primary c) ps).1 procs behind =
                    subst (λ st. Spawns (others primary.phy cs) st procs behind)
                      (start_phc2sys-state c ps) later in
                  rw (e, start_all)
                    (rw (up, start_all)
                      (
                        p ∷ procs,
                        same ∙ append_assoc started (p ∷ []) procs,
                        (p, procs, refl, made, named, spawned),
                      ))
              | inr (x, down) ↦
                  absurd (err_ok (rw (down, start_all) at (rw (e, start_all) at done)))
            ]
      ]

-- What a start that succeeds has found, in the state behind the module's loading, and the processes
-- that it has spawned.
pub record Synced (w : World) (bin primary : Bytes) (hs : HostState w) (ps ps' : ProcState w)
    (state : SyncState) : Type 0 where
  pub found : List WifiCard
  pub chosen : WifiCard
  pub processes : List SyncProcess
  pub discovered : discover_cards (w.sysfs hs) ≡ some found
  pub two : 2 ≤ length (with_clock found)
  pub selected : select_primary (with_clock found) primary ≡ Config.ok chosen
  pub holds : state ≡ phc2sys processes
  pub spawned : Spawns w bin chosen (others chosen.phy (with_clock found)) ps processes ps'

choose_found :
    (w : World) (primary : Bytes) (hs : HostState w) (c : WifiCard) (cards : List WifiCard)
    → choose w primary hs ≡ ok (c, cards)
    → (all : List WifiCard) × (discover_cards (w.sysfs hs) ≡ some all)
      × (cards ≡ with_clock all)
      × (2 ≤ length (with_clock all))
      × (select_primary (with_clock all) primary ≡ Config.ok c)
unfolding choose
choose_found w primary hs c cards h = elim (Option-cases (discover_cards (w.sysfs hs))) [
  | inl e ↦ absurd (ground arith)
  | inr (all, e) ↦ (all, e, ground arith, ground arith, ground arith)
]

state_of : {e : DaemonError} {s : SyncState} → err e ≡ ok s → ⊥
state_of h = cc

module _ (w : World) (primary linuxptp : Bytes) (threshold interval : ℕ) where
  pub start_steps :
      (hs hs' : HostState w) (ps : ProcState w) (c : WifiCard) (cards : List WifiCard)
      → prepare w primary threshold ptp interval hs ≡ (ok tt, hs')
      → choose w primary hs' ≡ ok (c, cards)
      → start w primary linuxptp threshold ptp interval hs ps
        ≡ ((launch w linuxptp ptp c cards ps).0, hs', (launch w linuxptp ptp c cards ps).1)
  unfolding start
  start_steps hs hs' ps c cards up picked = rw (up, start) (rw up (rw picked (rw up refl)))

  launch-Synced :
      (hs : HostState w) (ps : ProcState w) (state : SyncState) (c : WifiCard)
      (cards : List WifiCard)
      → choose w primary hs ≡ ok (c, cards)
      → (launch w linuxptp ptp c cards ps).0 ≡ ok state
      → Synced w
          (Process.phc2sys_bin_from linuxptp)
          primary
          hs
          ps
          (launch w linuxptp ptp c cards ps).1
          state
  unfolding launch
  launch-Synced hs ps state c cards picked done =
      let (all, discovered, clocks, two, selected) = choose_found w primary hs c cards picked in
      let run = start_all w (Process.phc2sys_bin_from linuxptp) c cards [] ps in
      elim (outcome_cases run.0) [
        | inr (e, down) ↦ absurd (state_of (rw (down, launch) at done))
        | inl (processes, up) ↦
            let (procs, same, made) =
              start_all-Spawns w (Process.phc2sys_bin_from linuxptp) c cards [] ps processes up in
            record {
              found = all;
              chosen = c;
              processes = processes;
              discovered = discovered;
              two = two;
              selected = selected;
              holds = state_inj (rw (up, launch) at done);
              spawned =
                  subst
                    (λ (cs : List WifiCard).
                      Spawns w (Process.phc2sys_bin_from linuxptp) c (others c.phy cs) ps processes
                        run.1)
                    clocks
                    (subst
                      (λ (xs : List SyncProcess).
                        Spawns w (Process.phc2sys_bin_from linuxptp) c (others c.phy cards) ps xs
                          run.1)
                      (sym same) made);
            }
      ]

  -- Where the start in mode A succeeds: in the state behind the loading of the module the discovery
  -- finds at least two cards with a clock, and the primary is the one that the selection gives among
  -- them. For each card with a clock of another phy, in their order, one phc2sys has been spawned, with
  -- the primary's clock as its source and that of the card as its sink, and no other process; those
  -- that the start gives back have the numbers of the spawns and are labelled with the two clocks.
  pub start-Synced :
      (hs : HostState w) (ps : ProcState w) (state : SyncState)
      → (start w primary linuxptp threshold ptp interval hs ps).0 ≡ ok state
      → let (_, hs', ps') = start w primary linuxptp threshold ptp interval hs ps in
        Synced w (Process.phc2sys_bin_from linuxptp) primary hs' ps ps' state
  unfolding start
  start-Synced hs ps state done =
      let r = prepare w primary threshold ptp interval hs in
      elim (outcome_cases r.0) [
        | inr (e, down) ↦ absurd (state_of (rw (down, start) at done))
        | inl (_, up) ↦ elim (outcome_cases (choose w primary r.1)) [
          | inr (e, down) ↦ absurd (state_of (rw (down, start) at (rw (up, start) at done)))
          | inl ((c, cards), picked) ↦
              let made = start_steps hs r.1 ps c cards (ground arith) picked in
              let launched : (launch w linuxptp ptp c cards ps).0 ≡ ok state = rw made at done in
              rw made (launch-Synced r.1 ps state c cards picked launched)
        ]
      ]
