-- ===== src/Sync/Daemon/Owned.antt =====
-- src/daemon.rs: which children the start, the loop and the stop of the daemon leave.
use tsf_sync.Prelude.{
  ℕ, ◌≡◌, ◌⊎◌, inl, inr, Bool, true, false, ◌||◌, List, [], ◌∷◌, ◌++◌, refl, arith,
}
use mathlib.Core.Path.{subst}
use tsf_sync.Prelude.Tests.{◌==◌, ==_refl, ==_iff, Bool-cases}
use tsf_sync.Prelude.Text.{Bytes}
use tsf_sync.Prelude.Strings.{text_eq}
use tsf_sync.Sync.Mode.{SyncMode, ptp, kernel, iouring}
use tsf_sync.Sync.Discovery.{WifiCard}
use tsf_sync.Sync.Process
use tsf_sync.Sync.Process.{
  SyncProcess, Processes, Spawned, child, no_such_file, spawn_error, start_phc2sys, spawn_process,
}
use tsf_sync.Sync.Process.Children.{
  Children, stop-Kept, is_running-Kept, drop_process-Kept, drop_process-gone,
}
use tsf_sync.Sync.Daemon.Launch.{outcome_cases}
use tsf_sync.Sync.Daemon.{
  World, sync, Result, ok, err, SyncState, phc2sys, in_kernel, HostState, ProcState, clock_of,
  prepare, choose, drop_all, start_all, launch, start, stop_all, stop, monitor, watch, run_daemon,
}

abbrev pub owns : ℕ → List SyncProcess → Bool
owns i [] = false
owns i (p ∷ ps) = i == p.pid || owns i ps

owns-append :
    (i : ℕ) (ps : List SyncProcess) (p : SyncProcess)
    → owns i (ps ++ p ∷ []) ≡ (owns i ps || i == p.pid)
owns-append i [] p = ground arith
owns-append i (q ∷ ps) p = ground (arith, owns-append i ps p)

Spawned-cases :
    (s : Spawned)
    → ((pid : ℕ) × (s ≡ child pid)) ⊎ ((s ≡ no_such_file) ⊎ ((n : ℕ) × (s ≡ spawn_error n)))
Spawned-cases (child pid) = inl (pid, refl)
Spawned-cases no_such_file = inr (inl refl)
Spawned-cases (spawn_error n) = inr (inr (n, refl))

module _ (w : World) (cs : Children w.procs) (base : ℕ → Bool) where
  open cs use {is_child, spawn-child}

  -- Each child is one of the first ones or belongs to a process of the list.
  abbrev pub Owned : ProcState w → List SyncProcess → Type 0
  Owned ps processes = (i : ℕ) → is_child i ps ≡ true → (base i || owns i processes) ≡ true

  drop-Owned :
      (p : SyncProcess) (rest : List SyncProcess) (ps : ProcState w)
      → Owned ps (p ∷ rest)
      → Owned (Process.drop_process w.procs p ps) rest
  drop-Owned p rest ps h i up =
      let before = h i (drop_process-Kept cs p ps i up) in
      let gone = drop_process-gone cs p ps in ground (arith, ==_iff i p.pid)

  drop_all-Owned :
      (processes : List SyncProcess) (ps : ProcState w)
      → Owned ps processes
      → Owned (drop_all w processes ps) []
  unfolding drop_all
  drop_all-Owned [] ps h = h
  drop_all-Owned (p ∷ rest) ps h =
      drop_all-Owned rest (Process.drop_process w.procs p ps) (drop-Owned p rest ps h)

  stop_all-Owned :
      (processes all : List SyncProcess) (ps : ProcState w)
      → Owned ps all
      → Owned (stop_all w processes ps) all
  unfolding stop_all
  stop_all-Owned [] all ps h = h
  stop_all-Owned (p ∷ rest) all ps h =
      stop_all-Owned rest all (Process.stop w.procs p ps).1 (λ i up. h i (stop-Kept cs p ps i up))

  monitor-Owned :
      (processes all : List SyncProcess) (ps : ProcState w)
      → Owned ps all
      → Owned (monitor w (phc2sys processes) ps) all
  unfolding monitor
  monitor-Owned [] all ps h = h
  monitor-Owned (p ∷ rest) all ps h =
      monitor-Owned rest all (Process.is_running w.procs p ps).1
        (λ i up. h i (is_running-Kept cs p ps i up))

  -- What is owned behind a start: the new process too where it succeeds.
  abbrev AfterSpawn : List SyncProcess → Process.Result SyncProcess × ProcState w → Type 0
  AfterSpawn started (Process.err e, ps) = Owned ps started
  AfterSpawn started (Process.ok p, ps) = Owned ps (started ++ p ∷ [])

  spawn_process-Owned :
      (started : List SyncProcess) (bin : Bytes) (args : List Bytes) (name : Bytes)
      (ps : ProcState w)
      → Owned ps started
      → AfterSpawn started (spawn_process w.procs bin args name ps)
  unfolding spawn_process
  spawn_process-Owned started bin args name ps h =
      let (s, ps1) = w.procs.spawn bin args ps in
      elim (Spawned-cases s) [
        | inl (pid, e) ↦
            rw (e, AfterSpawn)
              (λ i up.
                let p : SyncProcess = record { pid = pid; name = name } in
                ground (arith, h i, spawn-child bin args ps i, owns-append i started p, ==_refl i))
        | inr (inl e) ↦ rw (e, AfterSpawn) (λ i up. ground (arith, h i, spawn-child bin args ps i))
        | inr (inr (n, e)) ↦
            rw (e, AfterSpawn) (λ i up. ground (arith, h i, spawn-child bin args ps i))
      ]

  -- What is owned where a list of processes, or a state, is the result.
  abbrev Listed : Result (List SyncProcess) × ProcState w → Type 0
  Listed (err e, ps) = Owned ps []
  Listed (ok processes, ps) = Owned ps processes

  abbrev pub processes_of : SyncState → List SyncProcess
  processes_of (phc2sys processes) = processes
  processes_of in_kernel = []

  abbrev Held : Result SyncState → ProcState w → Type 0
  Held (err e) ps = Owned ps []
  Held (ok state) ps = Owned ps (processes_of state)

  module _ (bin : Bytes) (primary : WifiCard) where
    -- Behind the spawn for a card: the loop goes on, or drops the processes so far.
    next-Listed :
        (cards : List WifiCard) (started : List SyncProcess)
        (run : Process.Result SyncProcess × ProcState w)
        → AfterSpawn started run
        → ((p : SyncProcess)
            → Owned run.1 (started ++ p ∷ [])
            → Listed (start_all w bin primary cards (started ++ p ∷ []) run.1))
        → Listed (elim (run.0) [
          | Process.err e ↦ (err (sync e), drop_all w started run.1)
          | Process.ok proc ↦ start_all w bin primary cards (started ++ proc ∷ []) run.1
        ])
    next-Listed cards started (Process.err e, ps) h rest = drop_all-Owned started ps h
    next-Listed cards started (Process.ok p, ps) h rest = rest p h

    start_all-Listed :
        (cards : List WifiCard) (started : List SyncProcess) (ps : ProcState w)
        → Owned ps started
        → Listed (start_all w bin primary cards started ps)
    unfolding start_all start_phc2sys
    start_all-Listed [] started ps h = h
    start_all-Listed (c ∷ cards) started ps h = elim (Bool-cases (text_eq c.phy primary.phy)) [
      | inl same ↦ rw (same, start_all) (start_all-Listed cards started ps h)
      | inr other ↦
          rw (other, start_all)
            (next-Listed cards started
              (start_phc2sys w.procs (clock_of primary) (clock_of c) bin ps)
              (spawn_process-Owned started bin _ _ ps h)
              (λ p now. start_all-Listed cards (started ++ p ∷ []) _ now))
    ]

  Listed-Held :
      (r : Result (List SyncProcess) × ProcState w)
      → Listed r
      → Held (elim (r.0) [ err e ↦ err e | ok processes ↦ ok (phc2sys processes) ]) r.1
  Listed-Held (err e, ps) h = h
  Listed-Held (ok processes, ps) h = h

  launch-Held :
      (linuxptp : Bytes) (mode : SyncMode) (primary : WifiCard) (cards : List WifiCard)
      (ps : ProcState w)
      → Owned ps []
      → let r = launch w linuxptp mode primary cards ps in Held r.0 r.1
  unfolding launch
  launch-Held linuxptp ptp primary cards ps h =
      Listed-Held (start_all w (Process.phc2sys_bin_from linuxptp) primary cards [] ps)
        (start_all-Listed (Process.phc2sys_bin_from linuxptp) primary cards [] ps h)
  launch-Held linuxptp kernel primary cards ps h = h
  launch-Held linuxptp iouring primary cards ps h = h

  pub start-Held :
      (primary linuxptp : Bytes) (threshold : ℕ) (mode : SyncMode) (interval : ℕ) (hs : HostState w)
      (ps : ProcState w)
      → Owned ps []
      → let r = start w primary linuxptp threshold mode interval hs ps in Held r.0 r.2
  unfolding start
  start-Held primary linuxptp threshold mode interval hs ps h =
      let ready = prepare w primary threshold mode interval hs in
      elim (outcome_cases ready.0) [
        | inr (_, e) ↦ rw (e, start) h
        | inl (_, e) ↦ elim (outcome_cases (choose w primary ready.1)) [
          | inr (_, e') ↦ rw (e, start) (rw (e', start) h)
          | inl ((c, cards), e') ↦
              rw (e, start) (rw (e', start) (launch-Held linuxptp mode c cards ps h))
        ]
      ]

  state_monitor :
      (state : SyncState) (ps : ProcState w)
      → Owned ps (processes_of state)
      → Owned (monitor w state ps) (processes_of state)
  unfolding monitor
  state_monitor (phc2sys processes) ps h = monitor-Owned processes processes ps h
  state_monitor in_kernel ps h = h

  watch-Owned :
      (loads : List (Bool × Bool)) (state : SyncState) (ps : ProcState w)
      → Owned ps (processes_of state)
      → Owned (watch w loads state ps) (processes_of state)
  unfolding watch
  watch-Owned [] state ps h = h
  watch-Owned ((false, b) ∷ loads) state ps h = h
  watch-Owned ((true, false) ∷ loads) state ps h = h
  watch-Owned ((true, true) ∷ loads) state ps h =
      watch-Owned loads state (monitor w state ps) (state_monitor state ps h)

  stop-Owned :
      (state : SyncState) (hs : HostState w) (ps : ProcState w)
      → Owned ps (processes_of state)
      → Owned (stop w state hs ps).2 []
  unfolding stop
  stop-Owned (phc2sys processes) hs ps h =
      drop_all-Owned processes (stop_all w processes ps) (stop_all-Owned processes processes ps h)
  stop-Owned in_kernel hs ps h = h

module _ (w : World) (cs : Children w.procs) where
  open cs use {is_child}

  no_others : (b : Bool) → (b || false) ≡ true → b ≡ true
  no_others b h = ground arith

  run_daemon-Kept :
      (primary linuxptp : Bytes) (threshold : ℕ) (mode : SyncMode) (interval : ℕ)
      (loads : List (Bool × Bool)) (hs : HostState w) (ps : ProcState w) (i : ℕ)
      → is_child i (run_daemon w primary linuxptp threshold mode interval loads hs ps).2 ≡ true
      → is_child i ps ≡ true
  unfolding run_daemon
  run_daemon-Kept primary linuxptp threshold mode interval loads hs ps i up =
      let base : ℕ → Bool = λ j. is_child j ps in
      let begun = start w primary linuxptp threshold mode interval hs ps in
      let held =
        start-Held w cs base primary linuxptp threshold mode interval hs ps (λ j h. rw h refl) in
      elim (outcome_cases begun.0) [
        | inr (_, e) ↦
            no_others (is_child i ps)
              (subst (λ r. Held w cs base r begun.2) e held i (rw (e, run_daemon) at up))
        | inl (state, e) ↦
            let watched =
              watch-Owned w cs base loads state begun.2
                (subst (λ r. Held w cs base r begun.2) e held) in
            no_others (is_child i ps) (
              stop-Owned w cs base state begun.1 (watch w loads state begun.2) watched i
                (rw (e, run_daemon) at up))
      ]

  -- Where only a spawn makes a child, and a wait or a kill fails only for what is no child: however the
  -- daemon ends, by an error of the start, also one behind the start of some of its processes, or by
  -- the stop behind its loop, and whatever the processes answer, what was no child of it before is none
  -- that is left, running or not waited for.
  pub run_daemon-no_child :
      (primary linuxptp : Bytes) (threshold : ℕ) (mode : SyncMode) (interval : ℕ)
      (loads : List (Bool × Bool)) (hs : HostState w) (ps : ProcState w) (i : ℕ)
      → is_child i ps ≡ false
      → is_child i (run_daemon w primary linuxptp threshold mode interval loads hs ps).2 ≡ false
  run_daemon-no_child primary linuxptp threshold mode interval loads hs ps i none_before =
      elim (Bool-cases
        (is_child i (run_daemon w primary linuxptp threshold mode interval loads hs ps).2)) [
          | inr e ↦ e
          | inl e ↦ absurd (
              ground
                (arith, run_daemon-Kept primary linuxptp threshold mode interval loads hs ps i e))
        ]
