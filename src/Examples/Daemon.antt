-- ===== src/Examples/Daemon.antt =====
-- The daemon on a system that counts its children.
use tsf_sync.Prelude.{
  ℕ, suc, ◌≡◌, ◌≢◌, ◌⊎◌, inl, inr, refl, Bool, true, false, ◌||◌, none, some, List, [], ◌∷◌, arith,
}
use tsf_sync.Prelude.Tests.{◌==◌, if◌then◌else◌, ==_refl, ==_iff, Bool-cases}
use tsf_sync.Prelude.Text.{Bytes, codes}
use tsf_sync.Sync.Mode.{ptp}
use tsf_sync.Sync.Process.{Processes, child, running, exited}
use tsf_sync.Sync.Process.Children.{Children}
use tsf_sync.Sync.Daemon.{World, run_daemon}
use tsf_sync.Sync.Daemon.Owned.{run_daemon-no_child}
use tsf_sync.Examples.Stack.{quiet_host, own_clocks, pair}

-- The next process number, and which numbers are children that are running or have ended.
record Table : Type 0 where
  next : ℕ
  alive : ℕ → Bool
  ended : ℕ → Bool

unfoldable without : ℕ → (ℕ → Bool) → ℕ → Bool
without pid set i = if i == pid then false else set i

unfoldable with : ℕ → (ℕ → Bool) → ℕ → Bool
with pid set i = if i == pid then true else set i

-- A SIGTERM ends a process at once.
abbrev table_processes : Processes
table_processes = record {
  St = Table;
  spawn = λ bin args st.
      (child (st.next), record st { next = suc (st.next); alive = with st.next st.alive });
  sigterm = λ pid st.
      if st.alive pid
      then record st { alive = without pid st.alive; ended = with pid st.ended }
      else st;
  try_wait = λ pid st.
      if st.alive pid then (running, st) else (exited, record st { ended = without pid st.ended });
  sleep_100ms = λ st. st;
  kill = λ pid st. (none, st);
  wait = λ pid st. (none, record st { alive = without pid st.alive; ended = without pid st.ended });
}

abbrev listed : ℕ → Table → Bool
listed i st = st.alive i || st.ended i

spawned :
    (bin : Bytes) (args : List Bytes) (st : Table) (i : ℕ)
    → listed i (table_processes.spawn bin args st).1 ≡ true
    → (listed i st ≡ true) ⊎ ((table_processes.spawn bin args st).0 ≡ child i)
unfolding with
spawned bin args st i h = elim (Bool-cases (i == st.next)) [
  | inl same ↦ inr (ground (arith, ==_iff i st.next))
  | inr other ↦ inl (ground arith)
]

signalled : (pid i : ℕ) (st : Table) → listed i (table_processes.sigterm pid st) ≡ listed i st
unfolding with without
signalled pid i st = ground arith

polled :
    (pid i : ℕ) (st : Table)
    → listed i (table_processes.try_wait pid st).1 ≡ true
    → listed i st ≡ true
unfolding without
polled pid i st h = ground arith

polled_ended :
    (pid : ℕ) (st : Table)
    → (table_processes.try_wait pid st).0 ≢ running
    → listed pid (table_processes.try_wait pid st).1 ≡ false
unfolding without
polled_ended pid st h = ground (arith, ==_refl pid)

waited :
    (pid i : ℕ) (st : Table) → listed i (table_processes.wait pid st).1 ≡ true → listed i st ≡ true
unfolding without
waited pid i st h = ground arith

waited_gone : (pid : ℕ) (st : Table) → listed pid (table_processes.wait pid st).1 ≡ false
unfolding without
waited_gone pid st = ground (arith, ==_refl pid)

none-some : {e : ℕ} → none ≡ some e → ⊥
none-some h = cc

abbrev children : Children table_processes
children = record {
  is_child = listed;
  spawn-child = spawned;
  sigterm-child = signalled;
  sleep-child = λ i st. refl;
  kill-child = λ pid i st. refl;
  kill-error = λ pid e st h. absurd (none-some h);
  try_wait-child = polled;
  try_wait-running = polled_ended;
  wait-child = waited;
  wait-gone = waited_gone;
}

abbrev busy_world : World
busy_world = record { host = quiet_host; procs = table_processes; sysfs = λ hs. own_clocks pair }

-- The process 7 is a child before.
abbrev first_table : Table
first_table = record { next = 20; alive = λ i. i == 7; ended = λ i. false }

run_daemon-no_child_example :
    listed 20
      (run_daemon busy_world
        (codes "auto")
        (codes "ptp4l")
        0
        ptp
        100
        ((true, true) ∷ (true, false) ∷ [])
        tt
        first_table).2
    ≡ false
run_daemon-no_child_example =
    run_daemon-no_child busy_world children (codes "auto") (codes "ptp4l") 0 ptp 100
      ((true, true) ∷ (true, false) ∷ []) tt first_table 20 refl
