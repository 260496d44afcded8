-- ===== src/Sync/Process/Children.antt =====
-- src/ptp4l.rs: which child processes are left, not yet waited for, by the stop and by the drop of a
-- `SyncProcess`.
use tsf_sync.Prelude.{ℕ, zero, suc, ◌≡◌, ◌≢◌, ◌⊎◌, inl, inr, Bool, true, false, some, List, arith}
use tsf_sync.Prelude.Tests.{Option-cases}
use tsf_sync.Prelude.Text.{Bytes}
use tsf_sync.Sync.Process.{
  Processes, child, running, SyncProcess, polls, poll, is_running, kill_process, stop, drop_process,
}

-- What the system does with the children of the program: only a spawn makes one, and only a wait that
-- sees its end takes one away. A wait or a kill fails only for what is no child.
pub record Children (sys : Processes) : Type 0 where
  pub is_child : ℕ → sys.St → Bool
  pub spawn-child :
      (bin : Bytes) (args : List Bytes) (st : sys.St) (i : ℕ)
      → is_child i (sys.spawn bin args st).1 ≡ true
      → (is_child i st ≡ true) ⊎ ((sys.spawn bin args st).0 ≡ child i)
  pub sigterm-child : (pid i : ℕ) (st : sys.St) → is_child i (sys.sigterm pid st) ≡ is_child i st
  pub sleep-child : (i : ℕ) (st : sys.St) → is_child i (sys.sleep_100ms st) ≡ is_child i st
  pub kill-child : (pid i : ℕ) (st : sys.St) → is_child i (sys.kill pid st).1 ≡ is_child i st
  pub kill-error :
      (pid e : ℕ) (st : sys.St) → (sys.kill pid st).0 ≡ some e → is_child pid st ≡ false
  pub try_wait-child :
      (pid i : ℕ) (st : sys.St) → is_child i (sys.try_wait pid st).1 ≡ true → is_child i st ≡ true
  pub try_wait-running :
      (pid : ℕ) (st : sys.St)
      → (sys.try_wait pid st).0 ≢ running
      → is_child pid (sys.try_wait pid st).1 ≡ false
  pub wait-child :
      (pid i : ℕ) (st : sys.St) → is_child i (sys.wait pid st).1 ≡ true → is_child i st ≡ true
  pub wait-gone : (pid : ℕ) (st : sys.St) → is_child pid (sys.wait pid st).1 ≡ false

module _ {sys : Processes} (cs : Children sys) where
  open cs use {
    is_child, sigterm-child, sleep-child, kill-child, kill-error, try_wait-child, try_wait-running,
    wait-child, wait-gone,
  }
  open sys use {St, try_wait, sleep_100ms, sigterm, kill, wait}

  -- No child is new.
  abbrev pub Kept : St → St → Type 0
  Kept st st' = (i : ℕ) → is_child i st' ≡ true → is_child i st ≡ true

  poll-Kept : (n pid : ℕ) (st : St) → Kept st (poll sys n pid st).1
  unfolding poll
  poll-Kept zero pid st i h = h
  poll-Kept (suc n) pid st i h = ground (
    arith,
    try_wait-child pid i st,
    sleep-child i (try_wait pid st).1,
    poll-Kept n pid (sleep_100ms (try_wait pid st).1) i,
  )

  -- A poll that sees the exit has waited for the child.
  poll-gone :
      (n pid : ℕ) (st : St)
      → (poll sys n pid st).0 ≡ true
      → is_child pid (poll sys n pid st).1 ≡ false
  unfolding poll
  poll-gone zero pid st h = cc
  poll-gone (suc n) pid st h =
      ground (arith, try_wait-running pid st, poll-gone n pid (sleep_100ms (try_wait pid st).1))

  kill_process-Kept : (p : SyncProcess) (st : St) → Kept st (kill_process sys p st).1
  unfolding kill_process
  kill_process-Kept p st i h =
      ground (arith, kill-child p.pid i st, wait-child p.pid i (kill p.pid st).1)

  kill_process-gone : (p : SyncProcess) (st : St) → is_child p.pid (kill_process sys p st).1 ≡ false
  unfolding kill_process
  kill_process-gone p st = elim (Option-cases (kill p.pid st).0) [
    | inl e ↦ ground (arith, wait-gone p.pid (kill p.pid st).1)
    | inr (n, e) ↦ ground (arith, kill-error p.pid n st, kill-child p.pid p.pid st)
  ]

  pub stop-Kept : (p : SyncProcess) (st : St) → Kept st (stop sys p st).1
  unfolding stop
  stop-Kept p st i h =
      let st1 = (poll sys polls p.pid (sigterm p.pid st)).1 in
      ground (
        arith,
        sigterm-child p.pid i st,
        poll-Kept polls p.pid (sigterm p.pid st) i,
        kill_process-Kept p st1 i,
      )

  -- Whatever the polls and the kill answer, a process that was stopped has been waited for.
  pub stop-gone : (p : SyncProcess) (st : St) → is_child p.pid (stop sys p st).1 ≡ false
  unfolding stop
  stop-gone p st =
      let st1 = (poll sys polls p.pid (sigterm p.pid st)).1 in
      ground (arith, poll-gone polls p.pid (sigterm p.pid st), kill_process-gone p st1)

  pub is_running-Kept : (p : SyncProcess) (st : St) → Kept st (is_running sys p st).1
  unfolding is_running
  is_running-Kept p st i h = try_wait-child p.pid i st h

  is_running-gone :
      (p : SyncProcess) (st : St)
      → (is_running sys p st).0 ≡ false
      → is_child p.pid (is_running sys p st).1 ≡ false
  unfolding is_running
  is_running-gone p st h = try_wait-running p.pid st (λ e. ground arith)

  pub drop_process-Kept : (p : SyncProcess) (st : St) → Kept st (drop_process sys p st)
  unfolding drop_process
  drop_process-Kept p st i h =
      let st1 = (is_running sys p st).1 in ground (arith, is_running-Kept p st i, stop-Kept p st1 i)

  pub drop_process-gone :
      (p : SyncProcess) (st : St) → is_child p.pid (drop_process sys p st) ≡ false
  unfolding drop_process
  drop_process-gone p st =
      let st1 = (is_running sys p st).1 in ground (arith, is_running-gone p st, stop-gone p st1)
