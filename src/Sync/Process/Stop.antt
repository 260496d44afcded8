-- ===== src/Sync/Process/Stop.antt =====
-- src/ptp4l.rs, `SyncProcess::stop`: a process that leaves in time is not killed, and one that does
-- not is killed after the last poll.
use tsf_sync.Prelude.{
  ℕ, zero, suc, ◌<◌, ◌≡◌, ◌≢◌, ◌⊎◌, inl, inr, true, false, none, some, refl, sym, arith,
}
use mathlib.Core.Path.{subst}
use tsf_sync.Prelude.Tests.{Option-cases}
use tsf_sync.Sync.Process.{
  Result, ok, err, stop_failed, exited, running, wait_error, Waited, Processes, SyncProcess, poll,
  polls, kill_process, stop,
}

module _ (sys : Processes) where
  open sys use {St, sigterm, try_wait, sleep_100ms, kill, wait}

  -- The state after a number of polls, each with the sleep behind it.
  abbrev pub polled : ℕ → ℕ → St → St
  polled zero pid st = st
  polled (suc i) pid st = polled i pid (sleep_100ms (try_wait pid st).1)

  -- None of the first polls sees an exit.
  abbrev pub Alive : ℕ → ℕ → St → Type 0
  Alive zero pid st = Unit
  Alive (suc i) pid st =
      ((try_wait pid st).0 ≢ exited) × Alive i pid (sleep_100ms (try_wait pid st).1)

  poll_step :
      (n pid : ℕ) (st : St)
      → (try_wait pid st).0 ≢ exited
      → poll sys (suc n) pid st ≡ poll sys n pid (sleep_100ms (try_wait pid st).1)
  unfolding poll
  poll_step n pid st alive = ground arith

  poll_exited :
      (n pid : ℕ) (st : St)
      → (try_wait pid st).0 ≡ exited
      → poll sys (suc n) pid st ≡ (true, (try_wait pid st).1)
  unfolding poll
  poll_exited n pid st gone = ground arith

  poll-exited :
      (n i pid : ℕ) (st : St)
      → i < n
      → Alive i pid st
      → (try_wait pid (polled i pid st)).0 ≡ exited
      → poll sys n pid st ≡ (true, (try_wait pid (polled i pid st)).1)
  poll-exited zero i pid st le alive gone = absurd (omega arith)
  poll-exited (suc n) zero pid st le alive gone = poll_exited n pid st gone
  poll-exited (suc n) (suc i) pid st le (alive, later) gone =
      rw (poll_step n pid st alive)
        (poll-exited n i pid (sleep_100ms (try_wait pid st).1) (omega arith) later gone)

  poll-Alive : (n pid : ℕ) (st : St) → Alive n pid st → poll sys n pid st ≡ (false, polled n pid st)
  unfolding poll
  poll-Alive zero pid st alive = refl
  poll-Alive (suc n) pid st (alive, later) =
      rw (poll_step n pid st alive) (poll-Alive n pid (sleep_100ms (try_wait pid st).1) later)

  -- Where one of the fifty polls behind SIGTERM is the first to see the exit, `stop` succeeds right
  -- there: there is no SIGKILL and no further poll.
  pub stop-exited :
      (p : SyncProcess) (i : ℕ) (st : St)
      → i < polls
      → Alive i p.pid (sigterm p.pid st)
      → (try_wait p.pid (polled i p.pid (sigterm p.pid st))).0 ≡ exited
      → stop sys p st ≡ (ok tt, (try_wait p.pid (polled i p.pid (sigterm p.pid st))).1)
  unfolding stop
  stop-exited p i st le alive gone =
      rw (poll-exited polls i p.pid (sigterm p.pid st) le alive gone, stop) refl

  -- Where none of the fifty polls sees an exit, `stop` is SIGKILL and the wait for it, in the state
  -- behind the last poll.
  pub stop-Alive :
      (p : SyncProcess) (st : St)
      → Alive polls p.pid (sigterm p.pid st)
      → stop sys p st ≡ kill_process sys p (polled polls p.pid (sigterm p.pid st))
  unfolding stop
  stop-Alive p st alive = rw (poll-Alive polls p.pid (sigterm p.pid st) alive, stop) refl

  seen : (w : Waited) → (w ≡ exited) ⊎ (w ≢ exited)
  seen exited = inl refl
  seen running = inr (λ e. cc)
  seen (wait_error n) = inr (λ e. cc)

  -- One of the polls is the first to see an exit, or none sees one.
  first_exit :
      (n pid : ℕ) (st : St)
      → ((i : ℕ) × (i < n) × Alive i pid st × ((try_wait pid (polled i pid st)).0 ≡ exited))
        ⊎ Alive n pid st
  first_exit zero pid st = inr tt
  first_exit (suc n) pid st = elim (seen (try_wait pid st).0) [
    | inl gone ↦ inl (zero, omega arith, tt, gone)
    | inr alive ↦ elim (first_exit n pid (sleep_100ms (try_wait pid st).1)) [
      | inl (i, lt, before, gone) ↦ inl (suc i, omega arith, (alive, before), gone)
      | inr later ↦ inr (alive, later)
    ]
  ]

  -- SIGKILL and the wait for the end of the process, and how `stop` ends by them.
  abbrev pub Killed : SyncProcess → St → Result (Unit {0}) × St → Type 0
  Killed p st r =
      ((e : ℕ) × ((kill p.pid st).0 ≡ some e)
        × (r.0 ≡ err (stop_failed p.name e))
        × (r.1 ≡ (kill p.pid st).1))
      ⊎ (((kill p.pid st).0 ≡ none)
          × (r.1 ≡ (wait p.pid (kill p.pid st).1).1)
          × ((((wait p.pid (kill p.pid st).1).0 ≡ none) × (r.0 ≡ ok tt))
              ⊎ ((e : ℕ) × ((wait p.pid (kill p.pid st).1).0 ≡ some e)
                  × (r.0 ≡ err (stop_failed p.name e)))))

  kill_process-Killed : (p : SyncProcess) (st : St) → Killed p st (kill_process sys p st)
  unfolding kill_process
  kill_process-Killed p st = elim (Option-cases (kill p.pid st).0) [
    | inr (e, failed) ↦ inl (e, failed, ground arith, ground arith)
    | inl sent ↦ elim (Option-cases (wait p.pid (kill p.pid st).1).0) [
      | inr (e, failed) ↦ inr (sent, ground arith, inr (e, failed, ground arith))
      | inl ended ↦ inr (sent, ground arith, inl (ended, ground arith))
    ]
  ]

  -- Either one of the fifty polls behind SIGTERM is the first to see the exit, and `stop` succeeds
  -- right there with no SIGKILL and no further poll; or none of the fifty sees an exit, and in the
  -- state behind the last one SIGKILL is sent: where it fails, `stop` fails with its error and ends
  -- there; where it does not, `stop` waits for the process and gives the success or the error of that.
  pub stop_lem :
      (p : SyncProcess) (st : St)
      → ((i : ℕ) × (i < 50)
          × Alive i p.pid (sigterm p.pid st)
          × ((try_wait p.pid (polled i p.pid (sigterm p.pid st))).0 ≡ exited)
          × (stop sys p st ≡ (ok tt, (try_wait p.pid (polled i p.pid (sigterm p.pid st))).1)))
        ⊎ (Alive 50 p.pid (sigterm p.pid st)
            × Killed p (polled 50 p.pid (sigterm p.pid st)) (stop sys p st))
  stop_lem p st = elim (first_exit 50 p.pid (sigterm p.pid st)) [
    | inl (i, lt, alive, gone) ↦ inl (i, lt, alive, gone, stop-exited p i st lt alive gone)
    | inr alive ↦
        let st' = polled 50 p.pid (sigterm p.pid st) in
        inr (alive, subst (Killed p st') (sym (stop-Alive p st alive)) (kill_process-Killed p st'))
  ]
