-- ===== src/Sync/Daemon/Launch.antt =====
-- src/daemon.rs, mode A of `start`: one phc2sys for each card that is not the primary's.
use tsf_sync.Prelude.{◌+◌, ◌≡◌, ◌⊎◌, inl, inr, refl, List, [], ◌∷◌, ◌++◌, arith}
use tsf_sync.Prelude.Tests.{Bool-cases}
use tsf_sync.Prelude.Lists.{length, length-append}
use tsf_sync.Prelude.Text.{Bytes}
use tsf_sync.Prelude.Strings.{text_eq}
use tsf_sync.Sync.Mode.{ptp}
use tsf_sync.Sync.Discovery.{WifiCard}
use tsf_sync.Sync.Config.Sections.{others}
use tsf_sync.Sync.Process
use tsf_sync.Sync.Process.{SyncProcess}
use tsf_sync.Sync.Daemon.{
  World, DaemonError, Result, ok, err, SyncState, phc2sys, ProcState, clock_of, start_all, launch,
}

pub Result-cases :
    (r : Process.Result SyncProcess)
    → ((p : SyncProcess) × (r ≡ Process.ok p)) ⊎ ((e : Process.SyncError) × (r ≡ Process.err e))
Result-cases (Process.ok p) = inl (p, refl)
Result-cases (Process.err e) = inr (e, refl)

ok_inj : (ps qs : List SyncProcess) → ok ps ≡ ok qs → length ps ≡ length qs
ok_inj ps qs h = ground arith

pub outcome_cases :
    {A : Type 0} (r : Result A) → ((a : A) × (r ≡ ok a)) ⊎ ((e : DaemonError) × (r ≡ err e))
outcome_cases (ok a) = inl (a, refl)
outcome_cases (err e) = inr (e, refl)

pub state_inj : {s t : SyncState} → ok s ≡ ok t → t ≡ s
state_inj h = cc

err_ok_state : {e : DaemonError} {s : SyncState} → err e ≡ ok s → ⊥
err_ok_state h = cc

err_ok : {e : DaemonError} {ps : List SyncProcess} → err e ≡ ok ps → ⊥
err_ok h = cc

module _ (w : World) (bin : Bytes) (primary : WifiCard) where
  start_all-others :
      (cards : List WifiCard) (started : List SyncProcess) (ps : ProcState w)
      (processes : List SyncProcess)
      → (start_all w bin primary cards started ps).0 ≡ ok processes
      → length processes ≡ length started + length (others primary.phy cards)
  unfolding start_all
  start_all-others [] started ps processes done = omega (arith, ok_inj started processes done)
  start_all-others (c ∷ cs) started ps processes done =
      elim (Bool-cases (text_eq c.phy primary.phy)) [
        | inl e ↦ rw e (start_all-others cs started ps processes (rw (e, start_all) at done))
        | inr e ↦
            let run = Process.start_phc2sys w.procs (clock_of primary) (clock_of c) bin ps in
            elim (Result-cases run.0) [
              | inl (p, up) ↦
                  let rest =
                    start_all-others cs (started ++ p ∷ []) run.1 processes
                      (rw (up, start_all) at (rw (e, start_all) at done)) in
                  rw e (omega (arith, rest, length-append started (p ∷ [])))
              | inr (x, down) ↦
                  absurd (err_ok (rw (down, start_all) at (rw (e, start_all) at done)))
            ]
      ]

module _ (w : World) (linuxptp : Bytes) (primary : WifiCard) where
  -- Where the start in mode A succeeds for the cards that have a clock, the state holds a phc2sys
  -- process for each of the cards of a phy other than the primary's, and no more.
  pub launch-ptp :
      (cards : List WifiCard) (ps : ProcState w) (state : SyncState)
      → (launch w linuxptp ptp primary cards ps).0 ≡ ok state
      → (processes : List SyncProcess) × (state ≡ phc2sys processes)
        × (length processes ≡ length (others primary.phy cards))
  unfolding launch
  launch-ptp cards ps state done =
      let run = start_all w (Process.phc2sys_bin_from linuxptp) primary cards [] ps in
      elim (outcome_cases run.0) [
        | inl (processes, up) ↦ (
          processes,
          state_inj (rw (up, launch) at done),
          omega (
            arith,
            start_all-others w (Process.phc2sys_bin_from linuxptp) primary cards [] ps processes up,
          ),
        )
        | inr (e, down) ↦ absurd (err_ok_state (rw (down, launch) at done))
      ]
