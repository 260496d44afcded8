-- ===== src/Tool/Threading/Follower.antt =====
-- src/bin/tsf_sync_debugfs/threading.rs, `correct_follower`, in terms of the follower's register.
use tsf_sync.Prelude.{ℕ, inl, inr, ◌^◌, ◌<◌, ◌≡◌, ◌≢◌, Bool, true, none, some, refl}
use tsf_sync.Prelude.Tests.{Option-cases}
use tsf_sync.Prelude.Int.{ℤ, pattern64-lt}
use tsf_sync.Tool.Float.{Float}
use tsf_sync.Tool.Control.{Controller, apply, new_tsf}
use tsf_sync.Tool.Debugfs.{Kernel, TsfFile}
use tsf_sync.Tool.Debugfs.Register.{TsfRegisters, read_tsf-tsf, write_tsf-store}
use tsf_sync.Tool.Threading.{correct_follower}

pub new_tsf-lt : (follower : ℕ) (step : ℤ) → new_tsf follower step < 2 ^ 64
unfolding new_tsf
new_tsf-lt follower step = pattern64-lt _

module _ (k : Kernel) (regs : TsfRegisters k) (fl : Float) (has_ssse3 : Bool) (f : TsfFile)
    (pread : f.pread_ok ≡ true) where
  open regs use {tsf, store, tsf-store_ne}

  pub correct_follower-some :
      (c c' : Controller fl) (master : ℕ) (st : k.St) (step e : ℤ)
      → apply c master (tsf f.fd st) ≡ some (c', step, e)
      → correct_follower k fl has_ssse3 f c master st
        ≡ (some (c', some (step, e)), store f.fd (new_tsf (tsf f.fd st) step) st)
  unfolding correct_follower
  correct_follower-some c c' master st step e he =
      let read = read_tsf-tsf k regs f pread has_ssse3 st in
      let written =
        write_tsf-store k regs f pread (new_tsf (tsf f.fd st) step) st
          (new_tsf-lt (tsf f.fd st) step) in
      rw (read, correct_follower) (rw he (rw read (rw written)))

  pub correct_follower-none :
      (c : Controller fl) (master : ℕ) (st : k.St)
      → apply c master (tsf f.fd st) ≡ none
      → correct_follower k fl has_ssse3 f c master st ≡ (none, st)
  unfolding correct_follower
  correct_follower-none c master st he =
      let read = read_tsf-tsf k regs f pread has_ssse3 st in
      rw (read, correct_follower) (rw he (rw read refl))

  -- The other registers stay as they are.
  pub correct_follower_other :
      (c : Controller fl) (master : ℕ) (st : k.St) (fd : ℕ)
      → f.fd ≢ fd
      → tsf fd (correct_follower k fl has_ssse3 f c master st).1 ≡ tsf fd st
  correct_follower_other c master st fd ne = elim (Option-cases (apply c master (tsf f.fd st))) [
    | inl e ↦ rw (correct_follower-none c master st e)
    | inr ((c', step, d), e) ↦
        rw (correct_follower-some c c' master st step d e)
          (tsf-store_ne f.fd fd (new_tsf (tsf f.fd st) step) st ne)
  ]
