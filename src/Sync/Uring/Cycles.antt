-- ===== src/Sync/Uring/Cycles.antt =====
-- src/daemon.rs and src/iouring_sync.rs: the thread of mode C from its start to its end, beside the loop
-- `run` as one function.
use tsf_sync.Prelude.{
  ℕ, zero, suc, ◌+◌, ◌/◌, ◌≡◌, ◌⊎◌, inl, inr, refl, ◌∙◌, ap, sym, Bool, true, false, List, [], ◌∷◌,
  arith,
}
use tsf_sync.Prelude.Int.{ℤ}
use tsf_sync.Sync.Module.{Host}
use tsf_sync.Sync.IoUring.{Syncer, run, sync_once}
use tsf_sync.Sync.Uring.{
  Chardev, ThreadPc, creating, testing, gone, ring_of, new_syncer, thread_step, thread_steps,
}
use tsf_sync.Sync.Uring.Shutdown.{gone_stays}

-- What the tests of `running` load where n of them find it set.
abbrev pub loads : ℕ → List Bool
loads zero = false ∷ []
loads (suc n) = true ∷ loads n

module _ {host : Host} (dev : Chardev host) where
  open host use {St}
  open dev use {close_device}

  -- The thread, and the system, where `running` is cleared behind k of its steps.
  abbrev pub stopped_after : ℕ → ThreadPc → St → ThreadPc × St
  stopped_after k pc st =
      let (pc', st') = thread_steps dev true k pc st in thread_steps dev false 3 pc' st'

  cycles_due : (k : ℕ) → (suc (suc (suc k)) + 2) / 3 ≡ suc ((k + 2) / 3)
  cycles_due k = omega arith

  abbrev the_end : St → ThreadPc × St
  the_end st = (gone, close_device st)

  from_test :
      (k : ℕ) (s : Syncer) (st : St)
      → stopped_after k (testing s) st ≡ the_end (run (ring_of dev) (loads ((k + 2) / 3)) s st)
  unfolding thread_steps thread_step run
  from_test zero s st = refl
  from_test (suc zero) s st = refl
  from_test (suc (suc zero)) s st = refl
  from_test (suc (suc (suc k))) s st =
      from_test k s (sync_once (ring_of dev) s st).1
      ∙ ap (λ (n : ℕ). the_end (run (ring_of dev) (loads n) s st)) (sym (cycles_due k))

  from_made :
      (k : ℕ) (r : Syncer ⊎ ℕ) (st : St)
      → stopped_after k (elim r [ inl s ↦ testing s | inr e ↦ gone ]) st ≡ elim r [
        | inl s ↦ the_end (run (ring_of dev) (loads ((k + 2) / 3)) s st)
        | inr e ↦ (gone, st)
      ]
  from_made k (inl s) st = from_test k s st
  from_made k (inr e) st =
      ap (λ (end : ThreadPc × St). thread_steps dev false 3 end.0 end.1) (gone_stays dev k true st)
      ∙ gone_stays dev 3 false st

  -- The thread, stepped from its start, and with `running` cleared behind any number of its steps, at
  -- least one, ends within three more. Where the construction of its syncer fails, the system is as the
  -- construction left it; else the system is what the loop `run` makes of it where as many tests find
  -- `running` set as the steps behind the construction begin rounds of three, and the device is closed.
  pub thread_steps-run :
      (k index : ℕ) (threshold : ℤ) (st : St)
      → let (r, st') = new_syncer dev index threshold st in
        stopped_after (suc k) (creating index threshold) st ≡ elim r [
          | inl s ↦ (gone, close_device (run (ring_of dev) (loads ((k + 2) / 3)) s st'))
          | inr e ↦ (gone, st')
        ]
  unfolding thread_steps thread_step
  thread_steps-run k index threshold st =
      let (r, st') = new_syncer dev index threshold st in from_made k r st'
