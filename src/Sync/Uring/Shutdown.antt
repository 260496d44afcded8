-- ===== src/Sync/Uring/Shutdown.antt =====
-- src/daemon.rs and src/iouring_sync.rs: the end of the thread of mode C, and the unloading of the
-- module beside it.
use tsf_sync.Prelude.{
  ℕ, zero, suc, ◌≡◌, ◌≢◌, ◌⊎◌, inl, inr, refl, ◌∙◌, ap, Bool, true, false, List, [], ◌∷◌, arith,
}
use tsf_sync.Prelude.Tests.{Option-cases}
use tsf_sync.Prelude.Text.{Bytes, codes}
use tsf_sync.Sync.Module.{
  Host, ok, err, rmmod, exited, is_tsf_ptp_loaded, unload_module, unload_tsf_ptp,
}
use tsf_sync.Sync.IoUring
use tsf_sync.Sync.IoUring.{
  RingError, TsfSnapshot, find_primary, Ring, Syncer, SyncStats, TsfAdjustment, encode_all,
  sync_once, read_snapshots, write_adjustments, apply_plan,
}
use tsf_sync.Sync.Uring.{
  Chardev, ThreadPc, creating, testing, syncing, sleeping, gone, ring_of, new_syncer, thread_step,
  thread_steps, stop_uring,
}

module _ {host : Host} (dev : Chardev host) where
  open host use {St}
  open dev use {close_device, open_device, make_ring}

  -- The system behind the thread once `running` is false: at most the cycle that is due, and the close.
  abbrev pub at_end : ThreadPc → St → St
  at_end (creating index threshold) st =
      let (r, st') = new_syncer dev index threshold st in
      elim r [ inl s ↦ close_device st' | inr e ↦ st' ]
  at_end (testing s) st = close_device st
  at_end (syncing s) st = close_device (sync_once (ring_of dev) s st).1
  at_end (sleeping s) st = close_device st
  at_end gone st = st

  pub gone_stays :
      (n : ℕ) (running : Bool) (st : St) → thread_steps dev running n gone st ≡ (gone, st)
  unfolding thread_steps thread_step
  gone_stays zero running st = refl
  gone_stays (suc n) running st = gone_stays n running st

  made_end :
      (n : ℕ) (r : Syncer ⊎ ℕ) (st : St)
      → thread_steps dev false (suc (suc n)) (elim r [ inl s ↦ testing s | inr e ↦ gone ]) st
        ≡ (gone, elim r [ inl s ↦ close_device st | inr e ↦ st ])
  unfolding thread_steps thread_step
  made_end n (inl s) st = gone_stays (suc n) false (close_device st)
  made_end n (inr e) st = gone_stays (suc (suc n)) false st

  -- After `running` is cleared the thread ends within three of its steps, wherever it stands, with the
  -- cycle that it was about to make and no other.
  pub thread_steps-at_end :
      (n : ℕ) (pc : ThreadPc) (st : St)
      → thread_steps dev false (suc (suc (suc n))) pc st ≡ (gone, at_end pc st)
  unfolding thread_steps thread_step
  thread_steps-at_end n (creating index threshold) st =
      let (r, st') = new_syncer dev index threshold st in made_end n r st'
  thread_steps-at_end n (testing s) st = gone_stays (suc (suc n)) false (close_device st)
  thread_steps-at_end n (syncing s) st = gone_stays n false _
  thread_steps-at_end n (sleeping s) st = gone_stays (suc n) false (close_device st)
  thread_steps-at_end n gone st = gone_stays (suc (suc (suc n))) false st

-- What the kernel does with the module while its device is open: it lists the module, rmmod fails, and
-- reads and writes leave the device open.
pub record Busy {host : Host} (dev : Chardev host) : Type 0 where
  pub is_open : host.St → Bool
  pub open-loaded : (st : host.St) → is_open st ≡ true → is_tsf_ptp_loaded host st ≡ ok true
  pub rmmod-open :
      (st : host.St)
      → is_open st ≡ true
      → (stderr : Bytes) × ((host.command (codes "rmmod") (codes "tsf_ptp" ∷ []) st).0
          ≡ exited false stderr)
  pub read-open : (n : ℕ) (st : host.St) → is_open (dev.read n st).2 ≡ is_open st
  pub write-open : (buf : Bytes) (st : host.St) → is_open (dev.write buf st).1 ≡ is_open st

-- Where the thread holds its syncer.
abbrev pub holds : ThreadPc → Bool
holds (creating index threshold) = false
holds (testing s) = true
holds (syncing s) = true
holds (sleeping s) = true
holds gone = false

snapshots_cases :
    (r : IoUring.Result (List TsfSnapshot))
    → ((snaps : List TsfSnapshot) × (r ≡ IoUring.ok snaps))
      ⊎ ((e : RingError) × (r ≡ IoUring.err e))
snapshots_cases (IoUring.ok snaps) = inl (snaps, refl)
snapshots_cases (IoUring.err e) = inr (e, refl)

module _ {host : Host} {dev : Chardev host} (busy : Busy dev) where
  open host use {St, command}
  open busy use {is_open, open-loaded, rmmod-open, read-open, write-open}

  apply_plan_open :
      (plan : SyncStats × List TsfAdjustment) (st : St)
      → is_open (apply_plan (ring_of dev) plan st).1 ≡ is_open st
  unfolding apply_plan write_adjustments
  apply_plan_open (stats, []) st = refl
  apply_plan_open (stats, a ∷ adjs) st = write-open (encode_all (a ∷ adjs)) st

  read_snapshots_open : (st : St) → is_open (read_snapshots (ring_of dev) st).1 ≡ is_open st
  unfolding read_snapshots
  read_snapshots_open st = read-open _ st

  sync_once_open : (s : Syncer) (st : St) → is_open (sync_once (ring_of dev) s st).1 ≡ is_open st
  unfolding sync_once
  sync_once_open s st =
      let (r, st1) = read_snapshots (ring_of dev) st in
      let read = read_snapshots_open st in
      elim (snapshots_cases r) [
        | inr (_, e) ↦ rw (e, sync_once) read
        | inl (snaps, e) ↦ elim (Option-cases (find_primary s.primary_index snaps)) [
          | inl none_found ↦ rw (e, sync_once) (rw (none_found, sync_once) read)
          | inr (tsf, found) ↦
              rw (e, sync_once) (rw (found, sync_once) (apply_plan_open _ st1 ∙ read))
        ]
      ]

  -- A thread that holds its syncer and has not ended holds it still, and the device is open.
  thread_steps_open :
      (n : ℕ) (pc : ThreadPc) (st : St)
      → holds pc ≡ true
      → is_open st ≡ true
      → (thread_steps dev false n pc st).0 ≢ gone
      → is_open (thread_steps dev false n pc st).1 ≡ true
  unfolding thread_steps thread_step
  thread_steps_open zero pc st h open_now up = open_now
  thread_steps_open (suc n) (creating index threshold) st h open_now up = cc
  thread_steps_open (suc n) (testing s) st h open_now up =
      absurd (up (ap (λ (r : ThreadPc × St). r.0) (gone_stays dev n false _)))
  thread_steps_open (suc n) (syncing s) st h open_now up =
      thread_steps_open n (sleeping s) (sync_once (ring_of dev) s st).1 refl
        (sync_once_open s st ∙ open_now) up
  thread_steps_open (suc n) (sleeping s) st h open_now up =
      thread_steps_open n (testing s) st refl open_now up
  thread_steps_open (suc n) gone st h open_now up = cc

  -- Where the thread has the device open, and has not ended by the time of the unloading, however many
  -- steps it made since the store to `running`: the stop fails with the error of rmmod.
  pub stop_uring-rmmod :
      (n : ℕ) (pc : ThreadPc) (st : St)
      → holds pc ≡ true
      → is_open st ≡ true
      → (thread_steps dev false n pc st).0 ≢ gone
      → (stderr : Bytes) × ((stop_uring dev n pc st).0 ≡ err (rmmod stderr))
  unfolding stop_uring unload_tsf_ptp unload_module
  stop_uring-rmmod n pc st h open_now up =
      let (pc', st') = thread_steps dev false n pc st in
      let still = thread_steps_open n pc st h open_now up in
      let (stderr, failed) = rmmod-open st' still in
      (stderr, ground (arith, open-loaded st' still, failed))
