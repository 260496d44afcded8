-- ===== src/Sync/Uring.antt =====
-- src/daemon.rs with the `iouring` feature, and src/iouring_sync.rs: the start and the stop in mode C,
-- and the thread between them, one step at a time.
pub mod Cycles
pub mod Shutdown
use tsf_sync.Prelude.{
  ℕ, zero, suc, ◌≡◌, ◌⊎◌, inl, inr, Bool, true, false, Option, none, some, List, [], ◌∷◌,
}
use tsf_sync.Prelude.Tests.{if◌then◌else◌}
use tsf_sync.Prelude.Text.{Bytes}
use tsf_sync.Prelude.Int.{ℤ, signed64}
use tsf_sync.Sync.Module.{Host, Result, unload_tsf_ptp}
use tsf_sync.Sync.IoUring.{Ring, Syncer, Completion, sync_once}
use tsf_sync.Sync.IoUring.Index
use tsf_sync.Sync.IoUring.Index.{find_primary_index}

-- What the program does with /dev/tsf_sync and its ring; an open or a ring gives an error number or
-- nothing.
pub record Chardev (host : Host) : Type 0 where
  pub read_device : host.St → Index.Device × host.St  -- open, read once, close
  pub open_device : host.St → Option ℕ × host.St
  pub make_ring : host.St → Option ℕ × host.St
  pub close_device : host.St → host.St
  pub read : ℕ → host.St → Completion × Bytes × host.St
  pub write : Bytes → host.St → Completion × host.St

-- Where the thread stands: before its construction, before its test of `running`, before its cycle,
-- behind it, or at its end.
pub data ThreadPc : Type 0 where
  creating : ℕ → ℤ → ThreadPc
  testing syncing sleeping : Syncer → ThreadPc
  gone : ThreadPc

pub data Launched : Type 0 where
  started : ThreadPc → Launched
  no_primary : Bytes → Launched
  device_error : ℕ → Launched

module _ {host : Host} (dev : Chardev host) where
  open host use {St}
  open dev use {read_device, open_device, make_ring, close_device, read, write}

  abbrev pub ring_of : Ring
  ring_of = record { St = St; read = read; write = write }

  -- `IoUringSyncer::new`: the file is dropped where the ring cannot be made.
  unfoldable pub new_syncer : ℕ → ℤ → St → (Syncer ⊎ ℕ) × St
  new_syncer primary_index threshold_ns st =
      let (opened, st1) = open_device st in
      elim opened [
        | some e ↦ (inr e, st1)
        | none ↦
            let (made, st2) = make_ring st1 in
            elim made [
              | some e ↦ (inr e, close_device st2)
              | none ↦
                  (inl (record { primary_index = primary_index; threshold_ns = threshold_ns }), st2)
            ]
      ]

  -- The branch of `start` for mode C; `adjtime_threshold_ns as i64`.
  unfoldable pub launch_uring : Bytes → ℕ → St → Launched × St
  launch_uring primary_phy adjtime_threshold_ns st =
      let (answer, st') = read_device st in
      (
        elim (find_primary_index primary_phy answer) [
          | Index.found index ↦ started (creating index (signed64 adjtime_threshold_ns))
          | Index.not_found phy ↦ no_primary phy
          | Index.io_error e ↦ device_error e
        ],
        st',
      )

  -- A step of the thread, by the value of `running`. At its end the syncer is dropped.
  unfoldable pub thread_step : Bool → ThreadPc → St → ThreadPc × St
  thread_step running (creating index threshold) st =
      let (r, st') = new_syncer index threshold st in
      (elim r [ inl syncer ↦ testing syncer | inr e ↦ gone ], st')
  thread_step running (testing syncer) st =
      if running then (syncing syncer, st) else (gone, close_device st)
  thread_step running (syncing syncer) st = (sleeping syncer, (sync_once ring_of syncer st).1)
  thread_step running (sleeping syncer) st = (testing syncer, st)
  thread_step running gone st = (gone, st)

  unfoldable pub thread_steps : Bool → ℕ → ThreadPc → St → ThreadPc × St
  thread_steps running zero pc st = (pc, st)
  thread_steps running (suc n) pc st =
      let (pc', st') = thread_step running pc st in thread_steps running n pc' st'

  -- The branch of `stop` for mode C, where the thread makes n steps between the store to `running` and
  -- the unloading. The thread is not joined.
  unfoldable pub stop_uring : ℕ → ThreadPc → St → Result (Unit {0}) × ThreadPc × St
  stop_uring n pc st =
      let (pc', st') = thread_steps false n pc st in
      let (r, st'') = unload_tsf_ptp host st' in (r, pc', st'')
