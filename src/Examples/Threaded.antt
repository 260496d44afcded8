-- ===== src/Examples/Threaded.antt =====
-- The thread of mode C on a device that reports its two cards as they stand.
use tsf_sync.Prelude.{◌≡◌, inr, false, true, none, [], ◌∷◌}
use tsf_sync.Prelude.Int.{pos}
use tsf_sync.Sync.Module.{Host, exited}
use tsf_sync.Sync.IoUring.{run}
use tsf_sync.Sync.IoUring.Index
use tsf_sync.Sync.Uring.{Chardev, creating, gone, new_syncer}
use tsf_sync.Sync.Uring.Cycles.{stopped_after, thread_steps-run}
use tsf_sync.Examples.Lasting.{Clocks, two, apart_cards}

abbrev host_of_two : Host
host_of_two = record {
  St = Clocks;
  read_modules = λ st. inr 2;
  command = λ name args st. (exited true [], st);
  exists = λ path st. false;
  print = λ n. [];
}

abbrev device_of_two : Chardev host_of_two
device_of_two = record {
  read_device = λ st. (Index.bytes_read [], st);
  open_device = λ st. (none, st);
  make_ring = λ st. (none, st);
  close_device = λ st. st;
  read = two.read;
  write = two.write;
}

thread_steps-run_example : stopped_after device_of_two 5 (creating 0 (pos 5000)) apart_cards ≡ (
  gone,
  run two
      (true ∷ true ∷ false ∷ [])
      (record { primary_index = 0; threshold_ns = pos 5000 })
      apart_cards,
)
unfolding new_syncer
thread_steps-run_example = thread_steps-run device_of_two 4 0 (pos 5000) apart_cards
