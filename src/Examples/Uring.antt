-- ===== src/Examples/Uring.antt =====
-- The thread of mode C on a system whose state is whether its device is open.
use tsf_sync.Prelude.{◌≡◌, ◌≢◌, inl, refl, Bool, true, false, none, [], ◌∷◌}
use tsf_sync.Prelude.Tests.{if◌then◌else◌}
use tsf_sync.Prelude.Text.{Bytes, codes}
use tsf_sync.Prelude.Strings.{text_eq, lines, lines_from, split_whitespace, words_from}
use tsf_sync.Prelude.Int.{pos}
use tsf_sync.Sync.Module
use tsf_sync.Sync.Module.{
  Host, err, rmmod, exited, is_tsf_ptp_loaded, is_module_loaded, is_module_loaded_from, any_line,
}
use tsf_sync.Sync.IoUring.{Syncer, completed}
use tsf_sync.Sync.IoUring.Index
use tsf_sync.Sync.Uring.{Chardev, syncing, sleeping, gone, thread_step, thread_steps, stop_uring}
use tsf_sync.Sync.Uring.Shutdown.{Busy, at_end, thread_steps-at_end, stop_uring-rmmod}

abbrev loaded_host : Host
loaded_host = record {
  St = Bool;
  read_modules = λ st. inl (codes "tsf_ptp 1\n");
  command = λ name args st. (exited (if st then false else true) (codes "in use"), st);
  exists = λ path st. false;
  print = λ n. [];
}

abbrev chardev : Chardev loaded_host
chardev = record {
  read_device = λ st. (Index.bytes_read [], st);
  open_device = λ st. (none, true);
  make_ring = λ st. (none, st);
  close_device = λ st. false;
  read = λ n st. (completed (pos 0), [], st);
  write = λ buf st. (completed (pos 0), st);
}

is_loaded : (st : Bool) → is_tsf_ptp_loaded loaded_host st ≡ Module.ok true
unfolding is_tsf_ptp_loaded is_module_loaded is_module_loaded_from any_line lines split_whitespace
    text_eq lines_from words_from
is_loaded st = refl

refused :
    (st : Bool)
    → st ≡ true
    → (stderr : Bytes) × ((loaded_host.command (codes "rmmod") (codes "tsf_ptp" ∷ []) st).0
        ≡ exited false stderr)
refused st h = (codes "in use", rw h refl)

abbrev busy : Busy chardev
busy = record {
  is_open = λ st. st;
  open-loaded = λ st h. is_loaded st;
  rmmod-open = refused;
  read-open = λ n st. refl;
  write-open = λ buf st. refl;
}

abbrev syncer : Syncer
syncer = record { primary_index = 0; threshold_ns = pos 5000 }

sleeping_gone : sleeping syncer ≢ gone
sleeping_gone h = cc

still_up : (thread_steps chardev false 1 (syncing syncer) true).0 ≢ gone
unfolding thread_steps thread_step
still_up = sleeping_gone

stop_uring-rmmod_example :
    (stderr : Bytes) × ((stop_uring chardev 1 (syncing syncer) true).0 ≡ err (rmmod stderr))
stop_uring-rmmod_example = stop_uring-rmmod busy 1 (syncing syncer) true refl refl still_up

thread_steps-at_end_test :
    thread_steps chardev false 3 (syncing syncer) true
    ≡ (gone, at_end chardev (syncing syncer) true)
thread_steps-at_end_test = thread_steps-at_end chardev 0 (syncing syncer) true
