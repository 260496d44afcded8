-- ===== src/Examples/Children.antt =====
-- The theorems about src/module_loader.rs and src/ptp4l.rs at concrete inputs: a module that insmod
-- loads, a process that leaves after three polls and one that never leaves.
use tsf_sync.Prelude.{
  ◌<◌, ◌⊎◌, ℕ, zero, suc, ◌≡◌, inl, Bool, true, false, none, some, [], refl, arith,
}
use tsf_sync.Prelude.Tests.{leb, if◌then◌else◌}
use tsf_sync.Prelude.Strings.{text_eq, lines, split_whitespace}
use tsf_sync.Prelude.Text.{codes}
use tsf_sync.Sync.Mode.{ptp, kernel}
use tsf_sync.Sync.Module
use tsf_sync.Sync.Module.{
  Host, Ran, is_tsf_ptp_loaded, is_module_loaded, is_module_loaded_from, any_line, load_tsf_ptp,
  load_module, insmod,
}
use tsf_sync.Sync.Module.Loading.{Loads, load_tsf_ptp-again}
use tsf_sync.Sync.Process
use tsf_sync.Sync.Process.{
  Processes, SyncProcess, running, exited, child, stop, kill_process, polls,
}
use tsf_sync.Sync.Process.Stop.{polled, Alive, stop-exited, stop-Alive, Killed, stop_lem}

abbrev by_hand : Host
by_hand = record {
  St = Bool;
  read_modules = λ st. inl (if st then codes "tsf_ptp 16384 0\n" else []);
  command = λ name args st.
      if text_eq name (codes "insmod")
      then (Module.exited true [], true)
      else (Module.exited false [], st);
  exists = λ path st. true;
  print = λ n. [];
}

by_hand-Loads : Loads by_hand
unfolding text_eq is_tsf_ptp_loaded is_module_loaded is_module_loaded_from any_line lines
    split_whitespace
by_hand-Loads = record { by_modprobe = λ params st out h. cc; by_insmod = λ params st out h. refl }

by_hand_done : (load_tsf_ptp by_hand 5000 kernel none none false).0 ≡ Module.ok tt
unfolding load_tsf_ptp load_module insmod text_eq is_tsf_ptp_loaded is_module_loaded
    is_module_loaded_from any_line lines split_whitespace
by_hand_done = refl

load_tsf_ptp-again_example :
    let st' = (load_tsf_ptp by_hand 5000 kernel none none false).1 in
    (is_tsf_ptp_loaded by_hand st' ≡ Module.ok true)
    × (load_tsf_ptp by_hand 7000 ptp none (some 10) st' ≡ (Module.ok tt, st'))
load_tsf_ptp-again_example =
    load_tsf_ptp-again by_hand by_hand-Loads 5000 7000 kernel ptp none none none (some 10) false
      by_hand_done

-- The state counts the sleeps.
abbrev leaves_after : ℕ → Processes
leaves_after n = record {
  St = ℕ;
  spawn = λ bin args st. (child 1, st);
  sigterm = λ pid st. st;
  try_wait = λ pid st. (if leb n st then exited else running, st);
  sleep_100ms = suc;
  kill = λ pid st. (none, st);
  wait = λ pid st. (none, st);
}

abbrev stubborn : Processes
stubborn = record (leaves_after 0) { try_wait = λ pid st. (running, st) }

abbrev client : SyncProcess
client = record { pid = 1; name = codes "phc2sys" }

stop-exited_test : stop (leaves_after 3) client 0 ≡ (Process.ok tt, 3)
stop-exited_test =
    stop-exited (leaves_after 3) client 3 0 (omega arith) ((λ h. cc), ((λ h. cc), ((λ h. cc), tt)))
      refl

stubborn-Alive : (n st : ℕ) → Alive stubborn n 1 st
stubborn-Alive zero st = tt
stubborn-Alive (suc n) st = ((λ h. cc), stubborn-Alive n (suc st))

stop-Alive_test : stop stubborn client 0 ≡ kill_process stubborn client (polled stubborn polls 1 0)
stop-Alive_test = stop-Alive stubborn client 0 (stubborn-Alive polls 0)

stop_example :
    ((i : ℕ) × (i < 50)
      × Alive stubborn i 1 0
      × ((stubborn.try_wait 1 (polled stubborn i 1 0)).0 ≡ Process.exited)
      × (stop stubborn client 0 ≡ (Process.ok tt, (stubborn.try_wait 1 (polled stubborn i 1 0)).1)))
    ⊎ (Alive stubborn 50 1 0
        × Killed stubborn client (polled stubborn 50 1 0) (stop stubborn client 0))
stop_example = stop_lem stubborn client 0
