-- ===== src/Sync/Process.antt =====
-- src/ptp4l.rs: the child processes of linuxptp. The forwarding of their output is left out.
pub mod Stop
pub mod Children
use mathlib.Core.List.{reverse}
use tsf_sync.Prelude.{
  ℕ, zero, suc, ◌≡◌, refl, Bool, true, false, not, ◌&&◌, ◌||◌, Option, none, some, List, [], ◌∷◌,
  ◌++◌,
}
use tsf_sync.Prelude.Tests.{◌==◌, if◌then◌else◌}
use tsf_sync.Prelude.Strings.{text_eq, starts_with}
use tsf_sync.Prelude.Text.{Bytes, codes}

pub data SyncError : Type 0 where
  start : Bytes → ℕ → SyncError
  not_found : Bytes → SyncError
  stop_failed : Bytes → ℕ → SyncError

pub data Result {ℓ} (A : Type ℓ) : Type ℓ where
  ok : A → Result A
  err : SyncError → Result A

-- `try_wait`: an error, still running, or exited.
pub data Waited : Type 0 where
  wait_error : ℕ → Waited
  running : Waited
  exited : Waited

pub data Spawned : Type 0 where
  no_such_file : Spawned
  spawn_error : ℕ → Spawned
  child : ℕ → Spawned

-- The system's side of child processes, by their process number.
pub record Processes : Type 1 where
  pub St : Type 0
  pub spawn : Bytes → List Bytes → St → Spawned × St
  pub sigterm : ℕ → St → St
  pub try_wait : ℕ → St → Waited × St
  pub sleep_100ms : St → St
  pub kill : ℕ → St → Option ℕ × St  -- an error number
  pub wait : ℕ → St → Option ℕ × St

pub record SyncProcess : Type 0 where
  pub pid : ℕ
  pub name : Bytes

abbrev pub polls : ℕ
polls = 50

module _ (sys : Processes) where
  open sys use {St, spawn, sigterm, try_wait, sleep_100ms, kill, wait}

  -- `SyncProcess::spawn`
  unfoldable pub spawn_process : Bytes → List Bytes → Bytes → St → Result SyncProcess × St
  spawn_process bin args name st =
      let (s, st') = spawn bin args st in
      (
        elim s [
          | no_such_file ↦ err (not_found bin)
          | spawn_error e ↦ err (start name e)
          | child pid ↦ ok (record { pid = pid; name = name })
        ],
        st',
      )

  unfoldable pub is_running : SyncProcess → St → Bool × St
  is_running p st = let (w, st') = try_wait p.pid st in (elim w [ running ↦ true | _ ↦ false ], st')

  -- The polls of `stop`: whether one of them saw the exit.
  unfoldable pub poll : ℕ → ℕ → St → Bool × St
  poll zero pid st = (false, st)
  poll (suc n) pid st =
      let (w, st') = try_wait pid st in
      elim w [
        | exited ↦ (true, st')
        | running ↦ poll n pid (sleep_100ms st')
        | wait_error e ↦ poll n pid (sleep_100ms st')
      ]

  -- What follows the polls: SIGKILL and a wait for the end.
  unfoldable pub kill_process : SyncProcess → St → Result (Unit {0}) × St
  kill_process p st =
      let (k, st1) = kill p.pid st in
      elim k [
        | some e ↦ (err (stop_failed p.name e), st1)
        | none ↦
            let (w, st2) = wait p.pid st1 in
            (elim w [ some e ↦ err (stop_failed p.name e) | none ↦ ok tt ], st2)
      ]

  unfoldable pub stop : SyncProcess → St → Result (Unit {0}) × St
  stop p st =
      let (gone, st1) = poll polls p.pid (sigterm p.pid st) in
      if gone then (ok tt, st1) else kill_process p st1

  -- `Drop`
  unfoldable pub drop_process : SyncProcess → St → St
  drop_process p st = let (up, st1) = is_running p st in if up then (stop p st1).1 else st1

  unfoldable pub start_phc2sys : Bytes → Bytes → Bytes → St → Result SyncProcess × St
  start_phc2sys primary_clock secondary_clock phc2sys_bin st =
      spawn_process phc2sys_bin
        (codes "-s"
          ∷ primary_clock
          ∷ codes "-c"
          ∷ secondary_clock
          ∷ codes "-R"
          ∷ codes "10"
          ∷ codes "-O"
          ∷ codes "0"
          ∷ codes "-m"
          ∷ [])
        (codes "phc2sys[" ++ primary_clock ++ codes "→" ++ secondary_clock ++ codes "]") st

  unfoldable pub start_ptp4l : Bytes → Bytes → St → Result SyncProcess × St
  start_ptp4l config_path ptp4l_bin st =
      spawn_process ptp4l_bin (codes "-f" ∷ config_path ∷ codes "-m" ∷ []) (codes "ptp4l") st

-- `Path::parent` of a Unix path, on the text read backwards: separators and `.` components at the end
-- do not count, and the root stays.
trim_path : Bytes → Bytes
trim_path [] = []
trim_path (c ∷ s) =
    let rest = trim_path s in
    if (c == b'/' && not (text_eq s [])) || (c == b'.' && starts_with s (b'/' ∷ []))
    then rest
    else c ∷ s

drop_name : Bytes → Bytes
drop_name [] = []
drop_name (c ∷ s) = let rest = drop_name s in if c == b'/' then c ∷ s else rest

unfoldable pub parent : Bytes → Option Bytes
unfolding trim_path drop_name
parent path =
    let back = trim_path (reverse path) in
    if text_eq back [] || text_eq back (b'/' ∷ [])
    then none
    else some (reverse (trim_path (drop_name back)))

-- `Path::join` with a name.
unfoldable pub join : Bytes → Bytes → Bytes
join dir name = if starts_with (reverse dir) (b'/' ∷ []) then dir ++ name else dir ++ (b'/' ∷ name)

unfoldable pub phc2sys_bin_from : Bytes → Bytes
phc2sys_bin_from linuxptp_bin = elim (parent linuxptp_bin) [
  | none ↦ codes "phc2sys"
  | some dir ↦ if text_eq dir [] then codes "phc2sys" else join dir (codes "phc2sys")
]

full_path_test :
    phc2sys_bin_from (codes "/nix/store/abc-linuxptp-4.4/bin/ptp4l")
    ≡ codes "/nix/store/abc-linuxptp-4.4/bin/phc2sys"
unfolding phc2sys_bin_from parent trim_path drop_name join text_eq starts_with
full_path_test = refl

bare_name_test : phc2sys_bin_from (codes "ptp4l") ≡ codes "phc2sys"
unfolding phc2sys_bin_from parent trim_path drop_name text_eq starts_with
bare_name_test = refl

root_test : phc2sys_bin_from (codes "/ptp4l/.") ≡ codes "/phc2sys"
unfolding phc2sys_bin_from parent trim_path drop_name join text_eq starts_with
root_test = refl
