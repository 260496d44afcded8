-- ===== src/Examples/Stack.antt =====
-- The theorems about src/ at concrete inputs: a machine with three radios.
use tsf_sync.Prelude.{
  ℕ, ◌+◌, ◌*◌, ◌≤◌, ◌≡◌, inl, refl, true, false, Option, none, some, List, [], ◌∷◌, ◌++◌, arith,
}
use tsf_sync.Prelude.Tests.{ltb, if◌then◌else◌}
use tsf_sync.Prelude.Lists.{length}
use tsf_sync.Prelude.Strings.{text_eq, contains, starts_with, parse_u64, parse_digits, scan_digits}
use tsf_sync.Prelude.Text.{Bytes, codes}
use tsf_sync.Prelude.Int.{ℤ, pos, negsuc, ◌+ℤ◌, wrap64}
use tsf_sync.Sync.Mode.{
  kernel, ptp, as_kernel_param, detect_active_sync_mode, param_line, detect-as_kernel_param,
}
use tsf_sync.Sync.Discovery.{
  WifiCard, native, tsf_ptp, Sysfs, entries, not_found, card_of, discover_cards, collect,
  read_driver, find_ptp_clock, first_ptp, sort, insert, card_le, key_le, natural_sort_key,
  prefix_of, digits_of, text_le,
}
use tsf_sync.Sync.Discovery.Cards.{IsConsistent, card_of-IsConsistent}
use tsf_sync.Sync.Discovery.Order.{phys}
use tsf_sync.Sync.Config
use tsf_sync.Sync.Config.{
  find, with_clock, select_primary, generate_config, global_section, line, auto, only_one_clock,
}
use tsf_sync.Sync.Config.Primary.{Choice, select_primary-Choice}
use tsf_sync.Sync.Config.Sections.{header_text, client_sections, others, generate_config-sections}
use tsf_sync.Sync.IoUring.{
  TsfSnapshot, TsfAdjustment, no_stats, delta_of, visit_all, encode_all, adjustment_size,
}
use tsf_sync.Sync.IoUring.Plan.{planned, secondaries, delta_of-lands, visit_all-planned}
use tsf_sync.Sync.IoUring.Wire.{read_adjustments, read-encode_all}
use tsf_sync.Sync.Module.{Host, exited}
use tsf_sync.Sync.Process.{Processes, exited, child}
use tsf_sync.Sync.Daemon.{World, ok, err, config, in_kernel, needs_module, start}
use tsf_sync.Sync.Daemon.{launch, start_all, phc2sys}
use tsf_sync.Sync.Process.{SyncProcess, start_phc2sys, spawn_process}
use tsf_sync.Sync.Daemon.Launch.{launch-ptp}
use tsf_sync.Sync.Daemon.Start.{start-in_kernel, start-only_one_clock}

detect_test : detect_active_sync_mode (some (param_line (as_kernel_param kernel))) ≡ some kernel
detect_test = detect-as_kernel_param kernel

abbrev found : List (Option Bytes)
found = some (codes "phy10") ∷ some (codes "rfkill0") ∷ some (codes "phy2") ∷ []

abbrev pub fs : Sysfs
fs = record {
  root = entries found;
  device_dir = λ phy. not_found;
  phy_dir =
      λ phy. if text_eq phy (codes "phy2") then entries (some (codes "ptp1") ∷ []) else not_found;
  driver_link = λ phy. some (some (codes "mt7921e"));
}

card_of-IsConsistent_example : IsConsistent (card_of fs (codes "phy2"))
card_of-IsConsistent_example = card_of-IsConsistent fs (codes "phy2")

abbrev intel : WifiCard
intel = record {
  phy = codes "phy1";
  driver = codes "iwlwifi";
  ptp_clock = some (codes "/dev/ptp1");
  ptp_source = native;
  can_set_tsf = true;
}

abbrev mediatek : WifiCard
mediatek = record {
  phy = codes "phy0";
  driver = codes "mt7921e";
  ptp_clock = some (codes "/dev/ptp0");
  ptp_source = tsf_ptp;
  can_set_tsf = true;
}

abbrev two_cards : List WifiCard
two_cards = mediatek ∷ intel ∷ []

select_primary_example : Choice two_cards auto (select_primary two_cards auto)
select_primary_example = select_primary-Choice two_cards auto (refl, (refl, tt)) (omega arith)

two_clocks : with_clock two_cards ≡ two_cards
unfolding with_clock
two_clocks = refl

enough_clocks : 2 ≤ length (with_clock two_cards)
enough_clocks = rw two_clocks (omega arith)

native_chosen : select_primary (with_clock two_cards) auto ≡ Config.ok intel
unfolding with_clock select_primary find text_eq
native_chosen = refl

generate_config_example :
    generate_config two_cards auto
    ≡ some (
        Config.ok (
          global_section
          ++ header_text (codes "Primary") intel
          ++ line (codes "serverOnly              1")
          ++ client_sections (others intel.phy (with_clock two_cards))))
generate_config_example = generate_config-sections two_cards auto intel enough_clocks native_chosen

abbrev snapshot : ℕ → ℤ → TsfSnapshot
snapshot index tsf_ns = record {
  card_index = index;
  phy_name_len = 4;
  phy_name = codes "phy0";
  tsf_ns = tsf_ns;
  mono_ns = pos 0;
}

delta_of-lands_test :
    wrap64 ((snapshot 1 (negsuc 5)).tsf_ns +ℤ delta_of (pos 1000) (snapshot 1 (negsuc 5)))
    ≡ pos 1000
delta_of-lands_test =
    delta_of-lands (pos 1000) (snapshot 1 (negsuc 5)) (omega arith, omega arith)
      (omega arith, omega arith)

abbrev snaps : List TsfSnapshot
snaps = snapshot 0 (pos 9000) ∷ snapshot 1 (pos 100) ∷ snapshot 2 (pos 8950) ∷ []

visit_all-planned_example :
    let (stats, adjs) =
      visit_all 0 (pos 500) (pos 9000) snaps (record no_stats { cards_read = 3 }, []) in
    (adjs ≡ planned 0 (pos 500) (pos 9000) snaps)
    × (stats.adjustments_applied ≡ length adjs)
    × (stats.adjustments_applied + stats.adjustments_skipped
        ≡ secondaries 0 (pos 500) (pos 9000) snaps)
    × (stats.cards_read ≡ 3)
visit_all-planned_example = visit_all-planned 0 (pos 500) (pos 9000) snaps 3 (omega arith)

abbrev adjustments : List TsfAdjustment
adjustments =
    record { card_index = 1; delta_ns = pos 8900 }
    ∷ record { card_index = 2; delta_ns = negsuc 40 }
    ∷ []

read-encode_all_example :
    (read_adjustments 2 (encode_all adjustments) ≡ adjustments)
    × (length (encode_all adjustments) ≡ adjustment_size * 2)
read-encode_all_example =
    read-encode_all adjustments
      ((omega arith, (omega arith, omega arith)), ((omega arith, (omega arith, omega arith)), tt))

-- A system on which every command and every process succeeds at once.
abbrev pub quiet_host : Host
quiet_host = record {
  St = Unit {0};
  read_modules = λ st. inl [];
  command = λ name args st. (exited true [], st);
  exists = λ path st. false;
  print = λ n. [];
}

abbrev pub quiet_processes : Processes
quiet_processes = record {
  St = Unit {0};
  spawn = λ bin args st. (child 1, st);
  sigterm = λ pid st. st;
  try_wait = λ pid st. (exited, st);
  sleep_100ms = λ st. st;
  kill = λ pid st. (none, st);
  wait = λ pid st. (none, st);
}

-- Radios whose driver has a clock of its own.
abbrev pub own_clocks : List (Option Bytes) → Sysfs
own_clocks phys = record {
  root = entries phys;
  device_dir = λ phy. entries (some (codes "ptp0") ∷ []);
  phy_dir = λ phy. not_found;
  driver_link = λ phy. some (some (codes "iwlwifi"));
}

abbrev pub world : List (Option Bytes) → World
world phys = record { host = quiet_host; procs = quiet_processes; sysfs = λ hs. own_clocks phys }

abbrev pub own_card : Bytes → WifiCard
own_card phy = record {
  phy = phy;
  driver = codes "iwlwifi";
  ptp_clock = some (codes "/dev/ptp0");
  ptp_source = native;
  can_set_tsf = true;
}

abbrev pub pair : List (Option Bytes)
pair = some (codes "phy0") ∷ some (codes "phy1") ∷ []

abbrev pub pair_cards : List WifiCard
pair_cards = own_card (codes "phy0") ∷ own_card (codes "phy1") ∷ []

pub pair_found : discover_cards (own_clocks pair) ≡ some pair_cards
unfolding discover_cards collect card_of read_driver find_ptp_clock first_ptp sort insert card_le
    key_le natural_sort_key prefix_of digits_of text_le starts_with contains text_eq parse_u64
    parse_digits scan_digits
pair_found = refl

pub pair_unneeded : needs_module pair_cards ≡ false
unfolding needs_module
pair_unneeded = refl

pub pair_clocks : ltb (length (with_clock pair_cards)) 2 ≡ false
unfolding with_clock
pair_clocks = refl

pub pair_primary : select_primary (with_clock pair_cards) auto ≡ Config.ok (own_card (codes "phy0"))
unfolding with_clock select_primary find text_eq
pair_primary = refl

in_kernel_test : start (world pair) auto [] 0 kernel 100 tt tt ≡ (ok in_kernel, tt, tt)
in_kernel_test =
    start-in_kernel (world pair) auto [] 0 100 tt tt pair_cards (own_card (codes "phy0")) pair_found
      pair_unneeded pair_clocks pair_primary

abbrev lone : List (Option Bytes)
lone = some (codes "phy0") ∷ []

abbrev lone_cards : List WifiCard
lone_cards = own_card (codes "phy0") ∷ []

lone_found : discover_cards (own_clocks lone) ≡ some lone_cards
unfolding discover_cards collect card_of read_driver find_ptp_clock first_ptp sort insert card_le
    key_le natural_sort_key prefix_of digits_of text_le starts_with contains text_eq parse_u64
    parse_digits scan_digits
lone_found = refl

lone_unneeded : needs_module lone_cards ≡ false
unfolding needs_module
lone_unneeded = refl

lone_clock : ltb (length (with_clock lone_cards)) 2 ≡ true
unfolding with_clock
lone_clock = refl

start_test : start (world lone) auto [] 0 ptp 100 tt tt ≡ (err (config only_one_clock), tt, tt)
start_test =
    start-only_one_clock (world lone) auto [] 0 100 ptp tt tt lone_cards lone_found lone_unneeded
      lone_clock

abbrev client : SyncProcess
client = record {
  pid = 1;
  name = codes "phc2sys[" ++ codes "/dev/ptp1" ++ codes "→" ++ codes "/dev/ptp0" ++ codes "]";
}

client_started : (launch (world pair) [] ptp intel two_cards tt).0 ≡ ok (phc2sys (client ∷ []))
unfolding launch start_all start_phc2sys spawn_process text_eq
client_started = refl

launch-ptp_test :
    (processes : List SyncProcess) × (phc2sys (client ∷ []) ≡ phc2sys processes)
    × (length processes ≡ length (others intel.phy two_cards))
launch-ptp_test =
    launch-ptp (world pair) [] intel two_cards tt (phc2sys (client ∷ [])) client_started
