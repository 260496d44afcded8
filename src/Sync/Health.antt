-- ===== src/Sync/Health.antt =====
-- src/health.rs: the status of the ports as pmc prints it, the counters of the kernel module and the
-- class of an offset.
pub mod Ports
pub mod States
use tsf_sync.Prelude.{Option, none, some, List, [], ◌∷◌}
use tsf_sync.Prelude.Tests.{if◌then◌else◌}
use tsf_sync.Prelude.Text.{Bytes, codes}
use tsf_sync.Prelude.Strings.{
  text_eq, contains, lines, trim, split_whitespace, starts_with, parse_i64,
}
use tsf_sync.Prelude.Int.{ℤ, pos, ltb_ℤ, ◌-ℤ◌, wrap64}

pub data HealthState : Type 0 where
  converging : HealthState
  healthy : HealthState
  degraded : HealthState
  failed : HealthState
  removed : HealthState

-- `Display`
unfoldable pub health_text : HealthState → Bytes
health_text converging = codes "CONVERGING"
health_text healthy = codes "HEALTHY"
health_text degraded = codes "DEGRADED"
health_text failed = codes "FAILED"
health_text removed = codes "REMOVED"

pub record ClockStatus : Type 0 where
  pub port : Bytes
  pub port_state : Bytes
  pub offset_ns : Option ℤ
  pub path_delay_ns : Option ℤ
  pub health : HealthState

-- The `match` on the state of a port.
unfoldable pub health_of : Bytes → HealthState
health_of state =
    if text_eq state (codes "MASTER")
    then healthy
    else if text_eq state (codes "SLAVE")
    then healthy
    else if contains (codes "LISTENING" ∷ codes "UNCALIBRATED" ∷ codes "PRE_MASTER" ∷ []) state
    then converging
    else if contains (codes "FAULTY" ∷ codes "DISABLED" ∷ []) state
    then failed
    else converging

-- `split_whitespace().last()`
abbrev pub last : List Bytes → Option Bytes
last [] = none
last (w ∷ []) = some w
last (w ∷ v ∷ ws) = last (v ∷ ws)

abbrev pub last_word : Bytes → Option Bytes
last_word line = last (split_whitespace line)

-- The port and the state seen and not yet reported.
pub record Seen : Type 0 where
  pub port : Option Bytes
  pub state : Option Bytes

abbrev pub nothing : Seen
nothing = record { port = none; state = none }

-- What a line says.
unfoldable pub note : Bytes → Seen → Seen
note line seen =
    let l = trim line in
    if starts_with l (codes "portIdentity")
    then record seen { port = last_word l }
    else if starts_with l (codes "portState")
    then record seen { state = last_word l }
    else seen

abbrev pub status_of : Bytes → Bytes → ClockStatus
status_of port state = record {
  port = port;
  port_state = state;
  offset_ns = none;
  path_delay_ns = none;
  health = health_of state;
}

-- The test for a pair: the status to report, and what stays seen.
unfoldable pub emit : Seen → Option ClockStatus × Seen
emit seen = elim (seen.port) [
  | none ↦ (none, seen)
  | some port ↦ elim (seen.state) [
    | none ↦ (none, seen)
    | some state ↦ (some (status_of port state), nothing)
  ]
]

unfoldable pub scan_lines : List Bytes → Seen → List ClockStatus
scan_lines [] seen = []
scan_lines (l ∷ ls) seen =
    let (status, seen') = emit (note l seen) in
    let rest = scan_lines ls seen' in elim status [ none ↦ rest | some s ↦ s ∷ rest ]

-- `parse_port_data_set` has no error.
unfoldable pub parse_port_data_set : Bytes → List ClockStatus
parse_port_data_set output = scan_lines (lines output) nothing

-- `i64::abs`, which wraps around in a release build.
abbrev abs64 : ℤ → ℤ
abs64 a = if ltb_ℤ a (pos 0) then wrap64 (pos 0 -ℤ a) else a

unfoldable pub classify_offset : ℤ → HealthState
unfolding wrap64 ◌-ℤ◌
classify_offset offset_ns = if ltb_ℤ (abs64 offset_ns) (pos 1_000_000) then healthy else converging

pub record KernelSyncStatus : Type 0 where
  pub sync_count : ℤ
  pub sync_error_count : ℤ
  pub adjtime_skip_count : ℤ
  pub adjtime_apply_count : ℤ

-- A parameter of the module from sysfs: the text of its file, if it can be read, as a number.
-- `read_sysfs_counter` of src/daemon.rs is the same.
unfoldable pub read_param : (Bytes → Option Bytes) → Bytes → Option ℤ
read_param sysfs name = elim (sysfs name) [ none ↦ none | some text ↦ parse_i64 (trim text) ]

infixl 5 ◌>>=◌
abbrev ◌>>=◌ {ℓ κ} : {A : Type ℓ} {B : Type κ} → Option A → (A → Option B) → Option B
none >>= f = none
some a >>= f = f a

unfoldable pub query_kernel_sync_health : (Bytes → Option Bytes) → Option KernelSyncStatus
query_kernel_sync_health sysfs = do
  sync_count ← read_param sysfs (codes "sync_count")
  sync_error_count ← read_param sysfs (codes "sync_error_count")
  skip ← read_param sysfs (codes "adjtime_skip_count")
  apply ← read_param sysfs (codes "adjtime_apply_count")
  some (record {
    sync_count = sync_count;
    sync_error_count = sync_error_count;
    adjtime_skip_count = skip;
    adjtime_apply_count = apply;
  })
