-- ===== src/Sync/Interval.antt =====
-- src/daemon.rs, `parse_interval`. A duration is a number of milliseconds.
pub mod Units
use tsf_sync.Prelude.{ℕ, ◌≡◌, ◌*◌, ◌%◌, ◌^◌, refl, Option, none, some}
use tsf_sync.Prelude.Text.{Bytes, codes}
use tsf_sync.Prelude.Strings.{
  trim, trim_start, strip_suffix, text_eq, parse_u64, parse_digits, scan_digits,
}

-- `Duration::from_secs` of a u64; `m * 60` wraps around in a release build.
abbrev pub seconds : ℕ → ℕ
seconds n = n * 1000

abbrev pub with_unit : (ℕ → ℕ) → Option ℕ → Option ℕ
with_unit unit none = none
with_unit unit (some n) = some (unit n)

-- `none` is an error.
unfoldable pub parse_interval : Bytes → Option ℕ
parse_interval text =
    let s = trim text in
    elim (strip_suffix s (codes "ms")) [
      | some rest ↦ with_unit (λ n. n) (parse_u64 rest)
      | none ↦ elim (strip_suffix s (codes "s")) [
        | some rest ↦ with_unit seconds (parse_u64 rest)
        | none ↦ elim (strip_suffix s (codes "m")) [
          | some rest ↦ with_unit (λ n. seconds (n * 60 % 2 ^ 64)) (parse_u64 rest)
          | none ↦ with_unit seconds (parse_u64 s)
        ]
      ]
    ]

minutes_test : parse_interval (codes " 5m ") ≡ some 300_000
unfolding parse_interval trim trim_start strip_suffix text_eq parse_u64 parse_digits scan_digits
minutes_test = refl

millis_test : parse_interval (codes "100ms") ≡ some 100
unfolding parse_interval trim trim_start strip_suffix text_eq parse_u64 parse_digits scan_digits
millis_test = refl

-- 2 ^ 64 / 60 rounded up, in minutes, comes out as 44 seconds.
wrapped_test : parse_interval (codes "307445734561825861m") ≡ some 44_000
unfolding parse_interval trim trim_start strip_suffix text_eq parse_u64 parse_digits scan_digits
wrapped_test = refl
