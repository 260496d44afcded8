-- ===== src/Sync/Interval/Units.antt =====
-- src/daemon.rs, `parse_interval`: the intervals of the command line.
use mathlib.Core.List.{append-nil}
use tsf_sync.Prelude.{
  ℕ, ◌*◌, ◌%◌, ◌^◌, ◌≡◌, ◌≢◌, ◌<◌, refl, ◌∙◌, Option, none, some, [], ◌∷◌, ◌++◌, arith,
}
use tsf_sync.Prelude.Tests.{ltb, if◌then◌else◌}
use tsf_sync.Prelude.Lists.{All, All-append, All-map}
use tsf_sync.Prelude.Text.{Bytes, codes}
use tsf_sync.Prelude.Strings.{trim}
use tsf_sync.Prelude.Trim.{IsSolid, IsBlank, trim_around}
use tsf_sync.Prelude.Suffix.{IsDigit, value, strip_suffix-append, strip_suffix-All, parse_u64-value}
use tsf_sync.Sync.Interval.{parse_interval}

pub data Scale : Type 0 where
  millis : Scale
  secs : Scale
  mins : Scale
  bare : Scale

abbrev pub suffix : Scale → Bytes
suffix millis = codes "ms"
suffix secs = codes "s"
suffix mins = codes "m"
suffix bare = []

-- The milliseconds of a number that stands before the suffix. The minutes wrap around.
abbrev pub scaled : Scale → ℕ → ℕ
scaled millis n = n
scaled secs n = n * 1000
scaled mins n = n * 60 % 2 ^ 64 * 1000
scaled bare n = n * 1000

abbrev pub checked : Scale → ℕ → Option ℕ
checked u n = if ltb n (2 ^ 64) then some (scaled u n) else none

IsDigit-IsSolid : (c : ℕ) → IsDigit c → IsSolid c
IsDigit-IsSolid c (lo, hi) = ground arith

suffix-IsSolid : (u : Scale) → All IsSolid (suffix u)
suffix-IsSolid millis = (refl, (refl, tt))
suffix-IsSolid secs = (refl, tt)
suffix-IsSolid mins = (refl, tt)
suffix-IsSolid bare = tt

digits-lack : (k c : ℕ) (w : Bytes) → b'9' < k → All IsDigit (c ∷ w) → All (λ d. d ≢ k) (c ∷ w)
digits-lack k c w high =
    All-map IsDigit (λ d. d ≢ k) (c ∷ w) (λ d (lo, hi) e. omega (arith, lo, hi, e, high))

-- The chain of the suffixes on the text without the blanks.
with_suffix :
    (u : Scale) (text w : Bytes) (c : ℕ)
    → All IsDigit (c ∷ w)
    → trim text ≡ c ∷ w ++ suffix u
    → parse_interval text ≡ checked u (value 0 (c ∷ w))
unfolding parse_interval
with_suffix millis text w c h t =
    ground (arith, t, strip_suffix-append (c ∷ w) b'm' (codes "s"), parse_u64-value c w h)
with_suffix secs text w c h t = ground (
  arith,
  t,
  strip_suffix-All (c ∷ w ++ codes "s") [] b'm' (codes "s") (
      All-append (λ d. d ≢ b'm') (c ∷ w) (codes "s") (digits-lack b'm' c w (omega arith) h)
        (λ e. omega (arith, e), tt)),
  strip_suffix-append (c ∷ w) b's' [],
  parse_u64-value c w h,
)
with_suffix mins text w c h t =
    let no_s : All (λ d. d ≢ b's') (c ∷ w ++ codes "m") =
      All-append (λ d. d ≢ b's') (c ∷ w) (codes "m") (digits-lack b's' c w (omega arith) h)
        (λ e. omega (arith, e), tt) in
    ground (
      arith,
      t,
      strip_suffix-All (c ∷ w ++ codes "m") (codes "m") b's' [] no_s,
      strip_suffix-All (c ∷ w ++ codes "m") [] b's' [] no_s,
      strip_suffix-append (c ∷ w) b'm' [],
      parse_u64-value c w h,
    )
with_suffix bare text w c h t =
    let no_m = digits-lack b'm' c w (omega arith) h in
    ground (
      arith,
      t ∙ append-nil (c ∷ w),
      strip_suffix-All (c ∷ w) [] b'm' (codes "s") no_m,
      strip_suffix-All (c ∷ w) [] b's' [] (digits-lack b's' c w (omega arith) h),
      strip_suffix-All (c ∷ w) [] b'm' [] no_m,
      parse_u64-value c w h,
    )

-- Digits with a unit or none, and blanks around them: the interval is their value in the unit, or
-- an error where the value is not below 2 ^ 64. Sixty times a number of minutes wraps around at
-- 2 ^ 64.
pub parse_interval-units :
    (u : Scale) (before w after : Bytes) (c : ℕ)
    → All IsBlank before
    → All IsDigit (c ∷ w)
    → All IsBlank after
    → parse_interval (before ++ ((c ∷ w ++ suffix u) ++ after)) ≡ checked u (value 0 (c ∷ w))
parse_interval-units u before w after c b h a =
    with_suffix u (before ++ ((c ∷ w ++ suffix u) ++ after)) w c h (
      trim_around before (w ++ suffix u) after c b
        (All-append IsSolid (c ∷ w) (suffix u) (All-map IsDigit IsSolid (c ∷ w) IsDigit-IsSolid h)
          (suffix-IsSolid u))
        a)
