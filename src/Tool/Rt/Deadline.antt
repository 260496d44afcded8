-- ===== src/Tool/Rt/Deadline.antt =====
-- src/bin/tsf_sync_debugfs/rt.rs, `advance_deadline`: the loop ends, the fraction is below a second,
-- and the deadline moves by the period exactly.
use tsf_sync.Prelude.{ℕ, zero, suc, ◌+◌, ◌-◌, ◌*◌, ◌/◌, ◌%◌, ◌^◌, ◌<◌, ◌≤◌, some, ◌≡◌, arith}
use native.Mathlib.Decide.{dec_lt}
use tsf_sync.Prelude.Int.{pos, ◌+ℤ◌, ◌-ℤ◌, wrap64}
use tsf_sync.Tool.Rt.{Timespec, second, carry, carry_all, advance_deadline}

abbrev pub at : ℕ → ℕ → Timespec
at s n = record { tv_sec = pos s; tv_nsec = pos n }

carry-at :
    (s n : ℕ) → s + 1 < 2 ^ 63 → second ≤ n → n < 2 ^ 63 → carry (at s n) ≡ at (s + 1) (n - second)
unfolding carry ◌+ℤ◌ ◌-ℤ◌ wrap64
carry-at s n hs low high = ground arith

carry_all-at :
    (fuel s n : ℕ)
    → n / second < fuel
    → s + n / second < 2 ^ 63
    → n < 2 ^ 63
    → carry_all fuel (at s n) ≡ some (at (s + n / second) (n % second))
unfolding carry_all
carry_all-at zero s n enough hs hn = absurd (omega arith)
carry_all-at (suc fuel) s n enough hs hn = elim (dec_lt n second) [
  | yes below ↦ ground arith
  | no above ↦ ground (
    arith,
    carry-at s n,
    carry_all-at fuel (s + 1) (n - second) (omega arith) (omega arith) (omega arith),
  )
]

nsec_sum : (n p : ℕ) → n + p < 2 ^ 63 → wrap64 (pos n +ℤ pos p) ≡ pos (n + p)
unfolding ◌+ℤ◌ wrap64
nsec_sum n p h = ground arith

-- From a normal time, for a period that is not negative, and as long as the sums fit an i64: the
-- loop ends, the result is normal, and it lies the period later to the nanosecond.
pub advance_deadline_lem :
    (s n period : ℕ)
    → n < second
    → n + period < 2 ^ 63
    → s + (n + period) / second < 2 ^ 63
    → (s' n' : ℕ) × (advance_deadline (at s n) (pos period) ≡ some (at s' n'))
      × (n' < second)
      × (s' * second + n' ≡ s * second + n + period)
unfolding advance_deadline
advance_deadline_lem s n period hn hp hs = (
  s + (n + period) / second,
  (n + period) % second,
  rw (nsec_sum n period hp, advance_deadline)
      (carry_all-at (suc ((n + period) / second)) s (n + period) (omega arith) hs hp),
  omega arith,
  omega arith,
)
