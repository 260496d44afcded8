-- ===== src/Tool/Rt.antt =====
-- src/bin/tsf_sync_debugfs/rt.rs: the set-up of a real-time thread, the deadline of a cycle and the
-- sleep up to it.
pub mod Deadline
pub mod Sleep
use tsf_sync.Prelude.{
  ℕ, zero, suc, ◌+◌, ◌-◌, ◌*◌, ◌/◌, ◌%◌, ◌^◌, ◌<◌, ◌≤◌, Bool, true, false, Option, none, some, List,
  [], ◌∷◌, ◌++◌, ◌≡◌, refl, ◌∙◌, arith,
}
use tsf_sync.Prelude.Tests.{ltb, ◌==◌, if◌then◌else◌}
use tsf_sync.Prelude.Int.{ℤ, pos, negsuc, ltb_ℤ, ◌+ℤ◌, ◌-ℤ◌, wrap64, abs, pos_part}

-- `libc::timespec`, two i64.
pub record Timespec : Type 0 where
  pub tv_sec : ℤ
  pub tv_nsec : ℤ

abbrev pub second : ℕ
second = 1_000_000_000

-- One round of the `while` loop.
unfoldable pub carry : Timespec → Timespec
carry ts = record {
  tv_sec = wrap64 (ts.tv_sec +ℤ pos 1);
  tv_nsec = wrap64 (ts.tv_nsec -ℤ pos second);
}

-- The `while` loop; `none` means that the fuel ran out.
unfoldable pub carry_all : ℕ → Timespec → Option Timespec
carry_all zero ts = none
carry_all (suc fuel) ts =
    let more = carry_all fuel (carry ts) in if ltb_ℤ ts.tv_nsec (pos second) then some ts else more

-- Each round takes a second off, so a round more than the seconds in the sum is enough.
unfoldable pub advance_deadline : Timespec → ℤ → Option Timespec
advance_deadline ts period_ns =
    let nsec = wrap64 (ts.tv_nsec +ℤ period_ns) in
    carry_all (suc (pos_part nsec / second)) (record ts { tv_nsec = nsec })

-- The calls of the set-up, and what the system answers: `none`, or an error number.
pub data RtCall : Type 0 where
  mlockall : RtCall
  sched_setscheduler : ℕ → RtCall
  sched_setaffinity : ℕ → RtCall

module _ (os : RtCall → Option ℕ) where
  -- A call, and what follows it where it succeeds (`?`): the calls made, and the error.
  abbrev call : RtCall → List RtCall × Option ℕ → List RtCall × Option ℕ
  call c (calls, result) = elim (os c) [
    | none ↦ (c ∷ calls, result)
    | some errno ↦ (c ∷ [], some errno)
  ]

  unfoldable pub setup_rt : ℕ → Option ℕ → List RtCall × Option ℕ
  setup_rt priority none = call mlockall (call (sched_setscheduler priority) ([], none))
  setup_rt priority (some cpu_id) =
      call mlockall
        (call (sched_setscheduler priority) (call (sched_setaffinity cpu_id) ([], none)))

advance_test :
    advance_deadline (record { tv_sec = pos 0; tv_nsec = pos 999_000_000 }) (pos 10_000_000)
    ≡ some (record { tv_sec = pos 1; tv_nsec = pos 9_000_000 })
unfolding advance_deadline carry_all carry wrap64 ◌+ℤ◌ ◌-ℤ◌
advance_test = refl
