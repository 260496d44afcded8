-- ===== src/Tool/Rt/Sleep.antt =====
-- src/bin/tsf_sync_debugfs/rt.rs, `sleep_until` and `do_clock_nanosleep`, over
-- asm/syscall.rs, `raw_clock_nanosleep`. The kernel behind the `syscall` instruction is the record
-- Instruction of Tool/Syscall; libc's `clock_nanosleep` is a parameter over the same kernel.
use tsf_sync.Prelude.{
  ℕ, zero, suc, ◌+◌, ◌-◌, ◌^◌, ◌≡◌, ◌≢◌, ◌<◌, Bool, true, false, ◌&&◌, ◌||◌, not, Option, none,
  some, refl, arith,
}
use tsf_sync.Prelude.Tests.{◌==◌, if◌then◌else◌}
use tsf_sync.Prelude.Text.{Bytes}
use tsf_sync.Prelude.Int.{ℤ, pos, sub_ℕ, pos_part, neg_part, pattern64}
use tsf_sync.Tool.Syscall.{Regs, Instruction, raw_clock_nanosleep, signed32}

-- `libc::EINTR`
abbrev pub eintr : ℕ
eintr = 4

-- `ret == 0 || ret != libc::EINTR`
abbrev pub leaves : ℤ → Bool
leaves ret = pos_part ret + neg_part ret == 0 || not (neg_part ret == 0 && pos_part ret == eintr)

-- libc's `clock_nanosleep` of a clock, flags and the timespec at an address.
abbrev pub Nanosleep : Instruction → Type 0
Nanosleep cpu = ℤ → ℤ → ℕ → Bytes → cpu.St → ℤ × cpu.St

-- The deadline is the timespec at the address `rqtp`, with its bytes.
module _ (cpu : Instruction) (libc_sleep : Nanosleep cpu) (rqtp : ℕ) (deadline : Bytes) where
  open cpu use {St, syscall}

  -- By the instruction on x86_64, by libc elsewhere; `CLOCK_MONOTONIC` and `TIMER_ABSTIME` are 1.
  unfoldable pub do_clock_nanosleep : Bool → St → ℤ × St
  do_clock_nanosleep true st = raw_clock_nanosleep cpu (pos 1) (pos 1) rqtp deadline st
  do_clock_nanosleep false st = libc_sleep (pos 1) (pos 1) rqtp deadline st

  -- With fuel for the calls made: the state behind the loop, or nothing where the fuel ends first.
  unfoldable pub sleep_until : ℕ → Bool → St → Option St
  sleep_until zero x86_64 st = none
  sleep_until (suc n) x86_64 st =
      let (ret, st') = do_clock_nanosleep x86_64 st in
      let again = sleep_until n x86_64 st' in if leaves ret then some st' else again

  abbrev sleep_call : Regs
  sleep_call = record {
    rax = 230;
    rdi = pattern64 (pos 1);
    rsi = pattern64 (pos 1);
    rdx = rqtp;
    r10 = 0;
  }

  -- The kernel's answer to the sleep, and the system behind it.
  abbrev pub kernel_sleep : St → ℕ × St
  kernel_sleep st = let (rax, _, st') = syscall sleep_call deadline st in (rax, st')

  -- What the kernel leaves in `rax` for an error number, 0 where there is none.
  abbrev pub word_of : ℕ → ℕ
  word_of errno = if errno == 0 then 0 else 2 ^ 64 - errno

  -- Of the sleeps asked for one behind the other, k are interrupted and the next is answered otherwise.
  abbrev pub Interrupted : ℕ → ℕ → St → Type 0
  Interrupted zero errno st = (kernel_sleep st).0 ≡ word_of errno
  Interrupted (suc k) errno st =
      ((kernel_sleep st).0 ≡ word_of eintr) × Interrupted k errno (kernel_sleep st).1

  -- The system behind so many sleeps.
  abbrev pub slept : ℕ → St → St
  slept zero st = st
  slept (suc k) st = slept k (kernel_sleep st).1

  raw-word_of :
      (errno : ℕ) (st : St)
      → errno < 4096
      → (kernel_sleep st).0 ≡ word_of errno
      → (do_clock_nanosleep true st).0 ≡ sub_ℕ 0 errno
  unfolding do_clock_nanosleep raw_clock_nanosleep signed32
  raw-word_of errno st low h = rw h (ground arith)

  leaves-negated : (errno : ℕ) → leaves (sub_ℕ 0 errno) ≡ true
  leaves-negated errno = ground arith

  -- On x86_64 one call is made, whatever the answer.
  sleep_until-raw :
      (n errno : ℕ) (st : St)
      → 0 < n
      → errno < 4096
      → (kernel_sleep st).0 ≡ word_of errno
      → sleep_until n true st ≡ some (slept 1 st)
  unfolding sleep_until do_clock_nanosleep raw_clock_nanosleep
  sleep_until-raw zero errno st enough low h = absurd (omega arith)
  sleep_until-raw (suc n) errno st enough low h =
      rw (raw-word_of errno st low h, leaves-negated errno) refl

  -- What libc's function makes of the kernel's answer: the error number itself.
  abbrev pub Documented : Type 0
  Documented =
      (errno : ℕ) (st : St)
      → errno < 4096
      → (kernel_sleep st).0 ≡ word_of errno
      → libc_sleep (pos 1) (pos 1) rqtp deadline st ≡ (pos errno, (kernel_sleep st).1)

  sleep_until-libc :
      (k n errno : ℕ) (st : St)
      → k < n
      → Documented
      → errno < 4096
      → errno ≢ eintr
      → Interrupted k errno st
      → sleep_until n false st ≡ some (slept (suc k) st)
  unfolding sleep_until do_clock_nanosleep
  sleep_until-libc k zero errno st enough doc low ne h = absurd (omega arith)
  sleep_until-libc zero (suc n) errno st enough doc low ne h =
      let e = doc errno st low h in rw (e, sleep_until) (ground arith)
  sleep_until-libc (suc k) (suc n) errno st enough doc low ne (h, hs) =
      let e = doc eintr st (omega arith) h in
      rw (e, sleep_until) (sleep_until-libc k n errno _ (omega arith) doc low ne hs)

  first_answer :
      (k errno : ℕ) (st : St)
      → errno < 4096
      → Interrupted k errno st
      → (e : ℕ) × (e < 4096) × ((kernel_sleep st).0 ≡ word_of e)
  first_answer zero errno st low h = (errno, low, h)
  first_answer (suc k) errno st low (h, hs) = (eintr, omega arith, h)

  -- Where the sleeps to the deadline are interrupted k times, and the next one is answered otherwise, by
  -- an error number below 4096 or by 0 for the deadline reached, libc's function gives the kernel's
  -- error number, and the fuel is greater than k: with libc the loop ends at the sleep that is not
  -- interrupted, and on x86_64 it ends at the first sleep, interrupted or not.
  pub sleep_until-ends :
      (k n errno : ℕ) (st : St)
      → k < n
      → Documented
      → errno < 4096
      → errno ≢ eintr
      → Interrupted k errno st
      → (sleep_until n false st ≡ some (slept (suc k) st))
        × (sleep_until n true st ≡ some (slept 1 st))
  sleep_until-ends k n errno st enough doc low ne h =
      let (e, low', first) = first_answer k errno st low h in
      (
        sleep_until-libc k n errno st enough doc low ne h,
        sleep_until-raw n e st (omega arith) low' first,
      )
