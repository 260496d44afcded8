-- ===== src/Tool/Syscall/Dispatch.antt =====
-- src/bin/tsf_sync_debugfs/debugfs.rs, `do_pread` and `do_pwrite`: the system call by the instruction on
-- x86_64, by libc elsewhere.
use tsf_sync.Prelude.{ℕ, ◌-◌, ◌^◌, ◌<◌, ◌≡◌, ◌⊎◌, inl, inr, Bool, true, false, arith}
use tsf_sync.Prelude.Tests.{if◌then◌else◌}
use tsf_sync.Prelude.Lists.{length}
use tsf_sync.Prelude.Text.{Bytes}
use tsf_sync.Prelude.Int.{ℤ, pos, negsuc, sub_ℕ, signed64, pattern64, ltb_ℤ}
use tsf_sync.Tool.Syscall.{Regs, Instruction, raw_pread64, raw_pwrite64}

-- libc's functions, over the same kernel; `errno` is of the thread.
pub record Libc (cpu : Instruction) : Type 0 where
  pub pread : ℤ → ℕ → Bytes → ℕ → ℤ → cpu.St → ℤ × Bytes × cpu.St
  pub pwrite : ℤ → ℕ → Bytes → ℕ → ℤ → cpu.St → ℤ × cpu.St
  pub errno : cpu.St → ℕ

module _ (cpu : Instruction) (libc : Libc cpu) where
  open cpu use {St, syscall}

  unfoldable pub do_pread : Bool → ℤ → ℕ → Bytes → ℤ → St → ℤ × Bytes × St
  do_pread true fd buf content offset st = raw_pread64 cpu fd buf content (length content) offset st
  do_pread false fd buf content offset st =
      let (r, content', st') = libc.pread fd buf content (length content) offset st in
      (if ltb_ℤ r (pos 0) then sub_ℕ 0 (libc.errno st') else r, content', st')

  unfoldable pub do_pwrite : Bool → ℤ → ℕ → Bytes → ℤ → St → ℤ × St
  do_pwrite true fd buf content offset st =
      raw_pwrite64 cpu fd buf content (length content) offset st
  do_pwrite false fd buf content offset st =
      let (r, st') = libc.pwrite fd buf content (length content) offset st in
      (if ltb_ℤ r (pos 0) then sub_ℕ 0 (libc.errno st') else r, st')

  -- The registers of `pread64` and `pwrite64`.
  abbrev pub call_of : ℕ → ℤ → ℕ → ℕ → ℤ → Regs
  call_of number fd buf count offset = record {
    rax = number;
    rdi = pattern64 fd;
    rsi = buf;
    rdx = count;
    r10 = pattern64 offset;
  }

  -- What libc makes of the answer: the count, or -1 and the error number in `errno`.
  abbrev pub Reports : ℕ → ℤ → ℕ → Type 0
  Reports rax r errno =
      ((rax < 2 ^ 63) × (r ≡ pos rax))
      ⊎ ((2 ^ 64 - 4096 < rax) × (rax < 2 ^ 64) × (r ≡ negsuc 0) × (errno ≡ 2 ^ 64 - rax))

  Reports-signed64 :
      (rax errno : ℕ) (r : ℤ)
      → Reports rax r errno
      → (if ltb_ℤ r (pos 0) then sub_ℕ 0 errno else r) ≡ signed64 rax
  unfolding signed64
  Reports-signed64 rax errno r (inl (small, e)) = ground arith
  Reports-signed64 rax errno r (inr (low, high, e, e')) = ground arith

  do_pread-raw :
      (fd : ℤ) (buf : ℕ) (content : Bytes) (offset : ℤ) (st : St)
      → let call = syscall (call_of 17 fd buf (length content) offset) content st in
        let answer = libc.pread fd buf content (length content) offset st in
        Reports call.0 answer.0 (libc.errno answer.2)
        → (do_pread false fd buf content offset st).0 ≡ (do_pread true fd buf content offset st).0
  unfolding do_pread raw_pread64
  do_pread-raw fd buf content offset st h =
      let answer = libc.pread fd buf content (length content) offset st in
      Reports-signed64 _ (libc.errno answer.2) answer.0 h

  do_pwrite-raw :
      (fd : ℤ) (buf : ℕ) (content : Bytes) (offset : ℤ) (st : St)
      → let call = syscall (call_of 18 fd buf (length content) offset) content st in
        let answer = libc.pwrite fd buf content (length content) offset st in
        Reports call.0 answer.0 (libc.errno answer.1)
        → (do_pwrite false fd buf content offset st).0 ≡ (do_pwrite true fd buf content offset st).0
  unfolding do_pwrite raw_pwrite64
  do_pwrite-raw fd buf content offset st h =
      let answer = libc.pwrite fd buf content (length content) offset st in
      Reports-signed64 _ (libc.errno answer.1) answer.0 h

  -- Where libc's `pread` and `pwrite` report the answers to their system calls, 17 and 18 with the
  -- arguments in the registers, as documented: the ways of `do_pread` and of `do_pwrite` by the
  -- instruction and by libc give the same number, a count or an error number negated.
  pub do_pread-libc :
      (fd : ℤ) (buf : ℕ) (content : Bytes) (offset : ℤ) (st : St)
      → let size = length content in
        let read = libc.pread fd buf content size offset st in
        let written = libc.pwrite fd buf content size offset st in
        Reports (syscall (call_of 17 fd buf size offset) content st).0 read.0 (libc.errno read.2)
        → Reports
            (syscall (call_of 18 fd buf size offset) content st).0
            written.0
            (libc.errno written.1)
        → ((do_pread false fd buf content offset st).0 ≡ (do_pread true fd buf content offset st).0)
          × ((do_pwrite false fd buf content offset st).0
              ≡ (do_pwrite true fd buf content offset st).0)
  do_pread-libc fd buf content offset st h h' =
      (do_pread-raw fd buf content offset st h, do_pwrite-raw fd buf content offset st h')
