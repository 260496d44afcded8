-- ===== src/Tool/Syscall.antt =====
-- src/bin/tsf_sync_debugfs/asm/syscall.rs: the system calls by the `syscall` instruction, with the
-- registers of the x86_64 ABI. The instruction is a parameter; the memory that a call is handed goes
-- in and comes out by its content.
pub mod Dispatch
use tsf_sync.Prelude.{ℕ, ◌-◌, ◌%◌, ◌^◌, ◌<◌, ◌≤◌, ◌≡◌, refl, Bool, true, false, arith}
use tsf_sync.Prelude.Tests.{ltb, if◌then◌else◌}
use tsf_sync.Prelude.Text.{Bytes}
use tsf_sync.Prelude.Int.{ℤ, pos, negsuc, sub_ℕ, signed64, pattern64}

pub record Regs : Type 0 where
  pub rax : ℕ
  pub rdi : ℕ
  pub rsi : ℕ
  pub rdx : ℕ
  pub r10 : ℕ

-- The kernel behind the instruction: what it leaves in `rax`, and in the memory of the call.
pub record Instruction : Type 1 where
  pub St : Type 0
  pub syscall : Regs → Bytes → St → ℕ × Bytes × St

-- `w as i32` of the low half of a word.
unfoldable pub signed32 : ℕ → ℤ
signed32 w =
    if ltb (w % 2 ^ 32) (2 ^ 31) then pos (w % 2 ^ 32) else negsuc (2 ^ 32 - w % 2 ^ 32 - 1)

module _ (cpu : Instruction) where
  open cpu use {St, syscall}

  -- `raw_pread64`, of a buffer at an address.
  unfoldable pub raw_pread64 : ℤ → ℕ → Bytes → ℕ → ℤ → St → ℤ × Bytes × St
  raw_pread64 fd buf content count offset st =
      let (rax, content', st') =
        syscall
          (record { rax = 17; rdi = pattern64 fd; rsi = buf; rdx = count; r10 = pattern64 offset })
          content st in
      (signed64 rax, content', st')

  unfoldable pub raw_pwrite64 : ℤ → ℕ → Bytes → ℕ → ℤ → St → ℤ × St
  raw_pwrite64 fd buf content count offset st =
      let (rax, _, st') =
        syscall
          (record { rax = 18; rdi = pattern64 fd; rsi = buf; rdx = count; r10 = pattern64 offset })
          content st in
      (signed64 rax, st')

  -- `raw_clock_nanosleep`, of the timespec at an address: `ret as i32`.
  unfoldable pub raw_clock_nanosleep : ℤ → ℤ → ℕ → Bytes → St → ℤ × St
  raw_clock_nanosleep clockid flags rqtp content st =
      let (rax, _, st') =
        syscall
          (record {
            rax = 230;
            rdi = pattern64 clockid;
            rsi = pattern64 flags;
            rdx = rqtp;
            r10 = 0;
          })
          content st in
      (signed32 rax, st')

  -- Where the kernel leaves an error number in `rax` as its ABI has it, 2 ^ 64 less the number, the
  -- function returns the number negated: never the number itself, nor 0.
  pub raw_clock_nanosleep-errno :
      (clockid flags : ℤ) (rqtp : ℕ) (content : Bytes) (st : St) (errno : ℕ)
      → 1 ≤ errno
      → errno < 4096
      → (syscall
          (record {
            rax = 230;
            rdi = pattern64 clockid;
            rsi = pattern64 flags;
            rdx = rqtp;
            r10 = 0;
          })
          content
          st).0
        ≡ 2 ^ 64 - errno
      → (raw_clock_nanosleep clockid flags rqtp content st).0 ≡ sub_ℕ 0 errno
  unfolding raw_clock_nanosleep signed32
  raw_clock_nanosleep-errno clockid flags rqtp content st errno low high h = rw h (ground arith)
