-- ===== src/Examples/Syscalls.antt =====
-- The system calls on a kernel with one open file, the descriptor 3, that interrupts every sleep.
use tsf_sync.Prelude.{ℕ, ◌-◌, ◌^◌, ◌≡◌, inr, refl, true, false, [], arith}
use tsf_sync.Prelude.Tests.{◌==◌, if◌then◌else◌}
use tsf_sync.Prelude.Text.{codes}
use tsf_sync.Prelude.Int.{pos, negsuc, pattern64}
use tsf_sync.Tool.Syscall.{Regs, Instruction, raw_clock_nanosleep, raw_clock_nanosleep-errno}
use tsf_sync.Tool.Syscall.Dispatch.{Libc, do_pread, do_pwrite, do_pread-libc}

-- The state is `errno`.
unfoldable answer : Regs → ℕ
answer regs = if regs.rax == 230 then 2 ^ 64 - 4 else if regs.rdi == 3 then 5 else 2 ^ 64 - 9

abbrev one_file : Instruction
one_file = record {
  St = ℕ;
  syscall = λ regs content st. (answer regs, if regs.rdi == 3 then codes "hello" else content, st);
}

-- On a bad descriptor.
abbrev bad_libc : Libc one_file
bad_libc = record {
  pread = λ fd buf content count offset st. (negsuc 0, content, 9);
  pwrite = λ fd buf content count offset st. (negsuc 0, 9);
  errno = λ st. st;
}

do_pread-libc_example :
    ((do_pread one_file bad_libc false (negsuc 0) 4096 (codes "12345") (pos 0) 0).0
      ≡ (do_pread one_file bad_libc true (negsuc 0) 4096 (codes "12345") (pos 0) 0).0)
    × ((do_pwrite one_file bad_libc false (negsuc 0) 4096 (codes "12345") (pos 0) 0).0
        ≡ (do_pwrite one_file bad_libc true (negsuc 0) 4096 (codes "12345") (pos 0) 0).0)
unfolding answer pattern64
do_pread-libc_example =
    do_pread-libc one_file bad_libc (negsuc 0) 4096 (codes "12345") (pos 0) 0
      (inr (omega arith, omega arith, refl, omega arith))
      (inr (omega arith, omega arith, refl, omega arith))

raw_clock_nanosleep-errno_test :
    (raw_clock_nanosleep one_file (pos 1) (pos 1) 8192 [] 0).0 ≡ negsuc 3
unfolding answer
raw_clock_nanosleep-errno_test =
    raw_clock_nanosleep-errno one_file (pos 1) (pos 1) 8192 [] 0 4 (omega arith) (omega arith) refl
