-- ===== src/Examples/Sleeps.antt =====
-- The sleep to a deadline on a kernel that interrupts the first two sleeps. The state is the number of
-- the sleeps so far.
use tsf_sync.Prelude.{ℕ, suc, ◌-◌, ◌^◌, ◌≡◌, refl, true, false, some, [], arith}
use tsf_sync.Prelude.Tests.{ltb, if◌then◌else◌}
use tsf_sync.Prelude.Int.{pos}
use tsf_sync.Tool.Syscall.{Instruction}
use tsf_sync.Tool.Rt.Sleep.{Nanosleep, Documented, sleep_until, sleep_until-ends}

abbrev twice : Instruction
twice = record {
  St = ℕ;
  syscall = λ regs content st. (if ltb st 2 then 2 ^ 64 - 4 else 0, content, suc st);
}

abbrev libc_twice : Nanosleep twice
libc_twice = λ clock flags rqtp content st. (if ltb st 2 then pos 4 else pos 0, suc st)

documented : Documented twice libc_twice 8192 []
documented errno st low h = ground arith

sleep_until-ends_example :
    (sleep_until twice libc_twice 8192 [] 3 false 0 ≡ some 3)
    × (sleep_until twice libc_twice 8192 [] 3 true 0 ≡ some 1)
sleep_until-ends_example =
    sleep_until-ends twice libc_twice 8192 [] 2 3 0 0 (omega arith) documented (omega arith)
      (omega arith) (refl, (refl, refl))
