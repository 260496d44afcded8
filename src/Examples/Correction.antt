-- ===== src/Examples/Correction.antt =====
-- The correction of a follower that reads 1000 beside a master at 9000.
use tsf_sync.Prelude.{ℕ, ◌+◌, ◌≤◌, ◌≡◌, ◌⊎◌, ap, refl, true, false, arith}
use tsf_sync.Tool.Control.Converge.{plain, dist}
use tsf_sync.Tool.Debugfs.{ok, TsfFile, read_tsf, write_tsf}
use tsf_sync.Tool.Debugfs.Register.{read_tsf-tsf}
use tsf_sync.Tool.Threading.{correct_follower}
use tsf_sync.Tool.Threading.Correction.{correct_follower-nearer}
use tsf_sync.Examples.Hosts.{int_float, debugfs, registers, two_registers}

abbrev file : TsfFile
file = record { fd = 3; pread_ok = true }

abbrev reading : ℕ
reading = 1000

reads_1000 : (read_tsf debugfs false file two_registers).0 ≡ ok 1000
unfolding two_registers
reads_1000 = ap (λ r. r.0) (read_tsf-tsf debugfs registers file refl false two_registers)

correct_follower-nearer_example :
    (v a : ℕ) × ((correct_follower debugfs int_float false file
        (plain 10_000 200)
        9000
        two_registers).1
      ≡ (write_tsf debugfs file v (read_tsf debugfs false file two_registers).1).1)
    × (dist 9000 v + a ≡ 8000)
    × (dist 1000 v ≡ a)
    × (a ≤ 200)
    × ((reading ≡ 9000) ⊎ (1 ≤ a))
correct_follower-nearer_example =
    correct_follower-nearer debugfs int_float false file 10_000 200 9000 1000 two_registers
      (omega arith) (omega arith) (omega arith) reads_1000 (omega arith) (omega arith) (omega arith)
