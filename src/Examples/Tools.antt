-- ===== src/Examples/Tools.antt =====
-- The theorems about src/bin/tsf_sync_debugfs at concrete inputs.
use tsf_sync.Prelude.{
  ℕ, ◌+◌, ◌-◌, ◌*◌, ◌%◌, ◌^◌, ◌<◌, ◌≤◌, ◌≡◌, ◌≢◌, ◌↔◌, refl, true, none, some, List, [], ◌∷◌, ◌++◌,
  arith,
}
use tsf_sync.Prelude.Lists.{replicate}
use tsf_sync.Prelude.Text.{Bytes, codes}
use tsf_sync.Prelude.Int.{ℤ, pos, negsuc, sub_ℕ, abs, ◌≤ℤ◌, ◌+ℤ◌, ◌-ℤ◌, ◌*ℤ◌, tdiv}
use tsf_sync.Tool.Control.{apply, clamp_step}
use tsf_sync.Tool.Control.Bounds.{Follows, clamp_step_lem, clamp_step-panic}
use tsf_sync.Tool.Control.Converge.{dist, amount, signed_step, plain, apply-plain}
use tsf_sync.Tool.Decimal.{format_u64_decimal}
use tsf_sync.Tool.Decimal.RoundTrip.{Spells, format_u64_decimal_lem}
use tsf_sync.Tool.Hex.Digits.{hex_value}
use tsf_sync.Tool.Hex.Scalar.{parse_hex_scalar, parse_hex_scalar_lem, lower}
use tsf_sync.Tool.Hex.Simd.{parse_hex_16_ssse3}
use tsf_sync.Tool.Hex.Simd.Value.{parse_hex_16_ssse3_lem}
use tsf_sync.Tool.Hex.Auto.{parse_hex_auto, parse_hex_auto-scalar}
use tsf_sync.Tool.Hex.RoundTrip.{tsf_line, parse_hex_auto-tsf_line}
use tsf_sync.Tool.Debugfs.{ok, read_tsf, write_tsf}
use tsf_sync.Tool.Debugfs.Register.{read_tsf-tsf, write_tsf-store}
use tsf_sync.Tool.Rt.{second, advance_deadline}
use tsf_sync.Tool.Rt.Deadline.{at, advance_deadline_lem}
use tsf_sync.Tool.Stats.{new, update_all, rms}
use tsf_sync.Tool.Stats.Extremes.{update_all-new}
use tsf_sync.Tool.Stats.Constant.{ZeroLaws, rms-replicate}
use tsf_sync.Tool.Threading.Locks.{correct_times, Locking, correct_times-Locking}
use tsf_sync.Examples.Hosts.{
  int_float, Registers, set, debugfs, registers, follower_file, two_registers,
}

abbrev master : ℕ
master = 1000

near : dist master (two_registers 4 % 2 ^ 64) * 10_000 < 2 ^ 63
unfolding two_registers
near = omega arith

low_register : two_registers 4 % 2 ^ 64 < 2 ^ 63
unfolding two_registers
low_register = omega arith

correct_times_test :
    (st' : Registers) × (correct_times debugfs true follower_file 1000
        (plain {fl = int_float} 10_000 200)
        master
        two_registers
      ≡ (some (plain 10_000 200), st'))
    × Locking debugfs registers int_float true follower_file refl 10_000 200 1000 master
        two_registers st'
correct_times_test =
    correct_times-Locking debugfs registers int_float true follower_file refl 10_000 200 1000 master
      two_registers (omega arith) (omega arith) (omega arith) (omega arith) low_register near

read_tsf-tsf_test :
    read_tsf debugfs true follower_file two_registers
    ≡ (ok (two_registers 4 % 2 ^ 64), two_registers)
read_tsf-tsf_test = read_tsf-tsf debugfs registers follower_file refl true two_registers

write_tsf-store_test :
    write_tsf debugfs follower_file 77 two_registers ≡ (ok tt, set 4 77 two_registers)
write_tsf-store_test =
    write_tsf-store debugfs registers follower_file refl 77 two_registers (omega arith)

apply-plain_example :
    apply (plain {fl = int_float} 10_000 200) 1000 0
    ≡ some (plain 10_000 200, signed_step 1000 0 (amount 10_000 200 (dist 1000 0)), sub_ℕ 1000 0)
apply-plain_example =
    apply-plain int_float 10_000 200 (omega arith) (omega arith) 1000 0 (omega arith) (omega arith)
      (omega arith)

clamp_step_example :
    (r : ℤ) × (clamp_step (pos 500) (pos 200) (pos 50_000) ≡ some r)
    × (abs r ≤ 200)
    × (pos 50_000 ≢ pos 0 → r ≢ pos 0)
    × (Follows (pos 50_000) (pos 500) → Follows (pos 50_000) r)
    × (abs (pos 500) ≤ 200 → pos 500 ≢ pos 0 → r ≡ pos 500)
clamp_step_example = clamp_step_lem (pos 500) (pos 50_000) 200 (omega arith) (omega arith)

clamp_step-panic_example :
    (clamp_step (pos 500) (negsuc 4) (pos 1) ≡ none)
    ↔ ((negsuc 4 ≤ℤ negsuc 0) × (negsuc 4 ≢ negsuc (2 ^ 63 - 1)))
clamp_step-panic_example = clamp_step-panic (pos 500) (pos 1) (negsuc 4) (omega arith, omega arith)

abbrev beef_line : Bytes
beef_line = codes "0x00000000deadBEEF\n"

parse_hex_auto-scalar_example : parse_hex_auto true beef_line ≡ parse_hex_scalar beef_line
parse_hex_auto-scalar_example = parse_hex_auto-scalar true beef_line refl

parse_hex_auto-tsf_line_example : parse_hex_auto true (tsf_line 0xdeadbeef) ≡ some 0xdeadbeef
parse_hex_auto-tsf_line_example = parse_hex_auto-tsf_line true 0xdeadbeef (omega arith)

abbrev sixteen : Bytes
sixteen = codes "00000000deadBEEF"

parse_hex_16_ssse3_example : parse_hex_16_ssse3 sixteen ≡ hex_value 0 sixteen
parse_hex_16_ssse3_example = parse_hex_16_ssse3_lem sixteen refl (
  refl,
  (
    refl,
    (
      refl,
      (
        refl,
        (
          refl,
          (
            refl,
            (refl, (refl, (refl, (refl, (refl, (refl, (refl, (refl, (refl, (refl, tt)))))))))),
          ),
        ),
      ),
    ),
  ),
)

parse_hex_scalar_example : parse_hex_scalar (codes " 0x1fG") ≡ some 0x1f
parse_hex_scalar_example =
    parse_hex_scalar_lem (codes " ") (codes "1f") (codes "G") (refl, tt) lower (refl, (refl, tt))
      (omega arith) refl

format_u64_decimal_example :
    (ds : Bytes) × (format_u64_decimal 1_234_567 ≡ some (ds ++ b'\n' ∷ [])) × Spells 1_234_567 ds
format_u64_decimal_example = format_u64_decimal_lem 1_234_567 (omega arith)

advance_deadline_example :
    (s' n' : ℕ) × (advance_deadline (at 5 999_999_999) (pos 2_500_000_000) ≡ some (at s' n'))
    × (n' < second)
    × (s' * second + n' ≡ 5 * second + 999_999_999 + 2_500_000_000)
advance_deadline_example =
    advance_deadline_lem 5 999_999_999 2_500_000_000 (omega arith) (omega arith) (omega arith)

abbrev run_of_two : List (ℤ × ℤ)
run_of_two = (pos 5, pos 1) ∷ (negsuc 8, negsuc 0) ∷ []

update_all-new_example :
    let st = update_all {fl = int_float} new run_of_two in
    (st.n ≡ 2) × (st.max_abs_err ≡ pos 9) × (st.max_abs_step ≡ pos 1)
update_all-new_example =
    update_all-new int_float run_of_two
      ((omega arith, omega arith), ((omega arith, omega arith), tt)) (omega arith)

zero-tdiv : (n : ℕ) → 1 ≤ n → tdiv (pos 0) n ≡ pos 0
unfolding tdiv
zero-tdiv n h = ground arith

zero_laws : ZeroLaws int_float (pos 5)
unfolding ◌+ℤ◌ ◌-ℤ◌ ◌*ℤ◌ tdiv
zero_laws = record {
  sub-zero = refl;
  sub_self = refl;
  div-one = refl;
  zero-add = refl;
  add-zero = refl;
  add-mul-zero = refl;
  add-mul-zero_zero = refl;
  zero-div = zero-tdiv;
  sqrt-zero = refl;
}

rms-replicate_example : rms {fl = int_float} (update_all new (replicate 100 (pos 5, pos 1))) ≡ pos 0
rms-replicate_example = rms-replicate {fl = int_float} (pos 5) (pos 1) zero_laws 99 (omega arith)
