-- ===== src/Tool/Decimal.antt =====
-- src/bin/tsf_sync_debugfs/debugfs.rs, `format_u64_decimal`: the decimal print of a TSF value in a
-- buffer of 21 bytes. An index out of the buffer would panic, which is `none` here.
pub mod RoundTrip
use tsf_sync.Prelude.{
  ℕ, zero, suc, ◌+◌, ◌/◌, ◌%◌, ◌^◌, ◌-◌, Option, none, some, List, [], ◌∷◌, ◌++◌, ◌≡◌, refl,
}
use tsf_sync.Prelude.Tests.{◌==◌, if◌then◌else◌}
use tsf_sync.Prelude.Lists.{length}
use tsf_sync.Prelude.Text.{Bytes, codes}
use mathlib.Core.List.{reverse}

-- The `while` loop: `out` is `buf[..pos]` and `room` is the number of bytes behind it.
pub write_digits : ℕ → ℕ → Bytes → Option Bytes
write_digits zero val out = if val == 0 then some out else none
write_digits (suc room) val out =
    let more = write_digits room (val / 10) (out ++ (b'0' + val % 10) ∷ []) in
    if val == 0 then some out else more

-- `buf[pos] = b'\n'`, and `buf[..pos + 1]`.
close_line : ℕ → Bytes → Option Bytes
close_line zero out = none
close_line (suc room) out = some (out ++ b'\n' ∷ [])

abbrev pub buffer_size : ℕ
buffer_size = 21

unfoldable pub format_u64_decimal : ℕ → Option Bytes
unfolding close_line
format_u64_decimal val =
    if val == 0 then some (b'0' ∷ b'\n' ∷ []) else elim (write_digits buffer_size val []) [
      | none ↦ none
      | some out ↦ close_line (buffer_size - length out) (reverse out)
    ]

format_max_test : format_u64_decimal (2 ^ 64 - 1) ≡ some (codes "18446744073709551615\n")
unfolding format_u64_decimal write_digits
format_max_test = refl
