-- ===== src/Tool/Hex/RoundTrip.antt =====
-- The line that mac80211's debugfs prints for a TSF, `0x%016llx\n`, against the parser of
-- src/bin/tsf_sync_debugfs/asm/hex.rs.
use tsf_sync.Prelude.{
  ℕ, zero, suc, ◌+◌, ◌-◌, ◌/◌, ◌%◌, ◌^◌, ◌<◌, Bool, some, [], ◌∷◌, ◌++◌, ◌≡◌, refl, ◌∙◌, ap, arith,
}
use native.Mathlib.Nat.{pow-suc}
use tsf_sync.Prelude.Tests.{ltb, if◌then◌else◌}
use tsf_sync.Prelude.Lists.{length, All, drop, length-append, All-append}
use tsf_sync.Prelude.Text.{Bytes}
use tsf_sync.Tool.Hex.Digits.{IsHex, hex_digit, hex_value, hex_value-append}
use tsf_sync.Tool.Hex.Scalar.{parse_hex_scalar_lem, lower, Stops}
use tsf_sync.Tool.Hex.Auto.{parse_hex_auto, parse_hex_auto-scalar}

-- A digit of `%x`.
abbrev hex_char : ℕ → ℕ
hex_char d = if ltb d 10 then b'0' + d else b'a' + d - 10

-- The last `k` hexadecimal digits of a number, the first digit leading.
pub hex_text : ℕ → ℕ → Bytes
hex_text zero val = []
hex_text (suc k) val = hex_text k (val / 16) ++ hex_char (val % 16) ∷ []

unfoldable pub tsf_line : ℕ → Bytes
tsf_line val = b'0' ∷ b'x' ∷ (hex_text 16 val ++ b'\n' ∷ [])

hex_char-IsHex : (d : ℕ) → d < 16 → IsHex (hex_char d) × (hex_digit (hex_char d) ≡ d)
hex_char-IsHex d h = ground arith

hex_text-IsHex : (k val : ℕ) → All IsHex (hex_text k val)
unfolding hex_text
hex_text-IsHex zero val = tt
hex_text-IsHex (suc k) val =
    All-append IsHex (hex_text k (val / 16)) (hex_char (val % 16) ∷ [])
      (hex_text-IsHex k (val / 16)) ((hex_char-IsHex (val % 16) (omega arith)).0, tt)

length-hex_text : (k val : ℕ) → length (hex_text k val) ≡ k
unfolding hex_text
length-hex_text zero val = refl
length-hex_text (suc k) val = omega (
  arith,
  length-append (hex_text k (val / 16)) (hex_char (val % 16) ∷ []),
  length-hex_text k (val / 16),
)

hex_value-hex_text : (k val : ℕ) → val < 16 ^ k → hex_value 0 (hex_text k val) ≡ val
unfolding hex_text
hex_value-hex_text zero val h = omega arith
hex_value-hex_text (suc k) val h =
    hex_value-append 0 (hex_text k (val / 16)) (hex_char (val % 16) ∷ [])
    ∙ omega (
      arith,
      (hex_char-IsHex (val % 16) (omega arith)).1,
      hex_value-hex_text k (val / 16) (omega (arith, pow-suc 16 k)),
    )

drop-append : (s t : Bytes) (n : ℕ) → length s ≡ n → drop n (s ++ t) ≡ t
drop-append [] t zero h = refl
drop-append [] t (suc n) h = absurd (omega arith)
drop-append (c ∷ s) t zero h = absurd (omega arith)
drop-append (c ∷ s) t (suc n) h = drop-append s t n (omega arith)

pub length-tsf_line : (val : ℕ) → length (tsf_line val) ≡ 19
unfolding tsf_line
length-tsf_line val =
    omega (arith, length-append (hex_text 16 val) (b'\n' ∷ []), length-hex_text 16 val)

-- Every 64-bit TSF is read back from the line that the kernel prints for it, on a CPU with or
-- without SSSE3.
pub parse_hex_auto-tsf_line :
    (has_ssse3 : Bool) (val : ℕ) → val < 2 ^ 64 → parse_hex_auto has_ssse3 (tsf_line val) ≡ some val
parse_hex_auto-tsf_line has_ssse3 val h =
    parse_hex_auto-scalar has_ssse3 (tsf_line val) (unfold tsf_line in line_stops)
    ∙ unfold tsf_line in
      parse_hex_scalar_lem [] (hex_text 16 val) (b'\n' ∷ []) tt lower (hex_text-IsHex 16 val)
        (omega (arith, length-hex_text 16 val)) refl
      ∙ ap some (omega (arith, hex_value-hex_text 16 val (omega arith)))
  where
    line_stops : Stops (drop 16 (hex_text 16 val ++ b'\n' ∷ []))
    line_stops = rw (drop-append (hex_text 16 val) (b'\n' ∷ []) 16 (length-hex_text 16 val)) refl
