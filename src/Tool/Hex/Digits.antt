-- ===== src/Tool/Hex/Digits.antt =====
-- src/bin/tsf_sync_debugfs/asm/hex.rs, `parse_hex_scalar`: classes of bytes and the value of a run
-- of hexadecimal digits.
use tsf_sync.Prelude.{
  ℕ, ◌+◌, ◌-◌, ◌*◌, ◌<◌, Bool, true, false, ◌&&◌, ◌||◌, Option, none, some, [], ◌∷◌, ◌++◌, ◌≡◌,
  refl, arith,
}
use tsf_sync.Prelude.Tests.{leb, ◌==◌, if◌then◌else◌}
use tsf_sync.Prelude.Text.{Bytes}

-- `u8::is_ascii_whitespace`
abbrev pub is_ascii_whitespace : ℕ → Bool
is_ascii_whitespace c = c == b' ' || c == b'\t' || c == b'\n' || c == 0x0c || c == b'\r'

abbrev pub in_range : ℕ → ℕ → ℕ → Bool
in_range lo hi c = leb lo c && leb c hi

-- `u8::is_ascii_hexdigit`
abbrev pub is_ascii_hexdigit : ℕ → Bool
is_ascii_hexdigit c = in_range b'0' b'9' c || in_range b'a' b'f' c || in_range b'A' b'F' c

-- The `match` of the loop; `none` is its `break`.
unfoldable pub nibble : ℕ → Option ℕ
nibble c =
    if in_range b'0' b'9' c
    then some (c - b'0')
    else if in_range b'a' b'f' c
    then some (c - b'a' + 10)
    else if in_range b'A' b'F' c
    then some (c - b'A' + 10)
    else none

-- The digit that a byte stands for.
abbrev pub hex_digit : ℕ → ℕ
hex_digit c = if leb c b'9' then c - b'0' else if leb c b'F' then c - b'A' + 10 else c - b'a' + 10

-- The number that hexadecimal digits spell behind `acc`, with no bound.
abbrev pub hex_value : ℕ → Bytes → ℕ
hex_value acc [] = acc
hex_value acc (c ∷ s) = hex_value (acc * 16 + hex_digit c) s

abbrev pub IsHex : ℕ → Type 0
IsHex c = is_ascii_hexdigit c ≡ true

pub hex_digit-lt : (c : ℕ) → IsHex c → hex_digit c < 16
hex_digit-lt c h = ground arith

pub nibble-IsHex : (c : ℕ) → IsHex c → nibble c ≡ some (hex_digit c)
unfolding nibble
nibble-IsHex c h = ground arith

pub nibble-none : (c : ℕ) → is_ascii_hexdigit c ≡ false → nibble c ≡ none
unfolding nibble
nibble-none c h = ground arith

pub hex_value-append :
    (acc : ℕ) (s t : Bytes) → hex_value acc (s ++ t) ≡ hex_value (hex_value acc s) t
hex_value-append acc [] t = refl
hex_value-append acc (c ∷ s) t = hex_value-append (acc * 16 + hex_digit c) s t
