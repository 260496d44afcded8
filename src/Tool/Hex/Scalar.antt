-- ===== src/Tool/Hex/Scalar.antt =====
-- src/bin/tsf_sync_debugfs/asm/hex.rs, `parse_hex_scalar`.
use tsf_sync.Prelude.{
  ℕ, ◌+◌, ◌*◌, ◌%◌, ◌^◌, ◌<◌, ◌≤◌, true, false, ◌&&◌, ◌||◌, Option, none, some, [], ◌∷◌, ◌++◌, ◌≡◌,
  refl, arith, ◌∙◌,
}
use Prim.Native.Nat.{bit_or}
use tsf_sync.Prelude.Tests.{◌==◌, if◌then◌else◌}
use tsf_sync.Prelude.Lists.{All, length}
use tsf_sync.Prelude.Bits.{bit_or-mul_sixteen}
use tsf_sync.Prelude.Text.{Bytes, codes}
use tsf_sync.Tool.Hex.Digits.{
  is_ascii_whitespace, nibble, IsHex, hex_value, hex_digit, nibble-IsHex, nibble-none,
  is_ascii_hexdigit, hex_digit-lt,
}

-- The first loop.
unfoldable pub skip_whitespace : Bytes → Bytes
skip_whitespace [] = []
skip_whitespace (c ∷ s) = if is_ascii_whitespace c then skip_whitespace s else c ∷ s

-- The optional `0x` or `0X`.
unfoldable pub skip_prefix : Bytes → Bytes
skip_prefix (a ∷ b ∷ s) = if a == b'0' && (b == b'x' || b == b'X') then s else a ∷ b ∷ s
skip_prefix s = s

-- `val.checked_shl(4)`: the check is on the distance, which is below 64, so this is never `None`;
-- the bits that are shifted out are lost.
abbrev pub checked_shl4 : ℕ → Option ℕ
checked_shl4 val = some (val * 16 % 2 ^ 64)

-- `| nibble`, where the last four bits of `val` are zero.
abbrev pub or_nibble : ℕ → ℕ → ℕ
or_nibble val d = bit_or val d

-- The second loop, with the value and the count of digits; `none` is the early return of `?`.
unfoldable pub scan : Bytes → ℕ → ℕ → Option (ℕ × ℕ)
scan [] val digits = some (val, digits)
scan (c ∷ s) val digits = elim (nibble c) [
  | none ↦ some (val, digits)
  | some d ↦ elim (checked_shl4 val) [
    | none ↦ none
    | some shifted ↦ scan s (or_nibble shifted d) (digits + 1)
  ]
]

-- The test of the count behind the loop.
unfoldable pub finish : Option (ℕ × ℕ) → Option ℕ
finish none = none
finish (some (val, digits)) = if digits == 0 then none else some val

unfoldable pub parse_hex_scalar : Bytes → Option ℕ
parse_hex_scalar buf = finish (scan (skip_prefix (skip_whitespace buf)) 0 0)

-- What follows the digits does not continue them.
abbrev pub Stops : Bytes → Type 0
Stops [] = Unit
Stops (c ∷ s) = is_ascii_hexdigit c ≡ false

or_nibble-add :
    (val d : ℕ) → d < 16 → or_nibble (val % 2 ^ 64 * 16 % 2 ^ 64) d ≡ (val * 16 + d) % 2 ^ 64
or_nibble-add val d h =
    let split : val % 2 ^ 64 * 16 % 2 ^ 64 ≡ val % 2 ^ 60 * 16 = omega arith in
    rw split (bit_or-mul_sixteen (val % 2 ^ 60) d h ∙ omega arith)

scan_stop : (rest : Bytes) (val digits : ℕ) → Stops rest → scan rest val digits ≡ some (val, digits)
unfolding scan
scan_stop [] val digits stop = refl
scan_stop (c ∷ rest) val digits stop = rw (nibble-none c stop, scan)

scan_step :
    (c : ℕ) (s : Bytes) (val digits : ℕ)
    → IsHex c
    → scan (c ∷ s) val digits ≡ scan s (or_nibble (val * 16 % 2 ^ 64) (hex_digit c)) (digits + 1)
unfolding scan
scan_step c s val digits h = rw (nibble-IsHex c h, scan)

-- The loop reads a run of digits to its end, modulo 2 ^ 64.
pub scan-append :
    (ds rest : Bytes) (val digits : ℕ)
    → All IsHex ds
    → Stops rest
    → scan (ds ++ rest) (val % 2 ^ 64) digits ≡ some (hex_value val ds % 2 ^ 64, digits + length ds)
scan-append [] rest val digits h stop = scan_stop rest (val % 2 ^ 64) digits stop ∙ ground arith
scan-append (c ∷ ds) rest val digits (hc, hs) stop =
    rw
      (
        scan_step c (ds ++ rest) (val % 2 ^ 64) digits hc,
        or_nibble-add val (hex_digit c) (hex_digit-lt c hc),
      )
      (scan-append ds rest (val * 16 + hex_digit c) (digits + 1) hs stop ∙ ground arith)

skip_whitespace-append :
    (ws s : Bytes)
    → All (λ c. is_ascii_whitespace c ≡ true) ws
    → skip_whitespace (ws ++ s) ≡ skip_whitespace s
unfolding skip_whitespace
skip_whitespace-append [] s h = refl
skip_whitespace-append (c ∷ ws) s (hc, hs) = rw hc (skip_whitespace-append ws s hs)

-- What does not go on with an `x`, which would make a prefix of a single zero before it.
abbrev pub NotX : Bytes → Type 0
NotX [] = Unit
NotX (c ∷ s) = (c == b'x' || c == b'X') ≡ false

-- The prefix before the digits, with what is behind them: one of the two that are taken off, or none.
pub data Prefix : Bytes → Bytes → Type 0 where
  lower : {rest : Bytes} → Prefix (b'0' ∷ b'x' ∷ []) rest
  upper : {rest : Bytes} → Prefix (b'0' ∷ b'X' ∷ []) rest
  absent : {rest : Bytes} → NotX rest → Prefix [] rest

hex_not_x : (c : ℕ) → IsHex c → (c == b'x' || c == b'X') ≡ false
hex_not_x c h = ground arith

hex_not_blank : (c : ℕ) → IsHex c → is_ascii_whitespace c ≡ false
hex_not_blank c h = ground arith

skip_digits :
    (ds rest : Bytes)
    → All IsHex ds
    → 1 ≤ length ds
    → NotX rest
    → skip_prefix (skip_whitespace (ds ++ rest)) ≡ ds ++ rest
unfolding skip_prefix skip_whitespace
skip_digits [] rest h some_digit free = absurd (omega arith)
skip_digits (a ∷ []) [] (h, _) some_digit free = ground (arith, hex_not_blank a h)
skip_digits (a ∷ []) (c ∷ rest) (h, _) some_digit free = ground (arith, hex_not_blank a h)
skip_digits (a ∷ b ∷ ds) rest (h, (h', _)) some_digit free =
    ground (arith, hex_not_blank a h, hex_not_x b h')

skip-Prefix :
    {p : Bytes} (ds rest : Bytes)
    → Prefix p rest
    → All IsHex ds
    → 1 ≤ length ds
    → skip_prefix (skip_whitespace (p ++ (ds ++ rest))) ≡ ds ++ rest
unfolding skip_prefix skip_whitespace
skip-Prefix ds rest lower hd some_digit = refl
skip-Prefix ds rest upper hd some_digit = refl
skip-Prefix ds rest (absent free) hd some_digit = skip_digits ds rest hd some_digit free

finish-some : (val : ℕ) (ds : Bytes) → 1 ≤ length ds → finish (some (val, 0 + length ds)) ≡ some val
unfolding finish
finish-some val ds h = ground arith

-- White space, a prefix `0x` or `0X` or none, one or more hexadecimal digits and a rest that does not go
-- on with one, nor, where there is no prefix, with an `x`: the result is the number that the digits
-- spell, modulo 2 ^ 64, so a longer number is accepted and loses its upper digits.
pub parse_hex_scalar_lem :
    (ws : Bytes) {p : Bytes} (ds rest : Bytes)
    → All (λ c. is_ascii_whitespace c ≡ true) ws
    → Prefix p rest
    → All IsHex ds
    → 1 ≤ length ds
    → Stops rest
    → parse_hex_scalar (ws ++ (p ++ (ds ++ rest))) ≡ some (hex_value 0 ds % 2 ^ 64)
unfolding parse_hex_scalar
parse_hex_scalar_lem ws {p} ds rest hw hp hd some_digit stop =
    rw (skip_whitespace-append ws (p ++ (ds ++ rest)) hw, skip-Prefix ds rest hp hd some_digit)
      (rw (scan-append ds rest 0 0 hd stop) (finish-some (hex_value 0 ds % 2 ^ 64) ds some_digit))

overflow_test : parse_hex_scalar (codes "0x11111111111111112\n") ≡ some 0x1111111111111112
unfolding parse_hex_scalar skip_whitespace skip_prefix finish scan nibble
overflow_test = refl
