-- ===== src/Tool/Hex/Auto.antt =====
-- src/bin/tsf_sync_debugfs/asm/hex.rs, `parse_hex_auto` on x86_64: the pipeline where the input has
-- the standard form and the CPU has SSSE3, and the scalar parser elsewhere.
use tsf_sync.Prelude.{
  ℕ, zero, suc, ◌+◌, ◌*◌, ◌^◌, ◌<◌, ◌≤◌, Bool, true, false, ◌&&◌, ◌||◌, Option, some, [], ◌∷◌, ◌++◌,
  ◌≡◌, refl, ◌∙◌, sym, ap, arith, inl, inr,
}
use native.Mathlib.Nat.{pow-suc}
use tsf_sync.Prelude.Tests.{leb, ◌==◌, if◌then◌else◌, ==_iff, Bool-cases}
use tsf_sync.Prelude.Lists.{length, All, take, drop}
use tsf_sync.Prelude.Text.{Bytes}
use tsf_sync.Tool.Hex.Digits.{IsHex, hex_digit, hex_digit-lt, hex_value, is_ascii_hexdigit}
use tsf_sync.Tool.Hex.Simd.{parse_hex_16_ssse3}
use tsf_sync.Tool.Hex.Simd.Value.{parse_hex_16_ssse3_lem}
use tsf_sync.Tool.Hex.Scalar.{parse_hex_scalar, parse_hex_scalar_lem, Prefix, lower, upper, Stops}

-- `hex_slice.iter().all(|b| b.is_ascii_hexdigit())`
abbrev all_hex : Bytes → Bool
all_hex [] = true
all_hex (c ∷ s) = is_ascii_hexdigit c && all_hex s

-- `buf[0] == b'0' && (buf[1] == b'x' || buf[1] == b'X')`
abbrev has_prefix : Bytes → Bool
has_prefix (a ∷ b ∷ s) = a == b'0' && (b == b'x' || b == b'X')
has_prefix _ = false

unfoldable pub parse_hex_auto : Bool → Bytes → Option ℕ
parse_hex_auto has_ssse3 buf =
    let hex_slice = take 16 (drop 2 buf) in
    if leb 19 (length buf) && has_prefix buf && has_ssse3 && all_hex hex_slice
    then some (parse_hex_16_ssse3 hex_slice)
    else parse_hex_scalar buf

all_hex-All : (s : Bytes) → all_hex s ≡ true → All IsHex s
all_hex-All [] h = tt
all_hex-All (c ∷ s) h = (ground arith, all_hex-All s (ground arith))

take-append-drop : (n : ℕ) (s : Bytes) → take n s ++ drop n s ≡ s
take-append-drop zero s = refl
take-append-drop (suc n) [] = refl
take-append-drop (suc n) (c ∷ s) = rw (take-append-drop n s)

length-take : (n : ℕ) (s : Bytes) → n ≤ length s → length (take n s) ≡ n
length-take zero s h = refl
length-take (suc n) [] h = absurd (omega arith)
length-take (suc n) (c ∷ s) h = omega (arith, length-take n s (omega arith))

hex_value-lt : (s : Bytes) (acc : ℕ) → All IsHex s → hex_value acc s < (acc + 1) * 16 ^ length s
hex_value-lt [] acc h = omega arith
hex_value-lt (c ∷ s) acc (hc, hs) =
    rw (pow-suc 16 (length s))
      (grind (arith, hex_digit-lt c hc, hex_value-lt s (acc * 16 + hex_digit c) hs))

-- The fast path on an input of the standard form.
fast_path :
    {p : Bytes} (rest : Bytes)
    → Prefix p (drop 16 rest)
    → 17 ≤ length rest
    → all_hex (take 16 rest) ≡ true
    → Stops (drop 16 rest)
    → some (parse_hex_16_ssse3 (take 16 rest)) ≡ parse_hex_scalar (p ++ rest)
fast_path {p} rest hp len hex stop =
    let hs = all_hex-All (take 16 rest) hex in
    let n = length-take 16 rest (omega arith) in
    let small : hex_value 0 (take 16 rest) < 1 * 16 ^ 16 =
      rw n at (hex_value-lt (take 16 rest) 0 hs) in
    ap some (parse_hex_16_ssse3_lem (take 16 rest) n hs ∙ omega arith)
    ∙ sym (parse_hex_scalar_lem [] (take 16 rest) (drop 16 rest) tt hp hs (omega arith) stop)
    ∙ ap (λ (t : Bytes). parse_hex_scalar (p ++ t)) (take-append-drop 16 rest)

as_Prefix : (a b : ℕ) (rest : Bytes) → has_prefix (a ∷ b ∷ []) ≡ true → Prefix (a ∷ b ∷ []) rest
as_Prefix a b rest h =
    let zero_first : a ≡ b'0' = ground arith in
    elim (Bool-cases (b == b'x')) [
      | inl e ↦ rw (zero_first, (==_iff b b'x').0 e) lower
      | inr e ↦ let x : b ≡ b'X' = ground arith in rw (zero_first, x) upper
    ]

-- Where the byte behind the 18th does not go on with the digits, the choice of the parser is not
-- seen: with or without SSSE3, for every input, valid or not, the result is the scalar parser's.
pub parse_hex_auto-scalar :
    (has_ssse3 : Bool) (buf : Bytes)
    → Stops (drop 18 buf)
    → parse_hex_auto has_ssse3 buf ≡ parse_hex_scalar buf
unfolding parse_hex_auto
parse_hex_auto-scalar has_ssse3 [] stop = refl
parse_hex_auto-scalar has_ssse3 (a ∷ []) stop = refl
parse_hex_auto-scalar has_ssse3 (a ∷ b ∷ rest) stop =
    elim (Bool-cases (
      leb 19 (length (a ∷ b ∷ rest))
      && has_prefix (a ∷ b ∷ rest)
      && has_ssse3
      && all_hex (take 16 rest))) [
        | inl e ↦
            rw (e, parse_hex_auto)
              (fast_path rest (as_Prefix a b (drop 16 rest) (ground arith)) (ground arith)
                (ground arith) stop)
        | inr e ↦ rw (e, parse_hex_auto)
      ]
