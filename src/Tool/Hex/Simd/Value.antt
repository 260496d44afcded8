-- ===== src/Tool/Hex/Simd/Value.antt =====
-- src/bin/tsf_sync_debugfs/asm/hex.rs, `parse_hex_16_ssse3`: the pipeline computes the number that
-- the 16 digits spell.
use tsf_sync.Prelude.{
  ℕ, zero, suc, ◌+◌, ◌*◌, ◌%◌, ◌^◌, ◌<◌, Bool, true, not, ◌&&◌, ◌||◌, List, [], ◌∷◌, map, ◌≡◌, refl,
  ◌∙◌, arith,
}
use Prim.Native.Nat.{bit_and}
use tsf_sync.Prelude.Tests.{◌==◌, ==_iff}
use tsf_sync.Prelude.Lists.{length, replicate, All}
use tsf_sync.Prelude.Text.{Bytes}
use tsf_sync.Tool.Hex.Digits.{IsHex, hex_digit, hex_digit-lt, hex_value, is_ascii_hexdigit}
use tsf_sync.Tool.Hex.Simd.{
  lanes, nibbles, add_byte, cmpgt_byte, saturate, maddubs, madd, gather, parse_hex_16_ssse3,
  mul_16_1, mul_256_1,
}

-- One lane of the first stage.
abbrev lane_nibble : ℕ → ℕ
lane_nibble c = add_byte (bit_and c 0x0f) (bit_and (cmpgt_byte c 0x39) 9)

agrees : ℕ → Bool
agrees c = not (is_ascii_hexdigit c) || lane_nibble c == hex_digit c

all_below : ℕ → Bool
unfolding agrees
all_below zero = true
all_below (suc n) = agrees n && all_below n

all_below-agrees : (n c : ℕ) → all_below n ≡ true → c < n → agrees c ≡ true
unfolding all_below
all_below-agrees zero c h lt = absurd (omega arith)
all_below-agrees (suc n) c h lt = ground (arith, all_below-agrees n c)

-- Every byte below 128, by evaluation.
lane_table : all_below 128 ≡ true
unfolding all_below
lane_table = refl

lane_nibble-IsHex : (c : ℕ) → IsHex c → lane_nibble c ≡ hex_digit c
unfolding agrees
lane_nibble-IsHex c h =
    let table : agrees c ≡ true = all_below-agrees 128 c lane_table (ground arith) in
    (==_iff _ _).0 (rw h at table)

lanes-nibbles :
    (hex : Bytes)
    → All IsHex hex
    → lanes add_byte (lanes bit_and hex (replicate (length hex) 0x0f)) (
        lanes bit_and
          (lanes cmpgt_byte hex (replicate (length hex) 0x39))
          (replicate (length hex) 9))
      ≡ map hex_digit hex
unfolding lanes
lanes-nibbles [] h = refl
lanes-nibbles (c ∷ hex) (hc, hs) = cc (lane_nibble-IsHex c hc, lanes-nibbles hex hs)

nibbles-map : (hex : Bytes) → length hex ≡ 16 → All IsHex hex → nibbles hex ≡ map hex_digit hex
unfolding nibbles
nibbles-map hex len h = rw len at (lanes-nibbles hex h)

-- Four digits of 4 bits through `maddubs` and `madd`.
quad :
    (a b c d : ℕ)
    → a < 16
    → b < 16
    → c < 16
    → d < 16
    → (saturate (a * 16 + b * 1) * 256 + saturate (c * 16 + d * 1) * 1) % 2 ^ 32
      ≡ ((a * 16 + b) * 16 + c) * 16 + d
quad a b c d ha hb hc hd = ground arith

gather_lem :
    (a b c d : ℕ)
    → a < 2 ^ 16
    → b < 2 ^ 16
    → c < 2 ^ 16
    → d < 2 ^ 16
    → gather (a ∷ b ∷ c ∷ d ∷ []) ≡ ((a * 2 ^ 16 + b) * 2 ^ 16 + c) * 2 ^ 16 + d
unfolding gather
gather_lem a b c d ha hb hc hd = omega arith

digit_value : ℕ → List ℕ → ℕ
digit_value acc [] = acc
digit_value acc (n ∷ s) = digit_value (acc * 16 + n) s

digit_value-map : (acc : ℕ) (s : Bytes) → digit_value acc (map hex_digit s) ≡ hex_value acc s
unfolding digit_value
digit_value-map acc [] = refl
digit_value-map acc (c ∷ s) = digit_value-map (acc * 16 + hex_digit c) s

abbrev IsSmall : ℕ → Type 0
IsSmall n = n < 16

pipeline :
    (n0 n1 n2 n3 n4 n5 n6 n7 n8 n9 n10 n11 n12 n13 n14 n15 : ℕ)
    → All IsSmall
        (n0 ∷ n1 ∷ n2 ∷ n3 ∷ n4 ∷ n5 ∷ n6 ∷ n7 ∷ n8 ∷ n9 ∷ n10 ∷ n11 ∷ n12 ∷ n13 ∷ n14 ∷ n15 ∷ [])
    → gather (
        madd
          (maddubs
            (n0 ∷ n1 ∷ n2 ∷ n3 ∷ n4 ∷ n5 ∷ n6 ∷ n7 ∷ n8 ∷ n9 ∷ n10 ∷ n11 ∷ n12 ∷ n13 ∷ n14 ∷ n15
              ∷ [])
            mul_16_1)
          mul_256_1)
      ≡ digit_value 0
          (n0 ∷ n1 ∷ n2 ∷ n3 ∷ n4 ∷ n5 ∷ n6 ∷ n7 ∷ n8 ∷ n9 ∷ n10 ∷ n11 ∷ n12 ∷ n13 ∷ n14 ∷ n15 ∷ [])
unfolding maddubs madd digit_value
pipeline n0 n1 n2 n3 n4 n5 n6 n7 n8 n9 n10 n11 n12 n13 n14 n15 h =
    rw
      (
        quad n0 n1 n2 n3 (omega arith) (omega arith) (omega arith) (omega arith),
        quad n4 n5 n6 n7 (omega arith) (omega arith) (omega arith) (omega arith),
        quad n8 n9 n10 n11 (omega arith) (omega arith) (omega arith) (omega arith),
        quad n12 n13 n14 n15 (omega arith) (omega arith) (omega arith) (omega arith),
      )
      (gather_lem _ _ _ _ (omega arith) (omega arith) (omega arith) (omega arith) ∙ omega arith)

All-map-IsSmall : (hex : Bytes) → All IsHex hex → All IsSmall (map hex_digit hex)
All-map-IsSmall [] h = tt
All-map-IsSmall (c ∷ hex) (hc, hs) = (hex_digit-lt c hc, All-map-IsSmall hex hs)

data Sixteen : Bytes → Type 0 where
  sixteen :
      (c0 c1 c2 c3 c4 c5 c6 c7 c8 c9 c10 c11 c12 c13 c14 c15 : ℕ)
      → Sixteen
          (c0 ∷ c1 ∷ c2 ∷ c3 ∷ c4 ∷ c5 ∷ c6 ∷ c7 ∷ c8 ∷ c9 ∷ c10 ∷ c11 ∷ c12 ∷ c13 ∷ c14 ∷ c15 ∷ [])

length-Sixteen : (hex : Bytes) → length hex ≡ 16 → Sixteen hex
length-Sixteen
      (c0 ∷ c1 ∷ c2 ∷ c3 ∷ c4 ∷ c5 ∷ c6 ∷ c7 ∷ c8 ∷ c9 ∷ c10 ∷ c11 ∷ c12 ∷ c13 ∷ c14 ∷ c15 ∷ []) h =
    sixteen c0 c1 c2 c3 c4 c5 c6 c7 c8 c9 c10 c11 c12 c13 c14 c15
length-Sixteen _ h = absurd (omega arith)

Sixteen-parse :
    {hex : Bytes}
    → Sixteen hex
    → length hex ≡ 16
    → All IsHex hex
    → parse_hex_16_ssse3 hex ≡ hex_value 0 hex
unfolding parse_hex_16_ssse3
Sixteen-parse (sixteen c0 c1 c2 c3 c4 c5 c6 c7 c8 c9 c10 c11 c12 c13 c14 c15) len h =
    let hex =
      c0 ∷ c1 ∷ c2 ∷ c3 ∷ c4 ∷ c5 ∷ c6 ∷ c7 ∷ c8 ∷ c9 ∷ c10 ∷ c11 ∷ c12 ∷ c13 ∷ c14 ∷ c15 ∷ [] in
    rw (nibbles-map hex len h)
      (pipeline _ _ _ _ _ _ _ _ _ _ _ _ _ _ _ _ (All-map-IsSmall hex h) ∙ digit_value-map 0 hex)

-- On 16 hexadecimal digits, of either case, the pipeline gives the number that they spell.
pub parse_hex_16_ssse3_lem :
    (hex : Bytes) → length hex ≡ 16 → All IsHex hex → parse_hex_16_ssse3 hex ≡ hex_value 0 hex
parse_hex_16_ssse3_lem hex len h = Sixteen-parse (length-Sixteen hex len) len h
