-- ===== src/Tool/Hex/Simd.antt =====
-- src/bin/tsf_sync_debugfs/asm/hex.rs, `parse_hex_16_ssse3`. A vector register is a list of lanes,
-- the lowest first: 16 bytes, 8 words of 16 bits or 4 of 32 bits. The intrinsics of `core::arch`
-- are those that the function calls, each lane by lane.
pub mod Value
use tsf_sync.Prelude.{
  ℕ, zero, suc, ◌+◌, ◌-◌, ◌*◌, ◌/◌, ◌%◌, ◌^◌, ◌<◌, ◌≤◌, Bool, true, false, ◌&&◌, ◌||◌, Option, none,
  some, List, [], ◌∷◌, ◌++◌, map, ◌≡◌, refl, arith,
}
use Prim.Native.Nat.{bit_and}
use mathlib.Core.List.{reverse}
use tsf_sync.Prelude.Tests.{leb, ltb, ◌==◌, if◌then◌else◌}
use tsf_sync.Prelude.Lists.{get_elem?, replicate}
use tsf_sync.Prelude.Text.{Bytes, codes}

-- Two vectors, lane by lane.
pub lanes : (ℕ → ℕ → ℕ) → List ℕ → List ℕ → List ℕ
lanes f (a ∷ u) (b ∷ v) = f a b ∷ lanes f u v
lanes f _ _ = []

-- The same byte in every lane (`_mm_set1_epi8`).
abbrev set1 : ℕ → List ℕ
set1 = replicate 16

-- `_mm_and_si128`
abbrev and_si128 : List ℕ → List ℕ → List ℕ
and_si128 = lanes bit_and

-- `_mm_cmpgt_epi8`: the bytes are compared as signed, and a lane that is greater is all ones.
abbrev pub cmpgt_byte : ℕ → ℕ → ℕ
cmpgt_byte a b = if ltb ((b + 128) % 256) ((a + 128) % 256) then 0xff else 0

-- `_mm_add_epi8`
abbrev pub add_byte : ℕ → ℕ → ℕ
add_byte a b = (a + b) % 256

-- A value below 2 ^ 7 as a signed factor; the constants of the function are 1 and 16.
-- `_mm_maddubs_epi16`: neighbours are multiplied and added, and the sum saturates at 2 ^ 15 - 1.
abbrev pub saturate : ℕ → ℕ
saturate n = if ltb n (2 ^ 15) then n else 2 ^ 15 - 1

pub maddubs : List ℕ → List ℕ → List ℕ
maddubs (a ∷ b ∷ u) (m ∷ n ∷ v) = saturate (a * m + b * n) ∷ maddubs u v
maddubs _ _ = []

-- `_mm_madd_epi16` on words below 2 ^ 15: neighbours are multiplied and added to a 32-bit word.
pub madd : List ℕ → List ℕ → List ℕ
madd (a ∷ b ∷ u) (m ∷ n ∷ v) = (a * m + b * n) % 2 ^ 32 ∷ madd u v
madd _ _ = []

-- The bytes of 32-bit words, the lowest first.
bytes_of : List ℕ → List ℕ
bytes_of [] = []
bytes_of (w ∷ u) = w % 256 ∷ w / 256 % 256 ∷ w / 2 ^ 16 % 256 ∷ w / 2 ^ 24 % 256 ∷ bytes_of u

-- One lane of `_mm_shuffle_epi8`: an index with its top bit set gives zero.
abbrev pick : List ℕ → ℕ → ℕ
pick u i = if leb 128 i then 0 else elim (get_elem? u (i % 16)) [ none ↦ 0 | some b ↦ b ]

-- `_mm_cvtsi128_si64(…) as u64`: the low eight bytes.
low64 : List ℕ → ℕ
low64 (a ∷ b ∷ c ∷ d ∷ e ∷ f ∷ g ∷ h ∷ _) =
    a + 2 ^ 8 * b + 2 ^ 16 * c + 2 ^ 24 * d + 2 ^ 32 * e + 2 ^ 40 * f + 2 ^ 48 * g + 2 ^ 56 * h
low64 _ = 0

-- `_mm_set_epi8` and `_mm_set_epi16` list the highest lane first.
abbrev pub mul_16_1 : List ℕ
mul_16_1 = reverse (1 ∷ 16 ∷ 1 ∷ 16 ∷ 1 ∷ 16 ∷ 1 ∷ 16 ∷ 1 ∷ 16 ∷ 1 ∷ 16 ∷ 1 ∷ 16 ∷ 1 ∷ 16 ∷ [])

abbrev pub mul_256_1 : List ℕ
mul_256_1 = reverse (1 ∷ 256 ∷ 1 ∷ 256 ∷ 1 ∷ 256 ∷ 1 ∷ 256 ∷ [])

abbrev shuffle : List ℕ
shuffle =
    reverse (255 ∷ 255 ∷ 255 ∷ 255 ∷ 255 ∷ 255 ∷ 255 ∷ 255 ∷ 1 ∷ 0 ∷ 5 ∷ 4 ∷ 9 ∷ 8 ∷ 13 ∷ 12 ∷ [])

-- ASCII to values of four bits.
pub nibbles : Bytes → List ℕ
unfolding lanes
nibbles input =
    let low_nibble = and_si128 input (set1 0x0f) in
    let is_letter = lanes cmpgt_byte input (set1 0x39) in
    let letter_adj = and_si128 is_letter (set1 9) in lanes add_byte low_nibble letter_adj

pub gather : List ℕ → ℕ
unfolding bytes_of low64
gather words = low64 (map (pick (bytes_of words)) shuffle)

unfoldable pub parse_hex_16_ssse3 : Bytes → ℕ
parse_hex_16_ssse3 hex = gather (madd (maddubs (nibbles hex) mul_16_1) mul_256_1)

sequential_test : parse_hex_16_ssse3 (codes "0123456789abcdef") ≡ 0x0123456789abcdef
unfolding parse_hex_16_ssse3 nibbles maddubs madd gather
sequential_test = refl

mixed_case_test : parse_hex_16_ssse3 (codes "aAbBcCdDeEfF0123") ≡ 0xaabbccddeeff0123
unfolding parse_hex_16_ssse3 nibbles maddubs madd gather
mixed_case_test = refl
