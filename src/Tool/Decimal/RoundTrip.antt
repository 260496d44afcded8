-- ===== src/Tool/Decimal/RoundTrip.antt =====
-- src/bin/tsf_sync_debugfs/debugfs.rs, `format_u64_decimal`: the print fits the buffer and reads
-- back as the value.
use tsf_sync.Prelude.{
  ℕ, zero, suc, ◌+◌, ◌-◌, ◌*◌, ◌/◌, ◌%◌, ◌^◌, ◌≤◌, ◌<◌, some, [], ◌∷◌, ◌++◌, ◌≡◌, inl, inr, false,
  refl, arith,
}
use mathlib.Core.List.{reverse, append_assoc, append-nil, reverse-cons}
use native.Mathlib.Nat.{pow-suc}
use tsf_sync.Prelude.Tests.{◌==◌, if◌then◌else◌, Bool-cases}
use tsf_sync.Prelude.Lists.{length, length-append, All, All-append}
use tsf_sync.Prelude.Text.{Bytes}
use tsf_sync.Tool.Decimal.{write_digits, close_line, format_u64_decimal}

abbrev pub IsDigit : ℕ → Type 0
IsDigit c = (b'0' ≤ c) × (c ≤ b'9')

-- The number that digits spell behind `acc`, the first digit leading.
abbrev pub value : ℕ → Bytes → ℕ
value acc [] = acc
value acc (c ∷ s) = value (acc * 10 + (c - b'0')) s

-- The digits of a number, the last digit first, at most `room` of them.
digits : ℕ → ℕ → Bytes
digits zero val = []
digits (suc room) val = if val == 0 then [] else (b'0' + val % 10) ∷ digits room (val / 10)

write_digits-digits :
    (room val : ℕ) (out : Bytes)
    → val < 10 ^ room
    → write_digits room val out ≡ some (out ++ digits room val)
unfolding write_digits digits
write_digits-digits zero val out h = ground (arith, append-nil out)
write_digits-digits (suc room) val out h = ground (
  arith,
  append-nil out,
  pow-suc 10 room,
  write_digits-digits room (val / 10) (out ++ (b'0' + val % 10) ∷ []),
  append_assoc out ((b'0' + val % 10) ∷ []) (digits room (val / 10)),
)

value-append : (acc : ℕ) (s t : Bytes) → value acc (s ++ t) ≡ value (value acc s) t
value-append acc [] t = refl
value-append acc (c ∷ s) t = value-append (acc * 10 + (c - b'0')) s t

value-reverse-digits : (room val : ℕ) → val < 10 ^ room → value 0 (reverse (digits room val)) ≡ val
unfolding digits
value-reverse-digits zero val h = omega arith
value-reverse-digits (suc room) val h = elim (Bool-cases (val == 0)) [
  | inl e ↦ rw e (ground arith)
  | inr e ↦
      rw (e, reverse-cons (b'0' + val % 10) (digits room (val / 10)))
        (rw (value-append 0 (reverse (digits room (val / 10))) ((b'0' + val % 10) ∷ []))
          (omega (arith, value-reverse-digits room (val / 10) (omega (arith, pow-suc 10 room)))))
]

length-digits : (room k val : ℕ) → val < 10 ^ k → length (digits room val) ≤ k
unfolding digits
length-digits zero k val h = omega arith
length-digits (suc room) zero val h = ground arith
length-digits (suc room) (suc k) val h =
    ground (arith, pow-suc 10 k, length-digits room k (val / 10))

length-reverse : (s : Bytes) → length (reverse s) ≡ length s
length-reverse [] = refl
length-reverse (c ∷ s) =
    rw (reverse-cons c s) (omega (arith, length-append (reverse s) (c ∷ []), length-reverse s))

All-reverse : (s : Bytes) → All IsDigit s → All IsDigit (reverse s)
All-reverse [] h = tt
All-reverse (c ∷ s) (hc, hs) =
    rw (reverse-cons c s) (All-append IsDigit (reverse s) (c ∷ []) (All-reverse s hs) (hc, tt))

digits-IsDigit : (room val : ℕ) → All IsDigit (digits room val)
unfolding digits
digits-IsDigit zero val = tt
digits-IsDigit (suc room) val = elim (Bool-cases (val == 0)) [
  | inl e ↦ rw e tt
  | inr e ↦ rw e (omega arith, digits-IsDigit room (val / 10))
]

-- What a print of `val` looks like.
abbrev pub Spells : ℕ → Bytes → Type 0
Spells val ds = All IsDigit ds × (value 0 ds ≡ val) × (1 ≤ length ds) × (length ds ≤ 20)

digits-some : (room val : ℕ) → (val == 0) ≡ false → 1 ≤ length (digits (suc room) val)
unfolding digits
digits-some room val e = rw e (omega arith)

digits-Spells : (val : ℕ) → val < 2 ^ 64 → (val == 0) ≡ false → Spells val (reverse (digits 21 val))
digits-Spells val h e = (
  All-reverse (digits 21 val) (digits-IsDigit 21 val),
  value-reverse-digits 21 val (omega arith),
  omega (arith, length-reverse (digits 21 val), digits-some 20 val e),
  omega (arith, length-reverse (digits 21 val), length-digits 21 20 val (omega arith)),
)

-- Every u64 is printed, with no index out of the buffer: at least one and at most 20 digits that
-- spell the value, and a newline.
pub format_u64_decimal_lem :
    (val : ℕ)
    → val < 2 ^ 64
    → (ds : Bytes) × (format_u64_decimal val ≡ some (ds ++ b'\n' ∷ [])) × Spells val ds
unfolding format_u64_decimal close_line
format_u64_decimal_lem val h = elim (Bool-cases (val == 0)) [
  | inl e ↦ (b'0' ∷ [], rw e, (omega arith, ground arith, omega arith, omega arith))
  | inr e ↦ (
    reverse (digits 21 val),
    rw (e, write_digits-digits 21 val [] (omega arith))
        (ground (arith, length-digits 21 20 val (omega arith))),
    digits-Spells val h e,
  )
]
