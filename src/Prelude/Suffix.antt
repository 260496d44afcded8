-- ===== src/Prelude/Suffix.antt =====
-- `strip_suffix` and `parse::<u64>` on texts that are put together.
use tsf_sync.Prelude.{
  ℕ, ◌+◌, ◌-◌, ◌*◌, ◌^◌, ◌<◌, ◌≤◌, ◌≡◌, ◌≢◌, refl, ap, false, inl, inr, none, some, [], ◌∷◌, ◌++◌,
  arith,
}
use mathlib.Core.Path.{subst}
use tsf_sync.Prelude.Tests.{ltb, if◌then◌else◌, Bool-cases, Option-cases}
use tsf_sync.Prelude.Lists.{All, length, length-append}
use tsf_sync.Prelude.Text.{Bytes}
use tsf_sync.Prelude.Strings.{
  text_eq, text_eq_sound, text_eq_refl, strip_suffix, scan_digits, parse_digits, parse_u64,
}

abbrev pub IsDigit : ℕ → Type 0
IsDigit c = (b'0' ≤ c) × (c ≤ b'9')

abbrev pub value : ℕ → Bytes → ℕ
value acc [] = acc
value acc (c ∷ s) = value (acc * 10 + (c - b'0')) s

longer : (c : ℕ) (s p : Bytes) → text_eq (c ∷ (s ++ p)) p ≡ false
longer c s p = elim (Bool-cases (text_eq (c ∷ (s ++ p)) p)) [
  | inr e ↦ e
  | inl e ↦
      let same = ap length (text_eq_sound (c ∷ (s ++ p)) p e) in
      absurd (omega (arith, same, length-append s p))
]

pub strip_suffix-append :
    (s : Bytes) (c : ℕ) (p : Bytes) → strip_suffix (s ++ (c ∷ p)) (c ∷ p) ≡ some s
unfolding strip_suffix
strip_suffix-append [] c p = ground (arith, text_eq_refl (c ∷ p))
strip_suffix-append (d ∷ s) c p = ground (arith, longer d s (c ∷ p), strip_suffix-append s c p)

strip_suffix_sound : (s p r : Bytes) → strip_suffix s p ≡ some r → s ≡ r ++ p
unfolding strip_suffix
strip_suffix_sound [] p r h = ground (arith, text_eq_sound [] p)
strip_suffix_sound (c ∷ s) p r h = elim (Option-cases (strip_suffix s p)) [
  | inl e ↦ ground (arith, text_eq_sound (c ∷ s) p, e)
  | inr (t, e) ↦ ground (arith, text_eq_sound (c ∷ s) p, e, strip_suffix_sound s p t e)
]

All-drop : (P : ℕ → Type 0) (r p : Bytes) → All P (r ++ p) → All P p
All-drop P [] p h = h
All-drop P (c ∷ r) p (_, h) = All-drop P r p h

-- A text without one of the characters of the suffix does not end with it.
pub strip_suffix-All :
    (s q : Bytes) (c : ℕ) (p : Bytes) → All (λ d. d ≢ c) s → strip_suffix s (q ++ (c ∷ p)) ≡ none
strip_suffix-All s q c p h = elim (Option-cases (strip_suffix s (q ++ (c ∷ p)))) [
  | inl e ↦ e
  | inr (r, e) ↦
      let parts = strip_suffix_sound s (q ++ (c ∷ p)) r e in
      let has = All-drop (λ d. d ≢ c) r (q ++ (c ∷ p)) (subst (All (λ d. d ≢ c)) parts h) in
      absurd ((All-drop (λ d. d ≢ c) q (c ∷ p) has).0 refl)
]

value-le : (acc : ℕ) (s : Bytes) → acc ≤ value acc s
value-le acc [] = omega arith
value-le acc (c ∷ s) = omega (arith, value-le (acc * 10 + (c - b'0')) s)

scan_digits-value :
    (bound acc : ℕ) (s : Bytes)
    → acc < bound
    → All IsDigit s
    → scan_digits bound acc s ≡ (if ltb (value acc s) bound then some (value acc s) else none)
unfolding scan_digits
scan_digits-value bound acc [] h d = ground arith
scan_digits-value bound acc (c ∷ s) h (d, ds) =
    let next = acc * 10 + (c - b'0') in
    elim (Bool-cases (ltb next bound)) [
      | inl e ↦ ground (arith, scan_digits-value bound next s)
      | inr e ↦ ground (arith, value-le next s)
    ]

-- The value of the digits, if it is one of a u64.
pub parse_u64-value :
    (c : ℕ) (s : Bytes)
    → All IsDigit (c ∷ s)
    → parse_u64 (c ∷ s) ≡ (if ltb (value 0 (c ∷ s)) (2 ^ 64) then some (value 0 (c ∷ s)) else none)
unfolding parse_u64 parse_digits
parse_u64-value c s (d, ds) = ground (arith, scan_digits-value (2 ^ 64) 0 (c ∷ s))
