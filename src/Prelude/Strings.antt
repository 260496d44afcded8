-- ===== src/Prelude/Strings.antt =====
-- The methods of Rust's `str` that the program uses, on lists of code points.
use Prim.Native.Nat.{ℕ, zero, suc, ◌+◌, ◌-◌, ◌*◌, ◌/◌, ◌%◌, ◌^◌}
use mathlib.Core.Path.{◌≡◌, refl}
use mathlib.Core.Logic.{◌↔◌}
use mathlib.Core.Bool.{Bool, true, false, ◌&&◌, ◌||◌}
use mathlib.Core.Option.{Option, none, some}
use mathlib.Core.List.{List, [], ◌∷◌, ◌++◌, reverse}
use native.Mathlib.Omega.{arith}
use tsf_sync.Prelude.Tests.{ltb, leb, ◌==◌, if◌then◌else◌}
use tsf_sync.Prelude.Text.{Bytes}
use tsf_sync.Prelude.Int.{ℤ, pos, negsuc, sub_ℕ}

-- `==` on strings
unfoldable pub text_eq : Bytes → Bytes → Bool
text_eq [] [] = true
text_eq [] (b ∷ t) = false
text_eq (a ∷ s) [] = false
text_eq (a ∷ s) (b ∷ t) = a == b && text_eq s t

pub text_eq_sound : (s t : Bytes) → text_eq s t ≡ true → s ≡ t
unfolding text_eq
text_eq_sound [] [] h = refl
text_eq_sound [] (b ∷ t) h = ground arith
text_eq_sound (a ∷ s) [] h = ground arith
text_eq_sound (a ∷ s) (b ∷ t) h = ground (arith, text_eq_sound s t)

pub text_eq_refl : (s : Bytes) → text_eq s s ≡ true
unfolding text_eq
text_eq_refl [] = refl
text_eq_refl (a ∷ s) = ground (arith, text_eq_refl s)

pub text_eq_iff : (s t : Bytes) → (text_eq s t ≡ true) ↔ (s ≡ t)
text_eq_iff s t = (text_eq_sound s t, λ e. rw e (text_eq_refl t))

-- `[&str]::contains`
unfoldable pub contains : List Bytes → Bytes → Bool
contains [] s = false
contains (t ∷ ts) s = text_eq t s || contains ts s

-- `starts_with`
unfoldable pub starts_with : Bytes → Bytes → Bool
starts_with s [] = true
starts_with [] (b ∷ p) = false
starts_with (a ∷ s) (b ∷ p) = a == b && starts_with s p

-- `strip_suffix`: what stands before the suffix, if the string ends with it.
unfoldable pub strip_suffix : Bytes → Bytes → Option Bytes
strip_suffix [] p = if text_eq [] p then some [] else none
strip_suffix (a ∷ s) p =
    let rest = strip_suffix s p in
    if text_eq (a ∷ s) p then some [] else elim rest [ none ↦ none | some r ↦ some (a ∷ r) ]

abbrev pub in_range : ℕ → ℕ → ℕ → Bool
in_range lo hi c = leb lo c && leb c hi

-- `char::is_whitespace`
abbrev pub is_whitespace : ℕ → Bool
is_whitespace c =
    in_range 0x09 0x0d c
    || c == 0x20
    || c == 0x85
    || c == 0xa0
    || c == 0x1680
    || in_range 0x2000 0x200a c
    || c == 0x2028
    || c == 0x2029
    || c == 0x202f
    || c == 0x205f
    || c == 0x3000

unfoldable pub trim_start : Bytes → Bytes
trim_start [] = []
trim_start (c ∷ s) = if is_whitespace c then trim_start s else c ∷ s

unfoldable pub trim : Bytes → Bytes
unfolding trim_start
trim s = reverse (trim_start (reverse (trim_start s)))

-- `split_whitespace`: `word` is the word so far.
unfoldable pub close_word : Bytes → List Bytes → List Bytes
close_word [] words = words
close_word (c ∷ word) words = (c ∷ word) ∷ words

unfoldable pub words_from : Bytes → Bytes → List Bytes
words_from word [] = close_word word []
words_from word (c ∷ s) =
    if is_whitespace c then close_word word (words_from [] s) else words_from (word ++ c ∷ []) s

unfoldable pub split_whitespace : Bytes → List Bytes
unfolding words_from close_word
split_whitespace s = words_from [] s

-- `lines`: a line ends at `\n`, and a `\r` before it is dropped. `line` is the line so far.
unfoldable pub drop_cr : Bytes → Bytes
drop_cr [] = []
drop_cr (c ∷ []) = if c == b'\r' then [] else c ∷ []
drop_cr (c ∷ d ∷ s) = c ∷ drop_cr (d ∷ s)

unfoldable pub lines_from : Bytes → Bytes → List Bytes
lines_from [] [] = []
lines_from (a ∷ line) [] = (a ∷ line) ∷ []
lines_from line (c ∷ s) =
    if c == b'\n' then drop_cr line ∷ lines_from [] s else lines_from (line ++ c ∷ []) s

unfoldable pub lines : Bytes → List Bytes
unfolding lines_from drop_cr
lines s = lines_from [] s

abbrev pub is_digit : ℕ → Bool
is_digit = in_range b'0' b'9'

-- The digits of `parse::<u64>`: an empty string, another byte or a number that does not fit is an
-- error.
unfoldable pub scan_digits : ℕ → ℕ → Bytes → Option ℕ
scan_digits bound acc [] = some acc
scan_digits bound acc (c ∷ s) =
    let rest = scan_digits bound (acc * 10 + (c - b'0')) s in
    if is_digit c && ltb (acc * 10 + (c - b'0')) bound then rest else none

unfoldable pub parse_digits : ℕ → Bytes → Option ℕ
unfolding scan_digits
parse_digits bound [] = none
parse_digits bound (c ∷ s) = scan_digits bound 0 (c ∷ s)

unfoldable pub parse_u64 : Bytes → Option ℕ
parse_u64 [] = none
parse_u64 (c ∷ s) = if c == b'+' then parse_digits (2 ^ 64) s else parse_digits (2 ^ 64) (c ∷ s)

unfoldable pub parse_i64 : Bytes → Option ℤ
parse_i64 [] = none
parse_i64 (c ∷ s) =
    if c == b'-'
    then elim (parse_digits (2 ^ 63 + 1) s) [ none ↦ none | some n ↦ some (sub_ℕ 0 n) ]
    else elim (parse_digits (2 ^ 63) (if c == b'+' then s else c ∷ s)) [
      | none ↦ none
      | some n ↦ some (pos n)
    ]

-- `{:<n}` of `format!`: spaces behind the text up to a width of n characters.
abbrev spaces : ℕ → Bytes
spaces zero = []
spaces (suc n) = b' ' ∷ spaces n

unfoldable pub pad : ℕ → Bytes → Bytes
pad zero s = s
pad (suc n) [] = spaces (suc n)
pad (suc n) (c ∷ s) = c ∷ pad n s

-- `{}` of a number of at most 20 digits, and of an i64.
unfoldable pub show_from : ℕ → ℕ → Bytes → Bytes
show_from zero n digits = digits
show_from (suc fuel) n digits =
    let more = show_from fuel (n / 10) ((b'0' + n % 10) ∷ digits) in
    if ltb n 10 then (b'0' + n) ∷ digits else more

unfoldable pub show_ℤ : ℤ → Bytes
unfolding show_from
show_ℤ (pos n) = show_from 20 n []
show_ℤ (negsuc n) = b'-' ∷ show_from 20 (suc n) []
