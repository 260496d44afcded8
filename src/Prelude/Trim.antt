-- ===== src/Prelude/Trim.antt =====
-- `trim`, `split_whitespace` and `lines` on texts that are put together.
use mathlib.Core.List.{
  reverse, reverse-cons, reverse-append, reverse-reverse, append-nil, append_assoc,
}
use mathlib.Core.Path.{subst}
use tsf_sync.Prelude.{ℕ, ◌≡◌, refl, true, false, [], ◌∷◌, ◌++◌, arith, ◌∙◌, ap, sym}
use tsf_sync.Prelude.Tests.{◌==◌}
use tsf_sync.Prelude.Lists.{All, All-append}
use tsf_sync.Prelude.Text.{Bytes}
use tsf_sync.Prelude.Strings.{
  is_whitespace, starts_with, trim_start, trim, words_from, close_word, lines_from, drop_cr, lines,
}

abbrev pub IsSolid : ℕ → Type 0
IsSolid c = is_whitespace c ≡ false

abbrev pub IsBlank : ℕ → Type 0
IsBlank c = is_whitespace c ≡ true

-- A word, written with its first character.
pub words_from-All :
    (w word rest : Bytes)
    → All IsSolid w
    → words_from word (w ++ rest) ≡ words_from (word ++ w) rest
unfolding words_from
words_from-All [] word rest h = rw append-nil
words_from-All (c ∷ w) word rest (solid, h) =
    ground (arith, words_from-All w (word ++ c ∷ []) rest h, append_assoc word (c ∷ []) w)

pub words_from_blank :
    (blank rest : Bytes) → All IsBlank blank → words_from [] (blank ++ rest) ≡ words_from [] rest
unfolding words_from close_word
words_from_blank [] rest h = refl
words_from_blank (c ∷ blank) rest (b, h) = ground (arith, words_from_blank blank rest h)

pub starts_with_lem : (p s : Bytes) → starts_with (p ++ s) p ≡ true
unfolding starts_with
starts_with_lem [] s = ground arith
starts_with_lem (c ∷ p) s = ground (arith, starts_with_lem p s)

trim_start_blank : (blank s : Bytes) → All IsBlank blank → trim_start (blank ++ s) ≡ trim_start s
unfolding trim_start
trim_start_blank [] s h = refl
trim_start_blank (c ∷ blank) s (b, h) = ground (arith, trim_start_blank blank s h)

-- No trimming where the first character is solid.
trim_start_solid : (s : Bytes) (c : ℕ) → IsSolid c → trim_start (c ∷ s) ≡ c ∷ s
unfolding trim_start
trim_start_solid s c h = ground arith

-- A text that ends with a word.
reverse-IsSolid :
    (w : Bytes) (c : ℕ)
    → All IsSolid (c ∷ w)
    → (d : ℕ) × (s : Bytes) × (reverse (c ∷ w) ≡ d ∷ s) × IsSolid d
reverse-IsSolid [] c (h, _) = (c, [], refl, h)
reverse-IsSolid (d ∷ w) c (h, g) =
    let (e, s, back, solid) = reverse-IsSolid w d g in
    (e, s ++ c ∷ [], reverse-cons c (d ∷ w) ∙ ap (λ (t : Bytes). t ++ c ∷ []) back, solid)

pub trim_lem :
    (blank head w : Bytes) (a c : ℕ)
    → All IsBlank blank
    → IsSolid a
    → All IsSolid (c ∷ w)
    → trim (blank ++ ((a ∷ head) ++ (c ∷ w))) ≡ (a ∷ head) ++ (c ∷ w)
unfolding trim
trim_lem blank head w a c b first last =
    let t : Bytes = (a ∷ head) ++ (c ∷ w) in
    let (d, s, back, solid) = reverse-IsSolid w c last in
    let front : trim_start (blank ++ t) ≡ t =
      trim_start_blank blank t b ∙ trim_start_solid (head ++ (c ∷ w)) a first in
    let turned : reverse t ≡ d ∷ (s ++ reverse (a ∷ head)) =
      reverse-append (a ∷ head) (c ∷ w) ∙ ap (λ (u : Bytes). u ++ reverse (a ∷ head)) back in
    ap (λ (u : Bytes). reverse (trim_start (reverse u))) front
    ∙ ap (λ (u : Bytes). reverse (trim_start u)) turned
    ∙ ap reverse (trim_start_solid (s ++ reverse (a ∷ head)) d solid)
    ∙ ap reverse (sym turned)
    ∙ reverse-reverse t

-- Characters that end no line.
abbrev pub IsPlain : ℕ → Type 0
IsPlain c = ((c == b'\n') ≡ false) × ((c == b'\r') ≡ false)

lines_from-All :
    (l line rest : Bytes)
    → All IsPlain l
    → lines_from line (l ++ b'\n' ∷ rest) ≡ drop_cr (line ++ l) ∷ lines_from [] rest
unfolding lines_from
lines_from-All [] line rest h = rw append-nil refl
lines_from-All (c ∷ l) line rest (h, g) =
    ground (arith, lines_from-All l (line ++ c ∷ []) rest g, append_assoc line (c ∷ []) l)

drop_cr-All : (l : Bytes) → All IsPlain l → drop_cr l ≡ l
unfolding drop_cr
drop_cr-All [] h = refl
drop_cr-All (c ∷ []) h = ground arith
drop_cr-All (c ∷ d ∷ l) (h, g) = ground (arith, drop_cr-All (d ∷ l) g)

pub lines-cons : (l rest : Bytes) → All IsPlain l → lines (l ++ b'\n' ∷ rest) ≡ l ∷ lines rest
unfolding lines
lines-cons l rest h =
    lines_from-All l [] rest h ∙ ap (λ (t : Bytes). t ∷ lines_from [] rest) (drop_cr-All l h)

All-reverse : (P : ℕ → Type 0) (s : Bytes) → All P s → All P (reverse s)
All-reverse P [] h = tt
All-reverse P (c ∷ s) (p, h) =
    subst (All P) (sym (reverse-cons c s))
      (All-append P (reverse s) (c ∷ []) (All-reverse P s h) (p, tt))

-- A word with blanks around it.
pub trim_around :
    (before w after : Bytes) (c : ℕ)
    → All IsBlank before
    → All IsSolid (c ∷ w)
    → All IsBlank after
    → trim (before ++ ((c ∷ w) ++ after)) ≡ c ∷ w
unfolding trim
trim_around before w after c b h a =
    let (d, s, back, solid) = reverse-IsSolid w c h in
    ap (λ (u : Bytes). reverse (trim_start (reverse u)))
      (trim_start_blank before ((c ∷ w) ++ after) b ∙ trim_start_solid (w ++ after) c h.0)
    ∙ ap (λ (u : Bytes). reverse (trim_start u)) (reverse-append (c ∷ w) after)
    ∙ ap reverse (trim_start_blank (reverse after) (reverse (c ∷ w)) (All-reverse IsBlank after a))
    ∙ ap (λ (u : Bytes). reverse (trim_start u)) back
    ∙ ap reverse (trim_start_solid s d solid)
    ∙ ap reverse (sym back)
    ∙ reverse-reverse (c ∷ w)
