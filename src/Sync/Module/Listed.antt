-- ===== src/Sync/Module/Listed.antt =====
-- src/module_loader.rs, `is_module_loaded_from`: the names in the listing of /proc/modules.
use tsf_sync.Prelude.{ℕ, ◌≡◌, refl, ◌∙◌, ap, Bool, ◌||◌, List, [], ◌∷◌, ◌++◌, map, arith}
use tsf_sync.Prelude.Lists.{All, All-append, All-map}
use tsf_sync.Prelude.Text.{Bytes}
use tsf_sync.Prelude.Strings.{
  text_eq, contains, lines, split_whitespace, words_from, close_word, lines_from,
}
use tsf_sync.Prelude.Trim.{IsSolid, IsPlain, words_from-All, lines-cons}
use tsf_sync.Sync.Module.{normalized, names, any_line, is_module_loaded_from}

-- A line of the listing: a name, a space and the rest.
pub record Entry : Type 0 where
  pub name : Bytes
  pub rest : Bytes

abbrev pub IsName : Bytes → Type 0
IsName [] = ⊥
IsName (c ∷ w) = All IsSolid (c ∷ w)

abbrev pub IsEntry : Entry → Type 0
IsEntry e = IsName e.name × All IsPlain e.rest

abbrev pub listing : List Entry → Bytes
listing [] = []
listing (e ∷ es) = (e.name ++ b' ' ∷ e.rest) ++ b'\n' ∷ listing es

first_word :
    (name rest : Bytes)
    → IsName name
    → split_whitespace (name ++ b' ' ∷ rest) ≡ name ∷ split_whitespace rest
unfolding split_whitespace words_from close_word
first_word [] rest h = elim h [ ]
first_word (c ∷ w) rest h = words_from-All (c ∷ w) [] (b' ' ∷ rest) h

names-IsName :
    (modname name rest : Bytes)
    → IsName name
    → names modname (name ++ b' ' ∷ rest) ≡ text_eq name modname
names-IsName modname name rest h = rw (first_word name rest h, names) refl

solid-IsPlain : (c : ℕ) → IsSolid c → IsPlain c
solid-IsPlain c h = (ground arith, ground arith)

line-IsPlain :
    (name rest : Bytes) → IsName name → All IsPlain rest → All IsPlain (name ++ b' ' ∷ rest)
line-IsPlain [] rest h p = elim h [ ]
line-IsPlain (c ∷ w) rest h p =
    All-append IsPlain (c ∷ w) (b' ' ∷ rest) (All-map IsSolid IsPlain (c ∷ w) solid-IsPlain h)
      ((refl, refl), p)

any_line-listing :
    (modname : Bytes) (es : List Entry)
    → All IsEntry es
    → any_line modname (lines (listing es)) ≡ contains (map (λ (e : Entry). e.name) es) modname
unfolding any_line contains lines lines_from
any_line-listing modname [] h = refl
any_line-listing modname (e ∷ es) ((n, p), h) =
    let l : Bytes = e.name ++ b' ' ∷ e.rest in
    let cut : lines (l ++ b'\n' ∷ listing es) ≡ l ∷ lines (listing es) =
      lines-cons l (listing es) (line-IsPlain e.name e.rest n p) in
    ap (any_line modname) cut
    ∙ ap (λ (b : Bool). b || any_line modname (lines (listing es)))
        (names-IsName modname e.name e.rest n)
    ∙ ap (λ (b : Bool). text_eq e.name modname || b) (any_line-listing modname es h)

-- On a listing of lines that begin with a name and a space, a module is taken for loaded exactly if
-- its name, with the hyphens turned into underscores, is one of the names that begin
-- the lines.
pub is_module_loaded_from-contains :
    (modname : Bytes) (es : List Entry)
    → All IsEntry es
    → is_module_loaded_from (listing es) modname
      ≡ contains (map (λ (e : Entry). e.name) es) (normalized modname)
unfolding is_module_loaded_from
is_module_loaded_from-contains modname es h = any_line-listing (normalized modname) es h
