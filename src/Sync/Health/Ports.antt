-- ===== src/Sync/Health/Ports.antt =====
-- src/health.rs, `parse_port_data_set`: what pmc prints of the ports, read back.
use mathlib.Core.List.{append_assoc, append-nil}
use tsf_sync.Prelude.{
  ℕ, ◌≡◌, refl, false, none, some, List, [], ◌∷◌, ◌++◌, arith, ◌∙◌, ap, sym, map,
}
use tsf_sync.Prelude.Lists.{All, All-append, All-map}
use tsf_sync.Prelude.Text.{Bytes, codes}
use tsf_sync.Prelude.Strings.{
  starts_with, trim, split_whitespace, words_from, close_word, lines, lines_from,
}
use tsf_sync.Prelude.Trim.{
  IsSolid, IsBlank, IsPlain, words_from-All, words_from_blank, trim_lem, lines-cons,
}
use tsf_sync.Sync.Health.{
  ClockStatus, Seen, nothing, last, last_word, note, emit, status_of, scan_lines,
  parse_port_data_set,
}
use tsf_sync.Sync.Health.States.{reported, status_of-reported}

abbrev pub IsWord : Bytes → Type 0
IsWord [] = ⊥
IsWord (c ∷ w) = All IsSolid (c ∷ w)

-- A line that says nothing of a port.
abbrev pub IsOther : Bytes → Type 0
IsOther l =
    All IsPlain l
    × (starts_with (trim l) (codes "portIdentity") ≡ false)
    × (starts_with (trim l) (codes "portState") ≡ false)

-- A name and a value, with blanks before and between.
abbrev pub field : Bytes → Bytes → Bytes → Bytes → Bytes
field indent gap name word = indent ++ ((name ++ gap) ++ word)

field_words :
    (name gap word : Bytes) (g : ℕ)
    → IsWord name
    → All IsBlank (g ∷ gap)
    → IsWord word
    → split_whitespace ((name ++ (g ∷ gap)) ++ word) ≡ name ∷ word ∷ []
unfolding split_whitespace words_from close_word
field_words [] gap word g n b w = elim n [ ]
field_words (a ∷ name) gap [] g n b w = elim w [ ]
field_words (a ∷ name) gap (c ∷ word) g n (b, bs) w =
    let tail : words_from [] (gap ++ (c ∷ word)) ≡ (c ∷ word) ∷ [] =
      words_from_blank gap (c ∷ word) bs
      ∙ ap (words_from []) (sym (append-nil (c ∷ word)))
      ∙ words_from-All (c ∷ word) [] [] w in
    let open_word : words_from (a ∷ name) (g ∷ (gap ++ (c ∷ word)))
        ≡ (a ∷ name) ∷ words_from [] (gap ++ (c ∷ word)) =
      ground (arith, b) in
    ap (words_from []) (append_assoc (a ∷ name) (g ∷ gap) (c ∷ word))
    ∙ words_from-All (a ∷ name) [] (g ∷ (gap ++ (c ∷ word))) n
    ∙ open_word
    ∙ ap (λ (ws : List Bytes). (a ∷ name) ∷ ws) tail

port-IsWord : IsWord (codes "portIdentity")
port-IsWord = (
  refl,
  (refl, (refl, (refl, (refl, (refl, (refl, (refl, (refl, (refl, (refl, (refl, tt))))))))))),
)

state-IsWord : IsWord (codes "portState")
state-IsWord = (refl, (refl, (refl, (refl, (refl, (refl, (refl, (refl, (refl, tt)))))))))

note-port :
    (indent gap word : Bytes) (g : ℕ) (seen : Seen)
    → All IsBlank indent
    → All IsBlank (g ∷ gap)
    → IsWord word
    → note (field indent (g ∷ gap) (codes "portIdentity") word) seen
      ≡ record seen { port = some word }
unfolding note starts_with
note-port indent gap [] g seen i b w = elim w [ ]
note-port indent gap (c ∷ word) g seen i b w =
    let l : Bytes = (codes "portIdentity" ++ (g ∷ gap)) ++ (c ∷ word) in
    let cut : trim (field indent (g ∷ gap) (codes "portIdentity") (c ∷ word)) ≡ l =
      trim_lem indent (codes "ortIdentity" ++ (g ∷ gap)) word b'p' c i refl w in
    let found : last_word l ≡ some (c ∷ word) =
      ap last (field_words (codes "portIdentity") gap (c ∷ word) g port-IsWord b w) in
    rw (cut, note) (rw found)

note-state :
    (indent gap word : Bytes) (g : ℕ) (seen : Seen)
    → All IsBlank indent
    → All IsBlank (g ∷ gap)
    → IsWord word
    → note (field indent (g ∷ gap) (codes "portState") word) seen
      ≡ record seen { state = some word }
unfolding note starts_with
note-state indent gap [] g seen i b w = elim w [ ]
note-state indent gap (c ∷ word) g seen i b w =
    let l : Bytes = (codes "portState" ++ (g ∷ gap)) ++ (c ∷ word) in
    let cut : trim (field indent (g ∷ gap) (codes "portState") (c ∷ word)) ≡ l =
      trim_lem indent (codes "ortState" ++ (g ∷ gap)) word b'p' c i refl w in
    let found : last_word l ≡ some (c ∷ word) =
      ap last (field_words (codes "portState") gap (c ∷ word) g state-IsWord b w) in
    rw (cut, note) (rw found)

note-other : (l : Bytes) (seen : Seen) → IsOther l → note l seen ≡ seen
unfolding note
note-other l seen (_, p, q) = ground arith

-- What pmc prints of a port: its identity and its state, each in a line of its own behind other lines.
pub record Report : Type 0 where
  pub before : List Bytes
  pub identity : Bytes
  pub between : List Bytes
  pub state : Bytes

-- Nothing is reported in lines that say nothing, as long as a state is missing.
scan_lines_other :
    (ls rest : List Bytes) (seen : Seen)
    → seen.state ≡ none
    → All IsOther ls
    → scan_lines (ls ++ rest) seen ≡ scan_lines rest seen
unfolding scan_lines emit
scan_lines_other [] rest seen e h = refl
scan_lines_other (l ∷ ls) rest seen e (o, h) =
    ground (arith, note-other l seen o, scan_lines_other ls rest seen e h)

scan_lines_port :
    (l : Bytes) (rest : List Bytes) (word : Bytes)
    → note l nothing ≡ record nothing { port = some word }
    → scan_lines (l ∷ rest) nothing ≡ scan_lines rest (record nothing { port = some word })
unfolding scan_lines emit
scan_lines_port l rest word h = ground arith

scan_lines_state :
    (l : Bytes) (rest : List Bytes) (port word : Bytes)
    → note l (record nothing { port = some port }) ≡ record { port = some port; state = some word }
    → scan_lines (l ∷ rest) (record nothing { port = some port })
      ≡ status_of port word ∷ scan_lines rest nothing
unfolding scan_lines emit
scan_lines_state l rest port word h = ground arith

-- The lines, each with its end.
abbrev pub unlines : List Bytes → Bytes
unlines [] = []
unlines (l ∷ ls) = l ++ (b'\n' ∷ unlines ls)

lines-unlines : (ls : List Bytes) → All (All IsPlain) ls → lines (unlines ls) ≡ ls
unfolding lines lines_from
lines-unlines [] h = refl
lines-unlines (l ∷ ls) (p, h) =
    lines-cons l (unlines ls) p ∙ ap (λ (t : List Bytes). l ∷ t) (lines-unlines ls h)

solid-IsPlain : (c : ℕ) → IsSolid c → IsPlain c
solid-IsPlain c h = (ground arith, ground arith)

word-IsPlain : (w : Bytes) → IsWord w → All IsPlain w
word-IsPlain [] h = absurd h
word-IsPlain (c ∷ w) h = All-map IsSolid IsPlain (c ∷ w) solid-IsPlain h

module _ (indent gap : Bytes) (g : ℕ) (blank : All IsBlank indent)
    (apart : All IsBlank (g ∷ gap)) where
  abbrev pub identity_line : Bytes → Bytes
  identity_line = field indent (g ∷ gap) (codes "portIdentity")

  abbrev pub state_line : Bytes → Bytes
  state_line = field indent (g ∷ gap) (codes "portState")

  abbrev pub report_lines : List Report → List Bytes → List Bytes
  report_lines [] rest = rest
  report_lines (r ∷ rs) rest =
      r.before
      ++ (identity_line r.identity ∷ (r.between ++ (state_line r.state ∷ report_lines rs rest)))

  abbrev pub IsReport : Report → Type 0
  IsReport r = All IsOther r.before × IsWord r.identity × All IsOther r.between × IsWord r.state

  scan_lines-report_lines :
      (rs : List Report) (rest : List Bytes)
      → All IsReport rs
      → All IsOther rest
      → scan_lines (report_lines rs rest) nothing ≡ map (λ r. status_of r.identity r.state) rs
  unfolding scan_lines
  scan_lines-report_lines [] rest h o =
      ap (λ (ls : List Bytes). scan_lines ls nothing) (sym (append-nil rest))
      ∙ scan_lines_other rest [] nothing refl o
  scan_lines-report_lines (r ∷ rs) rest ((b, i, m, s), h) o =
      let seen = record nothing { port = some r.identity } in
      let later = report_lines rs rest in
      let tail = state_line r.state ∷ later in
      scan_lines_other r.before (identity_line r.identity ∷ (r.between ++ tail)) nothing refl b
      ∙ scan_lines_port (identity_line r.identity) (r.between ++ tail) r.identity
          (note-port indent gap r.identity g nothing blank apart i)
      ∙ scan_lines_other r.between tail seen refl m
      ∙ scan_lines_state (state_line r.state) later r.identity r.state
          (note-state indent gap r.state g seen blank apart s)
      ∙ ap (λ (ss : List ClockStatus). status_of r.identity r.state ∷ ss)
          (scan_lines-report_lines rs rest h o)

  module _ (plain_indent : All IsPlain indent) (plain_gap : All IsPlain (g ∷ gap)) where
    field-IsPlain :
        (name word : Bytes)
        → IsWord name
        → IsWord word
        → All IsPlain (field indent (g ∷ gap) name word)
    field-IsPlain name word n w =
        All-append IsPlain indent ((name ++ (g ∷ gap)) ++ word) plain_indent (
          All-append IsPlain (name ++ (g ∷ gap)) word
            (All-append IsPlain name (g ∷ gap) (word-IsPlain name n) plain_gap)
            (word-IsPlain word w))

    others-IsPlain : (ls : List Bytes) → All IsOther ls → All (All IsPlain) ls
    others-IsPlain ls = All-map IsOther (All IsPlain) ls (λ l o. o.0)

    report_lines-IsPlain :
        (rs : List Report) (rest : List Bytes)
        → All IsReport rs
        → All IsOther rest
        → All (All IsPlain) (report_lines rs rest)
    report_lines-IsPlain [] rest h o = others-IsPlain rest o
    report_lines-IsPlain (r ∷ rs) rest ((b, i, m, s), h) o =
        All-append (All IsPlain) r.before _ (others-IsPlain r.before b) (
          field-IsPlain (codes "portIdentity") r.identity port-IsWord i,
          All-append (All IsPlain) r.between _ (others-IsPlain r.between m) (
            field-IsPlain (codes "portState") r.state state-IsWord s,
            report_lines-IsPlain rs rest h o,
          ),
        )

    reported_each :
        (rs : List Report)
        → map (λ r. status_of r.identity r.state) rs ≡ map (λ r. reported r.identity r.state) rs
    reported_each [] = refl
    reported_each (r ∷ rs) =
        ap (λ (s : ClockStatus). s ∷ map (λ r. status_of r.identity r.state) rs)
          (status_of-reported r.identity r.state)
        ∙ ap (λ (ss : List ClockStatus). reported r.identity r.state ∷ ss) (reported_each rs)

    -- Of a text in lines, in which the identity and the state of each port stand behind their names in
    -- lines of their own, indented and with blanks between, in this order and among lines that begin
    -- with neither name: the parse gives each port once, in order, with its state and its health, which
    -- is failed for DISABLED and FAULTY, healthy for MASTER and SLAVE, and converging for any other.
    pub parse_port_data_set-report_lines :
        (rs : List Report) (rest : List Bytes)
        → All IsReport rs
        → All IsOther rest
        → parse_port_data_set (unlines (report_lines rs rest))
          ≡ map (λ r. reported r.identity r.state) rs
    unfolding parse_port_data_set
    parse_port_data_set-report_lines rs rest h o =
        ap (λ (ls : List Bytes). scan_lines ls nothing)
          (lines-unlines (report_lines rs rest) (report_lines-IsPlain rs rest h o))
        ∙ scan_lines-report_lines rs rest h o
        ∙ reported_each rs
