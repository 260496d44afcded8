-- ===== src/Sync/Config/Sections.antt =====
-- src/config_gen.rs, `generate_config`: when it succeeds, and the sections of the text.
use tsf_sync.Prelude.{◌≤◌, ◌≡◌, inl, inr, refl, none, some, List, [], ◌∷◌, ◌++◌, arith}
use tsf_sync.Prelude.Tests.{if◌then◌else◌, Bool-cases}
use tsf_sync.Prelude.Lists.{length, All}
use tsf_sync.Prelude.Text.{Bytes, codes}
use tsf_sync.Prelude.Strings.{text_eq}
use tsf_sync.Sync.Discovery.{WifiCard}
use tsf_sync.Sync.Config.{
  Result, ok, select_primary, with_clock, header, secondaries, config_text, generate_config, line,
  global_section,
}
use tsf_sync.Sync.Config.Primary.{
  HasClock, with_clock-HasClock, Choice, named, missing, own_clock, fallback, select_primary-Choice,
}

-- The header of a card that has a clock.
abbrev pub header_text : Bytes → WifiCard → Bytes
header_text role c = elim (c.ptp_clock) [
  | none ↦ []
  | some path ↦
      line (codes "# " ++ role ++ codes ": " ++ c.phy ++ codes " (" ++ c.driver ++ codes ")")
      ++ line (codes "[" ++ path ++ codes "]")
]

header-HasClock :
    (role : Bytes) (c : WifiCard) → HasClock c → header role c ≡ some (header_text role c)
unfolding header
header-HasClock role c h = ground arith

-- The cards of other phys, in their order.
abbrev pub others : Bytes → List WifiCard → List WifiCard
others primary [] = []
others primary (c ∷ cs) = if text_eq c.phy primary then others primary cs else c ∷ others primary cs

-- An empty line and the header, for each card.
abbrev pub client_sections : List WifiCard → Bytes
client_sections [] = []
client_sections (c ∷ cs) = line [] ++ header_text (codes "Secondary") c ++ client_sections cs

secondaries-others :
    (primary : Bytes) (cards : List WifiCard)
    → All HasClock cards
    → secondaries primary cards ≡ some (client_sections (others primary cards))
unfolding secondaries
secondaries-others primary [] h = refl
secondaries-others primary (c ∷ cs) (h, hs) = elim (Bool-cases (text_eq c.phy primary)) [
  | inl e ↦ rw e (secondaries-others primary cs hs)
  | inr e ↦ rw (e, header-HasClock (codes "Secondary") c h) (rw (secondaries-others primary cs hs))
]

Choice-HasClock :
    (cards : List WifiCard) (selection : Bytes) {r : Result WifiCard} (c : WifiCard)
    → Choice cards selection r
    → r ≡ ok c
    → HasClock c
Choice-HasClock cards selection c (named d ne f clock) e = ground arith
Choice-HasClock cards selection c (missing ne f) e = cc
Choice-HasClock cards selection c (own_clock d a f clock) e = ground arith
Choice-HasClock cards selection c (fallback d a f front clock) e = ground arith

config_text-HasClock :
    (primary : WifiCard) (cards : List WifiCard)
    → HasClock primary
    → All HasClock cards
    → config_text primary cards
      ≡ some (
          global_section
          ++ header_text (codes "Primary") primary
          ++ line (codes "serverOnly              1")
          ++ client_sections (others primary.phy cards))
unfolding config_text
config_text-HasClock primary cards clock clocks =
    rw (header-HasClock (codes "Primary") primary clock, config_text)
      (rw (secondaries-others primary.phy cards clocks))

-- With two clocks or more, once the primary is chosen, the generator does not fail and does not
-- panic: it writes the global section, the primary's section with `serverOnly`, and then one section
-- for each card of another phy that has a clock, in the order of the cards, and nothing else.
pub generate_config-sections :
    (cards : List WifiCard) (selection : Bytes) (primary : WifiCard)
    → 2 ≤ length (with_clock cards)
    → select_primary (with_clock cards) selection ≡ ok primary
    → generate_config cards selection
      ≡ some (
          ok (
            global_section
            ++ header_text (codes "Primary") primary
            ++ line (codes "serverOnly              1")
            ++ client_sections (others primary.phy (with_clock cards))))
unfolding generate_config
generate_config-sections cards selection primary two chosen =
    let clocks = with_clock-HasClock cards in
    let clock =
      Choice-HasClock (with_clock cards) selection primary
        (select_primary-Choice (with_clock cards) selection clocks (omega arith)) chosen in
    ground (arith, config_text-HasClock primary (with_clock cards) clock clocks)
