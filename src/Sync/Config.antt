-- ===== src/Sync/Config.antt =====
-- src/config_gen.rs: the choice of the primary card and the text of the ptp4l configuration.
pub mod Primary
pub mod Sections
use tsf_sync.Prelude.{
  ℕ, ◌≡◌, ◌<◌, refl, Bool, true, false, not, ◌&&◌, ◌||◌, Option, none, some, List, [], ◌∷◌, ◌++◌,
}
use tsf_sync.Prelude.Tests.{ltb, leb, ◌==◌, if◌then◌else◌}
use tsf_sync.Prelude.Lists.{length}
use tsf_sync.Prelude.Text.{Bytes, codes}
use tsf_sync.Prelude.Strings.{text_eq}
use tsf_sync.Sync.Discovery.{WifiCard, PtpSource, native, tsf_ptp, no_source}

pub data ConfigError : Type 0 where
  no_ptp_clocks : ConfigError
  primary_not_found : Bytes → ConfigError
  primary_no_ptp : Bytes → ConfigError
  no_primary : ConfigError
  only_one_clock : ConfigError

pub data Result {ℓ} (A : Type ℓ) : Type ℓ where
  ok : A → Result A
  err : ConfigError → Result A

abbrev pub auto : Bytes
auto = codes "auto"

abbrev pub is_some {ℓ} : {A : Type ℓ} → Option A → Bool
is_some none = false
is_some (some a) = true

-- `cards.iter().filter(|c| c.ptp_clock.is_some())`
unfoldable pub with_clock : List WifiCard → List WifiCard
with_clock [] = []
with_clock (c ∷ cs) = if is_some (c.ptp_clock) then c ∷ with_clock cs else with_clock cs

-- The first card that passes a test.
unfoldable pub find : (WifiCard → Bool) → List WifiCard → Option WifiCard
find p [] = none
find p (c ∷ cs) = if p c then some c else find p cs

abbrev pub is_native : WifiCard → Bool
is_native c = elim (c.ptp_source) [ native ↦ true | _ ↦ false ]

abbrev pub first : List WifiCard → Option WifiCard
first [] = none
first (c ∷ cs) = some c

unfoldable pub select_primary : List WifiCard → Bytes → Result WifiCard
select_primary ptp_cards selection =
    if not (text_eq selection auto)
    then elim (find (λ c. text_eq c.phy selection) ptp_cards) [
      | none ↦ err (primary_not_found selection)
      | some c ↦ if is_some (c.ptp_clock) then ok c else err (primary_no_ptp selection)
    ]
    else elim (find is_native ptp_cards) [
      | some c ↦ ok c
      | none ↦ elim (first ptp_cards) [ none ↦ err no_primary | some c ↦ ok c ]
    ]

-- `writeln!`
abbrev pub line : Bytes → Bytes
line s = s ++ b'\n' ∷ []

abbrev pub global_section : Bytes
global_section =
    line (codes "[global]")
    ++ line (codes "clockClass              248")
    ++ line (codes "priority1               128")
    ++ line (codes "priority2               128")
    ++ line (codes "domainNumber            42")
    ++ line []

-- `unwrap` of a clock; `none` is a panic.
unfoldable pub header : Bytes → WifiCard → Option Bytes
header role c = elim (c.ptp_clock) [
  | none ↦ none
  | some path ↦ some (
      line (codes "# " ++ role ++ codes ": " ++ c.phy ++ codes " (" ++ c.driver ++ codes ")")
      ++ line (codes "[" ++ path ++ codes "]"))
]

-- The sections of the other cards.
unfoldable pub secondaries : Bytes → List WifiCard → Option Bytes
secondaries primary [] = some []
secondaries primary (c ∷ cs) =
    let rest = secondaries primary cs in
    if text_eq c.phy primary then rest else elim (header (codes "Secondary") c) [
      | none ↦ none
      | some text ↦ elim rest [ none ↦ none | some texts ↦ some (line [] ++ text ++ texts) ]
    ]

-- The text behind the checks.
unfoldable pub config_text : WifiCard → List WifiCard → Option Bytes
config_text primary ptp_cards = elim (header (codes "Primary") primary) [
  | none ↦ none
  | some text ↦ elim (secondaries primary.phy ptp_cards) [
    | none ↦ none
    | some texts ↦
        some (global_section ++ text ++ line (codes "serverOnly              1") ++ texts)
  ]
]

-- `none` is a panic.
unfoldable pub generate_config : List WifiCard → Bytes → Option (Result Bytes)
generate_config cards selection =
    let ptp_cards = with_clock cards in
    if length ptp_cards == 0
    then some (err no_ptp_clocks)
    else if ltb (length ptp_cards) 2
    then some (err only_one_clock)
    else elim (select_primary ptp_cards selection) [
      | err e ↦ some (err e)
      | ok primary ↦ elim (config_text primary ptp_cards) [
        | none ↦ none
        | some text ↦ some (ok text)
      ]
    ]
