-- ===== src/Sync/Discovery.antt =====
-- src/discovery.rs: the radios under a sysfs directory. The file system is the parameter `Sysfs`.
pub mod Cards
pub mod Order
use tsf_sync.Prelude.{
  ℕ, ◌≡◌, ◌<◌, refl, Bool, true, false, not, ◌&&◌, ◌||◌, Option, none, some, List, [], ◌∷◌, ◌++◌,
}
use tsf_sync.Prelude.Tests.{ltb, leb, ◌==◌, if◌then◌else◌}
use tsf_sync.Prelude.Text.{Bytes, codes}
use tsf_sync.Prelude.Strings.{text_eq, contains, starts_with, is_digit, parse_u64}

pub data PtpSource : Type 0 where
  native : PtpSource
  tsf_ptp : PtpSource
  no_source : PtpSource

pub record WifiCard : Type 0 where
  pub phy : Bytes
  pub driver : Bytes
  pub ptp_clock : Option Bytes
  pub ptp_source : PtpSource
  pub can_set_tsf : Bool

abbrev pub native_ptp_drivers : List Bytes
native_ptp_drivers = codes "iwlwifi" ∷ []

abbrev pub fullmac_drivers : List Bytes
fullmac_drivers = codes "brcmfmac" ∷ codes "mwifiex" ∷ codes "ath6kl" ∷ []

abbrev pub read_only_drivers : List Bytes
read_only_drivers = codes "rtl8xxxu" ∷ codes "wil6210" ∷ []

-- What `read_dir` gives: a list of names, each read or not, or an error.
pub data Dir : Type 0 where
  entries : List (Option Bytes) → Dir
  not_found : Dir
  failed : ℕ → Dir

pub record Sysfs : Type 0 where
  pub root : Dir
  pub device_dir : Bytes → Dir  -- `<phy>/device`
  pub phy_dir : Bytes → Dir  -- `<phy>`
  pub driver_link : Bytes → Option (Option Bytes)  -- the target's file name, of `<phy>/device/driver`

abbrev pub unknown : Bytes
unknown = codes "unknown"

-- `read_driver`: a link that cannot be read, or a target with no file name, is "unknown".
unfoldable pub read_driver : Sysfs → Bytes → Bytes
read_driver fs phy = elim (fs.driver_link phy) [
  | none ↦ unknown
  | some target ↦ elim target [ none ↦ unknown | some name ↦ name ]
]

-- The first readable entry that begins with "ptp".
unfoldable pub first_ptp : List (Option Bytes) → Option Bytes
first_ptp [] = none
first_ptp (none ∷ es) = first_ptp es
first_ptp (some name ∷ es) = if starts_with name (codes "ptp") then some name else first_ptp es

abbrev pub dir_ptp : Dir → Option Bytes
dir_ptp (entries es) = first_ptp es
dir_ptp _ = none

-- `find_ptp_clock`: the device directory first, then the one of the phy.
unfoldable pub find_ptp_clock : Sysfs → Bytes → Bytes → Option Bytes × PtpSource
find_ptp_clock fs phy driver =
    let source = if contains native_ptp_drivers driver then native else tsf_ptp in
    elim (dir_ptp (fs.device_dir phy)) [
      | some name ↦ (some (codes "/dev/" ++ name), source)
      | none ↦ elim (dir_ptp (fs.phy_dir phy)) [
        | some name ↦ (some (codes "/dev/" ++ name), source)
        | none ↦ (none, no_source)
      ]
    ]

-- The body of the loop in `discover_cards`.
unfoldable pub card_of : Sysfs → Bytes → WifiCard
card_of fs phy =
    let driver = read_driver fs phy in
    let (ptp_clock, ptp_source) = find_ptp_clock fs phy driver in
    record {
      phy = phy;
      driver = driver;
      ptp_clock = ptp_clock;
      ptp_source = ptp_source;
      can_set_tsf =
          not (contains fullmac_drivers driver) && not (contains read_only_drivers driver);
    }

-- The loop; an entry that cannot be read ends it with an error.
unfoldable pub collect : Sysfs → List (Option Bytes) → Option (List WifiCard)
collect fs [] = some []
collect fs (none ∷ es) = none
collect fs (some name ∷ es) =
    let rest = collect fs es in
    if starts_with name (codes "phy")
    then elim rest [ none ↦ none | some cards ↦ some (card_of fs name ∷ cards) ]
    else rest

-- `natural_sort_key`: the text before the first digit, and the number behind it, 0 if the rest is no
-- number of 64 bits.
unfoldable pub prefix_of : Bytes → Bytes
prefix_of [] = []
prefix_of (c ∷ s) = if is_digit c then [] else c ∷ prefix_of s

unfoldable pub digits_of : Bytes → Bytes
digits_of [] = []
digits_of (c ∷ s) = if is_digit c then c ∷ s else digits_of s

unfoldable pub natural_sort_key : Bytes → Bytes × ℕ
natural_sort_key s = (prefix_of s, elim (parse_u64 (digits_of s)) [ none ↦ 0 | some n ↦ n ])

-- The order of strings, and of keys: not above.
unfoldable pub text_le : Bytes → Bytes → Bool
text_le [] t = true
text_le (a ∷ s) [] = false
text_le (a ∷ s) (b ∷ t) = ltb a b || a == b && text_le s t

unfoldable pub key_le : Bytes × ℕ → Bytes × ℕ → Bool
key_le (s, n) (t, m) = text_le s t && (not (text_le t s) || leb n m)

-- `sort_by` is a stable sort; of the cards with one key the earlier stays in front.
unfoldable pub card_le : WifiCard → WifiCard → Bool
card_le a b = key_le (natural_sort_key a.phy) (natural_sort_key b.phy)

unfoldable pub insert : WifiCard → List WifiCard → List WifiCard
insert a [] = a ∷ []
insert a (b ∷ cards) = if card_le a b then a ∷ b ∷ cards else b ∷ insert a cards

unfoldable pub sort : List WifiCard → List WifiCard
sort [] = []
sort (a ∷ cards) = insert a (sort cards)

-- `discover_cards`; `none` is `DiscoveryError::Sysfs`.
unfoldable pub discover_cards : Sysfs → Option (List WifiCard)
discover_cards fs = elim (fs.root) [
  | not_found ↦ some []
  | failed e ↦ none
  | entries es ↦ elim (collect fs es) [ none ↦ none | some cards ↦ some (sort cards) ]
]
