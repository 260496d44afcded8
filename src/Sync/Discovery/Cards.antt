-- ===== src/Sync/Discovery/Cards.antt =====
-- src/discovery.rs, `find_ptp_clock` and the body of the loop: what holds of every discovered card.
use tsf_sync.Prelude.{◌≡◌, ◌≢◌, ◌↔◌, true, false, Option, none, some, List, [], ◌∷◌, arith, sym}
use tsf_sync.Prelude.Text.{Bytes, codes}
use tsf_sync.Prelude.Strings.{contains, text_eq_sound, text_eq_iff, starts_with}
use tsf_sync.Sync.Discovery.{
  WifiCard, native, tsf_ptp, no_source, Sysfs, card_of, find_ptp_clock, read_driver, first_ptp,
  native_ptp_drivers, fullmac_drivers,
}

-- The fields of a card fit together.
-- The drivers without a TSF, and those whose TSF can be read only.
abbrev pub not_settable : List Bytes
not_settable =
    codes "ath6kl" ∷ codes "brcmfmac" ∷ codes "mwifiex" ∷ codes "rtl8xxxu" ∷ codes "wil6210" ∷ []

pub record IsConsistent (c : WifiCard) : Type 0 where
  pub clock_source : (c.ptp_clock ≡ none) ↔ (c.ptp_source ≡ no_source)
  pub native_driver : c.ptp_source ≡ native → c.driver ≡ codes "iwlwifi"
  pub module_driver : c.ptp_source ≡ tsf_ptp → c.driver ≢ codes "iwlwifi"
  pub settable : (c.can_set_tsf ≡ true) ↔ (contains not_settable c.driver ≡ false)

contains-native : (d : Bytes) → (contains native_ptp_drivers d ≡ true) ↔ (d ≡ codes "iwlwifi")
unfolding contains
contains-native d = (
  λ h. sym (text_eq_sound (codes "iwlwifi") d (ground arith)),
  λ e. ground (arith, (text_eq_iff (codes "iwlwifi") d).1 (sym e)),
)

pub not_settable-fullmac :
    (d : Bytes) → contains not_settable d ≡ false → contains fullmac_drivers d ≡ false
unfolding contains
not_settable-fullmac d h = ground arith

-- Every card that the loop makes is consistent: it has a clock exactly if it has a source of one, a
-- clock is the driver's own only if the driver is iwlwifi and of the module only if it is not, and the
-- TSF is taken to be settable exactly if the driver is none of ath6kl, brcmfmac, mwifiex, rtl8xxxu and
-- wil6210.
pub card_of-IsConsistent : (fs : Sysfs) (phy : Bytes) → IsConsistent (card_of fs phy)
unfolding card_of find_ptp_clock contains
card_of-IsConsistent fs phy = record {
  clock_source = (ground arith, ground arith);
  native_driver = λ h. (contains-native (read_driver fs phy)).0 (ground arith);
  module_driver = λ h e. ground (arith, (contains-native (read_driver fs phy)).1 e);
  settable = (ground arith, ground arith);
}

-- The name that is found begins with "ptp".
first_ptp-starts :
    (es : List (Option Bytes)) (name : Bytes)
    → first_ptp es ≡ some name
    → starts_with name (codes "ptp") ≡ true
unfolding first_ptp
first_ptp-starts [] name h = ground arith
first_ptp-starts (none ∷ es) name h = first_ptp-starts es name h
first_ptp-starts (some e ∷ es) name h = ground (arith, first_ptp-starts es name)
