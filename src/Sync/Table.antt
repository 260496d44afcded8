-- ===== src/Sync/Table.antt =====
-- The tables of src/discovery.rs (`format_table`) and src/health.rs (`format_status_table`).
use tsf_sync.Prelude.{ℕ, ◌≡◌, ◌↔◌, true, not, Option, none, some, List, [], ◌∷◌, ◌++◌, arith}
use tsf_sync.Prelude.Tests.{if◌then◌else◌}
use tsf_sync.Prelude.Text.{Bytes, codes}
use tsf_sync.Prelude.Strings.{contains, pad, show_ℤ}
use tsf_sync.Prelude.Int.{ℤ}
use tsf_sync.Sync.Discovery.{WifiCard, native, tsf_ptp, no_source, fullmac_drivers}
use tsf_sync.Sync.Discovery.Cards.{IsConsistent, not_settable-fullmac}
use tsf_sync.Sync.Health.{ClockStatus, health_text}
use tsf_sync.Sync.Daemon.{lacks_module}

-- What the table says of a card.
pub data CardStatus : Type 0 where
  has_native has_module unsupported read_only needs : CardStatus

unfoldable pub status_of : WifiCard → CardStatus
status_of c = elim (c.ptp_source) [
  | native ↦ has_native
  | tsf_ptp ↦ has_module
  | no_source ↦
      if contains fullmac_drivers c.driver
      then unsupported
      else if not c.can_set_tsf
      then read_only
      else needs
]

abbrev pub status_text : CardStatus → Bytes
status_text has_native = codes "native PTP"
status_text has_module = codes "tsf-ptp module"
status_text unsupported = codes "unsupported (FullMAC)"
status_text read_only = codes "read-only TSF"
status_text needs = codes "needs tsf-ptp module"

abbrev pub or_dash : Option Bytes → Bytes
or_dash none = codes "—"
or_dash (some s) = s

-- A line: padded fields, the last one as it is.
abbrev pub row : ℕ → ℕ → ℕ → Bytes → Bytes → Bytes → Bytes → Bytes
row i j k a b c d =
    pad i a ++ (b' ' ∷ (pad j b ++ (b' ' ∷ (pad k c ++ (b' ' ∷ (d ++ b'\n' ∷ []))))))

unfoldable pub card_rows : List WifiCard → Bytes
card_rows [] = []
card_rows (c ∷ cs) =
    row 10 18 14 c.phy c.driver (or_dash c.ptp_clock) (status_text (status_of c)) ++ card_rows cs

unfoldable pub format_table : List WifiCard → Bytes
unfolding card_rows
format_table cards =
    row 10 18 14 (codes "PHY") (codes "DRIVER") (codes "PTP CLOCK") (codes "STATUS")
    ++ card_rows cards

abbrev pub nanoseconds : Option ℤ → Bytes
nanoseconds none = codes "—"
nanoseconds (some n) = show_ℤ n ++ codes " ns"

-- A row of five fields. The health is shown by `write!`, so it takes no padding.
abbrev pub status_row : Bytes → Bytes → Bytes → Bytes → Bytes → Bytes
status_row a b c d e =
    pad 20 a
    ++ (b' ' ∷ (pad 14 b ++ (b' ' ∷ (c ++ (b' ' ∷ (pad 14 d ++ (b' ' ∷ (e ++ b'\n' ∷ []))))))))

unfoldable pub status_rows : List ClockStatus → Bytes
status_rows [] = []
status_rows (s ∷ ss) =
    status_row s.port s.port_state (health_text s.health) (nanoseconds s.offset_ns)
      (nanoseconds s.path_delay_ns)
    ++ status_rows ss

unfoldable pub format_status_table : List ClockStatus → Bytes
unfolding status_rows
format_status_table statuses =
    status_row (codes "PORT") (codes "STATE") (pad 12 (codes "HEALTH")) (codes "OFFSET")
      (codes "PATH DELAY")
    ++ status_rows statuses

-- Of a card whose fields fit together, the table says that it needs the module exactly if the start
-- of the stack would load the module for it.
pub status_of-needs :
    (c : WifiCard) → IsConsistent c → (status_of c ≡ needs) ↔ (lacks_module c ≡ true)
unfolding status_of
status_of-needs c fit =
    let known = not_settable-fullmac c.driver in
    (
      ground (arith, fit.clock_source, fit.settable, known),
      ground (arith, fit.clock_source, fit.settable, known),
    )
