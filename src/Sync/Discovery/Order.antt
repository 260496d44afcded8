-- ===== src/Sync/Discovery/Order.antt =====
-- src/discovery.rs, `discover_cards`: what the list of cards holds, and its order.
use tsf_sync.Prelude.{◌≡◌, ◌≢◌, true, Option, none, some, List, [], ◌∷◌}
use mathlib.Core.List.{Perm}
use mathlib.Core.List.Perm
use tsf_sync.Prelude.Tests.{if◌then◌else◌}
use tsf_sync.Prelude.Text.{Bytes, codes}
use tsf_sync.Prelude.Strings.{starts_with}
use tsf_sync.Sync.Discovery.{WifiCard, card_le}

-- No card stands behind one with a larger key.
abbrev pub IsSorted : List WifiCard → Type 0
IsSorted [] = Unit
IsSorted (a ∷ []) = Unit
IsSorted (a ∷ b ∷ cards) = (card_le a b ≡ true) × IsSorted (b ∷ cards)

abbrev Starts : WifiCard → List WifiCard → Type 0
Starts a [] = Unit
Starts a (b ∷ cards) = card_le a b ≡ true

-- The names of the entries that are phys, and the test that every entry could be read.
abbrev pub phys : List (Option Bytes) → List Bytes
phys [] = []
phys (none ∷ es) = phys es
phys (some name ∷ es) = if starts_with name (codes "phy") then name ∷ phys es else phys es

abbrev pub Readable : List (Option Bytes) → Type 0
Readable [] = Unit
Readable (e ∷ es) = (e ≢ none) × Readable es
