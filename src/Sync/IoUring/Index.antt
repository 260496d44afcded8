-- ===== src/Sync/IoUring/Index.antt =====
-- src/iouring_sync.rs, `find_primary_index`: the index of the card with a name. Texts are UTF-8 here,
-- as the source compares them.
pub mod Names
use tsf_sync.Prelude.{
  ℕ, zero, suc, ◌*◌, ◌/◌, Bool, false, Option, none, some, List, [], ◌∷◌, ◌++◌, min,
}
use tsf_sync.Prelude.Tests.{ltb, ◌==◌, if◌then◌else◌}
use tsf_sync.Prelude.Lists.{length, take, replicate}
use tsf_sync.Prelude.Text.{Bytes}
use tsf_sync.Prelude.Strings.{text_eq, in_range}
use tsf_sync.Sync.IoUring.{TsfSnapshot, decode_all, snapshot_size, max_cards}

-- `str::from_utf8`: whether the bytes are UTF-8. `more` bytes of a character are missing, the next
-- of them between `lo` and `hi`.
unfoldable pub utf8_from : ℕ → ℕ → ℕ → Bytes → Bool
utf8_from more lo hi [] = more == 0
utf8_from (suc more) lo hi (c ∷ s) =
    let rest = utf8_from more 0x80 0xbf s in if in_range lo hi c then rest else false
utf8_from zero lo hi (c ∷ s) =
    let next = λ (n : ℕ) (l h : ℕ). utf8_from n l h s in
    if ltb c 0x80
    then next 0 0x80 0xbf
    else if in_range 0xc2 0xdf c
    then next 1 0x80 0xbf
    else if c == 0xe0
    then next 2 0xa0 0xbf
    else if c == 0xed
    then next 2 0x80 0x9f
    else if in_range 0xe1 0xef c
    then next 2 0x80 0xbf
    else if c == 0xf0
    then next 3 0x90 0xbf
    else if in_range 0xf1 0xf3 c
    then next 3 0x80 0xbf
    else if c == 0xf4
    then next 3 0x80 0x8f
    else false

-- `trim_end_matches('\0')`
unfoldable pub trim_zeros : Bytes → Bytes
trim_zeros [] = []
trim_zeros (c ∷ s) = elim (trim_zeros s) [ [] ↦ if c == 0 then [] else c ∷ [] | d ∷ t ↦ c ∷ d ∷ t ]

-- The name of a card, empty where it is not UTF-8.
unfoldable pub snapshot_name : TsfSnapshot → Bytes
snapshot_name s =
    let name = take (min s.phy_name_len 32) s.phy_name in
    if utf8_from 0 0x80 0xbf name then trim_zeros name else []

unfoldable pub find_name : Bytes → List TsfSnapshot → Option ℕ
find_name primary_phy [] = none
find_name primary_phy (s ∷ snaps) =
    if text_eq (snapshot_name s) primary_phy then some s.card_index else find_name primary_phy snaps

-- What opening and reading the device gives: an error number, or the bytes that were read.
pub data Device : Type 0 where
  failed : ℕ → Device
  bytes_read : Bytes → Device

pub data Found : Type 0 where
  found : ℕ → Found
  not_found : Bytes → Found
  io_error : ℕ → Found

unfoldable pub find_primary_index : Bytes → Device → Found
find_primary_index primary_phy (failed e) = io_error e
find_primary_index primary_phy (bytes_read bytes) =
    let size = snapshot_size * max_cards in
    elim (find_name primary_phy
      (decode_all (length bytes / snapshot_size) (take size (bytes ++ replicate size 0)))) [
        | none ↦ not_found primary_phy
        | some index ↦ found index
      ]
