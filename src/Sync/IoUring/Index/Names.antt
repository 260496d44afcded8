-- ===== src/Sync/IoUring/Index/Names.antt =====
-- src/iouring_sync.rs, `find_primary_index`: which card a name finds.
use tsf_sync.Prelude.{
  ℕ, zero, suc, ◌*◌, ◌/◌, ◌<◌, ◌≤◌, ◌≡◌, refl, true, none, some, Option, List, [], ◌∷◌, ◌++◌, min,
  arith,
}
use tsf_sync.Prelude.Tests.{if◌then◌else◌}
use tsf_sync.Prelude.Lists.{length, take, replicate, All}
use tsf_sync.Prelude.Text.{Bytes}
use tsf_sync.Prelude.Strings.{text_eq}
use tsf_sync.Sync.IoUring.{TsfSnapshot, decode_all, snapshot_size, max_cards}
use tsf_sync.Sync.IoUring.Index.{
  utf8_from, trim_zeros, snapshot_name, find_name, bytes_read, Found, found, not_found,
  find_primary_index,
}

abbrev pub IsAscii : ℕ → Type 0
IsAscii c = (1 ≤ c) × (c < 0x80)

-- A snapshot whose name is in ASCII, with zeros behind it up to the length that it gives.
pub record Named (s : TsfSnapshot) : Type 0 where
  pub name : Bytes
  pub zeros : ℕ
  pub ascii : All IsAscii name
  pub field : take (min s.phy_name_len 32) s.phy_name ≡ name ++ replicate zeros 0

utf8_from-zeros : (n : ℕ) → utf8_from 0 0x80 0xbf (replicate n 0) ≡ true
unfolding utf8_from
utf8_from-zeros zero = refl
utf8_from-zeros (suc n) = ground (arith, utf8_from-zeros n)

utf8_from-IsAscii :
    (name : Bytes) (n : ℕ) → All IsAscii name → utf8_from 0 0x80 0xbf (name ++ replicate n 0) ≡ true
unfolding utf8_from
utf8_from-IsAscii [] n h = utf8_from-zeros n
utf8_from-IsAscii (c ∷ name) n ((low, high), h) = ground (arith, utf8_from-IsAscii name n h)

trim_zeros-replicate : (n : ℕ) → trim_zeros (replicate n 0) ≡ []
unfolding trim_zeros
trim_zeros-replicate zero = refl
trim_zeros-replicate (suc n) = ground (arith, trim_zeros-replicate n)

trim_zeros-IsAscii :
    (name : Bytes) (n : ℕ) → All IsAscii name → trim_zeros (name ++ replicate n 0) ≡ name
unfolding trim_zeros
trim_zeros-IsAscii [] n h = trim_zeros-replicate n
trim_zeros-IsAscii (c ∷ []) n ((low, high), h) = ground (arith, trim_zeros-replicate n)
trim_zeros-IsAscii (c ∷ d ∷ name) n ((low, high), h) =
    ground (arith, trim_zeros-IsAscii (d ∷ name) n h)

snapshot_name-Named : (s : TsfSnapshot) (named : Named s) → snapshot_name s ≡ named.name
unfolding snapshot_name
snapshot_name-Named s named =
    rw (named.field, snapshot_name)
      (rw (utf8_from-IsAscii named.name named.zeros named.ascii)
        (trim_zeros-IsAscii named.name named.zeros named.ascii))

-- The names of the cards with their indices.
abbrev pub directory : (snaps : List TsfSnapshot) → All Named snaps → List (Bytes × ℕ)
directory [] h = []
directory (s ∷ snaps) (named, h) = (named.name, s.card_index) ∷ directory snaps h

-- The first card of that name.
abbrev pub look_up : Bytes → List (Bytes × ℕ) → Option ℕ
look_up name [] = none
look_up name ((n, i) ∷ rest) = if text_eq n name then some i else look_up name rest

abbrev pub answer : Bytes → Option ℕ → Found
answer name none = not_found name
answer name (some i) = found i

find_name-Named :
    (name : Bytes) (snaps : List TsfSnapshot) (h : All Named snaps)
    → find_name name snaps ≡ look_up name (directory snaps h)
unfolding find_name
find_name-Named name [] h = refl
find_name-Named name (s ∷ snaps) (named, h) =
    ground (arith, snapshot_name-Named s named, find_name-Named name snaps h)

-- Where the read gives whole snapshots of cards with names in ASCII, with zeros behind them or none:
-- the index is that of the first card of the name, and without one the error names it.
pub find_primary_index-Named :
    (name bytes : Bytes) (snaps : List TsfSnapshot) (named : All Named snaps)
    → length bytes ≡ snapshot_size * length snaps
    → decode_all
        (length snaps)
        (take (snapshot_size * max_cards) (bytes ++ replicate (snapshot_size * max_cards) 0))
      ≡ snaps
    → find_primary_index name (bytes_read bytes)
      ≡ answer name (look_up name (directory snaps named))
unfolding find_primary_index
find_primary_index-Named name bytes snaps named whole decoded =
    let count : length bytes / snapshot_size ≡ length snaps = ground (arith, whole) in
    rw (count, find_primary_index)
      (rw decoded (rw (find_name-Named name snaps named) (ground arith)))
