-- ===== src/Examples/Names.antt =====
-- Two cards by their names.
use tsf_sync.Prelude.{ℕ, ◌≡◌, refl, List, [], ◌∷◌, ◌++◌, arith}
use tsf_sync.Prelude.Lists.{All, take, replicate}
use tsf_sync.Prelude.Text.{Bytes, codes}
use tsf_sync.Prelude.Words.{to_le_bytes, from_le_bytes}
use tsf_sync.Prelude.Int.{pos, signed64}
use tsf_sync.Sync.IoUring.{TsfSnapshot, decode_all, decode_snapshot}
use tsf_sync.Sync.IoUring.Index.{bytes_read, found, find_primary_index}
use tsf_sync.Sync.IoUring.Index.Names.{Named, find_primary_index-Named}
use tsf_sync.Prelude.Strings.{text_eq}

abbrev card_bytes : ℕ → Bytes → Bytes
card_bytes index name =
    to_le_bytes 4 index
    ++ (to_le_bytes 4 5 ++ ((name ++ replicate 28 0) ++ (to_le_bytes 8 100 ++ to_le_bytes 8 0)))

abbrev two_cards : Bytes
two_cards = card_bytes 7 (codes "phy0") ++ card_bytes 9 (codes "phy1")

abbrev snapshot : ℕ → Bytes → TsfSnapshot
snapshot index name = record {
  card_index = index;
  phy_name_len = 5;
  phy_name = name ++ replicate 28 0;
  tsf_ns = pos 100;
  mono_ns = pos 0;
}

abbrev two_snapshots : List TsfSnapshot
two_snapshots = snapshot 7 (codes "phy0") ∷ snapshot 9 (codes "phy1") ∷ []

decodes_two : decode_all 2 (take 7168 (two_cards ++ replicate 7168 0)) ≡ two_snapshots
unfolding decode_all decode_snapshot signed64 from_le_bytes to_le_bytes
decodes_two = refl

-- The name of a phy of one digit, with one zero behind it.
abbrev names : All Named two_snapshots
names = (
  record {
    name = codes "phy0";
    zeros = 1;
    ascii = (
      (omega arith, omega arith),
      ((omega arith, omega arith), ((omega arith, omega arith), ((omega arith, omega arith), tt))),
    );
    field = refl;
  },
  (
    record {
      name = codes "phy1";
      zeros = 1;
      ascii = (
        (omega arith, omega arith),
        (
          (omega arith, omega arith),
          ((omega arith, omega arith), ((omega arith, omega arith), tt)),
        ),
      );
      field = refl;
    },
    tt,
  ),
)

find_primary_index-Named_example :
    find_primary_index (codes "phy1") (bytes_read two_cards) ≡ found 9
unfolding text_eq to_le_bytes
find_primary_index-Named_example =
    find_primary_index-Named (codes "phy1") two_cards two_snapshots names refl decodes_two
