-- ===== src/Sync/IoUring.antt =====
-- src/iouring_sync.rs: a sync cycle over /dev/tsf_sync, and the two packed structs of
-- src/sync_mode.rs. The ring and the device are the parameter `Ring`.
pub mod Plan
pub mod Wire
pub mod Index
pub mod Device
pub mod Settled
pub mod Lasting
use tsf_sync.Prelude.{
  ◌≤◌, ℕ, zero, suc, ◌≡◌, ◌<◌, ◌*◌, ◌+◌, ◌%◌, ◌/◌, ◌^◌, ◌-◌, refl, Bool, true, false, not, Option,
  none, some, List, [], ◌∷◌, ◌++◌,
}
use mathlib.Core.List.{flat_map}
use tsf_sync.Prelude.Tests.{ltb, ◌==◌, if◌then◌else◌}
use tsf_sync.Prelude.Lists.{length, take, drop, replicate}
use tsf_sync.Prelude.Text.{Bytes}
use tsf_sync.Prelude.Words.{to_le_bytes, from_le_bytes}
use tsf_sync.Prelude.Int.{
  ℤ, pos, negsuc, pos_part, neg_part, ltb_ℤ, ◌-ℤ◌, wrap64, signed64, pattern64,
}

pub record TsfSnapshot : Type 0 where
  pub card_index : ℕ
  pub phy_name_len : ℕ
  pub phy_name : Bytes
  pub tsf_ns : ℤ
  pub mono_ns : ℤ

pub record TsfAdjustment : Type 0 where
  pub card_index : ℕ
  pub delta_ns : ℤ

abbrev pub snapshot_size : ℕ
snapshot_size = 56

abbrev pub adjustment_size : ℕ
adjustment_size = 12

abbrev pub max_cards : ℕ
max_cards = 128

-- `read_unaligned` of a `TsfSnapshot` at the start of a buffer.
unfoldable pub decode_snapshot : Bytes → TsfSnapshot
decode_snapshot buf = record {
  card_index = from_le_bytes (take 4 buf);
  phy_name_len = from_le_bytes (take 4 (drop 4 buf));
  phy_name = take 32 (drop 8 buf);
  tsf_ns = signed64 (from_le_bytes (take 8 (drop 40 buf)));
  mono_ns = signed64 (from_le_bytes (take 8 (drop 48 buf)));
}

-- The loop over the structs in the buffer.
unfoldable pub decode_all : ℕ → Bytes → List TsfSnapshot
decode_all zero buf = []
decode_all (suc count) buf = decode_snapshot buf ∷ decode_all count (drop snapshot_size buf)

-- `transmute_copy` of a `TsfAdjustment`.
unfoldable pub encode_adjustment : TsfAdjustment → Bytes
encode_adjustment a = to_le_bytes 4 a.card_index ++ to_le_bytes 8 (pattern64 a.delta_ns)

unfoldable pub encode_all : List TsfAdjustment → Bytes
encode_all [] = []
encode_all (a ∷ adjs) = encode_adjustment a ++ encode_all adjs

pub record SyncStats : Type 0 where
  pub cards_read : ℕ
  pub adjustments_applied : ℕ
  pub adjustments_skipped : ℕ
  pub max_offset_ns : ℤ

abbrev pub no_stats : SyncStats
no_stats = record {
  cards_read = 0;
  adjustments_applied = 0;
  adjustments_skipped = 0;
  max_offset_ns = pos 0;
}

-- `snapshots.iter().find(…)`, and the TSF of the card that is found.
unfoldable pub find_primary : ℕ → List TsfSnapshot → Option ℤ
find_primary index [] = none
find_primary index (s ∷ snaps) =
    if s.card_index == index then some (s.tsf_ns) else find_primary index snaps

-- `let delta` and `let abs_delta`
unfoldable pub delta_of : ℤ → TsfSnapshot → ℤ
unfolding wrap64 ◌-ℤ◌
delta_of primary_tsf s = wrap64 (primary_tsf -ℤ s.tsf_ns)

unfoldable pub abs64 : ℤ → ℤ
unfolding wrap64 ◌-ℤ◌
abs64 delta = if ltb_ℤ delta (pos 0) then wrap64 (pos 0 -ℤ delta) else delta

-- One round of the loop over the snapshots; the adjustments are pushed at the end.
unfoldable pub visit :
    ℕ → ℤ → ℤ → TsfSnapshot → SyncStats × List TsfAdjustment → SyncStats × List TsfAdjustment
visit index threshold_ns primary_tsf s (stats, adjs) =
    let delta = delta_of primary_tsf s in
    let abs_delta = abs64 delta in
    let largest = if ltb_ℤ stats.max_offset_ns abs_delta then abs_delta else stats.max_offset_ns in
    if s.card_index == index
    then (stats, adjs)
    else if ltb_ℤ threshold_ns abs_delta
    then (
      record stats {
        max_offset_ns = largest;
        adjustments_applied = (stats.adjustments_applied + 1) % 2 ^ 32;
      },
      adjs ++ record { card_index = s.card_index; delta_ns = delta } ∷ [],
    )
    else (
      record stats {
        max_offset_ns = largest;
        adjustments_skipped = (stats.adjustments_skipped + 1) % 2 ^ 32;
      },
      adjs,
    )

unfoldable pub visit_all :
    ℕ → ℤ → ℤ → List TsfSnapshot → SyncStats × List TsfAdjustment → SyncStats × List TsfAdjustment
visit_all index threshold_ns primary_tsf [] acc = acc
visit_all index threshold_ns primary_tsf (s ∷ snaps) acc =
    visit_all index threshold_ns primary_tsf snaps (visit index threshold_ns primary_tsf s acc)

pub data RingError : Type 0 where
  submission_full : RingError
  no_completion : RingError
  os : ℕ → RingError

-- What becomes of an operation put on the ring, waited for and taken off: an error on the way, or
-- the result of the completion.
pub data Completion : Type 0 where
  broken : RingError → Completion
  completed : ℤ → Completion

pub data Result {ℓ} (A : Type ℓ) : Type ℓ where
  ok : A → Result A
  err : RingError → Result A

pub record Ring : Type 1 where
  pub St : Type 0
  -- the bytes are those put at the start of the buffer
  pub read : ℕ → St → Completion × Bytes × St
  pub write : Bytes → St → Completion × St

pub record Syncer : Type 0 where
  pub primary_index : ℕ
  pub threshold_ns : ℤ

abbrev pub is_negative : ℤ → Bool
is_negative r = not (neg_part r == 0)

module _ (ring : Ring) where
  open ring use {St, read, write}

  unfoldable pub read_snapshots : St → Result (List TsfSnapshot) × St
  read_snapshots st =
      let size = snapshot_size * max_cards in
      let (c, bytes, st') = read size st in
      (
        elim c [
          | broken e ↦ err e
          | completed r ↦
              if is_negative r
              then err (os (neg_part r))
              else ok
                  (decode_all (pos_part r / snapshot_size) (take size (bytes ++ replicate size 0)))
        ],
        st',
      )

  unfoldable pub write_adjustments : List TsfAdjustment → St → Result (Unit {0}) × St
  write_adjustments adjs st =
      let (c, st') = write (encode_all adjs) st in
      (
        elim c [
          | broken e ↦ err e
          | completed r ↦ if is_negative r then err (os (neg_part r)) else ok tt
        ],
        st',
      )

  -- The part of the cycle behind the search for the primary.
  unfoldable pub apply_plan : SyncStats × List TsfAdjustment → St → Result SyncStats × St
  apply_plan (stats, []) st = (ok stats, st)
  apply_plan (stats, a ∷ adjs) st =
      let (w, st') = write_adjustments (a ∷ adjs) st in
      (elim w [ err e ↦ err e | ok _ ↦ ok stats ], st')

  unfoldable pub sync_once : Syncer → St → Result SyncStats × St
  sync_once syncer st =
      let (r, st1) = read_snapshots st in
      elim r [
        | err e ↦ (err e, st1)
        | ok snaps ↦
            let stats = record no_stats { cards_read = length snaps % 2 ^ 32 } in
            elim (find_primary syncer.primary_index snaps) [
              | none ↦ (ok stats, st1)
              | some primary_tsf ↦
                  apply_plan
                    (visit_all syncer.primary_index syncer.threshold_ns primary_tsf snaps
                      (stats, []))
                    st1
            ]
      ]

  -- `run`, over the values of `running` that its tests load: an error is logged and the loop goes on.
  unfoldable pub run : List Bool → Syncer → St → St
  run [] syncer st = st
  run (false ∷ loads) syncer st = st
  run (true ∷ loads) syncer st = run loads syncer (sync_once syncer st).1
