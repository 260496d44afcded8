-- ===== src/Examples/Settled.antt =====
-- Two cycles of the io_uring sync on a device that reports its three cards.
use tsf_sync.Prelude.{ℕ, suc, ◌≡◌, ◌*◌, ◌/◌, refl, List, [], ◌∷◌, ◌++◌, arith}
use tsf_sync.Prelude.Lists.{length}
use tsf_sync.Prelude.Text.{Bytes}
use tsf_sync.Prelude.Words.{to_le_bytes, from_le_bytes}
use tsf_sync.Prelude.Int.{pos, ◌+ℤ◌, ◌-ℤ◌, wrap64, signed64, pattern64}
use tsf_sync.Sync.IoUring.{
  TsfSnapshot, SyncStats, Ring, completed, ok, sync_once, decode_all, decode_snapshot, find_primary,
  adjustment_size, read_snapshots, write_adjustments, apply_plan, visit_all, visit, delta_of, abs64,
  encode_all, encode_adjustment,
}
use tsf_sync.Sync.IoUring.Wire.{read_adjustments}
use tsf_sync.Sync.IoUring.Device.{Device, adjust_all}
use tsf_sync.Sync.IoUring.Settled.{Gives, cycle, sync_once-again}
use tsf_sync.Examples.Device.{
  Cards, adjust_card, snapshot_bytes, tsf-adjust_card_other, tsf-adjust_card, writes_three,
  three_cards, shown,
}

abbrev live_bytes : Cards → Bytes
live_bytes st =
    snapshot_bytes 0 (pattern64 (st 0))
    ++ (snapshot_bytes 1 (pattern64 (st 1)) ++ snapshot_bytes 2 (pattern64 (st 2)))

abbrev live : Ring
live = record {
  St = Cards;
  read = λ size st. (completed (pos 168), live_bytes st, st);
  write = λ buf st. (
    completed (pos (length buf)),
    adjust_all adjust_card (read_adjustments (length buf / adjustment_size) buf) st,
  );
}

abbrev device : Device live (pos 5000)
device = record {
  tsf = λ i st. st i;
  adjust = adjust_card;
  tsf-adjust = λ a u v st hu hv at by above. tsf-adjust_card a u v st hu hv at by;
  tsf-adjust_ne = tsf-adjust_card_other;
}

abbrev at_first : List TsfSnapshot
at_first = shown 0 (pos 90000) ∷ shown 1 (pos 1000) ∷ shown 2 (pos 88000) ∷ []

abbrev at_next : List TsfSnapshot
at_next = shown 0 (pos 90000) ∷ shown 1 (pos 90000) ∷ shown 2 (pos 88000) ∷ []

abbrev settled : Cards
settled = (cycle device 0 three_cards).1

first_read : Gives device at_first three_cards three_cards
unfolding three_cards decode_all decode_snapshot pattern64 signed64 from_le_bytes to_le_bytes
first_read = record {
  bytes = live_bytes three_cards;
  reads = refl;
  decoded = refl;
  few = omega arith;
  shown = (
    (refl, (90, omega arith, refl), omega arith),
    (
      (refl, (1, omega arith, refl), omega arith),
      ((refl, (88, omega arith, refl), omega arith), tt),
    ),
  );
}

next_read : Gives device at_next settled settled
unfolding three_cards adjust_card sync_once read_snapshots write_adjustments apply_plan visit_all
    visit delta_of abs64 encode_all encode_adjustment decode_all decode_snapshot find_primary
    pattern64 signed64 from_le_bytes to_le_bytes wrap64 ◌-ℤ◌ ◌+ℤ◌
next_read = record {
  bytes = live_bytes settled;
  reads = refl;
  decoded = refl;
  few = omega arith;
  shown = (
    (refl, (90, omega arith, refl), omega arith),
    (
      (refl, (90, omega arith, refl), omega arith),
      ((refl, (88, omega arith, refl), omega arith), tt),
    ),
  );
}

writes_live :
    (buf : Bytes) (n : ℕ) (st : Cards)
    → length buf ≡ adjustment_size * suc n
    → live.write buf st
      ≡ (completed (pos (length buf)), adjust_all adjust_card (read_adjustments (suc n) buf) st)
writes_live = writes_three

sync_once-again_test :
    (stats : SyncStats) × (cycle device 0 settled ≡ (ok stats, settled))
    × (stats.adjustments_applied ≡ 0)
    × (stats.cards_read ≡ 3)
unfolding find_primary
sync_once-again_test =
    sync_once-again device 0 at_first at_next three_cards three_cards settled (pos 90000) refl
      writes_live ((ground arith, (ground arith, tt)), ((ground arith, tt), (tt, tt))) first_read
      refl refl (λ i. refl) next_read
