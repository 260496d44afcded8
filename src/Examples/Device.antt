-- ===== src/Examples/Device.antt =====
-- A cycle of the io_uring sync on a device with three cards.
use tsf_sync.Prelude.{ℕ, suc, ◌≡◌, ◌≢◌, ◌/◌, ◌*◌, ◌^◌, ◌<◌, ◌∙◌, ap, List, [], ◌∷◌, ◌++◌, arith}
use tsf_sync.Prelude.Tests.{◌==◌, if◌then◌else◌}
use tsf_sync.Prelude.Lists.{length, replicate}
use tsf_sync.Prelude.Text.{Bytes, codes}
use tsf_sync.Prelude.Words.{to_le_bytes}
use tsf_sync.Prelude.Int.{ℤ, pos, ◌+ℤ◌, sub_ℕ, wrap64, wrap64_fits}
use tsf_sync.Sync.IoUring.{TsfSnapshot, TsfAdjustment, Ring, completed, adjustment_size}
use tsf_sync.Sync.IoUring.Wire.{read_adjustments}
use tsf_sync.Sync.IoUring.Device.{Device, adjust_all}

-- The TSF of each card.
abbrev pub Cards : Type 0
Cards = ℕ → ℤ

unfoldable pub adjust_card : TsfAdjustment → Cards → Cards
adjust_card a st i = if i == a.card_index then wrap64 (st i +ℤ a.delta_ns) else st i

abbrev pub snapshot_bytes : ℕ → ℕ → Bytes
snapshot_bytes index tsf =
    to_le_bytes 4 index
    ++ (to_le_bytes 4 4
        ++ ((codes "phy0" ++ replicate 28 0) ++ (to_le_bytes 8 tsf ++ to_le_bytes 8 0)))

abbrev pub three_bytes : Bytes
three_bytes = snapshot_bytes 0 90000 ++ (snapshot_bytes 1 1000 ++ snapshot_bytes 2 88000)

abbrev pub chardev : Ring
chardev = record {
  St = Cards;
  read = λ size st. (completed (pos 168), three_bytes, st);
  write = λ buf st. (
    completed (pos (length buf)),
    adjust_all adjust_card (read_adjustments (length buf / adjustment_size) buf) st,
  );
}

pub tsf-adjust_card_other :
    (a : TsfAdjustment) (i : ℕ) (st : Cards) → i ≢ a.card_index → adjust_card a st i ≡ st i
unfolding adjust_card
tsf-adjust_card_other a i st other = ground arith

pub up_to : (x y : ℕ) → pos x +ℤ sub_ℕ y x ≡ pos y
unfolding ◌+ℤ◌
up_to x y = ground arith

pub tsf-adjust_card :
    (a : TsfAdjustment) (u v : ℕ) (st : Cards)
    → 1000 * u < 2 ^ 63
    → 1000 * v < 2 ^ 63
    → st a.card_index ≡ pos (1000 * u)
    → a.delta_ns ≡ sub_ℕ (1000 * v) (1000 * u)
    → adjust_card a st a.card_index ≡ pos (1000 * v)
unfolding adjust_card
tsf-adjust_card a u v st hu hv at by =
    let here : adjust_card a st a.card_index ≡ wrap64 (st a.card_index +ℤ a.delta_ns) =
      ground arith in
    let there : pos (1000 * u) +ℤ sub_ℕ (1000 * v) (1000 * u) ≡ pos (1000 * v) =
      up_to (1000 * u) (1000 * v) in
    here
    ∙ ap (λ (x : ℤ). wrap64 (x +ℤ a.delta_ns)) at
    ∙ ap (λ (x : ℤ). wrap64 (pos (1000 * u) +ℤ x)) by
    ∙ ap wrap64 there
    ∙ wrap64_fits (pos (1000 * v)) (hv, omega arith)

abbrev device : Device chardev (pos 5000)
device = record {
  tsf = λ i st. st i;
  adjust = adjust_card;
  tsf-adjust = λ a u v st hu hv at by above. tsf-adjust_card a u v st hu hv at by;
  tsf-adjust_ne = tsf-adjust_card_other;
}

pub writes_three :
    (buf : Bytes) (n : ℕ) (st : Cards)
    → length buf ≡ adjustment_size * suc n
    → chardev.write buf st
      ≡ (completed (pos (length buf)), adjust_all adjust_card (read_adjustments (suc n) buf) st)
writes_three buf n st h =
    let whole : length buf / adjustment_size ≡ suc n = ground arith in
    ap (λ k. (completed (pos (length buf)), adjust_all adjust_card (read_adjustments k buf) st))
      whole

unfoldable pub three_cards : Cards
three_cards i = if i == 0 then pos 90000 else if i == 1 then pos 1000 else pos 88000

abbrev pub shown : ℕ → ℤ → TsfSnapshot
shown index tsf = record {
  card_index = index;
  phy_name_len = 4;
  phy_name = codes "phy0" ++ replicate 28 0;
  tsf_ns = tsf;
  mono_ns = pos 0;
}

abbrev three_snapshots : List TsfSnapshot
three_snapshots = shown 0 (pos 90000) ∷ shown 1 (pos 1000) ∷ shown 2 (pos 88000) ∷ []
