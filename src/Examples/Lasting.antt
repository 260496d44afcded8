-- ===== src/Examples/Lasting.antt =====
-- The loop of the io_uring sync on a device that reports its two cards as they stand.
use tsf_sync.Prelude.{
  ℕ, suc, ◌≡◌, ◌≢◌, ◌/◌, ◌%◌, ◌*◌, ◌+◌, ◌-◌, ◌^◌, ◌<◌, refl, ap, ◌∙◌, List, [], ◌∷◌, ◌++◌, arith,
}
use tsf_sync.Prelude.Tests.{◌==◌, if◌then◌else◌}
use tsf_sync.Prelude.Lists.{length, take, replicate}
use tsf_sync.Prelude.Text.{Bytes}
use tsf_sync.Prelude.Words.{to_le_bytes, from_le_bytes, from-to_le_bytes}
use tsf_sync.Prelude.Int.{ℤ, pos, pos_part, neg_part, sub_ℕ, signed64}
use tsf_sync.Sync.IoUring.{
  TsfSnapshot, TsfAdjustment, Ring, completed, decode_all, decode_snapshot, adjustment_size,
}
use tsf_sync.Sync.IoUring.Wire.{read_adjustments}
use tsf_sync.Sync.IoUring.Device.{Device, adjust_all}
use tsf_sync.Sync.IoUring.Lasting.{Standing}
use tsf_sync.Examples.Device.{snapshot_bytes, shown}

-- The TSF of each card, in microseconds.
abbrev pub Clocks : Type 0
Clocks = ℕ → ℕ

-- The microseconds whose nanoseconds an i64 holds.
abbrev pub limit : ℕ
limit = 9_223_372_036_854_776

abbrev pub nanos : ℕ → Clocks → ℕ
nanos i st = 1000 * (st i % limit)

abbrev pub clock : ℕ → Clocks → ℤ
clock i st = pos (nanos i st)

unfoldable pub adjust_clock : TsfAdjustment → Clocks → Clocks
adjust_clock a st i =
    if i == a.card_index
    then st i % limit + pos_part a.delta_ns / 1000 - neg_part a.delta_ns / 1000
    else st i

abbrev pub two_bytes : Clocks → Bytes
two_bytes st = snapshot_bytes 0 (nanos 0 st) ++ snapshot_bytes 1 (nanos 1 st)

abbrev pub two : Ring
two = record {
  St = Clocks;
  read = λ size st. (completed (pos 112), two_bytes st, st);
  write = λ buf st. (
    completed (pos (length buf)),
    adjust_all adjust_clock (read_adjustments (length buf / adjustment_size) buf) st,
  );
}

shifted :
    (x u v : ℕ) (d : ℤ)
    → 1000 * v < 2 ^ 63
    → 1000 * (x % limit) ≡ 1000 * u
    → d ≡ sub_ℕ (1000 * v) (1000 * u)
    → (x % limit + pos_part d / 1000 - neg_part d / 1000) % limit ≡ v
shifted x u v d hv at by = rw by (ground arith)

clock-adjust_clock :
    (a : TsfAdjustment) (u v : ℕ) (st : Clocks)
    → 1000 * u < 2 ^ 63
    → 1000 * v < 2 ^ 63
    → clock a.card_index st ≡ pos (1000 * u)
    → a.delta_ns ≡ sub_ℕ (1000 * v) (1000 * u)
    → clock a.card_index (adjust_clock a st) ≡ pos (1000 * v)
unfolding adjust_clock
clock-adjust_clock a u v st hu hv at by =
    let there = shifted (st a.card_index) u v a.delta_ns hv (ap pos_part at) by in
    ground (arith, there)

clock-adjust_clock_ne :
    (a : TsfAdjustment) (i : ℕ) (st : Clocks)
    → i ≢ a.card_index
    → clock i (adjust_clock a st) ≡ clock i st
unfolding adjust_clock
clock-adjust_clock_ne a i st other = ground arith

abbrev device : Device two (pos 5000)
device = record {
  tsf = clock;
  adjust = adjust_clock;
  tsf-adjust = λ a u v st hu hv at by above. clock-adjust_clock a u v st hu hv at by;
  tsf-adjust_ne = clock-adjust_clock_ne;
}

abbrev shots : Clocks → List TsfSnapshot
shots st = shown 0 (clock 0 st) ∷ shown 1 (clock 1 st) ∷ []

signed64_small : (n : ℕ) → n < 2 ^ 63 → signed64 n ≡ pos n
unfolding signed64
signed64_small n h = ground arith

nanos-lt : (i : ℕ) (st : Clocks) → nanos i st < 2 ^ 63
nanos-lt i st = omega arith

read_back : (n : ℕ) → n < 2 ^ 63 → signed64 (from_le_bytes (to_le_bytes 8 n)) ≡ pos n
read_back n h = ap signed64 (from-to_le_bytes 8 n (omega arith)) ∙ signed64_small n h

decodes_two_clocks :
    (st : Clocks) → decode_all 2 (take 7168 (two_bytes st ++ replicate 7168 0)) ≡ shots st
unfolding decode_all decode_snapshot from_le_bytes to_le_bytes signed64
decodes_two_clocks st =
    ap (λ (t : ℤ). shown 0 t ∷ shown 1 (signed64 (from_le_bytes (to_le_bytes 8 (nanos 1 st)))) ∷ [])
      (read_back (nanos 0 st) (nanos-lt 0 st))
    ∙ ap (λ (t : ℤ). shown 0 (clock 0 st) ∷ shown 1 t ∷ []) (read_back (nanos 1 st) (nanos-lt 1 st))

whole_writes :
    (buf : Bytes) (n : ℕ) (st : Clocks)
    → length buf ≡ adjustment_size * suc n
    → two.write buf st
      ≡ (completed (pos (length buf)), adjust_all adjust_clock (read_adjustments (suc n) buf) st)
whole_writes buf n st h =
    let whole : length buf / adjustment_size ≡ suc n = ground arith in
    ap (λ k. (completed (pos (length buf)), adjust_all adjust_clock (read_adjustments k buf) st))
      whole

abbrev standing : Standing device
standing = record {
  indices = 0 ∷ 1 ∷ [];
  shots = shots;
  behind = λ st. st;
  gives = λ st. record {
    bytes = two_bytes st;
    reads = refl;
    decoded = decodes_two_clocks st;
    few = omega arith;
    shown = (
      (refl, (st 0 % limit, omega arith, refl), omega arith),
      ((refl, (st 1 % limit, omega arith, refl), omega arith), tt),
    );
  };
  same = λ st. refl;
  still = λ i st. refl;
  writes = λ buf n st h. whole_writes buf n st h;
}

-- The second card is behind the first one, the primary.
abbrev pub apart_cards : Clocks
apart_cards i = if i == 0 then 90 else 1
