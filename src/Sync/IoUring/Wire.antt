-- ===== src/Sync/IoUring/Wire.antt =====
-- src/iouring_sync.rs, `read_snapshots` and `write_adjustments`, and the packed structs of
-- src/sync_mode.rs: the layout of the bytes.
use tsf_sync.Prelude.{ℕ, zero, suc, ◌≡◌, ◌<◌, ◌*◌, ◌^◌, refl, List, [], ◌∷◌, ◌++◌, arith, ap}
use mathlib.Core.List.{append_assoc}
use tsf_sync.Prelude.Lists.{length, All, take, drop, length-append}
use tsf_sync.Prelude.Text.{Bytes}
use tsf_sync.Prelude.Words.{
  to_le_bytes, from_le_bytes, from-to_le_bytes, length-to_le_bytes, take-append, drop-append,
}
use tsf_sync.Prelude.Int.{pattern64-lt, ℤ, pos, negsuc, signed64, pattern64, InI64}
use tsf_sync.Sync.IoUring.{TsfAdjustment, encode_adjustment, encode_all, adjustment_size}

signed64-pattern64 : (a : ℤ) → InI64 a → signed64 (pattern64 a) ≡ a
unfolding signed64 pattern64
signed64-pattern64 (pos n) h = ground arith
signed64-pattern64 (negsuc n) h = ground arith

-- `struct tsf_adjustment`, read by its layout: 4 bytes, then 8.
abbrev pub read_adjustment : Bytes → TsfAdjustment
read_adjustment buf = record {
  card_index = from_le_bytes (take 4 buf);
  delta_ns = signed64 (from_le_bytes (take 8 (drop 4 buf)));
}

abbrev pub read_adjustments : ℕ → Bytes → List TsfAdjustment
read_adjustments zero buf = []
read_adjustments (suc n) buf = read_adjustment buf ∷ read_adjustments n (drop adjustment_size buf)

abbrev pub IsWord : TsfAdjustment → Type 0
IsWord a = (a.card_index < 2 ^ 32) × InI64 (a.delta_ns)

length-encode_adjustment : (a : TsfAdjustment) → length (encode_adjustment a) ≡ adjustment_size
unfolding encode_adjustment
length-encode_adjustment a = omega (
  arith,
  length-append (to_le_bytes 4 a.card_index) (to_le_bytes 8 (pattern64 a.delta_ns)),
  length-to_le_bytes 4 a.card_index,
  length-to_le_bytes 8 (pattern64 a.delta_ns),
)

read-encode_adjustment :
    (a : TsfAdjustment) (rest : Bytes)
    → IsWord a
    → read_adjustment (encode_adjustment a ++ rest) ≡ a
unfolding encode_adjustment
read-encode_adjustment a rest (small, fits) =
    let index = to_le_bytes 4 a.card_index in
    let delta = to_le_bytes 8 (pattern64 a.delta_ns) in
    rw (
      append_assoc index delta rest,
      take-append 4 index (delta ++ rest) (length-to_le_bytes 4 a.card_index),
      drop-append 4 index (delta ++ rest) (length-to_le_bytes 4 a.card_index),
      take-append 8 delta rest (length-to_le_bytes 8 (pattern64 a.delta_ns)),
      from-to_le_bytes 4 a.card_index small,
      from-to_le_bytes 8 (pattern64 a.delta_ns) (pattern64-lt a.delta_ns),
      signed64-pattern64 a.delta_ns fits,
    )

-- The buffer of a write holds 12 bytes for each adjustment, and whoever reads it by the layout of
-- the struct gets the adjustments back, in their order.
pub read-encode_all :
    (adjs : List TsfAdjustment)
    → All IsWord adjs
    → (read_adjustments (length adjs) (encode_all adjs) ≡ adjs)
      × (length (encode_all adjs) ≡ adjustment_size * length adjs)
unfolding encode_all
read-encode_all [] h = (refl, refl)
read-encode_all (a ∷ adjs) (ha, hs) =
    let (rest, size) = read-encode_all adjs hs in
    (
      rw
          (
            read-encode_adjustment a (encode_all adjs) ha,
            drop-append adjustment_size (encode_adjustment a) (encode_all adjs)
                (length-encode_adjustment a),
          )
          (ap (λ (t : List TsfAdjustment). a ∷ t) rest),
      omega (
        arith,
        size,
        length-append (encode_adjustment a) (encode_all adjs),
        length-encode_adjustment a,
      ),
    )
