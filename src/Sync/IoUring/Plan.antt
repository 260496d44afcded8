-- ===== src/Sync/IoUring/Plan.antt =====
-- src/iouring_sync.rs, `sync_once`: which cards are adjusted, and by how much.
use tsf_sync.Prelude.{
  ◌≤◌, ℕ, suc, ◌≡◌, ◌<◌, ◌+◌, ◌^◌, refl, ◌∙◌, Bool, not, List, [], ◌∷◌, ◌++◌, arith, ap, sym,
}
use mathlib.Core.List.{append-nil, append_assoc}
use tsf_sync.Prelude.Tests.{◌==◌, if◌then◌else◌}
use tsf_sync.Prelude.Lists.{length}
use tsf_sync.Prelude.Int.{
  ℤ, pos, negsuc, abs, ltb_ℤ, ◌-ℤ◌, ◌+ℤ◌, wrap64, wrap64-InI64, signed64, pattern64, InI64,
}
use tsf_sync.Sync.IoUring.{
  TsfSnapshot, TsfAdjustment, SyncStats, delta_of, abs64, visit, visit_all, no_stats,
}

-- The kernel adds an adjustment to the TSF of its card: the card is then exactly at the primary's,
-- whatever the two i64 are, also where the difference wraps around.
pub delta_of-lands :
    (primary_tsf : ℤ) (s : TsfSnapshot)
    → InI64 primary_tsf
    → InI64 (s.tsf_ns)
    → wrap64 (s.tsf_ns +ℤ delta_of primary_tsf s) ≡ primary_tsf
unfolding delta_of wrap64 ◌+ℤ◌ ◌-ℤ◌ signed64 pattern64
delta_of-lands (pos p) s hp hs = ground arith
delta_of-lands (negsuc p) s hp hs = ground arith

-- The size of a difference as an i64: 2 ^ 63 has none and wraps around.
abbrev pub size_of : ℤ → ℤ
size_of d = wrap64 (pos (abs d))

abs64-size_of : (d : ℤ) → InI64 d → abs64 d ≡ size_of d
unfolding abs64 wrap64 ◌-ℤ◌ signed64 pattern64
abs64-size_of (pos n) h = ground arith
abs64-size_of (negsuc n) h = ground arith

module _ (index : ℕ) (threshold_ns primary_tsf : ℤ) where
  -- From the card to the primary, in 64 bits.
  abbrev pub gap : TsfSnapshot → ℤ
  gap s = wrap64 (primary_tsf -ℤ s.tsf_ns)

  gap-delta_of : (s : TsfSnapshot) → delta_of primary_tsf s ≡ gap s
  unfolding delta_of
  gap-delta_of s = refl

  abs64-gap : (s : TsfSnapshot) → abs64 (delta_of primary_tsf s) ≡ size_of (gap s)
  abs64-gap s =
      ap abs64 (gap-delta_of s) ∙ abs64-size_of (gap s) (wrap64-InI64 (primary_tsf -ℤ s.tsf_ns))

  abbrev pub is_secondary : TsfSnapshot → Bool
  is_secondary s = not (s.card_index == index)

  -- A secondary whose offset is above the threshold.
  abbrev pub is_off : TsfSnapshot → Bool
  is_off s = ltb_ℤ threshold_ns (size_of (gap s))

  -- The adjustments of a cycle, and the number of secondaries that get none.
  abbrev pub planned : List TsfSnapshot → List TsfAdjustment
  planned [] = []
  planned (s ∷ snaps) =
      if is_secondary s
      then (if is_off s
          then record { card_index = s.card_index; delta_ns = gap s } ∷ planned snaps
          else planned snaps)
      else planned snaps

  abbrev pub spared : List TsfSnapshot → ℕ
  spared [] = 0
  spared (s ∷ snaps) =
      if is_secondary s
      then (if is_off s then spared snaps else suc (spared snaps))
      else spared snaps

  -- What a run of the loop adds to the statistics and the adjustments so far.
  record Visited (snaps : List TsfSnapshot) (before after : SyncStats × List TsfAdjustment)
      : Type 0 where
    adjs : after.1 ≡ before.1 ++ planned snaps
    applied : after.0.adjustments_applied ≡ before.0.adjustments_applied + length (planned snaps)
    skipped : after.0.adjustments_skipped ≡ before.0.adjustments_skipped + spared snaps
    cards : after.0.cards_read ≡ before.0.cards_read

  planned-cons :
      (s : TsfSnapshot) (snaps : List TsfSnapshot)
      → (planned (s ∷ snaps) ≡ planned (s ∷ []) ++ planned snaps)
        × (length (planned (s ∷ snaps)) ≡ length (planned (s ∷ [])) + length (planned snaps))
        × (spared (s ∷ snaps) ≡ spared (s ∷ []) + spared snaps)
        × (length (planned (s ∷ [])) + spared (s ∷ []) ≤ 1)
  planned-cons s snaps = (ground arith, ground arith, ground arith, ground arith)

  visit-Visited :
      (s : TsfSnapshot) (acc : SyncStats × List TsfAdjustment)
      → acc.0.adjustments_applied + 1 < 2 ^ 32
      → acc.0.adjustments_skipped + 1 < 2 ^ 32
      → Visited (s ∷ []) acc (visit index threshold_ns primary_tsf s acc)
  unfolding visit
  visit-Visited s acc ha hs =
      rw (abs64-gap s, gap-delta_of s, visit)
        (record {
          adjs = ground (arith, append-nil acc.1);
          applied = ground arith;
          skipped = ground arith;
          cards = ground arith;
        })

  visit_all-Visited :
      (snaps : List TsfSnapshot) (acc : SyncStats × List TsfAdjustment)
      → acc.0.adjustments_applied + length snaps < 2 ^ 32
      → acc.0.adjustments_skipped + length snaps < 2 ^ 32
      → Visited snaps acc (visit_all index threshold_ns primary_tsf snaps acc)
  unfolding visit_all
  visit_all-Visited [] acc ha hs = record {
    adjs = sym (append-nil acc.1);
    applied = omega arith;
    skipped = omega arith;
    cards = refl;
  }
  visit_all-Visited (s ∷ snaps) acc ha hs =
      let one = visit-Visited s acc (omega arith) (omega arith) in
      let (lists, counts, spares, few) = planned-cons s snaps in
      let rest =
        visit_all-Visited snaps (visit index threshold_ns primary_tsf s acc)
          (omega (arith, one.applied)) (omega (arith, one.skipped)) in
      record {
        adjs =
            rest.adjs
            ∙ ap (λ (t : List TsfAdjustment). t ++ planned snaps) one.adjs
            ∙ append_assoc acc.1 (planned (s ∷ [])) (planned snaps)
            ∙ ap (λ (t : List TsfAdjustment). acc.1 ++ t) (sym lists);
        applied = omega (arith, rest.applied, one.applied, counts);
        skipped = omega (arith, rest.skipped, one.skipped, spares);
        cards = rest.cards ∙ one.cards;
      }

  abbrev pub secondaries : List TsfSnapshot → ℕ
  secondaries [] = 0
  secondaries (s ∷ snaps) = if is_secondary s then suc (secondaries snaps) else secondaries snaps

  length-planned :
      (snaps : List TsfSnapshot) → length (planned snaps) + spared snaps ≡ secondaries snaps
  length-planned [] = refl
  length-planned (s ∷ snaps) = ground (arith, length-planned snaps)

  -- For fewer than 2 ^ 32 snapshots, from fresh statistics, the loop over them adjusts exactly the
  -- secondaries whose distance from the primary in 64 bits is above the threshold, each by the
  -- primary's TSF less its own and in order, and counts each secondary once, as applied or as
  -- skipped.
  pub visit_all-planned :
      (snaps : List TsfSnapshot) (n : ℕ)
      → length snaps < 2 ^ 32
      → let (stats, adjs) =
          visit_all index threshold_ns primary_tsf snaps (record no_stats { cards_read = n }, []) in
        (adjs ≡ planned snaps)
        × (stats.adjustments_applied ≡ length adjs)
        × (stats.adjustments_applied + stats.adjustments_skipped ≡ secondaries snaps)
        × (stats.cards_read ≡ n)
  visit_all-planned snaps n h =
      let v =
        visit_all-Visited snaps (record no_stats { cards_read = n }, []) (omega arith)
          (omega arith) in
      (
        v.adjs,
        omega (arith, v.applied, ap length v.adjs),
        omega (arith, v.applied, v.skipped, length-planned snaps),
        v.cards,
      )
