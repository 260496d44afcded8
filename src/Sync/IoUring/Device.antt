-- ===== src/Sync/IoUring/Device.antt =====
-- src/iouring_sync.rs, `sync_once`: a whole cycle on a device whose cards stand still but for the
-- adjustments.
use tsf_sync.Prelude.{
  ℕ, suc, ◌≡◌, ◌≢◌, ◌<◌, ◌≤◌, ◌*◌, ◌/◌, ◌%◌, ◌^◌, refl, ◌∙◌, ap, sym, ◌⊎◌, inl, inr, true, ◌&&◌,
  some, List, [], ◌∷◌, ◌++◌, arith,
}
use mathlib.Core.Path.{subst}
use tsf_sync.Prelude.Tests.{◌==◌, if◌then◌else◌, Bool-cases}
use tsf_sync.Prelude.Lists.{length, All, take, replicate}
use tsf_sync.Prelude.Text.{Bytes}
use tsf_sync.Prelude.Int.{ℤ, pos, ltb_ℤ, ◌-ℤ◌, wrap64, wrap64-InI64, wrap64_fits, sub_ℕ}
use tsf_sync.Sync.IoUring.{
  TsfSnapshot, TsfAdjustment, SyncStats, Ring, completed, ok, visit_all, no_stats, find_primary,
  decode_all, encode_all, snapshot_size, adjustment_size, max_cards, read_snapshots,
  write_adjustments, apply_plan, sync_once,
}
use tsf_sync.Sync.IoUring.Plan.{planned, is_secondary, is_off, gap, size_of, visit_all-planned}
use tsf_sync.Sync.IoUring.Wire.{read_adjustments, IsWord, read-encode_all}

-- A time in nanoseconds that is a whole number of microseconds: the kernel module gives the TSF, which
-- counts microseconds, times 1000.
abbrev pub IsMicros : ℤ → Type 0
IsMicros t = (u : ℕ) × (1000 * u < 2 ^ 63) × (t ≡ pos (1000 * u))

-- The device behind the ring, /dev/tsf_sync of kernel/tsf_ptp.c: a write adjusts the cards by the
-- structs in its buffer, one by one. An adjustment above the threshold is divided by 1000 and added to
-- the TSF of its card, so that a card that is u microseconds on and gets the difference to v is v
-- microseconds on; it changes no other card. Each card has an interface, and the TSFs do not run on
-- between the calls.
pub record Device (ring : Ring) (threshold_ns : ℤ) : Type 0 where
  pub tsf : ℕ → ring.St → ℤ
  pub adjust : TsfAdjustment → ring.St → ring.St
  pub tsf-adjust :
      (a : TsfAdjustment) (u v : ℕ) (st : ring.St)
      → 1000 * u < 2 ^ 63
      → 1000 * v < 2 ^ 63
      → tsf a.card_index st ≡ pos (1000 * u)
      → a.delta_ns ≡ sub_ℕ (1000 * v) (1000 * u)
      → ltb_ℤ threshold_ns (size_of a.delta_ns) ≡ true
      → tsf a.card_index (adjust a st) ≡ pos (1000 * v)
  pub tsf-adjust_ne :
      (a : TsfAdjustment) (i : ℕ) (st : ring.St) → i ≢ a.card_index → tsf i (adjust a st) ≡ tsf i st

difference : (x y : ℕ) → pos x -ℤ pos y ≡ sub_ℕ x y
unfolding ◌-ℤ◌
difference x y = ground arith

difference_fits : (x y : ℕ) → x < 2 ^ 63 → y < 2 ^ 63 → wrap64 (pos x -ℤ pos y) ≡ sub_ℕ x y
difference_fits x y hx hy =
    ap wrap64 (difference x y) ∙ wrap64_fits (sub_ℕ x y) (ground arith, ground arith)

abbrev pub adjust_all : {St : Type 0} → (TsfAdjustment → St → St) → List TsfAdjustment → St → St
adjust_all adjust [] st = st
adjust_all adjust (a ∷ adjs) st = adjust_all adjust adjs (adjust a st)

module _ {ring : Ring} {threshold_ns : ℤ} (dev : Device ring threshold_ns) where
  open dev use {tsf, adjust, tsf-adjust, tsf-adjust_ne}

  -- A write of whole structs, one at least, and its completion with the bytes that were taken.
  abbrev pub Writes : Type 0
  Writes =
      (buf : Bytes) (n : ℕ) (st : ring.St)
      → length buf ≡ adjustment_size * suc n
      → ring.write buf st
        ≡ (completed (pos (length buf)), adjust_all adjust (read_adjustments (suc n) buf) st)

  abbrev pub Apart : List TsfSnapshot → Type 0
  Apart [] = Unit
  Apart (s ∷ snaps) = All (λ t. s.card_index ≢ t.card_index) snaps × Apart snaps

  -- The snapshot is of the card as it stands.
  abbrev pub Shows : ring.St → TsfSnapshot → Type 0
  Shows st s = (tsf s.card_index st ≡ s.tsf_ns) × IsMicros (s.tsf_ns) × (s.card_index < 2 ^ 32)

  module _ (index : ℕ) (primary_tsf : ℤ) where
    -- Where a card is to stand after the cycle.
    abbrev pub target : TsfSnapshot → ℤ
    target s =
        if is_secondary index threshold_ns primary_tsf s && is_off index threshold_ns primary_tsf s
        then primary_tsf
        else s.tsf_ns

    abbrev pub Reached : ring.St → List TsfSnapshot → Type 0
    Reached st snaps = All (λ s. tsf s.card_index st ≡ target s) snaps

    abbrev adjustment : TsfSnapshot → TsfAdjustment
    adjustment s = record {
      card_index = s.card_index;
      delta_ns = gap index threshold_ns primary_tsf s;
    }

    planned-target :
        (s : TsfSnapshot) (snaps : List TsfSnapshot)
        → ((planned index threshold_ns primary_tsf (s ∷ snaps)
              ≡ adjustment s ∷ planned index threshold_ns primary_tsf snaps)
            × (target s ≡ primary_tsf)
            × (is_off index threshold_ns primary_tsf s ≡ true))
          ⊎ ((planned index threshold_ns primary_tsf (s ∷ snaps)
                ≡ planned index threshold_ns primary_tsf snaps)
              × (target s ≡ s.tsf_ns))
    planned-target s snaps =
        elim (Bool-cases (
          is_secondary index threshold_ns primary_tsf s
          && is_off index threshold_ns primary_tsf s)) [
            | inl on ↦ inl (ground arith, ground arith, ground arith)
            | inr off ↦ inr (ground arith, ground arith)
          ]

    planned-IsWord :
        (snaps : List TsfSnapshot) (st : ring.St)
        → All (Shows st) snaps
        → All IsWord (planned index threshold_ns primary_tsf snaps)
    planned-IsWord [] st h = tt
    planned-IsWord (s ∷ snaps) st ((_, _, small), h) =
        let rest = planned-IsWord snaps st h in
        elim (planned-target s snaps) [
          | inl (e, _, _) ↦ rw (e, All) ((small, wrap64-InI64 (primary_tsf -ℤ s.tsf_ns)), rest)
          | inr (e, _) ↦ rw (e, All) rest
        ]

    adjust_all_other :
        (i : ℕ) (snaps : List TsfSnapshot) (st : ring.St)
        → All (λ t. i ≢ t.card_index) snaps
        → tsf i (adjust_all adjust (planned index threshold_ns primary_tsf snaps) st) ≡ tsf i st
    adjust_all_other i [] st h = refl
    adjust_all_other i (s ∷ snaps) st (other, h) = elim (planned-target s snaps) [
      | inl (e, _, _) ↦
          rw (e, adjust_all)
            (adjust_all_other i snaps (adjust (adjustment s) st) h
              ∙ tsf-adjust_ne (adjustment s) i st other)
      | inr (e, _) ↦ rw (e, adjust_all) (adjust_all_other i snaps st h)
    ]

    shown_other :
        (s : TsfSnapshot) (snaps : List TsfSnapshot) (st : ring.St)
        → All (λ t. s.card_index ≢ t.card_index) snaps
        → All (Shows st) snaps
        → All (Shows (adjust (adjustment s) st)) snaps
    shown_other s [] st others h = tt
    shown_other s (t ∷ snaps) st (other, others) ((e, fits, small), h) = (
      (tsf-adjust_ne (adjustment s) t.card_index st (λ same. other (sym same)) ∙ e, fits, small),
      shown_other s snaps st others h,
    )

    adjust_all-target :
        (snaps : List TsfSnapshot) (st : ring.St)
        → IsMicros primary_tsf
        → Apart snaps
        → All (Shows st) snaps
        → Reached (adjust_all adjust (planned index threshold_ns primary_tsf snaps) st) snaps
    adjust_all-target [] st hp apart h = tt
    adjust_all-target (s ∷ snaps) st (v, hv, pe) (others, apart) ((e, (u, hu, ue), _), h) =
        elim (planned-target s snaps) [
          | inl (p, aim, off) ↦
              let st' = adjust (adjustment s) st in
              let moved : tsf s.card_index st' ≡ primary_tsf =
                tsf-adjust (adjustment s) u v st hu hv (e ∙ ue)
                  (ap (λ (x : ℤ). wrap64 (x -ℤ s.tsf_ns)) pe
                    ∙ ap (λ (x : ℤ). wrap64 (pos (1000 * v) -ℤ x)) ue
                    ∙ difference_fits (1000 * v) (1000 * u) hv hu)
                  off
                ∙ sym pe in
              subst (λ adjs. Reached (adjust_all adjust adjs st) (s ∷ snaps)) (sym p)
                (
                  adjust_all_other s.card_index snaps st' others ∙ moved ∙ sym aim,
                  adjust_all-target snaps st' (v, hv, pe) apart (shown_other s snaps st others h),
                )
          | inr (p, aim) ↦
              subst (λ adjs. Reached (adjust_all adjust adjs st) (s ∷ snaps)) (sym p)
                (
                  adjust_all_other s.card_index snaps st others ∙ e ∙ sym aim,
                  adjust_all-target snaps st (v, hv, pe) apart h,
                )
        ]

  pub read_snapshots-decode_all :
      (snaps : List TsfSnapshot) (bytes : Bytes) (st st1 : ring.St)
      → ring.read (snapshot_size * max_cards) st
        ≡ (completed (pos (snapshot_size * length snaps)), bytes, st1)
      → decode_all
          (length snaps)
          (take (snapshot_size * max_cards) (bytes ++ replicate (snapshot_size * max_cards) 0))
        ≡ snaps
      → read_snapshots ring st ≡ (ok snaps, st1)
  unfolding read_snapshots
  read_snapshots-decode_all snaps bytes st st1 h d =
      let whole : snapshot_size * length snaps / snapshot_size ≡ length snaps = ground arith in
      rw (h, read_snapshots) (rw (whole, read_snapshots) (rw (h, read_snapshots) (rw d)))

  apply_plan-adjust_all :
      (stats : SyncStats) (adjs : List TsfAdjustment) (st : ring.St)
      → Writes
      → All IsWord adjs
      → apply_plan ring (stats, adjs) st ≡ (ok stats, adjust_all adjust adjs st)
  unfolding apply_plan write_adjustments
  apply_plan-adjust_all stats [] st writes h = refl
  apply_plan-adjust_all stats (a ∷ adjs) st writes h =
      let (back, size) = read-encode_all (a ∷ adjs) h in
      rw (writes (encode_all (a ∷ adjs)) (length adjs) st (omega (arith, size)), apply_plan)
        (rw (back, apply_plan) refl)

  find_primary-IsMicros :
      (index : ℕ) (snaps : List TsfSnapshot) (st : ring.St) (primary_tsf : ℤ)
      → All (Shows st) snaps
      → find_primary index snaps ≡ some primary_tsf
      → IsMicros primary_tsf
  unfolding find_primary
  find_primary-IsMicros index [] st primary_tsf h found = absurd (ground arith)
  find_primary-IsMicros index (s ∷ snaps) st primary_tsf ((_, fits, _), h) found =
      elim (Bool-cases (s.card_index == index)) [
        | inl here ↦ subst IsMicros (ground arith) fits
        | inr other ↦ find_primary-IsMicros index snaps st primary_tsf h (ground arith)
      ]

  pub sync_once-Reached :
      (index : ℕ) (snaps : List TsfSnapshot) (bytes : Bytes) (st st1 : ring.St) (primary_tsf : ℤ)
      → Writes
      → ring.read (snapshot_size * max_cards) st
        ≡ (completed (pos (snapshot_size * length snaps)), bytes, st1)
      → decode_all
          (length snaps)
          (take (snapshot_size * max_cards) (bytes ++ replicate (snapshot_size * max_cards) 0))
        ≡ snaps
      → length snaps ≤ max_cards
      → Apart snaps
      → All (Shows st1) snaps
      → find_primary index snaps ≡ some primary_tsf
      → (stats : SyncStats) × (st2 : ring.St) × (sync_once ring
            (record { primary_index = index; threshold_ns = threshold_ns })
            st
          ≡ (ok stats, st2))
        × (stats.cards_read ≡ length snaps)
        × Reached index primary_tsf st2 snaps
  unfolding sync_once
  sync_once-Reached index snaps bytes st st1 primary_tsf writes reads decoded few apart shown
        found =
      let read = read_snapshots-decode_all snaps bytes st st1 reads decoded in
      let visited =
        visit_all index threshold_ns primary_tsf snaps
          (record no_stats { cards_read = length snaps % 2 ^ 32 }, []) in
      let (adjs, _, _, cards) =
        visit_all-planned index threshold_ns primary_tsf snaps (length snaps % 2 ^ 32)
          (omega arith) in
      let fits : IsMicros primary_tsf =
        find_primary-IsMicros index snaps st1 primary_tsf shown found in
      let st2 = adjust_all adjust (planned index threshold_ns primary_tsf snaps) st1 in
      let planned_run : apply_plan ring visited st1 ≡ (ok visited.0, st2) =
        subst (λ xs. apply_plan ring (visited.0, xs) st1 ≡ (ok visited.0, st2)) (sym adjs)
          (apply_plan-adjust_all visited.0 (planned index threshold_ns primary_tsf snaps) st1 writes
            (planned-IsWord index primary_tsf snaps st1 shown)) in
      (
        visited.0,
        st2,
        rw (read, sync_once) (rw (found, sync_once) (rw read planned_run)),
        omega (arith, cards),
        adjust_all-target index primary_tsf snaps st1 fits apart shown,
      )
