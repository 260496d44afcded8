-- ===== src/Sync/IoUring/Settled.antt =====
-- src/iouring_sync.rs, `sync_once`: the cycle behind a cycle.
use tsf_sync.Prelude.{
  ℕ, ◌≡◌, ◌≤◌, ◌*◌, ◌^◌, ◌%◌, refl, ◌∙◌, sym, ap, inl, inr, true, false, some, List, [], ◌∷◌, ◌++◌,
  arith, map,
}
use mathlib.Core.Path.{subst}
use tsf_sync.Prelude.Tests.{◌==◌, Bool-cases}
use tsf_sync.Prelude.Lists.{length, All, take, replicate}
use tsf_sync.Prelude.Text.{Bytes}
use tsf_sync.Prelude.Int.{ℤ, pos, negsuc, ltb_ℤ, ◌-ℤ◌, ◌+ℤ◌, wrap64, signed64, pattern64}
use tsf_sync.Sync.IoUring.{
  TsfSnapshot, SyncStats, Ring, Result, completed, ok, visit_all, no_stats, find_primary,
  decode_all, snapshot_size, max_cards, apply_plan, sync_once,
}
use tsf_sync.Sync.IoUring.Plan.{planned, is_secondary, is_off, size_of, visit_all-planned}
use tsf_sync.Sync.IoUring.Device.{
  Device, Writes, Apart, Shows, Reached, target, sync_once-Reached, read_snapshots-decode_all,
}

no_offset : (p : ℤ) → size_of (wrap64 (p -ℤ p)) ≡ pos 0
unfolding wrap64 ◌+ℤ◌ ◌-ℤ◌ signed64 pattern64
no_offset (pos p) = ground arith
no_offset (negsuc p) = ground arith

module _ {ring : Ring} {threshold_ns : ℤ} (dev : Device ring threshold_ns) (index : ℕ)
    (primary_tsf : ℤ) where
  open dev use {tsf}

  -- A later snapshot of the card of `s`, which stands at its target.
  abbrev pub Follows : TsfSnapshot → TsfSnapshot → Type 0
  Follows s t = (t.card_index ≡ s.card_index) × (t.tsf_ns ≡ target dev index primary_tsf s)

  is_off-Follows :
      (s t : TsfSnapshot)
      → ltb_ℤ threshold_ns (pos 0) ≡ false
      → Follows s t
      → is_secondary index threshold_ns primary_tsf t ≡ true
      → is_off index threshold_ns primary_tsf t ≡ false
  is_off-Follows s t low (same, at) secondary =
      elim (Bool-cases (is_off index threshold_ns primary_tsf s)) [
        | inl off ↦
            let here : t.tsf_ns ≡ primary_tsf = ground arith in
            ap (λ (x : ℤ). ltb_ℤ threshold_ns (size_of (wrap64 (primary_tsf -ℤ x)))) here
            ∙ ap (λ (x : ℤ). ltb_ℤ threshold_ns x) (no_offset primary_tsf)
            ∙ low
        | inr close ↦
            let here : t.tsf_ns ≡ s.tsf_ns = ground arith in
            ap (λ (x : ℤ). ltb_ℤ threshold_ns (size_of (wrap64 (primary_tsf -ℤ x)))) here ∙ close
      ]

  planned-Follows :
      (s t : TsfSnapshot) (again : List TsfSnapshot)
      → ltb_ℤ threshold_ns (pos 0) ≡ false
      → Follows s t
      → planned index threshold_ns primary_tsf (t ∷ again)
        ≡ planned index threshold_ns primary_tsf again
  planned-Follows s t again low h =
      elim (Bool-cases (is_secondary index threshold_ns primary_tsf t)) [
        | inl e ↦ ground (arith, is_off-Follows s t low h e)
        | inr e ↦ ground arith
      ]

  -- The same cards once more, in the same order, each as it was left.
  abbrev pub AllFollow : List TsfSnapshot → List TsfSnapshot → Type 0
  AllFollow [] again = again ≡ []
  AllFollow (s ∷ snaps) again =
      (t : TsfSnapshot) × (rest : List TsfSnapshot) × (again ≡ t ∷ rest)
      × Follows s t
      × AllFollow snaps rest

  pub planned-AllFollow :
      (snaps again : List TsfSnapshot)
      → ltb_ℤ threshold_ns (pos 0) ≡ false
      → AllFollow snaps again
      → planned index threshold_ns primary_tsf again ≡ []
  planned-AllFollow [] again low h = ap (planned index threshold_ns primary_tsf) h
  planned-AllFollow (s ∷ snaps) again low (t, rest, e, f, h) =
      ap (planned index threshold_ns primary_tsf) e
      ∙ planned-Follows s t rest low f
      ∙ planned-AllFollow snaps rest low h

  pub find_primary-AllFollow :
      (snaps again : List TsfSnapshot)
      → AllFollow snaps again
      → find_primary index snaps ≡ some primary_tsf
      → find_primary index again ≡ some primary_tsf
  unfolding find_primary
  find_primary-AllFollow [] again h found = absurd (ground arith)
  find_primary-AllFollow (s ∷ snaps) again (t, rest, e, (same, at), h) found =
      ap (find_primary index) e ∙ elim (Bool-cases (s.card_index == index)) [
        | inl here ↦ ground arith
        | inr other ↦ ground (arith, find_primary-AllFollow snaps rest h)
      ]

  pub Reached-AllFollow :
      (snaps again : List TsfSnapshot) (st2 st3 : ring.St)
      → Reached dev index primary_tsf st2 snaps
      → ((i : ℕ) → tsf i st3 ≡ tsf i st2)
      → map (λ (s : TsfSnapshot). s.card_index) again
        ≡ map (λ (s : TsfSnapshot). s.card_index) snaps
      → All (Shows dev st3) again
      → AllFollow snaps again
  Reached-AllFollow [] [] st2 st3 h still same shown = refl
  Reached-AllFollow [] (t ∷ again) st2 st3 h still same shown = ground arith
  Reached-AllFollow (s ∷ snaps) [] st2 st3 h still same shown = absurd (ground arith)
  Reached-AllFollow (s ∷ snaps) (t ∷ again) st2 st3 (at, h) still same ((e, _, _), shown) =
      let one : t.card_index ≡ s.card_index = ground arith in
      (
        t,
        again,
        refl,
        (one, sym e ∙ still t.card_index ∙ ap (λ i. tsf i st2) one ∙ at),
        Reached-AllFollow snaps again st2 st3 h still (ground arith) shown,
      )

module _ {ring : Ring} {threshold_ns : ℤ} (dev : Device ring threshold_ns) where
  open dev use {tsf}

  -- A read that gives whole snapshots of at most 128 cards, as they stand in the state behind it.
  pub record Gives (snaps : List TsfSnapshot) (st st' : ring.St) : Type 0 where
    pub bytes : Bytes
    pub reads :
        ring.read (snapshot_size * max_cards) st
        ≡ (completed (pos (snapshot_size * length snaps)), bytes, st')
    pub decoded :
        decode_all
          (length snaps)
          (take (snapshot_size * max_cards) (bytes ++ replicate (snapshot_size * max_cards) 0))
        ≡ snaps
    pub few : length snaps ≤ max_cards
    pub shown : All (Shows dev st') snaps

  abbrev pub cycle : ℕ → ring.St → Result SyncStats × ring.St
  cycle index = sync_once ring (record { primary_index = index; threshold_ns = threshold_ns })

  abbrev pub cards : List TsfSnapshot → List ℕ
  cards = map (λ (s : TsfSnapshot). s.card_index)

  -- A cycle on snapshots that plan nothing.
  pub cycle_idle :
      (index : ℕ) (again : List TsfSnapshot) (st2 st3 : ring.St) (primary_tsf : ℤ)
      → Gives again st2 st3
      → find_primary index again ≡ some primary_tsf
      → planned index threshold_ns primary_tsf again ≡ []
      → (stats : SyncStats) × (cycle index st2 ≡ (ok stats, st3))
        × (stats.adjustments_applied ≡ 0)
        × (stats.cards_read ≡ length again)
  unfolding sync_once apply_plan
  cycle_idle index again st2 st3 primary_tsf gives found idle =
      let read =
        read_snapshots-decode_all dev again gives.bytes st2 st3 gives.reads gives.decoded in
      let visited =
        visit_all index threshold_ns primary_tsf again
          (record no_stats { cards_read = length again % 2 ^ 32 }, []) in
      let (adjs, applied, _, number) =
        visit_all-planned index threshold_ns primary_tsf again (length again % 2 ^ 32)
          (omega (arith, gives.few)) in
      let quiet : apply_plan ring visited st3 ≡ (ok visited.0, st3) =
        subst (λ xs. apply_plan ring (visited.0, xs) st3 ≡ (ok visited.0, st3)) (sym (adjs ∙ idle))
          refl in
      (
        visited.0,
        rw (read, sync_once) (rw (found, sync_once) (rw read quiet)),
        applied ∙ ap length (adjs ∙ idle),
        omega (arith, number, gives.few),
      )

  -- For a threshold that is not negative, on a device that takes the writes of whole structs, where a read gives
  -- whole snapshots of at most 128 different cards as they stand, the primary among them, and the
  -- next read, behind the cycle, gives the same cards as they then stand and moves none: the cycle
  -- of the next read succeeds, reports as many cards and no adjustment, and leaves the device as
  -- the read did.
  pub sync_once-again :
      (index : ℕ) (snaps again : List TsfSnapshot) (st st1 st3 : ring.St) (primary_tsf : ℤ)
      → ltb_ℤ threshold_ns (pos 0) ≡ false
      → Writes dev
      → Apart dev snaps
      → Gives snaps st st1
      → find_primary index snaps ≡ some primary_tsf
      → cards again ≡ cards snaps
      → ((i : ℕ) → tsf i st3 ≡ tsf i ((cycle index st).1))
      → Gives again (cycle index st).1 st3
      → (stats : SyncStats) × (cycle index (cycle index st).1 ≡ (ok stats, st3))
        × (stats.adjustments_applied ≡ 0)
        × (stats.cards_read ≡ length again)
  sync_once-again index snaps again st st1 st3 primary_tsf low writes apart first found same still
        next =
      let (_, st2, run, _, reached) =
        sync_once-Reached dev index snaps first.bytes st st1 primary_tsf writes first.reads
          first.decoded first.few apart first.shown found in
      let end : (cycle index st).1 ≡ st2 = ap (λ (r : Result SyncStats × ring.St). r.1) run in
      let follow =
        Reached-AllFollow dev index primary_tsf snaps again (cycle index st).1 st3
          (subst (λ (t : ring.St). Reached dev index primary_tsf t snaps) (sym end) reached) still
          same next.shown in
      cycle_idle index again (cycle index st).1 st3 primary_tsf next
        (find_primary-AllFollow dev index primary_tsf snaps again follow found)
        (planned-AllFollow dev index primary_tsf snaps again low follow)
