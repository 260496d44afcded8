-- ===== src/Tool/Threading/Correction.antt =====
-- src/bin/tsf_sync_debugfs/threading.rs, `correct_follower`, with a controller without a filter: what is
-- written, whatever the clocks do between the calls.
use tsf_sync.Prelude.{
  ℕ, ◌+◌, ◌*◌, ◌^◌, ◌<◌, ◌≤◌, ◌≡◌, ◌⊎◌, inl, inr, refl, ◌∙◌, ap, Bool, some, arith,
}
use tsf_sync.Prelude.Int.{sub_ℕ}
use native.Mathlib.Decide.{dec_le}
use tsf_sync.Tool.Float.{Float}
use tsf_sync.Tool.Control.{apply, new_tsf}
use tsf_sync.Tool.Control.Converge.{
  plain, dist, amount, amount-le, amount-pos, amount-le-limit, moved, signed_step, apply-plain,
  new_tsf-moved,
}
use tsf_sync.Tool.Debugfs.{Kernel, TsfFile, ok, read_tsf, write_tsf}
use tsf_sync.Tool.Threading.{correct_follower}

-- The new value is between the two clocks: its distance and the step are the distance before.
moved_between :
    (master follower a : ℕ)
    → a ≤ dist master follower
    → dist master (moved master follower a) + a ≡ dist master follower
moved_between master follower a h = ground arith

module _ (k : Kernel) (fl : Float) (has_ssse3 : Bool) (f : TsfFile) where
  correct_follower-write :
      (kp limit master t v : ℕ) (st : k.St)
      → (read_tsf k has_ssse3 f st).0 ≡ ok t
      → apply (plain {fl = fl} kp limit) master t
        ≡ some (plain kp limit, signed_step master t v, sub_ℕ master t)
      → (correct_follower k fl has_ssse3 f (plain kp limit) master st).1
        ≡ (write_tsf k f (new_tsf t (signed_step master t v)) (read_tsf k has_ssse3 f st).1).1
  unfolding correct_follower
  correct_follower-write kp limit master t v st read made =
      rw (read, correct_follower) (rw (made, correct_follower) refl)

  -- For a gain from 0 to 1,000,000 ppm, a limit from 1 up and no filter, on any kernel, where the read
  -- of the follower gives t, the published value of the master and t are below 2 ^ 63 and their
  -- distance times the gain fits an i64: one value is written to the follower behind the read. It is
  -- between t and the master's value, so that it is never past the master, and it is nearer to the
  -- master than t by a step that is at most the limit and, unless t is the master's value, at least 1.
  pub correct_follower-nearer :
      (kp limit master t : ℕ) (st : k.St)
      → 1 ≤ limit
      → limit < 2 ^ 63
      → kp ≤ 1_000_000
      → (read_tsf k has_ssse3 f st).0 ≡ ok t
      → master < 2 ^ 63
      → t < 2 ^ 63
      → dist master t * kp < 2 ^ 63
      → (v a : ℕ) × ((correct_follower k fl has_ssse3 f (plain kp limit) master st).1
          ≡ (write_tsf k f v (read_tsf k has_ssse3 f st).1).1)
        × (dist master v + a ≡ dist master t)
        × (dist t v ≡ a)
        × (a ≤ limit)
        × ((t ≡ master) ⊎ (1 ≤ a))
  correct_follower-nearer kp limit master t st low high gain read hm ht fits =
      let d = dist master t in
      let a = amount kp limit d in
      let v = moved master t a in
      let within : a ≤ d = amount-le kp limit d gain in
      let made = apply-plain fl kp limit low high master t hm ht fits in
      (
        v,
        a,
        correct_follower-write kp limit master t a st read made
            ∙ ap (λ (x : ℕ). (write_tsf k f x (read_tsf k has_ssse3 f st).1).1)
                (new_tsf-moved kp limit master t gain hm ht),
        moved_between master t a within,
        ground (arith, within),
        amount-le-limit kp limit d low,
        elim (dec_le 1 d) [
          | yes off ↦ inr (amount-pos kp limit d off)
          | no here ↦ inl (omega arith)
        ],
      )
