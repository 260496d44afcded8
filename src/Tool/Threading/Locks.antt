-- ===== src/Tool/Threading/Locks.antt =====
-- src/bin/tsf_sync_debugfs/threading.rs, `correct_follower`, over registers that stand still: the
-- follower's register comes to the master's value.
use tsf_sync.Prelude.{
  ℕ, zero, suc, ◌-◌, ◌*◌, ◌^◌, ◌<◌, ◌≤◌, Bool, true, Option, none, some, ◌≡◌, refl, ◌∙◌, arith, ◌≢◌,
}
use tsf_sync.Prelude.Int.{sub_ℕ}
use tsf_sync.Tool.Float.{Float}
use tsf_sync.Tool.Control.{Controller}
use tsf_sync.Tool.Control.Converge.{
  dist, amount, moved, signed_step, plain, apply-plain, new_tsf-moved, amount-le, amount-pos,
}
use tsf_sync.Tool.Debugfs.{Kernel, TsfFile}
use tsf_sync.Tool.Debugfs.Register.{TsfRegisters}
use tsf_sync.Tool.Threading.{correct_follower}
use tsf_sync.Tool.Threading.Follower.{correct_follower-some}

module _ (k : Kernel) (regs : TsfRegisters k) (fl : Float) (has_ssse3 : Bool) (f : TsfFile)
    (pread : f.pread_ok ≡ true) (kp limit : ℕ) where
  open regs use {tsf, store, tsf-lt, tsf-store, tsf-store_ne}

  -- One correction, of a controller with no filter: the register moves toward the master by the
  -- amount for its distance.
  pub correct_follower-moved :
      (master : ℕ) (st : k.St)
      → 1 ≤ limit
      → limit < 2 ^ 63
      → kp ≤ 1_000_000
      → master < 2 ^ 63
      → tsf f.fd st < 2 ^ 63
      → dist master (tsf f.fd st) * kp < 2 ^ 63
      → let d = dist master (tsf f.fd st) in
        let a = amount kp limit d in
        correct_follower k fl has_ssse3 f (plain kp limit) master st ≡ (
          some (
            plain kp limit,
            some (signed_step master (tsf f.fd st) a, sub_ℕ master (tsf f.fd st)),
          ),
          store f.fd (moved master (tsf f.fd st) a) st,
        )
  correct_follower-moved master st low high gain hm hf fits =
      let d = dist master (tsf f.fd st) in
      let a = amount kp limit d in
      let to = new_tsf-moved kp limit master (tsf f.fd st) gain hm hf in
      rw to at (
        correct_follower-some k regs fl has_ssse3 f pread (plain kp limit) (plain kp limit) master
          st _ _ (apply-plain fl kp limit low high master (tsf f.fd st) hm hf fits))

pub shrink : (a b k n : ℕ) → a ≤ b → b * k < n → a * k < n
shrink a b k n le h = grind arith

-- The corrections of one follower in successive cycles, by a master that stands still.
module _ (k : Kernel) {fl : Float} (has_ssse3 : Bool) (f : TsfFile) where
  pub correct_times : ℕ → Controller fl → ℕ → k.St → Option (Controller fl) × k.St
  correct_times zero c master st = (some c, st)
  correct_times (suc n) c master st =
      let (r, st1) = correct_follower k fl has_ssse3 f c master st in
      elim r [ none ↦ (none, st1) | some (c', _) ↦ correct_times n c' master st1 ]

module _ (k : Kernel) (regs : TsfRegisters k) (fl : Float) (has_ssse3 : Bool) (f : TsfFile)
    (pread : f.pread_ok ≡ true) (kp limit : ℕ) where
  open regs use {tsf, store, tsf-store, tsf-store_ne}

  -- What holds between a state and the state after `n` corrections.
  pub record Locking (n master : ℕ) (st st' : k.St) : Type 0 where
    pub closer : dist master (tsf f.fd st') ≤ dist master (tsf f.fd st) - n
    pub others : (fd : ℕ) → f.fd ≢ fd → tsf fd st' ≡ tsf fd st

  pub moved_closer :
      (master : ℕ) (st : k.St)
      → 1 ≤ limit
      → kp ≤ 1_000_000
      → master < 2 ^ 63
      → tsf f.fd st < 2 ^ 63
      → let to = moved master (tsf f.fd st) (amount kp limit (dist master (tsf f.fd st))) in
        (dist master to ≤ dist master (tsf f.fd st) - 1) × (to < 2 ^ 63)
  moved_closer master st low gain hm hf =
      let d = dist master (tsf f.fd st) in
      let le : amount kp limit d ≤ d = amount-le kp limit d gain in
      (ground (arith, amount-pos kp limit d), ground arith)

  -- For a controller with no filter, a limit of at least 1, a gain of at most 1,000,000 ppm, clocks
  -- below 2 ^ 63 whose error times the gain fits an i64, and a master and registers that stand still:
  -- `n` corrections run without a panic, bring the follower at least `n` closer to the master (so
  -- onto it once `n` reaches the distance, where it stays), and leave every other register alone.
  pub correct_times-Locking :
      (n master : ℕ) (st : k.St)
      → 1 ≤ limit
      → limit < 2 ^ 63
      → kp ≤ 1_000_000
      → master < 2 ^ 63
      → tsf f.fd st < 2 ^ 63
      → dist master (tsf f.fd st) * kp < 2 ^ 63
      → (st' : k.St) × (correct_times k has_ssse3 f n (plain {fl = fl} kp limit) master st
          ≡ (some (plain kp limit), st'))
        × Locking n master st st'
  unfolding correct_times
  correct_times-Locking zero master st low high gain hm hf fits =
      (st, refl, record { closer = omega arith; others = λ fd ne. refl })
  correct_times-Locking (suc n) master st low high gain hm hf fits =
      let d = dist master (tsf f.fd st) in
      let to = moved master (tsf f.fd st) (amount kp limit d) in
      let (nearer, small) = moved_closer master st low gain hm hf in
      let st1 = store f.fd to st in
      let here : tsf f.fd st1 ≡ to = tsf-store f.fd to st (omega arith) in
      let fits1 : dist master (tsf f.fd st1) * kp < 2 ^ 63 =
        shrink (dist master (tsf f.fd st1)) d kp (2 ^ 63) (omega (arith, here, nearer)) fits in
      let one =
        correct_follower-moved k regs fl has_ssse3 f pread kp limit master st low high gain hm hf
          fits in
      let (st', run, locking) =
        correct_times-Locking n master st1 low high gain hm (omega (arith, here)) fits1 in
      (
        st',
        rw (one, correct_times) (rw one run),
        record {
          closer = omega (arith, locking.closer, here, nearer);
          others = λ fd ne. locking.others fd ne ∙ tsf-store_ne f.fd fd to st ne;
        },
      )
