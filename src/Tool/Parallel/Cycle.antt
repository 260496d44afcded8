-- ===== src/Tool/Parallel/Cycle.antt =====
-- src/bin/tsf_sync_debugfs/threading.rs: a worker of `run_parallel` and its register in a cycle.
use tsf_sync.Prelude.{
  ℕ, ◌≡◌, ◌≢◌, inl, inr, Bool, true, false, Option, none, some, refl, arith, ◌∙◌,
}
use tsf_sync.Prelude.Tests.{◌==◌, Option-cases, ==_refl}
use tsf_sync.Prelude.Int.{ℤ}
use tsf_sync.Tool.Float.{Float}
use tsf_sync.Tool.Control.{Controller}
use tsf_sync.Tool.Stats
use tsf_sync.Tool.Stats.{WelfordStats}
use tsf_sync.Tool.Debugfs.{Kernel}
use tsf_sync.Tool.Parallel.{
  WorkerPc, released, loading, correcting, written, panicked, Worker, worker_correct, worker_move,
  step,
}
use mathlib.Core.Path.{subst}
use tsf_sync.Tool.Control.{apply, new_tsf}
use tsf_sync.Tool.Debugfs.Register.{TsfRegisters}
use tsf_sync.Tool.Threading.Follower.{
  correct_follower-some, correct_follower-none, correct_follower_other, new_tsf-lt,
}

-- Before the correction, with the master's value where one is loaded.
abbrev pub is_before : ℕ → WorkerPc → Bool
is_before m released = true
is_before m loading = true
is_before m (correcting v) = v == m
is_before m _ = false

module _ {fl : Float} where
  -- The worker and its register after its correction; `none` where the controller panics.
  abbrev pub corrected : ℕ → Worker fl → ℕ → Option (Worker fl × ℕ)
  corrected m w v = elim (apply w.controller m v) [
    | none ↦ none
    | some (c, step, e) ↦ some (
      record w { controller = c; stats = Stats.update w.stats e step; pc = written },
      new_tsf v step,
    )
  ]

  pub corrected-some :
      (m : ℕ) (w : Worker fl) (v : ℕ) (c : Controller fl) (d e : ℤ)
      → apply w.controller m v ≡ some (c, d, e)
      → corrected m w v
        ≡ some (
          record w { controller = c; stats = Stats.update w.stats e d; pc = written },
          new_tsf v d,
        )
  corrected-some m w v c d e h = rw (h, corrected)

  pub corrected_written :
      (m : ℕ) (w0 : Worker fl) (v0 : ℕ) (w : Worker fl) (v : ℕ)
      → corrected m w0 v0 ≡ some (w, v)
      → w.pc ≡ written
  corrected_written m w0 v0 w v e = ground arith

  -- A worker and its register in a cycle that began with `w0` and `v0`.
  pub data Progress (m v0 : ℕ) (w0 w : Worker fl) (v : ℕ) : Type 0 where
    before : is_before m w.pc ≡ true → w ≡ record w0 { pc = w.pc } → v ≡ v0 → Progress m v0 w0 w v
    after : corrected m w0 v0 ≡ some (w, v) → Progress m v0 w0 w v
    lost : w.pc ≡ panicked → w.follower ≡ w0.follower → Progress m v0 w0 w v

  pub Progress-follower :
      {m v0 : ℕ} {w0 w : Worker fl} {v : ℕ} → Progress m v0 w0 w v → w.follower ≡ w0.follower
  Progress-follower (before b e h) = ground arith
  Progress-follower (after e) = ground arith
  Progress-follower (lost e f) = f

module _ (k : Kernel) (regs : TsfRegisters k) (fl : Float) (has_ssse3 : Bool) where
  open regs use {tsf, store, tsf-store}

  worker_correct-none :
      (w : Worker fl) (m : ℕ) (st : k.St)
      → w.follower.pread_ok ≡ true
      → apply w.controller m (tsf w.follower.fd st) ≡ none
      → worker_correct k fl has_ssse3 w m st ≡ (record w { pc = panicked }, st)
  unfolding worker_correct
  worker_correct-none w m st pread e =
      ground (arith, correct_follower-none k regs fl has_ssse3 w.follower pread w.controller m st e)

  pub worker_correct-some :
      (w : Worker fl) (m : ℕ) (st : k.St) (c : Controller fl) (d e : ℤ)
      → w.follower.pread_ok ≡ true
      → apply w.controller m (tsf w.follower.fd st) ≡ some (c, d, e)
      → worker_correct k fl has_ssse3 w m st ≡ (
        record w { controller = c; stats = Stats.update w.stats e d; pc = written },
        store w.follower.fd (new_tsf (tsf w.follower.fd st) d) st,
      )
  unfolding worker_correct
  worker_correct-some w m st c d e pread h =
      ground (
        arith,
        correct_follower-some k regs fl has_ssse3 w.follower pread w.controller c m st d e h,
      )

  worker_correct-Progress :
      (pc : WorkerPc) (m : ℕ) (w0 : Worker fl) (st : k.St)
      → w0.follower.pread_ok ≡ true
      → let r = worker_correct k fl has_ssse3 (record w0 { pc = pc }) m st in
        Progress m (tsf w0.follower.fd st) w0 r.0 (tsf w0.follower.fd r.1)
  worker_correct-Progress pc m w0 st pread =
      elim (Option-cases (apply w0.controller m (tsf w0.follower.fd st))) [
        | inl e ↦ rw (worker_correct-none (record w0 { pc = pc }) m st pread e) (lost refl refl)
        | inr ((c, d, raw), e) ↦
            let v = new_tsf (tsf w0.follower.fd st) d in
            let stored = tsf-store w0.follower.fd v st (new_tsf-lt (tsf w0.follower.fd st) d) in
            rw (worker_correct-some (record w0 { pc = pc }) m st c d raw pread e)
              (after (corrected-some m w0 (tsf w0.follower.fd st) c d raw e ∙ rw stored refl))
      ]

  move_before :
      (pc : WorkerPc) (m : ℕ) (w0 : Worker fl) (st : k.St) (w' : Worker fl) (st' : k.St)
      → w0.follower.pread_ok ≡ true
      → is_before m pc ≡ true
      → worker_move k fl has_ssse3 pc true m (record w0 { pc = pc }) st ≡ some (w', st')
      → Progress m (tsf w0.follower.fd st) w0 w' (tsf w0.follower.fd st')
  unfolding worker_move
  move_before released m w0 st w' st' pread b moved =
      before (ground arith) (ground arith) (ground arith)
  move_before loading m w0 st w' st' pread b moved =
      before (ground (arith, ==_refl m)) (ground arith) (ground arith)
  move_before (correcting v) m w0 st w' st' pread b moved =
      let same : v ≡ m = ground arith in
      let r = worker_correct-Progress (correcting v) m w0 st pread in
      let made : worker_correct k fl has_ssse3 (record w0 { pc = correcting v }) m st ≡ (w', st') =
        ground arith in
      rw made at r
  move_before pc m w0 st w' st' pread b moved = absurd (cc)

  move_before_eq :
      (pc : WorkerPc) (m v0 : ℕ) (w0 w : Worker fl) (st : k.St) (w' : Worker fl) (st' : k.St)
      → w0.follower.pread_ok ≡ true
      → is_before m pc ≡ true
      → w ≡ record w0 { pc = pc }
      → tsf w0.follower.fd st ≡ v0
      → worker_move k fl has_ssse3 pc true m w st ≡ some (w', st')
      → Progress m v0 w0 w' (tsf w0.follower.fd st')
  move_before_eq pc m v0 w0 w st w' st' pread b e h moved = rw h at (
      move_before pc m w0 st w' st' pread b
        (subst (λ x. worker_move k fl has_ssse3 pc true m x st ≡ some (w', st')) e moved))

  pub move_Progress :
      (m v0 : ℕ) (w0 w : Worker fl) (st : k.St) (w' : Worker fl) (st' : k.St)
      → w0.follower.pread_ok ≡ true
      → Progress m v0 w0 w (tsf w0.follower.fd st)
      → worker_move k fl has_ssse3 w.pc true m w st ≡ some (w', st')
      → Progress m v0 w0 w' (tsf w0.follower.fd st')
  unfolding worker_move
  move_Progress m v0 w0 w st w' st' pread (before b e h) moved =
      move_before_eq w.pc m v0 w0 w st w' st' pread b e h moved
  move_Progress m v0 w0 w st w' st' pread (after e) moved =
      absurd (ground (arith, corrected_written m w0 v0 w (tsf w0.follower.fd st) e))
  move_Progress m v0 w0 w st w' st' pread (lost p f) moved = absurd (ground arith)

  -- A step of a worker leaves the registers of other followers alone.
  pub worker_move_other :
      (pc : WorkerPc) (running : Bool) (m : ℕ) (w : Worker fl) (st : k.St) (w' : Worker fl)
      (st' : k.St) (fd : ℕ)
      → w.follower.pread_ok ≡ true
      → w.follower.fd ≢ fd
      → worker_move k fl has_ssse3 pc running m w st ≡ some (w', st')
      → tsf fd st' ≡ tsf fd st
  unfolding worker_move worker_correct
  worker_move_other (correcting v) running m w st w' st' fd pread ne moved =
      ground
        (arith, correct_follower_other k regs fl has_ssse3 w.follower pread w.controller v st fd ne)
  worker_move_other pc running m w st w' st' fd pread ne moved = ground arith
