-- ===== src/Tool/Parallel/Rounds.antt =====
-- src/bin/tsf_sync_debugfs/threading.rs: `run_parallel` against `run_single`, over the registers of
-- distinct followers.
use tsf_sync.Prelude.{
  ℕ, zero, suc, ◌≡◌, ◌≢◌, inl, inr, Bool, true, some, List, [], ◌∷◌, arith, ◌∙◌, sym, ap,
}
use tsf_sync.Prelude.Tests.{Option-cases}
use tsf_sync.Prelude.Lists.{All, All-map}
use tsf_sync.Tool.Float.{Float}
use tsf_sync.Tool.Debugfs.{Kernel, TsfFile}
use tsf_sync.Tool.Parallel.{Worker, worker_move, move_worker}
use mathlib.Core.Path.{subst}
use tsf_sync.Tool.Debugfs.Register.{TsfRegisters}
use tsf_sync.Tool.Parallel.Cycle.{Progress, Progress-follower, move_Progress, worker_move_other}

module _ (k : Kernel) (regs : TsfRegisters k) (fl : Float) (hlaterssse3 : Bool) where
  open regs use {tsf}

  -- The followers are different files, each of which can be read at an offset.
  abbrev pub Away : ℕ → Worker fl → Type 0
  Away fd w = w.follower.fd ≢ fd

  abbrev pub Reads : Worker fl → Type 0
  Reads w = w.follower.pread_ok ≡ true

  abbrev pub Apart : List (Worker fl) → Type 0
  Apart [] = Unit
  Apart (w ∷ ws) = All (Away w.follower.fd) ws × Apart ws

  -- Each worker and its register, in a cycle that began with `ws0` in the state `st0`.
  abbrev pub InCycle : ℕ → List (Worker fl) → k.St → List (Worker fl) → k.St → Type 0
  InCycle m [] st0 [] st = Unit
  InCycle m [] st0 (w ∷ ws) st = ⊥
  InCycle m (w0 ∷ ws0) st0 [] st = ⊥
  InCycle m (w0 ∷ ws0) st0 (w ∷ ws) st =
      Progress m (tsf w0.follower.fd st0) w0 w (tsf w0.follower.fd st) × InCycle m ws0 st0 ws st

  -- It says nothing of other registers.
  InCycle-stays :
      (m : ℕ) (ws0 : List (Worker fl)) (st0 : k.St) (ws : List (Worker fl)) (st st' : k.St)
      → All (λ w. tsf w.follower.fd st' ≡ tsf w.follower.fd st) ws0
      → InCycle m ws0 st0 ws st
      → InCycle m ws0 st0 ws st'
  InCycle-stays m [] st0 [] st st' same c = tt
  InCycle-stays m [] st0 (w ∷ ws) st st' same c = c
  InCycle-stays m (w0 ∷ ws0) st0 [] st st' same c = c
  InCycle-stays m (w0 ∷ ws0) st0 (w ∷ ws) st st' (e, same) (p, c) =
      (rw e p, InCycle-stays m ws0 st0 ws st st' same c)

  -- The files of the workers stay the same.
  InCycle-files :
      (P : TsfFile → Type 0) (m : ℕ) (ws0 : List (Worker fl)) (st0 : k.St) (ws : List (Worker fl))
      (st : k.St)
      → InCycle m ws0 st0 ws st
      → All (λ w. P w.follower) ws0
      → All (λ w. P w.follower) ws
  InCycle-files P m [] st0 [] st c h = tt
  InCycle-files P m [] st0 (w ∷ ws) st c h = absurd c
  InCycle-files P m (w0 ∷ ws0) st0 [] st c h = absurd c
  InCycle-files P m (w0 ∷ ws0) st0 (w ∷ ws) st (p, c) (q, h) =
      (subst P (sym (Progress-follower p)) q, InCycle-files P m ws0 st0 ws st c h)

  move_worker_other :
      (i : ℕ) (running : Bool) (m : ℕ) (ws : List (Worker fl)) (st : k.St) (ws' : List (Worker fl))
      (st' : k.St) (fd : ℕ)
      → All Reads ws
      → All (Away fd) ws
      → move_worker k fl hlaterssse3 i running m ws st ≡ some (ws', st')
      → tsf fd st' ≡ tsf fd st
  unfolding move_worker
  move_worker_other i running m [] st ws' st' fd r ne moved = cc
  move_worker_other zero running m (w ∷ ws) st ws' st' fd (r, rs) (ne, nes) moved =
      elim (Option-cases (worker_move k fl hlaterssse3 w.pc running m w st)) [
        | inl e ↦ absurd (ground arith)
        | inr ((w1, st1), e) ↦
            let kept =
              worker_move_other k regs fl hlaterssse3 w.pc running m w st w1 st1 fd r ne e in
            ground arith
      ]
  move_worker_other (suc i) running m (w ∷ ws) st ws' st' fd (r, rs) (ne, nes) moved =
      elim (Option-cases (move_worker k fl hlaterssse3 i running m ws st)) [
        | inl e ↦ absurd (ground arith)
        | inr ((ws1, st1), e) ↦
            let kept = move_worker_other i running m ws st ws1 st1 fd rs nes e in ground arith
      ]

  -- A step of a worker in the cycle.
  pub move_worker-InCycle :
      (i m : ℕ) (ws0 : List (Worker fl)) (st0 : k.St) (ws : List (Worker fl)) (st : k.St)
      (ws' : List (Worker fl)) (st' : k.St)
      → All Reads ws0
      → Apart ws0
      → InCycle m ws0 st0 ws st
      → move_worker k fl hlaterssse3 i true m ws st ≡ some (ws', st')
      → InCycle m ws0 st0 ws' st'
  unfolding move_worker
  move_worker-InCycle i m [] st0 [] st ws' st' r a c moved = absurd (cc)
  move_worker-InCycle i m [] st0 (w ∷ ws) st ws' st' r a c moved = absurd c
  move_worker-InCycle i m (w0 ∷ ws0) st0 [] st ws' st' r a c moved = absurd c
  move_worker-InCycle zero m (w0 ∷ ws0) st0 (w ∷ ws) st ws' st' (r, rs) (a, later) (p, c) moved =
      elim (Option-cases (worker_move k fl hlaterssse3 w.pc true m w st)) [
        | inl e ↦ absurd (ground arith)
        | inr ((w1, st1), e) ↦
            let out : ws' ≡ w1 ∷ ws = ground arith in
            let to : st' ≡ st1 = ground arith in
            let file = Progress-follower p in
            let reads : w.follower.pread_ok ≡ true = ground arith in
            rw (out, to)
              (
                move_Progress k regs fl hlaterssse3 m (tsf w0.follower.fd st0) w0 w st w1 st1 r p e,
                InCycle-stays m ws0 st0 ws st st1
                    (All-map (Away w0.follower.fd)
                      (λ x. tsf x.follower.fd st1 ≡ tsf x.follower.fd st) ws0
                      (λ x ne.
                        worker_move_other k regs fl hlaterssse3 w.pc true m w st w1 st1
                          x.follower.fd reads (λ q. ne (sym q ∙ ap (λ (f : TsfFile). f.fd) file)) e)
                      a)
                    c,
              )
      ]
  move_worker-InCycle (suc i) m (w0 ∷ ws0) st0 (w ∷ ws) st ws' st' (r, rs) (a, later) (p, c) moved =
      elim (Option-cases (move_worker k fl hlaterssse3 i true m ws st)) [
        | inl e ↦ absurd (ground arith)
        | inr ((ws1, st1), e) ↦
            let out : ws' ≡ w ∷ ws1 = ground arith in
            let to : st' ≡ st1 = ground arith in
            let kept =
              move_worker_other i true m ws st ws1 st1 w0.follower.fd
                (InCycle-files (λ f. f.pread_ok ≡ true) m ws0 st0 ws st c rs)
                (InCycle-files (λ f. f.fd ≢ w0.follower.fd) m ws0 st0 ws st c a) e in
            rw (out, to) (rw kept p, move_worker-InCycle i m ws0 st0 ws st ws1 st1 rs later c e)
      ]
