-- ===== src/Tool/Parallel/Places.antt =====
-- src/bin/tsf_sync_debugfs/threading.rs, `run_parallel`: where the workers can stand, by the place of
-- the sampler, and what their steps make of it.
use tsf_sync.Prelude.{
  ℕ, zero, suc, ◌≡◌, ◌⊎◌, inl, inr, Bool, true, false, some, List, [], ◌∷◌, refl, arith,
}
use tsf_sync.Prelude.Tests.{◌==◌, Option-cases, ==_refl}
use tsf_sync.Tool.Float.{Float}
use tsf_sync.Tool.Debugfs.{Kernel}
use tsf_sync.Tool.Parallel.{
  WorkerPc, starting, ready, released, loading, correcting, written, done, panicked, SamplerPc,
  collecting, leaving, joining, finished, Worker, is_gone, all_at, move_to, worker_correct,
  worker_move, move_worker,
}

-- Outside the cycle's work.
abbrev pub rests : WorkerPc → Bool
rests starting = true
rests ready = true
rests done = true
rests panicked = true
rests _ = false

-- In the cycle's work, with the master's value.
abbrev pub works : ℕ → WorkerPc → Bool
works m released = true
works m loading = true
works m (correcting v) = v == m
works m written = true
works m done = true
works m panicked = true
works m starting = false
works m ready = false

-- On the way out.
abbrev pub leaves : WorkerPc → Bool
leaves released = true
leaves done = true
leaves panicked = true
leaves _ = false

-- Where a worker can stand, by the place of the sampler and the published value.
abbrev pub fits : SamplerPc → ℕ → WorkerPc → Bool
fits collecting m pc = works m pc
fits joining m pc = leaves pc
fits finished m pc = is_gone pc
fits _ m pc = rests pc

-- Behind the loop RUNNING is false for good.
abbrev pub stopped : SamplerPc → Bool
stopped leaving = true
stopped joining = true
stopped finished = true
stopped _ = false

module _ (k : Kernel) (fl : Float) (has_ssse3 : Bool) where
  pub correct_pc :
      (w : Worker fl) (m : ℕ) (st : k.St)
      → ((worker_correct k fl has_ssse3 w m st).0.pc ≡ written)
        ⊎ ((worker_correct k fl has_ssse3 w m st).0.pc ≡ panicked)
  unfolding worker_correct
  correct_pc w m st = ground arith

  -- A step of one worker keeps it where it can stand.
  pub worker_move-fits :
      (sp : SamplerPc) (pc : WorkerPc) (running : Bool) (m : ℕ) (w : Worker fl) (st : k.St)
      (w' : Worker fl) (st' : k.St)
      → (stopped sp ≡ true → running ≡ false)
      → fits sp m pc ≡ true
      → worker_move k fl has_ssse3 pc running m w st ≡ some (w', st')
      → fits sp m w'.pc ≡ true
  unfolding worker_move
  worker_move-fits sp starting running m w st w' st' flag here moved = ground arith
  worker_move-fits sp released running m w st w' st' flag here moved = ground arith
  worker_move-fits sp loading running m w st w' st' flag here moved = ground (arith, ==_refl m)
  worker_move-fits sp (correcting v) running m w st w' st' flag here moved =
      ground (arith, correct_pc w v st)
  worker_move-fits sp ready running m w st w' st' flag here moved = cc
  worker_move-fits sp written running m w st w' st' flag here moved = cc
  worker_move-fits sp done running m w st w' st' flag here moved = cc
  worker_move-fits sp panicked running m w st w' st' flag here moved = cc

  pub move_worker-fits :
      (sp : SamplerPc) (i : ℕ) (running : Bool) (m : ℕ) (ws : List (Worker fl)) (st : k.St)
      (ws' : List (Worker fl)) (st' : k.St)
      → (stopped sp ≡ true → running ≡ false)
      → all_at (fits sp m) ws ≡ true
      → move_worker k fl has_ssse3 i running m ws st ≡ some (ws', st')
      → all_at (fits sp m) ws' ≡ true
  unfolding move_worker
  move_worker-fits sp i running m [] st ws' st' flag here moved = cc
  move_worker-fits sp zero running m (w ∷ ws) st ws' st' flag here moved =
      elim (Option-cases (worker_move k fl has_ssse3 w.pc running m w st)) [
        | inl e ↦ absurd (ground arith)
        | inr ((w1, st1), e) ↦
            let one = worker_move-fits sp w.pc running m w st w1 st1 flag (ground arith) e in
            ground arith
      ]
  move_worker-fits sp (suc i) running m (w ∷ ws) st ws' st' flag here moved =
      elim (Option-cases (move_worker k fl has_ssse3 i running m ws st)) [
        | inl e ↦ absurd (ground arith)
        | inr ((ws1, st1), e) ↦
            let rest = move_worker-fits sp i running m ws st ws1 st1 flag (ground arith) e in
            ground arith
      ]

pub all_at-move_to :
    {fl : Float} (p : WorkerPc → Bool) (pc : WorkerPc) (ws : List (Worker fl))
    → p pc ≡ true
    → all_at p (move_to pc ws) ≡ true
all_at-move_to p pc [] h = refl
all_at-move_to p pc (w ∷ ws) h = ground (arith, all_at-move_to p pc ws h)

-- A weaker test holds of all.
pub all_at-weaken :
    {fl : Float} (p q : WorkerPc → Bool) (ws : List (Worker fl))
    → ((pc : WorkerPc) → p pc ≡ true → q pc ≡ true)
    → all_at p ws ≡ true
    → all_at q ws ≡ true
all_at-weaken p q [] le h = refl
all_at-weaken p q (w ∷ ws) le h = ground (arith, le w.pc, all_at-weaken p q ws le)
