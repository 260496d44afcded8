-- ===== src/Tool/Parallel/Onward.antt =====
-- src/bin/tsf_sync_debugfs/threading.rs, `run_parallel`: while RUNNING is set and no thread has left
-- its loop, one can go on.
use tsf_sync.Prelude.{
  ℕ, zero, suc, ◌≡◌, inl, inr, ◌⊎◌, Bool, true, false, some, List, [], ◌∷◌, refl, arith,
}
use tsf_sync.Prelude.Tests.{Bool-cases}
use tsf_sync.Tool.Float.{Float}
use tsf_sync.Tool.Debugfs.{Kernel}
use tsf_sync.Tool.Threading.{Params}
use tsf_sync.Tool.Parallel.{
  WorkerPc, starting, released, loading, correcting, SamplerPc, polling, sampling, publishing,
  meeting, collecting, resting, Worker, System, sampler_step, open_first, open_second, worker_step,
  all_at, move_to, is_ready, is_written, worker_move, move_worker, sampler_move, first_opens,
  second_opens, step,
}
use tsf_sync.Tool.Parallel.Places.{works, rests}
use tsf_sync.Tool.Parallel.InStep.{InStep}
use tsf_sync.Tool.Parallel.Finish.{Moves}
use tsf_sync.Tool.Parallel.Pace.{at_work, cycling, Paced}

module _ (k : Kernel) (fl : Float) (has_ssse3 : Bool) (ps : Params) where
  -- A worker that neither waits nor is gone.
  abbrev can_move : WorkerPc → Bool
  can_move starting = true
  can_move released = true
  can_move loading = true
  can_move (correcting v) = true
  can_move _ = false

  worker_moves :
      (pc : WorkerPc) (m : ℕ) (w : Worker fl) (st : k.St)
      → can_move pc ≡ true
      → (w' : Worker fl) × (st' : k.St) × (worker_move k fl has_ssse3 pc true m w st
          ≡ some (w', st'))
  unfolding worker_move
  worker_moves starting m w st h = (_, _, refl)
  worker_moves released m w st h = (_, _, refl)
  worker_moves loading m w st h = (_, _, refl)
  worker_moves (correcting v) m w st h = (_, _, refl)
  worker_moves pc m w st h = absurd (cc)

  -- Where not all the workers wait at the barrier, one can go on.
  mover :
      (p q : WorkerPc → Bool) (m : ℕ) (ws : List (Worker fl)) (st : k.St)
      → ((pc : WorkerPc) → q pc ≡ true → at_work pc ≡ true → p pc ≡ false → can_move pc ≡ true)
      → all_at q ws ≡ true
      → all_at at_work ws ≡ true
      → all_at p ws ≡ false
      → (i : ℕ) × (ws' : List (Worker fl)) × (st' : k.St) × (move_worker k fl has_ssse3 i true m ws
            st
          ≡ some (ws', st'))
  unfolding move_worker
  mover p q m [] st f here busy waits = absurd (cc)
  mover p q m (w ∷ ws) st f here busy waits = elim (Bool-cases (p w.pc)) [
    | inl e ↦
        let (i, ws', st', moved) =
          mover p q m ws st f (ground arith) (ground arith) (ground arith) in
        (suc i, w ∷ ws', st', ground (arith, moved))
    | inr e ↦
        let (w', st', moved) = worker_moves w.pc m w st (f w.pc (ground arith) (ground arith) e) in
        (zero, w' ∷ ws, st', ground (arith, moved))
  ]

  worker_Moves :
      (s : System k fl) (i : ℕ) (ws : List (Worker fl)) (st : k.St)
      → s.running ≡ true
      → move_worker k fl has_ssse3 i true s.master_tsf s.workers s.kst ≡ some (ws, st)
      → Moves k fl has_ssse3 ps s
  unfolding step
  worker_Moves s i ws st on moved =
      (worker_step i, refl, record s { workers = ws; kst = st }, ground arith)

  sampler_moves :
      (pc : SamplerPc) (s : System k fl)
      → cycling pc ≡ true
      → (pc ≡ meeting)
        ⊎ ((pc ≡ collecting) ⊎ ((t : System k fl) × (sampler_move k fl has_ssse3 ps pc s ≡ some t)))
  unfolding sampler_move
  sampler_moves polling s h = inr (inr (_, refl))
  sampler_moves sampling s h = inr (inr (_, refl))
  sampler_moves (publishing v) s h = inr (inr (_, refl))
  sampler_moves resting s h = inr (inr (_, refl))
  sampler_moves meeting s h = inl refl
  sampler_moves collecting s h = inr (inl refl)
  sampler_moves pc s h = absurd (cc)

  -- While RUNNING is set and no thread has left its loop, one can go on.
  pub Paced-Moves :
      (count n : ℕ) (s : System k fl) → InStep s → Paced count n s → Moves k fl has_ssse3 ps s
  unfolding step first_opens second_opens
  Paced-Moves count n s steady h = elim (sampler_moves s.sampler s h.going) [
    | inl at ↦ elim (Bool-cases (all_at is_ready s.workers)) [
      | inl all ↦ (
        open_first,
        refl,
        record s { sampler = collecting; workers = move_to released s.workers },
        ground arith,
      )
      | inr some_late ↦
          let (i, ws, st, moved) =
            mover is_ready rests s.master_tsf s.workers s.kst (λ pc a b c. ground arith)
              (rw at at steady.together) h.busy some_late in
          worker_Moves s i ws st h.on moved
    ]
    | inr (inl at) ↦ elim (Bool-cases (all_at is_written s.workers)) [
      | inl all ↦ (
        open_second,
        refl,
        record s { sampler = resting; workers = move_to starting s.workers },
        ground arith,
      )
      | inr some_late ↦
          let (i, ws, st, moved) =
            mover is_written (works s.master_tsf) s.master_tsf s.workers s.kst
              (λ pc a b c. ground arith) (rw at at steady.together) h.busy some_late in
          worker_Moves s i ws st h.on moved
    ]
    | inr (inr (t, moved)) ↦ (sampler_step, refl, t, ground arith)
  ]
