-- ===== src/Tool/Parallel/Shutdown.antt =====
-- src/bin/tsf_sync_debugfs/threading.rs, `run_parallel`: a worker that leaves while the others
-- still have a barrier before them.
use tsf_sync.Prelude.{
  ℕ, zero, suc, ◌≡◌, ◌≢◌, inl, inr, Bool, true, false, ◌||◌, none, some, List, [], ◌∷◌, refl, arith,
}
use tsf_sync.Prelude.Tests.{Option-cases}
use tsf_sync.Prelude.Lists.{get_elem?}
use tsf_sync.Tool.Float.{Float}
use tsf_sync.Tool.Debugfs.{Kernel}
use tsf_sync.Tool.Threading.{Params}
use tsf_sync.Tool.Parallel.{
  WorkerPc, starting, released, done, panicked, SamplerPc, polling, sampling, publishing, meeting,
  collecting, resting, leaving, joining, finished, Worker, System, Move, signal, sampler_step,
  open_first, open_second, worker_step, is_ready, is_written, is_gone, all_at, worker_move,
  move_worker, sampler_move, first_opens, second_opens, step, run_moves,
}
use tsf_sync.Tool.Parallel.InStep.{run_moves-cons}

-- Behind the last barrier.
abbrev pub past_last : SamplerPc → Bool
past_last joining = true
past_last finished = true
past_last _ = false

module _ {fl : Float} where
  abbrev pub some_gone : List (Worker fl) → Bool
  some_gone [] = false
  some_gone (w ∷ ws) = is_gone w.pc || some_gone ws

  some_gone-second : (ws : List (Worker fl)) → some_gone ws ≡ true → all_at is_written ws ≡ false
  some_gone-second [] h = cc
  some_gone-second (w ∷ ws) h = ground (arith, some_gone-second ws)

  some_gone-first : (ws : List (Worker fl)) → some_gone ws ≡ true → all_at is_ready ws ≡ false
  some_gone-first [] h = cc
  some_gone-first (w ∷ ws) h = ground (arith, some_gone-first ws)

-- A worker before a test of RUNNING.
abbrev pub tests_flag : WorkerPc → Bool
tests_flag starting = true
tests_flag released = true
tests_flag _ = false

module _ (k : Kernel) (fl : Float) (has_ssse3 : Bool) where
  -- Who is gone does not move.
  worker_move-gone :
      (pc : WorkerPc) (running : Bool) (m : ℕ) (w : Worker fl) (st : k.St)
      → is_gone pc ≡ true
      → worker_move k fl has_ssse3 pc running m w st ≡ none
  unfolding worker_move
  worker_move-gone done running m w st h = refl
  worker_move-gone panicked running m w st h = refl
  worker_move-gone pc running m w st h = cc

  move_worker-some_gone :
      (i : ℕ) (running : Bool) (m : ℕ) (ws : List (Worker fl)) (st : k.St) (ws' : List (Worker fl))
      (st' : k.St)
      → some_gone ws ≡ true
      → move_worker k fl has_ssse3 i running m ws st ≡ some (ws', st')
      → some_gone ws' ≡ true
  unfolding move_worker
  move_worker-some_gone i running m [] st ws' st' h moved = cc
  move_worker-some_gone zero running m (w ∷ ws) st ws' st' h moved =
      ground (arith, worker_move-gone w.pc running m w st)
  move_worker-some_gone (suc i) running m (w ∷ ws) st ws' st' h moved =
      elim (Option-cases (move_worker k fl has_ssse3 i running m ws st)) [
        | inl e ↦ absurd (ground arith)
        | inr ((ws1, st1), e) ↦ ground (arith, move_worker-some_gone i running m ws st ws1 st1)
      ]

  -- After the signal such a worker leaves the loop with its next step.
  move_worker-leaves :
      (i : ℕ) (m : ℕ) (ws : List (Worker fl)) (st : k.St) (w : Worker fl) (ws' : List (Worker fl))
      (st' : k.St)
      → get_elem? ws i ≡ some w
      → tests_flag w.pc ≡ true
      → move_worker k fl has_ssse3 i false m ws st ≡ some (ws', st')
      → some_gone ws' ≡ true
  unfolding move_worker worker_move
  move_worker-leaves i m [] st w ws' st' here at moved = cc
  move_worker-leaves zero m (x ∷ ws) st w ws' st' here at moved = ground arith
  move_worker-leaves (suc i) m (x ∷ ws) st w ws' st' here at moved =
      elim (Option-cases (move_worker k fl has_ssse3 i false m ws st)) [
        | inl e ↦ absurd (ground arith)
        | inr ((ws1, st1), e) ↦ ground (arith, move_worker-leaves i m ws st w ws1 st1 here at)
      ]

module _ (k : Kernel) (fl : Float) (has_ssse3 : Bool) (ps : Params) where
  -- A worker has left the loop, and the sampler is not behind its last barrier.
  pub record Stranded (s : System k fl) : Type 0 where
    pub before_last : past_last s.sampler ≡ false
    pub gone : some_gone s.workers ≡ true

  sampler_move-Stranded :
      (pc : SamplerPc) (s t : System k fl)
      → past_last pc ≡ false
      → sampler_move k fl has_ssse3 ps pc s ≡ some t
      → (past_last t.sampler ≡ false) × (t.workers ≡ s.workers)
  unfolding sampler_move
  sampler_move-Stranded polling s t h moved = (ground arith, ground arith)
  sampler_move-Stranded sampling s t h moved = (ground arith, ground arith)
  sampler_move-Stranded (publishing v) s t h moved = (ground arith, ground arith)
  sampler_move-Stranded resting s t h moved = (ground arith, ground arith)
  sampler_move-Stranded pc s t h moved = (cc, cc)

  first_shut :
      (pc : SamplerPc) (s : System k fl)
      → all_at is_ready s.workers ≡ false
      → first_opens k fl has_ssse3 ps pc s ≡ none
  unfolding first_opens
  first_shut meeting s h = rw h
  first_shut leaving s h = rw h
  first_shut pc s h = refl

  second_shut :
      (pc : SamplerPc) (s : System k fl)
      → all_at is_written s.workers ≡ false
      → second_opens k fl has_ssse3 ps pc s ≡ none
  unfolding second_opens
  second_shut collecting s h = rw h
  second_shut pc s h = refl

  step-Stranded :
      (mv : Move) (s t : System k fl)
      → Stranded s
      → step k fl has_ssse3 ps mv s ≡ some t
      → Stranded t
  unfolding step
  step-Stranded signal s t h moved = ground arith
  step-Stranded sampler_step s t h moved =
      let (before, same) = sampler_move-Stranded s.sampler s t h.before_last moved in ground arith
  step-Stranded open_first s t h moved =
      absurd (ground (arith, first_shut s.sampler s (some_gone-first s.workers h.gone)))
  step-Stranded open_second s t h moved =
      absurd (ground (arith, second_shut s.sampler s (some_gone-second s.workers h.gone)))
  step-Stranded (worker_step i) s t h moved =
      elim (Option-cases (move_worker k fl has_ssse3 i s.running s.master_tsf s.workers s.kst)) [
        | inl e ↦ absurd (ground arith)
        | inr ((ws, st), e) ↦
            let kept =
              move_worker-some_gone k fl has_ssse3 i s.running s.master_tsf s.workers s.kst ws st
                h.gone e in
            ground arith
      ]

  run_moves-Stranded :
      (mvs : List Move) (s t : System k fl)
      → Stranded s
      → run_moves k fl has_ssse3 ps mvs s ≡ some t
      → Stranded t
  unfolding run_moves
  run_moves-Stranded [] s t h ran = ground arith
  run_moves-Stranded (mv ∷ mvs) s t h ran =
      let (s', e, later) = run_moves-cons k fl has_ssse3 ps mv mvs s t ran in
      run_moves-Stranded mvs s' t (step-Stranded mv s s' h e) later

  signal_and_leave :
      (i : ℕ) (w : Worker fl) (s s' : System k fl)
      → s.running ≡ false
      → past_last s.sampler ≡ false
      → get_elem? s.workers i ≡ some w
      → tests_flag w.pc ≡ true
      → step k fl has_ssse3 ps (worker_step i) s ≡ some s'
      → Stranded s'
  unfolding step
  signal_and_leave i w s s' off before here at moved =
      elim (Option-cases (move_worker k fl has_ssse3 i s.running s.master_tsf s.workers s.kst)) [
        | inl e ↦ absurd (ground arith)
        | inr ((ws, st), e) ↦
            let left =
              move_worker-leaves k fl has_ssse3 i s.master_tsf s.workers s.kst w ws st here at
                (rw off at e) in
            ground arith
      ]

  -- Where the signal comes while a worker stands before one of its two tests of RUNNING, and that
  -- worker makes its test before the sampler is behind its last barrier, then `run_parallel` does not
  -- return, whatever the order of the later steps: no state behind is one with the sampler finished.
  pub run_parallel-hangs :
      (i : ℕ) (w : Worker fl) (mvs : List Move) (s t : System k fl)
      → past_last s.sampler ≡ false
      → get_elem? s.workers i ≡ some w
      → tests_flag w.pc ≡ true
      → run_moves k fl has_ssse3 ps (signal ∷ worker_step i ∷ mvs) s ≡ some t
      → t.sampler ≢ finished
  unfolding step
  run_parallel-hangs i w mvs s t before here at ran =
      let (s1, e1, ran1) = run_moves-cons k fl has_ssse3 ps signal (worker_step i ∷ mvs) s t ran in
      let (s2, e2, ran2) = run_moves-cons k fl has_ssse3 ps (worker_step i) mvs s1 t ran1 in
      let off : s1.running ≡ false = ground arith in
      let early : past_last s1.sampler ≡ false = ground arith in
      let found : get_elem? s1.workers i ≡ some w = ground arith in
      let lost =
        run_moves-Stranded mvs s2 t (signal_and_leave i w s1 s2 off early found at e2) ran2 in
      λ over. ground (arith, lost.before_last)
