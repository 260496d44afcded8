-- ===== src/Tool/Parallel/Refines.antt =====
-- src/bin/tsf_sync_debugfs/threading.rs: a cycle of `run_parallel` against the loop over the
-- followers in `run_single`.
use tsf_sync.Prelude.{ℕ, ◌≡◌, inl, inr, Bool, true, false, none, some, List, [], ◌∷◌, refl, arith}
use tsf_sync.Prelude.Tests.{Option-cases}
use tsf_sync.Prelude.Lists.{All, All-every}
use tsf_sync.Tool.Float.{Float}
use tsf_sync.Tool.Stats.{WelfordStats}
use tsf_sync.Tool.Debugfs.{Kernel}
use tsf_sync.Tool.Threading.{correct_all, Params}
use tsf_sync.Tool.Parallel.{
  WorkerPc, released, written, SamplerPc, collecting, Worker, System, Move, signal, sampler_step,
  open_first, open_second, worker_step, is_written, all_at, move_worker, sampler_move, first_opens,
  step, run_moves,
}
use tsf_sync.Tool.Debugfs.Register.{TsfRegisters}
use tsf_sync.Tool.Parallel.InStep.{run_moves-cons}
use tsf_sync.Tool.Parallel.Cycle.{corrected, Progress, before, after, lost}
use tsf_sync.Tool.Parallel.Rounds.{Reads, Apart, InCycle, move_worker-InCycle}
use tsf_sync.Tool.Parallel.Sequential.{files_of, controllers_of, Corrected, correct_all-Corrected}

-- A step within a cycle: neither the signal nor the opening of the second barrier.
abbrev pub in_cycle : Move → Bool
in_cycle signal = false
in_cycle open_second = false
in_cycle _ = true

abbrev pub is_released : WorkerPc → Bool
is_released released = true
is_released _ = false

module _ (k : Kernel) (regs : TsfRegisters k) (fl : Float) (has_ssse3 : Bool) where
  open regs use {tsf, store, tsf-store, tsf-store_ne}

  begin_cycle :
      (m : ℕ) (ws : List (Worker fl)) (st : k.St)
      → all_at is_released ws ≡ true
      → InCycle k regs fl has_ssse3 m ws st ws st
  begin_cycle m [] st h = tt
  begin_cycle m (w ∷ ws) st h =
      (before (ground arith) (ground arith) refl, begin_cycle m ws st (ground arith))

  written_corrected :
      (m v0 : ℕ) (w0 w : Worker fl) (v : ℕ)
      → w.pc ≡ written
      → Progress m v0 w0 w v
      → corrected m w0 v0 ≡ some (w, v)
  written_corrected m v0 w0 w v at (before b e h) = absurd (ground arith)
  written_corrected m v0 w0 w v at (after e) = e
  written_corrected m v0 w0 w v at (lost p f) = absurd (ground arith)

  end_cycle :
      (m : ℕ) (ws0 : List (Worker fl)) (st0 : k.St) (ws : List (Worker fl)) (st : k.St)
      → all_at is_written ws ≡ true
      → InCycle k regs fl has_ssse3 m ws0 st0 ws st
      → Corrected k regs fl has_ssse3 m ws0 st0 ws st
  end_cycle m [] st0 [] st h c = tt
  end_cycle m [] st0 (w ∷ ws) st h c = c
  end_cycle m (w0 ∷ ws0) st0 [] st h c = c
  end_cycle m (w0 ∷ ws0) st0 (w ∷ ws) st h (p, c) = (
    written_corrected m (tsf w0.follower.fd st0) w0 w (tsf w0.follower.fd st) (ground arith) p,
    end_cycle m ws0 st0 ws st (ground arith) c,
  )

  module _ (ps : Params) where
    collecting_waits :
        (pc : SamplerPc) (s : System k fl)
        → pc ≡ collecting
        → sampler_move k fl has_ssse3 ps pc s ≡ none
    unfolding sampler_move
    collecting_waits pc s e = rw e refl

    collecting_shuts :
        (pc : SamplerPc) (s : System k fl)
        → pc ≡ collecting
        → first_opens k fl has_ssse3 ps pc s ≡ none
    unfolding first_opens
    collecting_shuts pc s e = rw e refl

    -- In the cycle only workers step.
    step_cycle :
        (mv : Move) (m : ℕ) (ws0 : List (Worker fl)) (st0 : k.St) (s t : System k fl)
        → All (Reads k regs fl has_ssse3) ws0
        → Apart k regs fl has_ssse3 ws0
        → in_cycle mv ≡ true
        → (s.sampler ≡ collecting) × (s.running ≡ true) × (s.master_tsf ≡ m)
        → InCycle k regs fl has_ssse3 m ws0 st0 s.workers s.kst
        → step k fl has_ssse3 ps mv s ≡ some t
        → ((t.sampler ≡ collecting) × (t.running ≡ true) × (t.master_tsf ≡ m))
          × InCycle k regs fl has_ssse3 m ws0 st0 t.workers t.kst
    unfolding step
    step_cycle signal m ws0 st0 s t r a ok_mv at c moved = absurd (cc)
    step_cycle sampler_step m ws0 st0 s t r a ok_mv (at, on, same) c moved =
        absurd (ground (arith, collecting_waits s.sampler s at))
    step_cycle open_first m ws0 st0 s t r a ok_mv (at, on, same) c moved =
        absurd (ground (arith, collecting_shuts s.sampler s at))
    step_cycle open_second m ws0 st0 s t r a ok_mv at c moved = absurd (cc)
    step_cycle (worker_step i) m ws0 st0 s t r a ok_mv (at, on, same) c moved =
        elim (Option-cases (move_worker k fl has_ssse3 i s.running s.master_tsf s.workers s.kst)) [
          | inl e ↦ absurd (ground arith)
          | inr ((ws, st), e) ↦
              let out : t.workers ≡ ws = ground arith in
              let to : t.kst ≡ st = ground arith in
              let next =
                move_worker-InCycle k regs fl has_ssse3 i m ws0 st0 s.workers s.kst ws st r a c
                  (rw (on, same) at e) in
              ((ground arith, ground arith, ground arith), rw (out, to) next)
        ]

    run_cycle :
        (mvs : List Move) (m : ℕ) (ws0 : List (Worker fl)) (st0 : k.St) (s t : System k fl)
        → All (Reads k regs fl has_ssse3) ws0
        → Apart k regs fl has_ssse3 ws0
        → All (λ mv. in_cycle mv ≡ true) mvs
        → (s.sampler ≡ collecting) × (s.running ≡ true) × (s.master_tsf ≡ m)
        → InCycle k regs fl has_ssse3 m ws0 st0 s.workers s.kst
        → run_moves k fl has_ssse3 ps mvs s ≡ some t
        → InCycle k regs fl has_ssse3 m ws0 st0 t.workers t.kst
    unfolding run_moves
    run_cycle [] m ws0 st0 s t r a inside at c ran = let same : s ≡ t = ground arith in rw same at c
    run_cycle (mv ∷ mvs) m ws0 st0 s t r a (i, inside) at c ran =
        let (s', e, later) = run_moves-cons k fl has_ssse3 ps mv mvs s t ran in
        let (at', c') = step_cycle mv m ws0 st0 s s' r a i at c e in
        run_cycle mvs m ws0 st0 s' t r a inside at' c' later

  module _ (ps : Params) where
    -- Over registers that stand still but for the writes, with followers that are different files:
    -- from the opening of the first barrier with RUNNING set, in any order of the workers' steps and
    -- with no signal among them, once every worker waits at the second barrier the registers of the
    -- followers and the controllers are what the loop over the followers in `run_single` gives for
    -- the published value.
    pub run_parallel-correct_all :
        (mvs : List Move) (stats : WelfordStats fl) (s t : System k fl)
        → All (Reads k regs fl has_ssse3) s.workers
        → Apart k regs fl has_ssse3 s.workers
        → (s.sampler ≡ collecting) × (s.running ≡ true) × (all_at is_released s.workers ≡ true)
        → All (λ mv. in_cycle mv ≡ true) mvs
        → run_moves k fl has_ssse3 ps mvs s ≡ some t
        → all_at is_written t.workers ≡ true
        → (stats' : WelfordStats fl) × (st' : k.St) × (correct_all k fl has_ssse3
              (files_of s.workers)
              (controllers_of s.workers)
              stats
              s.master_tsf
              s.kst
            ≡ (some (controllers_of t.workers, stats'), st'))
          × All (λ w. tsf w.follower.fd t.kst ≡ tsf w.follower.fd st') s.workers
    run_parallel-correct_all mvs stats s t r a (at, on, rel) inside ran over =
        let start = begin_cycle s.master_tsf s.workers s.kst rel in
        let c =
          run_cycle ps mvs s.master_tsf s.workers s.kst s t r a inside (at, on, refl) start ran in
        correct_all-Corrected k regs fl has_ssse3 s.master_tsf s.workers s.kst t.workers t.kst stats
          s.kst r a
          (All-every (λ w. tsf w.follower.fd s.kst ≡ tsf w.follower.fd s.kst) s.workers (λ w. refl))
          (end_cycle s.master_tsf s.workers s.kst t.workers t.kst over c)
