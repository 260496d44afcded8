-- ===== src/Tool/Parallel/InStep.antt =====
-- src/bin/tsf_sync_debugfs/threading.rs, `run_parallel`: what holds in every state that the threads
-- can come to, in any order of their steps.
use tsf_sync.Prelude.{
  ℕ, zero, suc, ◌+◌, ◌%◌, ◌^◌, ◌≡◌, inl, inr, Bool, true, false, some, List, [], ◌∷◌, refl, arith,
}
use tsf_sync.Prelude.Tests.{Option-cases}
use tsf_sync.Prelude.Lists.{get_elem?}
use tsf_sync.Tool.Float.{Float}
use tsf_sync.Tool.Control.{Controller}
use tsf_sync.Tool.Stats
use tsf_sync.Tool.Stats.{WelfordStats}
use tsf_sync.Tool.Rt.{Timespec}
use tsf_sync.Tool.Debugfs.{Kernel, TsfFile}
use tsf_sync.Tool.Threading.{check_stats, Params}
use tsf_sync.Tool.Parallel.{
  WorkerPc, starting, released, correcting, SamplerPc, polling, sampling, publishing, meeting,
  collecting, resting, leaving, joining, finished, crashed, Worker, System, Move, signal,
  sampler_step, open_first, open_second, worker_step, all_at, spawn_workers, move_worker,
  sampler_move, first_opens, second_opens, step, begin_parallel, run_moves,
}
use tsf_sync.Tool.Parallel.Places.{rests, leaves, fits, stopped, move_worker-fits, all_at-move_to}

module _ {k : Kernel} {fl : Float} where
  pub record InStep (s : System k fl) : Type 0 where
    pub together : all_at (fits s.sampler s.master_tsf) s.workers ≡ true
    pub flag : stopped s.sampler ≡ true → s.running ≡ false
    pub unreported : s.stats ≡ Stats.new

module _ (k : Kernel) (fl : Float) (has_ssse3 : Bool) (ps : Params) where
  stats_fresh :
      (stats : WelfordStats fl) (cycle : ℕ)
      → stats ≡ Stats.new
      → (check_stats stats cycle ps.stats_interval_cycles ps.rms_warn_us).0 ≡ Stats.new
  unfolding check_stats Stats.print_and_reset
  stats_fresh stats cycle h = ground arith

  sampler_move-InStep :
      (pc : SamplerPc) (s t : System k fl)
      → s.sampler ≡ pc
      → InStep s
      → sampler_move k fl has_ssse3 ps pc s ≡ some t
      → InStep t
  unfolding sampler_move
  sampler_move-InStep polling s t at h moved = ground arith
  sampler_move-InStep sampling s t at h moved = ground arith
  sampler_move-InStep (publishing v) s t at h moved = ground arith
  sampler_move-InStep resting s t at h moved =
      ground (arith, stats_fresh s.stats ((s.cycle + 1) % 2 ^ 64))
  sampler_move-InStep joining s t at h moved = ground arith
  sampler_move-InStep meeting s t at h moved = cc
  sampler_move-InStep collecting s t at h moved = cc
  sampler_move-InStep leaving s t at h moved = cc
  sampler_move-InStep finished s t at h moved = cc
  sampler_move-InStep crashed s t at h moved = cc

  first_opens-InStep :
      (pc : SamplerPc) (s t : System k fl)
      → s.sampler ≡ pc
      → InStep s
      → first_opens k fl has_ssse3 ps pc s ≡ some t
      → InStep t
  unfolding first_opens
  first_opens-InStep meeting s t at h moved =
      ground (arith, all_at-move_to (fits collecting s.master_tsf) released s.workers)
  first_opens-InStep leaving s t at h moved =
      ground (arith, all_at-move_to leaves released s.workers)
  first_opens-InStep pc s t at h moved = cc

  second_opens-InStep :
      (pc : SamplerPc) (s t : System k fl)
      → s.sampler ≡ pc
      → InStep s
      → second_opens k fl has_ssse3 ps pc s ≡ some t
      → InStep t
  unfolding second_opens
  second_opens-InStep collecting s t at h moved =
      ground (arith, all_at-move_to rests starting s.workers)
  second_opens-InStep pc s t at h moved = cc

  pub step-InStep :
      (mv : Move) (s t : System k fl) → InStep s → step k fl has_ssse3 ps mv s ≡ some t → InStep t
  unfolding step
  step-InStep signal s t h moved = ground arith
  step-InStep sampler_step s t h moved = sampler_move-InStep s.sampler s t refl h moved
  step-InStep open_first s t h moved = first_opens-InStep s.sampler s t refl h moved
  step-InStep open_second s t h moved = second_opens-InStep s.sampler s t refl h moved
  step-InStep (worker_step i) s t h moved =
      elim (Option-cases (move_worker k fl has_ssse3 i s.running s.master_tsf s.workers s.kst)) [
        | inl e ↦ absurd (ground arith)
        | inr ((ws, st), e) ↦
            let kept =
              move_worker-fits k fl has_ssse3 s.sampler i s.running s.master_tsf s.workers s.kst ws
                st h.flag h.together e in
            ground arith
      ]

  pub run_moves-cons :
      (mv : Move) (mvs : List Move) (s t : System k fl)
      → run_moves k fl has_ssse3 ps (mv ∷ mvs) s ≡ some t
      → (s' : System k fl) × (step k fl has_ssse3 ps mv s ≡ some s')
        × (run_moves k fl has_ssse3 ps mvs s' ≡ some t)
  unfolding run_moves
  run_moves-cons mv mvs s t ran = elim (Option-cases (step k fl has_ssse3 ps mv s)) [
    | inl e ↦ absurd (ground arith)
    | inr (s', e) ↦ (s', e, rw (e, run_moves) at ran)
  ]

  run_moves-InStep :
      (mvs : List Move) (s t : System k fl)
      → InStep s
      → run_moves k fl has_ssse3 ps mvs s ≡ some t
      → InStep t
  unfolding run_moves
  run_moves-InStep [] s t h ran = ground arith
  run_moves-InStep (mv ∷ mvs) s t h ran =
      let (s', e, later) = run_moves-cons mv mvs s t ran in
      run_moves-InStep mvs s' t (step-InStep mv s s' h e) later

  spawn_workers-starting :
      (fs : List TsfFile) (cs : List (Controller fl)) → all_at rests (spawn_workers fs cs) ≡ true
  unfolding spawn_workers
  spawn_workers-starting [] cs = refl
  spawn_workers-starting (f ∷ fs) [] = refl
  spawn_workers-starting (f ∷ fs) (c ∷ cs) = spawn_workers-starting fs cs

  pub begin_parallel-InStep :
      (controllers : List (Controller fl)) (now : Timespec) (st : k.St)
      → InStep (begin_parallel k fl has_ssse3 ps controllers now st)
  unfolding begin_parallel
  begin_parallel-InStep controllers now st = record {
    together = spawn_workers-starting ps.followers controllers;
    flag = λ h. cc;
    unreported = refl;
  }

  all_at-get_elem? :
      (p : WorkerPc → Bool) (ws : List (Worker fl)) (i : ℕ) (w : Worker fl)
      → all_at p ws ≡ true
      → get_elem? ws i ≡ some w
      → p w.pc ≡ true
  all_at-get_elem? p [] i w h e = cc
  all_at-get_elem? p (x ∷ ws) zero w h e = ground arith
  all_at-get_elem? p (x ∷ ws) (suc i) w h e = all_at-get_elem? p ws i w (ground arith) e

  correcting_fits :
      (sp : SamplerPc) (m v : ℕ) → fits sp m (correcting v) ≡ true → (sp ≡ collecting) × (v ≡ m)
  correcting_fits sp m v h = ground arith

  -- Whatever the order of the steps and wherever the signal comes, a worker that corrects its
  -- follower does so with the value that is published, and the sampler waits at the second barrier
  -- then: it neither reads the master nor publishes another value.
  pub run_parallel-published :
      (controllers : List (Controller fl)) (now : Timespec) (st : k.St) (mvs : List Move)
      (t : System k fl) (i : ℕ) (w : Worker fl) (v : ℕ)
      → run_moves k fl has_ssse3 ps mvs (begin_parallel k fl has_ssse3 ps controllers now st)
        ≡ some t
      → get_elem? t.workers i ≡ some w
      → w.pc ≡ correcting v
      → (t.sampler ≡ collecting) × (v ≡ t.master_tsf)
  run_parallel-published controllers now st mvs t i w v ran here at =
      let inv = run_moves-InStep mvs _ t (begin_parallel-InStep controllers now st) ran in
      let one = all_at-get_elem? (fits t.sampler t.master_tsf) t.workers i w inv.together here in
      correcting_fits t.sampler t.master_tsf v (rw at at one)

  -- The statistics that the sampler reports are those of no observation in every state: the value
  -- called the root mean square is 0, so no warning is ever due.
  pub run_parallel-rms :
      (controllers : List (Controller fl)) (now : Timespec) (st : k.St) (mvs : List Move)
      (t : System k fl)
      → run_moves k fl has_ssse3 ps mvs (begin_parallel k fl has_ssse3 ps controllers now st)
        ≡ some t
      → Stats.rms t.stats ≡ fl.of_u64 0
  unfolding Stats.rms Stats.new
  run_parallel-rms controllers now st mvs t ran =
      let inv = run_moves-InStep mvs _ t (begin_parallel-InStep controllers now st) ran in
      rw inv.unreported
