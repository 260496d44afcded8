-- ===== src/Tool/Parallel/Pace.antt =====
-- src/bin/tsf_sync_debugfs/threading.rs, `run_parallel`: how far the threads come while RUNNING is set.
use tsf_sync.Prelude.{
  ℕ, zero, suc, ◌+◌, ◌*◌, ◌≤◌, ◌≡◌, ◌≢◌, inl, inr, Bool, true, false, some, List, [], ◌∷◌, refl,
  arith,
}
use tsf_sync.Prelude.Tests.{Option-cases}
use tsf_sync.Prelude.Lists.{length}
use tsf_sync.Tool.Float.{Float}
use tsf_sync.Tool.Debugfs.{Kernel}
use tsf_sync.Tool.Threading.{Params}
use tsf_sync.Tool.Parallel.{
  WorkerPc, starting, ready, released, loading, correcting, written, done, panicked, SamplerPc,
  polling, sampling, publishing, meeting, collecting, resting, leaving, joining, finished, crashed,
  Worker, System, Move, signal, sampler_step, open_first, open_second, worker_step, all_at, move_to,
  is_ready, is_written, worker_move, move_worker, sampler_move, first_opens, second_opens, step,
}
use tsf_sync.Tool.Parallel.Places.{correct_pc}
use tsf_sync.Tool.Parallel.Finish.{is_signal}
use tsf_sync.Tool.Parallel.Kept.{unless_panicked, forward}

-- The steps of a worker since the last opening of the second barrier.
abbrev pub phase : WorkerPc → ℕ
phase ready = 1
phase released = 1
phase loading = 2
phase (correcting v) = 3
phase written = 4
phase _ = 0

-- In the loop.
abbrev pub at_work : WorkerPc → Bool
at_work done = false
at_work panicked = false
at_work _ = true

-- The steps of the sampler since it last came to the test of RUNNING; the one that takes it there is
-- due behind the second barrier.
abbrev pub sampler_phase : SamplerPc → ℕ
sampler_phase sampling = 1
sampler_phase (publishing v) = 2
sampler_phase meeting = 3
sampler_phase collecting = 4
sampler_phase _ = 0

abbrev pub due : SamplerPc → ℕ
due resting = 1
due _ = 0

abbrev pub cycling : SamplerPc → Bool
cycling leaving = false
cycling joining = false
cycling finished = false
cycling crashed = false
cycling _ = true

module _ {fl : Float} where
  abbrev pub phases : List (Worker fl) → ℕ
  phases [] = 0
  phases (w ∷ ws) = phase w.pc + phases ws

  phases-released :
      (ws : List (Worker fl)) → all_at is_ready ws ≡ true → phases (move_to released ws) ≡ phases ws
  phases-released [] h = refl
  phases-released (w ∷ ws) h = ground (arith, phases-released ws)

  phases-written :
      (ws : List (Worker fl))
      → all_at is_written ws ≡ true
      → (phases ws ≡ 4 * length ws) × (phases (move_to starting ws) ≡ 0)
  phases-written [] h = (refl, refl)
  phases-written (w ∷ ws) h =
      let (sum, none_left) = phases-written ws (ground arith) in (ground arith, ground arith)

  pub phases-le : (ws : List (Worker fl)) → phases ws ≤ 4 * length ws
  phases-le [] = omega arith
  phases-le (w ∷ ws) = ground (arith, phases-le ws)

  length-move_to : (pc : WorkerPc) (ws : List (Worker fl)) → length (move_to pc ws) ≡ length ws
  length-move_to pc [] = refl
  length-move_to pc (w ∷ ws) = omega (arith, length-move_to pc ws)

  at_work-move_to :
      (pc : WorkerPc) (ws : List (Worker fl))
      → at_work pc ≡ true
      → all_at at_work (move_to pc ws) ≡ true
  at_work-move_to pc [] h = refl
  at_work-move_to pc (w ∷ ws) h = ground (arith, at_work-move_to pc ws)

module _ (k : Kernel) (fl : Float) (has_ssse3 : Bool) where
  worker_move-phase :
      (pc : WorkerPc) (m : ℕ) (w w' : Worker fl) (st st' : k.St)
      → worker_move k fl has_ssse3 pc true m w st ≡ some (w', st')
      → unless_panicked w'.pc ≡ true
      → (phase w'.pc ≡ suc (phase pc)) × (at_work w'.pc ≡ true)
  unfolding worker_move
  worker_move-phase starting m w w' st st' moved calm = (ground arith, ground arith)
  worker_move-phase released m w w' st st' moved calm = (ground arith, ground arith)
  worker_move-phase loading m w w' st st' moved calm = (ground arith, ground arith)
  worker_move-phase (correcting v) m w w' st st' moved calm = (
    ground (arith, correct_pc k fl has_ssse3 w v st),
    ground (arith, correct_pc k fl has_ssse3 w v st),
  )
  worker_move-phase ready m w w' st st' moved calm = absurd (cc)
  worker_move-phase written m w w' st st' moved calm = absurd (cc)
  worker_move-phase done m w w' st st' moved calm = absurd (cc)
  worker_move-phase panicked m w w' st st' moved calm = absurd (cc)

  move_worker-phases :
      (i m : ℕ) (ws ws' : List (Worker fl)) (st st' : k.St)
      → move_worker k fl has_ssse3 i true m ws st ≡ some (ws', st')
      → all_at unless_panicked ws' ≡ true
      → all_at at_work ws ≡ true
      → (phases ws' ≡ suc (phases ws)) × (all_at at_work ws' ≡ true) × (length ws' ≡ length ws)
  unfolding move_worker
  move_worker-phases i m [] ws' st st' moved calm h = absurd (cc)
  move_worker-phases zero m (w ∷ ws) ws' st st' moved calm h =
      elim (Option-cases (worker_move k fl has_ssse3 w.pc true m w st)) [
        | inl e ↦ absurd (ground arith)
        | inr ((w1, st1), e) ↦
            let (more, kept) = worker_move-phase w.pc m w w1 st st1 e (ground arith) in
            (ground arith, ground arith, ground arith)
      ]
  move_worker-phases (suc i) m (w ∷ ws) ws' st st' moved calm h =
      elim (Option-cases (move_worker k fl has_ssse3 i true m ws st)) [
        | inl e ↦ absurd (ground arith)
        | inr ((ws1, st1), e) ↦
            let (more, kept, size) =
              move_worker-phases i m ws ws1 st st1 e (ground arith) (ground arith) in
            (ground arith, ground arith, ground arith)
      ]

-- The steps of `n` cycles of `workers` workers: six of the sampler and the barriers, and four of each
-- worker.
abbrev pub steps_of : ℕ → ℕ → ℕ
steps_of workers zero = 0
steps_of workers (suc n) = (6 + 4 * workers) + steps_of workers n

module _ {k : Kernel} {fl : Float} where
  -- RUNNING is set, no thread has left its loop, and `count` steps led to `n` openings of the second
  -- barrier.
  pub record Paced (count n : ℕ) (s : System k fl) : Type 0 where
    pub on : s.running ≡ true
    pub going : cycling s.sampler ≡ true
    pub busy : all_at at_work s.workers ≡ true
    pub paid :
        count + due s.sampler
        ≤ steps_of (length s.workers) n + sampler_phase s.sampler + phases s.workers

module _ (k : Kernel) (fl : Float) (has_ssse3 : Bool) (ps : Params) where
  sampler_move-Paced :
      (pc : SamplerPc) (count n : ℕ) (s t : System k fl)
      → s.sampler ≡ pc
      → Paced count n s
      → sampler_move k fl has_ssse3 ps pc s ≡ some t
      → t.sampler ≢ crashed
      → Paced (suc count) n t
  unfolding sampler_move
  sampler_move-Paced polling count n s t at h moved calm = ground arith
  sampler_move-Paced sampling count n s t at h moved calm = ground arith
  sampler_move-Paced (publishing v) count n s t at h moved calm = ground arith
  sampler_move-Paced resting count n s t at h moved calm = ground arith
  sampler_move-Paced pc count n s t at h moved calm = absurd (ground arith)

  first_opens-Paced :
      (pc : SamplerPc) (count n : ℕ) (s t : System k fl)
      → s.sampler ≡ pc
      → Paced count n s
      → first_opens k fl has_ssse3 ps pc s ≡ some t
      → Paced (suc count) n t
  unfolding first_opens
  first_opens-Paced meeting count n s t at h moved =
      let all : all_at is_ready s.workers ≡ true = ground arith in
      let out : t ≡ record s { sampler = collecting; workers = move_to released s.workers } =
        ground arith in
      rw out (record {
        on = h.on;
        going = refl;
        busy = at_work-move_to released s.workers refl;
        paid =
            ground
              (arith, h.paid, phases-released s.workers all, length-move_to released s.workers);
      })
  first_opens-Paced leaving count n s t at h moved = absurd (ground (arith, h.going))
  first_opens-Paced pc count n s t at h moved = absurd (cc)

  second_opens-Paced :
      (pc : SamplerPc) (count n : ℕ) (s t : System k fl)
      → s.sampler ≡ pc
      → Paced count n s
      → second_opens k fl has_ssse3 ps pc s ≡ some t
      → Paced (suc count) (suc n) t
  unfolding second_opens
  second_opens-Paced collecting count n s t at h moved =
      let all : all_at is_written s.workers ≡ true = ground arith in
      let out : t ≡ record s { sampler = resting; workers = move_to starting s.workers } =
        ground arith in
      let (sum, none_left) = phases-written s.workers all in
      rw out (record {
        on = h.on;
        going = refl;
        busy = at_work-move_to starting s.workers refl;
        paid = ground (arith, h.paid, sum, none_left, length-move_to starting s.workers);
      })
  second_opens-Paced pc count n s t at h moved = absurd (cc)

  pub step-Paced :
      (mv : Move) (count n : ℕ) (s t : System k fl)
      → is_signal mv ≡ false
      → Paced count n s
      → step k fl has_ssse3 ps mv s ≡ some t
      → t.sampler ≢ crashed
      → all_at unless_panicked t.workers ≡ true
      → Paced (suc count) (forward mv n) t
  unfolding step
  step-Paced signal count n s t other h moved calm fine = absurd (ground arith)
  step-Paced sampler_step count n s t other h moved calm fine =
      sampler_move-Paced s.sampler count n s t refl h moved calm
  step-Paced open_first count n s t other h moved calm fine =
      first_opens-Paced s.sampler count n s t refl h moved
  step-Paced open_second count n s t other h moved calm fine =
      second_opens-Paced s.sampler count n s t refl h moved
  step-Paced (worker_step i) count n s t other h moved calm fine =
      elim (Option-cases (move_worker k fl has_ssse3 i s.running s.master_tsf s.workers s.kst)) [
        | inl e ↦ absurd (ground arith)
        | inr ((ws, st), e) ↦
            let out : t ≡ record s { workers = ws; kst = st } = ground arith in
            let fine' : all_at unless_panicked ws ≡ true = ground arith in
            let (more, busy, size) =
              move_worker-phases k fl has_ssse3 i s.master_tsf s.workers ws s.kst st (rw h.on at e)
                fine' h.busy in
            rw out (record {
              on = h.on;
              going = h.going;
              busy = busy;
              paid = rw size (omega (arith, h.paid, more));
            })
      ]
