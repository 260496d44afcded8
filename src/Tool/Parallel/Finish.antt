-- ===== src/Tool/Parallel/Finish.antt =====
-- src/bin/tsf_sync_debugfs/threading.rs, `run_parallel`: a signal that comes while the workers wait
-- at the first barrier, and the steps that remain then.
use tsf_sync.Prelude.{
  ℕ, zero, suc, ◌+◌, ◌≡◌, ◌⊎◌, inl, inr, Bool, true, false, some, List, [], ◌∷◌, refl, arith,
}
use tsf_sync.Prelude.Tests.{if◌then◌else◌, Bool-cases, Option-cases}
use tsf_sync.Prelude.Lists.{length, All}
use tsf_sync.Tool.Float.{Float}
use tsf_sync.Tool.Stats
use tsf_sync.Tool.Stats.{WelfordStats}
use tsf_sync.Tool.Debugfs.{Kernel}
use tsf_sync.Tool.Threading.{Params}
use tsf_sync.Tool.Parallel.{
  WorkerPc, released, done, SamplerPc, polling, sampling, publishing, meeting, collecting, resting,
  leaving, joining, finished, Worker, System, Move, signal, sampler_step, open_first, open_second,
  worker_step, is_ready, is_gone, all_at, move_to, worker_move, move_worker, sampler_move,
  first_opens, second_opens, step, run_moves,
}
use tsf_sync.Tool.Parallel.InStep.{run_moves-cons}
use tsf_sync.Tool.Parallel.Places.{leaves}

-- The steps that the sampler has left, and the workers that have not left.
abbrev pub rank : SamplerPc → ℕ
rank resting = 4
rank polling = 3
rank leaving = 2
rank joining = 1
rank _ = 0

abbrev pub ending : SamplerPc → Bool
ending resting = true
ending polling = true
ending leaving = true
ending joining = true
ending finished = true
ending _ = false

abbrev pub calm : SamplerPc → WorkerPc → Bool
calm joining pc = leaves pc
calm finished pc = is_gone pc
calm _ pc = is_ready pc

abbrev pub is_signal : Move → Bool
is_signal signal = true
is_signal _ = false

module _ {fl : Float} where
  abbrev pub remaining_workers : List (Worker fl) → ℕ
  remaining_workers [] = 0
  remaining_workers (w ∷ ws) = (if is_gone w.pc then 0 else 1) + remaining_workers ws

  remaining_workers-move_to :
      (ws : List (Worker fl))
      → all_at is_ready ws ≡ true
      → remaining_workers (move_to released ws) ≡ remaining_workers ws
  remaining_workers-move_to [] h = refl
  remaining_workers-move_to (w ∷ ws) h = ground (arith, remaining_workers-move_to ws)

  remaining_workers-gone :
      (ws : List (Worker fl)) → all_at is_gone ws ≡ true → remaining_workers ws ≡ 0
  remaining_workers-gone [] h = refl
  remaining_workers-gone (w ∷ ws) h = ground (arith, remaining_workers-gone ws)

  leaves-released : (ws : List (Worker fl)) → all_at leaves (move_to released ws) ≡ true
  leaves-released [] = refl
  leaves-released (w ∷ ws) = leaves-released ws

module _ {k : Kernel} {fl : Float} where
  -- The signal has come, the sampler is behind the second barrier or the loop, and the workers wait
  -- at the first barrier, or leave after it has opened for the last time.
  pub record Calm (s : System k fl) : Type 0 where
    pub off : s.running ≡ false
    pub late : ending s.sampler ≡ true
    pub settled : all_at (calm s.sampler) s.workers ≡ true

  abbrev pub remaining : System k fl → ℕ
  remaining s = rank s.sampler + remaining_workers s.workers

module _ (k : Kernel) (fl : Float) (has_ssse3 : Bool) where
  -- Only a worker behind the last barrier moves, and it leaves.
  move_worker-calm :
      (sp : SamplerPc) (i m : ℕ) (ws : List (Worker fl)) (st : k.St) (ws' : List (Worker fl))
      (st' : k.St)
      → all_at (calm sp) ws ≡ true
      → move_worker k fl has_ssse3 i false m ws st ≡ some (ws', st')
      → (all_at (calm sp) ws' ≡ true) × (suc (remaining_workers ws') ≡ remaining_workers ws)
  unfolding move_worker worker_move
  move_worker-calm sp i m [] st ws' st' h moved = (cc, cc)
  move_worker-calm sp zero m (w ∷ ws) st ws' st' h moved = (ground arith, ground arith)
  move_worker-calm sp (suc i) m (w ∷ ws) st ws' st' h moved =
      elim (Option-cases (move_worker k fl has_ssse3 i false m ws st)) [
        | inl e ↦ absurd (ground arith)
        | inr ((ws1, st1), e) ↦
            let (kept, fewer) = move_worker-calm sp i m ws st ws1 st1 (ground arith) e in
            (ground arith, ground arith)
      ]

  -- While one of them has not left, one can.
  leaver :
      (m : ℕ) (ws : List (Worker fl)) (st : k.St)
      → all_at leaves ws ≡ true
      → all_at is_gone ws ≡ false
      → (i : ℕ) × (ws' : List (Worker fl)) × (st' : k.St) × (move_worker k fl has_ssse3 i false m ws
            st
          ≡ some (ws', st'))
  unfolding move_worker worker_move
  leaver m [] st h some_left = absurd (cc)
  leaver m (w ∷ ws) st h some_left = elim (Bool-cases (is_gone w.pc)) [
    | inl e ↦
        let (i, ws', st', moved) = leaver m ws st (ground arith) (ground arith) in
        (suc i, w ∷ ws', st', ground arith)
    | inr e ↦ (zero, record w { stats = Stats.new; pc = done } ∷ ws, st, ground arith)
  ]

module _ (k : Kernel) (fl : Float) (has_ssse3 : Bool) (ps : Params) where
  sampler_move-Calm :
      (pc : SamplerPc) (s t : System k fl)
      → s.sampler ≡ pc
      → Calm s
      → sampler_move k fl has_ssse3 ps pc s ≡ some t
      → Calm t × (suc (remaining t) ≡ remaining s)
  unfolding sampler_move
  sampler_move-Calm polling s t at h moved = (ground arith, ground arith)
  sampler_move-Calm resting s t at h moved = (ground arith, ground arith)
  sampler_move-Calm joining s t at h moved =
      (ground arith, ground (arith, remaining_workers-gone s.workers))
  sampler_move-Calm sampling s t at h moved = absurd (ground arith)
  sampler_move-Calm (publishing v) s t at h moved = absurd (ground arith)
  sampler_move-Calm pc s t at h moved = absurd (cc)

  first_opens-Calm :
      (pc : SamplerPc) (s t : System k fl)
      → s.sampler ≡ pc
      → Calm s
      → first_opens k fl has_ssse3 ps pc s ≡ some t
      → Calm t × (suc (remaining t) ≡ remaining s)
  unfolding first_opens
  first_opens-Calm meeting s t at h moved = absurd (ground arith)
  first_opens-Calm leaving s t at h moved = (
    ground (arith, leaves-released s.workers),
    ground (arith, remaining_workers-move_to s.workers),
  )
  first_opens-Calm pc s t at h moved = absurd (cc)

  second_opens-Calm :
      (pc : SamplerPc) (s t : System k fl)
      → s.sampler ≡ pc
      → Calm s
      → second_opens k fl has_ssse3 ps pc s ≡ some t
      → Calm t × (suc (remaining t) ≡ remaining s)
  unfolding second_opens
  second_opens-Calm collecting s t at h moved = absurd (ground arith)
  second_opens-Calm pc s t at h moved = absurd (cc)

  step-Calm :
      (mv : Move) (s t : System k fl)
      → is_signal mv ≡ false
      → Calm s
      → step k fl has_ssse3 ps mv s ≡ some t
      → Calm t × (suc (remaining t) ≡ remaining s)
  unfolding step
  step-Calm signal s t other h moved = absurd (ground arith)
  step-Calm sampler_step s t other h moved = sampler_move-Calm s.sampler s t refl h moved
  step-Calm open_first s t other h moved = first_opens-Calm s.sampler s t refl h moved
  step-Calm open_second s t other h moved = second_opens-Calm s.sampler s t refl h moved
  step-Calm (worker_step i) s t other h moved =
      elim (Option-cases (move_worker k fl has_ssse3 i s.running s.master_tsf s.workers s.kst)) [
        | inl e ↦ absurd (ground arith)
        | inr ((ws, st), e) ↦
            let (kept, fewer) =
              move_worker-calm k fl has_ssse3 s.sampler i s.master_tsf s.workers s.kst ws st
                h.settled (rw h.off at e) in
            (ground arith, ground arith)
      ]

  resting_moves :
      (s : System k fl) → (t : System k fl) × (sampler_move k fl has_ssse3 ps resting s ≡ some t)
  unfolding sampler_move
  resting_moves s = (_, refl)

  -- Some thread can go on.
  abbrev pub Moves : System k fl → Type 0
  Moves s =
      (mv : Move) × (is_signal mv ≡ false)
      × (t : System k fl) × (step k fl has_ssse3 ps mv s ≡ some t)

  Calm-Moves :
      (pc : SamplerPc) (s : System k fl) → s.sampler ≡ pc → Calm s → (pc ≡ finished) ⊎ Moves s
  unfolding step sampler_move first_opens
  Calm-Moves polling s at h = inr (sampler_step, refl, record s { sampler = leaving }, ground arith)
  Calm-Moves resting s at h =
      let (t, moved) = resting_moves s in inr (sampler_step, refl, t, ground arith)
  Calm-Moves leaving s at h = inr (
    open_first,
    refl,
    record s { sampler = joining; workers = move_to released s.workers },
    ground arith,
  )
  Calm-Moves joining s at h = elim (Bool-cases (all_at is_gone s.workers)) [
    | inl e ↦ inr (sampler_step, refl, record s { sampler = finished }, ground arith)
    | inr e ↦
        let (i, ws, st, moved) =
          leaver k fl has_ssse3 s.master_tsf s.workers s.kst (ground arith) e in
        inr (worker_step i, refl, record s { workers = ws; kst = st }, ground arith)
  ]
  Calm-Moves finished s at h = inl refl
  Calm-Moves pc s at h = absurd (ground arith)

  -- Where the signal has come, the sampler is behind the second barrier and the workers wait at the
  -- first one: every order of further steps loses one of the steps that remain with each step, and
  -- as long as the sampler has not returned some thread can make one. So `run_parallel` returns, and
  -- all the workers have left the loop then.
  pub run_parallel-returns :
      (mvs : List Move) (s t : System k fl)
      → All (λ mv. is_signal mv ≡ false) mvs
      → Calm s
      → run_moves k fl has_ssse3 ps mvs s ≡ some t
      → (length mvs + remaining t ≡ remaining s)
        × (((t.sampler ≡ finished) × (all_at is_gone t.workers ≡ true)) ⊎ Moves t)
  unfolding run_moves
  run_parallel-returns [] s t quiet h ran = elim (Calm-Moves s.sampler s refl h) [
    | inl over ↦ (ground arith, inl (ground arith, ground arith))
    | inr (mv, other, s', moved) ↦ (ground arith, inr (mv, other, s', ground arith))
  ]
  run_parallel-returns (mv ∷ mvs) s t (other, quiet) h ran =
      let (s', e, later) = run_moves-cons k fl has_ssse3 ps mv mvs s t ran in
      let (kept, fewer) = step-Calm mv s s' other h e in
      let (count, rest) = run_parallel-returns mvs s' t quiet kept later in
      (omega (arith, count, fewer), rest)
