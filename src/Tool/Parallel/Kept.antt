-- ===== src/Tool/Parallel/Kept.antt =====
-- src/bin/tsf_sync_debugfs/threading.rs, `run_parallel`, over registers that stand still but for the
-- writes: what the steps of the sampler and the barriers keep of the followers.
use tsf_sync.Prelude.{
  ℕ, suc, ◌+◌, ◌≡◌, Bool, true, false, not, some, List, [], ◌∷◌, refl, arith, ◌∙◌, ap,
}
use tsf_sync.Prelude.Tests.{◌==◌, ==_refl}
use tsf_sync.Prelude.Lists.{All}
use tsf_sync.Tool.Float.{Float}
use tsf_sync.Tool.Debugfs.{Kernel, TsfFile}
use tsf_sync.Tool.Debugfs.Register.{TsfRegisters, read_tsf-tsf}
use tsf_sync.Tool.Threading.{Params}
use tsf_sync.Tool.Parallel.{
  WorkerPc, starting, released, panicked, SamplerPc, polling, sampling, publishing, meeting,
  collecting, resting, leaving, joining, finished, crashed, Worker, System, Move, signal,
  sampler_step, open_first, open_second, worker_step, all_at, move_to, is_ready, is_written,
  sampler_move, first_opens, second_opens,
}
use tsf_sync.Tool.Parallel.Sequential.{files_of}
use tsf_sync.Tool.Parallel.Nearer.{knows, earned, OnTrack}

-- The cycles that are behind the workers: the openings of the second barrier.
abbrev pub cycles : List Move → ℕ
cycles [] = 0
cycles (open_second ∷ mvs) = suc (cycles mvs)
cycles (_ ∷ mvs) = cycles mvs

abbrev pub forward : Move → ℕ → ℕ
forward open_second n = suc n
forward _ n = n

pub cycles-cons :
    (mv : Move) (mvs : List Move) (n : ℕ) → cycles mvs + forward mv n ≡ cycles (mv ∷ mvs) + n
cycles-cons signal mvs n = omega arith
cycles-cons sampler_step mvs n = omega arith
cycles-cons open_first mvs n = omega arith
cycles-cons open_second mvs n = omega arith
cycles-cons (worker_step i) mvs n = omega arith

abbrev pub unless_panicked : WorkerPc → Bool
unless_panicked panicked = false
unless_panicked _ = true

-- What the sampler is to publish, or has published, is the master's value.
abbrev pub tells : ℕ → Bool → ℕ → SamplerPc → Bool
tells m running told (publishing v) = v == m
tells m running told meeting = told == m
tells m running told collecting = told == m
tells m running told leaving = not running
tells m running told crashed = false
tells m running told _ = true

module _ (k : Kernel) (regs : TsfRegisters k) (fl : Float) (has_ssse3 : Bool) (ps : Params)
    (kp limit m : ℕ) where
  open regs use {tsf}

  pub record Converging (n : ℕ) (st0 : k.St) (s : System k fl) : Type 0 where
    pub rows :
        All (OnTrack k regs fl has_ssse3 kp limit m n st0 s.running s.master_tsf s.kst) s.workers
    pub files : files_of s.workers ≡ ps.followers
    pub still : tsf ps.master.fd s.kst ≡ m
    pub told : tells m s.running s.master_tsf s.sampler ≡ true

  abbrev pub Rows : ℕ → k.St → k.St → Bool → ℕ → List (Worker fl) → Type 0
  Rows n st0 st running told = All (OnTrack k regs fl has_ssse3 kp limit m n st0 running told st)

  -- The flag is cleared.
  pub knows_signal :
      (running : Bool) (told : ℕ) (pc : WorkerPc)
      → knows m running told pc ≡ true
      → knows m false told pc ≡ true
  knows_signal running told pc h = ground arith

  -- The master's value is published.
  pub knows_told :
      (running : Bool) (told : ℕ) (pc : WorkerPc)
      → knows m running told pc ≡ true
      → knows m running m pc ≡ true
  knows_told running told pc h = ground (arith, ==_refl m)

  pub Rows-knows :
      (n : ℕ) (st0 st : k.St) (running running' : Bool) (told told' : ℕ) (ws : List (Worker fl))
      → ((pc : WorkerPc) → knows m running told pc ≡ true → knows m running' told' pc ≡ true)
      → Rows n st0 st running told ws
      → Rows n st0 st running' told' ws
  Rows-knows n st0 st running running' told told' [] f h = tt
  Rows-knows n st0 st running running' told told' (w ∷ ws) f ((know, own, reach, near), h) =
      ((f w.pc know, own, reach, near), Rows-knows n st0 st running running' told told' ws f h)

  -- A barrier opens.
  Rows-move_to :
      (p : WorkerPc → Bool) (pc : WorkerPc) (n n' : ℕ) (st0 st : k.St) (running : Bool) (told : ℕ)
      (ws : List (Worker fl))
      → ((q : WorkerPc) → p q ≡ true → n' + earned pc ≡ n + earned q)
      → knows m running told pc ≡ true
      → all_at p ws ≡ true
      → Rows n st0 st running told ws
      → Rows n' st0 st running told (move_to pc ws)
  Rows-move_to p pc n n' st0 st running told [] f know at h = tt
  Rows-move_to p pc n n' st0 st running told (w ∷ ws) f know at ((_, own, reach, near), h) = (
    (know, own, reach, omega (arith, near, f w.pc (ground arith))),
    Rows-move_to p pc n n' st0 st running told ws f know (ground arith) h,
  )

  files_of-move_to :
      (pc : WorkerPc) (ws : List (Worker fl)) → files_of (move_to pc ws) ≡ files_of ws
  files_of-move_to pc [] = refl
  files_of-move_to pc (w ∷ ws) =
      ap (λ (fs : List TsfFile). w.follower ∷ fs) (files_of-move_to pc ws)

  pub sampler_move-Converging :
      (pc : SamplerPc) (n : ℕ) (st0 : k.St) (s t : System k fl)
      → ps.master.pread_ok ≡ true
      → s.sampler ≡ pc
      → Converging n st0 s
      → sampler_move k fl has_ssse3 ps pc s ≡ some t
      → Converging n st0 t
  unfolding sampler_move
  sampler_move-Converging polling n st0 s t pread at h moved = ground arith
  sampler_move-Converging sampling n st0 s t pread at h moved =
      let read = read_tsf-tsf k regs ps.master pread has_ssse3 s.kst in
      let out : t ≡ record s { sampler = publishing (tsf ps.master.fd s.kst) } =
        ground (arith, read) in
      rw out (record {
        rows = h.rows;
        files = h.files;
        still = h.still;
        told = ground (arith, h.still, ==_refl m);
      })
  sampler_move-Converging (publishing v) n st0 s t pread at h moved =
      let same : v ≡ m = ground (arith, h.told) in
      let out : t ≡ record s { master_tsf = m; sampler = meeting } = ground arith in
      rw out (record {
        rows =
            Rows-knows n st0 s.kst s.running s.running s.master_tsf m s.workers
              (knows_told s.running s.master_tsf) h.rows;
        files = h.files;
        still = h.still;
        told = ==_refl m;
      })
  sampler_move-Converging resting n st0 s t pread at h moved = ground arith
  sampler_move-Converging joining n st0 s t pread at h moved = ground arith
  sampler_move-Converging meeting n st0 s t pread at h moved = absurd (cc)
  sampler_move-Converging collecting n st0 s t pread at h moved = absurd (cc)
  sampler_move-Converging leaving n st0 s t pread at h moved = absurd (cc)
  sampler_move-Converging finished n st0 s t pread at h moved = absurd (cc)
  sampler_move-Converging crashed n st0 s t pread at h moved = absurd (cc)

  -- The first barrier opens, in the loop or after it.
  released-Converging :
      (n : ℕ) (st0 : k.St) (s t : System k fl) (pc : SamplerPc)
      → all_at is_ready s.workers ≡ true
      → Converging n st0 s
      → knows m s.running s.master_tsf released ≡ true
      → tells m s.running s.master_tsf pc ≡ true
      → t ≡ record s { sampler = pc; workers = move_to released s.workers }
      → Converging n st0 t
  released-Converging n st0 s t pc all h know tell out = rw out (record {
    rows =
        Rows-move_to is_ready released n n st0 s.kst s.running s.master_tsf s.workers
          (λ q e. ground arith) know all h.rows;
    files = files_of-move_to released s.workers ∙ h.files;
    still = h.still;
    told = tell;
  })

  pub first_opens-Converging :
      (pc : SamplerPc) (n : ℕ) (st0 : k.St) (s t : System k fl)
      → s.sampler ≡ pc
      → Converging n st0 s
      → first_opens k fl has_ssse3 ps pc s ≡ some t
      → Converging n st0 t
  unfolding first_opens
  first_opens-Converging meeting n st0 s t at h moved =
      released-Converging n st0 s t collecting (ground arith) h (ground (arith, h.told))
        (ground (arith, h.told)) (ground arith)
  first_opens-Converging leaving n st0 s t at h moved =
      released-Converging n st0 s t joining (ground arith) h (ground (arith, h.told))
        (ground (arith, h.told)) (ground arith)
  first_opens-Converging pc n st0 s t at h moved = absurd (cc)

  pub second_opens-Converging :
      (pc : SamplerPc) (n : ℕ) (st0 : k.St) (s t : System k fl)
      → s.sampler ≡ pc
      → Converging n st0 s
      → second_opens k fl has_ssse3 ps pc s ≡ some t
      → Converging (suc n) st0 t
  unfolding second_opens
  second_opens-Converging collecting n st0 s t at h moved =
      let all : all_at is_written s.workers ≡ true = ground arith in
      let out : t ≡ record s { sampler = resting; workers = move_to starting s.workers } =
        ground arith in
      rw out (record {
        rows =
            Rows-move_to is_written starting n (suc n) st0 s.kst s.running s.master_tsf s.workers
              (λ q e. ground arith) refl all h.rows;
        files = files_of-move_to starting s.workers ∙ h.files;
        still = h.still;
        told = refl;
      })
  second_opens-Converging pc n st0 s t at h moved = absurd (cc)
