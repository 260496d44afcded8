-- ===== src/Tool/Parallel/Converge.antt =====
-- src/bin/tsf_sync_debugfs/threading.rs, `run_parallel`, over registers that stand still but for the
-- writes: all the workers in any order of the steps of the threads.
use mathlib.Core.Path.{subst}
use tsf_sync.Prelude.{
  ℕ, ◌+◌, ◌^◌, ◌<◌, ◌≤◌, ◌≡◌, ◌≢◌, inl, inr, Bool, true, false, some, List, [], ◌∷◌, refl, arith,
  ◌∙◌, sym, ap,
}
use tsf_sync.Prelude.Tests.{Option-cases}
use tsf_sync.Prelude.Lists.{All}
use tsf_sync.Tool.Float.{Float}
use tsf_sync.Tool.Rt.{Timespec}
use tsf_sync.Tool.Debugfs.{Kernel, TsfFile}
use tsf_sync.Tool.Debugfs.Register.{TsfRegisters}
use tsf_sync.Tool.Threading.{Params}
use tsf_sync.Tool.Threading.Together.{Apart, InReach, Nearer, plains}
use tsf_sync.Tool.Parallel.{
  SamplerPc, crashed, Worker, System, Move, signal, sampler_step, open_first, open_second,
  worker_step, all_at, spawn_workers, move_worker, step, begin_parallel, run_moves,
}
use tsf_sync.Tool.Parallel.InStep.{run_moves-cons}
use tsf_sync.Tool.Parallel.Sequential.{files_of}
use tsf_sync.Tool.Parallel.Kept.{
  cycles, cycles-cons, forward, unless_panicked, tells, Converging, Rows, knows_signal, Rows-knows,
  sampler_move-Converging, first_opens-Converging, second_opens-Converging,
}
use tsf_sync.Tool.Parallel.Nearer.{move_worker-OnTrack}

module _ (k : Kernel) (regs : TsfRegisters k) (fl : Float) (has_ssse3 : Bool) (ps : Params)
    (kp limit m : ℕ) where
  open regs use {tsf}

  -- Gains and clocks that the controllers are made for, and files of their own.
  abbrev pub Ready : Type 0
  Ready =
      (1 ≤ limit)
      × (limit < 2 ^ 63)
      × (kp ≤ 1_000_000)
      × (m < 2 ^ 63)
      × (ps.master.pread_ok ≡ true)
      × All (λ f. f.fd ≢ ps.master.fd) ps.followers
      × Apart ps.followers

  pub step-Converging :
      (mv : Move) (n : ℕ) (st0 : k.St) (s t : System k fl)
      → Ready
      → Converging k regs fl has_ssse3 ps kp limit m n st0 s
      → step k fl has_ssse3 ps mv s ≡ some t
      → Converging k regs fl has_ssse3 ps kp limit m (forward mv n) st0 t
  unfolding step
  step-Converging signal n st0 s t ok_all h moved =
      let out : t ≡ record s { running = false } = ground arith in
      rw out (record {
        rows =
            Rows-knows k regs fl has_ssse3 ps kp limit m n st0 s.kst s.running false s.master_tsf
              s.master_tsf s.workers
              (knows_signal k regs fl has_ssse3 ps kp limit m s.running s.master_tsf) h.rows;
        files = h.files;
        still = h.still;
        told = ground (arith, h.told);
      })
  step-Converging sampler_step n st0 s t (_, _, _, _, pread, _, _) h moved =
      sampler_move-Converging k regs fl has_ssse3 ps kp limit m s.sampler n st0 s t pread refl h
        moved
  step-Converging open_first n st0 s t ok_all h moved =
      first_opens-Converging k regs fl has_ssse3 ps kp limit m s.sampler n st0 s t refl h moved
  step-Converging open_second n st0 s t ok_all h moved =
      second_opens-Converging k regs fl has_ssse3 ps kp limit m s.sampler n st0 s t refl h moved
  step-Converging (worker_step i) n st0 s t (low, high, gain, hm, pread, free, apart) h moved =
      elim (Option-cases (move_worker k fl has_ssse3 i s.running s.master_tsf s.workers s.kst)) [
        | inl e ↦ absurd (ground arith)
        | inr ((ws, st), e) ↦
            let out : t ≡ record s { workers = ws; kst = st } = ground arith in
            let (rows', files', leaves) =
              move_worker-OnTrack k regs fl has_ssse3 kp limit m i n st0 s.running s.master_tsf
                s.kst st s.workers ws low high gain hm e (subst Apart (sym (h.files)) apart)
                h.rows in
            rw out (record {
              rows = rows';
              files = files' ∙ h.files;
              still =
                  leaves ps.master.fd
                    (subst (All (λ (f : TsfFile). f.fd ≢ ps.master.fd)) (sym (h.files)) free)
                  ∙ h.still;
              told = h.told;
            })
      ]

  run_moves-Converging :
      (mvs : List Move) (n : ℕ) (st0 : k.St) (s t : System k fl)
      → Ready
      → Converging k regs fl has_ssse3 ps kp limit m n st0 s
      → run_moves k fl has_ssse3 ps mvs s ≡ some t
      → Converging k regs fl has_ssse3 ps kp limit m (cycles mvs + n) st0 t
  unfolding run_moves
  run_moves-Converging [] n st0 s t ok_all h ran =
      let same : s ≡ t = ground arith in
      let none_more : n ≡ 0 + n = omega arith in
      subst (λ (j : ℕ). Converging k regs fl has_ssse3 ps kp limit m j st0 t) none_more
        (subst (Converging k regs fl has_ssse3 ps kp limit m n st0) same h)
  run_moves-Converging (mv ∷ mvs) n st0 s t ok_all h ran =
      let (s', e, later) = run_moves-cons k fl has_ssse3 ps mv mvs s t ran in
      let next = step-Converging mv n st0 s s' ok_all h e in
      let whole = run_moves-Converging mvs (forward mv n) st0 s' t ok_all next later in
      subst (λ (j : ℕ). Converging k regs fl has_ssse3 ps kp limit m j st0 t) (cycles-cons mv mvs n)
        whole

  begin-Rows :
      (fs : List TsfFile) (st : k.St) (running : Bool)
      → All (InReach k regs fl has_ssse3 kp limit m st) fs
      → Rows k regs fl has_ssse3 ps kp limit m 0 st st running 0
          (spawn_workers fs (plains kp limit fs))
        × (files_of (spawn_workers {fl = fl} fs (plains kp limit fs)) ≡ fs)
  unfolding spawn_workers
  begin-Rows [] st running h = (tt, refl)
  begin-Rows (f ∷ fs) st running (one, h) =
      let (rows, files) = begin-Rows fs st running h in
      (((refl, refl, one, omega arith), rows), ap (λ (gs : List TsfFile). f ∷ gs) files)

  pub begin_parallel-Converging :
      (now : Timespec) (st : k.St)
      → tsf ps.master.fd st ≡ m
      → All (InReach k regs fl has_ssse3 kp limit m st) ps.followers
      → Converging k regs fl has_ssse3 ps kp limit m 0 st
          (begin_parallel k fl has_ssse3 ps (plains kp limit ps.followers) now st)
  unfolding begin_parallel
  begin_parallel-Converging now st at reach =
      let (rows, files) = begin-Rows ps.followers st true reach in
      record { rows = rows; files = files; still = at; told = refl }

  pub Rows-Nearer :
      (n : ℕ) (st0 st : k.St) (running : Bool) (told : ℕ) (ws : List (Worker fl))
      → Rows k regs fl has_ssse3 ps kp limit m n st0 st running told ws
      → All (Nearer k regs fl has_ssse3 kp limit m n st0 st) (files_of ws)
        × (all_at unless_panicked ws ≡ true)
  Rows-Nearer n st0 st running told [] h = (tt, refl)
  Rows-Nearer n st0 st running told (w ∷ ws) ((know, _, _, near), h) =
      let (nears, calm) = Rows-Nearer n st0 st running told ws h in
      let fine : unless_panicked w.pc ≡ true = ground arith in
      ((omega (arith, near), nears), ground arith)

  pub tells_crashed :
      (running : Bool) (told : ℕ) (pc : SamplerPc) → tells m running told pc ≡ true → pc ≢ crashed
  tells_crashed running told pc h e = ground arith

module _ (k : Kernel) (regs : TsfRegisters k) (fl : Float) (has_ssse3 : Bool) (ps : Params)
    (kp limit : ℕ) where
  open regs use {tsf}

  -- With controllers without a filter, of one gain from 0 to 1,000,000 ppm and one limit from 1 up,
  -- files that can be read at an offset and are all different, and registers that change by the
  -- writes alone, with clocks below 2 ^ 63 and errors that times the gain fit an i64: in every
  -- state that the threads can come to, in any order of their steps and wherever the signal comes,
  -- each follower is closer to the master by at least the number of the openings of the second
  -- barrier (or on it), the master's register is what it was, and no thread has panicked.
  pub run_parallel-Nearer :
      (mvs : List Move) (now : Timespec) (st : k.St) (t : System k fl)
      → 1 ≤ limit
      → limit < 2 ^ 63
      → kp ≤ 1_000_000
      → tsf ps.master.fd st < 2 ^ 63
      → ps.master.pread_ok ≡ true
      → All (λ f. f.fd ≢ ps.master.fd) ps.followers
      → Apart ps.followers
      → All (InReach k regs fl has_ssse3 kp limit (tsf ps.master.fd st) st) ps.followers
      → run_moves k fl has_ssse3 ps mvs
          (begin_parallel k fl has_ssse3 ps (plains kp limit ps.followers) now st)
        ≡ some t
      → All
          (Nearer k regs fl has_ssse3 kp limit (tsf ps.master.fd st) (cycles mvs) st t.kst)
          ps.followers
        × (tsf ps.master.fd t.kst ≡ tsf ps.master.fd st)
        × (all_at unless_panicked t.workers ≡ true)
        × (t.sampler ≢ crashed)
  run_parallel-Nearer mvs now st t low high gain hm pread free apart reach ran =
      let m = tsf ps.master.fd st in
      let c =
        run_moves-Converging k regs fl has_ssse3 ps kp limit m mvs 0 st _ t
          (low, high, gain, hm, pread, free, apart)
          (begin_parallel-Converging k regs fl has_ssse3 ps kp limit m now st refl reach) ran in
      let (nearer, calm) =
        Rows-Nearer k regs fl has_ssse3 ps kp limit m (cycles mvs + 0) st t.kst t.running
          t.master_tsf t.workers c.rows in
      let same : cycles mvs + 0 ≡ cycles mvs = omega arith in
      (
        subst (λ (j : ℕ). All (Nearer k regs fl has_ssse3 kp limit m j st t.kst) ps.followers) same
            (subst (All (Nearer k regs fl has_ssse3 kp limit m (cycles mvs + 0) st t.kst)) c.files
              nearer),
        c.still,
        calm,
        tells_crashed k regs fl has_ssse3 ps kp limit m t.running t.master_tsf t.sampler c.told,
      )
