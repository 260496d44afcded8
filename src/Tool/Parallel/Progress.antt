-- ===== src/Tool/Parallel/Progress.antt =====
-- src/bin/tsf_sync_debugfs/threading.rs, `run_parallel`, over registers that stand still but for the
-- writes: while no signal comes, the cycles come to an end and the followers to the master.
use tsf_sync.Prelude.{
  ℕ, zero, suc, ◌+◌, ◌*◌, ◌^◌, ◌<◌, ◌≤◌, ◌≡◌, ◌≢◌, Bool, true, false, some, List, [], ◌∷◌, refl,
  arith, ◌∙◌, sym, ap,
}
use mathlib.Core.Path.{subst}
use tsf_sync.Prelude.Lists.{length, All, All-map}
use tsf_sync.Tool.Float.{Float}
use tsf_sync.Tool.Rt.{Timespec}
use tsf_sync.Tool.Debugfs.{Kernel, TsfFile}
use tsf_sync.Tool.Debugfs.Register.{TsfRegisters}
use tsf_sync.Tool.Threading.{Params}
use tsf_sync.Tool.Threading.Together.{Apart, InReach, Nearer, plains}
use tsf_sync.Tool.Parallel.{
  SamplerPc, Worker, System, Move, all_at, spawn_workers, begin_parallel, run_moves,
}
use tsf_sync.Tool.Parallel.InStep.{InStep, step-InStep, run_moves-cons, begin_parallel-InStep}
use tsf_sync.Tool.Parallel.Finish.{is_signal, Moves}
use tsf_sync.Tool.Parallel.Sequential.{files_of}
use tsf_sync.Tool.Parallel.Kept.{cycles, cycles-cons, forward, Converging}
use tsf_sync.Tool.Parallel.Converge.{
  Ready, step-Converging, begin_parallel-Converging, Rows-Nearer, tells_crashed,
  run_parallel-Nearer,
}
use tsf_sync.Tool.Parallel.Onward.{Paced-Moves}
use tsf_sync.Tool.Parallel.Pace.{
  steps_of, Paced, sampler_phase, phases-le, at_work, phases, step-Paced,
}

steps_of-lt : (a workers n : ℕ) → steps_of workers n < steps_of workers (suc a) → n ≤ a
steps_of-lt a workers zero h = omega arith
steps_of-lt zero workers (suc n) h = absurd (omega arith)
steps_of-lt (suc a) workers (suc n) h = omega (arith, steps_of-lt a workers n (omega arith))

steps_of_lem : (workers n : ℕ) → steps_of workers n ≡ n * (6 + 4 * workers)
steps_of_lem workers zero = omega arith
steps_of_lem workers (suc n) = grind (arith, steps_of_lem workers n)

length-files_of : {fl : Float} (ws : List (Worker fl)) → length (files_of ws) ≡ length ws
length-files_of [] = refl
length-files_of (w ∷ ws) = omega (arith, length-files_of ws)

module _ (k : Kernel) (regs : TsfRegisters k) (fl : Float) (has_ssse3 : Bool) (ps : Params)
    (kp limit m : ℕ) where
  open regs use {tsf}

  spawned_busy :
      (fs : List TsfFile)
      → (all_at at_work (spawn_workers {fl = fl} fs (plains kp limit fs)) ≡ true)
        × (phases (spawn_workers {fl = fl} fs (plains kp limit fs)) ≡ 0)
  unfolding spawn_workers
  spawned_busy [] = (refl, refl)
  spawned_busy (f ∷ fs) = let (busy, none_yet) = spawned_busy fs in (busy, omega (arith, none_yet))

  -- What holds behind `count` steps.
  record Going (count n : ℕ) (st0 : k.St) (s : System k fl) : Type 0 where
    in_step : InStep s
    converging : Converging k regs fl has_ssse3 ps kp limit m n st0 s
    paced : Paced count n s

  Going-subst :
      (count count' n n' : ℕ) (st0 : k.St) (s : System k fl)
      → count ≡ count'
      → n ≡ n'
      → Going count n st0 s
      → Going count' n' st0 s
  Going-subst count count' n n' st0 s same cycle h =
      subst (λ (j : ℕ). Going j n' st0 s) same (subst (λ (j : ℕ). Going count j st0 s) cycle h)

  run_moves-Going :
      (mvs : List Move) (count n : ℕ) (st0 : k.St) (s t : System k fl)
      → Ready k regs fl has_ssse3 ps kp limit m
      → All (λ mv. is_signal mv ≡ false) mvs
      → Going count n st0 s
      → run_moves k fl has_ssse3 ps mvs s ≡ some t
      → Going (length mvs + count) (cycles mvs + n) st0 t
  unfolding run_moves
  run_moves-Going [] count n st0 s t ok_all quiet h ran =
      let same : s ≡ t = ground arith in
      Going-subst count (0 + count) n (0 + n) st0 t (omega arith) (omega arith)
        (subst (Going count n st0) same h)
  run_moves-Going (mv ∷ mvs) count n st0 s t ok_all (other, quiet) h ran =
      let (s', e, later) = run_moves-cons k fl has_ssse3 ps mv mvs s t ran in
      let next =
        step-Converging k regs fl has_ssse3 ps kp limit m mv n st0 s s' ok_all h.converging e in
      let (_, fine) =
        Rows-Nearer k regs fl has_ssse3 ps kp limit m (forward mv n) st0 s'.kst s'.running
          s'.master_tsf s'.workers next.rows in
      let calm =
        tells_crashed k regs fl has_ssse3 ps kp limit m s'.running s'.master_tsf s'.sampler
          next.told in
      let whole =
        run_moves-Going mvs (suc count) (forward mv n) st0 s' t ok_all quiet
          (record {
            in_step = step-InStep k fl has_ssse3 ps mv s s' h.in_step e;
            converging = next;
            paced = step-Paced k fl has_ssse3 ps mv count n s s' other h.paced e calm fine;
          })
          later in
      Going-subst (length mvs + suc count) (length (mv ∷ mvs) + count) (cycles mvs + forward mv n)
        (cycles (mv ∷ mvs) + n) st0 t (omega arith) (cycles-cons mv mvs n) whole

  begin_parallel-Going :
      (now : Timespec) (st : k.St)
      → tsf ps.master.fd st ≡ m
      → All (InReach k regs fl has_ssse3 kp limit m st) ps.followers
      → Going 0 0 st (begin_parallel k fl has_ssse3 ps (plains kp limit ps.followers) now st)
  unfolding begin_parallel
  begin_parallel-Going now st at reach =
      let (busy, none_yet) = spawned_busy ps.followers in
      record {
        in_step = begin_parallel-InStep k fl has_ssse3 ps (plains kp limit ps.followers) now st;
        converging = begin_parallel-Converging k regs fl has_ssse3 ps kp limit m now st at reach;
        paced = record { on = refl; going = refl; busy = busy; paid = omega (arith, none_yet) };
      }

  sampler_phase-le : (pc : SamplerPc) → sampler_phase pc ≤ 4
  sampler_phase-le pc = ground arith

  Going-cycles :
      (count cycle n : ℕ) (st0 : k.St) (s : System k fl)
      → Going count cycle st0 s
      → n * (6 + 4 * length ps.followers) ≤ count
      → n ≤ cycle
  Going-cycles count cycle n st0 s h long =
      let c = length s.workers in
      let size : c ≡ length ps.followers =
        sym (length-files_of s.workers) ∙ ap length h.converging.files in
      let steps : steps_of c n ≡ n * (6 + 4 * length ps.followers) =
        steps_of_lem c n ∙ ap (λ (j : ℕ). n * (6 + 4 * j)) size in
      steps_of-lt cycle c n
        (omega (arith, h.paced.paid, sampler_phase-le s.sampler, phases-le s.workers, steps, long))

module _ (k : Kernel) (regs : TsfRegisters k) (fl : Float) (has_ssse3 : Bool) (ps : Params)
    (kp limit : ℕ) where
  open regs use {tsf}

  -- With controllers without a filter, of one gain of at most 1,000,000 ppm and one limit of at least
  -- 1, files that can be read at an offset and are all different, and registers that change by the
  -- writes alone, with clocks below 2 ^ 63 and errors that times the gain fit an i64: while no signal
  -- comes, in any order of the steps, some thread can always make a step, and behind n times 6 + 4 w
  -- steps, for w followers, each follower is at least n closer to the master (or on it).
  pub run_parallel-converges :
      (n : ℕ) (mvs : List Move) (now : Timespec) (st : k.St) (t : System k fl)
      → 1 ≤ limit
      → limit < 2 ^ 63
      → kp ≤ 1_000_000
      → tsf ps.master.fd st < 2 ^ 63
      → ps.master.pread_ok ≡ true
      → All (λ f. f.fd ≢ ps.master.fd) ps.followers
      → Apart ps.followers
      → All (InReach k regs fl has_ssse3 kp limit (tsf ps.master.fd st) st) ps.followers
      → All (λ mv. is_signal mv ≡ false) mvs
      → run_moves k fl has_ssse3 ps mvs
          (begin_parallel k fl has_ssse3 ps (plains kp limit ps.followers) now st)
        ≡ some t
      → n * (6 + 4 * length ps.followers) ≤ length mvs
      → All (Nearer k regs fl has_ssse3 kp limit (tsf ps.master.fd st) n st t.kst) ps.followers
        × Moves k fl has_ssse3 ps t
  run_parallel-converges n mvs now st t low high gain hm pread free apart reach quiet ran long =
      let m = tsf ps.master.fd st in
      let g =
        run_moves-Going k regs fl has_ssse3 ps kp limit m mvs 0 0 st _ t
          (low, high, gain, hm, pread, free, apart) quiet
          (begin_parallel-Going k regs fl has_ssse3 ps kp limit m now st refl reach) ran in
      let enough : n ≤ cycles mvs + 0 =
        Going-cycles k regs fl has_ssse3 ps kp limit m (length mvs + 0) (cycles mvs + 0) n st t g
          (omega (arith, long)) in
      let (nearer, _, _, _) =
        run_parallel-Nearer k regs fl has_ssse3 ps kp limit mvs now st t low high gain hm pread free
          apart reach ran in
      (
        All-map (Nearer k regs fl has_ssse3 kp limit m (cycles mvs) st t.kst)
            (Nearer k regs fl has_ssse3 kp limit m n st t.kst) ps.followers
            (λ f closer. omega (arith, closer, enough)) nearer,
        Paced-Moves k fl has_ssse3 ps (length mvs + 0) (cycles mvs + 0) t g.in_step g.paced,
      )
