-- ===== src/Tool/Main/Arguments.antt =====
-- src/bin/tsf_sync_debugfs/main.rs: what a set-up that comes to the call of a loop has made of the
-- arguments.
use mathlib.Core.Path.{subst}
use tsf_sync.Prelude.{
  ℕ, ◌⊎◌, inl, inr, ◌*◌, ◌/◌, ◌%◌, ◌^◌, ◌<◌, ◌≡◌, refl, ap, sym, ◌∙◌, suc, Bool, true, false,
  Option, none, some, List, [], ◌∷◌, arith,
}
use tsf_sync.Prelude.Tests.{ltb, ◌==◌, Bool-cases, Option-cases}
use tsf_sync.Prelude.Lists.{length}
use tsf_sync.Prelude.Int.{ℤ, pos, wrap64, wrap64_fits, signed64, ◌*ℤ◌}
use tsf_sync.Prelude.Text.{Bytes, codes}
use tsf_sync.Tool.Float.{Float}
use tsf_sync.Tool.Control.{Controller}
use tsf_sync.Tool.Control
use tsf_sync.Tool.Rt.{RtCall}
use tsf_sync.Tool.Debugfs.{Kernel, TsfFile, IoError, Outcome, ok, err, panic, open_tsf, read_tsf}
use tsf_sync.Tool.Threading.{Params}
use tsf_sync.Tool.Main.{
  Cli, Setup, runs, report_cycles, period_of, open_followers, build_controllers, prepare, on_ok,
  with_followers, with_master, set_up,
}

Outcome-cases {ℓ} :
    {A : Type ℓ} (r : Outcome A)
    → ((a : A) × (r ≡ ok a)) ⊎ (((e : IoError) × (r ≡ err e)) ⊎ (r ≡ panic))
Outcome-cases (ok a) = inl (a, refl)
Outcome-cases (err e) = inr (inl (e, refl))
Outcome-cases panic = inr (inr refl)

module _ (k : Kernel) where
  -- The files are those of the paths, opened one behind the other.
  abbrev pub Opened : List Bytes → k.St → List TsfFile → Type 0
  Opened [] st fs = fs ≡ []
  Opened (path ∷ paths) st fs =
      (f : TsfFile) × (rest : List TsfFile) × (fs ≡ f ∷ rest)
      × ((open_tsf k path st).0 ≡ ok f)
      × Opened paths (open_tsf k path st).1 rest

  open_followers-Opened :
      (paths : List Bytes) (st : k.St) (fs : List TsfFile)
      → (open_followers k paths st).0 ≡ ok fs
      → Opened paths st fs
  unfolding open_followers
  open_followers-Opened [] st [] h = refl
  open_followers-Opened [] st (f ∷ fs) h = absurd (ground arith)
  open_followers-Opened (path ∷ paths) st fs h =
      let later = open_followers k paths (open_tsf k path st).1 in
      elim (Outcome-cases (open_tsf k path st).0) [
        | inr (inl (x, e)) ↦ absurd (ground arith)
        | inr (inr e) ↦ absurd (ground arith)
        | inl (f, e) ↦ elim (Outcome-cases later.0) [
          | inr (inl (x, e')) ↦ absurd (ground arith)
          | inr (inr e') ↦ absurd (ground arith)
          | inl (gs, e') ↦
              (f, gs, ground arith, e, open_followers-Opened paths (open_tsf k path st).1 gs e')
        ]
      ]

  pub length-Opened :
      (paths : List Bytes) (st : k.St) (fs : List TsfFile)
      → Opened paths st fs
      → length fs ≡ length paths
  length-Opened [] st fs h = ap length h
  length-Opened (path ∷ paths) st fs (f, rest, e, _, h) =
      ap length e ∙ ap suc (length-Opened paths (open_tsf k path st).1 rest h)

abbrev pub is_some {ℓ} : {A : Type ℓ} → Option A → Bool
is_some none = false
is_some (some a) = true

module _ (fl : Float) where
  -- One controller for each file, with the gain and the limit of the arguments, and with a filter where
  -- the arguments ask for one.
  abbrev pub Controls : Cli → List TsfFile → List (Controller fl) → Type 0
  Controls args [] cs = cs ≡ []
  Controls args (f ∷ fs) cs =
      (c : Controller fl) × (rest : List (Controller fl)) × (cs ≡ c ∷ rest)
      × (c.kp_ppm ≡ args.kp_ppm)
      × (c.max_step_us ≡ args.max_step_us)
      × (is_some c.kalman ≡ args.kalman)
      × Controls args fs rest

  build_controllers-Controls :
      (fs : List TsfFile) (args : Cli) → Controls args fs (build_controllers fl fs args)
  unfolding build_controllers Control.new
  build_controllers-Controls [] args = refl
  build_controllers-Controls (f ∷ fs) args = (
    Control.new args.kp_ppm args.max_step_us args.kalman,
    build_controllers fl fs args,
    refl,
    refl,
    refl,
    ground arith,
    build_controllers-Controls fs args,
  )

  -- The arguments of the loop as the program's arguments ask for them, the period in nanoseconds and
  -- the cycles between two reports. A period of zero goes with no reports only.
  abbrev pub Fits : Cli → Bool → Params → List (Controller fl) → Type 0
  Fits args parallel ps controllers =
      (parallel ≡ args.parallel)
      × Controls args ps.followers controllers
      × (ps.period_ns ≡ pos (args.period_ms * 1_000_000))
      × (((args.stats_interval ≡ 0) × (ps.stats_interval_cycles ≡ 0))
          ⊎ ((0 < args.period_ms)
              × (ps.stats_interval_cycles ≡ args.stats_interval * 1000 / args.period_ms)))
      × (ps.rms_warn_us ≡ args.rms_warn)

  period_of_fits : (ms : ℕ) → ms * 1_000_000 < 2 ^ 63 → period_of ms ≡ pos (ms * 1_000_000)
  unfolding period_of signed64 ◌*ℤ◌
  period_of_fits ms h =
      let small : signed64 ms ≡ pos ms = ground arith in
      let product : pos ms *ℤ pos 1_000_000 ≡ pos (ms * 1_000_000) = ground arith in
      ap (λ (x : ℤ). wrap64 (x *ℤ pos 1_000_000)) small
      ∙ ap wrap64 product
      ∙ wrap64_fits (pos (ms * 1_000_000)) (h, omega arith)

  report_cycles-cases :
      (stats ms cycles : ℕ)
      → stats * 1000 < 2 ^ 64
      → report_cycles stats ms ≡ some cycles
      → ((stats ≡ 0) × (cycles ≡ 0)) ⊎ ((0 < ms) × (cycles ≡ stats * 1000 / ms))
  unfolding report_cycles
  report_cycles-cases stats ms cycles small h = elim (Bool-cases (ltb 0 stats)) [
    | inr no_reports ↦ inl (ground arith, ground arith)
    | inl reports ↦ elim (Bool-cases (ms == 0)) [
      | inl zero_period ↦ absurd (ground arith)
      | inr period ↦
          let whole : stats * 1000 % 2 ^ 64 ≡ stats * 1000 = omega arith in
          let made : cycles ≡ (stats * 1000 % 2 ^ 64) / ms = ground arith in
          inr (ground arith, made ∙ ap (λ (n : ℕ). n / ms) whole)
    ]
  ]

  prepare-Fits :
      (os : RtCall → Option ℕ) (args : Cli) (master : TsfFile) (followers : List TsfFile)
      (parallel : Bool) (ps : Params) (cs : List (Controller fl)) (calls : List RtCall)
      → args.period_ms * 1_000_000 < 2 ^ 63
      → args.stats_interval * 1000 < 2 ^ 64
      → prepare fl os args master followers ≡ runs parallel ps cs calls
      → Fits args parallel ps cs × (ps.master ≡ master) × (ps.followers ≡ followers)
  unfolding prepare
  prepare-Fits os args master followers parallel ps cs calls small few h =
      elim (Option-cases (report_cycles args.stats_interval args.period_ms)) [
        | inl e ↦ absurd (ground arith)
        | inr (cycles, e) ↦
            let at_followers : ps.followers ≡ followers = ground arith in
            let at_controllers : cs ≡ build_controllers fl followers args = ground arith in
            let at_period : ps.period_ns ≡ period_of args.period_ms = ground arith in
            let at_cycles : ps.stats_interval_cycles ≡ cycles = ground arith in
            (
              (
                ground arith,
                subst (λ (c : List (Controller fl)). Controls args ps.followers c)
                    (sym at_controllers)
                    (subst
                      (λ (fs : List TsfFile).
                        Controls args fs (build_controllers fl followers args))
                      (sym at_followers) (build_controllers-Controls followers args)),
                at_period ∙ period_of_fits args.period_ms small,
                report_cycles-cases args.stats_interval args.period_ms ps.stats_interval_cycles few
                    (e ∙ ap (λ (n : ℕ). some n) (sym at_cycles)),
                ground arith,
              ),
              ground arith,
              at_followers,
            )
      ]

  on_ok-runs {ℓ} :
      {A : Type ℓ} {St : Type 0} (r : Outcome A × St) (next : A → St → Setup fl × St)
      (parallel : Bool) (ps : Params) (cs : List (Controller fl)) (calls : List RtCall)
      → (on_ok r next).0 ≡ runs parallel ps cs calls
      → (a : A) × (r.0 ≡ ok a) × ((next a r.1).0 ≡ runs parallel ps cs calls)
  on_ok-runs (ok a, st) next parallel ps cs calls h = (a, refl, h)
  on_ok-runs (err e, st) next parallel ps cs calls h = ground arith
  on_ok-runs (panic, st) next parallel ps cs calls h = ground arith

module _ (k : Kernel) (fl : Float) (has_ssse3 : Bool) (os : RtCall → Option ℕ)
    (exists : Bytes → Bool) where
  -- The state behind the opening of the master and the read of it.
  abbrev pub behind_master : Cli → TsfFile → k.St → k.St
  behind_master args master st = (read_tsf k has_ssse3 master (open_tsf k args.master st).1).1

  -- A set-up that comes to a loop has opened the master and the followers.
  pub set_up-prepare :
      (args : Cli) (st : k.St) (parallel : Bool) (ps : Params) (cs : List (Controller fl))
      (calls : List RtCall)
      → (set_up k fl has_ssse3 os exists args st).0 ≡ runs parallel ps cs calls
      → (master : TsfFile) × (followers : List TsfFile) × ((open_tsf k args.master st).0
          ≡ ok master)
        × Opened k args.followers (behind_master args master st) followers
        × (prepare fl os args master followers ≡ runs parallel ps cs calls)
  unfolding set_up
  set_up-prepare args st parallel ps cs calls h =
      elim (Bool-cases (exists (codes "/sys/kernel/debug"))) [
        | inl here ↦
            let (master, opened, h1) =
              on_ok-runs fl (open_tsf k args.master st) (with_master k fl has_ssse3 os exists args)
                parallel ps cs calls (ground arith) in
            let (_, _, h2) =
              on_ok-runs fl (read_tsf k has_ssse3 master (open_tsf k args.master st).1)
                (λ tsf st'. with_followers k fl has_ssse3 os exists args master st') parallel ps cs
                calls h1 in
            let st2 = behind_master args master st in
            let (followers, found, h3) =
              on_ok-runs fl (open_followers k args.followers st2)
                (λ followers st'. (prepare fl os args master followers, st')) parallel ps cs calls
                h2 in
            (
              master,
              followers,
              opened,
              open_followers-Opened k args.followers st2 followers found,
              h3,
            )
        | inr missing ↦ absurd (ground arith)
      ]

  -- Where the set-up comes to the call of a loop, for a period whose nanoseconds fit an i64 and an
  -- interval of the reports whose milliseconds fit a u64: the loop is the one asked for, the master and
  -- the followers are the files opened at the paths of the arguments, the followers' in their order,
  -- and each follower has a controller with the gain and the limit asked for and a filter if one is
  -- asked for. The period is the one asked for, in nanoseconds, and the cycles between two reports are
  -- the interval divided by the period; where no reports are asked for, they are 0, and only then is a
  -- period of zero taken. The warning level is the one asked for.
  pub set_up-runs :
      (args : Cli) (st : k.St) (parallel : Bool) (ps : Params) (cs : List (Controller fl))
      (calls : List RtCall)
      → args.period_ms * 1_000_000 < 2 ^ 63
      → args.stats_interval * 1000 < 2 ^ 64
      → (set_up k fl has_ssse3 os exists args st).0 ≡ runs parallel ps cs calls
      → Fits fl args parallel ps cs
        × ((open_tsf k args.master st).0 ≡ ok ps.master)
        × Opened k args.followers (behind_master args ps.master st) ps.followers
  set_up-runs args st parallel ps cs calls small few h =
      let (master, followers, opened, each, h') = set_up-prepare args st parallel ps cs calls h in
      let (fits, at_master, at_followers) =
        prepare-Fits fl os args master followers parallel ps cs calls small few h' in
      (
        fits,
        opened ∙ ap (λ (f : TsfFile). ok f) (sym at_master),
        subst (λ (f : TsfFile). Opened k args.followers (behind_master args f st) ps.followers)
            (sym at_master)
            (subst (Opened k args.followers (behind_master args master st)) (sym at_followers)
              each),
      )
