-- ===== src/Tool/Threading/Together.antt =====
-- src/bin/tsf_sync_debugfs/threading.rs, `run_single`, over registers that stand still but for the
-- writes: all the followers in the rounds of the loop.
use mathlib.Core.Path.{subst}
use tsf_sync.Prelude.{
  ℕ, zero, suc, ◌+◌, ◌-◌, ◌%◌, ◌*◌, ◌^◌, ◌<◌, ◌≤◌, Bool, true, false, some, List, [], ◌∷◌, ◌≡◌, ◌≢◌,
  refl, ◌∙◌, sym, arith,
}
use tsf_sync.Prelude.Lists.{All, All-map, All-both, All-every}
use tsf_sync.Prelude.Int.{ℤ}
use tsf_sync.Tool.Float.{Float}
use tsf_sync.Tool.Control.{Controller}
use tsf_sync.Tool.Control.Converge.{dist, amount, moved, plain}
use tsf_sync.Tool.Stats.{WelfordStats}
use tsf_sync.Tool.Stats
use tsf_sync.Tool.Debugfs.{Kernel, TsfFile, ok, read_tsf}
use tsf_sync.Tool.Debugfs.Register.{TsfRegisters, read_tsf-tsf}
use tsf_sync.Tool.Threading.{
  correct_follower, correct_all, Single, Params, round, run_single, check_stats, next_deadline,
}
use tsf_sync.Tool.Threading.Locks.{correct_follower-moved, moved_closer, shrink}

-- The files of different followers.
abbrev pub Apart : List TsfFile → Type 0
Apart [] = Unit
Apart (f ∷ fs) = All (λ g. f.fd ≢ g.fd) fs × Apart fs

abbrev pub plains : {fl : Float} → ℕ → ℕ → List TsfFile → List (Controller fl)
plains kp limit [] = []
plains kp limit (f ∷ fs) = plain kp limit ∷ plains kp limit fs

module _ (k : Kernel) (regs : TsfRegisters k) (fl : Float) (has_ssse3 : Bool) (kp limit m : ℕ) where
  open regs use {tsf, store, tsf-lt, tsf-store, tsf-store_ne}

  -- The follower can be read at an offset, its clock is below 2 ^ 63 and its error times the gain fits
  -- an i64.
  abbrev pub InReach : k.St → TsfFile → Type 0
  InReach st f = (f.pread_ok ≡ true) × (tsf f.fd st < 2 ^ 63) × (dist m (tsf f.fd st) * kp < 2 ^ 63)

  abbrev pub Nearer : ℕ → k.St → k.St → TsfFile → Type 0
  Nearer n st st' f = dist m (tsf f.fd st') ≤ dist m (tsf f.fd st) - n

  -- What holds behind a run of corrections: `n` for each follower.
  record Corrected (n : ℕ) (fs : List TsfFile) (st st' : k.St) : Type 0 where
    nearer : All (Nearer n st st') fs
    reach : All (InReach st') fs
    others : (fd : ℕ) → All (λ f. f.fd ≢ fd) fs → tsf fd st' ≡ tsf fd st

  correct_all-cons :
      (f : TsfFile) (fs : List TsfFile) (stats stats' : WelfordStats fl) (st st1 st2 : k.St)
      (c : Controller fl) (d e : ℤ) (cs cs' : List (Controller fl))
      → correct_follower k fl has_ssse3 f c m st ≡ (some (c, some (d, e)), st1)
      → correct_all k fl has_ssse3 fs cs (Stats.update stats e d) m st1 ≡ (some (cs', stats'), st2)
      → correct_all k fl has_ssse3 (f ∷ fs) (c ∷ cs) stats m st ≡ (some (c ∷ cs', stats'), st2)
  unfolding correct_all
  correct_all-cons f fs stats stats' st st1 st2 c d e cs cs' first rest = ground arith

  correct_all-Corrected :
      (fs : List TsfFile) (stats : WelfordStats fl) (st : k.St)
      → 1 ≤ limit
      → limit < 2 ^ 63
      → kp ≤ 1_000_000
      → m < 2 ^ 63
      → Apart fs
      → All (InReach st) fs
      → (stats' : WelfordStats fl) × (st' : k.St) × (correct_all k fl has_ssse3 fs
            (plains kp limit fs)
            stats
            m
            st
          ≡ (some (plains kp limit fs, stats'), st'))
        × Corrected 1 fs st st'
  unfolding correct_all
  correct_all-Corrected [] stats st low high gain hm apart h =
      (stats, st, refl, record { nearer = tt; reach = tt; others = λ fd other. refl })
  correct_all-Corrected (f ∷ fs) stats st low high gain hm (away, apart) ((pread, small, fits), h) =
      let d = dist m (tsf f.fd st) in
      let to = moved m (tsf f.fd st) (amount kp limit d) in
      let st1 = store f.fd to st in
      let (near, below) =
        moved_closer k regs fl has_ssse3 f pread kp limit m st low gain hm small in
      let here : tsf f.fd st1 ≡ to = tsf-store f.fd to st (omega arith) in
      let one =
        correct_follower-moved k regs fl has_ssse3 f pread kp limit m st low high gain hm small
          fits in
      let kept : All (InReach st1) fs =
        All-map (λ g. (f.fd ≢ g.fd) × InReach st g) (InReach st1) fs
          (λ g (ne, (reads, low_g, fits_g)).
            let same = tsf-store_ne f.fd g.fd to st ne in
            (
              reads,
              subst (λ (v : ℕ). v < 2 ^ 63) (sym same) low_g,
              subst (λ (v : ℕ). dist m v * kp < 2 ^ 63) (sym same) fits_g,
            ))
          (All-both _ _ fs away h) in
      let (stats', st', rest, c) = correct_all-Corrected fs _ st1 low high gain hm apart kept in
      let still : tsf f.fd st' ≡ to =
        c.others f.fd (All-map _ _ fs (λ g ne e. ne (sym e)) away) ∙ here in
      (
        stats',
        st',
        correct_all-cons f fs stats stats' st st1 st' (plain kp limit) _ _ (plains kp limit fs)
            (plains kp limit fs) one rest,
        record {
          nearer = (
            omega (arith, still, near),
            All-map (λ g. (f.fd ≢ g.fd) × Nearer 1 st1 st' g) (Nearer 1 st st') fs
                (λ g (ne, nearer).
                  subst (λ (v : ℕ). dist m (tsf g.fd st') ≤ dist m v - 1)
                    (tsf-store_ne f.fd g.fd to st ne) nearer)
                (All-both _ _ fs away c.nearer),
          );
          reach = (
            (
              pread,
              omega (arith, still, below),
              shrink (dist m (tsf f.fd st')) d kp (2 ^ 63) (omega (arith, still, near)) fits,
            ),
            c.reach,
          );
          others = λ fd (ne, nes). c.others fd nes ∙ tsf-store_ne f.fd fd to st ne;
        },
      )

-- RUNNING is set at n tests and cleared at the next one.
abbrev pub stops_after : ℕ → List Bool
stops_after zero = false ∷ []
stops_after (suc n) = true ∷ stops_after n

module _ (k : Kernel) (regs : TsfRegisters k) (fl : Float) (has_ssse3 : Bool) (ps : Params)
    (kp limit m : ℕ) where
  open regs use {tsf}

  round-correct_all :
      (s : Single fl) (st st1 st' : k.St) (v : ℕ) (cs : List (Controller fl))
      (stats' : WelfordStats fl)
      → read_tsf k has_ssse3 ps.master st ≡ (ok v, st1)
      → correct_all k fl has_ssse3 ps.followers s.controllers s.stats v st1
        ≡ (some (cs, stats'), st')
      → let cycle = (s.cycle + 1) % 2 ^ 64 in
        round k fl has_ssse3 ps s st ≡ (
          some (record {
            controllers = cs;
            stats = (check_stats stats' cycle ps.stats_interval_cycles ps.rms_warn_us).0;
            cycle = cycle;
            deadline = next_deadline s.deadline ps.period_ns;
          }),
          st',
        )
  unfolding round
  round-correct_all s st st1 st' v cs stats' read all = ground arith

  round-Corrected :
      (s : Single fl) (st : k.St)
      → 1 ≤ limit
      → limit < 2 ^ 63
      → kp ≤ 1_000_000
      → m < 2 ^ 63
      → ps.master.pread_ok ≡ true
      → Apart ps.followers
      → s.controllers ≡ plains kp limit ps.followers
      → tsf ps.master.fd st ≡ m
      → All (InReach k regs fl has_ssse3 kp limit m st) ps.followers
      → (s' : Single fl) × (st' : k.St) × (round k fl has_ssse3 ps s st ≡ (some s', st'))
        × (s'.controllers ≡ plains kp limit ps.followers)
        × Corrected k regs fl has_ssse3 kp limit m 1 ps.followers st st'
  unfolding round
  round-Corrected s st low high gain hm pread apart controllers at reach =
      let read = read_tsf-tsf k regs ps.master pread has_ssse3 st in
      let (stats', st', all, c) =
        correct_all-Corrected k regs fl has_ssse3 kp limit m ps.followers s.stats st low high gain
          hm apart reach in
      let read_m = subst (λ (v : ℕ). read_tsf k has_ssse3 ps.master st ≡ (ok v, st)) at read in
      let all' =
        subst
          (λ cs.
            correct_all k fl has_ssse3 ps.followers cs s.stats m st
            ≡ (some (plains kp limit ps.followers, stats'), st'))
          (sym controllers) all in
      (
        _,
        st',
        round-correct_all s st st st' m (plains kp limit ps.followers) stats' read_m all',
        refl,
        c,
      )

  -- Every register other than the followers' stays, the master's too: so the rounds do not change what
  -- they are about.
  run_single-Corrected :
      (n : ℕ) (s : Single fl) (st : k.St)
      → 1 ≤ limit
      → limit < 2 ^ 63
      → kp ≤ 1_000_000
      → m < 2 ^ 63
      → ps.master.pread_ok ≡ true
      → All (λ f. f.fd ≢ ps.master.fd) ps.followers
      → Apart ps.followers
      → s.controllers ≡ plains kp limit ps.followers
      → tsf ps.master.fd st ≡ m
      → All (InReach k regs fl has_ssse3 kp limit m st) ps.followers
      → (s' : Single fl) × (st' : k.St) × (run_single k fl has_ssse3 ps (stops_after n) s st
          ≡ (some (s', true), st'))
        × Corrected k regs fl has_ssse3 kp limit m n ps.followers st st'
  unfolding run_single
  run_single-Corrected zero s st low high gain hm pread free apart controllers at reach = (
    _,
    st,
    refl,
    record {
      nearer =
          All-every (Nearer k regs fl has_ssse3 kp limit m 0 st st) ps.followers (λ f. omega arith);
      reach = reach;
      others = λ fd other. refl;
    },
  )
  run_single-Corrected (suc n) s st low high gain hm pread free apart controllers at reach =
      let (s1, st1, one, kept, c) =
        round-Corrected s st low high gain hm pread apart controllers at reach in
      let (s', st', run, d) =
        run_single-Corrected n s1 st1 low high gain hm pread free apart kept
          (c.others ps.master.fd free ∙ at) c.reach in
      (
        s',
        st',
        rw (one, run_single) (rw one run),
        record {
          nearer =
              All-map
                (λ f.
                  (Nearer k regs fl has_ssse3 kp limit m 1 st st1 f)
                  × Nearer k regs fl has_ssse3 kp limit m n st1 st' f)
                (Nearer k regs fl has_ssse3 kp limit m (suc n) st st') ps.followers
                (λ f (a, b). omega (arith, a, b)) (All-both _ _ ps.followers c.nearer d.nearer);
          reach = d.reach;
          others = λ fd ne. d.others fd ne ∙ c.others fd ne;
        },
      )

module _ (k : Kernel) (regs : TsfRegisters k) (fl : Float) (has_ssse3 : Bool) (ps : Params)
    (kp limit : ℕ) where
  open regs use {tsf}

  -- With controllers without a filter, of one gain of at most 1,000,000 ppm and one limit of at least 1,
  -- files that can be read at an offset and are all different, and registers that change by the writes
  -- alone, with clocks below 2 ^ 63 and errors that times the gain fit an i64: where RUNNING is cleared
  -- behind n rounds the loop ends with no panic, each follower is at least n closer to the master (so
  -- on it, once n reaches its distance), and the master's register is what it was.
  pub run_single-Nearer :
      (n : ℕ) (s : Single fl) (st : k.St)
      → 1 ≤ limit
      → limit < 2 ^ 63
      → kp ≤ 1_000_000
      → tsf ps.master.fd st < 2 ^ 63
      → ps.master.pread_ok ≡ true
      → All (λ f. f.fd ≢ ps.master.fd) ps.followers
      → Apart ps.followers
      → s.controllers ≡ plains kp limit ps.followers
      → All (InReach k regs fl has_ssse3 kp limit (tsf ps.master.fd st) st) ps.followers
      → (s' : Single fl) × (st' : k.St) × (run_single k fl has_ssse3 ps (stops_after n) s st
          ≡ (some (s', true), st'))
        × All (Nearer k regs fl has_ssse3 kp limit (tsf ps.master.fd st) n st st') ps.followers
        × (tsf ps.master.fd st' ≡ tsf ps.master.fd st)
  run_single-Nearer n s st low high gain hm pread free apart controllers reach =
      let (s', st', run, c) =
        run_single-Corrected k regs fl has_ssse3 ps kp limit (tsf ps.master.fd st) n s st low high
          gain hm pread free apart controllers refl reach in
      (s', st', run, c.nearer, c.others ps.master.fd free)
