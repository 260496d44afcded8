-- ===== src/Tool/Parallel/Nearer.antt =====
-- src/bin/tsf_sync_debugfs/threading.rs, `run_parallel`, over registers that stand still but for the
-- writes: a worker and its register through the steps of the threads.
use mathlib.Core.Path.{subst}
use tsf_sync.Prelude.{
  ℕ, zero, suc, ◌+◌, ◌*◌, ◌^◌, ◌<◌, ◌≤◌, ◌≡◌, ◌≢◌, inl, inr, Bool, true, false, not, ◌||◌, some,
  List, [], ◌∷◌, refl, arith, ◌∙◌, sym, ap,
}
use tsf_sync.Prelude.Tests.{◌==◌, Option-cases, ==_refl}
use tsf_sync.Prelude.Lists.{All}
use tsf_sync.Prelude.Int.{sub_ℕ}
use tsf_sync.Tool.Float.{Float}
use tsf_sync.Tool.Control.Converge.{dist, amount, moved, signed_step, plain}
use tsf_sync.Tool.Stats
use tsf_sync.Tool.Debugfs.{Kernel, TsfFile}
use tsf_sync.Tool.Debugfs.Register.{TsfRegisters}
use tsf_sync.Tool.Threading.Locks.{correct_follower-moved, moved_closer, shrink}
use tsf_sync.Tool.Threading.Together.{Apart, InReach, Nearer}
use tsf_sync.Tool.Parallel.{
  WorkerPc, starting, ready, released, loading, correcting, written, done, panicked, Worker,
  worker_correct, worker_move, move_worker,
}
use tsf_sync.Tool.Parallel.Sequential.{files_of}

-- A worker that is to load or has loaded a value gets that of the master, and none has panicked.
abbrev pub knows : ℕ → Bool → ℕ → WorkerPc → Bool
knows m running told released = told == m || not running
knows m running told loading = told == m
knows m running told (correcting v) = v == m
knows m running told panicked = false
knows m running told _ = true

-- The correction that a worker has made since the last opening of the second barrier.
abbrev pub earned : WorkerPc → ℕ
earned written = 1
earned _ = 0

module _ (k : Kernel) (regs : TsfRegisters k) (fl : Float) (has_ssse3 : Bool) (kp limit m : ℕ) where
  open regs use {tsf, store, tsf-store, tsf-store_ne}

  -- Behind `n` openings of the second barrier since the state `st0`.
  abbrev pub OnTrack : ℕ → k.St → Bool → ℕ → k.St → Worker fl → Type 0
  OnTrack n st0 running told st w =
      (knows m running told w.pc ≡ true)
      × (w.controller ≡ plain kp limit)
      × InReach k regs fl has_ssse3 kp limit m st w.follower
      × Nearer k regs fl has_ssse3 kp limit m (n + earned w.pc) st0 st w.follower

  -- What a step leaves of the other registers.
  abbrev pub Leaves : k.St → k.St → TsfFile → Type 0
  Leaves st st' f = (fd : ℕ) → f.fd ≢ fd → tsf fd st' ≡ tsf fd st

  correct-OnTrack :
      (n : ℕ) (st0 : k.St) (running : Bool) (told : ℕ) (st st' : k.St) (w w' : Worker fl)
      → 1 ≤ limit
      → limit < 2 ^ 63
      → kp ≤ 1_000_000
      → m < 2 ^ 63
      → worker_correct k fl has_ssse3 w m st ≡ (w', st')
      → w.controller ≡ plain kp limit
      → InReach k regs fl has_ssse3 kp limit m st w.follower
      → Nearer k regs fl has_ssse3 kp limit m n st0 st w.follower
      → OnTrack n st0 running told st' w' × (w'.follower ≡ w.follower) × Leaves st st' w.follower
  unfolding worker_correct
  correct-OnTrack n st0 running told st st' w w' low high gain hm made own (pread, small, fits)
        near =
      let fd = w.follower.fd in
      let d = dist m (tsf fd st) in
      let a = amount kp limit d in
      let to = moved m (tsf fd st) a in
      let (closer, below) =
        moved_closer k regs fl has_ssse3 w.follower pread kp limit m st low gain hm small in
      let one =
        correct_follower-moved k regs fl has_ssse3 w.follower pread kp limit m st low high gain hm
          small fits in
      let done_so : worker_correct k fl has_ssse3 w m st ≡ (
        record w {
          controller = plain kp limit;
          stats = Stats.update w.stats (sub_ℕ m (tsf fd st)) (signed_step m (tsf fd st) a);
          pc = written;
        },
        store fd to st,
      ) =
        rw (own, worker_correct) (rw one refl) in
      let out : w' ≡ record w {
        controller = plain kp limit;
        stats = Stats.update w.stats (sub_ℕ m (tsf fd st)) (signed_step m (tsf fd st) a);
        pc = written;
      } =
        cc in
      let next : st' ≡ store fd to st = cc in
      let here : tsf fd st' ≡ to = rw next (tsf-store fd to st (omega arith)) in
      rw out (
        (
          refl,
          refl,
          (
            pread,
            omega (arith, here, below),
            shrink (dist m (tsf fd st')) d kp (2 ^ 63) (omega (arith, here, closer)) fits,
          ),
          omega (arith, here, closer, near),
        ),
        refl,
        λ other ne. rw next (tsf-store_ne fd other to st ne),
      )

  -- A step that makes no correction.
  walk-OnTrack :
      (n : ℕ) (st0 : k.St) (running : Bool) (told : ℕ) (st st' : k.St) (w w' : Worker fl)
      → OnTrack n st0 running told st w
      → st' ≡ st
      → w' ≡ record w { stats = w'.stats; pc = w'.pc }
      → (earned w'.pc ≡ 0) × (knows m running told w'.pc ≡ true)
      → OnTrack n st0 running told st' w' × (w'.follower ≡ w.follower) × Leaves st st' w.follower
  walk-OnTrack n st0 running told st st' w w' (know, own, reach, near) still out
        (none_made, knows') =
      let same : w'.follower ≡ w.follower = ap (λ (x : Worker fl). x.follower) out in
      let near' : Nearer k regs fl has_ssse3 kp limit m (n + earned w'.pc) st0 st w.follower =
        omega (arith, near, none_made) in
      (
        (
          knows',
          ap (λ (x : Worker fl). x.controller) out ∙ own,
          subst (λ x. InReach k regs fl has_ssse3 kp limit m x w'.follower) (sym still)
              (subst (InReach k regs fl has_ssse3 kp limit m st) (sym same) reach),
          subst (λ x. Nearer k regs fl has_ssse3 kp limit m (n + earned w'.pc) st0 x w'.follower)
              (sym still)
              (subst (Nearer k regs fl has_ssse3 kp limit m (n + earned w'.pc) st0 st) (sym same)
                near'),
        ),
        same,
        λ fd ne. ap (tsf fd) still,
      )

  move-OnTrack :
      (pc : WorkerPc) (n : ℕ) (st0 : k.St) (running : Bool) (told : ℕ) (st st' : k.St)
      (w w' : Worker fl)
      → 1 ≤ limit
      → limit < 2 ^ 63
      → kp ≤ 1_000_000
      → m < 2 ^ 63
      → w.pc ≡ pc
      → worker_move k fl has_ssse3 pc running told w st ≡ some (w', st')
      → OnTrack n st0 running told st w
      → OnTrack n st0 running told st' w' × (w'.follower ≡ w.follower) × Leaves st st' w.follower
  unfolding worker_move
  move-OnTrack starting n st0 running told st st' w w' low high gain hm at made
        (know, own, reach, near) =
      walk-OnTrack n st0 running told st st' w w' (know, own, reach, near) (ground arith)
        (ground arith) (ground arith, ground (arith, ==_refl told))
  move-OnTrack released n st0 running told st st' w w' low high gain hm at made
        (know, own, reach, near) =
      walk-OnTrack n st0 running told st st' w w' (know, own, reach, near) (ground arith)
        (ground arith) (ground arith, ground (arith, ==_refl told))
  move-OnTrack loading n st0 running told st st' w w' low high gain hm at made
        (know, own, reach, near) =
      walk-OnTrack n st0 running told st st' w w' (know, own, reach, near) (ground arith)
        (ground arith) (ground arith, ground (arith, ==_refl told))
  move-OnTrack (correcting v) n st0 running told st st' w w' low high gain hm at made
        (know, own, reach, near) =
      correct-OnTrack n st0 running told st st' w w' low high gain hm (ground arith) own reach
        (ground arith)
  move-OnTrack ready n st0 running told st st' w w' low high gain hm at made h = absurd (cc)
  move-OnTrack written n st0 running told st st' w w' low high gain hm at made h = absurd (cc)
  move-OnTrack done n st0 running told st st' w w' low high gain hm at made h = absurd (cc)
  move-OnTrack panicked n st0 running told st st' w w' low high gain hm at made h = absurd (cc)

  -- A worker whose register another one leaves alone.
  kept-OnTrack :
      (n : ℕ) (st0 : k.St) (running : Bool) (told : ℕ) (st st' : k.St) (w : Worker fl)
      → tsf w.follower.fd st' ≡ tsf w.follower.fd st
      → OnTrack n st0 running told st w
      → OnTrack n st0 running told st' w
  kept-OnTrack n st0 running told st st' w same (know, own, (pread, small, fits), near) = (
    know,
    own,
    (
      pread,
      subst (λ (v : ℕ). v < 2 ^ 63) (sym same) small,
      subst (λ (v : ℕ). dist m v * kp < 2 ^ 63) (sym same) fits,
    ),
    omega (arith, near, same),
  )

  others-OnTrack :
      (n : ℕ) (st0 : k.St) (running : Bool) (told : ℕ) (st st' : k.St) (f : TsfFile)
      (ws : List (Worker fl))
      → Leaves st st' f
      → All (λ g. f.fd ≢ g.fd) (files_of ws)
      → All (OnTrack n st0 running told st) ws
      → All (OnTrack n st0 running told st') ws
  others-OnTrack n st0 running told st st' f [] leaves away h = tt
  others-OnTrack n st0 running told st st' f (w ∷ ws) leaves (ne, away) (one, h) = (
    kept-OnTrack n st0 running told st st' w (leaves w.follower.fd ne) one,
    others-OnTrack n st0 running told st st' f ws leaves away h,
  )

  away_sym :
      (fd : ℕ) (fs : List TsfFile) → All (λ g. fd ≢ g.fd) fs → All (λ (g : TsfFile). g.fd ≢ fd) fs
  away_sym fd [] h = tt
  away_sym fd (g ∷ fs) (ne, h) = ((λ e. ne (sym e)), away_sym fd fs h)

  -- A step of one of the workers.
  pub move_worker-OnTrack :
      (i n : ℕ) (st0 : k.St) (running : Bool) (told : ℕ) (st st' : k.St) (ws ws' : List (Worker fl))
      → 1 ≤ limit
      → limit < 2 ^ 63
      → kp ≤ 1_000_000
      → m < 2 ^ 63
      → move_worker k fl has_ssse3 i running told ws st ≡ some (ws', st')
      → Apart (files_of ws)
      → All (OnTrack n st0 running told st) ws
      → All (OnTrack n st0 running told st') ws'
        × (files_of ws' ≡ files_of ws)
        × ((fd : ℕ) → All (λ (g : TsfFile). g.fd ≢ fd) (files_of ws) → tsf fd st' ≡ tsf fd st)
  unfolding move_worker
  move_worker-OnTrack i n st0 running told st st' [] ws' low high gain hm made apart h = absurd (cc)
  move_worker-OnTrack zero n st0 running told st st' (w ∷ ws) ws' low high gain hm made
        (away, apart) (one, h) =
      elim (Option-cases (worker_move k fl has_ssse3 w.pc running told w st)) [
        | inl e ↦ absurd (ground arith)
        | inr ((w1, st1), e) ↦
            let next : st1 ≡ st' = ground arith in
            let out : ws' ≡ w1 ∷ ws = ground arith in
            let (one', same, leaves) =
              move-OnTrack w.pc n st0 running told st st' w w1 low high gain hm refl (rw next at e)
                one in
            (
              subst (All (OnTrack n st0 running told st')) (sym out)
                  (one', others-OnTrack n st0 running told st st' w.follower ws leaves away h),
              ap files_of out ∙ ap (λ (f : TsfFile). f ∷ files_of ws) same,
              λ fd (ne, nes). leaves fd ne,
            )
      ]
  move_worker-OnTrack (suc i) n st0 running told st st' (w ∷ ws) ws' low high gain hm made
        (away, apart) (one, h) =
      elim (Option-cases (move_worker k fl has_ssse3 i running told ws st)) [
        | inl e ↦ absurd (ground arith)
        | inr ((ws1, st1), e) ↦
            let next : st1 ≡ st' = ground arith in
            let out : ws' ≡ w ∷ ws1 = ground arith in
            let (h', same, leaves) =
              move_worker-OnTrack i n st0 running told st st' ws ws1 low high gain hm (rw next at e)
                apart h in
            (
              subst (All (OnTrack n st0 running told st')) (sym out) (
                kept-OnTrack n st0 running told st st' w
                    (leaves w.follower.fd (away_sym w.follower.fd (files_of ws) away)) one,
                h',
              ),
              ap files_of out ∙ ap (λ (fs : List TsfFile). w.follower ∷ fs) same,
              λ fd (ne, nes). leaves fd nes,
            )
      ]
