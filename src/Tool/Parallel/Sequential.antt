-- ===== src/Tool/Parallel/Sequential.antt =====
-- src/bin/tsf_sync_debugfs/threading.rs: the corrections of a cycle, one follower behind the
-- other as in `run_single`.
use tsf_sync.Prelude.{
  ℕ, ◌≡◌, inl, inr, Bool, Option, none, some, List, [], ◌∷◌, refl, arith, ◌∙◌, sym, ap,
}
use tsf_sync.Prelude.Tests.{Option-cases}
use tsf_sync.Prelude.Lists.{All, All-map, All-both}
use tsf_sync.Prelude.Int.{ℤ}
use tsf_sync.Tool.Float.{Float}
use tsf_sync.Tool.Control.{Controller}
use tsf_sync.Tool.Stats
use tsf_sync.Tool.Stats.{WelfordStats}
use tsf_sync.Tool.Debugfs.{Kernel, TsfFile}
use tsf_sync.Tool.Threading.{correct_follower, correct_all}
use tsf_sync.Tool.Parallel.{written, Worker}
use tsf_sync.Tool.Control.{apply, new_tsf}
use tsf_sync.Tool.Debugfs.Register.{TsfRegisters}
use tsf_sync.Tool.Threading.Follower.{correct_follower-some, correct_follower_other, new_tsf-lt}
use tsf_sync.Tool.Parallel.Cycle.{corrected, corrected-some}
use tsf_sync.Tool.Parallel.Rounds.{Away, Reads, Apart}

module _ {fl : Float} where
  abbrev pub files_of : List (Worker fl) → List TsfFile
  files_of [] = []
  files_of (w ∷ ws) = w.follower ∷ files_of ws

  abbrev pub controllers_of : List (Worker fl) → List (Controller fl)
  controllers_of [] = []
  controllers_of (w ∷ ws) = w.controller ∷ controllers_of ws

module _ (k : Kernel) (regs : TsfRegisters k) (fl : Float) (has_ssse3 : Bool) where
  open regs use {tsf, store, tsf-store, tsf-store_ne}

  -- Each worker with its register has been corrected.
  abbrev pub Corrected : ℕ → List (Worker fl) → k.St → List (Worker fl) → k.St → Type 0
  Corrected m [] st0 [] st = Unit
  Corrected m [] st0 (w ∷ ws) st = ⊥
  Corrected m (w0 ∷ ws0) st0 [] st = ⊥
  Corrected m (w0 ∷ ws0) st0 (w ∷ ws) st =
      (corrected m w0 (tsf w0.follower.fd st0) ≡ some (w, tsf w0.follower.fd st))
      × Corrected m ws0 st0 ws st

  -- A follower that is not in the list keeps its register in the loop of `run_single`.
  correct_all_other :
      (ws0 : List (Worker fl)) (stats : WelfordStats fl) (m : ℕ) (st : k.St) (fd : ℕ)
      → All (Reads k regs fl has_ssse3) ws0
      → All (Away k regs fl has_ssse3 fd) ws0
      → tsf fd (correct_all k fl has_ssse3 (files_of ws0) (controllers_of ws0) stats m st).1
        ≡ tsf fd st
  unfolding correct_all
  correct_all_other [] stats m st fd r a = refl
  correct_all_other (w ∷ ws) stats m st fd (a0, rs) (a, as1) =
      let r = correct_follower k fl has_ssse3 w.follower w.controller m st in
      let key = correct_follower_other k regs fl has_ssse3 w.follower a0 w.controller m st fd a in
      elim (Option-cases r.0) [
        | inl e ↦ rw (e, correct_all) key
        | inr ((c, none), e) ↦
            rw (e, correct_all) (correct_all_other ws stats m r.1 fd rs as1 ∙ key)
        | inr ((c, some (d, raw)), e) ↦
            rw (e, correct_all)
              (correct_all_other ws (Stats.update stats raw d) m r.1 fd rs as1 ∙ key)
      ]

  correct_all-cons :
      (w : Worker fl) (ws : List (Worker fl)) (stats stats' : WelfordStats fl) (m : ℕ)
      (st st1 st2 : k.St) (c : Controller fl) (d raw : ℤ) (cs : List (Controller fl))
      → correct_follower k fl has_ssse3 w.follower w.controller m st
        ≡ (some (c, some (d, raw)), st1)
      → correct_all k fl has_ssse3
          (files_of ws)
          (controllers_of ws)
          (Stats.update stats raw d)
          m
          st1
        ≡ (some (cs, stats'), st2)
      → correct_all k fl has_ssse3 (files_of (w ∷ ws)) (controllers_of (w ∷ ws)) stats m st
        ≡ (some (c ∷ cs, stats'), st2)
  unfolding correct_all
  correct_all-cons w ws stats stats' m st st1 st2 c d raw cs first rest = ground arith

  -- The loop of `run_single` over the same followers makes the same corrections.
  pub correct_all-Corrected :
      (m : ℕ) (ws0 : List (Worker fl)) (st0 : k.St) (ws : List (Worker fl)) (st : k.St)
      (stats : WelfordStats fl) (st1 : k.St)
      → All (Reads k regs fl has_ssse3) ws0
      → Apart k regs fl has_ssse3 ws0
      → All (λ w. tsf w.follower.fd st1 ≡ tsf w.follower.fd st0) ws0
      → Corrected m ws0 st0 ws st
      → (stats' : WelfordStats fl) × (st' : k.St) × (correct_all k fl has_ssse3
            (files_of ws0)
            (controllers_of ws0)
            stats
            m
            st1
          ≡ (some (controllers_of ws, stats'), st'))
        × All (λ w. tsf w.follower.fd st ≡ tsf w.follower.fd st') ws0
  unfolding correct_all
  correct_all-Corrected m [] st0 [] st stats st1 r a same c = (stats, st1, refl, tt)
  correct_all-Corrected m [] st0 (w ∷ ws) st stats st1 r a same c = absurd c
  correct_all-Corrected m (w0 ∷ ws0) st0 [] st stats st1 r a same c = absurd c
  correct_all-Corrected m (w0 ∷ ws0) st0 (w ∷ ws) st stats st1 (r, rs) (a, as1) (e, es) (c, cs) =
      elim (Option-cases (apply w0.controller m (tsf w0.follower.fd st0))) [
        | inl none_made ↦ absurd (ground (arith, none_made))
        | inr ((c', d, raw), made) ↦
            let v = new_tsf (tsf w0.follower.fd st0) d in
            let st2 = store w0.follower.fd v st1 in
            let first : correct_follower k fl has_ssse3 w0.follower w0.controller m st1
                ≡ (some (c', some (d, raw)), st2) =
              rw e at (
                correct_follower-some k regs fl has_ssse3 w0.follower r w0.controller c' m st1 d raw
                  (rw e made)) in
            let here = tsf-store w0.follower.fd v st1 (new_tsf-lt (tsf w0.follower.fd st0) d) in
            let both = sym c ∙ corrected-some m w0 (tsf w0.follower.fd st0) c' d raw made in
            let out : w
                ≡ record w0 { controller = c'; stats = Stats.update w0.stats raw d; pc = written } =
              cc in
            let to : tsf w0.follower.fd st ≡ v = cc in
            let still =
              All-map
                (λ x.
                  (Away k regs fl has_ssse3 w0.follower.fd x)
                  × (tsf x.follower.fd st1 ≡ tsf x.follower.fd st0))
                (λ x. tsf x.follower.fd st2 ≡ tsf x.follower.fd st0) ws0
                (λ x h. tsf-store_ne w0.follower.fd x.follower.fd v st1 (λ q. h.0 (sym q)) ∙ h.1)
                (All-both _ _ ws0 a es) in
            let (stats', st', rest, agree) =
              correct_all-Corrected m ws0 st0 ws st (Stats.update stats raw d) st2 rs as1 still
                cs in
            let kept = correct_all_other ws0 (Stats.update stats raw d) m st2 w0.follower.fd rs a in
            let last : tsf w0.follower.fd st' ≡ v =
              rw
                (ap (λ (p : Option (List (Controller fl) × WelfordStats fl) × k.St). p.1)
                  (sym rest))
                (kept ∙ here) in
            let whole =
              correct_all-cons w0 ws0 stats stats' m st1 st2 st' c' d raw (controllers_of ws) first
                rest in
            (stats', st', whole ∙ ground (arith, out), (to ∙ sym last, agree))
      ]
