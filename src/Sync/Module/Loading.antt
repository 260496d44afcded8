-- ===== src/Sync/Module/Loading.antt =====
-- src/module_loader.rs, `load_tsf_ptp`: after a success the module is loaded, and loading it again
-- does nothing, on a system whose commands do what they report.
use tsf_sync.Prelude.{ℕ, ◌≡◌, refl, true, false, Option, List, ◌∷◌, arith}
use tsf_sync.Prelude.Text.{Bytes, codes}
use tsf_sync.Sync.Mode.{SyncMode}
use tsf_sync.Sync.Module.{
  ModuleError, Host, ok, Ran, not_run, exited, finished, module_name, module_path,
  is_tsf_ptp_loaded, load_module, insmod, load_tsf_ptp, param_strings, modprobe,
}

-- Where a command that loads the module leaves with success, the module is listed.
pub record Loads (host : Host) : Type 0 where
  pub by_modprobe :
      (params : List Bytes) (st : host.St) (out : Bytes)
      → (host.command (codes "modprobe") (module_name ∷ params) st).0 ≡ exited true out
      → is_tsf_ptp_loaded host (host.command (codes "modprobe") (module_name ∷ params) st).1
        ≡ ok true
  pub by_insmod :
      (params : List Bytes) (st : host.St) (out : Bytes)
      → (host.command (codes "insmod") (module_path ∷ params) st).0 ≡ exited true out
      → is_tsf_ptp_loaded host (host.command (codes "insmod") (module_path ∷ params) st).1 ≡ ok true

finished-ok :
    (failure : Bytes → ModuleError) (r : Ran)
    → finished failure r ≡ ok tt
    → (out : Bytes) × (r ≡ exited true out)
finished-ok failure (not_run errno) h = cc
finished-ok failure (exited true out) h = (out, refl)
finished-ok failure (exited false out) h = cc

module _ (host : Host) (laws : Loads host) where
  load_module-ok :
      (params : List Bytes) (st : host.St)
      → (load_module host module_name params st).0 ≡ ok tt
      → is_tsf_ptp_loaded host (load_module host module_name params st).1 ≡ ok true
  unfolding load_module
  load_module-ok params st done =
      let (out, e) = finished-ok modprobe _ done in laws.by_modprobe params st out e

  insmod-ok :
      (params : List Bytes) (st : host.St)
      → (insmod host module_path params st).0 ≡ ok tt
      → is_tsf_ptp_loaded host (insmod host module_path params st).1 ≡ ok true
  unfolding insmod
  insmod-ok params st done =
      let (out, e) = finished-ok modprobe _ done in laws.by_insmod params st out e

  load_tsf_ptp-ok :
      (threshold : ℕ) (mode : SyncMode) (primary : Option Bytes) (interval : Option ℕ)
      (st : host.St)
      → (load_tsf_ptp host threshold mode primary interval st).0 ≡ ok tt
      → is_tsf_ptp_loaded host (load_tsf_ptp host threshold mode primary interval st).1 ≡ ok true
  unfolding load_tsf_ptp
  load_tsf_ptp-ok threshold mode primary interval st done = ground (
    arith,
    load_module-ok (param_strings host threshold mode primary interval) st,
    insmod-ok (param_strings host threshold mode primary interval)
        (load_module host module_name (param_strings host threshold mode primary interval) st).1,
  )

  load_tsf_ptp-loaded :
      (threshold : ℕ) (mode : SyncMode) (primary : Option Bytes) (interval : Option ℕ)
      (st : host.St)
      → is_tsf_ptp_loaded host st ≡ ok true
      → load_tsf_ptp host threshold mode primary interval st ≡ (ok tt, st)
  unfolding load_tsf_ptp
  load_tsf_ptp-loaded threshold mode primary interval st loaded = ground (arith, loaded)

  -- Where loading the module succeeds, by either command or because it was loaded, the module is
  -- listed afterwards, and loading it again with any parameters succeeds and changes nothing.
  pub load_tsf_ptp-again :
      (threshold threshold' : ℕ) (mode mode' : SyncMode) (primary primary' : Option Bytes)
      (interval interval' : Option ℕ) (st : host.St)
      → (load_tsf_ptp host threshold mode primary interval st).0 ≡ ok tt
      → let st' = (load_tsf_ptp host threshold mode primary interval st).1 in
        (is_tsf_ptp_loaded host st' ≡ ok true)
        × (load_tsf_ptp host threshold' mode' primary' interval' st' ≡ (ok tt, st'))
  load_tsf_ptp-again threshold threshold' mode mode' primary primary' interval interval' st done =
      let loaded = load_tsf_ptp-ok threshold mode primary interval st done in
      (loaded, load_tsf_ptp-loaded threshold' mode' primary' interval' _ loaded)
