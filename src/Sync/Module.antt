-- ===== src/Sync/Module.antt =====
-- src/module_loader.rs: whether the kernel module is loaded, its loading and its unloading. The
-- system is the parameter `Host`: /proc/modules, the commands and the file of the module.
pub mod Loading
pub mod Listed
use tsf_sync.Prelude.{
  ℕ, ◌≡◌, ◌⊎◌, inl, inr, refl, Bool, true, false, ◌||◌, Option, none, some, List, [], ◌∷◌, ◌++◌,
  map,
}
use tsf_sync.Prelude.Tests.{◌==◌, if◌then◌else◌}
use tsf_sync.Prelude.Text.{Bytes, codes}
use tsf_sync.Prelude.Strings.{text_eq, lines, split_whitespace}
use tsf_sync.Sync.Mode.{SyncMode, as_kernel_param}

pub data ModuleError : Type 0 where
  proc_modules : ℕ → ModuleError
  modprobe : Bytes → ModuleError
  rmmod : Bytes → ModuleError
  exec : ℕ → ModuleError

pub data Result {ℓ} (A : Type ℓ) : Type ℓ where
  ok : A → Result A
  err : ModuleError → Result A

-- What running a command gives: it could not be run, or it left with success or not and an error
-- output.
pub data Ran : Type 0 where
  not_run : ℕ → Ran
  exited : Bool → Bytes → Ran

-- `read_modules` is the text, or an error number. `print` is the decimal print of a number.
pub record Host : Type 1 where
  pub St : Type 0
  pub read_modules : St → Bytes ⊎ ℕ
  pub command : Bytes → List Bytes → St → Ran × St
  pub exists : Bytes → St → Bool
  pub print : ℕ → Bytes

abbrev pub module_name : Bytes
module_name = codes "tsf_ptp"

-- `module.replace('-', "_")`
abbrev pub normalized : Bytes → Bytes
normalized = map (λ c. if c == b'-' then b'_' else c)

-- Whether the first word of a line is the name.
abbrev pub names : Bytes → Bytes → Bool
names modname line = elim (split_whitespace line) [ [] ↦ false | name ∷ _ ↦ text_eq name modname ]

unfoldable pub any_line : Bytes → List Bytes → Bool
any_line modname [] = false
any_line modname (l ∷ ls) = names modname l || any_line modname ls

unfoldable pub is_module_loaded_from : Bytes → Bytes → Bool
is_module_loaded_from text modname = any_line (normalized modname) (lines text)

abbrev is_auto_or_empty : Bytes → Bool
is_auto_or_empty primary = text_eq primary [] || text_eq primary (codes "auto")

abbrev pub module_path : Bytes
module_path = codes "kernel/tsf_ptp.ko"

abbrev pub missing : Bytes
missing = codes "tsf_ptp module not found via modprobe or at kernel/tsf_ptp.ko"

-- The end of `load_module`, `insmod` and `unload_module`.
abbrev pub finished : (Bytes → ModuleError) → Ran → Result (Unit {0})
finished failure (not_run errno) = err (exec errno)
finished failure (exited true stderr) = ok tt
finished failure (exited false stderr) = err (failure stderr)

module _ (host : Host) where
  open host use {St, read_modules, command, exists, print}

  unfoldable pub is_module_loaded : Bytes → St → Result Bool
  is_module_loaded modname st = elim (read_modules st) [
    | inr errno ↦ err (proc_modules errno)
    | inl text ↦ ok (is_module_loaded_from text modname)
  ]

  unfoldable pub is_tsf_ptp_loaded : St → Result Bool
  is_tsf_ptp_loaded st = is_module_loaded module_name st

  unfoldable pub load_module : Bytes → List Bytes → St → Result (Unit {0}) × St
  load_module modname params st =
      let (r, st') = command (codes "modprobe") (modname ∷ params) st in (finished modprobe r, st')

  unfoldable pub insmod : Bytes → List Bytes → St → Result (Unit {0}) × St
  insmod path params st =
      let (r, st') = command (codes "insmod") (path ∷ params) st in (finished modprobe r, st')

  -- The parameters of the module.
  unfoldable pub param_strings : ℕ → SyncMode → Option Bytes → Option ℕ → List Bytes
  param_strings threshold mode primary interval =
      (codes "adjtime_threshold_ns=" ++ print threshold)
      ∷ (codes "sync_mode=" ++ print (as_kernel_param mode))
      ∷ ((elim primary [
        | none ↦ []
        | some p ↦ if is_auto_or_empty p then [] else (codes "sync_primary=" ++ p) ∷ []
      ])
          ++ (elim interval [ none ↦ [] | some ms ↦ (codes "sync_interval_ms=" ++ print ms) ∷ [] ]))

  unfoldable pub load_tsf_ptp : ℕ → SyncMode → Option Bytes → Option ℕ → St → Result (Unit {0}) × St
  load_tsf_ptp threshold mode primary interval st =
      let params = param_strings threshold mode primary interval in
      elim (is_tsf_ptp_loaded st) [
        | err e ↦ (err e, st)
        | ok loaded ↦
            if loaded
            then (ok tt, st)
            else (let (r, st') = load_module module_name params st in
                elim r [
                  | ok _ ↦ (ok tt, st')
                  | err _ ↦
                      if exists module_path st'
                      then insmod module_path params st'
                      else (err (modprobe missing), st')
                ])
      ]

  unfoldable pub unload_module : Bytes → St → Result (Unit {0}) × St
  unload_module modname st =
      let (r, st') = command (codes "rmmod") (modname ∷ []) st in (finished rmmod r, st')

  unfoldable pub unload_tsf_ptp : St → Result (Unit {0}) × St
  unload_tsf_ptp st = elim (is_tsf_ptp_loaded st) [
    | err e ↦ (err e, st)
    | ok loaded ↦ if loaded then unload_module module_name st else (ok tt, st)
  ]

partial_name_test : is_module_loaded_from (codes "tsf_ptp 16384 0\n") (codes "tsf") ≡ false
unfolding is_module_loaded_from any_line lines split_whitespace text_eq
partial_name_test = refl

hyphen_test : is_module_loaded_from (codes "tsf_ptp 16384 0\n") (codes "tsf-ptp") ≡ true
unfolding is_module_loaded_from any_line lines split_whitespace text_eq
hyphen_test = refl
