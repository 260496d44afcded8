-- ===== src/Examples/Started.antt =====
-- A start in mode A with two cards that have clocks of their own.
use tsf_sync.Prelude.{◌≡◌, refl, ap, ◌∙◌, [], ◌∷◌, ◌++◌}
use tsf_sync.Prelude.Strings.{text_eq}
use tsf_sync.Prelude.Text.{codes}
use tsf_sync.Sync.Mode.{ptp}
use tsf_sync.Sync.Config.{auto, with_clock}
use tsf_sync.Sync.Process.{SyncProcess, phc2sys_bin_from, start_phc2sys, spawn_process}
use tsf_sync.Sync.Daemon.{ok, phc2sys, launch, start_all, start}
use tsf_sync.Sync.Daemon.Start.{prepare-unneeded, choose-ok}
use tsf_sync.Sync.Daemon.Synced.{Synced, start_steps, start-Synced}
use tsf_sync.Examples.Stack.{
  world, pair, pair_cards, pair_found, pair_unneeded, pair_clocks, pair_primary, own_card,
}

abbrev follower : SyncProcess
follower = record {
  pid = 1;
  name = codes "phc2sys[" ++ codes "/dev/ptp0" ++ codes "→" ++ codes "/dev/ptp0" ++ codes "]";
}

pair_launched :
    launch (world pair) [] ptp (own_card (codes "phy0")) (with_clock pair_cards) tt
    ≡ (ok (phc2sys (follower ∷ [])), tt)
unfolding launch start_all start_phc2sys spawn_process with_clock text_eq
pair_launched = refl

pair_started : (start (world pair) auto [] 0 ptp 100 tt tt).0 ≡ ok (phc2sys (follower ∷ []))
pair_started =
    ap (λ r. r.0)
      (start_steps (world pair) auto [] 0 100 tt tt tt (own_card (codes "phy0"))
        (with_clock pair_cards)
        (prepare-unneeded (world pair) auto 0 100 ptp tt pair_cards pair_found pair_unneeded)
        (choose-ok (world pair) auto tt pair_cards (own_card (codes "phy0")) pair_found pair_clocks
          pair_primary))
    ∙ ap (λ r. r.0) pair_launched

start-Synced_example :
    Synced (world pair) (phc2sys_bin_from []) auto tt tt tt (phc2sys (follower ∷ []))
start-Synced_example =
    start-Synced (world pair) auto [] 0 100 tt tt (phc2sys (follower ∷ [])) pair_started
