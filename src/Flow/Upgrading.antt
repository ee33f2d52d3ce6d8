-- ===== src/Flow/Upgrading.antt =====
-- The package steps of the guest flows (proxmox_fleet/flows/vm.py and remote.py) keep to a discipline
-- that lets them do what they do: a reboot, a reboot check or a health poll only behind an upgrade.
use proxmox_management.Prelude.{ℕ, Text, Bool, true, false, not, ◌&&◌, ◌||◌, ◌≡◌, arith}
use proxmox_management.Flow.{
  ran, polled, slept, run_shell, reboot, guest, detect_cmd, reboot_required, upgrade, Outcome, ok,
  raised, World, Payload, PrimitiveResult, raise, pure, happens, PkgMgr, Env,
}
use proxmox_management.Flow.Triples.{
  Meets, Meets-bind, Meets-pure, Meets-raise, Meets-if, Meets-invoke, Meets-catching, Meets-when,
}
use proxmox_management.Flow.Packages.{
  Kuma, upgrade_failed, detect_pkg_mgr, upgrade_packages, reboot_now, reboot_if_marked,
  reboot_if_required, check_health, kuma_healthy,
}
use proxmox_management.Flow.Discipline.{upgraded}
use proxmox_management.Orchestration.Polling.{poll_until-Meets}

-- `Clean` holds between the events of a flow, in the given mode and with or without reboots
pub record Permits {V : Type 0} (Clean : World V → Type 0) (dry_run auto_reboot : Bool)
    : Type 0 where
  pub detects :
      (r : Outcome PrimitiveResult) (w : World V)
      → Clean w
      → Clean (happens (ran (run_shell guest detect_cmd) r) w)
  pub upgrades :
      (m : PkgMgr) (r : Outcome PrimitiveResult) (w : World V)
      → Clean w
      → Clean (happens (ran (run_shell guest (upgrade m dry_run)) r) w)
  pub checks :
      (r : Outcome PrimitiveResult) (w : World V)
      → upgraded w.log ≡ true
      → Clean w
      → Clean (happens (ran (run_shell guest reboot_required) r) w)
  pub reboots :
      (r : Outcome PrimitiveResult) (w : World V)
      → upgraded w.log ≡ true
      → auto_reboot ≡ true
      → Clean w
      → Clean (happens (ran (reboot 600) r) w)
  pub polls :
      (r : Outcome Payload) (w : World V)
      → upgraded w.log ≡ true
      → Clean w
      → Clean (happens (polled r) w)
  pub sleeps : (k : ℕ) (w : World V) → Clean w → Clean (happens (slept k) w)

module _ {V : Type 0} (Clean : World V → Type 0) (dry_run auto_reboot : Bool)
    (permits : Permits Clean dry_run auto_reboot) (env : Env) where
  -- behind the upgrade
  pub record Late (w : World V) : Type 0 where
    pub clean : Clean w
    pub behind_upgrade : (dry_run || upgraded w.log) ≡ true

  pub detect-Meets : Meets Clean (detect_pkg_mgr env) (λ _. Clean) Clean
  unfolding detect_pkg_mgr
  detect-Meets =
      Meets-bind {R = λ _. Clean} _ _
        (Meets-invoke env _ (λ r w h. permits.detects (ok r) w h)
          (λ e w h. permits.detects (raised e) w h))
        (λ r. Meets-pure _ (λ w h. h))

  pub upgrade-Meets : (m : PkgMgr) → Meets Clean (upgrade_packages env dry_run m) (λ _. Late) Clean
  unfolding upgrade_packages
  upgrade-Meets m =
      Meets-bind {R = λ r w. Clean w × ((dry_run || (r.failed || upgraded w.log)) ≡ true)} _ _
        (Meets-invoke env _ (λ r w h. (permits.upgrades m (ok r) w h, ground arith))
          (λ e w h. permits.upgrades m (raised e) w h))
        (λ r.
          Meets-if (r.failed && not dry_run) (raise (upgrade_failed r)) (pure r)
            (λ bad. Meets-raise (upgrade_failed r) (λ w h. h.0))
            (λ good.
              Meets-pure r
                (λ w h. record { clean = h.0; behind_upgrade = ground (arith, good, h.1) })))

  pub reboot-Meets :
      (wanted : Bool)
      → (wanted ≡ true → (dry_run ≡ false) × (auto_reboot ≡ true))
      → Meets Late (reboot_if_required env wanted) (λ _. Late) Clean
  unfolding reboot_if_required reboot_if_marked reboot_now
  reboot-Meets wanted why =
      Meets-if wanted (reboot_if_marked env) (pure false)
        (λ on.
          Meets-bind {R = λ _. Late} _ _
            (Meets-invoke env _
              (λ r w h. record {
                clean =
                    permits.checks (ok r) w (ground (arith, (why on).0, h.behind_upgrade)) h.clean;
                behind_upgrade = ground (arith, h.behind_upgrade);
              })
              (λ e w h.
                permits.checks (raised e) w (ground (arith, (why on).0, h.behind_upgrade)) h.clean))
            (λ check.
              Meets-if _ _ _
                (λ _.
                  Meets-bind {R = λ _. Late} _ _
                    (Meets-invoke env _
                      (λ r w h. record {
                        clean =
                            permits.reboots (ok r) w (ground (arith, (why on).0, h.behind_upgrade))
                              (why on).1 h.clean;
                        behind_upgrade = ground (arith, h.behind_upgrade);
                      })
                      (λ e w h.
                        permits.reboots (raised e) w (ground (arith, (why on).0, h.behind_upgrade))
                          (why on).1 h.clean))
                    (λ _. Meets-pure true (λ w h. h)))
                (λ _. Meets-pure false (λ w h. h))))
        (λ _. Meets-pure false (λ w h. h))

  pub health-Meets :
      (kuma : Kuma) (who : Text) (wanted : Bool)
      → (wanted ≡ true → dry_run ≡ false)
      → Meets Late (check_health env kuma who wanted) (λ _. Late) Clean
  unfolding check_health
  health-Meets kuma who wanted why =
      Meets-when _ _
        (λ on.
          Meets-catching {F = Late} _ _
            (Meets-bind _ _
              (poll_until-Meets env Late
                (λ r w h. record {
                  clean =
                      permits.polls r w (ground (arith, why (ground (arith, on)), h.behind_upgrade))
                        h.clean;
                  behind_upgrade = ground (arith, h.behind_upgrade);
                })
                (λ k w h. record {
                  clean = permits.sleeps k w h.clean;
                  behind_upgrade = ground (arith, h.behind_upgrade);
                })
                (kuma_healthy kuma.kuma_id) kuma.retries kuma.delay)
              (λ _. Meets-pure tt (λ w h. h.0)))
            (λ e. Meets-raise _ (λ w h. h.clean)))
        (λ _ w h. h)
