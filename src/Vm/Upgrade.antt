-- ===== src/Vm/Upgrade.antt =====
-- The upgrade of `run_vm_update` in proxmox_fleet/flows/vm.py, from the detection of the package
-- manager to the report.
use proxmox_management.Prelude.{true, ◌||◌, ◌≡◌, refl, arith}
use proxmox_management.Flow.{
  ran, polled, slept, run_shell, reboot, guest, detect_cmd, reboot_required, upgrade, World, assign,
  ◌>>◌, PrimitiveResult, PkgMgr, Env,
}
use proxmox_management.Flow.Triples.{
  Meets, Meets-bind, Meets-if, Meets-weaken, Meets-strengthen, Meets-assign,
}
use proxmox_management.Flow.Discipline.{upgraded, same_mode_refl}
use proxmox_management.Flow.Upgrading.{
  Permits, Late, detect-Meets, upgrade-Meets, reboot-Meets, health-Meets,
}
use proxmox_management.Vm.{
  VmConfig, VmVars, note_alloy_only, note_success, enforce_alloy, take_backup, conclude,
  update_packages, update,
}
use proxmox_management.Vm.Update.{
  Clean, Clean-step, Early, Start, backup-Meets, Clean-alloy, Early-alloy,
}

module _ (cfg : VmConfig) (env : Env) where
  Clean-Permits : Permits (Clean cfg) cfg.dry_run cfg.vm_auto_reboot
  Clean-Permits = record {
    detects = λ r w h. Clean-step cfg (ran (run_shell guest detect_cmd) r) w refl refl h;
    upgrades = λ m r w h.
        Clean-step cfg (ran (run_shell guest (upgrade m cfg.dry_run)) r) w refl
          (same_mode_refl cfg.dry_run) h;
    checks = λ r w done h. Clean-step cfg (ran (run_shell guest reboot_required) r) w refl done h;
    reboots = λ r w done auto h.
        Clean-step cfg (ran (reboot 600) r) w refl (ground (arith, done, auto)) h;
    polls = λ r w done h. Clean-step cfg (polled r) w refl done h;
    sleeps = λ k w h. Clean-step cfg (slept k) w refl refl h;
  }

  abbrev After : World VmVars → Type 0
  After = Late (Clean cfg) cfg.dry_run cfg.vm_auto_reboot Clean-Permits env

  conclude-Meets :
      (m : PkgMgr) (r : PrimitiveResult)
      → Meets After (conclude cfg env m r) (λ _. After) (Clean cfg)
  unfolding conclude note_success
  conclude-Meets m r =
      Meets-bind {R = λ _. After} _ _
        (reboot-Meets (Clean cfg) cfg.dry_run cfg.vm_auto_reboot Clean-Permits env _
          (λ on. (ground (arith, on), ground (arith, on))))
        (λ rebooted.
          Meets-bind {R = λ _. After} _ _
            (health-Meets (Clean cfg) cfg.dry_run cfg.vm_auto_reboot Clean-Permits env cfg.kuma _ _
              (λ on. ground (arith, on)))
            (λ _. Meets-assign _ (λ w h. record {
              clean = record {
                obeys = h.clean.obeys;
                known = h.clean.known;
                unfailed = h.clean.unfailed;
                no_error = h.clean.no_error;
                not_rolled_back = h.clean.not_rolled_back;
              };
              behind_upgrade = h.behind_upgrade;
            })))

  packages-Meets : Meets (Clean cfg) (update_packages cfg env) (λ _. After) (Clean cfg)
  unfolding update_packages
  packages-Meets =
      Meets-bind {R = λ _. Clean cfg} _ _
        (detect-Meets (Clean cfg) cfg.dry_run cfg.vm_auto_reboot Clean-Permits env)
        (λ m.
          Meets-bind {R = λ _. After} _ _
            (upgrade-Meets (Clean cfg) cfg.dry_run cfg.vm_auto_reboot Clean-Permits env m)
            (λ r. conclude-Meets m r))

  -- how `try` ends without an exception
  pub record Finished (w : World VmVars) : Type 0 where
    pub clean : Clean cfg w
    pub upgrade_done : (cfg.alloy_only || (cfg.dry_run || upgraded w.log)) ≡ true

  pub update-Meets : Meets (Start cfg env) (update cfg env) (λ _. Finished) (Clean cfg)
  unfolding update note_alloy_only
  update-Meets =
      Meets-if cfg.alloy_only (enforce_alloy cfg env >> assign (note_alloy_only cfg))
        (take_backup cfg env >> (enforce_alloy cfg env >> update_packages cfg env))
        (λ only.
          Meets-bind {R = λ _. Clean cfg} _ _
            (Meets-weaken _ (Clean-alloy cfg env) (λ w h. h.0.clean))
            (λ _. Meets-assign _ (λ w h. record {
              clean = record {
                obeys = h.obeys;
                known = h.known;
                unfailed = h.unfailed;
                no_error = h.no_error;
                not_rolled_back = h.not_rolled_back;
              };
              upgrade_done = ground (arith, only);
            })))
        (λ all. Meets-bind {R = λ _. Early cfg} _ _ (backup-Meets cfg env) (λ _.
          Meets-bind {R = λ _. Early cfg} _ _ (Early-alloy cfg env) (λ _.
            Meets-strengthen _ (Meets-weaken _ packages-Meets (λ w h. h.clean))
              (λ _ w h. record { clean = h.clean; upgrade_done = ground (arith, h.behind_upgrade) })
              (λ w h. h))))
