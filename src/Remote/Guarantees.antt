-- ===== src/Remote/Guarantees.antt =====
-- What every run of `run_remote_update` in proxmox_fleet/flows/remote.py guarantees, whatever the
-- outside answers or raises.
use proxmox_management.Prelude.{
  true, false, not, ◌&&◌, ◌||◌, List, none, some, ◌≡◌, refl, arith, ◌⊎◌, inl, inr, codes, is_empty,
  text_eq_refl,
}
use proxmox_management.Flow.{
  Event, ran, polled, slept, run_shell, reboot, guest, detect_cmd, hook, reboot_required, upgrade,
  Outcome, ok, raised, World, PrimitiveResult, PkgMgr, happens, Env,
}
use proxmox_management.Flow.Discipline.{attempted, upgraded, same_mode_refl}
use proxmox_management.Flow.Triples.{
  Meets, Meets-bind, Meets-pure, Meets-strengthen, Meets-catching, Meets-look, Meets-assign,
  Meets-when, Meets-invoke, returns,
}
use proxmox_management.Flow.Upgrading.{
  Permits, Late, detect-Meets, upgrade-Meets, reboot-Meets, health-Meets,
}
use proxmox_management.Records.{is_some}
use proxmox_management.Remote.{
  RemoteConfig, RemoteFlowOutcome, remote_record, effective_pre_cmd, note_update, note_error,
  run_hook, finish, update_host, run_remote_update, remote_start,
}
use proxmox_management.Remote.Discipline.{lawful, permitted}

module _ (cfg : RemoteConfig) where
  -- between the events of `try`
  record Clean (w : World RemoteFlowOutcome) : Type 0 where
    obeys : lawful cfg w.log ≡ true
    unfailed : w.vars.failed ≡ false
    no_error : w.vars.error ≡ none

  Clean-step :
      (e : Event) (w : World RemoteFlowOutcome)
      → permitted cfg w.log e ≡ true
      → Clean w
      → Clean (happens e w)
  Clean-step e w fine h = record {
    obeys = ground (arith, fine, h.obeys);
    unfailed = h.unfailed;
    no_error = h.no_error;
  }

  Clean-Permits : Permits Clean cfg.dry_run cfg.remote_auto_reboot
  Clean-Permits = record {
    detects = λ r w h. Clean-step (ran (run_shell guest detect_cmd) r) w refl h;
    upgrades = λ m r w h.
        Clean-step (ran (run_shell guest (upgrade m cfg.dry_run)) r) w (same_mode_refl cfg.dry_run)
          h;
    checks = λ r w done h. Clean-step (ran (run_shell guest reboot_required) r) w done h;
    reboots = λ r w done auto h. Clean-step (ran (reboot 600) r) w (ground (arith, done, auto)) h;
    polls = λ r w done h. Clean-step (polled r) w done h;
    sleeps = λ k w h. Clean-step (slept k) w refl h;
  }

  -- how the flow ends without an exception, and with one
  pub record IsSuccess (o : RemoteFlowOutcome) (log : List Event) : Type 0 where
    pub unfailed : o.failed ≡ false
    pub no_error : o.error ≡ none
    pub upgrade_done : (cfg.dry_run || upgraded log) ≡ true

  pub record IsFailure (o : RemoteFlowOutcome) : Type 0 where
    pub has_failed : o.failed ≡ true
    pub has_error : is_some o.error ≡ true
    pub reports : o.report ≡ some (remote_record cfg (codes "FAILED") none none)

  record Ended (o : RemoteFlowOutcome) (log : List Event) : Type 0 where
    obeys : lawful cfg log ≡ true
    reported : IsSuccess o log ⊎ IsFailure o

  module _ (env : Env) where
    abbrev After : World RemoteFlowOutcome → Type 0
    After = Late Clean cfg.dry_run cfg.remote_auto_reboot Clean-Permits env

    abbrev Early : World RemoteFlowOutcome → Type 0
    Early w = Clean w × (attempted w.log ≡ false)

    hook-Meets : Meets Early (run_hook cfg env) (λ _. Clean) Clean
    unfolding run_hook
    hook-Meets =
        Meets-when _ _
          (λ wanted.
            Meets-bind {R = λ _. Clean} _ _
              (Meets-invoke env _ (λ r w h. hook_permitted wanted (ok r) w h)
                (λ e w h. hook_permitted wanted (raised e) w h))
              (λ r. Meets-pure tt (λ w h. h)))
          (λ _ w h. h.0)
      where
        hook_permitted :
            (not (is_empty (effective_pre_cmd cfg)) && not cfg.dry_run) ≡ true
            → (r : Outcome PrimitiveResult) (w : World RemoteFlowOutcome) → Early w
            → Clean (happens (ran (run_shell guest (hook (effective_pre_cmd cfg))) r) w)
        hook_permitted wanted r w h =
            Clean-step (ran (run_shell guest (hook (effective_pre_cmd cfg))) r) w
              (ground (arith, wanted, h.1, text_eq_refl (effective_pre_cmd cfg))) h.0

    finish-Meets :
        (m : PkgMgr) (r : PrimitiveResult) → Meets After (finish cfg env m r) (λ _. After) Clean
    unfolding finish note_update
    finish-Meets m r =
        Meets-bind {R = λ _. After} _ _
          (reboot-Meets Clean cfg.dry_run cfg.remote_auto_reboot Clean-Permits env _
            (λ on. (ground (arith, on), ground (arith, on))))
          (λ rebooted.
            Meets-bind {R = λ _. After} _ _
              (health-Meets Clean cfg.dry_run cfg.remote_auto_reboot Clean-Permits env cfg.kuma _ _
                (λ on. ground (arith, on)))
              (λ _. Meets-assign _ (λ w h. record {
                clean = record {
                  obeys = h.clean.obeys;
                  unfailed = h.clean.unfailed;
                  no_error = h.clean.no_error;
                };
                behind_upgrade = h.behind_upgrade;
              })))

    update_host-Meets : Meets Early (update_host cfg env) (λ _. After) Clean
    unfolding update_host
    update_host-Meets = Meets-bind {R = λ _. Clean} _ _ hook-Meets (λ _.
        Meets-bind {R = λ _. Clean} _ _
          (detect-Meets Clean cfg.dry_run cfg.remote_auto_reboot Clean-Permits env)
          (λ m.
            Meets-bind {R = λ _. After} _ _
              (upgrade-Meets Clean cfg.dry_run cfg.remote_auto_reboot Clean-Permits env m)
              (λ r. finish-Meets m r)))

    abbrev Over : World RemoteFlowOutcome → Type 0
    Over w = Ended w.vars w.log

    run-Meets : Meets Early (run_remote_update cfg env) (λ o w. Ended o w.log) (λ _. ⊥)
    unfolding run_remote_update note_error
    run-Meets =
        Meets-bind {R = λ _. Over} _ _
          (Meets-catching {F = Clean} _ _
            (Meets-strengthen _ update_host-Meets
              (λ _ w h. record {
                obeys = h.clean.obeys;
                reported = inl (record {
                  unfailed = h.clean.unfailed;
                  no_error = h.clean.no_error;
                  upgrade_done = h.behind_upgrade;
                });
              })
              (λ w h. h))
            (λ e. Meets-assign _ (λ w h. record {
              obeys = h.obeys;
              reported = inr (record { has_failed = refl; has_error = refl; reports = refl });
            })))
          (λ _. Meets-look (λ w h. h))

    Early-start : Early remote_start
    Early-start = (record { obeys = refl; unfailed = refl; no_error = refl }, refl)

    -- The flow of a remote host never raises, and everything that it does is permitted when it
    -- does it: the pre-update command only in a real run and before an upgrade starts, no reboot,
    -- reboot check or health poll without an upgrade that ended well, no reboot unless reboots are
    -- allowed, and every upgrade in the run's mode. It reports no failure and no error, and then a
    -- real run has upgraded the packages; or it reports a failure with an error and the record
    -- "FAILED".
    pub run_remote_update-lawful :
        (o : RemoteFlowOutcome) × (w : World RemoteFlowOutcome) × (run_remote_update cfg env
            remote_start
          ≡ (ok o, w))
        × (lawful cfg w.log ≡ true)
        × (IsSuccess o w.log ⊎ IsFailure o)
    run_remote_update-lawful =
        let (o, w, e, t) = returns _ remote_start run-Meets Early-start in
        (o, w, e, t.obeys, t.reported)
