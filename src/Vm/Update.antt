-- ===== src/Vm/Update.antt =====
-- The body of `try` in `run_vm_update` of proxmox_fleet/flows/vm.py keeps to the discipline.
use proxmox_management.Prelude.{true, false, none, ◌≡◌, refl, ◌∙◌, arith, Bool-cases, inl, inr}
use proxmox_management.Flow.{
  Event, ran, reconciled, run_shell, guest, vzdump, Outcome, ok, raised, World, PrimitiveResult,
  happens, AlloyResult, Env,
}
use proxmox_management.Flow.Discipline.{attempted, is_attempt, same_mode_refl}
use proxmox_management.Flow.Triples.{
  Meets, Meets-bind, Meets-pure, Meets-weaken, Meets-strengthen, Meets-invoke, Meets-reconcile,
  Meets-assign, Meets-when,
}
use proxmox_management.Orchestration.Snapshots.{taken, takes, snapshot_present-Meets}
use proxmox_management.Vm.{
  VmConfig, VmVars, note_alloy, note_snapshot, enforce_alloy, take_vzdump, take_snapshot,
  take_backup,
}
use proxmox_management.Vm.Discipline.{lawful, permitted}

module _ (cfg : VmConfig) where
  -- between the events of `try`
  pub record Clean (w : World VmVars) : Type 0 where
    pub obeys : lawful cfg w.log ≡ true
    pub known : taken w.log ≡ w.vars.snap_taken
    pub unfailed : w.vars.outcome.failed ≡ false
    pub no_error : w.vars.outcome.error ≡ none
    pub not_rolled_back : w.vars.rollback_done ≡ false

  -- an event that is permitted and takes no snapshot
  pub Clean-step :
      (e : Event) (w : World VmVars)
      → takes e ≡ false
      → permitted cfg w.log e ≡ true
      → Clean w
      → Clean (happens e w)
  Clean-step e w plain fine h = record {
    obeys = ground (arith, h.obeys);
    known = ground (arith, h.known);
    unfailed = h.unfailed;
    no_error = h.no_error;
    not_rolled_back = h.not_rolled_back;
  }

  -- before the upgrade
  pub record Early (w : World VmVars) : Type 0 where
    pub clean : Clean w
    pub before_upgrade : attempted w.log ≡ false

  pub Early-step :
      (e : Event) (w : World VmVars)
      → takes e ≡ false
      → is_attempt e ≡ false
      → permitted cfg w.log e ≡ true
      → Early w
      → Early (happens e w)
  Early-step e w plain quiet fine h = record {
    clean = Clean-step e w plain fine h.clean;
    before_upgrade = ground (arith, h.before_upgrade);
  }

  module _ (env : Env) where
    -- `_enforce_alloy` keeps what its events and its assignments keep
    alloy-Meets :
        (P : World VmVars → Type 0)
        → ((r : Outcome AlloyResult) (w : World VmVars)
            → cfg.has_alloy_config ≡ true
            → P w
            → P (happens (reconciled cfg.dry_run r) w))
        → ((result : AlloyResult) (w : World VmVars)
            → P w
            → P (record w { vars = note_alloy cfg result w.vars }))
        → Meets P (enforce_alloy cfg env) (λ _. P) P
    unfolding enforce_alloy
    alloy-Meets P step note =
        Meets-when _ _
          (λ configured.
            Meets-bind {R = λ _. P} _ _
              (Meets-reconcile env cfg.dry_run (λ r w p. step (ok r) w configured p)
                (λ e w p. step (raised e) w configured p))
              (λ result. Meets-assign (note_alloy cfg result) (note result)))
          (λ _ w p. p)

    Clean-note_alloy :
        (result : AlloyResult) (w : World VmVars)
        → Clean w
        → Clean (record w { vars = note_alloy cfg result w.vars })
    unfolding note_alloy
    Clean-note_alloy result w h = record {
      obeys = h.obeys;
      known = h.known;
      unfailed = h.unfailed;
      no_error = h.no_error;
      not_rolled_back = h.not_rolled_back;
    }

    pub Clean-alloy : Meets Clean (enforce_alloy cfg env) (λ _. Clean) Clean
    Clean-alloy =
        alloy-Meets Clean
          (λ r w on h.
            Clean-step (reconciled cfg.dry_run r) w refl
              (ground (arith, same_mode_refl cfg.dry_run, on)) h)
          Clean-note_alloy

    pub Early-alloy : Meets Early (enforce_alloy cfg env) (λ _. Early) Clean
    Early-alloy =
        Meets-strengthen _
          (alloy-Meets Early
            (λ r w on h.
              Early-step (reconciled cfg.dry_run r) w refl refl
                (ground (arith, same_mode_refl cfg.dry_run, on)) h)
            (λ result w h. record {
              clean = Clean-note_alloy result w h.clean;
              before_upgrade = h.before_upgrade;
            }))
          (λ _ w h. h) (λ w h. h.clean)

    abbrev pub Start : World VmVars → Type 0
    Start w = Early w × (taken w.log ≡ false)

    vzdump-Meets : cfg.dry_run ≡ false → Meets Start (take_vzdump cfg env) (λ _. Start) Clean
    unfolding take_vzdump
    vzdump-Meets real =
        Meets-when _ _
          (λ wanted.
            Meets-bind {R = λ _. Start} _ _
              (Meets-invoke env _
                (λ r w h. (
                  Early-step (ran (run_shell guest vzdump) (ok r)) w refl refl
                      (ground (arith, real, wanted, h.0.before_upgrade)) h.0,
                  h.1,
                ))
                (λ e w h.
                  Clean-step (ran (run_shell guest vzdump) (raised e)) w refl
                    (ground (arith, real, wanted, h.0.before_upgrade)) h.0.clean))
              (λ r. Meets-pure tt (λ w h. h)))
          (λ _ w h. h)

    -- `Early` without what the flow knows of the snapshot
    record Unsnapped (w : World VmVars) : Type 0 where
      obeys : lawful cfg w.log ≡ true
      before_upgrade : attempted w.log ≡ false
      unfailed : w.vars.outcome.failed ≡ false
      no_error : w.vars.outcome.error ≡ none
      not_rolled_back : w.vars.rollback_done ≡ false

    Early-note_snapshot :
        (r : PrimitiveResult) (w : World VmVars)
        → Unsnapped w
        → taken w.log ≡ r.changed
        → Early (record w { vars = note_snapshot cfg r w.vars })
    unfolding note_snapshot
    Early-note_snapshot r w h e = elim (Bool-cases r.changed) [
      | inl made ↦ rw made (record {
        clean = record {
          obeys = h.obeys;
          known = e ∙ made;
          unfailed = h.unfailed;
          no_error = h.no_error;
          not_rolled_back = h.not_rolled_back;
        };
        before_upgrade = h.before_upgrade;
      })
      | inr missing ↦ rw missing (record {
        clean = record {
          obeys = h.obeys;
          known = e ∙ missing;
          unfailed = h.unfailed;
          no_error = h.no_error;
          not_rolled_back = h.not_rolled_back;
        };
        before_upgrade = h.before_upgrade;
      })
    ]

    snapshot-Meets : cfg.dry_run ≡ false → Meets Start (take_snapshot cfg env) (λ _. Early) Clean
    unfolding take_snapshot
    snapshot-Meets real =
        Meets-when _ _
          (λ wanted.
            Meets-bind {R = λ r w. Unsnapped w × (taken w.log ≡ r.changed)} _ _
              (Meets-strengthen _
                (Meets-weaken _
                  (snapshot_present-Meets env cfg.snapshot_retries cfg.snapshot_retry_delay
                    Unsnapped
                    (λ k w h. record {
                      obeys = h.obeys;
                      before_upgrade = h.before_upgrade;
                      unfailed = h.unfailed;
                      no_error = h.no_error;
                      not_rolled_back = h.not_rolled_back;
                    })
                    (λ r w h. record {
                      obeys = h.obeys;
                      before_upgrade = h.before_upgrade;
                      unfailed = h.unfailed;
                      no_error = h.no_error;
                      not_rolled_back = h.not_rolled_back;
                    })
                    (λ r w h fresh. record {
                      obeys = ground (arith, h.obeys, real, wanted, h.before_upgrade, fresh);
                      before_upgrade = h.before_upgrade;
                      unfailed = h.unfailed;
                      no_error = h.no_error;
                      not_rolled_back = h.not_rolled_back;
                    }))
                  (λ w h. (
                    record {
                      obeys = h.0.clean.obeys;
                      before_upgrade = h.0.before_upgrade;
                      unfailed = h.0.clean.unfailed;
                      no_error = h.0.clean.no_error;
                      not_rolled_back = h.0.clean.not_rolled_back;
                    },
                    h.1,
                  )))
                (λ r w h. h) (λ w h. elim h [ ]))
              (λ r. Meets-assign (note_snapshot cfg r) (λ w h. Early-note_snapshot r w h.0 h.1)))
          (λ _ w h. h.0)

    pub backup-Meets : Meets Start (take_backup cfg env) (λ _. Early) Clean
    unfolding take_backup
    backup-Meets =
        Meets-when _ _
          (λ real.
            Meets-bind {R = λ _. Start} _ _ (vzdump-Meets (ground (arith, real)))
              (λ _. snapshot-Meets (ground (arith, real))))
          (λ _ w h. h.0)
