-- ===== src/Vm/Rescue.antt =====
-- The bodies of `except` and `finally` in `run_vm_update` of proxmox_fleet/flows/vm.py.
use proxmox_management.Prelude.{
  ℕ, zero, suc, true, false, not, ◌||◌, Option, none, some, ◌≡◌, refl, ◌∙◌, if◌then◌else◌, arith,
  contains, codes,
}
use proxmox_management.Flow.{
  Event, ran, slept, run_shell, snapshot, absent, node, qm_rollback, qm_status, Outcome, ok, raised,
  World, PrimitiveResult, happens, Exn, Env, assign,
}
use proxmox_management.Flow.Triples.{
  Meets, Meets-bind, Meets-pure, Meets-if, Meets-weaken, Meets-invoke, Meets-catching, Meets-assign,
  Meets-when, Meets-look, Meets-pause,
}
use proxmox_management.Orchestration.Snapshots.{taken, deleted, takes, snapshot_absent-Meets}
use proxmox_management.Status.{rescue_status}
use proxmox_management.Vm.{
  VmConfig, VmVars, VmRecord, is_some, record_of, note_failure, note_rollback, await_running,
  roll_back, rescue, cleanup,
}
use proxmox_management.Vm.Discipline.{lawful, permitted, rolled_back}
use proxmox_management.Vm.Update.{Clean}

module _ (cfg : VmConfig) where
  -- between the events of `except`
  record Rolling (w : World VmVars) : Type 0 where
    obeys : lawful cfg w.log ≡ true
    known : taken w.log ≡ w.vars.snap_taken
    honest : (not w.vars.rollback_done || rolled_back w.log) ≡ true

  Rolling-step :
      (e : Event) (w : World VmVars)
      → takes e ≡ false
      → permitted cfg w.log e ≡ true
      → Rolling w
      → Rolling (happens e w)
  Rolling-step e w plain fine h = record {
    obeys = ground (arith, h.obeys);
    known = ground (arith, h.known);
    honest = ground (arith, h.honest);
  }

  abbrev pub failure_report : VmVars → VmRecord
  failure_report v =
      record_of cfg (rescue_status v.rollback_done v.snapshot_failed) none none
        (if v.rollback_done then none else v.alloy_status)

  -- how `except` ends
  pub record Rescued (w : World VmVars) : Type 0 where
    pub obeys : lawful cfg w.log ≡ true
    pub known : taken w.log ≡ w.vars.snap_taken
    pub honest : (not w.vars.rollback_done || rolled_back w.log) ≡ true
    pub has_failed : w.vars.outcome.failed ≡ true
    pub has_error : is_some w.vars.outcome.error ≡ true
    pub reports : w.vars.outcome.report ≡ some (failure_report w.vars)

  module _ (env : Env) where
    -- the node has rolled the VM back
    abbrev Back : World VmVars → Type 0
    Back w = Rolling w × (rolled_back w.log ≡ true)

    await_running-Meets : (n : ℕ) → Meets Back (await_running cfg env n) (λ _. Rolling) Rolling
    unfolding await_running note_rollback
    await_running-Meets zero = Meets-pure tt (λ w h. h.0)
    await_running-Meets (suc n) =
        Meets-bind {R = λ _. Back} _ _
          (Meets-pause 10 (λ w h. (Rolling-step (slept 10) w refl refl h.0, h.1)))
          (λ _.
            Meets-bind {R = λ _. Back} _ _
              (Meets-invoke env _
                (λ r w h.
                  (Rolling-step (ran (run_shell node qm_status) (ok r)) w refl h.1 h.0, h.1))
                (λ e w h. Rolling-step (ran (run_shell node qm_status) (raised e)) w refl h.1 h.0))
              (λ chk.
                Meets-if (contains (codes "running") chk.stdout) (assign (note_rollback cfg true))
                  (await_running cfg env n)
                  (λ _.
                    Meets-assign (note_rollback cfg true)
                      (λ w h. record { obeys = h.0.obeys; known = h.0.known; honest = h.1 }))
                  (λ _. await_running-Meets n)))

    roll_back-Meets :
        Meets (λ w. Rolling w × (taken w.log ≡ true)) (roll_back cfg env) (λ _. Rolling) (λ _. ⊥)
    unfolding roll_back note_rollback
    roll_back-Meets =
        Meets-catching {F = Rolling} _ _
          (Meets-bind {R = λ r w. Rolling w × ((r.failed || rolled_back w.log) ≡ true)} _ _
            (Meets-invoke env _
              (λ r w h. (
                Rolling-step (ran (run_shell node qm_rollback) (ok r)) w refl h.1 h.0,
                ground arith,
              ))
              (λ e w h. Rolling-step (ran (run_shell node qm_rollback) (raised e)) w refl h.1 h.0))
            (λ r.
              Meets-when _ _
                (λ good.
                  Meets-weaken _ (await_running-Meets 12) (λ w h. (h.0, ground (arith, good, h.1))))
                (λ _ w h. h.0)))
          (λ e.
            Meets-assign (note_rollback cfg false)
              (λ w h. record { obeys = h.obeys; known = h.known; honest = refl }))

    pub rescue-Meets : (e : Exn) → Meets (Clean cfg) (rescue cfg env e) (λ _. Rescued) (λ _. ⊥)
    unfolding rescue note_failure
    rescue-Meets e =
        Meets-bind {R = λ _. Rolling} _ _
          (Meets-bind {R = λ v w. Rolling w × (taken w.log ≡ v.snap_taken)} _ _
            (Meets-look (λ w h. (
              record {
                obeys = h.obeys;
                known = h.known;
                honest = ground (arith, h.not_rolled_back);
              },
              h.known,
            )))
            (λ v.
              Meets-when _ _ (λ on. Meets-weaken _ roll_back-Meets (λ w h. (h.0, h.1 ∙ on)))
                (λ _ w h. h.0)))
          (λ _. Meets-assign (note_failure cfg e) (λ w h. record {
            obeys = h.obeys;
            known = h.known;
            honest = h.honest;
            has_failed = refl;
            has_error = refl;
            reports = refl;
          }))

  -- the snapshot that was taken is deleted, whatever holds besides
  module _ (env : Env) (P : World VmVars → Type 0)
      (knows : (w : World VmVars) → P w → taken w.log ≡ w.vars.snap_taken)
      (sleeps : (k : ℕ) (w : World VmVars) → P w → P (happens (slept k) w))
      (keeps : (r : Option PrimitiveResult) (w : World VmVars)
        → P w
        → P (record w { last_result = r }))
      (deletion : (r : Outcome PrimitiveResult) (w : World VmVars)
        → P w
        → taken w.log ≡ true
        → P (happens (ran (snapshot absent) r) w)) where
    pub record Cleaned (w : World VmVars) : Type 0 where
      pub still : P w
      pub gone : (not (taken w.log) || deleted w.log) ≡ true

    pub cleanup-Meets : Meets P (cleanup cfg env) (λ _. Cleaned) (λ _. ⊥)
    unfolding cleanup
    cleanup-Meets =
        Meets-bind {R = λ v w. P w × (taken w.log ≡ v.snap_taken)} _ _
          (Meets-look (λ w p. (p, knows w p)))
          (λ v.
            Meets-when _ _
              (λ on.
                Meets-bind {R = λ _ w. (P w × (taken w.log ≡ true)) × (deleted w.log ≡ true)} _ _
                  (Meets-weaken _
                    (snapshot_absent-Meets env cfg.snapshot_retries cfg.snapshot_retry_delay
                      (λ w. P w × (taken w.log ≡ true)) (λ k w h. (sleeps k w h.0, h.1))
                      (λ r w h. (keeps r w h.0, h.1)) (λ r w h. (deletion r w h.0 h.1, h.1)))
                    (λ w h. (h.0, h.1 ∙ on)))
                  (λ r.
                    Meets-pure tt (λ w h. record { still = h.0.0; gone = ground (arith, h.1) })))
              (λ off w h. record { still = h.0; gone = ground (arith, h.1, off) }))
