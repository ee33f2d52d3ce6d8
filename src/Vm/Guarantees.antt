-- ===== src/Vm/Guarantees.antt =====
-- What every run of `run_vm_update` in proxmox_fleet/flows/vm.py guarantees, whatever the outside
-- answers or raises.
use proxmox_management.Prelude.{
  Text, if◌then◌else◌, Bool, true, false, not, ◌&&◌, ◌||◌, List, [], ◌∷◌, Option, none, some, ◌≡◌,
  refl, subst, ap, sym, arith, ◌⊎◌, inl, inr,
}
use proxmox_management.Flow.{
  Event, ran, reconciled, slept, run_shell, guest, detect_cmd, upgrade, snapshot, absent, Outcome,
  ok, raised, World, PrimitiveResult, happens, Env,
}
use proxmox_management.Flow.Triples.{
  Meets, Meets-bind, Meets-pure, Meets-strengthen, Meets-finally, Meets-catching, Meets-look,
  returns,
}
use proxmox_management.Orchestration.Snapshots.{taken, deleted, takes}
use proxmox_management.Records.{is_some}
use proxmox_management.Status.{rescue_status}
use proxmox_management.Vm.{
  VmConfig, VmVars, VmFlowOutcome, record_of, cleanup, run_vm_update, first_world,
}
use proxmox_management.Vm.Discipline.{lawful, permitted, rolled_back}
use proxmox_management.Flow.Discipline.{upgraded}
use proxmox_management.Vm.Update.{Clean, Clean-step, Start}
use proxmox_management.Vm.Upgrade.{Finished, update-Meets}
use proxmox_management.Vm.Rescue.{Rescued, rescue-Meets, cleanup-Meets}

module _ (cfg : VmConfig) (env : Env) where
  abbrev Settled : World VmVars → Type 0
  Settled w = Finished cfg env w ⊎ Rescued cfg w

  Settled-known : (w : World VmVars) → Settled w → taken w.log ≡ w.vars.snap_taken
  Settled-known w (inl f) = f.clean.known
  Settled-known w (inr r) = r.known

  Settled-step :
      (e : Event) (w : World VmVars)
      → takes e ≡ false
      → permitted cfg w.log e ≡ true
      → Settled w
      → Settled (happens e w)
  Settled-step e w plain fine (inl f) = inl (record {
    clean = Clean-step cfg e w plain fine f.clean;
    upgrade_done = ground (arith, f.upgrade_done);
  })
  Settled-step e w plain fine (inr r) = inr (record {
    obeys = ground (arith, r.obeys);
    known = ground (arith, r.known);
    honest = ground (arith, r.honest);
    has_failed = r.has_failed;
    has_error = r.has_error;
    reports = r.reports;
  })

  Settled-keep :
      (o : Option PrimitiveResult) (w : World VmVars)
      → Settled w
      → Settled (record w { last_result = o })
  Settled-keep o w (inl f) = inl (record {
    clean = record {
      obeys = f.clean.obeys;
      known = f.clean.known;
      unfailed = f.clean.unfailed;
      no_error = f.clean.no_error;
      not_rolled_back = f.clean.not_rolled_back;
    };
    upgrade_done = f.upgrade_done;
  })
  Settled-keep o w (inr r) = inr (record {
    obeys = r.obeys;
    known = r.known;
    honest = r.honest;
    has_failed = r.has_failed;
    has_error = r.has_error;
    reports = r.reports;
  })

  tidied :
      Meets Settled
        (cleanup cfg env)
        (λ _ w. Settled w × ((not (taken w.log) || deleted w.log) ≡ true))
        (λ _. ⊥)
  tidied =
      Meets-strengthen _
        (cleanup-Meets cfg env Settled Settled-known (λ k w. Settled-step (slept k) w refl refl)
          Settled-keep (λ r w s t. Settled-step (ran (snapshot absent) r) w refl t s))
        (λ _ w c. (c.still, c.gone)) (λ w h. h)

  record Told (o : VmFlowOutcome) (w : World VmVars) : Type 0 where
    settled : Settled w
    tidy : (not (taken w.log) || deleted w.log) ≡ true
    told : o ≡ w.vars.outcome

  run_vm_update-Meets : Meets (Start cfg env) (run_vm_update cfg env) Told (λ _. ⊥)
  unfolding run_vm_update
  run_vm_update-Meets =
      Meets-bind {R = λ _ w. Settled w × ((not (taken w.log) || deleted w.log) ≡ true)} _ _
        (Meets-finally {R = λ _. Settled} {E = λ _. ⊥} _ _
          (Meets-catching {F = Clean cfg} _ _
            (Meets-strengthen _ (update-Meets cfg env) (λ _ w f. inl f) (λ w h. h))
            (λ e. Meets-strengthen _ (rescue-Meets cfg env e) (λ _ w r. inr r) (λ w h. h)))
          (λ _. tidied) (record { at = λ w p. elim p [ ] }))
        (λ _.
          Meets-bind
            {R = λ v w. (Settled w × ((not (taken w.log) || deleted w.log) ≡ true)) × (v ≡ w.vars)}
            _ _ (Meets-look (λ w h. (h, refl)))
            (λ v. Meets-pure _ (λ w h. record {
              settled = h.0.0;
              tidy = h.0.1;
              told = ap (λ (x : VmVars). x.outcome) h.1;
            })))

  -- a run that reports no failure
  pub record IsSuccess (o : VmFlowOutcome) (log : List Event) : Type 0 where
    pub unfailed : o.failed ≡ false
    pub no_error : o.error ≡ none
    pub upgrade_done : (cfg.alloy_only || (cfg.dry_run || upgraded log)) ≡ true

  -- a run that reports one; its status claims a rollback only if there was one
  pub record IsFailure (o : VmFlowOutcome) (log : List Event) : Type 0 where
    pub has_failed : o.failed ≡ true
    pub has_error : is_some o.error ≡ true
    pub rolled : Bool
    pub unsnapped : Bool
    pub alloy : Option Text
    pub reports : o.report ≡ some (record_of cfg (rescue_status rolled unsnapped) none none alloy)
    pub honest : rolled ≡ true → rolled_back log ≡ true

  Start-first : Start cfg env (first_world cfg env)
  Start-first = (
    record {
      clean = record {
        obeys = refl;
        known = refl;
        unfailed = refl;
        no_error = refl;
        not_rolled_back = refl;
      };
      before_upgrade = refl;
    },
    refl,
  )

  abbrev first_run : Outcome VmFlowOutcome × World VmVars
  first_run = run_vm_update cfg env (first_world cfg env)

  Settled-obeys : (w : World VmVars) → Settled w → lawful cfg w.log ≡ true
  Settled-obeys w (inl f) = f.clean.obeys
  Settled-obeys w (inr r) = r.obeys

  -- The VM flow never raises, and everything that it does is permitted when it does it: no
  -- backup behind the start of an upgrade, no reboot, reboot check or health poll without an
  -- upgrade that ended well, a rollback or the deletion of a snapshot only if one was taken, a poll
  -- of the rolled-back VM only behind a successful rollback, and all of it in the run's mode.
  pub run_vm_update-lawful :
      (o : VmFlowOutcome) × (w : World VmVars) × (first_run ≡ (ok o, w)) × (lawful cfg w.log ≡ true)
  run_vm_update-lawful =
      let (o, w, e, t) = returns _ (first_world cfg env) run_vm_update-Meets Start-first in
      (o, w, e, Settled-obeys w t.settled)

  told_of :
      (P : Outcome VmFlowOutcome × World VmVars → Type 0)
      → ((o : VmFlowOutcome) (w : World VmVars) → Told o w → P (ok o, w))
      → P first_run
  told_of P h =
      let (o, w, e, t) = returns _ (first_world cfg env) run_vm_update-Meets Start-first in
      subst P (sym e) (h o w t)

  -- If a snapshot was created in a run, its deletion was asked for before the run ended, however
  -- the update and its rescue went.
  pub run_vm_update-deleted : taken first_run.1.log ≡ true → deleted first_run.1.log ≡ true
  run_vm_update-deleted =
      told_of (λ x. taken x.1.log ≡ true → deleted x.1.log ≡ true)
        (λ o w t h. ground (arith, t.tidy, h))

  Told-outcome :
      (o : VmFlowOutcome) (w : World VmVars) → Told o w → IsSuccess o w.log ⊎ IsFailure o w.log
  Told-outcome o w t =
      subst (λ x. IsSuccess x w.log ⊎ IsFailure x w.log) (sym t.told) (go t.settled)
    where
      go : Settled w → IsSuccess w.vars.outcome w.log ⊎ IsFailure w.vars.outcome w.log
      go (inl f) = inl (record {
        unfailed = f.clean.unfailed;
        no_error = f.clean.no_error;
        upgrade_done = f.upgrade_done;
      })
      go (inr r) = inr (record {
        has_failed = r.has_failed;
        has_error = r.has_error;
        rolled = w.vars.rollback_done;
        unsnapped = w.vars.snapshot_failed;
        alloy = if w.vars.rollback_done then none else w.vars.alloy_status;
        reports = r.reports;
        honest = λ h. ground (arith, r.honest, h);
      })

  abbrev pub Reported : Outcome VmFlowOutcome × World VmVars → Type 0
  Reported (ok o, w) = IsSuccess o w.log ⊎ IsFailure o w.log
  Reported (raised e, w) = ⊥

  -- A run either reports no failure and no error, and then a real run that was not for Alloy alone
  -- has upgraded the packages; or it reports a failure with an error and a failure record, and
  -- that record says "ROLLED BACK" only if the node carried out the rollback.
  pub run_vm_update-Reported : Reported first_run
  run_vm_update-Reported = told_of Reported Told-outcome

-- what a dry run may do: detect, simulate, probe and wait
abbrev pub read_only : Event → Bool
read_only (ran (run_shell guest detect_cmd) r) = true
read_only (ran (run_shell guest (upgrade m dry)) r) = dry
read_only (reconciled dry r) = dry
read_only (slept n) = true
read_only _ = false

abbrev pub all_read_only : List Event → Bool
all_read_only [] = true
all_read_only (e ∷ log) = read_only e && all_read_only log
