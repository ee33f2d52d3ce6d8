-- ===== src/Vm.antt =====
-- `run_vm_update` of proxmox_fleet/flows/vm.py. The local variables and the outcome are the
-- variables of the flow's world; `return` stores into the outcome. The readers of package
-- lists, which search regular expressions, are a parameter.
pub mod Discipline
pub mod Update
pub mod Upgrade
pub mod Rescue
pub mod Guarantees
pub mod DryRun
pub mod Examples
use proxmox_management.Prelude.{
  ℕ, zero, suc, Text, Bool, true, false, not, ◌&&◌, ◌||◌, List, [], ◌∷◌, ◌++◌, Option, none, some,
  if◌then◌else◌, codes, text_in, contains, is_empty, take,
}
use proxmox_management.Flow.{
  World, Exec, Exn, Env, PrimitiveResult, PkgMgr, AlloyResult, run_shell, guest, node, vzdump,
  qm_rollback, qm_status, present, absent, invoke, reconcile, pause, pure, assign, look, ◌>>=◌,
  ◌>>◌, catching, finally, when◌then◌,
}
use proxmox_management.Flow.Packages.{
  Kuma, detect_pkg_mgr, upgrade_packages, reboot_if_required, check_health,
}
use proxmox_management.Orchestration.{snapshot_with_retry, snapshot_failure_warning}
use proxmox_management.Changes.{pkg_changed}
use proxmox_management.Records.{
  Package, WarningEntry, ErrorEntry, VmRecord, FlowOutcome, no_outcome, is_some, unless_empty,
  truthy, failed_task, record_of_error,
}
use proxmox_management.Status.{guest_status, guest_should_report, rescue_status}

abbrev pub VmFlowOutcome : Type 0
VmFlowOutcome = FlowOutcome VmRecord

pub record VmVars : Type 0 where
  pub snap_taken : Bool
  pub snapshot_failed : Bool
  pub rollback_done : Bool
  pub alloy_status : Option Text
  pub alloy_changed : Bool
  pub outcome : VmFlowOutcome

-- the arguments and the settings that the flow reads
pub record VmConfig : Type 0 where
  pub node_name : Text
  pub vmid : Text
  pub inventory_hostname : Text
  pub dry_run : Bool
  pub has_alloy_config : Bool
  pub alloy_only : Bool
  pub vm_backup_strategy : Text
  pub snapshot_retries : ℕ
  pub snapshot_retry_delay : ℕ
  pub vm_auto_reboot : Bool
  pub kuma : Kuma
  pub vm_pkg_count : Text → PkgMgr → Option ℕ
  pub parse_upgraded : Text → PkgMgr → List Package

abbrev pub no_vars : VmVars
no_vars = record {
  snap_taken = false;
  snapshot_failed = false;
  rollback_done = false;
  alloy_status = none;
  alloy_changed = false;
  outcome = no_outcome;
}

module _ (cfg : VmConfig) where
  abbrev pub vm_host : Text
  vm_host = cfg.node_name ++ (codes "/vm-" ++ cfg.vmid)

  abbrev pub record_of : Text → Option ℕ → Option (List Package) → Option Text → VmRecord
  record_of status pkg_count packages alloy = record {
    node_name = cfg.node_name;
    vmid = cfg.vmid;
    name = cfg.inventory_hostname;
    status = status;
    pkg_count = pkg_count;
    packages = packages;
    alloy = alloy;
  }

  abbrev pub wants_vzdump : Bool
  wants_vzdump = text_in cfg.vm_backup_strategy (codes "vzdump" ∷ codes "both" ∷ [])

  abbrev pub wants_snapshot : Bool
  wants_snapshot = text_in cfg.vm_backup_strategy (codes "snapshot" ∷ codes "both" ∷ [])

  abbrev pub alloy_warnings : Option Text → List WarningEntry
  alloy_warnings none = []
  alloy_warnings (some text) =
      record {
        host = cfg.inventory_hostname;
        task = codes "Alloy compliance";
        warning = text;
        notifying = some true;
      }
      ∷ []

  -- the assignments of `_enforce_alloy`
  unfoldable pub note_alloy : AlloyResult → VmVars → VmVars
  note_alloy result v = record v {
    alloy_status = result.status;
    alloy_changed = result.changed;
    outcome = record v.outcome {
      warnings = v.outcome.warnings ++ alloy_warnings (truthy result.warning);
    };
  }

  -- the assignments behind the snapshot
  unfoldable pub note_snapshot : PrimitiveResult → VmVars → VmVars
  note_snapshot result v = if result.changed then record v { snap_taken = true } else record v {
    snap_taken = false;
    snapshot_failed = true;
    outcome = record v.outcome {
      warnings =
          v.outcome.warnings
          ++ (record {
            host = vm_host;
            task = codes "Snapshot " ++ cfg.vmid;
            warning = snapshot_failure_warning result;
            notifying = none;
          }
              ∷ []);
    };
  }

  -- the report of a run that only enforces Alloy
  unfoldable pub note_alloy_only : VmVars → VmVars
  note_alloy_only v = record v {
    outcome = record v.outcome {
      changed = v.alloy_changed;
      report = elim v.alloy_status [
        | none ↦ v.outcome.report
        | some status ↦ some (record_of (codes "") none none (some status))
      ];
    };
  }

  -- the report of a run without a failure
  unfoldable pub note_success : PrimitiveResult → PkgMgr → Bool → Bool → VmVars → VmVars
  note_success result pkg_mgr changed rebooted v = record v {
    outcome = record v.outcome {
      changed = changed || (rebooted || v.alloy_changed);
      report =
          if guest_should_report changed rebooted false || is_some v.alloy_status
          then some (
              record_of (guest_status changed rebooted cfg.dry_run false)
                (if changed && not cfg.dry_run
                  then cfg.vm_pkg_count result.stdout pkg_mgr
                  else none)
                (if changed then unless_empty (cfg.parse_upgraded result.stdout pkg_mgr) else none)
                v.alloy_status)
          else v.outcome.report;
    };
  }

  unfoldable pub note_rollback : Bool → VmVars → VmVars
  note_rollback done v = record v { rollback_done = done }

  -- the end of the rescue
  unfoldable pub note_failure : Exn → VmVars → VmVars
  note_failure e v = record v {
    outcome = record v.outcome {
      failed = true;
      report = some (
          record_of (rescue_status v.rollback_done v.snapshot_failed) none none
            (if v.rollback_done then none else v.alloy_status));
      error = some (record_of_error vm_host (failed_task e) e);
    };
  }

  module _ (env : Env) where
    unfoldable pub enforce_alloy : Exec VmVars (Unit {0})
    enforce_alloy =
        when cfg.has_alloy_config
        then (reconcile env cfg.dry_run >>= λ result. assign (note_alloy result))

    unfoldable pub take_vzdump : Exec VmVars (Unit {0})
    take_vzdump = when wants_vzdump then (invoke env (run_shell guest vzdump) >> pure tt)

    unfoldable pub take_snapshot : Exec VmVars (Unit {0})
    take_snapshot =
        when wants_snapshot
        then (snapshot_with_retry env present cfg.snapshot_retries cfg.snapshot_retry_delay
            >>= λ result. assign (note_snapshot result))

    unfoldable pub take_backup : Exec VmVars (Unit {0})
    take_backup = when not cfg.dry_run then (take_vzdump >> take_snapshot)

    -- what follows the upgrade
    unfoldable pub conclude : PkgMgr → PrimitiveResult → Exec VmVars (Unit {0})
    conclude pkg_mgr result =
        let changed = pkg_changed result.stdout pkg_mgr in
        reboot_if_required env (not cfg.dry_run && (changed && cfg.vm_auto_reboot)) >>= λ rebooted.
        check_health env cfg.kuma (codes "vm-" ++ cfg.vmid)
          (not cfg.dry_run && (changed || rebooted))
        >> assign (note_success result pkg_mgr changed rebooted)

    unfoldable pub update_packages : Exec VmVars (Unit {0})
    update_packages = detect_pkg_mgr env >>= λ pkg_mgr.
        upgrade_packages env cfg.dry_run pkg_mgr >>= λ result. conclude pkg_mgr result

    -- the body of `try`
    unfoldable pub update : Exec VmVars (Unit {0})
    update =
        if cfg.alloy_only
        then enforce_alloy >> assign note_alloy_only
        else take_backup >> (enforce_alloy >> update_packages)

    -- the polls of `qm status`
    unfoldable pub await_running : ℕ → Exec VmVars (Unit {0})
    await_running zero = pure tt
    await_running (suc n) =
        pause 10
        >> (invoke env (run_shell node qm_status) >>= λ chk.
            if contains (codes "running") chk.stdout
            then assign (note_rollback true)
            else await_running n)

    unfoldable pub roll_back : Exec VmVars (Unit {0})
    roll_back =
        catching
          (invoke env (run_shell node qm_rollback) >>= λ rb.
            when not rb.failed then await_running 12)
          (λ _. assign (note_rollback false))

    -- the body of `except`
    unfoldable pub rescue : Exn → Exec VmVars (Unit {0})
    rescue e = (look >>= λ v. when v.snap_taken then roll_back) >> assign (note_failure e)

    -- the body of `finally`
    unfoldable pub cleanup : Exec VmVars (Unit {0})
    cleanup = look >>= λ v.
        when v.snap_taken
        then (snapshot_with_retry env absent cfg.snapshot_retries cfg.snapshot_retry_delay
            >> pure tt)

    unfoldable pub run_vm_update : Exec VmVars VmFlowOutcome
    run_vm_update = finally (catching update rescue) cleanup >> (look >>= λ v. pure v.outcome)

    abbrev pub first_world : World VmVars
    first_world = record { log = []; vars = no_vars; last_result = none }
