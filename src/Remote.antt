-- ===== src/Remote.antt =====
-- `run_remote_update` of proxmox_fleet/flows/remote.py, over the package steps that it shares with
-- the VM flow. The readers of package lists, which search regular expressions, are a parameter.
pub mod Discipline
pub mod Guarantees
pub mod Examples
use proxmox_management.Prelude.{
  ℕ, Text, Bool, true, false, [], not, ◌&&◌, ◌||◌, List, Option, none, some, if◌then◌else◌, codes,
  is_empty, take,
}
use proxmox_management.Flow.{
  World, Exec, Exn, Env, PrimitiveResult, PkgMgr, run_shell, guest, hook, invoke, pure, assign,
  look, ◌>>=◌, ◌>>◌, catching, when◌then◌,
}
use proxmox_management.Flow.Packages.{
  Kuma, detect_pkg_mgr, upgrade_packages, reboot_if_required, check_health,
}
use proxmox_management.Changes.{pkg_changed}
use proxmox_management.Status.{remote_status, remote_should_report}
use proxmox_management.Records.{
  Package, RemoteRecord, FlowOutcome, no_outcome, unless_empty, failed_task, record_of_error,
}

pub record RemoteConfig : Type 0 where
  pub hostname : Text
  pub dry_run : Bool
  pub pre_update_cmd : Text
  pub remote_pre_update_cmd : Text
  pub remote_auto_reboot : Bool
  pub kuma : Kuma
  pub vm_pkg_count : Text → PkgMgr → Option ℕ
  pub parse_upgraded : Text → PkgMgr → List Package

abbrev pub RemoteFlowOutcome : Type 0
RemoteFlowOutcome = FlowOutcome RemoteRecord

module _ (cfg : RemoteConfig) where
  abbrev pub remote_record : Text → Option ℕ → Option (List Package) → RemoteRecord
  remote_record status pkg_count packages = record {
    host = cfg.hostname;
    status = status;
    pkg_count = pkg_count;
    packages = packages;
  }

  -- pre_update_cmd or settings.remote_pre_update_cmd
  abbrev pub effective_pre_cmd : Text
  effective_pre_cmd =
      if is_empty cfg.pre_update_cmd then cfg.remote_pre_update_cmd else cfg.pre_update_cmd

  -- the report of a run without a failure
  unfoldable pub note_update :
      PrimitiveResult → PkgMgr → Bool → Bool → RemoteFlowOutcome → RemoteFlowOutcome
  note_update res pkg_mgr changed rebooted outcome = record outcome {
    changed = changed || rebooted;
    report =
        if remote_should_report changed rebooted false
        then some (
            remote_record (remote_status changed rebooted cfg.dry_run false)
              (if changed && not cfg.dry_run then cfg.vm_pkg_count res.stdout pkg_mgr else none)
              (if changed then unless_empty (cfg.parse_upgraded res.stdout pkg_mgr) else none))
        else outcome.report;
  }

  -- the body of `except`
  unfoldable pub note_error : Exn → RemoteFlowOutcome → RemoteFlowOutcome
  note_error e outcome = record outcome {
    failed = true;
    report = some (remote_record (codes "FAILED") none none);
    error = some (record_of_error cfg.hostname (failed_task e) e);
  }

  module _ (env : Env) where
    unfoldable pub run_hook : Exec RemoteFlowOutcome (Unit {0})
    run_hook =
        when not (is_empty effective_pre_cmd) && not cfg.dry_run
        then (invoke env (run_shell guest (hook effective_pre_cmd)) >> pure tt)

    -- what follows the upgrade
    unfoldable pub finish : PkgMgr → PrimitiveResult → Exec RemoteFlowOutcome (Unit {0})
    finish pkg_mgr res =
        let changed = pkg_changed res.stdout pkg_mgr in
        reboot_if_required env (not cfg.dry_run && (changed && cfg.remote_auto_reboot))
        >>= λ rebooted.
            check_health env cfg.kuma cfg.hostname (not cfg.dry_run && (changed || rebooted))
            >> assign (note_update res pkg_mgr changed rebooted)

    -- the body of `try`
    unfoldable pub update_host : Exec RemoteFlowOutcome (Unit {0})
    update_host =
        run_hook
        >> (detect_pkg_mgr env >>= λ pkg_mgr.
            upgrade_packages env cfg.dry_run pkg_mgr >>= λ res. finish pkg_mgr res)

    unfoldable pub run_remote_update : Exec RemoteFlowOutcome RemoteFlowOutcome
    run_remote_update = catching update_host (λ e. assign (note_error e)) >> look

abbrev pub remote_start : World RemoteFlowOutcome
remote_start = record { log = []; vars = no_outcome; last_result = none }
