-- ===== src/Vm/Examples.antt =====
-- A run of `run_vm_update` at a concrete VM: the upgrade fails and the node rolls the VM back.
use proxmox_management.Prelude.{
  Text, text_in, text_eq, words, words_from, is_space, contains, starts_with, Bool, true, false, [],
  Option, none, some, ◌≡◌, refl, codes,
}
use proxmox_management.Flow.{
  Call, present, run_shell, guest, node, detect_cmd, upgrade, qm_status, Outcome, ok, World,
  PrimitiveResult, Env, attempt, catching, pure, raise, ◌>>=◌, finally, invoke, pause, assign, look,
  look_result, keep_result, reset_result, when◌then◌,
}
use proxmox_management.Flow.Packages.{first_pkg_mgr, detect_pkg_mgr, upgrade_packages}
use proxmox_management.Orchestration.{
  retry, retry_loop, next_round, judge, snapshot_attempt, snapshot_with_retry,
}
use proxmox_management.Orchestration.Snapshots.{taken, deleted, snapshot_with_retry-changed}
use proxmox_management.Status.{rescue_status}
use proxmox_management.Vm.{
  VmConfig, VmFlowOutcome, VmVars, run_vm_update, first_world, update, take_backup, take_vzdump,
  take_snapshot, note_snapshot, enforce_alloy, update_packages, rescue, roll_back, await_running,
  note_rollback, note_failure, cleanup,
}
use proxmox_management.Vm.Discipline.{lawful}
use proxmox_management.Vm.Guarantees.{
  run_vm_update-lawful, run_vm_update-deleted, run_vm_update-Reported, Reported, all_read_only,
}
use proxmox_management.Vm.DryRun.{run_vm_update-all_read_only}

abbrev answer : Bool → Bool → Text → PrimitiveResult
answer changed failed stdout = record {
  rc = 0;
  changed = changed;
  failed = failed;
  unreachable = false;
  stdout = stdout;
  stderr = codes "";
  facts = [];
}

abbrev broken_upgrade : Call → PrimitiveResult
broken_upgrade (run_shell guest detect_cmd) = answer false false (codes "/usr/bin/apt-get apt")
broken_upgrade (run_shell guest (upgrade m dry)) = answer false true (codes "dpkg failed")
broken_upgrade (run_shell node qm_status) = answer false false (codes "status: running")
broken_upgrade _ = answer true false (codes "")

abbrev broken_host : Env
broken_host = record {
  primitive = λ log c. ok (broken_upgrade c);
  heartbeats = λ log. ok (λ monitor. []);
  alloy = λ log dry. ok (record { status = none; changed = false; warning = none });
}

abbrev vm_200 : Bool → VmConfig
vm_200 dry_run = record {
  node_name = codes "pve1";
  vmid = codes "200";
  inventory_hostname = codes "web";
  dry_run = dry_run;
  has_alloy_config = false;
  alloy_only = false;
  vm_backup_strategy = codes "snapshot";
  snapshot_retries = 1;
  snapshot_retry_delay = 15;
  vm_auto_reboot = true;
  kuma = record { kuma_id = codes ""; kuma_url = codes ""; retries = 5; delay = 30 };
  vm_pkg_count = λ _ _. none;
  parse_upgraded = λ _ _. [];
}

abbrev rescued_run : Outcome VmFlowOutcome × World VmVars
rescued_run = run_vm_update (vm_200 false) broken_host (first_world (vm_200 false) broken_host)

abbrev status_of : Outcome VmFlowOutcome → Option Text
status_of (ok o) = elim o.report [ none ↦ none | some r ↦ some r.status ]
status_of _ = none

rescued_run_status : status_of rescued_run.0 ≡ some (codes "FAILED + ROLLED BACK")
unfolding run_vm_update update take_backup take_vzdump take_snapshot note_snapshot enforce_alloy
    update_packages rescue roll_back await_running note_rollback note_failure cleanup retry
    retry_loop next_round judge snapshot_attempt snapshot_with_retry first_pkg_mgr detect_pkg_mgr
    upgrade_packages attempt catching pure raise ◌>>=◌ finally invoke pause assign look look_result
    keep_result reset_result when◌then◌ rescue_status text_in text_eq words words_from is_space
    contains starts_with
rescued_run_status = refl

rescued_run_taken : taken rescued_run.1.log ≡ true
unfolding run_vm_update update take_backup take_vzdump take_snapshot note_snapshot enforce_alloy
    update_packages rescue roll_back await_running note_rollback note_failure cleanup retry
    retry_loop next_round judge snapshot_attempt snapshot_with_retry first_pkg_mgr detect_pkg_mgr
    upgrade_packages attempt catching pure raise ◌>>=◌ finally invoke pause assign look look_result
    keep_result reset_result when◌then◌ rescue_status text_in text_eq words words_from is_space
    contains starts_with
rescued_run_taken = refl

run_vm_update-lawful_example :
    (o : VmFlowOutcome) × (w : World VmVars) × (rescued_run ≡ (ok o, w))
    × (lawful (vm_200 false) w.log ≡ true)
run_vm_update-lawful_example = run_vm_update-lawful (vm_200 false) broken_host

run_vm_update-deleted_example : deleted rescued_run.1.log ≡ true
run_vm_update-deleted_example = run_vm_update-deleted (vm_200 false) broken_host rescued_run_taken

run_vm_update-Reported_example : Reported (vm_200 false) broken_host rescued_run
run_vm_update-Reported_example = run_vm_update-Reported (vm_200 false) broken_host

run_vm_update-all_read_only_example :
    all_read_only
      (run_vm_update (vm_200 true) broken_host (first_world (vm_200 true) broken_host)).1.log
    ≡ true
run_vm_update-all_read_only_example = run_vm_update-all_read_only (vm_200 true) broken_host refl

snapshot_with_retry-changed_example :
    (r : PrimitiveResult) × (w : World VmVars) × (snapshot_with_retry broken_host present 1 15
        (first_world (vm_200 false) broken_host)
      ≡ (ok r, w))
    × (taken w.log ≡ r.changed)
snapshot_with_retry-changed_example =
    snapshot_with_retry-changed broken_host 1 15 (first_world (vm_200 false) broken_host) refl
