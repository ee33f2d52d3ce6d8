-- ===== src/Node.antt =====
-- `run_node_update` and `run_manager_update` of proxmox_fleet/flows/node.py. The readers of package
-- lists are parameters. A record keeps no `checks`.
pub mod Facts
pub mod Lines
pub mod Dkms
pub mod Diagnostics
pub mod Verdicts
pub mod Health
pub mod Discipline
pub mod Steps
pub mod Manager
pub mod Guarantees
pub mod Examples
use proxmox_management.Prelude.{
  ℕ, Text, Bool, true, false, not, ◌&&◌, ◌||◌, List, [], ◌∷◌, ◌++◌, Option, none, some, map,
  if◌then◌else◌, codes, decimal, is_empty, text_eq, strip, contains, take, ◌==◌,
}
use proxmox_management.Flow.{
  World, Exec, Exn, Env, PrimitiveResult, PkgMgr, apt, run_shell, guest, upgrade, manager_probe,
  manager_reboot_required, node_post_upgrade, wait_for_port, reboot, invoke, pause, pure, raise,
  assign, look, ◌>>=◌, ◌>>◌, catching, when◌then◌,
}
use proxmox_management.Flow.Packages.{runtime_error, output_of}
use proxmox_management.Orchestration.{retry}
use proxmox_management.Changes.{pkg_changed}
use proxmox_management.Cluster.{split_qualified, cluster_agrees}
use proxmox_management.Status.{node_status, manager_status}
use proxmox_management.Records.{
  Package, NodeRecord, WarningEntry, ErrorEntry, FlowOutcome, no_outcome, unless_empty, failed_task,
  record_of_error,
}
use proxmox_management.Node.Diagnostics.{
  Assessment, Kernels, classify_post_upgrade, join_with, or_unknown,
}

pub record NodeConfig : Type 0 where
  pub node_name : Text
  pub cluster : Text
  pub nvidia_host : Bool
  pub dry_run : Bool
  pub manager_lxc_id : Text
  pub node_apt_retries : ℕ
  pub node_apt_retry_delay : ℕ
  pub node_auto_reboot : Bool
  pub apt_proxy_ip : Text
  pub vm_pkg_count : Text → PkgMgr → Option ℕ
  pub parse_upgraded : Text → PkgMgr → List Package

abbrev pub NodeFlowOutcome : Type 0
NodeFlowOutcome = FlowOutcome NodeRecord

-- `x or None` of a flag
abbrev pub true_or_none : Bool → Option Bool
true_or_none true = some true
true_or_none false = none

abbrev pub is_nil : {A : Type 0} → List A → Bool
is_nil [] = true
is_nil (a ∷ rest) = false

-- failed or rc != 0
abbrev pub went_wrong : PrimitiveResult → Bool
went_wrong r = r.failed || not (r.rc == 0)

abbrev pub failed_record : Text → NodeRecord
failed_record node_name = record {
  node_name = node_name;
  status = codes "FAILED";
  pkg_count = none;
  packages = none;
  dry_run = none;
  reboot_reasons = none;
}

-- the body of `except`
unfoldable pub note_exception : Text → Exn → NodeFlowOutcome → NodeFlowOutcome
note_exception node_name e outcome = record outcome {
  failed = true;
  report = some (failed_record node_name);
  error = some (record_of_error node_name (failed_task e) e);
}

abbrev pub kernel_of : (Kernels → Text) → Option Kernels → Text
kernel_of field none = codes ""
kernel_of field (some kernels) = field kernels

abbrev pub has_error : Option ErrorEntry → Bool
has_error none = false
has_error (some e) = true

module _ (cfg : NodeConfig) where
  abbrev pub classified : Bool → PrimitiveResult → Assessment
  classified after_reboot post = classify_post_upgrade post.facts cfg.nvidia_host after_reboot

  abbrev pub nvidia_warning : Text → WarningEntry
  nvidia_warning why = record {
    host = cfg.node_name;
    task = codes "NVIDIA post-upgrade check";
    warning = why;
    notifying = none;
  }

  abbrev pub check_error : Text → List Text → ErrorEntry
  check_error task errors = record {
    host = cfg.node_name;
    task = task;
    error = take 300 (join_with (codes "; ") errors);
  }

  unfoldable pub note_warnings : List Text → NodeFlowOutcome → NodeFlowOutcome
  note_warnings warnings outcome = record outcome { warnings = map nvidia_warning warnings }

  unfoldable pub note_after : List Text → NodeFlowOutcome → NodeFlowOutcome
  note_after errors outcome = record outcome {
    error =
        if is_nil errors
        then outcome.error
        else some (check_error (codes "NVIDIA post-reboot check") errors);
  }

  -- the errors behind the reboot, that of a wrong kernel first
  abbrev pub after_errors : Assessment → Assessment → List Text
  after_errors before after =
      let expected = kernel_of (λ (k : Kernels). k.target_kernel) before.checks in
      let booted = kernel_of (λ (k : Kernels). k.running_kernel) after.checks in
      if not (is_empty expected) && not (text_eq booted expected)
      then (codes "node booted kernel "
          ++ (or_unknown booted ++ (codes " instead of target " ++ expected)))
        ∷ after.errors
      else after.errors

  abbrev pub reboot_disabled : Bool
  reboot_disabled = cfg.dry_run || not cfg.node_auto_reboot

  abbrev pub hard_task : Text
  hard_task =
      if cfg.nvidia_host
      then codes "NVIDIA post-upgrade check"
      else codes "post-upgrade diagnostics"

  -- the report
  unfoldable pub note_report :
      Text → Bool → Assessment → Bool → List Text → NodeFlowOutcome → NodeFlowOutcome
  note_report stdout is_manager assessment rebooted hard_errors outcome =
      let changed = pkg_changed stdout apt in
      let needed = not (is_nil assessment.reboot_reasons) in
      record outcome {
        failed = if is_nil hard_errors then outcome.failed else true;
        error =
            if is_nil hard_errors || has_error outcome.error
            then outcome.error
            else some (check_error hard_task hard_errors);
        changed = changed || (rebooted || needed);
        report = some (record {
          node_name = cfg.node_name;
          status =
              if is_nil hard_errors
              then node_status changed needed rebooted is_manager reboot_disabled
              else codes "FAILED";
          pkg_count = if changed && not cfg.dry_run then cfg.vm_pkg_count stdout apt else none;
          packages = if changed then unless_empty (cfg.parse_upgraded stdout apt) else none;
          dry_run = true_or_none cfg.dry_run;
          reboot_reasons = unless_empty assessment.reboot_reasons;
        });
      }

  abbrev pub apt_failed : PrimitiveResult → Exn
  apt_failed res =
      runtime_error
        (codes "apt dist-upgrade failed (rc=" ++ (decimal res.rc ++ (codes "): " ++ output_of res)))

  abbrev pub reboot_failed : PrimitiveResult → Exn
  reboot_failed res =
      runtime_error
        (codes "node reboot failed (rc=" ++ (decimal res.rc ++ (codes "): " ++ output_of res)))

  module _ (env : Env) where
    -- is_manager
    unfoldable pub probe_id : Option Text × Text → Exec NodeFlowOutcome Bool
    probe_id (mgr_cluster, mgr_id) =
        if cluster_agrees mgr_cluster cfg.cluster
        then (invoke env (run_shell guest (manager_probe mgr_id)) >>= λ chk.
            pure (text_eq (strip chk.stdout) (codes "0")))
        else pure false

    unfoldable pub probe_manager : Exec NodeFlowOutcome Bool
    probe_manager =
        if is_empty cfg.manager_lxc_id
        then pure false
        else probe_id (split_qualified cfg.manager_lxc_id)

    unfoldable pub apt_once : Exec NodeFlowOutcome Text
    apt_once = invoke env (run_shell guest (upgrade apt cfg.dry_run)) >>= λ res.
        if res.failed && not cfg.dry_run then raise (apt_failed res) else pure res.stdout

    unfoldable pub upgrade_node : Exec NodeFlowOutcome Text
    upgrade_node =
        retry apt_once cfg.node_apt_retries cfg.node_apt_retry_delay (λ _. true) (λ _. true)

    unfoldable pub diagnose : Text → Bool → Exec NodeFlowOutcome Assessment
    diagnose what after_reboot =
        invoke env (node_post_upgrade cfg.nvidia_host after_reboot) >>= λ post.
        if went_wrong post
        then raise (runtime_error (what ++ output_of post))
        else pure (classified after_reboot post)

    -- the errors of the check behind the reboot
    unfoldable pub check_after : Assessment → Exec NodeFlowOutcome (List Text)
    check_after assessment = diagnose (codes "NVIDIA post-reboot check failed: ") true >>= λ after.
        assign (note_after (after_errors assessment after)) >> pure (after_errors assessment after)

    unfoldable pub settle_down : Exec NodeFlowOutcome (Unit {0})
    settle_down =
        (when not (is_empty cfg.apt_proxy_ip) then (invoke env wait_for_port >> pure tt))
        >> pause 15

    unfoldable pub reboot_node : Assessment → Exec NodeFlowOutcome (List Text)
    reboot_node assessment = invoke env (reboot 900) >>= λ res.
        if went_wrong res
        then raise (reboot_failed res)
        else (settle_down >> (if cfg.nvidia_host then check_after assessment else pure []))

    abbrev pub may_reboot : Assessment → Bool → Bool
    may_reboot assessment is_manager =
        not (is_nil assessment.reboot_reasons)
        && (not is_manager && (not reboot_disabled && is_nil assessment.errors))

    unfoldable pub report_node : Text → Bool → Assessment → Exec NodeFlowOutcome (Unit {0})
    report_node stdout is_manager assessment =
        if may_reboot assessment is_manager
        then (reboot_node assessment >>= λ errors.
            assign (note_report stdout is_manager assessment true (assessment.errors ++ errors)))
        else assign (note_report stdout is_manager assessment false assessment.errors)

    -- the body of `try`
    unfoldable pub update_node : Exec NodeFlowOutcome (Unit {0})
    update_node = probe_manager >>= λ is_manager. upgrade_node >>= λ stdout.
        diagnose (codes "post-upgrade diagnostics failed: ") false >>= λ assessment.
        assign (note_warnings assessment.warnings) >> report_node stdout is_manager assessment

    unfoldable pub run_node_update : Exec NodeFlowOutcome NodeFlowOutcome
    run_node_update = catching update_node (λ e. assign (note_exception cfg.node_name e)) >> look

    -- the manager updates itself and never reboots
    unfoldable pub note_manager : PrimitiveResult → Bool → NodeFlowOutcome → NodeFlowOutcome
    note_manager res reboot_needed outcome =
        let changed = not res.failed && pkg_changed res.stdout apt in
        record outcome {
          changed = changed;
          report = some (record {
            node_name = codes "Ansible-Manager";
            status = manager_status changed reboot_needed;
            pkg_count =
                if changed && not cfg.dry_run then cfg.vm_pkg_count res.stdout apt else none;
            packages = if changed then unless_empty (cfg.parse_upgraded res.stdout apt) else none;
            dry_run = true_or_none cfg.dry_run;
            reboot_reasons = none;
          });
        }

    unfoldable pub update_manager : Exec NodeFlowOutcome (Unit {0})
    update_manager = invoke env (run_shell guest (upgrade apt cfg.dry_run)) >>= λ res.
        invoke env (run_shell guest manager_reboot_required) >>= λ reboot_res.
        assign (note_manager res (contains (codes "reboot") reboot_res.stdout))

    unfoldable pub run_manager_update : Exec NodeFlowOutcome NodeFlowOutcome
    run_manager_update =
        catching update_manager (λ e. assign (note_exception (codes "Ansible-Manager") e)) >> look

abbrev pub node_start : World NodeFlowOutcome
node_start = record { log = []; vars = no_outcome; last_result = none }
