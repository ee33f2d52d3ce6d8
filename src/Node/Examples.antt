-- ===== src/Node/Examples.antt =====
-- Runs of `run_node_update`, `run_manager_update` and `classify_post_upgrade` at a concrete node.
use proxmox_management.Prelude.{
  lstrip, Text, Bool, true, false, not, ◌&&◌, ◌||◌, [], ◌∷◌, ◌++◌, text_eq, none, some, ◌≡◌, refl,
  codes, strip, text_in, text_eq, is_space, lower,
}
use proxmox_management.Sources.Provenance.{Json, text, number, flag, get, text_of}
use proxmox_management.Flow.{
  Call, run_shell, guest, node_post_upgrade, manager_probe, ok, World, PrimitiveResult, Env,
}
use proxmox_management.Flow.Discipline.{upgraded}
use proxmox_management.Records.{NodeRecord}
use proxmox_management.Node.{
  NodeConfig, NodeFlowOutcome, has_error, is_nil, run_manager_update, run_node_update, node_start,
  classified,
}
use proxmox_management.Node.Lines.{packages_from}
use proxmox_management.Node.Dkms.{
  behind_word, behind_chars, behind_next, is_ready_line, any_ready, nvidia_dkms_ready,
}
use proxmox_management.Node.Facts.{
  has_key, int_of, fact_int, bool_of, fact_bool, fact_text, digits_from, int_of_text,
}
use proxmox_management.Node.Diagnostics.{
  check_nvidia, check_driver, judge_driver, join_with, check_kernels, unless_two, classify,
  classify_post_upgrade, give, ◌>>=◌,
}
use proxmox_management.Node.Discipline.{lawful}
use proxmox_management.Node.Health.{IsHealthy, classify_post_upgrade-IsHealthy}
use proxmox_management.Node.Manager.{modest, run_manager_update-modest}
use proxmox_management.Node.Guarantees.{run_node_update-lawful}

abbrev facts_of : Bool → Json
facts_of marked =
    (codes "diagnostics_version", number 2)
    ∷ (codes "running_kernel_rc", number 0)
    ∷ (codes "latest_kernel_rc", text (codes " 0"))
    ∷ (codes "target_kernel_rc", number 0)
    ∷ (codes "running_kernel", text (codes "6.8.12"))
    ∷ (codes "latest_kernel", text (codes "6.8.12"))
    ∷ (codes "target_kernel", text (codes "6.8.12"))
    ∷ (codes "target_kernel_source", text (codes "grub"))
    ∷ (codes "reboot_required_exists", flag marked)
    ∷ (codes "reboot_required_packages", text (codes "libc6"))
    ∷ []

abbrev answer : Text → Json → PrimitiveResult
answer stdout facts = record {
  rc = 0;
  changed = false;
  failed = false;
  unreachable = false;
  stdout = stdout;
  stderr = codes "";
  facts = facts;
}

abbrev reply : Call → PrimitiveResult
reply (run_shell guest (manager_probe id)) = answer (codes "1") []
reply (node_post_upgrade nvidia_host after_reboot) = answer (codes "") (facts_of true)
reply _ = answer (codes "done") []

abbrev outside : Env
outside = record {
  primitive = λ log c. ok (reply c);
  heartbeats = λ log. ok (λ monitor. []);
  alloy = λ log dry. ok (record { status = none; changed = false; warning = none });
}

abbrev pve1 : NodeConfig
pve1 = record {
  node_name = codes "pve1";
  cluster = codes "default";
  nvidia_host = false;
  dry_run = false;
  manager_lxc_id = codes "121";
  node_apt_retries = 5;
  node_apt_retry_delay = 30;
  node_auto_reboot = true;
  apt_proxy_ip = codes "10.0.0.2";
  vm_pkg_count = λ stdout m. none;
  parse_upgraded = λ stdout m. [];
}

run_node_update-lawful_example :
    (o : NodeFlowOutcome) × (w : World NodeFlowOutcome) × (run_node_update pve1 outside node_start
      ≡ (ok o, w))
    × (lawful pve1 w.log ≡ true)
    × (r : NodeRecord) × (o.report ≡ some r)
    × (r.node_name ≡ codes "pve1")
    × (o.failed ≡ has_error o.error)
    × ((o.failed || (false || upgraded w.log)) ≡ true)
run_node_update-lawful_example = run_node_update-lawful pve1 outside

marked_reasons :
    (classified pve1 false (reply (node_post_upgrade false false))).reboot_reasons
    ≡ codes "reboot-required marker present (libc6)" ∷ []
unfolding classify_post_upgrade classify give ◌>>=◌ unless_two check_kernels fact_text fact_bool
    fact_int int_of int_of_text digits_from bool_of has_key packages_from join_with get text_of
    text_eq text_in strip lower is_space
marked_reasons = refl

abbrev nvidia_facts : Json
nvidia_facts =
    (codes "nvidia_checked", text (codes "yes"))
    ∷ (codes "nvidia_kernel", text (codes "6.8.12"))
    ∷ (codes "nvidia_installed_rc", number 0)
    ∷ (codes "nvidia_loaded_rc", number 0)
    ∷ (codes "nvidia_dkms_rc", number 0)
    ∷ (codes "nvidia_smi_rc", number 0)
    ∷ (codes "nvidia_installed", text (codes "550.1"))
    ∷ (codes "nvidia_loaded", text (codes "550.1"))
    ∷ (codes "nvidia_dkms_status", text (codes "nvidia/550.1, 6.8.12: installed"))
    ∷ facts_of false

no_error : is_nil (classify_post_upgrade nvidia_facts true true).errors ≡ true
unfolding classify_post_upgrade classify give ◌>>=◌ unless_two check_kernels check_nvidia
    check_driver judge_driver fact_text fact_bool fact_int int_of int_of_text digits_from bool_of
    has_key packages_from join_with get text_of nvidia_dkms_ready any_ready is_ready_line
    behind_word behind_chars behind_next lstrip text_eq text_in strip lower is_space
no_error = refl

classify_post_upgrade-IsHealthy_example : IsHealthy nvidia_facts
classify_post_upgrade-IsHealthy_example = classify_post_upgrade-IsHealthy nvidia_facts no_error

run_manager_update-modest_example :
    (o : NodeFlowOutcome) × (w : World NodeFlowOutcome) × (run_manager_update pve1 outside
        node_start
      ≡ (ok o, w))
    × (modest pve1 w.log ≡ true)
    × (r : NodeRecord) × (o.report ≡ some r)
    × (r.node_name ≡ codes "Ansible-Manager")
    × (o.failed ≡ has_error o.error)
    × ((o.changed && o.failed) ≡ false)
    × ((not o.changed || (false || upgraded w.log)) ≡ true)
run_manager_update-modest_example = run_manager_update-modest pve1 outside

abbrev dkms_status : Text
dkms_status =
    codes "nvidia-current/535.216: added"
    ++ 10 ∷ codes "NVIDIA-open/550.1, 6.8.12-1-pve, x86_64: installed "

dkms_status_ready : nvidia_dkms_ready dkms_status (codes "6.8.12-1-pve") ≡ true
unfolding nvidia_dkms_ready any_ready is_ready_line behind_word behind_chars behind_next
    packages_from strip lstrip lower is_space
dkms_status_ready = refl

dkms_status_other : nvidia_dkms_ready dkms_status (codes "6.8.12-2-pve") ≡ false
unfolding nvidia_dkms_ready any_ready is_ready_line behind_word behind_chars behind_next
    packages_from strip lstrip lower is_space
dkms_status_other = refl
