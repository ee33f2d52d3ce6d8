-- ===== src/Vm/Discipline.antt =====
-- What the VM flow may do in view of what happened before, independent of its code.
use proxmox_management.Prelude.{Bool, true, false, not, ◌&&◌, ◌||◌, List, [], ◌∷◌}
use proxmox_management.Flow.{
  Event, ran, polled, reconciled, slept, Call, run_shell, snapshot, reboot, node_post_upgrade,
  wait_for_port, present, absent, guest, node, vzdump, detect_cmd, reboot_required, qm_rollback,
  qm_status, upgrade, ok,
}
use proxmox_management.Flow.Discipline.{attempted, upgraded, same_mode}
use proxmox_management.Orchestration.Snapshots.{taken}
use proxmox_management.Vm.{VmConfig, wants_vzdump, wants_snapshot}

-- the node rolled the VM back
abbrev pub is_rollback : Event → Bool
is_rollback (ran (run_shell node qm_rollback) (ok r)) = not r.failed
is_rollback _ = false

abbrev pub rolled_back : List Event → Bool
rolled_back [] = false
rolled_back (e ∷ log) = is_rollback e || rolled_back log

module _ (cfg : VmConfig) where
  abbrev pub may_run : List Event → Call → Bool
  may_run log (run_shell guest vzdump) =
      not cfg.dry_run && (wants_vzdump cfg && not (attempted log))
  may_run log (run_shell guest detect_cmd) = true
  may_run log (run_shell guest reboot_required) = upgraded log
  may_run log (run_shell guest (upgrade m dry)) = same_mode cfg.dry_run dry
  may_run log (run_shell node qm_rollback) = taken log
  may_run log (run_shell node qm_status) = rolled_back log
  may_run log (run_shell _ _) = false
  may_run log (snapshot present) =
      not cfg.dry_run && (wants_snapshot cfg && (not (attempted log) && not (taken log)))
  may_run log (snapshot absent) = taken log
  may_run log (reboot n) = upgraded log && cfg.vm_auto_reboot
  may_run log (node_post_upgrade nvidia_host after_reboot) = false
  may_run log wait_for_port = false

  abbrev pub permitted : List Event → Event → Bool
  permitted log (ran c r) = may_run log c
  permitted log (polled r) = upgraded log
  permitted log (reconciled dry r) = cfg.has_alloy_config && same_mode cfg.dry_run dry
  permitted log (slept n) = true

  -- each event of the log was permitted when it happened
  abbrev pub lawful : List Event → Bool
  lawful [] = true
  lawful (e ∷ log) = permitted log e && lawful log
