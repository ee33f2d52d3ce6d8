-- ===== src/Node/Discipline.antt =====
-- What the flow of a Proxmox node may do in view of what happened before, independent of its code.
use proxmox_management.Prelude.{
  Bool, true, false, not, ◌&&◌, ◌||◌, List, [], ◌∷◌, codes, text_eq, strip,
}
use proxmox_management.Flow.{
  Event, ran, polled, reconciled, slept, Call, run_shell, reboot, guest, upgrade, manager_probe,
  node_post_upgrade, wait_for_port, Outcome, ok, raised, PrimitiveResult,
}
use proxmox_management.Flow.Discipline.{upgraded, same_mode}
use proxmox_management.Node.{NodeConfig, classified, went_wrong, is_nil}
use proxmox_management.Node.Diagnostics.{Assessment}

-- a probe found the manager's container on the node
abbrev pub is_manager_sign : Event → Bool
is_manager_sign (ran (run_shell guest (manager_probe id)) (ok r)) =
    text_eq (strip r.stdout) (codes "0")
is_manager_sign _ = false

abbrev pub manager_here : List Event → Bool
manager_here [] = false
manager_here (e ∷ log) = is_manager_sign e || manager_here log

-- a reboot was asked for
abbrev pub is_reboot : Event → Bool
is_reboot (ran (reboot n) r) = true
is_reboot _ = false

abbrev pub rebooted : List Event → Bool
rebooted [] = false
rebooted (e ∷ log) = is_reboot e || rebooted log

module _ (cfg : NodeConfig) where
  -- the diagnostics found a reason to reboot and nothing wrong
  abbrev pub wants_reboot : Assessment → Bool
  wants_reboot assessment = is_nil assessment.errors && not (is_nil assessment.reboot_reasons)

  abbrev pub is_clear : Bool → Outcome PrimitiveResult → Bool
  is_clear after_reboot (ok r) = not (went_wrong r) && wants_reboot (classified cfg after_reboot r)
  is_clear after_reboot (raised e) = false

  -- the latest diagnostics did
  abbrev pub cleared : List Event → Bool
  cleared [] = false
  cleared (ran (node_post_upgrade nvidia_host after_reboot) r ∷ log) = is_clear after_reboot r
  cleared (e ∷ log) = cleared log

  abbrev pub may_run : List Event → Call → Bool
  may_run log (run_shell guest (manager_probe id)) = true
  may_run log (run_shell guest (upgrade m dry)) = same_mode cfg.dry_run dry
  may_run log (node_post_upgrade nvidia_host after_reboot) =
      (cfg.dry_run || upgraded log) && (not after_reboot || rebooted log)
  may_run log (reboot n) =
      (upgraded log && cleared log)
      && (not cfg.dry_run && (cfg.node_auto_reboot && not (manager_here log)))
  may_run log wait_for_port = rebooted log
  may_run log _ = false

  abbrev pub permitted : List Event → Event → Bool
  permitted log (ran c r) = may_run log c
  permitted log (polled r) = false
  permitted log (reconciled dry r) = false
  permitted log (slept n) = true

  -- each event of the log was permitted when it happened
  abbrev pub lawful : List Event → Bool
  lawful [] = true
  lawful (e ∷ log) = permitted log e && lawful log
