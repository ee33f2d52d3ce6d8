-- ===== src/Remote/Discipline.antt =====
-- What the flow of a remote host may do in view of what happened before, independent of its code.
use proxmox_management.Prelude.{Bool, true, false, not, ◌&&◌, List, [], ◌∷◌, is_empty, text_eq}
use proxmox_management.Flow.{
  Event, ran, polled, reconciled, slept, Call, run_shell, reboot, guest, detect_cmd, hook,
  reboot_required, upgrade,
}
use proxmox_management.Flow.Discipline.{attempted, upgraded, same_mode}
use proxmox_management.Remote.{RemoteConfig, effective_pre_cmd}

module _ (cfg : RemoteConfig) where
  abbrev pub may_run : List Event → Call → Bool
  may_run log (run_shell guest (hook cmd)) =
      not cfg.dry_run
      && (text_eq cmd (effective_pre_cmd cfg) && (not (is_empty cmd) && not (attempted log)))
  may_run log (run_shell guest detect_cmd) = true
  may_run log (run_shell guest reboot_required) = upgraded log
  may_run log (run_shell guest (upgrade m dry)) = same_mode cfg.dry_run dry
  may_run log (reboot n) = upgraded log && cfg.remote_auto_reboot
  may_run log _ = false

  abbrev pub permitted : List Event → Event → Bool
  permitted log (ran c r) = may_run log c
  permitted log (polled r) = upgraded log
  permitted log (reconciled dry r) = false
  permitted log (slept n) = true

  -- each event of the log was permitted when it happened
  abbrev pub lawful : List Event → Bool
  lawful [] = true
  lawful (e ∷ log) = permitted log e && lawful log
