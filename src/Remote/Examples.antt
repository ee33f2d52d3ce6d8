-- ===== src/Remote/Examples.antt =====
-- A run of `run_remote_update` at a concrete host whose upgrade fails.
use proxmox_management.Prelude.{Bool, false, true, [], none, ◌≡◌, ◌⊎◌, codes}
use proxmox_management.Flow.{World, Call, PrimitiveResult, ok, Env, run_shell, guest, upgrade}
use proxmox_management.Remote.{RemoteConfig, RemoteFlowOutcome, run_remote_update, remote_start}
use proxmox_management.Remote.Discipline.{lawful}
use proxmox_management.Remote.Guarantees.{IsSuccess, IsFailure, run_remote_update-lawful}

abbrev answer : Bool → PrimitiveResult
answer failed = record {
  rc = 0;
  changed = false;
  failed = failed;
  unreachable = false;
  stdout = codes "apk";
  stderr = codes "";
  facts = [];
}

abbrev reply : Call → PrimitiveResult
reply (run_shell guest (upgrade m dry)) = answer true
reply _ = answer false

abbrev outside : Env
outside = record {
  primitive = λ log c. ok (reply c);
  heartbeats = λ log. ok (λ monitor. []);
  alloy = λ log dry. ok (record { status = none; changed = false; warning = none });
}

abbrev mirror : RemoteConfig
mirror = record {
  hostname = codes "mirror";
  dry_run = false;
  pre_update_cmd = codes "sync";
  remote_pre_update_cmd = codes "";
  remote_auto_reboot = true;
  kuma = record { kuma_id = codes "3"; kuma_url = codes "http://kuma"; retries = 2; delay = 10 };
  vm_pkg_count = λ stdout m. none;
  parse_upgraded = λ stdout m. [];
}

run_remote_update-lawful_example :
    (o : RemoteFlowOutcome) × (w : World RemoteFlowOutcome) × (run_remote_update mirror outside
        remote_start
      ≡ (ok o, w))
    × (lawful mirror w.log ≡ true)
    × (IsSuccess mirror o w.log ⊎ IsFailure mirror o)
run_remote_update-lawful_example = run_remote_update-lawful mirror outside
