-- ===== src/Driver/Examples.antt =====
-- The phases of the driver at concrete hosts.
use proxmox_management.Prelude.{
  ℕ, Text, true, false, List, [], ◌∷◌, Option, none, some, ◌≡◌, refl, ◌==◌, ◌⊎◌, codes,
}
use proxmox_management.Flow.{◌>>=◌, assign, look, pure, World, Call, PrimitiveResult, ok, Env}
use proxmox_management.Records.{FleetState, RemoteRecord, no_outcome, no_state}
use proxmox_management.Window.{Moment}
use proxmox_management.Driver.{
  Phase, PhaseVars, Soak, run_waves, phase_start, canaries, partition_by, run_wave, run_staged,
  note_wave, canary_gate, after_gate, note_skipped, fold_results, fold_result, fold_outcome,
  run_concurrent,
}
use proxmox_management.Driver.Folding.{IsBucket}
use proxmox_management.Driver.Staged.{IsStaged}
use proxmox_management.Driver.Staging.{IsFresh, run_waves-IsStaged}
use proxmox_management.Driver.Accounting.{IsAccounted, run_waves-IsAccounted, All}
use proxmox_management.Driver.Canaries.{Updated, vms_of, table_of, final_of, run_vm_phase-Updated}
use proxmox_management.Driver.Locating.{VmSpec, NodeInfo, Location, Resource, resolve_vm_cluster}
use proxmox_management.Driver.Locating.Resolution.{IsSettled, resolve_vm_cluster-IsSettled}
use proxmox_management.Driver.Phases.{Settings, put_remote, vm_phase, is_canary_vm}

abbrev soak_once : Soak
soak_once = record {
  canary_soak_minutes = 1;
  kuma_url = codes "http://kuma";
  kuma_health_check_retries = 1;
  kuma_health_check_delay = 5;
}

abbrev record_at : ℕ → Text → RemoteRecord
record_at h status = record { host = h ∷ []; status = status; pkg_count = none; packages = none }

-- the first host is a canary and fails
abbrev small_phase : Phase ℕ RemoteRecord
small_phase = record {
  name = λ h. h ∷ [];
  is_canary = λ h. h == b'a';
  put = put_remote;
  bucket = λ s. s.remote;
  skipped = λ h. record_at h (codes "SKIPPED (canary failed)");
  task = codes "run_remote_update";
  canary_failed = codes "a canary host failed";
  soak_host = codes "remote-canary";
  dry_run = false;
  soak = soak_once;
  kuma_map = λ host. codes "7";
  run_one = λ started h.
      ok (record no_outcome { failed = true; report = some (record_at h (codes "FAILED")) });
}

small_phase-laws : IsBucket small_phase.put small_phase.bucket
small_phase-laws = record {
  bucket-put = λ r s. refl;
  bucket-with_log = λ s c f a e w. refl;
  failed-put = λ r s. refl;
}

abbrev answer : Call → PrimitiveResult
answer c = record {
  rc = 0;
  changed = true;
  failed = false;
  unreachable = false;
  stdout = codes "1 upgraded, 0 newly installed";
  stderr = codes "";
  facts = [];
}

abbrev host : Env
host = record {
  primitive = λ log c. ok (answer c);
  heartbeats = λ log. ok (λ monitor. some 1 ∷ []);
  alloy = λ log dry. ok (record { status = none; changed = false; warning = none });
}

abbrev two_hosts : List ℕ
two_hosts = b'a' ∷ b'b' ∷ []

abbrev first_start : World (PhaseVars ℕ)
first_start = phase_start no_state

first_start-IsFresh : IsFresh small_phase small_phase-laws [] first_start.vars
first_start-IsFresh = record { none_started = refl; unfailed = refl; holds = refl }

only_canary_started : (run_waves small_phase host two_hosts first_start).1.vars.started ≡ b'a' ∷ []
unfolding run_waves run_staged run_wave note_wave canary_gate after_gate note_skipped partition_by
    fold_results fold_result fold_outcome run_concurrent ◌>>=◌ assign look pure
only_canary_started = refl

run_waves-IsStaged_example :
    (w : World (PhaseVars ℕ)) × (run_waves small_phase host two_hosts first_start ≡ (ok tt, w))
    × IsStaged small_phase [] [] two_hosts w
run_waves-IsStaged_example =
    run_waves-IsStaged small_phase small_phase-laws host two_hosts first_start first_start-IsFresh

run_waves-IsAccounted_example :
    IsAccounted small_phase small_phase-laws two_hosts
      (run_waves small_phase host two_hosts first_start).1.vars
run_waves-IsAccounted_example =
    run_waves-IsAccounted small_phase small_phase-laws host two_hosts first_start
      first_start-IsFresh

abbrev settings : Settings
settings = record {
  canary_hosts = codes "web" ∷ [];
  force_window = false;
  soak = soak_once;
  limit = none;
  alloy_only = false;
  alloy_enabled = false;
  alloy_config = false;
  vm_alloy_exclude_list = [];
  vm_dry_run = false;
  remote_dry_run = false;
  vm_kuma_map = λ name. codes "7";
  remote_kuma_map = λ name. codes "";
  vm_backup_strategy = codes "none";
  snapshot_retries = 1;
  snapshot_retry_delay = 10;
  vm_auto_reboot = false;
  remote_auto_reboot = false;
  remote_pre_update_cmd = codes "";
  vm_pkg_count = λ stdout m. none;
  parse_upgraded = λ stdout m. [];
}

abbrev zone : Text → Moment
zone tz = record { weekday = 0; clock = codes "12:00" }

abbrev vm : Text → Text → VmSpec
vm name vmid = record {
  name = name;
  vmid = vmid;
  pve_node = codes "";
  maintenance_window = none;
  canary = false;
  cluster = codes "";
}

abbrev two_vms : List VmSpec
two_vms = vm (codes "web") (codes "200") ∷ vm (codes "db") (codes "201") ∷ []

abbrev nodes : List NodeInfo
nodes =
    record { name = codes "pve1"; ansible_host = codes "10.0.0.1"; cluster = codes "default" } ∷ []

abbrev query : Text → Option (List Resource)
query node_name = some (
    record { vmid = codes "200"; node_name = codes "pve1" }
    ∷ record { vmid = codes "201"; node_name = codes "pve1" }
    ∷ [])

run_vm_phase-Updated_example :
    (s : FleetState) × (w : World (PhaseVars VmSpec)) × (final_of settings zone query
        (λ started v. host)
        host
        nodes
        two_vms
      ≡ (ok s, w))
    × (All
          (λ v.
            is_canary_vm settings zone nodes
              (table_of settings zone query (λ started v. host) host nodes two_vms)
              v
            ≡ true)
          w.vars.started
        ⊎ All
            (Updated settings zone nodes
              (table_of settings zone query (λ started v. host) host nodes two_vms)
              (λ started v. host))
            (canaries
              (vm_phase settings zone nodes
                (table_of settings zone query (λ started v. host) host nodes two_vms)
                (λ started v. host))
              (vms_of settings zone query (λ started v. host) host nodes two_vms)))
run_vm_phase-Updated_example =
    run_vm_phase-Updated settings zone query (λ started v. host) host nodes two_vms refl refl

abbrev twins : List Location
twins =
    record {
      cluster = codes "alpha";
      vmid = codes "200";
      node_name = codes "pve1";
      api_host = codes "10.0.0.1";
    }
    ∷ record {
      cluster = codes "beta";
      vmid = codes "200";
      node_name = codes "pve9";
      api_host = codes "10.0.0.9";
    }
    ∷ []

resolve_vm_cluster-IsSettled_example :
    IsSettled nodes twins
      (vm (codes "web") (codes "200"))
      (resolve_vm_cluster nodes twins (vm (codes "web") (codes "200")))
resolve_vm_cluster-IsSettled_example =
    resolve_vm_cluster-IsSettled nodes twins (vm (codes "web") (codes "200"))
