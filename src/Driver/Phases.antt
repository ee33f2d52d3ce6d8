-- ===== src/Driver/Phases.antt =====
-- `run_vm_phase` and `run_remote_phase` of proxmox_fleet/driver.py, over the flows of their hosts. The
-- inventory and the desired Alloy configuration are loaded already. Each host has an outside of
-- its own, in view of the hosts of the earlier waves.
use proxmox_management.Prelude.{
  ℕ, Text, Bool, true, false, not, ◌&&◌, ◌||◌, List, [], ◌∷◌, ◌++◌, Option, none, some,
  if◌then◌else◌, codes, is_empty, text_in,
}
use proxmox_management.Flow.{Exec, Exn, Env, Outcome, ok, raised, PkgMgr, pure, look, ◌>>=◌, ◌>>◌}
use proxmox_management.Flow.Packages.{Kuma, runtime_error}
use proxmox_management.Records.{
  Package, FleetState, VmRecord, RemoteRecord, FlowOutcome, no_outcome,
}
use proxmox_management.Cluster.{default_cluster, matches_any, limit_selects_id}
use proxmox_management.Window.{MaintenanceWindow, Moment, in_window}
use proxmox_management.Vm.{VmConfig, run_vm_update, first_world}
use proxmox_management.Remote.{RemoteConfig, run_remote_update, remote_start}
use proxmox_management.Driver.{Soak, Phase, PhaseVars, partition_by, run_waves, canary_skip_status}
use proxmox_management.Driver.Locating.{
  VmSpec, NodeInfo, Resource, Location, node_cluster, discover_vm_locations, location_of,
  resolve_vm_cluster,
}

-- RemoteHostSpec of proxmox_fleet/inventory.py
pub record RemoteHostSpec : Type 0 where
  pub name : Text
  pub maintenance_window : Option MaintenanceWindow
  pub pre_update_cmd : Text
  pub canary : Bool

-- the settings and the arguments that the phases read
pub record Settings : Type 0 where
  pub canary_hosts : List Text
  pub force_window : Bool
  pub soak : Soak
  pub limit : Option (List Text)
  pub alloy_only : Bool
  pub alloy_enabled : Bool
  -- whether the desired Alloy configuration was loaded
  pub alloy_config : Bool
  pub vm_alloy_exclude_list : List Text
  -- check or fleet_dry_run or the phase's own
  pub vm_dry_run : Bool
  pub remote_dry_run : Bool
  pub vm_kuma_map : Text → Text
  pub remote_kuma_map : Text → Text
  pub vm_backup_strategy : Text
  pub snapshot_retries : ℕ
  pub snapshot_retry_delay : ℕ
  pub vm_auto_reboot : Bool
  pub remote_auto_reboot : Bool
  pub remote_pre_update_cmd : Text
  pub vm_pkg_count : Text → PkgMgr → Option ℕ
  pub parse_upgraded : Text → PkgMgr → List Package

abbrev pub within : Option (List Text) → (List Text → Bool) → Bool
within none test = true
within (some limit) test = test limit

-- the window of a host lets it be updated now
abbrev pub is_open : (Text → Moment) → Bool → Option MaintenanceWindow → Bool
is_open zone force none = true
is_open zone force (some window) = in_window zone window force

abbrev pub kuma_of : Soak → (Text → Text) → Text → Kuma
kuma_of soak kuma_map name = record {
  kuma_id = kuma_map name;
  kuma_url = soak.kuma_url;
  retries = soak.kuma_health_check_retries;
  delay = soak.kuma_health_check_delay;
}

-- an outcome of `_run_one`
abbrev pub and_then : {A B : Type 0} → Outcome A → (A → Outcome B) → Outcome B
and_then (ok a) f = f a
and_then (raised e) f = raised e

abbrev pub put_vm : VmRecord → FleetState → FleetState
put_vm r s = record s { vm = s.vm ++ (r ∷ []) }

abbrev pub put_remote : RemoteRecord → FleetState → FleetState
put_remote r s = record s { remote = s.remote ++ (r ∷ []) }

module _ (settings : Settings) (zone : Text → Moment) where
  module _ (nodes : List NodeInfo) (table : List Location) where
    abbrev pub clustered : Option Text → Text
    clustered none = default_cluster
    clustered (some c) = c

    unfoldable pub vm_cluster_hint : VmSpec → Text
    vm_cluster_hint v =
        if not (is_empty v.cluster)
        then v.cluster
        else if is_empty v.pve_node
        then default_cluster
        else clustered (node_cluster nodes v.pve_node)

    abbrev pub no_node : VmSpec → Exn
    no_node spec = runtime_error (
        codes "Cannot determine node for vmid "
        ++ (spec.vmid
            ++ (codes " ("
                ++ (spec.name
                    ++ codes "): cluster discovery failed and no pve_node set in inventory"))))

    abbrev pub located : VmSpec → Option Location → Outcome Text
    located spec (some l) = ok l.node_name
    located spec none = if is_empty spec.pve_node then raised (no_node spec) else ok spec.pve_node

    -- the node of a VM
    unfoldable pub locate_vm : VmSpec → Outcome Text
    locate_vm spec =
        and_then (resolve_vm_cluster nodes table spec)
          (λ cluster. located spec (location_of table cluster spec.vmid))

    abbrev pub alloy_requested : Bool
    alloy_requested = settings.alloy_only || settings.alloy_enabled

    abbrev pub vm_config : VmSpec → Text → VmConfig
    vm_config spec node_name = record {
      node_name = node_name;
      vmid = spec.vmid;
      inventory_hostname = spec.name;
      dry_run = settings.vm_dry_run;
      has_alloy_config =
          settings.alloy_config
          && (alloy_requested && not (text_in spec.name settings.vm_alloy_exclude_list));
      alloy_only = settings.alloy_only;
      vm_backup_strategy = settings.vm_backup_strategy;
      snapshot_retries = settings.snapshot_retries;
      snapshot_retry_delay = settings.snapshot_retry_delay;
      vm_auto_reboot = settings.vm_auto_reboot;
      kuma = kuma_of settings.soak settings.vm_kuma_map spec.name;
      vm_pkg_count = settings.vm_pkg_count;
      parse_upgraded = settings.parse_upgraded;
    }

    unfoldable pub run_one_vm :
        (List VmSpec → VmSpec → Env) → List VmSpec → VmSpec → Outcome (FlowOutcome VmRecord)
    run_one_vm outside started spec =
        if is_open zone settings.force_window spec.maintenance_window
        then and_then (locate_vm spec) (λ node_name.
          let cfg = vm_config spec node_name in
          (run_vm_update cfg (outside started spec) (first_world cfg (outside started spec))).0)
        else ok no_outcome

    abbrev pub shown_cluster : Outcome Text → Text
    shown_cluster (ok c) = c
    shown_cluster (raised e) = default_cluster

    abbrev pub shown_node : VmSpec → Option Location → Text
    shown_node spec (some l) = l.node_name
    shown_node spec none = if is_empty spec.pve_node then codes "?" else spec.pve_node

    unfoldable pub skipped_vm : VmSpec → VmRecord
    skipped_vm v = record {
      node_name =
          shown_node v
            (location_of table (shown_cluster (resolve_vm_cluster nodes table v)) v.vmid);
      vmid = v.vmid;
      name = v.name;
      status = canary_skip_status;
      pkg_count = none;
      packages = none;
      alloy = none;
    }

    unfoldable pub is_canary_vm : VmSpec → Bool
    is_canary_vm v =
        not settings.alloy_only
        && (v.canary
            || (text_in v.name settings.canary_hosts
                || matches_any settings.canary_hosts (vm_cluster_hint v) v.vmid))

    abbrev pub vm_phase : (List VmSpec → VmSpec → Env) → Phase VmSpec VmRecord
    vm_phase outside = record {
      name = λ v. v.name;
      is_canary = is_canary_vm;
      put = put_vm;
      bucket = λ s. s.vm;
      skipped = skipped_vm;
      task = codes "run_vm_update";
      canary_failed = codes "a canary VM failed";
      soak_host = codes "vm-canary";
      dry_run = settings.vm_dry_run;
      soak = settings.soak;
      kuma_map = settings.vm_kuma_map;
      run_one = run_one_vm outside;
    }

    unfoldable pub selected_vms : List VmSpec → List VmSpec
    selected_vms vms =
        partition_by
          (λ v. not settings.alloy_only || not (text_in v.name settings.vm_alloy_exclude_list))
          (partition_by
            (λ v.
              within settings.limit (λ limit.
                text_in v.name limit || limit_selects_id limit (vm_cluster_hint v) v.vmid))
            vms)

  abbrev pub is_none_left : List VmSpec → Bool
  is_none_left [] = true
  is_none_left (v ∷ vms) = false

  -- `query` is the answer of the discovery on a node, `outside` that of each VM, `env` that of the
  -- health service during the soak
  unfoldable pub run_vm_phase :
      (Text → Option (List Resource))
      → (List VmSpec → VmSpec → Env)
      → Env
      → List NodeInfo
      → List VmSpec
      → Exec (PhaseVars VmSpec) FleetState
  run_vm_phase query outside env nodes loaded =
      let vms = selected_vms nodes [] loaded in
      let table = if is_none_left vms then [] else discover_vm_locations query nodes in
      run_waves (vm_phase nodes table outside) env vms >> (look >>= λ v. pure v.state)

  abbrev pub remote_config : RemoteHostSpec → RemoteConfig
  remote_config spec = record {
    hostname = spec.name;
    dry_run = settings.remote_dry_run;
    pre_update_cmd = spec.pre_update_cmd;
    remote_pre_update_cmd = settings.remote_pre_update_cmd;
    remote_auto_reboot = settings.remote_auto_reboot;
    kuma = kuma_of settings.soak settings.remote_kuma_map spec.name;
    vm_pkg_count = settings.vm_pkg_count;
    parse_upgraded = settings.parse_upgraded;
  }

  unfoldable pub run_one_remote :
      (List RemoteHostSpec → RemoteHostSpec → Env)
      → List RemoteHostSpec
      → RemoteHostSpec
      → Outcome (FlowOutcome RemoteRecord)
  run_one_remote outside started spec =
      if is_open zone settings.force_window spec.maintenance_window
      then (run_remote_update (remote_config spec) (outside started spec) remote_start).0
      else ok no_outcome

  unfoldable pub skipped_remote : RemoteHostSpec → RemoteRecord
  skipped_remote spec = record {
    host = spec.name;
    status = canary_skip_status;
    pkg_count = none;
    packages = none;
  }

  abbrev pub remote_phase :
      (List RemoteHostSpec → RemoteHostSpec → Env) → Phase RemoteHostSpec RemoteRecord
  remote_phase outside = record {
    name = λ h. h.name;
    is_canary = λ h. h.canary || text_in h.name settings.canary_hosts;
    put = put_remote;
    bucket = λ s. s.remote;
    skipped = skipped_remote;
    task = codes "run_remote_update";
    canary_failed = codes "a canary host failed";
    soak_host = codes "remote-canary";
    dry_run = settings.remote_dry_run;
    soak = settings.soak;
    kuma_map = settings.remote_kuma_map;
    run_one = run_one_remote outside;
  }

  unfoldable pub run_remote_phase :
      (List RemoteHostSpec → RemoteHostSpec → Env)
      → Env
      → List RemoteHostSpec
      → Exec (PhaseVars RemoteHostSpec) FleetState
  run_remote_phase outside env loaded =
      run_waves (remote_phase outside) env
        (partition_by (λ h. within settings.limit (λ limit. text_in h.name limit)) loaded)
      >> (look >>= λ v. pure v.state)
