-- ===== src/Driver/Nodes/Examples.antt =====
-- The node phase over two nodes, the first of which does not answer.
use proxmox_management.Prelude.{
  Text, true, false, List, [], ◌∷◌, Option, none, some, ◌≡◌, codes, text_eq, if◌then◌else◌,
}
use proxmox_management.Flow.{Env, Exn, ok, raised, PrimitiveResult}
use proxmox_management.Driver.Locating.{NodeInfo}
use proxmox_management.Driver.Nodes.{NodeSettings, NodeVars, StatusItem, run_node_phase}
use proxmox_management.Driver.Nodes.Serial.{IsSerial, run_node_phase-IsSerial}

abbrev no_route : Exn
no_route = record {
  type_name = codes "UnreachableHostError";
  step_name = none;
  message = codes "ssh: No route to host";
  is_os_error = false;
}

abbrev fine : PrimitiveResult
fine = record {
  rc = 0;
  changed = false;
  failed = false;
  unreachable = false;
  stdout = codes "";
  stderr = codes "";
  facts = [];
}

abbrev outside : List Text → Text → Env
outside past name = record {
  primitive = λ log c. if text_eq name (codes "pve1") then raised no_route else ok fine;
  heartbeats = λ log. ok (λ monitor. []);
  alloy = λ log dry. ok (record { status = none; changed = false; warning = none });
}

abbrev status : List Text → Text → Option (List StatusItem)
status past name = some (record { kind = codes "cluster"; quorate = true } ∷ [])

abbrev two_nodes : List NodeInfo
two_nodes =
    record { name = codes "pve1"; ansible_host = codes "10.0.0.1"; cluster = codes "default" }
    ∷ record { name = codes "pve2"; ansible_host = codes "10.0.0.2"; cluster = codes "default" }
    ∷ []

abbrev nightly : NodeSettings
nightly = record {
  limit = none;
  include_nodes = true;
  include_manager = true;
  dry_run = false;
  nvidia_host = λ name. false;
  manager_lxc_id = codes "";
  node_apt_retries = 1;
  node_apt_retry_delay = 30;
  node_auto_reboot = true;
  apt_proxy_ip = codes "";
  vm_pkg_count = λ stdout m. none;
  parse_upgraded = λ stdout m. [];
}

run_node_phase-IsSerial_example :
    (v : NodeVars) × (run_node_phase nightly outside status two_nodes ≡ ok v)
    × IsSerial nightly outside status two_nodes v
run_node_phase-IsSerial_example = run_node_phase-IsSerial nightly outside status two_nodes
