-- ===== src/Driver/Nodes.antt =====
-- `run_node_phase` of proxmox_fleet/driver.py: the nodes one after the other, then the manager. The
-- inventory is loaded already. What a node or the manager answers depends on the hosts visited
-- before. The answer of `pvesh get /cluster/status` is a parameter: none if the command failed,
-- printed nothing or no JSON that can be read, else the items of the list.
pub mod Counting
pub mod Loop
pub mod Serial
pub mod Examples
use proxmox_management.Prelude.{
  ℕ, Text, Bool, true, false, not, ◌&&◌, ◌||◌, List, [], ◌∷◌, ◌++◌, Option, none, some,
  if◌then◌else◌, codes, is_empty, text_eq, text_in, contains,
}
use proxmox_management.Flow.{Env, Outcome, ok, PkgMgr}
use proxmox_management.Records.{Package, FleetState, no_state, NodeRecord, WarningEntry, ErrorEntry}
use proxmox_management.Node.{
  NodeConfig, NodeFlowOutcome, run_node_update, run_manager_update, node_start,
}
use proxmox_management.Driver.{fold_outcome}
use proxmox_management.Driver.Locating.{NodeInfo}
use proxmox_management.Driver.Phases.{within, and_then}

-- UNREACHABLE_MARKERS of proxmox_fleet/runner.py
abbrev pub unreachable_markers : List Text
unreachable_markers =
    codes "Data could not be sent to remote host"
    ∷ codes "No route to host"
    ∷ codes "Connection timed out"
    ∷ codes "Connection refused"
    ∷ []

unfoldable pub any_in : List Text → Text → Bool
any_in [] s = false
any_in (marker ∷ markers) s = contains marker s || any_in markers s

abbrev pub is_unreachable_error : Text → Bool
is_unreachable_error s = any_in unreachable_markers s

-- an item of the cluster's status
pub record StatusItem : Type 0 where
  pub kind : Text
  pub quorate : Bool

-- the settings and the arguments that the phase reads
pub record NodeSettings : Type 0 where
  pub limit : Option (List Text)
  pub include_nodes : Bool
  pub include_manager : Bool
  -- check or fleet_dry_run or node_dry_run
  pub dry_run : Bool
  -- the nodes that the inventory flags
  pub nvidia_host : Text → Bool
  pub manager_lxc_id : Text
  pub node_apt_retries : ℕ
  pub node_apt_retry_delay : ℕ
  pub node_auto_reboot : Bool
  pub apt_proxy_ip : Text
  pub vm_pkg_count : Text → PkgMgr → Option ℕ
  pub parse_upgraded : Text → PkgMgr → List Package

-- the state of the phase and the nodes visited so far, in order
pub record NodeVars : Type 0 where
  pub state : FleetState
  pub visited : List Text

abbrev pub nothing_visited : NodeVars
nothing_visited = record { state = no_state; visited = [] }

abbrev pub put_node : NodeRecord → FleetState → FleetState
put_node r s = record s { node = s.node ++ (r ∷ []) }

-- the loop over the items
unfoldable pub quorate_of : List StatusItem → Bool
quorate_of [] = true
quorate_of (item ∷ items) =
    if text_eq item.kind (codes "cluster") then item.quorate else quorate_of items

unfoldable pub cluster_quorate :
    (Text → Option (List StatusItem)) → List NodeInfo → Text → Text → Option Bool
cluster_quorate status [] skip cluster = none
cluster_quorate status (n ∷ nodes) skip cluster =
    let others = cluster_quorate status nodes skip cluster in
    if not (text_eq n.cluster cluster) || text_eq n.name skip
    then others
    else elim (status n.name) [ none ↦ others | some items ↦ some (quorate_of items) ]

abbrev pub is_yes : Option Bool → Bool
is_yes none = false
is_yes (some b) = b

-- `limit` leaves the node
unfoldable pub limited : Option (List Text) → List NodeInfo → List NodeInfo
limited limit [] = []
limited limit (n ∷ nodes) =
    let rest = limited limit nodes in if within limit (text_in n.name) then n ∷ rest else rest

-- _MANAGER_LIMIT_TOKENS
abbrev pub names_manager : List Text → Bool
names_manager limit =
    text_in (codes "manager") limit
    || (text_in (codes "localhost") limit || text_in (codes "Ansible-Manager") limit)

module _ (settings : NodeSettings) where
  abbrev pub config_of : NodeInfo → NodeConfig
  config_of info = record {
    node_name = info.name;
    cluster = info.cluster;
    nvidia_host = settings.nvidia_host info.name;
    dry_run = settings.dry_run;
    manager_lxc_id = settings.manager_lxc_id;
    node_apt_retries = settings.node_apt_retries;
    node_apt_retry_delay = settings.node_apt_retry_delay;
    node_auto_reboot = settings.node_auto_reboot;
    apt_proxy_ip = settings.apt_proxy_ip;
    vm_pkg_count = settings.vm_pkg_count;
    parse_upgraded = settings.parse_upgraded;
  }

  -- run_manager_update has no node and no cluster
  abbrev pub manager_config : NodeConfig
  manager_config =
      config_of
        (record { name = codes "localhost"; ansible_host = codes "localhost"; cluster = codes "" })

  abbrev pub runs_manager : Bool
  runs_manager = settings.include_manager && within settings.limit names_manager

  module _ (outside : List Text → Text → Env)
      (status : List Text → Text → Option (List StatusItem)) where
    abbrev pub is_down : List NodeInfo → List Text → NodeInfo → Option ErrorEntry → Bool
    is_down nodes past info none = false
    is_down nodes past info (some e) =
        is_unreachable_error e.error
        && is_yes (cluster_quorate (status past) nodes info.name info.cluster)

    abbrev pub skipped_node : NodeInfo → NodeRecord
    skipped_node info = record {
      node_name = info.name;
      status = codes "SKIPPED (unreachable)";
      pkg_count = none;
      packages = none;
      dry_run = none;
      reboot_reasons = none;
    }

    abbrev pub task_of : Option ErrorEntry → Text
    task_of none = codes ""
    task_of (some e) = e.task

    abbrev pub note_down : NodeInfo → Option ErrorEntry → FleetState → FleetState
    note_down info error s = record s {
      node = s.node ++ (skipped_node info ∷ []);
      warnings =
          s.warnings
          ++ (record {
            host = info.name;
            task = task_of error;
            warning =
                codes "node down/unreachable — OS update skipped this run (cluster still quorate)";
            notifying = none;
          }
              ∷ []);
    }

    -- what the loop makes of an outcome, and whether it goes on
    unfoldable pub note_node :
        List NodeInfo → NodeInfo → NodeFlowOutcome → NodeVars → NodeVars × Bool
    note_node nodes info outcome v =
        if outcome.failed && is_down nodes v.visited info outcome.error
        then (
          record {
            state = note_down info outcome.error v.state;
            visited = v.visited ++ (info.name ∷ []);
          },
          true,
        )
        else (
          record {
            state = fold_outcome put_node outcome [] false v.state;
            visited = v.visited ++ (info.name ∷ []);
          },
          not outcome.failed,
        )

    -- the loop, whose quorum check asks `nodes`
    unfoldable pub update_nodes : List NodeInfo → List NodeInfo → NodeVars → Outcome NodeVars
    update_nodes nodes [] v = ok v
    update_nodes nodes (info ∷ rest) v =
        and_then (run_node_update (config_of info) (outside v.visited info.name) node_start).0
          (λ outcome.
            let (v', goes_on) = note_node nodes info outcome v in
            if goes_on then update_nodes nodes rest v' else ok v')

    unfoldable pub update_manager_too : NodeVars → Outcome NodeVars
    update_manager_too v =
        if runs_manager
        then and_then
            (run_manager_update manager_config (outside v.visited (codes "localhost")) node_start).0
            (λ outcome. ok (record v { state = fold_outcome put_node outcome [] false v.state }))
        else ok v

    unfoldable pub run_node_phase : List NodeInfo → Outcome NodeVars
    run_node_phase inventory =
        let nodes = limited settings.limit inventory in
        and_then
          (if settings.include_nodes
            then update_nodes nodes nodes nothing_visited
            else ok nothing_visited)
          update_manager_too
