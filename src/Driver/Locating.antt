-- ===== src/Driver/Locating.antt =====
-- Where a VM is: `_discover_vm_locations` and `_resolve_vm_cluster` of proxmox_fleet/driver.py. The
-- answer of `pvesh` on a node is a parameter: none if the command failed, printed nothing or
-- no JSON, else the items of the list.
pub mod Resolution
use proxmox_management.Prelude.{
  ℕ, Text, Bool, true, false, not, ◌&&◌, ◌||◌, List, [], ◌∷◌, ◌++◌, Option, none, some,
  if◌then◌else◌, codes, is_empty, text_eq, text_in,
}
use proxmox_management.Flow.{Exn, Outcome, ok, raised}
use proxmox_management.Flow.Packages.{runtime_error}
use proxmox_management.Cluster.{default_cluster}
use proxmox_management.Window.{MaintenanceWindow, text_le}

-- VmSpec of proxmox_fleet/inventory.py
pub record VmSpec : Type 0 where
  pub name : Text
  pub vmid : Text
  pub pve_node : Text
  pub maintenance_window : Option MaintenanceWindow
  pub canary : Bool
  pub cluster : Text

pub record NodeInfo : Type 0 where
  pub name : Text
  pub ansible_host : Text
  pub cluster : Text

pub record Resource : Type 0 where
  pub vmid : Text
  pub node_name : Text

-- an entry of the table of locations
pub record Location : Type 0 where
  pub cluster : Text
  pub vmid : Text
  pub node_name : Text
  pub api_host : Text

-- of two values for a key the later one counts
abbrev pub later_or : {A : Type 0} → Option A → Option A → Option A
later_or (some a) earlier = some a
later_or none earlier = earlier

abbrev pub else_name : Option Text → Text → Text
else_name none name = name
else_name (some host) name = host

-- nodes_map.get(name)
unfoldable pub node_host : List NodeInfo → Text → Option Text
node_host [] name = none
node_host (n ∷ nodes) name =
    later_or (node_host nodes name) (if text_eq name n.name then some n.ansible_host else none)

-- nodes_map.get(name, name)
abbrev pub host_of : List NodeInfo → Text → Text
host_of nodes name = else_name (node_host nodes name) name

-- node_clusters.get(name)
unfoldable pub node_cluster : List NodeInfo → Text → Option Text
node_cluster [] name = none
node_cluster (n ∷ nodes) name =
    later_or (node_cluster nodes name) (if text_eq name n.name then some n.cluster else none)

-- the names of the clusters in the order of their first node
unfoldable pub cluster_names : List Text → List NodeInfo → List Text
cluster_names known [] = []
cluster_names known (n ∷ nodes) =
    let older = cluster_names known nodes in
    let newer = n.cluster ∷ cluster_names (n.cluster ∷ known) nodes in
    if text_in n.cluster known then older else newer

-- The table of locations is a list with the newest entry first; a later entry hides an earlier one.
unfoldable pub add_items : List NodeInfo → Text → List Resource → List Location → List Location
add_items nodes cluster [] table = table
add_items nodes cluster (item ∷ items) table = add_items nodes cluster items (
    if is_empty item.vmid || is_empty item.node_name
    then table
    else record {
      cluster = cluster;
      vmid = item.vmid;
      node_name = item.node_name;
      api_host = host_of nodes item.node_name;
    }
      ∷ table)

module _ (query : Text → Option (List Resource)) (nodes : List NodeInfo) where
  -- the first node of the cluster that answers
  unfoldable pub query_cluster : Text → List NodeInfo → List Location → List Location
  query_cluster cluster [] table = table
  query_cluster cluster (n ∷ candidates) table =
      let next = query_cluster cluster candidates table in
      if text_eq cluster n.cluster
      then elim (query n.name) [ none ↦ next | some items ↦ add_items nodes cluster items table ]
      else next

  unfoldable pub query_clusters : List Text → List Location → List Location
  query_clusters [] table = table
  query_clusters (cluster ∷ clusters) table =
      query_clusters clusters (query_cluster cluster nodes table)

  unfoldable pub discover_vm_locations : List Location
  discover_vm_locations = query_clusters (cluster_names [] nodes) []

-- vm_locations[(cluster, vmid)]
unfoldable pub location_of : List Location → Text → Text → Option Location
location_of [] cluster vmid = none
location_of (l ∷ table) cluster vmid =
    if text_eq cluster l.cluster && text_eq vmid l.vmid
    then some l
    else location_of table cluster vmid

-- a name into a sorted list without repetitions
unfoldable pub insert_name : Text → List Text → List Text
insert_name c [] = c ∷ []
insert_name c (d ∷ names) =
    let behind = d ∷ insert_name c names in
    if text_eq c d then d ∷ names else if text_le c d then c ∷ d ∷ names else behind

-- sorted({c for (c, vmid) in vm_locations if vmid == spec.vmid})
unfoldable pub clusters_with : List Location → Text → List Text
unfolding insert_name
clusters_with [] vmid = []
clusters_with (l ∷ table) vmid =
    let names = clusters_with table vmid in
    if text_eq l.vmid vmid then insert_name l.cluster names else names

-- ", ".join(names)
unfoldable pub joined_names : List Text → Text
joined_names [] = []
joined_names (c ∷ []) = c
joined_names (c ∷ (d ∷ names)) = c ++ (codes ", " ++ joined_names (d ∷ names))

abbrev pub several : VmSpec → List Text → Exn
several spec found = runtime_error (
    codes "vmid "
    ++ (spec.vmid
        ++ (codes " ("
            ++ (spec.name
                ++ (codes ") exists in clusters "
                    ++ (joined_names found
                        ++ codes " — set cluster= or pve_node= in inventory"))))))

unfoldable pub resolve_found : VmSpec → List Text → Outcome Text
resolve_found spec [] = ok default_cluster
resolve_found spec (c ∷ []) = ok c
resolve_found spec (c ∷ (d ∷ found)) = raised (several spec (c ∷ d ∷ found))

-- the cluster of the `pve_node` hint
abbrev pub hinted : List NodeInfo → VmSpec → Option Text
hinted nodes spec = if is_empty spec.pve_node then none else node_cluster nodes spec.pve_node

unfoldable pub resolve_vm_cluster : List NodeInfo → List Location → VmSpec → Outcome Text
unfolding node_cluster
resolve_vm_cluster nodes table spec =
    if not (is_empty spec.cluster) then ok spec.cluster else elim (hinted nodes spec) [
      | some c ↦ ok c
      | none ↦ resolve_found spec (clusters_with table spec.vmid)
    ]
