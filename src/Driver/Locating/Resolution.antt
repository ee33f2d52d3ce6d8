-- ===== src/Driver/Locating/Resolution.antt =====
-- `_resolve_vm_cluster` of proxmox_fleet/driver.py never guesses the cluster of a VM.
use proxmox_management.Prelude.{
  Text, Bool, true, false, not, ◌&&◌, ◌||◌, List, [], ◌∷◌, Option, none, some, ◌≡◌, refl, arith,
  ◌⊎◌, inl, inr, is_empty, text_eq, text_in, text_eq_iff, text_eq_refl, Bool-cases, ap, ◌∙◌,
  if◌then◌else◌,
}
use proxmox_management.Flow.{Outcome, ok, raised}
use proxmox_management.Cluster.{default_cluster}
use proxmox_management.Driver.Locating.{
  VmSpec, NodeInfo, Location, insert_name, clusters_with, resolve_found, hinted, resolve_vm_cluster,
  node_cluster,
}

-- every entry with this id is in the cluster
abbrev pub all_in : Text → Text → List Location → Bool
all_in vmid c [] = true
all_in vmid c (l ∷ table) =
    (not (text_eq l.vmid vmid) || text_eq l.cluster c) && all_in vmid c table

text_in-insert_name :
    (x c : Text) (names : List Text)
    → text_in x (insert_name c names) ≡ (text_eq x c || text_in x names)
unfolding insert_name text_in
text_in-insert_name x c [] = refl
text_in-insert_name x c (d ∷ names) = ground (arith, text_in-insert_name x c names, text_eq_iff c d)

module _ (vmid c : Text) where
  all_in-of_names :
      (table : List Location)
      → ((x : Text) → text_in x (clusters_with table vmid) ≡ true → text_eq x c ≡ true)
      → all_in vmid c table ≡ true
  unfolding clusters_with
  all_in-of_names [] h = refl
  all_in-of_names (l ∷ table) h = elim (Bool-cases (text_eq l.vmid vmid)) [
    | inl same ↦
        let names = clusters_with table vmid in
        ground (
          arith,
          same,
          h l.cluster (
              ground (
                arith,
                same,
                text_in-insert_name l.cluster l.cluster names,
                text_eq_refl l.cluster,
              )),
          all_in-of_names table
              (λ x m. h x (ground (arith, same, m, text_in-insert_name x l.cluster names))),
        )
    | inr other ↦
        ground (arith, other, all_in-of_names table (λ x m. h x (ground (arith, other, m))))
  ]

  names-of_all_in :
      (table : List Location)
      → all_in vmid c table ≡ true
      → (x : Text) → text_in x (clusters_with table vmid) ≡ true
      → text_eq x c ≡ true
  unfolding clusters_with text_in
  names-of_all_in [] h x m = ground (arith, m)
  names-of_all_in (l ∷ table) h x m = ground (
    arith,
    h,
    m,
    names-of_all_in table (ground (arith, h)) x,
    text_in-insert_name x l.cluster (clusters_with table vmid),
    text_eq_iff x l.cluster,
  )

none_is_not_some : {A : Type 0} (a : A) → none ≡ some a → ⊥
none_is_not_some a h = ground arith

Bool-false : (b : Bool) → (b ≡ true → ⊥) → b ≡ false
Bool-false true h = elim (h refl) [ ]
Bool-false false h = refl

-- neighbours differ
abbrev varied : List Text → Bool
varied [] = true
varied (c ∷ []) = true
varied (c ∷ (d ∷ names)) = not (text_eq c d) && varied (d ∷ names)

text_eq_symm : (a b : Text) → text_eq a b ≡ text_eq b a
text_eq_symm a b = ground (arith, text_eq_iff a b, text_eq_iff b a)

varied-insert_name :
    (c : Text) (names : List Text) → varied names ≡ true → varied (insert_name c names) ≡ true
unfolding insert_name
varied-insert_name c [] h = refl
varied-insert_name c (d ∷ []) h = ground (arith, text_eq_symm c d)
varied-insert_name c (d ∷ (e ∷ names)) h =
    ground (arith, h, varied-insert_name c (e ∷ names), text_eq_symm c d)

varied-clusters_with :
    (table : List Location) (vmid : Text) → varied (clusters_with table vmid) ≡ true
unfolding clusters_with
varied-clusters_with [] vmid = refl
varied-clusters_with (l ∷ table) vmid = ground (
  arith,
  varied-insert_name l.cluster (clusters_with table vmid),
  varied-clusters_with table vmid,
)

-- an entry with this id is in the cluster, or anywhere
abbrev pub lies_in : Text → Text → List Location → Bool
lies_in vmid c [] = false
lies_in vmid c (l ∷ table) = (text_eq l.vmid vmid && text_eq c l.cluster) || lies_in vmid c table

abbrev pub is_discovered : Text → List Location → Bool
is_discovered vmid [] = false
is_discovered vmid (l ∷ table) = text_eq l.vmid vmid || is_discovered vmid table

text_in-clusters_with :
    (table : List Location) (vmid x : Text)
    → text_in x (clusters_with table vmid) ≡ lies_in vmid x table
unfolding clusters_with text_in
text_in-clusters_with [] vmid x = refl
text_in-clusters_with (l ∷ table) vmid x = ground (
  arith,
  text_in-insert_name x l.cluster (clusters_with table vmid),
  text_in-clusters_with table vmid x,
)

abbrev is_nil : List Text → Bool
is_nil [] = true
is_nil (x ∷ xs) = false

is_nil-insert_name : (c : Text) (names : List Text) → is_nil (insert_name c names) ≡ false
unfolding insert_name
is_nil-insert_name c [] = refl
is_nil-insert_name c (d ∷ names) = ground arith

is_nil-clusters_with :
    (table : List Location) (vmid : Text)
    → is_nil (clusters_with table vmid) ≡ not (is_discovered vmid table)
unfolding clusters_with
is_nil-clusters_with [] vmid = refl
is_nil-clusters_with (l ∷ table) vmid = ground (
  arith,
  is_nil-insert_name l.cluster (clusters_with table vmid),
  is_nil-clusters_with table vmid,
)

-- what the discovery alone says: the one cluster with this id, the default without any, and no
-- cluster if there are several
abbrev pub IsFound : List Location → VmSpec → Outcome Text → Type 0
IsFound table spec (ok c) =
    (all_in spec.vmid c table ≡ true)
    × ((lies_in spec.vmid c table ≡ true)
        ⊎ ((is_discovered spec.vmid table ≡ false) × (c ≡ default_cluster)))
IsFound table spec (raised e) = (c : Text) → all_in spec.vmid c table ≡ false

-- the node that the inventory names is in the cluster, or there is no such node
abbrev pub IsHint : List NodeInfo → VmSpec → Text → Type 0
IsHint nodes spec c = (is_empty spec.pve_node ≡ false) × (node_cluster nodes spec.pve_node ≡ some c)

abbrev pub NoHint : List NodeInfo → VmSpec → Type 0
NoHint nodes spec = (is_empty spec.pve_node ≡ true) ⊎ (node_cluster nodes spec.pve_node ≡ none)

-- the sources in their order: a later one counts only where the earlier ones say nothing
abbrev pub IsSettled : List NodeInfo → List Location → VmSpec → Outcome Text → Type 0
IsSettled nodes table spec r =
    ((is_empty spec.cluster ≡ false) × (r ≡ ok spec.cluster))
    ⊎ ((is_empty spec.cluster ≡ true) × (c : Text) × IsHint nodes spec c × (r ≡ ok c))
    ⊎ ((is_empty spec.cluster ≡ true) × NoHint nodes spec × IsFound table spec r)

module _ (nodes : List NodeInfo) (table : List Location) (spec : VmSpec) where
  resolve_found-IsFound :
      (found : List Text)
      → clusters_with table spec.vmid ≡ found
      → varied found ≡ true
      → IsFound table spec (resolve_found spec found)
  unfolding resolve_found text_in
  resolve_found-IsFound [] e v = (
    all_in-of_names spec.vmid _ table (λ x m. ground (arith, m, e)),
    inr (ground (arith, is_nil-clusters_with table spec.vmid, ap is_nil e), refl),
  )
  resolve_found-IsFound (c ∷ []) e v = (
    all_in-of_names spec.vmid c table (λ x m. ground (arith, m, e)),
    inl (ground (arith, text_in-clusters_with table spec.vmid c, ap (text_in c) e, text_eq_refl c)),
  )
  resolve_found-IsFound (c ∷ (d ∷ found)) e v = λ k. Bool-false _ (λ every. ground (
    arith,
    v,
    names-of_all_in spec.vmid k table every c (ground (arith, e, text_eq_refl c)),
    names-of_all_in spec.vmid k table every d (ground (arith, e, text_eq_refl d)),
    text_eq_iff c k,
    text_eq_iff d k,
    text_eq_iff c d,
  ))

  IsSettled-hint :
      (named : is_empty spec.cluster ≡ true) (hint : Option Text)
      → ((c : Text) → hint ≡ some c → IsHint nodes spec c)
      → (hint ≡ none → NoHint nodes spec)
      → IsSettled nodes table spec
          (elim hint [ some c ↦ ok c | none ↦ resolve_found spec (clusters_with table spec.vmid) ])
  IsSettled-hint unnamed none hint no_hint = inr (
      inr (
        unnamed,
        no_hint refl,
        resolve_found-IsFound (clusters_with table spec.vmid) refl
            (varied-clusters_with table spec.vmid),
      ))
  IsSettled-hint unnamed (some c) hint no_hint = inr (inl (unnamed, c, hint c refl, refl))

  hinted-cases :
      (b : Bool)
      → is_empty spec.pve_node ≡ b
      → (o : Option Text) → node_cluster nodes spec.pve_node ≡ o
      → ((c : Text) → (if b then none else o) ≡ some c → IsHint nodes spec c)
        × ((if b then none else o) ≡ none → NoHint nodes spec)
  hinted-cases true e o f = (λ c h. elim (none_is_not_some c h) [ ], λ h. inl e)
  hinted-cases false e o f = (λ c h. (e, f ∙ h), λ h. inr (f ∙ h))

  IsSettled-if :
      (b : Bool)
      → is_empty spec.cluster ≡ b
      → (r : Outcome Text) → (is_empty spec.cluster ≡ true → IsSettled nodes table spec r)
      → IsSettled nodes table spec (if not b then ok spec.cluster else r)
  IsSettled-if true e r h = h e
  IsSettled-if false e r h = inl (e, refl)

  -- The cluster of a VM is never guessed. If the inventory names a cluster for the VM, it is that
  -- one. Else, if the inventory names a node of known cluster for the VM, it is the cluster of
  -- that node. Else, if the discovery found the VM's id, it is the one cluster in which every
  -- entry with this id lies, and if it found none it is the default cluster; only there the
  -- resolution can fail, and then no cluster has all the entries with this id.
  pub resolve_vm_cluster-IsSettled :
      IsSettled nodes table spec (resolve_vm_cluster nodes table spec)
  unfolding resolve_vm_cluster
  resolve_vm_cluster-IsSettled =
      let cases =
        hinted-cases (is_empty spec.pve_node) refl (node_cluster nodes spec.pve_node) refl in
      IsSettled-if (is_empty spec.cluster) refl _
        (λ unnamed. IsSettled-hint unnamed (hinted nodes spec) cases.0 cases.1)
