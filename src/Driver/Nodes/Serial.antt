-- ===== src/Driver/Nodes/Serial.antt =====
-- The node phase of proxmox_fleet/driver.py takes the nodes in order and stops at a failure.
use proxmox_management.Prelude.{
  Text, Bool, true, false, not, ◌||◌, List, [], ◌∷◌, ◌++◌, append-nil, Option, ◌≡◌, refl, sym, ap,
  ◌∙◌, arith, if◌then◌else◌, codes,
}
use proxmox_management.Flow.{Env, Outcome, ok}
use proxmox_management.Node.{is_nil}
use proxmox_management.Node.Manager.{run_manager_update-modest}
use proxmox_management.Driver.{fold_outcome}
use proxmox_management.Driver.Locating.{NodeInfo}
use proxmox_management.Driver.Nodes.{
  NodeSettings, NodeVars, StatusItem, nothing_visited, put_node, update_nodes, update_manager_too,
  run_node_phase, limited, runs_manager, manager_config,
}
use proxmox_management.Driver.Nodes.Counting.{
  and_then-ok, names, recorded_names, fold_outcome-recorded, fold_outcome-keeps,
  fold_outcome-second, at_most,
}
use proxmox_management.Driver.Nodes.Loop.{IsRecorded, update_nodes-Passed}

module _ (settings : NodeSettings) (outside : List Text → Text → Env)
    (status : List Text → Text → Option (List StatusItem)) where
  -- the names of the nodes to update, and of the manager when it runs
  abbrev pub selected : List NodeInfo → List Text
  selected inventory =
      if settings.include_nodes then names (limited settings.limit inventory) else []

  abbrev pub manager_name : List Text
  manager_name = if runs_manager settings then codes "Ansible-Manager" ∷ [] else []

  -- how the phase ended
  pub record IsSerial (inventory : List NodeInfo) (v : NodeVars) : Type 0 where
    pub left : List Text
    pub in_order : v.visited ++ left ≡ selected inventory
    pub recorded : recorded_names v.state.node ≡ v.visited ++ manager_name
    pub complete : (v.state.failed || is_nil left) ≡ true
    pub few : at_most (if runs_manager settings then 2 else 1) v.state.errors ≡ true

  -- behind the manager's turn
  record Managed (v : NodeVars) (r : Outcome NodeVars) (b : Bool) : Type 0 where
    after : NodeVars
    returned : r ≡ ok after
    same : after.visited ≡ v.visited
    recorded :
        recorded_names after.state.node
        ≡ v.visited ++ (if b then codes "Ansible-Manager" ∷ [] else [])
    keeps : (not v.state.failed || after.state.failed) ≡ true
    few : at_most (if b then 2 else 1) after.state.errors ≡ true

  in_case :
      (v : NodeVars) (m n : Outcome NodeVars) (b : Bool)
      → Managed v m true
      → Managed v n false
      → Managed v (if b then m else n) b
  in_case v m n true p q = p
  in_case v m n false p q = q

  update_manager-Managed :
      (v : NodeVars)
      → IsRecorded settings outside status v
      → at_most 1 v.state.errors ≡ true
      → Managed v (update_manager_too settings outside status v) (runs_manager settings)
  unfolding update_manager_too
  update_manager-Managed v h quiet =
      let (o, w, e, modestly, r, reported, named, agrees, either, founded) =
        run_manager_update-modest (manager_config settings)
          (outside v.visited (codes "localhost")) in
      in_case v _ _ (runs_manager settings)
        (and_then-ok _ _ (λ x. Managed v x true) o (ap (λ x. x.0) e)
          (record {
            after = record v { state = fold_outcome put_node o [] false v.state };
            returned = refl;
            same = refl;
            recorded =
                fold_outcome-recorded o r _ v.state reported named
                ∙ ap (λ xs. xs ++ codes "Ansible-Manager" ∷ []) h;
            keeps = fold_outcome-keeps o v.state;
            few = fold_outcome-second o v.state quiet;
          }))
        (record {
          after = v;
          returned = refl;
          same = refl;
          recorded = h ∙ sym (append-nil v.visited);
          keeps = ground arith;
          few = quiet;
        })

  -- behind the nodes
  record Begun (chosen : List Text) (r : Outcome NodeVars) : Type 0 where
    after : NodeVars
    returned : r ≡ ok after
    records : IsRecorded settings outside status after
    left : List Text
    in_order : after.visited ++ left ≡ chosen
    complete : (after.state.failed || is_nil left) ≡ true
    few : at_most 1 after.state.errors ≡ true

  begin :
      (nodes : List NodeInfo) (b : Bool)
      → Begun (if b then names nodes else []) (
          if b
          then update_nodes settings outside status nodes nodes nothing_visited
          else ok nothing_visited)
  begin nodes true =
      let p = update_nodes-Passed settings outside status nodes nodes nothing_visited refl refl in
      record {
        after = p.after;
        returned = p.returned;
        records = p.records;
        left = p.left;
        in_order = p.in_order;
        complete = p.complete;
        few = p.few;
      }
  begin nodes false = record {
    after = nothing_visited;
    returned = refl;
    records = refl;
    left = [];
    in_order = refl;
    complete = refl;
    few = refl;
  }

  -- The node phase never raises. The nodes that it visits are the first ones of those that are
  -- selected, in their order; when it leaves one out it reports a failure. The nodes add at most
  -- one error, since the first failure that is not a skip ends the loop, and the manager at most
  -- one more. Its records are one for each node visited, in that order and under its name, and
  -- behind them that of the manager exactly when the manager is included and the limit is unset or
  -- names it.
  pub run_node_phase-IsSerial :
      (inventory : List NodeInfo)
      → (v : NodeVars) × (run_node_phase settings outside status inventory ≡ ok v)
        × IsSerial inventory v
  unfolding run_node_phase
  run_node_phase-IsSerial inventory =
      let p = begin (limited settings.limit inventory) settings.include_nodes in
      let q = update_manager-Managed p.after p.records p.few in
      (
        q.after,
        and_then-ok _ _ (λ x. x ≡ ok q.after) p.after p.returned q.returned,
        record {
          left = p.left;
          in_order = ap (λ xs. xs ++ p.left) q.same ∙ p.in_order;
          recorded = q.recorded ∙ ap (λ xs. xs ++ manager_name) (sym q.same);
          complete = ground (arith, p.complete, q.keeps);
          few = q.few;
        },
      )
