-- ===== src/Driver/Nodes/Loop.antt =====
-- The loop over the nodes in `run_node_phase` of proxmox_fleet/driver.py.
use proxmox_management.Prelude.{
  Text, Bool, true, false, not, ◌&&◌, ◌||◌, List, [], ◌∷◌, ◌++◌, append_assoc, Option, some, ◌≡◌,
  refl, ap, ◌∙◌, arith, if◌then◌else◌,
}
use proxmox_management.Flow.{Env, Outcome, ok}
use proxmox_management.Records.{NodeRecord}
use proxmox_management.Node.{has_error, NodeFlowOutcome, is_nil}
use proxmox_management.Node.Guarantees.{run_node_update-lawful}
use proxmox_management.Driver.{fold_outcome}
use proxmox_management.Driver.Locating.{NodeInfo}
use proxmox_management.Driver.Nodes.{
  NodeSettings, NodeVars, StatusItem, is_down, note_node, update_nodes, config_of,
}
use proxmox_management.Driver.Nodes.Counting.{
  and_then-ok, names, recorded_names, recorded_names-snoc, if-keeps, fold_outcome-recorded,
  fold_outcome-failed, at_most, none_at_most, fold_outcome-few, fold_outcome-clean,
}

module _ (settings : NodeSettings) (outside : List Text → Text → Env)
    (status : List Text → Text → Option (List StatusItem)) where
  abbrev pub IsRecorded : NodeVars → Type 0
  IsRecorded v = recorded_names v.state.node ≡ v.visited

  -- behind the visit of one node
  record Visited (v : NodeVars) (name : Text) (v' : NodeVars) (goes_on : Bool) : Type 0 where
    records : IsRecorded v'
    one_more : v'.visited ≡ v.visited ++ name ∷ []
    stops : (v'.state.failed || goes_on) ≡ true
    few : at_most 1 v'.state.errors ≡ true
    clean : (not goes_on || is_nil v'.state.errors) ≡ true

  note_node-Visited :
      (nodes : List NodeInfo) (info : NodeInfo) (o : NodeFlowOutcome) (v : NodeVars)
      (r : NodeRecord)
      → o.report ≡ some r
      → r.node_name ≡ info.name
      → IsRecorded v
      → o.failed ≡ has_error o.error
      → is_nil v.state.errors ≡ true
      → Visited v info.name
          (note_node settings outside status nodes info o v).0
          (note_node settings outside status nodes info o v).1
  unfolding note_node fold_outcome
  note_node-Visited nodes info o v r e n h agrees quiet =
      if-keeps (λ (x : NodeVars × Bool). Visited v info.name x.0 x.1)
        (o.failed && is_down settings outside status nodes v.visited info o.error) _ _
        (record {
          records = recorded_names-snoc v.state.node _ ∙ ap (λ xs. xs ++ info.name ∷ []) h;
          one_more = refl;
          stops = ground arith;
          few = none_at_most v.state.errors quiet;
          clean = ground (arith, quiet);
        })
        (record {
          records =
              fold_outcome-recorded o r info.name v.state e n ∙ ap (λ xs. xs ++ info.name ∷ []) h;
          one_more = refl;
          stops = fold_outcome-failed o v.state;
          few = fold_outcome-few o v.state quiet;
          clean = fold_outcome-clean o v.state agrees quiet;
        })

  -- behind the loop over some nodes
  pub record Passed (nodes : List NodeInfo) (v : NodeVars) (r : Outcome NodeVars) : Type 0 where
    pub after : NodeVars
    pub returned : r ≡ ok after
    pub records : IsRecorded after
    pub left : List Text
    pub in_order : after.visited ++ left ≡ v.visited ++ names nodes
    pub complete : (after.state.failed || is_nil left) ≡ true
    pub few : at_most 1 after.state.errors ≡ true

  next :
      (v : NodeVars) (info : NodeInfo) (rest : List NodeInfo) (loop : NodeVars → Outcome NodeVars)
      → ((v' : NodeVars) → IsRecorded v' → is_nil v'.state.errors ≡ true → Passed rest v' (loop v'))
      → (v' : NodeVars) (b : Bool) → Visited v info.name v' b
      → Passed (info ∷ rest) v (if b then loop v' else ok v')
  next v info rest loop ih v' true t =
      let p = ih v' t.records (ground (arith, t.clean)) in
      record {
        after = p.after;
        returned = p.returned;
        records = p.records;
        left = p.left;
        in_order =
            p.in_order
            ∙ (ap (λ xs. xs ++ names rest) t.one_more
                ∙ append_assoc v.visited (info.name ∷ []) (names rest));
        complete = p.complete;
        few = p.few;
      }
  next v info rest loop ih v' false t = record {
    after = v';
    returned = refl;
    records = t.records;
    left = names rest;
    in_order =
        ap (λ xs. xs ++ names rest) t.one_more
        ∙ append_assoc v.visited (info.name ∷ []) (names rest);
    complete = ground (arith, t.stops);
    few = t.few;
  }

  pub update_nodes-Passed :
      (all nodes : List NodeInfo) (v : NodeVars)
      → IsRecorded v
      → is_nil v.state.errors ≡ true
      → Passed nodes v (update_nodes settings outside status all nodes v)
  unfolding update_nodes
  update_nodes-Passed all [] v h quiet = record {
    after = v;
    returned = refl;
    records = h;
    left = [];
    in_order = refl;
    complete = ground arith;
    few = none_at_most v.state.errors quiet;
  }
  update_nodes-Passed all (info ∷ rest) v h quiet =
      let (o, w, e, lawfully, r, reported, named, agrees, done) =
        run_node_update-lawful (config_of settings info) (outside v.visited info.name) in
      and_then-ok _ _ (Passed (info ∷ rest) v) o (ap (λ x. x.0) e) (
        next v info rest _ (update_nodes-Passed all rest)
          (note_node settings outside status all info o v).0
          (note_node settings outside status all info o v).1
          (note_node-Visited all info o v r reported named h agrees quiet))
