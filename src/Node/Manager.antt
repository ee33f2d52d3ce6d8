-- ===== src/Node/Manager.antt =====
-- What every run of `run_manager_update` in proxmox_fleet/flows/node.py guarantees, whatever the outside
-- answers or raises.
use proxmox_management.Prelude.{
  Bool, true, false, not, ◌&&◌, ◌||◌, List, [], ◌∷◌, none, ◌≡◌, refl, ap, sym, ◌∙◌, arith, some,
  codes,
}
use proxmox_management.Flow.{
  Event, ran, run_shell, guest, upgrade, apt, manager_reboot_required, ok, raised, World, Env,
  Outcome, PrimitiveResult, happens,
}
use proxmox_management.Flow.Discipline.{upgraded, same_mode, same_mode_refl}
use proxmox_management.Flow.Triples.{
  Meets, Meets-bind, Meets-catching, Meets-look, Meets-assign, Meets-invoke, returns,
}
use proxmox_management.Records.{NodeRecord}
use proxmox_management.Node.{
  NodeConfig, NodeFlowOutcome, has_error, note_exception, note_manager, update_manager,
  run_manager_update, node_start,
}

module _ (cfg : NodeConfig) where
  -- the manager only upgrades, in the run's mode, and looks for the reboot marker
  abbrev pub is_modest : Event → Bool
  is_modest (ran (run_shell guest (upgrade m dry)) r) = same_mode cfg.dry_run dry
  is_modest (ran (run_shell guest manager_reboot_required) r) = true
  is_modest _ = false

  abbrev pub modest : List Event → Bool
  modest [] = true
  modest (e ∷ log) = is_modest e && modest log

  record Quiet (w : World NodeFlowOutcome) : Type 0 where
    obeys : modest w.log ≡ true
    unfailed : w.vars.failed ≡ false
    no_error : w.vars.error ≡ none
    unchanged : w.vars.changed ≡ false

  -- the outcome of a run that left this log
  record Finished (o : NodeFlowOutcome) (log : List Event) : Type 0 where
    obeys : modest log ≡ true
    named : (r : NodeRecord) × (o.report ≡ some r) × (r.node_name ≡ codes "Ansible-Manager")
    agrees : o.failed ≡ has_error o.error
    founded : (not o.changed || (cfg.dry_run || upgraded log)) ≡ true
    either : (o.changed && o.failed) ≡ false

  abbrev Over : World NodeFlowOutcome → Type 0
  Over w = Finished w.vars w.log

  Quiet-upgrade :
      (r : Outcome PrimitiveResult) (w : World NodeFlowOutcome)
      → Quiet w
      → Quiet (happens (ran (run_shell guest (upgrade apt cfg.dry_run)) r) w)
  Quiet-upgrade r w h = record {
    obeys = ground (arith, same_mode_refl cfg.dry_run, h.obeys);
    unfailed = h.unfailed;
    no_error = h.no_error;
    unchanged = h.unchanged;
  }

  Quiet-look :
      (r : Outcome PrimitiveResult) (w : World NodeFlowOutcome)
      → Quiet w
      → Quiet (happens (ran (run_shell guest manager_reboot_required) r) w)
  Quiet-look r w h = record {
    obeys = h.obeys;
    unfailed = h.unfailed;
    no_error = h.no_error;
    unchanged = h.unchanged;
  }

  module _ (env : Env) where
    abbrev Behind : PrimitiveResult → World NodeFlowOutcome → Type 0
    Behind r w = Quiet w × ((r.failed || (cfg.dry_run || upgraded w.log)) ≡ true)

    update_manager-Meets : Meets Quiet (update_manager cfg env) (λ _. Over) Quiet
    unfolding update_manager note_manager
    update_manager-Meets =
        Meets-bind {R = Behind} _ _
          (Meets-invoke env _ (λ r w h. (Quiet-upgrade (ok r) w h, ground arith))
            (λ e w h. Quiet-upgrade (raised e) w h))
          (λ res.
            Meets-bind {R = λ _. Behind res} _ _
              (Meets-invoke env _ (λ r w h. (Quiet-look (ok r) w h.0, h.1))
                (λ e w h. Quiet-look (raised e) w h.0))
              (λ _. Meets-assign _ (λ w h. record {
                obeys = h.0.obeys;
                named = (_, refl, refl);
                agrees = h.0.unfailed ∙ sym (ap has_error h.0.no_error);
                founded = ground (arith, h.1);
                either = ground (arith, h.0.unfailed);
              })))

    run-Meets : Meets Quiet (run_manager_update cfg env) (λ o w. Finished o w.log) (λ _. ⊥)
    unfolding run_manager_update note_exception
    run-Meets =
        Meets-bind {R = λ _. Over} _ _
          (Meets-catching {F = Quiet} _ _ update_manager-Meets (λ e. Meets-assign _ (λ w h. record {
            obeys = h.obeys;
            named = (_, refl, refl);
            agrees = refl;
            founded = ground (arith, h.unchanged);
            either = ground (arith, h.unchanged);
          })))
          (λ _. Meets-look (λ w h. h))

    -- The manager's update never raises and always ends with a record of its name. It does nothing but start
    -- upgrades in the run's mode and look for the reboot marker, so it never reboots. It reports a
    -- failure exactly when it reports an error, never a failure together with a change, and a
    -- change in a real run only behind an upgrade that ended well.
    pub run_manager_update-modest :
        (o : NodeFlowOutcome) × (w : World NodeFlowOutcome) × (run_manager_update cfg env node_start
          ≡ (ok o, w))
        × (modest w.log ≡ true)
        × (r : NodeRecord) × (o.report ≡ some r)
        × (r.node_name ≡ codes "Ansible-Manager")
        × (o.failed ≡ has_error o.error)
        × ((o.changed && o.failed) ≡ false)
        × ((not o.changed || (cfg.dry_run || upgraded w.log)) ≡ true)
    run_manager_update-modest =
        let (o, w, e, t) =
          returns _ node_start run-Meets
            (record { obeys = refl; unfailed = refl; no_error = refl; unchanged = refl }) in
        (o, w, e, t.obeys, t.named.0, t.named.1, t.named.2, t.agrees, t.either, t.founded)
