-- ===== src/Node/Guarantees.antt =====
-- What every run of `run_node_update` in proxmox_fleet/flows/node.py guarantees, whatever the outside
-- answers or raises.
use proxmox_management.Prelude.{
  Text, Bool, true, false, ◌&&◌, ◌||◌, List, [], ◌∷◌, ◌++◌, Option, none, some, ◌≡◌, refl, ap, sym,
  ◌∙◌, arith, if◌then◌else◌,
}
use proxmox_management.Flow.{ok, World, Env, Event}
use proxmox_management.Flow.Discipline.{upgraded}
use proxmox_management.Flow.Triples.{
  Meets, Meets-bind, Meets-if, Meets-catching, Meets-look, Meets-assign, returns,
}
use proxmox_management.Records.{NodeRecord, ErrorEntry}
use proxmox_management.Node.{
  NodeConfig, NodeFlowOutcome, is_nil, has_error, note_exception, note_warnings, note_report,
  may_reboot, report_node, update_node, run_node_update, node_start,
}
use proxmox_management.Node.Diagnostics.{Assessment}
use proxmox_management.Node.Discipline.{lawful}
use proxmox_management.Node.Steps.{
  Obeys, Known, Upgraded, Assessed, Back, probe_manager-Meets, upgrade_node-Meets, diagnose-Meets,
  reboot_node-Meets,
}

is_nil-++ : (xs ys : List Text) → is_nil (xs ++ ys) ≡ (is_nil xs && is_nil ys)
is_nil-++ [] ys = refl
is_nil-++ (x ∷ xs) ys = refl

-- errors at the end are a failure with an error
told :
    (failed : Bool) (error : Option ErrorEntry) (new : ErrorEntry) (errors : List Text)
    → failed ≡ false
    → (is_nil errors && has_error error) ≡ false
    → (if is_nil errors then failed else true)
      ≡ has_error (if is_nil errors || has_error error then error else some new)
told failed error new [] h e = h ∙ sym e
told failed none new (x ∷ xs) h e = refl
told failed (some old) new (x ∷ xs) h e = refl

module _ (cfg : NodeConfig) where
  -- the outcome of a run that left this log
  pub record Ended (o : NodeFlowOutcome) (log : List Event) : Type 0 where
    pub obeys : lawful cfg log ≡ true
    pub named : (r : NodeRecord) × (o.report ≡ some r) × (r.node_name ≡ cfg.node_name)
    pub agrees : o.failed ≡ has_error o.error
    pub done : (o.failed || (cfg.dry_run || upgraded log)) ≡ true

  abbrev Over : World NodeFlowOutcome → Type 0
  Over w = Ended w.vars w.log

  module _ (env : Env) (b : Bool) where
    report_node-Meets :
        (stdout : Text) (assessment : Assessment)
        → Meets
            (Assessed cfg b assessment)
            (report_node cfg env stdout b assessment)
            (λ _. Over)
            (Obeys cfg)
    unfolding report_node note_report
    report_node-Meets stdout assessment =
        Meets-if (may_reboot cfg env assessment b) _ _
          (λ why.
            Meets-bind {R = Back cfg} _ _ (reboot_node-Meets cfg env b assessment why) (λ errors.
              Meets-assign _ (λ w h. record {
                obeys = h.obeys;
                named = (_, refl, refl);
                agrees =
                    told w.vars.failed w.vars.error _ (assessment.errors ++ errors) h.unfailed
                      (ground (arith, h.has, is_nil-++ assessment.errors errors));
                done = ground (arith, h.done);
              })))
          (λ _. Meets-assign _ (λ w h. record {
            obeys = h.after.before.obeys;
            named = (_, refl, refl);
            agrees =
                told w.vars.failed w.vars.error _ assessment.errors h.after.before.unfailed
                  (ground (arith, ap has_error h.after.before.no_error));
            done = ground (arith, h.after.done);
          }))

  module _ (env : Env) where
    update_node-Meets : Meets (Known cfg false) (update_node cfg env) (λ _. Over) (Obeys cfg)
    unfolding update_node note_warnings
    update_node-Meets = Meets-bind {R = Known cfg} _ _ (probe_manager-Meets cfg env) (λ b.
        Meets-bind {R = λ _. Upgraded cfg b} _ _ (upgrade_node-Meets cfg env b) (λ stdout.
          Meets-bind {R = Assessed cfg b} _ _ (diagnose-Meets cfg env b _) (λ assessment.
            Meets-bind {R = λ _. Assessed cfg b assessment} _ _
              (Meets-assign _ (λ w h. record {
                after = record {
                  before = record {
                    obeys = h.after.before.obeys;
                    manager = h.after.before.manager;
                    unfailed = h.after.before.unfailed;
                    no_error = h.after.before.no_error;
                  };
                  done = h.after.done;
                };
                clear = h.clear;
              }))
              (λ _. report_node-Meets env b stdout assessment))))

    run-Meets : Meets (Known cfg false) (run_node_update cfg env) (λ o w. Ended o w.log) (λ _. ⊥)
    unfolding run_node_update note_exception
    run-Meets =
        Meets-bind {R = λ _. Over} _ _
          (Meets-catching {F = Obeys cfg} _ _ update_node-Meets (λ e.
            Meets-assign _
              (λ w h. record { obeys = h; named = (_, refl, refl); agrees = refl; done = refl })))
          (λ _. Meets-look (λ w h. h))

    Known-start : Known cfg false node_start
    Known-start = record { obeys = refl; manager = refl; unfailed = refl; no_error = refl }

    -- The flow of a node never raises, and everything that it does is permitted when it does it:
    -- upgrades in the run's mode only, the diagnostics only behind an upgrade that ended well or in
    -- a dry run, and the reboot only in a real run behind such an upgrade, when the latest
    -- diagnostics named a reason for it and no error, reboots are allowed and no probe found the
    -- manager's container on the node; the wait for the proxy's port and the check behind the
    -- reboot only after the reboot was asked for. The run ends with a record of the
    -- node's name, it reports a failure
    -- exactly when it reports an error, and where it reports none a real run has upgraded.
    pub run_node_update-lawful :
        (o : NodeFlowOutcome) × (w : World NodeFlowOutcome) × (run_node_update cfg env node_start
          ≡ (ok o, w))
        × (lawful cfg w.log ≡ true)
        × (r : NodeRecord) × (o.report ≡ some r)
        × (r.node_name ≡ cfg.node_name)
        × (o.failed ≡ has_error o.error)
        × ((o.failed || (cfg.dry_run || upgraded w.log)) ≡ true)
    run_node_update-lawful =
        let (o, w, e, t) = returns _ node_start run-Meets Known-start in
        (o, w, e, t.obeys, t.named.0, t.named.1, t.named.2, t.agrees, t.done)
