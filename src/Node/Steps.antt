-- ===== src/Node/Steps.antt =====
-- What holds between the steps of `run_node_update` in proxmox_fleet/flows/node.py, whatever the outside
-- answers or raises.
use proxmox_management.Prelude.{
  ℕ, suc, Text, Bool, true, false, not, ◌&&◌, ◌||◌, List, [], ◌∷◌, Option, none, some, ◌≡◌, refl,
  ap, arith, codes, is_empty, text_eq, strip, ◌∙◌, if◌then◌else◌,
}
use proxmox_management.Flow.{
  ran, slept, run_shell, guest, upgrade, apt, Outcome, ok, raised, World, PrimitiveResult, happens,
  Env, pure, raise,
}
use proxmox_management.Flow.Discipline.{upgraded, same_mode_refl}
use proxmox_management.Flow.Triples.{
  Meets, Meets-bind, Meets-pure, Meets-raise, Meets-if, Meets-assign, Meets-when, Meets-invoke,
  Meets-pause,
}
use proxmox_management.Orchestration.Retrying.{retry_loop-Meets}
use proxmox_management.Orchestration.{retry}
use proxmox_management.Records.{ErrorEntry}
use proxmox_management.Cluster.{cluster_agrees, split_qualified}
use proxmox_management.Node.{
  NodeConfig, NodeFlowOutcome, is_nil, went_wrong, classified, has_error, note_after, after_errors,
  probe_id, probe_manager, apt_once, apt_failed, upgrade_node, diagnose, check_after, settle_down,
  reboot_node, may_reboot,
}
use proxmox_management.Node.Diagnostics.{Assessment}
use proxmox_management.Node.Discipline.{lawful, manager_here, cleared, rebooted, wants_reboot}

has_error-after :
    (error : Option ErrorEntry) (new : ErrorEntry) (errors : List Text)
    → has_error error ≡ false
    → has_error (if is_nil errors then error else some new) ≡ not (is_nil errors)
has_error-after error new [] h = h
has_error-after error new (e ∷ errors) h = refl

module _ (cfg : NodeConfig) where
  abbrev pub Obeys : World NodeFlowOutcome → Type 0
  Obeys w = lawful cfg w.log ≡ true

  -- before the diagnostics
  pub record Known (is_manager : Bool) (w : World NodeFlowOutcome) : Type 0 where
    pub obeys : lawful cfg w.log ≡ true
    pub manager : manager_here w.log ≡ is_manager
    pub unfailed : w.vars.failed ≡ false
    pub no_error : w.vars.error ≡ none

  -- behind the upgrade
  pub record Upgraded (is_manager : Bool) (w : World NodeFlowOutcome) : Type 0 where
    pub before : Known is_manager w
    pub done : (cfg.dry_run || upgraded w.log) ≡ true

  -- behind the diagnostics
  pub record Assessed (is_manager : Bool) (assessment : Assessment) (w : World NodeFlowOutcome)
      : Type 0 where
    pub after : Upgraded is_manager w
    pub clear : cleared cfg w.log ≡ wants_reboot cfg assessment

  -- behind the reboot, with the errors of the check
  pub record Back (errors : List Text) (w : World NodeFlowOutcome) : Type 0 where
    pub obeys : lawful cfg w.log ≡ true
    pub unfailed : w.vars.failed ≡ false
    pub has : has_error w.vars.error ≡ not (is_nil errors)
    pub done : (cfg.dry_run || upgraded w.log) ≡ true
    pub restarted : rebooted w.log ≡ true

  module _ (env : Env) where
    probe_id-Meets :
        (id : Option Text × Text) → Meets (Known false) (probe_id cfg env id) Known Obeys
    unfolding probe_id
    probe_id-Meets (mgr_cluster, mgr_id) =
        Meets-if (cluster_agrees mgr_cluster cfg.cluster) _ _
          (λ _.
            Meets-bind {R = λ chk w. Known (text_eq (strip chk.stdout) (codes "0")) w} _ _
              (Meets-invoke env _
                (λ r w h. record {
                  obeys = ground (arith, h.obeys);
                  manager = ground (arith, h.manager);
                  unfailed = h.unfailed;
                  no_error = h.no_error;
                })
                (λ e w h. ground (arith, h.obeys)))
              (λ chk. Meets-pure _ (λ w h. h)))
          (λ _. Meets-pure false (λ w h. h))

    pub probe_manager-Meets : Meets (Known false) (probe_manager cfg env) Known Obeys
    unfolding probe_manager
    probe_manager-Meets =
        Meets-if (is_empty cfg.manager_lxc_id) _ _ (λ _. Meets-pure false (λ w h. h))
          (λ _. probe_id-Meets (split_qualified cfg.manager_lxc_id))

    module _ (b : Bool) where
      Known-upgrade :
          (r : Outcome PrimitiveResult) (w : World NodeFlowOutcome)
          → Known b w
          → Known b (happens (ran (run_shell guest (upgrade apt cfg.dry_run)) r) w)
      Known-upgrade r w h = record {
        obeys = ground (arith, same_mode_refl cfg.dry_run, h.obeys);
        manager = h.manager;
        unfailed = h.unfailed;
        no_error = h.no_error;
      }

      apt_once-Meets : Meets (Known b) (apt_once cfg env) (λ _. Upgraded b) (Known b)
      unfolding apt_once
      apt_once-Meets =
          Meets-bind {R = λ r w. Known b w × ((cfg.dry_run || (r.failed || upgraded w.log)) ≡ true)}
            _ _
            (Meets-invoke env _ (λ r w h. (Known-upgrade (ok r) w h, ground arith))
              (λ e w h. Known-upgrade (raised e) w h))
            (λ res.
              Meets-if (res.failed && not cfg.dry_run) (raise (apt_failed cfg res))
                (pure res.stdout) (λ bad. Meets-raise _ (λ w h. h.0))
                (λ good.
                  Meets-pure _ (λ w h. record { before = h.0; done = ground (arith, good, h.1) })))

      Known-slept : (k : ℕ) (w : World NodeFlowOutcome) → Known b w → Known b (happens (slept k) w)
      Known-slept k w h = record {
        obeys = h.obeys;
        manager = h.manager;
        unfailed = h.unfailed;
        no_error = h.no_error;
      }

      pub upgrade_node-Meets : Meets (Known b) (upgrade_node cfg env) (λ _. Upgraded b) Obeys
      unfolding upgrade_node retry
      upgrade_node-Meets =
          retry_loop-Meets _ (suc cfg.node_apt_retries) cfg.node_apt_retry_delay (λ _. true)
            (λ _. true) (λ _. Known b) (λ _. Known b) (λ _ _. Upgraded b) (λ _. apt_once-Meets)
            (λ _ w h. h) (λ _ w h. h.obeys) (λ _ r w _ h. h.before) (λ _ k w h. Known-slept k w h)
            (λ _ r w _ h. h) (λ w h. h.obeys) (suc cfg.node_apt_retries) none

      pub diagnose-Meets :
          (what : Text) → Meets (Upgraded b) (diagnose cfg env what false) (Assessed b) Obeys
      unfolding diagnose
      diagnose-Meets what =
          Meets-bind
            {R = λ r w.
              Upgraded b w
              × (cleared cfg w.log
                  ≡ (not (went_wrong r) && wants_reboot cfg (classified cfg false r)))}
            _ _
            (Meets-invoke env _
              (λ r w h. (
                record {
                  before = record {
                    obeys = ground (arith, h.before.obeys, h.done);
                    manager = h.before.manager;
                    unfailed = h.before.unfailed;
                    no_error = h.before.no_error;
                  };
                  done = h.done;
                },
                refl,
              ))
              (λ e w h. ground (arith, h.before.obeys, h.done)))
            (λ post.
              Meets-if (went_wrong post) _ _ (λ _. Meets-raise _ (λ w h. h.0.before.obeys))
                (λ fine. Meets-pure _ (λ w h. record {
                  after = h.0;
                  clear =
                      h.1 ∙ ap (λ x. not x && wants_reboot cfg (classified cfg false post)) fine;
                })))

    check_after-Meets :
        (assessment : Assessment) → Meets (Back []) (check_after cfg env assessment) Back Obeys
    unfolding check_after diagnose note_after
    check_after-Meets assessment =
        Meets-bind {R = λ _. Back []} _ _
          (Meets-bind {R = λ _. Back []} _ _
            (Meets-invoke env _
              (λ r w h. record {
                obeys = ground (arith, h.obeys, h.done, h.restarted);
                unfailed = h.unfailed;
                has = h.has;
                done = h.done;
                restarted = h.restarted;
              })
              (λ e w h. ground (arith, h.obeys, h.done, h.restarted)))
            (λ post.
              Meets-if (went_wrong post) _ _ (λ _. Meets-raise _ (λ w h. h.obeys))
                (λ _. Meets-pure _ (λ w h. h))))
          (λ after.
            Meets-bind {R = λ _. Back (after_errors cfg assessment after)} _ _
              (Meets-assign _ (λ w h. record {
                obeys = h.obeys;
                unfailed = h.unfailed;
                has = has_error-after w.vars.error _ (after_errors cfg assessment after) h.has;
                done = h.done;
                restarted = h.restarted;
              }))
              (λ _. Meets-pure _ (λ w h. h)))

    settle_down-Meets : Meets (Back []) (settle_down cfg env) (λ _. Back []) Obeys
    unfolding settle_down
    settle_down-Meets =
        Meets-bind {R = λ _. Back []} _ _
          (Meets-when _ _
            (λ _.
              Meets-bind {R = λ _. Back []} _ _
                (Meets-invoke env _
                  (λ r w h. record {
                    obeys = ground (arith, h.obeys, h.restarted);
                    unfailed = h.unfailed;
                    has = h.has;
                    done = h.done;
                    restarted = h.restarted;
                  })
                  (λ e w h. ground (arith, h.obeys, h.restarted)))
                (λ _. Meets-pure tt (λ w h. h)))
            (λ _ w h. h))
          (λ _. Meets-pause 15 (λ w h. record {
            obeys = h.obeys;
            unfailed = h.unfailed;
            has = h.has;
            done = h.done;
            restarted = h.restarted;
          }))

    module _ (b : Bool) (assessment : Assessment) where
      pub reboot_node-Meets :
          may_reboot cfg env assessment b ≡ true
          → Meets (Assessed b assessment) (reboot_node cfg env assessment) Back Obeys
      unfolding reboot_node
      reboot_node-Meets why =
          Meets-bind {R = λ _. Back []} _ _
            (Meets-invoke env _
              (λ r w h. record {
                obeys = reboot-permitted w h;
                unfailed = h.after.before.unfailed;
                has = ap has_error h.after.before.no_error;
                done = h.after.done;
                restarted = refl;
              })
              (λ e w h. reboot-permitted w h))
            (λ res.
              Meets-if (went_wrong res) _ _ (λ _. Meets-raise _ (λ w h. h.obeys))
                (λ _. Meets-bind {R = λ _. Back []} _ _ settle_down-Meets (λ _.
                  Meets-if cfg.nvidia_host _ _ (λ _. check_after-Meets assessment)
                    (λ _. Meets-pure [] (λ w h. h)))))
        where
          reboot-permitted :
              (w : World NodeFlowOutcome)
              → Assessed b assessment w
              → ((((upgraded w.log && cleared cfg w.log)
                      && (not cfg.dry_run && (cfg.node_auto_reboot && not (manager_here w.log))))
                    && lawful cfg w.log)
                  ≡ true)
          reboot-permitted w h =
              ground
                (arith, why, h.clear, h.after.done, h.after.before.manager, h.after.before.obeys)
