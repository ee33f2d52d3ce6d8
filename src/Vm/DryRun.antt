-- ===== src/Vm/DryRun.antt =====
-- A dry run of `run_vm_update` in proxmox_fleet/flows/vm.py changes nothing.
use proxmox_management.Prelude.{true, false, List, [], ◌∷◌, ◌≡◌, refl, arith, subst, sym}
use proxmox_management.Flow.{
  Event, Call, ran, polled, reconciled, slept, run_shell, guest, detect_cmd, upgrade, Env, Outcome,
  PrimitiveResult, ok, raised,
}
use proxmox_management.Orchestration.Snapshots.{taken, takes}
use proxmox_management.Vm.{VmConfig, run_vm_update, first_world}
use proxmox_management.Vm.Discipline.{lawful, permitted, may_run, rolled_back, is_rollback}
use proxmox_management.Flow.Discipline.{upgraded, is_upgrade}
use proxmox_management.Vm.Guarantees.{read_only, all_read_only, run_vm_update-lawful}

record Quiet (log : List Event) : Type 0 where
  reads : all_read_only log ≡ true
  untaken : taken log ≡ false
  not_upgraded : upgraded log ≡ false
  not_back : rolled_back log ≡ false

module _ (cfg : VmConfig) (dry : cfg.dry_run ≡ true) where
  -- no permitted event of a dry run does anything but read
  record Calm (e : Event) : Type 0 where
    reads : read_only e ≡ true
    takes_none : takes e ≡ false
    upgrades_none : is_upgrade e ≡ false
    rolls_none : is_rollback e ≡ false

  Calm-call :
      (c : Call) (r : Outcome PrimitiveResult) (log : List Event)
      → may_run cfg log c ≡ true
      → Quiet log
      → Calm (ran c r)
  Calm-call (run_shell guest detect_cmd) r log fine h = record {
    reads = refl;
    takes_none = refl;
    upgrades_none = refl;
    rolls_none = refl;
  }
  Calm-call (run_shell guest (upgrade m d)) (ok r) log fine h = record {
    reads = ground (arith, dry, fine);
    takes_none = refl;
    upgrades_none = ground (arith, dry, fine);
    rolls_none = refl;
  }
  Calm-call (run_shell guest (upgrade m d)) (raised e) log fine h = record {
    reads = ground (arith, dry, fine);
    takes_none = refl;
    upgrades_none = refl;
    rolls_none = refl;
  }
  Calm-call _ r log fine h =
      let x : ⊥ = ground (arith, dry, fine, h.untaken, h.not_upgraded, h.not_back) in elim x [ ]

  Calm-event : (e : Event) (log : List Event) → permitted cfg log e ≡ true → Quiet log → Calm e
  Calm-event (ran c r) log fine h = Calm-call c r log fine h
  Calm-event (polled r) log fine h = let x : ⊥ = ground (arith, fine, h.not_upgraded) in elim x [ ]
  Calm-event (reconciled d r) log fine h = record {
    reads = ground (arith, dry, fine);
    takes_none = refl;
    upgrades_none = refl;
    rolls_none = refl;
  }
  Calm-event (slept n) log fine h = record {
    reads = refl;
    takes_none = refl;
    upgrades_none = refl;
    rolls_none = refl;
  }

  Quiet-event :
      (e : Event) (log : List Event) → permitted cfg log e ≡ true → Quiet log → Quiet (e ∷ log)
  Quiet-event e log fine h =
      let c = Calm-event e log fine h in
      record {
        reads = ground (arith, c.reads, h.reads);
        untaken = ground (arith, c.takes_none, h.untaken);
        not_upgraded = ground (arith, c.upgrades_none, h.not_upgraded);
        not_back = ground (arith, c.rolls_none, h.not_back);
      }

  Quiet-log : (log : List Event) → lawful cfg log ≡ true → Quiet log
  Quiet-log [] h = record { reads = refl; untaken = refl; not_upgraded = refl; not_back = refl }
  Quiet-log (e ∷ log) h = Quiet-event e log (ground (arith, h)) (Quiet-log log (ground (arith, h)))

-- In a dry run the VM flow only detects the package manager, simulates the upgrade, probes
-- Alloy and waits.
pub run_vm_update-all_read_only :
    (cfg : VmConfig) (env : Env)
    → cfg.dry_run ≡ true
    → all_read_only (run_vm_update cfg env (first_world cfg env)).1.log ≡ true
run_vm_update-all_read_only cfg env dry =
    let (o, w, e, l) = run_vm_update-lawful cfg env in
    subst (λ x. all_read_only x.1.log ≡ true) (sym e) (Quiet-log cfg dry w.log l).reads
