-- ===== src/Driver/Canaries.antt =====
-- What the second wave of the VM phase in proxmox_fleet/driver.py may rely on.
use proxmox_management.Prelude.{
  Text, Bool, true, false, ◌||◌, List, [], ◌∷◌, Option, ◌≡◌, refl, arith, ◌⊎◌, inl, inr, Bool-cases,
  if◌then◌else◌, subst, sym,
}
use proxmox_management.Flow.{◌>>=◌, look, pure, World, Event, Outcome, ok, raised, Env}
use proxmox_management.Flow.Discipline.{upgraded}
use proxmox_management.Records.{FlowOutcome, no_state, FleetState, VmRecord}
use proxmox_management.Window.{Moment}
use proxmox_management.Vm.{VmConfig, VmVars, VmFlowOutcome, run_vm_update, first_world}
use proxmox_management.Vm.Guarantees.{Reported, run_vm_update-Reported}
use proxmox_management.Driver.{Phase, PhaseVars, canaries, others, is_nil, run_waves, phase_start}
use proxmox_management.Driver.Folding.{IsBucket, fails, any_fails}
use proxmox_management.Driver.Staged.{IsStagedIf}
use proxmox_management.Driver.Staging.{run_waves-IsStaged}
use proxmox_management.Driver.Locating.{VmSpec, NodeInfo, Location, Resource, discover_vm_locations}
use proxmox_management.Driver.Phases.{
  Settings, is_open, and_then, locate_vm, vm_config, run_one_vm, vm_phase, is_canary_vm,
  run_vm_phase, selected_vms, is_none_left,
}
use proxmox_management.Driver.Accounting.{All, All-partition_by, All-none_other, All-nil}

All-fine :
    {H R : Type 0} (run : H → Outcome (FlowOutcome R)) (P : H → Type 0)
    → ((h : H) → fails (run h) ≡ false → P h)
    → (wave : List H) → any_fails run wave ≡ false
    → All P wave
All-fine run P each [] h = tt
All-fine run P each (a ∷ wave) h =
    (each a (ground (arith, h)), All-fine run P each wave (ground (arith, h)))

module _ (settings : Settings) (zone : Text → Moment) (nodes : List NodeInfo)
    (table : List Location) (outside : List VmSpec → VmSpec → Env) where
  -- what the VM flow did to a host of the first wave
  abbrev pub log_of : VmSpec → Text → List Event
  log_of v node_name =
      let cfg = vm_config settings zone nodes table v node_name in
      (run_vm_update cfg (outside [] v) (first_world cfg (outside [] v))).1.log

  -- its window was closed, or its packages were upgraded
  abbrev pub Updated : VmSpec → Type 0
  Updated v =
      (is_open zone settings.force_window v.maintenance_window ≡ false)
      ⊎ ((node_name : Text) × (locate_vm settings zone nodes table v ≡ ok node_name)
          × (upgraded (log_of v node_name) ≡ true))

  module _ (real : settings.vm_dry_run ≡ false) (packages : settings.alloy_only ≡ false) where
    Reported-upgraded :
        (cfg : VmConfig) (env : Env) (x : Outcome VmFlowOutcome × World VmVars)
        → cfg.dry_run ≡ false
        → cfg.alloy_only ≡ false
        → Reported cfg env x
        → fails x.0 ≡ false
        → upgraded x.1.log ≡ true
    Reported-upgraded cfg env (ok o, w) d a (inl s) fine = ground (arith, d, a, s.upgrade_done)
    Reported-upgraded cfg env (ok o, w) d a (inr f) fine = ground (arith, f.has_failed, fine)
    Reported-upgraded cfg env (raised e, w) d a h fine = elim h [ ]

    abbrev result_at : VmSpec → Text → Outcome VmFlowOutcome
    result_at v node_name =
        let cfg = vm_config settings zone nodes table v node_name in
        (run_vm_update cfg (outside [] v) (first_world cfg (outside [] v))).0

    Updated-of_located :
        (v : VmSpec) (r : Outcome Text)
        → locate_vm settings zone nodes table v ≡ r
        → fails (and_then r (result_at v)) ≡ false
        → Updated v
    Updated-of_located v (ok node_name) e fine =
        let cfg = vm_config settings zone nodes table v node_name in
        inr (
          node_name,
          e,
          Reported-upgraded cfg (outside [] v) _ real packages
              (run_vm_update-Reported cfg (outside [] v)) fine,
        )
    Updated-of_located v (raised x) e fine = cc

    Updated-of_fine :
        (v : VmSpec) → fails (run_one_vm settings zone nodes table outside [] v) ≡ false → Updated v
    unfolding run_one_vm
    Updated-of_fine v fine =
        elim (Bool-cases (is_open zone settings.force_window v.maintenance_window)) [
          | inl opened ↦
              Updated-of_located v (locate_vm settings zone nodes table v) refl (rw opened at fine)
          | inr closed ↦ inl closed
        ]

    abbrev phase_of : Phase VmSpec VmRecord
    phase_of = vm_phase settings zone nodes table outside

    abbrev AllCanaries : List VmSpec → Type 0
    AllCanaries started = All (λ v. is_canary_vm settings zone nodes table v ≡ true) started

    IsWave-Updated :
        (vms : List VmSpec)
        → (is_nil (canaries phase_of vms) || is_nil (others phase_of vms)) ≡ true
        → AllCanaries vms ⊎ All Updated (canaries phase_of vms)
    IsWave-Updated vms e = elim (Bool-cases (is_nil (canaries phase_of vms))) [
      | inl none_first ↦ inr (All-nil Updated _ none_first)
      | inr first ↦ inl (All-none_other _ vms (ground (arith, e, first)))
    ]

    IsStaged-Updated :
        (vms : List VmSpec) (w : World (PhaseVars VmSpec)) (b : Bool)
        → (is_nil (canaries phase_of vms) || is_nil (others phase_of vms)) ≡ b
        → IsStagedIf phase_of [] [] vms b w
        → AllCanaries w.vars.started ⊎ All Updated (canaries phase_of vms)
    IsStaged-Updated vms w true e h =
        subst (λ l. AllCanaries l ⊎ All Updated (canaries phase_of vms)) (sym h.started_all)
          (IsWave-Updated vms e)
    IsStaged-Updated vms w false e (inl h) = inr (
        All-fine (run_one_vm settings zone nodes table outside []) Updated Updated-of_fine
          (canaries phase_of vms) h.canaries_fine)
    IsStaged-Updated vms w false e (inr h) =
        inl (subst AllCanaries (sym h.started_canaries) (All-partition_by _ vms))

vm_laws :
    (settings : Settings) (zone : Text → Moment) (nodes : List NodeInfo) (table : List Location)
    (outside : List VmSpec → VmSpec → Env)
    → let phase = vm_phase settings zone nodes table outside in IsBucket phase.put phase.bucket
vm_laws settings zone nodes table outside = record {
  bucket-put = λ r s. refl;
  bucket-with_log = λ s c f a e w. refl;
  failed-put = λ r s. refl;
}

module _ (settings : Settings) (zone : Text → Moment) (query : Text → Option (List Resource))
    (outside : List VmSpec → VmSpec → Env) (env : Env) (nodes : List NodeInfo)
    (loaded : List VmSpec) where
  -- the VMs of a run and where they are
  abbrev pub vms_of : List VmSpec
  vms_of = selected_vms settings zone nodes [] loaded

  abbrev pub table_of : List Location
  table_of = if is_none_left settings zone vms_of then [] else discover_vm_locations query nodes

  abbrev pub final_of : Outcome FleetState × World (PhaseVars VmSpec)
  final_of = run_vm_phase settings zone query outside env nodes loaded (phase_start no_state)

  final-eq :
      (w : World (PhaseVars VmSpec))
      → run_waves (vm_phase settings zone nodes table_of outside) env vms_of (phase_start no_state)
        ≡ (ok tt, w)
      → final_of ≡ (ok w.vars.state, w)
  unfolding run_vm_phase ◌>>=◌ look pure
  final-eq w e = rw e

  -- The VM phase of a real run that is not for Alloy alone never raises. Either every VM that it
  -- started is a canary, or each canary was outside its maintenance window or was located and had
  -- its packages upgraded.
  pub run_vm_phase-Updated :
      settings.vm_dry_run ≡ false
      → settings.alloy_only ≡ false
      → (s : FleetState) × (w : World (PhaseVars VmSpec)) × (final_of ≡ (ok s, w))
        × (All (λ v. is_canary_vm settings zone nodes table_of v ≡ true) w.vars.started
            ⊎ All
                (Updated settings zone nodes table_of outside)
                (canaries (vm_phase settings zone nodes table_of outside) vms_of))
  run_vm_phase-Updated real packages =
      let (w, e, h) =
        run_waves-IsStaged (vm_phase settings zone nodes table_of outside)
          (vm_laws settings zone nodes table_of outside) env vms_of (phase_start no_state)
          (record { none_started = refl; unfailed = refl; holds = refl }) in
      (
        w.vars.state,
        w,
        final-eq w e,
        IsStaged-Updated settings zone nodes table_of outside real packages vms_of w _ refl h,
      )
