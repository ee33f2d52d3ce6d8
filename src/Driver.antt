-- ===== src/Driver.antt =====
-- proxmox_fleet/driver.py: what all phases do with the outcomes of their hosts, and the waves of a
-- phase with canaries. `run_vm_phase` and `run_remote_phase` spell the same waves out; what
-- differs between them is the record `Phase`. The local `state` of a phase is a variable of its
-- world, beside the hosts that were handed to a worker so far, in order.
pub mod Locating
pub mod Phases
pub mod Folding
pub mod Soaking
pub mod Staged
pub mod Staging
pub mod Accounting
pub mod Nodes
pub mod Canaries
pub mod Examples
use proxmox_management.Prelude.{
  ℕ, Text, Bool, true, false, not, ◌||◌, List, [], ◌∷◌, ◌++◌, Option, none, some, map, ◌*◌, ltb,
  if◌then◌else◌, codes, is_empty, take,
}
use proxmox_management.Flow.{
  World, Exec, Exn, Outcome, ok, raised, Env, pure, ◌>>=◌, ◌>>◌, attempt, pause, assign, look,
  when◌then◌, Payload,
}
use proxmox_management.Flow.Packages.{kuma_healthy}
use proxmox_management.Orchestration.{Triple, triple_of, poll_until}
use proxmox_management.Records.{FlowOutcome, ErrorEntry, FleetState, record_of_error}

abbrev pub option_list : {A : Type 0} → Option A → List A
option_list none = []
option_list (some a) = a ∷ []

-- `bucket.append` of the record lists of a state
abbrev pub append_report :
    {R : Type 0} → (R → FleetState → FleetState) → Option R → FleetState → FleetState
append_report put none s = s
append_report put (some r) s = put r s

-- `errors` and `attempted` are the attributes that only the outcome of a container has
unfoldable pub fold_outcome :
    {R : Type 0}
    → (R → FleetState → FleetState)
    → FlowOutcome R
    → List ErrorEntry
    → Bool
    → FleetState
    → FleetState
fold_outcome put outcome errors attempted s =
    let s' = append_report put outcome.report s in
    record s' {
      changed = outcome.changed || s'.changed;
      failed = outcome.failed || s'.failed;
      housekeeping_attempted = attempted || s'.housekeeping_attempted;
      errors = s'.errors ++ (option_list outcome.error ++ errors);
      warnings = s'.warnings ++ outcome.warnings;
    }

unfoldable pub merge_state : FleetState → FleetState → FleetState
merge_state dst src = record {
  lxc = dst.lxc ++ src.lxc;
  vm = dst.vm ++ src.vm;
  remote = dst.remote ++ src.remote;
  node = dst.node ++ src.node;
  custom = dst.custom ++ src.custom;
  errors = dst.errors ++ src.errors;
  warnings = dst.warnings ++ src.warnings;
  changed = dst.changed || src.changed;
  failed = dst.failed || src.failed;
  housekeeping_attempted = dst.housekeeping_attempted || src.housekeeping_attempted;
}

-- The pool hands each item to one worker, the results come in the order of the items, and an
-- exception is a result. The workers share no state.
unfoldable pub run_concurrent : {T R : Type 0} → List T → (T → Outcome R) → List (Triple T R)
run_concurrent items fn = map (λ x. triple_of x (fn x)) items

-- the settings of the soak
pub record Soak : Type 0 where
  pub canary_soak_minutes : ℕ
  pub kuma_url : Text
  pub kuma_health_check_retries : ℕ
  pub kuma_health_check_delay : ℕ

abbrev pub unhealthy : Text → Exn → Text
unhealthy token e = codes "canary " ++ (token ++ (codes " unhealthy after soak: " ++ e.message))

module _ {V : Type 0} (env : Env) (soak : Soak) (monitor_map : Text → Text) where
  abbrev pub poll_monitor : Text → Exec V Payload
  poll_monitor monitor_id =
      poll_until env (kuma_healthy monitor_id) soak.kuma_health_check_retries
        soak.kuma_health_check_delay

  unfoldable pub after_poll : Text → Exec V (Option Text) → Outcome Payload → Exec V (Option Text)
  after_poll token others (ok payload) = others
  after_poll token others (raised e) = pure (some (unhealthy token e))

  -- the loop over the tokens
  unfoldable pub soak_each : List Text → Exec V (Option Text)
  soak_each [] = pure none
  soak_each (token ∷ tokens) =
      let others = soak_each tokens in
      if is_empty (monitor_map token)
      then others
      else (attempt (poll_monitor (monitor_map token)) >>= after_poll token others)

  unfoldable pub soak_canaries : List Text → Exec V (Option Text)
  soak_canaries tokens =
      (when ltb 0 soak.canary_soak_minutes then pause (soak.canary_soak_minutes * 60))
      >> (if is_empty soak.kuma_url then pure none else soak_each tokens)

pub record PhaseVars (H : Type 0) : Type 0 where
  pub state : FleetState
  pub started : List H

-- what a phase with canaries is made of, and what its bucket does to a state
pub record Phase (H R : Type 0) : Type 0 where
  pub name : H → Text
  pub is_canary : H → Bool
  pub put : R → FleetState → FleetState
  pub bucket : FleetState → List R
  -- the record of a host whose wave was aborted
  pub skipped : H → R
  -- the texts of its errors
  pub task : Text
  pub canary_failed : Text
  pub soak_host : Text
  pub dry_run : Bool
  pub soak : Soak
  pub kuma_map : Text → Text
  -- `_run_one`, in view of the hosts that were handed to a worker in earlier waves
  pub run_one : List H → H → Outcome (FlowOutcome R)

-- CANARY_SKIP_STATUS
abbrev pub canary_skip_status : Text
canary_skip_status = codes "SKIPPED (canary failed)"

unfoldable pub partition_by : {H : Type 0} → (H → Bool) → List H → List H
partition_by test [] = []
partition_by test (h ∷ hosts) =
    let others = partition_by test hosts in if test h then h ∷ others else others

abbrev pub is_nil : {H : Type 0} → List H → Bool
is_nil [] = true
is_nil (h ∷ hosts) = false

module _ {H R : Type 0} (phase : Phase H R) where
  -- one iteration of the loop over the results of a wave
  unfoldable pub fold_result : Text → Option (FlowOutcome R) → Option Exn → FleetState → FleetState
  fold_result host (some outcome) error s = fold_outcome phase.put outcome [] false s
  fold_result host none (some e) s = record s {
    failed = true;
    errors = s.errors ++ (record_of_error host phase.task e ∷ []);
  }
  fold_result host none none s = s

  unfoldable pub fold_results : List (Triple H (FlowOutcome R)) → FleetState → FleetState
  fold_results [] s = s
  fold_results (t ∷ results) s =
      fold_results results (fold_result (phase.name t.item) t.result t.error s)

  unfoldable pub note_wave : List H → PhaseVars H → PhaseVars H
  note_wave wave v = record {
    state = fold_results (run_concurrent wave (phase.run_one v.started)) v.state;
    started = v.started ++ wave;
  }

  unfoldable pub run_wave : List H → Exec (PhaseVars H) (Unit {0})
  run_wave wave = assign (note_wave wave)

  -- the error of a soak that did not pass
  unfoldable pub note_soak : Option Text → PhaseVars H → PhaseVars H
  note_soak none v = v
  note_soak (some abort) v = record v {
    state = record v.state {
      failed = true;
      errors =
          v.state.errors
          ++ (record { host = phase.soak_host; task = codes "canary soak"; error = take 300 abort }
              ∷ []);
    };
  }

  unfoldable pub put_skipped : List H → FleetState → FleetState
  put_skipped [] s = s
  put_skipped (h ∷ hosts) s = put_skipped hosts (phase.put (phase.skipped h) s)

  unfoldable pub note_skipped : List H → PhaseVars H → PhaseVars H
  note_skipped rest v = record v { state = put_skipped rest v.state }

  abbrev pub canaries : List H → List H
  canaries hosts = partition_by phase.is_canary hosts

  abbrev pub others : List H → List H
  others hosts = partition_by (λ h. not (phase.is_canary h)) hosts

  module _ (env : Env) where
    unfoldable pub soak_wave : List H → Exec (PhaseVars H) (Option Text)
    soak_wave canary =
        soak_canaries env phase.soak phase.kuma_map (map phase.name canary) >>= λ abort.
        assign (note_soak abort) >> pure abort

    -- the reason to abort behind the canary wave
    unfoldable pub canary_gate : List H → Exec (PhaseVars H) (Option Text)
    canary_gate canary = look >>= λ v.
        if v.state.failed
        then pure (some phase.canary_failed)
        else if phase.dry_run
        then pure none
        else soak_wave canary

    unfoldable pub after_gate : List H → Option Text → Exec (PhaseVars H) (Unit {0})
    after_gate rest none = run_wave rest
    after_gate rest (some abort) = assign (note_skipped rest)

    unfoldable pub run_staged : List H → List H → Exec (PhaseVars H) (Unit {0})
    run_staged canary rest =
        run_wave canary >> (canary_gate canary >>= λ abort. after_gate rest abort)

    unfoldable pub run_waves : List H → Exec (PhaseVars H) (Unit {0})
    run_waves hosts =
        if is_nil (canaries hosts) || is_nil (others hosts)
        then run_wave hosts
        else run_staged (canaries hosts) (others hosts)

abbrev pub phase_start : {H : Type 0} → FleetState → World (PhaseVars H)
phase_start state = record {
  log = [];
  vars = record { state = state; started = [] };
  last_result = none;
}
