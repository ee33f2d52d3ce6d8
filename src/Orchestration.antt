-- ===== src/Orchestration.antt =====
-- proxmox_fleet/orchestration.py, `poll_until` of proxmox_fleet/http.py and `snapshot_with_retry` of
-- proxmox_fleet/executor.py. A delay is a whole number of seconds. `exceptions` is the test
-- whether an exception is of one of the given classes.
pub mod Retrying
pub mod Polling
pub mod Snapshots
use proxmox_management.Prelude.{
  ℕ, zero, suc, ◌+◌, ◌++◌, Text, Bool, true, false, not, List, [], ◌∷◌, Option, none, some, ◌==◌,
  codes, decimal, ◌-◌, map, strip, is_empty, drop, length, if◌then◌else◌,
}
use proxmox_management.Flow.{
  World, Exec, Exn, Outcome, ok, raised, Env, PrimitiveResult, Payload, Call, snapshot, SnapState,
  present, absent, pure, raise, ◌>>=◌, ◌>>◌, attempt, catching, fetch, invoke, pause, keep_result,
  reset_result, look_result, when◌then◌,
}

pub record Triple (T R : Type 0) : Type 0 where
  pub item : T
  pub result : Option R
  pub error : Option Exn

abbrev pub triple_of : {T R : Type 0} → T → Outcome R → Triple T R
triple_of x (ok r) = record { item = x; result = some r; error = none }
triple_of x (raised e) = record { item = x; result = none; error = some e }

-- the loop goes on unless an exception was to abort it
abbrev pub goes_on : {R : Type 0} → Bool → Outcome R → Bool
goes_on abort_on_error (ok r) = true
goes_on abort_on_error (raised e) = not abort_on_error

unfoldable pub run_serial :
    {V T R : Type 0} → Bool → (T → Exec V R) → List T → Exec V (List (Triple T R))
run_serial abort_on_error fn [] = pure []
run_serial abort_on_error fn (x ∷ items) = attempt (fn x) >>= λ r.
    (if goes_on abort_on_error r then run_serial abort_on_error fn items else pure []) >>= λ out.
    pure (triple_of x r ∷ out)

-- what a round of `retry` makes of the outcome of `fn`
pub data Round (R : Type 0) : Type 0 where
  done : R → Round R
  again : Option Exn → Round R
  escapes : Exn → Round R

unfoldable pub judge : {R : Type 0} → (R → Bool) → (Exn → Bool) → Outcome R → Round R
judge until exceptions (ok r) = if until r then done r else again none
judge until exceptions (raised e) = if exceptions e then again (some e) else escapes e

-- last_exc
abbrev pub later : Option Exn → Option Exn → Option Exn
later (some e) last_exc = some e
later none last_exc = last_exc

abbrev pub never_satisfied : ℕ → Exn
never_satisfied attempts = record {
  type_name = codes "RuntimeError";
  step_name = none;
  message =
      codes "retry: condition never satisfied within " ++ (decimal attempts ++ codes " attempts");
  is_os_error = false;
}

module _ {V R : Type 0} where
  unfoldable pub give_up : ℕ → Option Exn → Exec V R
  give_up attempts (some e) = raise e
  give_up attempts none = raise (never_satisfied attempts)

  -- the end of a round, before `left` more rounds
  unfoldable pub next_round : ℕ → ℕ → (Option Exn → Exec V R) → Option Exn → Round R → Exec V R
  next_round delay left loop last_exc (done r) = pure r
  next_round delay left loop last_exc (escapes e) = raise e
  next_round delay left loop last_exc (again e) =
      (when not (left == 0) then pause delay) >> loop (later e last_exc)

  unfoldable pub retry_loop :
      Exec V R → ℕ → ℕ → (R → Bool) → (Exn → Bool) → ℕ → Option Exn → Exec V R
  retry_loop fn attempts delay until exceptions zero last_exc = give_up attempts last_exc
  retry_loop fn attempts delay until exceptions (suc left) last_exc = attempt fn >>= λ r.
      next_round delay left (retry_loop fn attempts delay until exceptions left) last_exc
        (judge until exceptions r)

  unfoldable pub retry : Exec V R → ℕ → ℕ → (R → Bool) → (Exn → Bool) → Exec V R
  retry fn retries delay until exceptions =
      retry_loop fn (suc retries) delay until exceptions (suc retries) none

-- `http.poll_until` of `http.get_json`, which retries nothing by default
unfoldable pub poll_until : {V : Type 0} → Env → (Payload → Bool) → ℕ → ℕ → Exec V Payload
poll_until env predicate retries delay =
    retry (retry (fetch env) 0 10 (λ _. true) (λ e. e.is_os_error)) retries delay predicate
      (λ e. e.is_os_error)

-- what the attempt has to answer: `changed` for a creation, `not failed` for a deletion
abbrev pub snapshot_done : SnapState → PrimitiveResult → Bool
snapshot_done present r = r.changed
snapshot_done absent r = not r.failed

abbrev pub no_result : Text → PrimitiveResult
no_result message = record {
  rc = 1;
  changed = false;
  failed = true;
  unreachable = false;
  stdout = codes "";
  stderr = message;
  facts = [];
}

abbrev pub last_or : Option PrimitiveResult → Exn → PrimitiveResult
last_or (some r) e = r
last_or none e = no_result e.message

module _ {V : Type 0} (env : Env) where
  unfoldable pub snapshot_attempt : SnapState → Exec V PrimitiveResult
  snapshot_attempt state = invoke env (snapshot state) >>= λ r. keep_result r >> pure r

  unfoldable pub snapshot_with_retry : SnapState → ℕ → ℕ → Exec V PrimitiveResult
  snapshot_with_retry state retries delay =
      reset_result
      >> catching (retry (snapshot_attempt state) retries delay (snapshot_done state) (λ _. false))
          (λ e. look_result >>= λ last. pure (last_or last e))

abbrev pub newline_to_space : ℕ → ℕ
newline_to_space c = if c == 10 then 32 else c

abbrev pub no_rollback : Text
no_rollback = codes "snapshot failed — automatic rollback unavailable for this update"

unfoldable pub snapshot_failure_warning : PrimitiveResult → Text
snapshot_failure_warning result =
    let detail =
      map newline_to_space
        (strip (if is_empty result.stderr then result.stdout else result.stderr)) in
    if is_empty detail
    then no_rollback
    else no_rollback ++ (codes ": " ++ drop (length detail - 400) detail)
