-- ===== src/Flow.antt =====
-- What every per-host flow of proxmox_fleet/flows stands on: exceptions, `PrimitiveResult` of
-- proxmox_fleet/runner.py, and the calls that reach the outside through the executor of
-- proxmox_fleet/executor.py, proxmox_fleet/http.py and `time.sleep`. The outside is an `Env` that
-- answers each call as it likes, in view of all that happened before; the calls are recorded with
-- their answers, the newest first.
pub mod Packages
pub mod Discipline
pub mod Upgrading
pub mod Triples
use proxmox_management.Sources.Provenance.{Json}
use proxmox_management.Prelude.{
  ℕ, Text, Bool, true, false, List, ◌∷◌, Option, none, some, ◌==◌, ◌&&◌, not,
}

-- an exception that is an `Exception`
pub record Exn : Type 0 where
  pub type_name : Text
  pub step_name : Option Text
  pub message : Text
  -- an `OSError`, as `URLError` is
  pub is_os_error : Bool

pub data Outcome {ℓ} (A : Type ℓ) : Type ℓ where
  ok : A → Outcome A
  raised : Exn → Outcome A

pub record PrimitiveResult : Type 0 where
  pub rc : ℕ
  pub changed : Bool
  pub failed : Bool
  pub unreachable : Bool
  pub stdout : Text
  pub stderr : Text
  -- the facts of a diagnostic, none of them a float
  pub facts : Json

-- PrimitiveResult.ok
unfoldable pub is_ok : PrimitiveResult → Bool
is_ok r = not r.failed && (r.rc == 0)

pub data Target : Type 0 where
  guest node : Target

pub data PkgMgr : Type 0 where
  apt dnf apk : PkgMgr

pub data SnapState : Type 0 where
  present absent : SnapState

pub data Command : Type 0 where
  vzdump detect_cmd reboot_required qm_rollback qm_status manager_reboot_required : Command
  -- the test whether the node runs the container of this id
  manager_probe : Text → Command
  upgrade : PkgMgr → Bool → Command
  hook : Text → Command

pub data Call : Type 0 where
  run_shell : Target → Command → Call
  snapshot : SnapState → Call
  reboot : ℕ → Call
  -- the diagnostics of a node: of an NVIDIA host, after the reboot
  node_post_upgrade : Bool → Bool → Call
  wait_for_port : Call

-- the statuses of the heartbeats of each monitor, oldest first; none for an unknown monitor
abbrev pub Payload : Type 0
Payload = Text → List (Option ℕ)

pub record AlloyResult : Type 0 where
  pub status : Option Text
  pub changed : Bool
  pub warning : Option Text

-- what happened, with the outside's answer
pub data Event : Type 0 where
  ran : Call → Outcome PrimitiveResult → Event
  polled : Outcome Payload → Event
  reconciled : Bool → Outcome AlloyResult → Event
  slept : ℕ → Event

-- how the outside answers in view of what happened before
pub record Env : Type 0 where
  pub primitive : List Event → Call → Outcome PrimitiveResult
  pub heartbeats : List Event → Outcome Payload
  pub alloy : List Event → Bool → Outcome AlloyResult

-- the events so far, newest first, and the local variables of the flow that runs; the
-- variable `last_result` is the one that `snapshot_with_retry` shares with its `attempt`
pub record World (V : Type 0) : Type 0 where
  pub log : List Event
  pub vars : V
  pub last_result : Option PrimitiveResult

abbrev pub Exec : Type 0 → Type 0 → Type 0
Exec V A = World V → Outcome A × World V

module _ {V A : Type 0} where
  unfoldable pub pure : A → Exec V A
  pure a w = (ok a, w)

  unfoldable pub raise : Exn → Exec V A
  raise e w = (raised e, w)

module _ {V A B : Type 0} where
  abbrev pub continue : Outcome A → (A → Exec V B) → Exec V B
  continue (ok a) f w = f a w
  continue (raised e) f w = (raised e, w)

  infixl 10 ◌>>=◌ ◌>>◌
  unfoldable pub ◌>>=◌ : Exec V A → (A → Exec V B) → Exec V B
  unfolding pure raise
  ◌>>=◌ m f w = let (r, w') = m w in continue r f w'

  abbrev pub ◌>>◌ : Exec V A → Exec V B → Exec V B
  m >> n = m >>= λ _. n

abbrev pub resettle : {A : Type 0} → Outcome A → Outcome (Unit {0}) → Outcome A
resettle r (ok _) = r
resettle r (raised e) = raised e

module _ {V A : Type 0} where
  abbrev pub settle : Outcome A → (Exn → Exec V A) → Exec V A
  settle (ok a) h w = (ok a, w)
  settle (raised e) h w = h e w

  -- try: m except Exception as exc: h exc
  unfoldable pub catching : Exec V A → (Exn → Exec V A) → Exec V A
  catching m h w = let (r, w') = m w in settle r h w'

  -- the outcome of m as a value
  unfoldable pub attempt : Exec V A → Exec V (Outcome A)
  attempt m w = let (r, w') = m w in (ok r, w')

  -- try: m finally: c
  unfoldable pub finally : Exec V A → Exec V (Unit {0}) → Exec V A
  finally m c w = let (r, w') = m w in let (d, w'') = c w' in (resettle r d, w'')

module _ {V : Type 0} where
  abbrev pub happens : Event → World V → World V
  happens e w = record w { log = e ∷ w.log }

module _ {V : Type 0} (env : Env) where
  unfoldable pub invoke : Call → Exec V PrimitiveResult
  invoke c w = let r = env.primitive w.log c in (r, happens (ran c r) w)

  unfoldable pub fetch : Exec V Payload
  fetch w = let r = env.heartbeats w.log in (r, happens (polled r) w)

  unfoldable pub reconcile : Bool → Exec V AlloyResult
  reconcile dry_run w = let r = env.alloy w.log dry_run in (r, happens (reconciled dry_run r) w)

module _ {V : Type 0} where
  unfoldable pub pause : ℕ → Exec V (Unit {0})
  pause n w = (ok tt, happens (slept n) w)

  -- an assignment to local variables, and a read of them
  unfoldable pub assign : (V → V) → Exec V (Unit {0})
  assign f w = (ok tt, record w { vars = f w.vars })

  unfoldable pub look : Exec V V
  look w = (ok w.vars, w)

  unfoldable pub keep_result : PrimitiveResult → Exec V (Unit {0})
  keep_result r w = (ok tt, record w { last_result = some r })

  unfoldable pub reset_result : Exec V (Unit {0})
  reset_result w = (ok tt, record w { last_result = none })

  unfoldable pub look_result : Exec V (Option PrimitiveResult)
  look_result w = (ok w.last_result, w)

  infix 1 when◌then◌
  unfoldable pub when◌then◌ : Bool → Exec V (Unit {0}) → Exec V (Unit {0})
  unfolding pure
  when true then m = m
  when false then m = pure tt
