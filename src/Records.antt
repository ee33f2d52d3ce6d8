-- ===== src/Records.antt =====
-- proxmox_fleet/models/state.py, the records that the flows add to and the state of a run, and the
-- outcome that a flow hands to the driver (the same fields in flows/vm.py, remote.py, custom.py and
-- node.py of proxmox_fleet).
use proxmox_management.Prelude.{
  ℕ, Text, Bool, true, false, List, [], ◌∷◌, Option, none, some, if◌then◌else◌, is_empty, take,
}
use proxmox_management.Flow.{Exn}

pub record Package : Type 0 where
  pub name : Text
  pub before : Text
  pub after : Text

pub record WarningEntry : Type 0 where
  pub host : Text
  pub task : Text
  pub warning : Text
  pub notifying : Option Bool

pub record ErrorEntry : Type 0 where
  pub host : Text
  pub task : Text
  pub error : Text

pub record VmRecord : Type 0 where
  pub node_name : Text
  pub vmid : Text
  pub name : Text
  pub status : Text
  pub pkg_count : Option ℕ
  pub packages : Option (List Package)
  pub alloy : Option Text

pub record RemoteRecord : Type 0 where
  pub host : Text
  pub status : Text
  pub pkg_count : Option ℕ
  pub packages : Option (List Package)

pub record NodeRecord : Type 0 where
  pub node_name : Text
  pub status : Text
  pub pkg_count : Option ℕ
  pub packages : Option (List Package)
  pub dry_run : Option Bool
  pub reboot_reasons : Option (List Text)

pub record CustomRecord : Type 0 where
  pub host : Text
  pub name : Text
  pub app : Text

-- without the summary of housekeeping
pub record LxcRecord : Type 0 where
  pub node_name : Text
  pub name : Text
  pub id : Text
  pub app : Text
  pub os : Text
  pub snap : Bool
  pub packages : Option (List Package)
  pub alloy : Option Text

-- `record` of the source is `report`
pub record FlowOutcome (R : Type 0) : Type 0 where
  pub report : Option R
  pub changed : Bool
  pub failed : Bool
  pub error : Option ErrorEntry
  pub warnings : List WarningEntry

abbrev pub no_outcome : {R : Type 0} → FlowOutcome R
no_outcome = record { report = none; changed = false; failed = false; error = none; warnings = [] }

pub record FleetState : Type 0 where
  pub lxc : List LxcRecord
  pub vm : List VmRecord
  pub remote : List RemoteRecord
  pub node : List NodeRecord
  pub custom : List CustomRecord
  pub errors : List ErrorEntry
  pub warnings : List WarningEntry
  pub changed : Bool
  pub failed : Bool
  pub housekeeping_attempted : Bool

abbrev pub no_state : FleetState
no_state = record {
  lxc = [];
  vm = [];
  remote = [];
  node = [];
  custom = [];
  errors = [];
  warnings = [];
  changed = false;
  failed = false;
  housekeeping_attempted = false;
}

-- getattr(exc, "step_name", type(exc).__name__)
abbrev pub failed_task : Exn → Text
failed_task e = elim e.step_name [ none ↦ e.type_name | some step ↦ step ]

-- ErrorEntry(host=host, task=task, error=str(exc)[:300])
abbrev pub record_of_error : Text → Text → Exn → ErrorEntry
record_of_error host task e = record { host = host; task = task; error = take 300 e.message }

abbrev pub is_some : {A : Type 0} → Option A → Bool
is_some none = false
is_some (some a) = true

-- `x or None` of a list
abbrev pub unless_empty : {A : Type 0} → List A → Option (List A)
unless_empty [] = none
unless_empty (a ∷ rest) = some (a ∷ rest)

-- the text of an optional string that is neither None nor empty
abbrev pub truthy : Option Text → Option Text
truthy none = none
truthy (some text) = if is_empty text then none else some text
