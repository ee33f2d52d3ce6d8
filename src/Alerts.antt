-- ===== src/Alerts.antt =====
-- proxmox_fleet/housekeeping_alerts.py. The state file is a value; whether a save goes through is
-- an argument, and a failed save leaves the file as it was, since the new text is moved into place.
pub mod Streak
pub mod Examples
use proxmox_management.Prelude.{
  ℕ, suc, Text, Bool, true, false, not, ◌&&◌, ◌||◌, List, [], ◌∷◌, Option, none, some,
  if◌then◌else◌, ◌==◌, leb, codes,
}
use proxmox_management.Sources.Provenance.{Json, Value, number, get}

abbrev pub failure_threshold : ℕ
failure_threshold = 12

abbrev pub state_version : ℕ
state_version = 1

-- what reading the state file yields; `broken` stands for an OSError, ValueError or RecursionError
pub data StateFile : Type 0 where
  missing broken not_an_object : StateFile
  object : Json → StateFile

pub record AlertDecision : Type 0 where
  pub allow_automatic : Bool
  pub warning : Option Text

-- the count, where the version is the current one
unfoldable pub checked_count : Value → Value → Option ℕ
checked_count (number version) (number count) =
    if version == state_version then some count else none
checked_count _ _ = none

-- _load_failures; none is an exception that record_run catches
unfoldable pub load_failures : StateFile → Option ℕ
load_failures missing = some 0
load_failures broken = none
load_failures not_an_object = none
load_failures (object data_) =
    checked_count (get data_ (codes "version")) (get data_ (codes "consecutive_failures"))

-- the file that _save_failures writes
unfoldable pub saved_state : ℕ → StateFile
saved_state count =
    object
      ((codes "consecutive_failures", number count) ∷ (codes "version", number state_version) ∷ [])

-- one run: its arguments, and whether the save goes through
pub record Run : Type 0 where
  pub failed : Bool
  pub attempted : Bool
  pub dry_run : Bool
  pub saves : Bool

abbrev pub no_alert : AlertDecision
no_alert = record { allow_automatic = false; warning = none }

abbrev pub unavailable : AlertDecision
unavailable = record {
  allow_automatic = true;
  warning =
      some (
        codes
          "Housekeeping alert state is unavailable; automatic failure suppression is disabled.");
}

abbrev pub unsaved : Bool → AlertDecision
unsaved failed = record {
  allow_automatic = failed;
  warning = some (
      codes
        "Housekeeping alert state could not be saved; failure notification history may be incomplete.");
}

-- the save and the decision
unfoldable pub decide : StateFile → Bool → Bool → ℕ → AlertDecision × StateFile
decide file saves failed count =
    if saves
    then (
      record { allow_automatic = failed && leb failure_threshold count; warning = none },
      saved_state count,
    )
    else (unsaved failed, file)

unfoldable pub count_failure : StateFile → Bool → Option ℕ → AlertDecision × StateFile
count_failure file saves none = (unavailable, file)
count_failure file saves (some count) = decide file saves true (suc count)

unfoldable pub is_skipped : Run → Bool
is_skipped run = run.dry_run || (not run.failed && not run.attempted)

unfoldable pub record_run : StateFile → Run → AlertDecision × StateFile
record_run file run =
    if is_skipped run
    then (no_alert, file)
    else if run.failed
    then count_failure file run.saves (load_failures file)
    else decide file run.saves false 0

-- a history of runs, the newest first
unfoldable pub state_after : List Run → StateFile
state_after [] = missing
state_after (run ∷ earlier) = (record_run (state_after earlier) run).1
