-- ===== src/Driver/Staged.antt =====
-- How a phase of proxmox_fleet/driver.py may end: who was started, in which waves, and what the records
-- say, independent of the code of the waves.
use proxmox_management.Prelude.{
  Bool, true, false, ◌||◌, List, [], ◌++◌, map, ◌≡◌, is_empty, if◌then◌else◌, ◌⊎◌,
}
use proxmox_management.Flow.{World, Event}
use proxmox_management.Driver.{Phase, PhaseVars, canaries, others, is_nil}
use proxmox_management.Driver.Folding.{any_fails, all_reports}
use proxmox_management.Driver.Soaking.{AllHealthy}

module _ {H R : Type 0} (phase : Phase H R) (before : List R) where
  -- the hosts were started in one wave
  pub record IsWave (hosts : List H) (v : PhaseVars H) : Type 0 where
    pub started_all : v.started ≡ hosts
    pub reported : phase.bucket v.state ≡ before ++ all_reports (phase.run_one []) hosts
    pub failed_if : v.state.failed ≡ any_fails (phase.run_one []) hosts

  module _ (start : List Event) (canary rest : List H) where
    -- both waves ran: no canary failed, and the soak of a real run with a Kuma URL saw every
    -- monitored canary healthy, in an answer behind the events of `start`
    pub record IsCompleted (w : World (PhaseVars H)) : Type 0 where
      pub started_all : w.vars.started ≡ canary ++ rest
      pub canaries_fine : any_fails (phase.run_one []) canary ≡ false
      pub soaked :
          (phase.dry_run ≡ true)
          ⊎ (is_empty phase.soak.kuma_url ≡ true)
          ⊎ AllHealthy start phase.kuma_map (map phase.name canary) w.log
      pub reported :
          phase.bucket w.vars.state
          ≡ (before ++ all_reports (phase.run_one []) canary)
            ++ all_reports (phase.run_one canary) rest
      pub failed_if : w.vars.state.failed ≡ any_fails (phase.run_one canary) rest

    -- the rest was not started, and each of it is recorded as skipped
    pub record IsAborted (v : PhaseVars H) : Type 0 where
      pub started_canaries : v.started ≡ canary
      pub has_failed : v.state.failed ≡ true
      pub skipped_rest :
          phase.bucket v.state
          ≡ (before ++ all_reports (phase.run_one []) canary) ++ map phase.skipped rest

  abbrev pub IsStagedIf : List Event → List H → Bool → World (PhaseVars H) → Type 0
  IsStagedIf start hosts plain w =
      if plain
      then IsWave hosts w.vars
      else IsCompleted start (canaries phase hosts) (others phase hosts) w
      ⊎ IsAborted start (canaries phase hosts) (others phase hosts) w.vars

  abbrev pub IsStaged : List Event → List H → World (PhaseVars H) → Type 0
  IsStaged start hosts =
      IsStagedIf start hosts (is_nil (canaries phase hosts) || is_nil (others phase hosts))
