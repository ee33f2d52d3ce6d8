-- ===== src/Alerts/Examples.antt =====
-- Runs of the alert gate: twelve failures in a row, and a counter that cannot be read.
use proxmox_management.Prelude.{◌&&◌, not, true, false, List, [], ◌∷◌, ◌≡◌, refl, inl, leb, none}
use proxmox_management.Alerts.{broken, Run, record_run, state_after, is_skipped, load_failures}
use proxmox_management.Alerts.Streak.{streak, record_run-streak, record_run-fails_open}

abbrev failing : Run
failing = record { failed = true; attempted = true; dry_run = false; saves = true }

abbrev two_failures : List Run
two_failures = failing ∷ failing ∷ []

record_run-streak_example :
    (record_run (state_after two_failures) failing).0.allow_automatic
    ≡ (not (is_skipped failing) && (true && leb 12 (streak (failing ∷ two_failures))))
record_run-streak_example = record_run-streak failing two_failures (refl, (refl, (refl, tt)))

three_failures : streak (failing ∷ two_failures) ≡ 3
unfolding streak is_skipped
three_failures = refl

broken_unreadable : load_failures broken ≡ none
unfolding load_failures
broken_unreadable = refl

record_run-fails_open_example : (record_run broken failing).0.allow_automatic ≡ true
record_run-fails_open_example =
    record_run-fails_open broken failing refl refl (inl broken_unreadable)
