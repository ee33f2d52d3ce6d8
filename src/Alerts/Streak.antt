-- ===== src/Alerts/Streak.antt =====
-- The alert of proxmox_fleet/housekeeping_alerts.py against the streak of failures.
use proxmox_management.Prelude.{
  ℕ, suc, Bool, true, false, not, ◌&&◌, List, [], ◌∷◌, Option, none, some, ◌≡◌, refl, ap, ◌∙◌, sym,
  if◌then◌else◌, leb, arith, Bool-cases, inl, inr, ◌⊎◌, text_eq,
}
use proxmox_management.Sources.Provenance.{get}
use proxmox_management.Alerts.{
  StateFile, Run, AlertDecision, record_run, state_after, load_failures, saved_state, checked_count,
  count_failure, decide, is_skipped, failure_threshold, no_alert,
}

none_is_not_some : {A : Type 0} (a : A) → none ≡ some a → ⊥
none_is_not_some a h = ground arith

-- the failures since the last successful maintenance, the runs that do not count left aside
unfoldable pub streak : List Run → ℕ
streak [] = 0
streak (run ∷ earlier) =
    let before = streak earlier in
    if is_skipped run then before else if run.failed then suc before else 0

abbrev pub AllSaved : List Run → Type 0
AllSaved [] = Unit
AllSaved (run ∷ earlier) = (run.saves ≡ true) × AllSaved earlier

load_failures-saved_state : (count : ℕ) → load_failures (saved_state count) ≡ some count
unfolding load_failures saved_state get checked_count text_eq
load_failures-saved_state count = refl

-- the three ways of a run whose save goes through
module _ (file : StateFile) (run : Run) where
  record_run-skipped : is_skipped run ≡ true → record_run file run ≡ (no_alert, file)
  unfolding record_run
  record_run-skipped h = rw h refl

  record_run-failed :
      (count : ℕ)
      → is_skipped run ≡ false
      → run.failed ≡ true
      → run.saves ≡ true
      → load_failures file ≡ some count
      → record_run file run ≡ (
        record { allow_automatic = leb failure_threshold (suc count); warning = none },
        saved_state (suc count),
      )
  unfolding record_run count_failure decide
  record_run-failed count counted failed saves loaded = simp (counted, failed, loaded, saves) refl

  record_run-fine :
      is_skipped run ≡ false
      → run.failed ≡ false
      → run.saves ≡ true
      → record_run file run ≡ (no_alert, saved_state 0)
  unfolding record_run decide
  record_run-fine counted fine saves = simp (counted, fine, saves) refl

abbrev decision_of : AlertDecision × StateFile → Bool
decision_of x = x.0.allow_automatic

abbrev count_of : AlertDecision × StateFile → Option ℕ
count_of x = load_failures x.1

record_run-step :
    (run : Run) (earlier : List Run) (file : StateFile)
    → run.saves ≡ true
    → load_failures file ≡ some (streak earlier)
    → (count_of (record_run file run) ≡ some (streak (run ∷ earlier)))
      × (decision_of (record_run file run) ≡ (
          not (is_skipped run) && (run.failed && leb failure_threshold (streak (run ∷ earlier)))))
unfolding streak
record_run-step run earlier file saves loaded = elim (Bool-cases (is_skipped run)) [
  | inl skipped ↦ (
    ap count_of (record_run-skipped file run skipped) ∙ loaded ∙ simp skipped refl,
    ap decision_of (record_run-skipped file run skipped) ∙ simp skipped refl,
  )
  | inr counted ↦ elim (Bool-cases run.failed) [
    | inl failed ↦
        let e = record_run-failed file run (streak earlier) counted failed saves loaded in
        (
          ap count_of e
              ∙ load_failures-saved_state (suc (streak earlier))
              ∙ simp (counted, failed) refl,
          ap decision_of e ∙ simp (counted, failed) refl,
        )
    | inr fine ↦
        let e = record_run-fine file run counted fine saves in
        (
          ap count_of e ∙ load_failures-saved_state 0 ∙ simp (counted, fine) refl,
          ap decision_of e ∙ simp (counted, fine) refl,
        )
  ]
]

load_failures-state_after :
    (runs : List Run) → AllSaved runs → load_failures (state_after runs) ≡ some (streak runs)
unfolding state_after streak
load_failures-state_after [] h = unfold load_failures in refl
load_failures-state_after (run ∷ earlier) h =
    (record_run-step run earlier (state_after earlier) h.0
      (load_failures-state_after earlier h.1)).0

-- While every save goes through, a run raises an alert if and only if it counts, it failed, and
-- with it at least twelve runs that count have failed since the last success.
pub record_run-streak :
    (run : Run) (earlier : List Run)
    → AllSaved (run ∷ earlier)
    → (record_run (state_after earlier) run).0.allow_automatic
      ≡ (not (is_skipped run) && (run.failed && leb 12 (streak (run ∷ earlier))))
record_run-streak run earlier h =
    (record_run-step run earlier (state_after earlier) h.0
      (load_failures-state_after earlier h.1)).1

is_skipped-real : (run : Run) → run.failed ≡ true → run.dry_run ≡ false → is_skipped run ≡ false
unfolding is_skipped
is_skipped-real run failed real = ground (arith, failed, real)

record_run-counted :
    (file : StateFile) (run : Run)
    → is_skipped run ≡ false
    → run.failed ≡ true
    → record_run file run ≡ count_failure file run.saves (load_failures file)
unfolding record_run
record_run-counted file run counted failed = simp (counted, failed) refl

count_failure-opens :
    (file : StateFile) (run : Run) (o : Option ℕ)
    → (o ≡ none) ⊎ (run.saves ≡ false)
    → decision_of (count_failure file run.saves o) ≡ true
unfolding count_failure decide
count_failure-opens file run none h = refl
count_failure-opens file run (some n) (inl e) = elim (none_is_not_some n (sym e)) [ ]
count_failure-opens file run (some n) (inr lost) = simp lost refl

-- A failed run that is no dry run raises an alert whenever the count cannot be read or the save
-- does not go through, whatever the file holds.
pub record_run-fails_open :
    (file : StateFile) (run : Run)
    → run.failed ≡ true
    → run.dry_run ≡ false
    → (load_failures file ≡ none) ⊎ (run.saves ≡ false)
    → (record_run file run).0.allow_automatic ≡ true
unfolding record_run
record_run-fails_open file run failed real h =
    ap decision_of (record_run-counted file run (is_skipped-real run failed real) failed)
    ∙ count_failure-opens file run (load_failures file) h
