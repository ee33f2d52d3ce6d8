-- ===== src/Driver/Folding.antt =====
-- What a wave of a phase in proxmox_fleet/driver.py leaves in the state.
use proxmox_management.Prelude.{
  Bool, true, false, ◌||◌, List, [], ◌∷◌, ◌++◌, Option, none, some, map, ◌≡◌, refl, ap, ◌∙◌, sym,
  append_assoc, append-nil, arith,
}
use proxmox_management.Flow.{Outcome, ok, raised}
use proxmox_management.Orchestration.{triple_of}
use proxmox_management.Records.{FlowOutcome, ErrorEntry, WarningEntry, FleetState}
use proxmox_management.Driver.{
  Phase, option_list, append_report, fold_outcome, fold_result, fold_results, run_concurrent,
  put_skipped,
}

-- a host whose worker failed or raised
abbrev pub fails : {R : Type 0} → Outcome (FlowOutcome R) → Bool
fails (ok outcome) = outcome.failed
fails (raised e) = true

abbrev pub reports_of : {R : Type 0} → Outcome (FlowOutcome R) → List R
reports_of (ok outcome) = option_list outcome.report
reports_of (raised e) = []

module _ {H R : Type 0} (run : H → Outcome (FlowOutcome R)) where
  abbrev pub any_fails : List H → Bool
  any_fails [] = false
  any_fails (h ∷ wave) = fails (run h) || any_fails wave

  abbrev pub all_reports : List H → List R
  all_reports [] = []
  all_reports (h ∷ wave) = reports_of (run h) ++ all_reports wave

-- all of a state but its records
abbrev pub with_log :
    FleetState → Bool → Bool → Bool → List ErrorEntry → List WarningEntry → FleetState
with_log s changed failed attempted errors warnings = record s {
  changed = changed;
  failed = failed;
  housekeeping_attempted = attempted;
  errors = errors;
  warnings = warnings;
}

-- the bucket is one of the record lists of the state
pub record IsBucket {R : Type 0} (put : R → FleetState → FleetState) (bucket : FleetState → List R)
    : Type 0 where
  pub bucket-put : (r : R) (s : FleetState) → bucket (put r s) ≡ bucket s ++ r ∷ []
  pub bucket-with_log :
      (s : FleetState) (c f a : Bool) (e : List ErrorEntry) (w : List WarningEntry)
      → bucket (with_log s c f a e w) ≡ bucket s
  pub failed-put : (r : R) (s : FleetState) → (put r s).failed ≡ s.failed

module _ {R : Type 0} (put : R → FleetState → FleetState) (bucket : FleetState → List R)
    (laws : IsBucket put bucket) where
  append_report-lem :
      (o : Option R) (s : FleetState)
      → (bucket (append_report put o s) ≡ bucket s ++ option_list o)
        × ((append_report put o s).failed ≡ s.failed)
  append_report-lem none s = (sym (append-nil _), refl)
  append_report-lem (some r) s = (laws.bucket-put r s, laws.failed-put r s)

  pub bucket-fold_outcome :
      (o : FlowOutcome R) (errors : List ErrorEntry) (attempted : Bool) (s : FleetState)
      → bucket (fold_outcome put o errors attempted s) ≡ bucket s ++ option_list o.report
  unfolding fold_outcome
  bucket-fold_outcome o errors attempted s =
      laws.bucket-with_log (append_report put o.report s) _ _ _ _ _
      ∙ (append_report-lem o.report s).0

  pub failed-fold_outcome :
      (o : FlowOutcome R) (errors : List ErrorEntry) (attempted : Bool) (s : FleetState)
      → (fold_outcome put o errors attempted s).failed ≡ (o.failed || s.failed)
  unfolding fold_outcome
  failed-fold_outcome o errors attempted s =
      ap (λ b. o.failed || b) (append_report-lem o.report s).1

module _ {H R : Type 0} (phase : Phase H R) (laws : IsBucket phase.put phase.bucket) where
  bucket-fold_result :
      (h : H) (r : Outcome (FlowOutcome R)) (s : FleetState)
      → let t = triple_of h r in
        phase.bucket (fold_result phase (phase.name t.item) t.result t.error s)
        ≡ phase.bucket s ++ reports_of r
  unfolding fold_result
  bucket-fold_result h (ok o) s = bucket-fold_outcome phase.put phase.bucket laws o [] false s
  bucket-fold_result h (raised e) s =
      laws.bucket-with_log s s.changed true s.housekeeping_attempted _ s.warnings
      ∙ sym (append-nil _)

  failed-fold_result :
      (h : H) (r : Outcome (FlowOutcome R)) (s : FleetState)
      → let t = triple_of h r in
        (fold_result phase (phase.name t.item) t.result t.error s).failed ≡ (fails r || s.failed)
  unfolding fold_result
  failed-fold_result h (ok o) s = failed-fold_outcome phase.put phase.bucket laws o [] false s
  failed-fold_result h (raised e) s = refl

  module _ (run : H → Outcome (FlowOutcome R)) where
    -- the records of the hosts that have one, in the order of the wave
    pub bucket-fold_results :
        (wave : List H) (s : FleetState)
        → phase.bucket (fold_results phase (run_concurrent wave run) s)
          ≡ phase.bucket s ++ all_reports run wave
    unfolding fold_results run_concurrent
    bucket-fold_results [] s = sym (append-nil _)
    bucket-fold_results (h ∷ wave) s =
        bucket-fold_results wave _
        ∙ (ap (λ l. l ++ all_reports run wave) (bucket-fold_result h (run h) s)
            ∙ append_assoc (phase.bucket s) (reports_of (run h)) (all_reports run wave))

    pub failed-fold_results :
        (wave : List H) (s : FleetState)
        → (fold_results phase (run_concurrent wave run) s).failed ≡ (s.failed || any_fails run wave)
    unfolding fold_results run_concurrent
    failed-fold_results [] s = ground arith
    failed-fold_results (h ∷ wave) s =
        failed-fold_results wave _ ∙ ground (arith, failed-fold_result h (run h) s)

  pub bucket-put_skipped :
      (rest : List H) (s : FleetState)
      → phase.bucket (put_skipped phase rest s) ≡ phase.bucket s ++ map phase.skipped rest
  unfolding put_skipped
  bucket-put_skipped [] s = sym (append-nil _)
  bucket-put_skipped (h ∷ rest) s =
      bucket-put_skipped rest _
      ∙ (ap (λ l. l ++ map phase.skipped rest) (laws.bucket-put (phase.skipped h) s)
          ∙ append_assoc (phase.bucket s) (phase.skipped h ∷ []) (map phase.skipped rest))

  pub failed-put_skipped :
      (rest : List H) (s : FleetState) → (put_skipped phase rest s).failed ≡ s.failed
  unfolding put_skipped
  failed-put_skipped [] s = refl
  failed-put_skipped (h ∷ rest) s = failed-put_skipped rest _ ∙ laws.failed-put (phase.skipped h) s
