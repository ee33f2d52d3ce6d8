-- ===== src/Driver/Staging.antt =====
-- The waves of a phase in proxmox_fleet/driver.py: who is started, when, and what is recorded.
use proxmox_management.Prelude.{
  Text, Bool, true, false, ◌||◌, List, [], ◌∷◌, ◌++◌, Option, none, some, map, ◌≡◌, refl, ap, ◌∙◌,
  sym, is_empty, if◌then◌else◌, ◌⊎◌, inl, inr,
}
use proxmox_management.Flow.{World, Event, polled, slept, happens, ok, Env}
use proxmox_management.Flow.Triples.{
  Meets, Meets-bind, Meets-pure, Meets-if, Meets-assign, Meets-look, Meets-weaken, returns,
}
use proxmox_management.Driver.{
  Phase, PhaseVars, canaries, others, run_wave, note_wave, soak_wave, note_soak, canary_gate,
  after_gate, note_skipped, run_staged, run_waves,
}
use proxmox_management.Driver.Folding.{
  IsBucket, any_fails, all_reports, bucket-fold_results, failed-fold_results, bucket-put_skipped,
  failed-put_skipped,
}
use proxmox_management.Driver.Soaking.{AllHealthy, IsBehind, soak_canaries-Meets}
use proxmox_management.Driver.Staged.{IsWave, IsCompleted, IsAborted, IsStagedIf, IsStaged}

module _ {H R : Type 0} (phase : Phase H R) (laws : IsBucket phase.put phase.bucket) where
  -- no host was started and nothing failed
  pub record IsFresh (before : List R) (v : PhaseVars H) : Type 0 where
    pub none_started : v.started ≡ []
    pub unfailed : v.state.failed ≡ false
    pub holds : phase.bucket v.state ≡ before

  module _ (start : List Event) (before : List R) where
    note_wave-IsWave :
        (hosts : List H) (v : PhaseVars H)
        → IsFresh before v
        → IsWave phase before hosts (note_wave phase hosts v)
    unfolding note_wave
    note_wave-IsWave hosts v h = record {
      started_all = rw h.none_started;
      reported = rw h.none_started (
          bucket-fold_results phase laws (phase.run_one []) hosts v.state
          ∙ ap (λ l. l ++ all_reports (phase.run_one []) hosts) h.holds);
      failed_if = rw h.none_started (
          failed-fold_results phase laws (phase.run_one []) hosts v.state
          ∙ ap (λ b. b || any_fails (phase.run_one []) hosts) h.unfailed);
    }

    module _ (env : Env) (canary rest : List H) where
      record Stopped (v : PhaseVars H) : Type 0 where
        started_canaries : v.started ≡ canary
        has_failed : v.state.failed ≡ true
        reported : phase.bucket v.state ≡ before ++ all_reports (phase.run_one []) canary

      record Passing (w : World (PhaseVars H)) : Type 0 where
        wave : IsWave phase before canary w.vars
        fine : any_fails (phase.run_one []) canary ≡ false
        soaked :
            (phase.dry_run ≡ true)
            ⊎ (is_empty phase.soak.kuma_url ≡ true)
            ⊎ AllHealthy start phase.kuma_map (map phase.name canary) w.log

      abbrev Gated : Option Text → World (PhaseVars H) → Type 0
      Gated none w = Passing w
      Gated (some abort) w = Stopped w.vars

      record Unfailed (w : World (PhaseVars H)) : Type 0 where
        wave : IsWave phase before canary w.vars
        unfailed : w.vars.state.failed ≡ false
        later : IsBehind start w.log

      Unfailed-happens : (e : Event) (w : World (PhaseVars H)) → Unfailed w → Unfailed (happens e w)
      Unfailed-happens e w h = record {
        wave = h.wave;
        unfailed = h.unfailed;
        later = record { recent = e ∷ h.later.recent; behind = ap (λ l. e ∷ l) h.later.behind };
      }

      Gated-note_soak :
          (abort : Option Text) (w : World (PhaseVars H))
          → Unfailed w
          → (abort ≡ none
              → (is_empty phase.soak.kuma_url ≡ true)
                ⊎ AllHealthy start phase.kuma_map (map phase.name canary) w.log)
          → Gated abort (record w { vars = note_soak phase abort w.vars })
      unfolding note_soak
      Gated-note_soak none w h healthy = record {
        wave = h.wave;
        fine = sym h.wave.failed_if ∙ h.unfailed;
        soaked = inr (healthy refl);
      }
      Gated-note_soak (some abort) w h healthy = record {
        started_canaries = h.wave.started_all;
        has_failed = refl;
        reported =
            laws.bucket-with_log w.vars.state w.vars.state.changed true
              w.vars.state.housekeeping_attempted _ w.vars.state.warnings
            ∙ h.wave.reported;
      }

      soak_wave-Meets : Meets Unfailed (soak_wave phase env canary) Gated (λ _. ⊥)
      unfolding soak_wave
      soak_wave-Meets =
          Meets-bind _ _
            (soak_canaries-Meets env phase.soak phase.kuma_map start (map phase.name canary)
              Unfailed
              (record {
                polls = λ r w h. Unfailed-happens (polled r) w h;
                sleeps = λ k w h. Unfailed-happens (slept k) w h;
                later = λ w h. h.later;
              }))
            (λ abort.
              Meets-bind {R = λ _. Gated abort} _ _
                (Meets-assign (note_soak phase abort) (λ w h. Gated-note_soak abort w h.0 h.1))
                (λ _. Meets-pure abort (λ w h. h)))

      canary_gate-Meets :
          Meets
            (λ w. IsWave phase before canary w.vars × IsBehind start w.log)
            (canary_gate phase env canary)
            Gated
            (λ _. ⊥)
      unfolding canary_gate
      canary_gate-Meets =
          Meets-bind
            {R = λ v w. (IsWave phase before canary w.vars × IsBehind start w.log) × (w.vars ≡ v)} _
            _ (Meets-look (λ w h. (h, refl)))
            (λ v.
              Meets-if _ _ _
                (λ failed. Meets-pure _ (λ w h. record {
                  started_canaries = h.0.0.started_all;
                  has_failed = ap (λ (x : PhaseVars H). x.state.failed) h.1 ∙ failed;
                  reported = h.0.0.reported;
                }))
                (λ unfailed.
                  Meets-if _ _ _
                    (λ dry. Meets-pure none (λ w h. record {
                      wave = h.0.0;
                      fine =
                          sym h.0.0.failed_if
                          ∙ (ap (λ (x : PhaseVars H). x.state.failed) h.1 ∙ unfailed);
                      soaked = inl dry;
                    }))
                    (λ real. Meets-weaken _ soak_wave-Meets (λ w h. record {
                      wave = h.0.0;
                      unfailed = ap (λ (x : PhaseVars H). x.state.failed) h.1 ∙ unfailed;
                      later = h.0.1;
                    }))))

      abbrev Done : World (PhaseVars H) → Type 0
      Done w =
          IsCompleted phase before start canary rest w
          ⊎ IsAborted phase before start canary rest w.vars

      IsCompleted-note_wave :
          (w : World (PhaseVars H))
          → Passing w
          → IsCompleted phase before start canary rest
              (record w { vars = note_wave phase rest w.vars })
      unfolding note_wave
      IsCompleted-note_wave w h = record {
        started_all = rw h.wave.started_all;
        canaries_fine = h.fine;
        soaked = h.soaked;
        reported = rw h.wave.started_all (
            bucket-fold_results phase laws (phase.run_one canary) rest w.vars.state
            ∙ ap (λ l. l ++ all_reports (phase.run_one canary) rest) h.wave.reported);
        failed_if = rw h.wave.started_all (
            failed-fold_results phase laws (phase.run_one canary) rest w.vars.state
            ∙ ap (λ b. b || any_fails (phase.run_one canary) rest) (h.wave.failed_if ∙ h.fine));
      }

      IsAborted-note_skipped :
          (v : PhaseVars H)
          → Stopped v
          → IsAborted phase before start canary rest (note_skipped phase rest v)
      unfolding note_skipped
      IsAborted-note_skipped v h = record {
        started_canaries = h.started_canaries;
        has_failed = failed-put_skipped phase laws rest v.state ∙ h.has_failed;
        skipped_rest =
            bucket-put_skipped phase laws rest v.state
            ∙ ap (λ l. l ++ map phase.skipped rest) h.reported;
      }

      after_gate-Meets :
          (abort : Option Text)
          → Meets (Gated abort) (after_gate phase env rest abort) (λ _. Done) (λ _. ⊥)
      unfolding after_gate run_wave
      after_gate-Meets none = Meets-assign _ (λ w h. inl (IsCompleted-note_wave w h))
      after_gate-Meets (some abort) = Meets-assign _ (λ w h. inr (IsAborted-note_skipped w.vars h))

      run_staged-Meets :
          Meets
            (λ w. IsFresh before w.vars × IsBehind start w.log)
            (run_staged phase env canary rest)
            (λ _. Done)
            (λ _. ⊥)
      unfolding run_staged run_wave
      run_staged-Meets =
          Meets-bind {R = λ _ w. IsWave phase before canary w.vars × IsBehind start w.log} _ _
            (Meets-assign _ (λ w h. (note_wave-IsWave canary w.vars h.0, h.1)))
            (λ _. Meets-bind _ _ canary_gate-Meets after_gate-Meets)

    module _ (env : Env) (hosts : List H) where
      staged_if :
          (plain : Bool)
          → Meets
              (λ w. IsFresh before w.vars × IsBehind start w.log)
              (if plain
                then run_wave phase hosts
                else run_staged phase env (canaries phase hosts) (others phase hosts))
              (λ _. IsStagedIf phase before start hosts plain)
              (λ _. ⊥)
      unfolding run_wave
      staged_if true = Meets-assign _ (λ w h. note_wave-IsWave hosts w.vars h.0)
      staged_if false = run_staged-Meets env _ _

      run_waves-Meets :
          Meets
            (λ w. IsFresh before w.vars × IsBehind start w.log)
            (run_waves phase env hosts)
            (λ _. IsStaged phase before start hosts)
            (λ _. ⊥)
      unfolding run_waves
      run_waves-Meets = staged_if _

  -- A phase with canaries over a bucket of records never raises, from a state in which nothing was
  -- started and nothing failed. With no canary, or with canaries only, it starts every host in one
  -- wave. Otherwise either it starts the canaries and then the others, and then no canary failed,
  -- and unless it is a dry run or no Kuma URL is set, each canary with a monitor was seen healthy
  -- in an answer that came during the phase; or it starts only the canaries, the phase has failed,
  -- and each of the others is recorded as skipped. In every case the records of the phase are
  -- those of the hosts that it started, in order, with the skipped ones behind them.
  pub run_waves-IsStaged :
      (env : Env) (hosts : List H) (w : World (PhaseVars H))
      → IsFresh (phase.bucket w.vars.state) w.vars
      → (w' : World (PhaseVars H)) × (run_waves phase env hosts w ≡ (ok tt, w'))
        × IsStaged phase (phase.bucket w.vars.state) w.log hosts w'
  run_waves-IsStaged env hosts w fresh =
      let (u, w', e, h) =
        returns _ w (run_waves-Meets w.log (phase.bucket w.vars.state) env hosts)
          (fresh, record { recent = []; behind = refl }) in
      (w', e, h)
