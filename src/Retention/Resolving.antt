-- ===== src/Retention/Resolving.antt =====
-- Which intents `_resolve_outcomes` of proxmox_fleet/housekeeping_retention.py resolves.
use proxmox_management.Prelude.{
  Text, Bool, true, false, ◌&&◌, ◌||◌, arith, subst, text_eq, text_in, text_eq→≡, List, [], ◌∷◌,
  ◌++◌, ◌≡◌, refl, inl, inr, codes, Bool-cases, if◌then◌else◌, sym, ap, ◌∙◌, append_assoc,
  append-nil,
}
use proxmox_management.Sources.Provenance.{
  Json, Value, text, number, negative, flag, null, foreign, get, text_of, is_true,
}
use proxmox_management.Retention.{Spec}
use proxmox_management.Retention.Wires.{validated_object}
use proxmox_management.Retention.Outcomes.{
  is_word, Answer, nothing, no_object, object, Resolution, Progress, is_observed, has_state,
  note_done, note_restored, note_absent, note_conflict, note_state, note_entry, note_extra, fail,
  unfinished, other_identity, unrecognised, resolve_outcomes,
}

-- the ids of the resolved intents with their states
abbrev pub verdicts : List Resolution → List (Text × Text)
verdicts [] = []
verdicts (r ∷ resolved) = (r.intent_id, r.state) ∷ verdicts resolved

verdicts-append :
    (resolved : List Resolution) (r : Resolution)
    → verdicts (resolved ++ r ∷ []) ≡ verdicts resolved ++ (r.intent_id, r.state) ∷ []
verdicts-append [] r = refl
verdicts-append (s ∷ resolved) r = ap (λ l. (s.intent_id, s.state) ∷ l) (verdicts-append resolved r)

-- the state that an answer reports
abbrev pub said_by : Answer → Text
said_by nothing = codes ""
said_by no_object = codes ""
said_by (object raw) = text_of (get raw (codes "state"))

abbrev pub is_terminal : Text → Bool
is_terminal state =
    text_in state (codes "done" ∷ codes "restored" ∷ codes "absent" ∷ codes "conflict" ∷ [])

false_not_true : false ≡ true → ⊥
false_not_true h = ground (arith, h)

said-of_word : (word : Text) (v : Value) → is_word word v ≡ true → text_of v ≡ word
unfolding text_of
said-of_word word (text t) h = text_eq→≡ t word h
said-of_word word (number n) h = elim (false_not_true h) [ ]
said-of_word word (negative n) h = elim (false_not_true h) [ ]
said-of_word word (flag b) h = elim (false_not_true h) [ ]
said-of_word word null h = elim (false_not_true h) [ ]
said-of_word word (foreign t) h = elim (false_not_true h) [ ]

-- one intent was resolved as `said`, or the run has failed
record Settles (intent_id said : Text) (p p' : Progress) : Type 0 where
  earlier : p'.failed ≡ false → p.failed ≡ false
  resolves :
      p'.failed ≡ false → verdicts p'.resolved ≡ verdicts p.resolved ++ (intent_id, said) ∷ []
  terminal : p'.failed ≡ false → is_terminal said ≡ true

-- the same with the state of the code's branch
Settles-as :
    (intent_id said word : Text) (p p' : Progress)
    → said ≡ word
    → Settles intent_id word p p'
    → Settles intent_id said p p'
Settles-as intent_id said word p p' e h = subst (λ x. Settles intent_id x p p') (sym e) h

module _ (intent_id : Text) (spec : Spec) (p : Progress) where
  note_done-Settles :
      (raw : Json) → Settles intent_id (codes "done") p (note_done intent_id spec raw p)
  unfolding note_done text_in text_eq
  note_done-Settles raw = elim (Bool-cases (is_true (get raw (codes "blocked")))) [
    | inl paused ↦
        rw paused (record { earlier = λ h. cc; resolves = λ h. cc; terminal = λ h. refl })
    | inr quiet ↦ rw quiet (record {
      earlier = λ h. h;
      resolves = λ h. verdicts-append p.resolved _;
      terminal = λ h. refl;
    })
  ]

  note_restored-Settles :
      (raw : Json) → Settles intent_id (codes "restored") p (note_restored intent_id spec raw p)
  unfolding note_restored text_in text_eq
  note_restored-Settles raw = record {
    earlier = λ h. h;
    resolves = λ h. verdicts-append p.resolved _;
    terminal = λ h. refl;
  }

  note_absent-Settles : Settles intent_id (codes "absent") p (note_absent intent_id spec p)
  unfolding note_absent text_in text_eq
  note_absent-Settles = elim (Bool-cases spec.recovery) [
    | inl proofed ↦ rw proofed (record {
      earlier = λ h. h;
      resolves = λ h. verdicts-append p.resolved _;
      terminal = λ h. refl;
    })
    | inr other ↦ rw other (record { earlier = λ h. cc; resolves = λ h. cc; terminal = λ h. refl })
  ]

  note_conflict-Settles :
      (raw : Json) → Settles intent_id (codes "conflict") p (note_conflict intent_id spec raw p)
  unfolding note_conflict text_in text_eq
  note_conflict-Settles raw = record {
    earlier = λ h. h;
    resolves = λ h. verdicts-append p.resolved _;
    terminal = λ h. refl;
  }

  Settles-fail : (said : Text) (p' : Progress) → p'.failed ≡ true → Settles intent_id said p p'
  Settles-fail said p' e = record { earlier = λ h. cc; resolves = λ h. cc; terminal = λ h. cc }

  Settles-if :
      (b : Bool) (said : Text) (x y : Progress)
      → (b ≡ true → Settles intent_id said p x)
      → Settles intent_id said p y
      → Settles intent_id said p (if b then x else y)
  Settles-if true said x y hx hy = hx refl
  Settles-if false said x y hx hy = hy

  -- a branch for the word that the answer reports
  Settles-word :
      (raw : Json) (word : Text) (x y : Progress)
      → Settles intent_id word p x
      → Settles intent_id (said_by (object raw)) p y
      → Settles intent_id (said_by (object raw)) p (if has_state raw word then x else y)
  Settles-word raw word x y hx hy =
      Settles-if (has_state raw word) _ x y
        (λ h. Settles-as intent_id _ word p x (said-of_word word _ h) hx) hy

  note_state-Settles :
      (raw : Json) → Settles intent_id (said_by (object raw)) p (note_state intent_id spec raw p)
  unfolding note_state
  note_state-Settles raw = Settles-word raw (codes "done") _ _ (note_done-Settles raw) (
      Settles-word raw (codes "restored") _ _ (note_restored-Settles raw) (
        Settles-word raw (codes "absent") _ _ note_absent-Settles (
          Settles-if (has_state raw (codes "blocked") || has_state raw (codes "pending")) _ _ _
            (λ _. Settles-fail _ (fail (unfinished spec raw) p) refl)
            (Settles-word raw (codes "conflict") _ _ (note_conflict-Settles raw)
              (Settles-fail _ (fail (unrecognised spec) p) refl)))))

  note_entry-Settles :
      (entry : Answer) → Settles intent_id (said_by entry) p (note_entry intent_id spec entry p)
  unfolding note_entry
  note_entry-Settles nothing = Settles-fail _ _ refl
  note_entry-Settles no_object = Settles-fail _ _ refl
  note_entry-Settles (object raw) =
      Settles-if (is_observed (validated_object raw) spec) _ _ _ (λ _. note_state-Settles raw)
        (Settles-fail _ (other_identity spec p) refl)

-- each intent with the state that the answer at its position reports
abbrev pub answered : List (Text × Spec) → List Answer → List (Text × Text)
answered [] entries = []
answered ((intent_id, spec) ∷ batch) [] = (intent_id, codes "") ∷ answered batch []
answered ((intent_id, spec) ∷ batch) (entry ∷ entries) =
    (intent_id, said_by entry) ∷ answered batch entries

abbrev pub all_terminal : List (Text × Text) → Bool
all_terminal [] = true
all_terminal ((intent_id, state) ∷ rest) = is_terminal state && all_terminal rest

-- the loop from any progress
record Covers (expected : List (Text × Text)) (p p' : Progress) : Type 0 where
  earlier : p'.failed ≡ false → p.failed ≡ false
  resolves : p'.failed ≡ false → verdicts p'.resolved ≡ verdicts p.resolved ++ expected
  terminal : p'.failed ≡ false → all_terminal expected ≡ true

Covers-cons :
    (intent_id said : Text) (expected : List (Text × Text)) (p p' p'' : Progress)
    → Settles intent_id said p p'
    → Covers expected p' p''
    → Covers ((intent_id, said) ∷ expected) p p''
Covers-cons intent_id said expected p p' p'' s c = record {
  earlier = λ h. s.earlier (c.earlier h);
  resolves = λ h.
      c.resolves h
      ∙ (ap (λ l. l ++ expected) (s.resolves (c.earlier h))
          ∙ append_assoc (verdicts p.resolved) ((intent_id, said) ∷ []) expected);
  terminal = λ h. ground (arith, s.terminal (c.earlier h), c.terminal h);
}

resolve_outcomes-Covers :
    (batch : List (Text × Spec)) (entries : List Answer) (p : Progress)
    → Covers (answered batch entries) p (resolve_outcomes batch entries p)
unfolding resolve_outcomes note_extra
resolve_outcomes-Covers [] [] p = record {
  earlier = λ h. h;
  resolves = λ h. sym (append-nil _);
  terminal = λ h. refl;
}
resolve_outcomes-Covers [] (entry ∷ entries) p = record {
  earlier = λ h. cc;
  resolves = λ h. cc;
  terminal = λ h. refl;
}
resolve_outcomes-Covers ((intent_id, spec) ∷ batch) [] p =
    Covers-cons intent_id _ _ p _ _ (Settles-fail intent_id spec p _ _ refl)
      (resolve_outcomes-Covers batch [] _)
resolve_outcomes-Covers ((intent_id, spec) ∷ batch) (entry ∷ entries) p =
    Covers-cons intent_id _ _ p _ _ (note_entry-Settles intent_id spec p entry)
      (resolve_outcomes-Covers batch entries _)

abbrev pub no_progress : Progress
no_progress = record {
  resolved = [];
  owned_deletions = [];
  bytes_total = 0;
  pruned = 0;
  failed = false;
  warnings = [];
}

-- If the answers to a batch count as no failure, every intent of the batch is resolved exactly
-- once, in the order of the batch, with the state that the answer at its position reports, and
-- that state is done, restored, absent or conflict.
pub resolve_outcomes-resolves :
    (batch : List (Text × Spec)) (entries : List Answer)
    → (resolve_outcomes batch entries no_progress).failed ≡ false
    → (verdicts (resolve_outcomes batch entries no_progress).resolved ≡ answered batch entries)
      × (all_terminal (answered batch entries) ≡ true)
resolve_outcomes-resolves batch entries h =
    let covered = resolve_outcomes-Covers batch entries no_progress in
    (covered.resolves h, covered.terminal h)
