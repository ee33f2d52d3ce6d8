-- ===== src/Orchestration/Snapshots.antt =====
-- What `snapshot_with_retry` of proxmox_fleet/executor.py leaves behind.
use proxmox_management.Prelude.{
  ℕ, zero, suc, ◌≤◌, Bool, true, false, List, [], ◌∷◌, Option, none, some, ◌≡◌, refl, sym, subst,
  ◌∙◌, ◌||◌, arith, ◌⊎◌, inl, inr,
}
use proxmox_management.Flow.{
  World, Exn, Outcome, ok, raised, Env, PrimitiveResult, Event, ran, slept, snapshot, present,
  absent, happens,
}
use proxmox_management.Flow.Triples.{
  Meets, Meets-bind, Meets-pure, Meets-invoke, Meets-keep_result, Meets-catching, Meets-look_result,
  Meets-reset_result, returns,
}
use proxmox_management.Orchestration.{retry, snapshot_with_retry, snapshot_attempt, last_or}
use proxmox_management.Orchestration.Retrying.{retry_loop-Meets}

-- a snapshot was created
abbrev pub takes : Event → Bool
takes (ran (snapshot present) (ok r)) = r.changed
takes _ = false

abbrev pub taken : List Event → Bool
taken [] = false
taken (e ∷ log) = takes e || taken log

-- the deletion of a snapshot was asked for
abbrev pub deletes : Event → Bool
deletes (ran (snapshot absent) _) = true
deletes _ = false

abbrev pub deleted : List Event → Bool
deleted [] = false
deleted (e ∷ log) = deletes e || deleted log

abbrev pub LastUnchanged : Option PrimitiveResult → Type 0
LastUnchanged none = Unit
LastUnchanged (some r) = r.changed ≡ false

last_or-unchanged :
    (o : Option PrimitiveResult) (e : Exn) → LastUnchanged o → (last_or o e).changed ≡ false
last_or-unchanged none e h = refl
last_or-unchanged (some r) e h = h

module _ {V : Type 0} (env : Env) (retries delay : ℕ) (J : World V → Type 0)
    (sleeps : (k : ℕ) (w : World V) → J w → J (happens (slept k) w))
    (keeps : (r : Option PrimitiveResult) (w : World V)
      → J w
      → J (record w { last_result = r })) where
  module _
      (tries : (r : Outcome PrimitiveResult) (w : World V)
        → J w
        → taken w.log ≡ false
        → J (happens (ran (snapshot present) r) w)) where
    record Fresh (w : World V) : Type 0 where
      frame : J w
      none_taken : taken w.log ≡ false
      last : LastUnchanged w.last_result

    record Asked (r : PrimitiveResult) (w : World V) : Type 0 where
      frame : J w
      answer : taken w.log ≡ r.changed
      last : w.last_result ≡ some r

    abbrev Known : PrimitiveResult → World V → Type 0
    Known r w = J w × (taken w.log ≡ r.changed)

    attempt_present : Meets Fresh (snapshot_attempt env present) Asked Fresh
    unfolding snapshot_attempt
    attempt_present =
        Meets-bind {R = Known} _ _
          (Meets-invoke env (snapshot present)
            (λ r w h. (tries (ok r) w h.frame h.none_taken, ground (arith, h.none_taken)))
            (λ e w h. record {
              frame = tries (raised e) w h.frame h.none_taken;
              none_taken = h.none_taken;
              last = h.last;
            }))
          (λ r.
            Meets-bind {R = λ _. Asked r} _ _
              (Meets-keep_result r
                (λ w h. record { frame = keeps (some r) w h.0; answer = h.1; last = refl }))
              (λ _. Meets-pure r (λ w h. h)))

    pub snapshot_present-Meets :
        Meets
          (λ w. J w × (taken w.log ≡ false))
          (snapshot_with_retry env present retries delay)
          Known
          (λ _. ⊥)
    unfolding snapshot_with_retry retry
    snapshot_present-Meets =
        Meets-bind {R = λ _. Fresh} _ _
          (Meets-reset_result
            (λ w h. record { frame = keeps none w h.0; none_taken = h.1; last = tt }))
          (λ _.
            Meets-catching {F = Fresh} _ _
              (retry_loop-Meets _ (suc retries) delay _ _ (λ _. Fresh) (λ _. Fresh) (λ _. Asked)
                (λ _. attempt_present) (λ _ w h. h) (λ _ w h. h)
                (λ n r w miss g. record {
                  frame = g.frame;
                  none_taken = g.answer ∙ miss;
                  last = subst LastUnchanged (sym g.last) miss;
                })
                (λ n k w h. record {
                  frame = sleeps k w h.frame;
                  none_taken = h.none_taken;
                  last = h.last;
                })
                (λ n r w hit g. (g.frame, g.answer)) (λ w h. h) (suc retries) none)
              (λ e.
                Meets-bind {R = λ o w. Fresh w × (w.last_result ≡ o)} _ _
                  (Meets-look_result (λ w h. (h, refl)))
                  (λ o. Meets-pure (last_or o e) (λ w h. (
                    h.0.frame,
                    h.0.none_taken ∙ sym (last_or-unchanged o e (subst LastUnchanged h.1 h.0.last)),
                  )))))

  module _
      (tries : (r : Outcome PrimitiveResult) (w : World V)
        → J w
        → J (happens (ran (snapshot absent) r) w)) where
    abbrev Deleting : World V → Type 0
    Deleting w = J w × (deleted w.log ≡ true)

    -- only before the first attempt no deletion was asked for
    abbrev Before : ℕ → World V → Type 0
    Before n w = J w × ((suc retries ≤ n) ⊎ (deleted w.log ≡ true))

    attempt_absent :
        (n : ℕ) → Meets (Before (suc n)) (snapshot_attempt env absent) (λ _. Deleting) Deleting
    unfolding snapshot_attempt
    attempt_absent n =
        Meets-bind {R = λ _. Deleting} _ _
          (Meets-invoke env (snapshot absent) (λ r w h. (tries (ok r) w h.0, refl))
            (λ e w h. (tries (raised e) w h.0, refl)))
          (λ r.
            Meets-bind {R = λ _. Deleting} _ _
              (Meets-keep_result r (λ w h. (keeps (some r) w h.0, h.1)))
              (λ _. Meets-pure r (λ w h. h)))

    asked_by_now : (w : World V) → Before zero w → Deleting w
    asked_by_now w (j, inl n) = elim (impossible n) [ ]
      where
        impossible : suc retries ≤ zero → ⊥
        impossible h = omega arith
    asked_by_now w (j, inr d) = (j, d)

    pub snapshot_absent-Meets :
        Meets J (snapshot_with_retry env absent retries delay) (λ _. Deleting) (λ _. ⊥)
    unfolding snapshot_with_retry retry
    snapshot_absent-Meets =
        Meets-bind {R = λ _. Before (suc retries)} _ _
          (Meets-reset_result (λ w h. (keeps none w h, inl (omega arith))))
          (λ _.
            Meets-catching {F = Deleting} _ _
              (retry_loop-Meets _ (suc retries) delay _ _ Before (λ _. Deleting) (λ _ _. Deleting)
                attempt_absent (λ _ w h. (h.0, inr h.1)) (λ _ w h. h)
                (λ n r w miss g. (g.0, inr g.1)) (λ n k w h. (sleeps k w h.0, h.1))
                (λ n r w hit g. g) asked_by_now (suc retries) none)
              (λ e.
                Meets-bind {R = λ _. Deleting} _ _ (Meets-look_result (λ w h. h))
                  (λ o. Meets-pure (last_or o e) (λ w h. h))))

-- From a world in which no snapshot was created, the creation of a snapshot returns, whatever
-- the executor answers or raises, and says `changed` if and only if a snapshot was created.
pub snapshot_with_retry-changed :
    {V : Type 0} (env : Env) (retries delay : ℕ) (w : World V)
    → taken w.log ≡ false
    → (r : PrimitiveResult) × (w' : World V) × (snapshot_with_retry env present retries delay w
        ≡ (ok r, w'))
      × (taken w'.log ≡ r.changed)
snapshot_with_retry-changed env retries delay w h =
    let (r, w', e, k) =
      returns _ w
        (snapshot_present-Meets env retries delay (λ _. Unit) (λ k w j. tt) (λ r w j. tt)
          (λ r w j t. tt))
        (tt, h) in
    (r, w', e, k.1)
