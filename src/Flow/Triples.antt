-- ===== src/Flow/Triples.antt =====
-- Rules for what holds before and after an action of a flow, one for each way to build one.
use proxmox_management.Prelude.{ℕ, Bool, true, false, Option, none, some, ◌≡◌, refl, if◌then◌else◌}
use proxmox_management.Flow.{
  World, Exec, Outcome, ok, raised, Exn, Env, Call, PrimitiveResult, Payload, AlloyResult, ran,
  polled, reconciled, slept, happens, pure, raise, ◌>>=◌, continue, attempt, catching, settle,
  finally, resettle, invoke, fetch, reconcile, pause, assign, keep_result, reset_result, look,
  look_result, when◌then◌,
}

-- the assertion that fits how the action ended
abbrev pub Ends :
    {V A : Type 0} → (A → World V → Type 0) → (World V → Type 0) → Outcome A → World V → Type 0
Ends Q E (ok a) w = Q a w
Ends Q E (raised e) w = E w

-- from a world with P, `m` returns a value into Q or raises into E
pub record Meets {V A : Type 0} (P : World V → Type 0) (m : Exec V A) (Q : A → World V → Type 0)
    (E : World V → Type 0) : Type 0 where
  pub at : (w : World V) → P w → Ends Q E (m w).0 (m w).1

module _ {V A : Type 0} {P : World V → Type 0} {Q : A → World V → Type 0}
    {E : World V → Type 0} where
  pub Meets-pure : (a : A) → ((w : World V) → P w → Q a w) → Meets P (pure a) Q E
  unfolding pure
  Meets-pure a h = record { at = h }

  pub Meets-raise : (e : Exn) → ((w : World V) → P w → E w) → Meets P (raise {A = A} e) Q E
  unfolding raise
  Meets-raise e h = record { at = h }

  pub Meets-if :
      (b : Bool) (m n : Exec V A)
      → (b ≡ true → Meets P m Q E)
      → (b ≡ false → Meets P n Q E)
      → Meets P (if b then m else n) Q E
  Meets-if true m n hm hn = hm refl
  Meets-if false m n hm hn = hn refl

  pub Meets-catching :
      {F : World V → Type 0} (m : Exec V A) (h : Exn → Exec V A)
      → Meets P m Q F
      → ((e : Exn) → Meets F (h e) Q E)
      → Meets P (catching m h) Q E
  unfolding catching
  Meets-catching {F = F} m h hm hh = record { at = λ w p. go (m w).0 (m w).1 (hm.at w p) }
    where
      go : (r : Outcome A) (w : World V) → Ends Q F r w → Ends Q E (settle r h w).0 (settle r h w).1
      go (ok a) w q = q
      go (raised e) w q = (hh e).at w q

  pub Meets-weaken :
      {P' : World V → Type 0} (m : Exec V A)
      → Meets P' m Q E
      → ((w : World V) → P w → P' w)
      → Meets P m Q E
  Meets-weaken m hm h = record { at = λ w p. hm.at w (h w p) }

  pub Meets-strengthen :
      {Q' : A → World V → Type 0} {E' : World V → Type 0} (m : Exec V A)
      → Meets P m Q' E'
      → ((a : A) (w : World V) → Q' a w → Q a w)
      → ((w : World V) → E' w → E w)
      → Meets P m Q E
  Meets-strengthen {Q' = Q'} {E' = E'} m hm hq he = record {
    at = λ w p. go (m w).0 (m w).1 (hm.at w p);
  }
    where
      go : (r : Outcome A) (w : World V) → Ends Q' E' r w → Ends Q E r w
      go (ok a) w q = hq a w q
      go (raised e) w q = he w q

module _ {V A B : Type 0} {P : World V → Type 0} {R : A → World V → Type 0}
    {Q : B → World V → Type 0} {E : World V → Type 0} where
  pub Meets-bind :
      (m : Exec V A) (f : A → Exec V B)
      → Meets P m R E
      → ((a : A) → Meets (R a) (f a) Q E)
      → Meets P (m >>= f) Q E
  unfolding ◌>>=◌
  Meets-bind m f hm hf = record { at = λ w p. go (m w).0 (m w).1 (hm.at w p) }
    where
      go :
          (r : Outcome A) (w : World V)
          → Ends R E r w
          → Ends Q E (continue r f w).0 (continue r f w).1
      go (ok a) w q = (hf a).at w q
      go (raised e) w q = q

-- `finally`, where the clean-up does not raise
module _ {V A : Type 0} {P : World V → Type 0} {R Q : A → World V → Type 0}
    {E F : World V → Type 0} where
  pub Meets-finally :
      (m : Exec V A) (c : Exec V (Unit {0}))
      → Meets P m R E
      → ((a : A) → Meets (R a) c (λ _. Q a) F)
      → Meets E c (λ _. F) F
      → Meets P (finally m c) Q F
  unfolding finally
  Meets-finally m c hm hc he = record { at = λ w p. go (m w).0 (m w).1 (hm.at w p) }
    where
      done :
          (a : A) (r : Outcome (Unit {0})) (w : World V)
          → Ends (λ _. Q a) F r w
          → Ends Q F (resettle (ok a) r) w
      done a (ok _) w q = q
      done a (raised _) w q = q

      gone :
          (e : Exn) (r : Outcome (Unit {0})) (w : World V)
          → Ends (λ _. F) F r w
          → Ends Q F (resettle {A = A} (raised e) r) w
      gone e (ok _) w q = q
      gone e (raised _) w q = q

      go : (r : Outcome A) (w : World V) → Ends R E r w → Ends Q F (resettle r (c w).0) (c w).1
      go (ok a) w q = done a (c w).0 (c w).1 ((hc a).at w q)
      go (raised e) w q = gone e (c w).0 (c w).1 (he.at w q)

module _ {V : Type 0} {P : World V → Type 0} {E : World V → Type 0} (env : Env) where
  pub Meets-invoke :
      {Q : PrimitiveResult → World V → Type 0} (c : Call)
      → ((r : PrimitiveResult) (w : World V) → P w → Q r (happens (ran c (ok r)) w))
      → ((e : Exn) (w : World V) → P w → E (happens (ran c (raised e)) w))
      → Meets P (invoke env c) Q E
  unfolding invoke
  Meets-invoke {Q = Q} c hq he = record { at = λ w p. go w p (env.primitive w.log c) }
    where
      go : (w : World V) → P w → (r : Outcome PrimitiveResult) → Ends Q E r (happens (ran c r) w)
      go w p (ok r) = hq r w p
      go w p (raised e) = he e w p

  pub Meets-fetch :
      {Q : Payload → World V → Type 0}
      → ((r : Payload) (w : World V) → P w → Q r (happens (polled (ok r)) w))
      → ((e : Exn) (w : World V) → P w → E (happens (polled (raised e)) w))
      → Meets P (fetch env) Q E
  unfolding fetch
  Meets-fetch {Q = Q} hq he = record { at = λ w p. go w p (env.heartbeats w.log) }
    where
      go : (w : World V) → P w → (r : Outcome Payload) → Ends Q E r (happens (polled r) w)
      go w p (ok r) = hq r w p
      go w p (raised e) = he e w p

  pub Meets-reconcile :
      {Q : AlloyResult → World V → Type 0} (dry_run : Bool)
      → ((r : AlloyResult) (w : World V) → P w → Q r (happens (reconciled dry_run (ok r)) w))
      → ((e : Exn) (w : World V) → P w → E (happens (reconciled dry_run (raised e)) w))
      → Meets P (reconcile env dry_run) Q E
  unfolding reconcile
  Meets-reconcile {Q = Q} dry_run hq he = record { at = λ w p. go w p (env.alloy w.log dry_run) }
    where
      go :
          (w : World V)
          → P w
          → (r : Outcome AlloyResult) → Ends Q E r (happens (reconciled dry_run r) w)
      go w p (ok r) = hq r w p
      go w p (raised e) = he e w p

module _ {V : Type 0} {P : World V → Type 0} {Q : Unit {0} → World V → Type 0}
    {E : World V → Type 0} where
  pub Meets-pause :
      (n : ℕ) → ((w : World V) → P w → Q tt (happens (slept n) w)) → Meets P (pause n) Q E
  unfolding pause
  Meets-pause n h = record { at = h }

  pub Meets-assign :
      (f : V → V)
      → ((w : World V) → P w → Q tt (record w { vars = f w.vars }))
      → Meets P (assign f) Q E
  unfolding assign
  Meets-assign f h = record { at = h }

  pub Meets-keep_result :
      (r : PrimitiveResult)
      → ((w : World V) → P w → Q tt (record w { last_result = some r }))
      → Meets P (keep_result r) Q E
  unfolding keep_result
  Meets-keep_result r h = record { at = h }

  pub Meets-reset_result :
      ((w : World V) → P w → Q tt (record w { last_result = none })) → Meets P reset_result Q E
  unfolding reset_result
  Meets-reset_result h = record { at = h }

  pub Meets-when :
      (b : Bool) (m : Exec V (Unit {0}))
      → (b ≡ true → Meets P m Q E)
      → (b ≡ false → (w : World V) → P w → Q tt w)
      → Meets P (when b then m) Q E
  unfolding when◌then◌
  Meets-when true m hm hn = hm refl
  Meets-when false m hm hn = Meets-pure tt (hn refl)

module _ {V : Type 0} {P E : World V → Type 0} where
  pub Meets-look :
      {Q : V → World V → Type 0} → ((w : World V) → P w → Q w.vars w) → Meets P look Q E
  unfolding look
  Meets-look h = record { at = h }

  pub Meets-look_result :
      {Q : Option PrimitiveResult → World V → Type 0}
      → ((w : World V) → P w → Q w.last_result w)
      → Meets P look_result Q E
  unfolding look_result
  Meets-look_result h = record { at = h }

module _ {V A : Type 0} {P : World V → Type 0} {Q : A → World V → Type 0}
    {E : World V → Type 0} where
  pub Meets-attempt :
      {F : World V → Type 0} (m : Exec V A) → Meets P m Q E → Meets P (attempt m) (Ends Q E) F
  unfolding attempt
  Meets-attempt m hm = record { at = hm.at }

-- an action that cannot raise
module _ {V A : Type 0} {P : World V → Type 0} {Q : A → World V → Type 0} where
  pub returns :
      (m : Exec V A) (w : World V)
      → Meets P m Q (λ _. ⊥)
      → P w
      → (a : A) × (w' : World V) × (m w ≡ (ok a, w')) × Q a w'
  returns m w hm p = go (m w) refl (hm.at w p)
    where
      go :
          (x : Outcome A × World V)
          → m w ≡ x
          → Ends Q (λ _. ⊥) x.0 x.1
          → (a : A) × (w' : World V) × (m w ≡ (ok a, w')) × Q a w'
      go (ok a, w') e q = (a, w', e, q)
      go (raised x, w1) e q = elim q [ ]
