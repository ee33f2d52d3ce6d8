-- ===== src/Orchestration/Retrying.antt =====
-- The rule for `retry` of proxmox_fleet/orchestration.py, and what `snapshot_with_retry` of
-- proxmox_fleet/executor.py answers.
use proxmox_management.Prelude.{
  ℕ, zero, suc, Bool, true, false, Option, none, some, ◌≡◌, Bool-cases, inl, inr,
}
use proxmox_management.Flow.{World, Exec, Exn, Outcome, ok, raised, slept, happens}
use proxmox_management.Flow.Triples.{
  Meets, Ends, Meets-raise, Meets-bind, Meets-attempt, Meets-when, Meets-pause, Meets-pure,
  Meets-weaken,
}
use proxmox_management.Orchestration.{retry_loop, again, next_round, judge, give_up, later}

-- P holds before an attempt when n are left, G after one that answered, F after one that raised
module _ {V R : Type 0} (fn : Exec V R) (attempts delay : ℕ) (until : R → Bool)
    (exceptions : Exn → Bool) (P F : ℕ → World V → Type 0) (G : ℕ → R → World V → Type 0)
    {Q : R → World V → Type 0} {E : World V → Type 0}
    (tries : (n : ℕ) → Meets (P (suc n)) fn (G n) (F n))
    (caught : (n : ℕ) (w : World V) → F n w → P n w) (escaped : (n : ℕ) (w : World V) → F n w → E w)
    (fails : (n : ℕ) (r : R) (w : World V) → until r ≡ false → G n r w → P n w)
    (sleeps : (n k : ℕ) (w : World V) → P n w → P n (happens (slept k) w))
    (succeeds : (n : ℕ) (r : R) (w : World V) → until r ≡ true → G n r w → Q r w)
    (ends : (w : World V) → P zero w → E w) where
  module _ (n : ℕ) (last : Option Exn) (loop : Option Exn → Exec V R)
      (rest : (e : Option Exn) → Meets (P n) (loop e) Q E) where
    next_round-again : (e : Option Exn) → Meets (P n) (next_round delay n loop last (again e)) Q E
    unfolding next_round
    next_round-again e =
        Meets-bind _ _ (Meets-when _ _ (λ _. Meets-pause delay (sleeps n delay)) (λ _ w p. p))
          (λ _. rest (later e last))

    next_round-judge :
        (r : Outcome R)
        → Meets (Ends (G n) (F n) r) (next_round delay n loop last (judge until exceptions r)) Q E
    unfolding next_round judge
    next_round-judge (ok r) = elim (Bool-cases (until r)) [
      | inl good ↦ rw good (Meets-pure r (λ w g. succeeds n r w good g))
      | inr bad ↦ rw bad (Meets-weaken _ (next_round-again none) (λ w g. fails n r w bad g))
    ]
    next_round-judge (raised e) = elim (Bool-cases (exceptions e)) [
      | inl handled ↦ rw handled (Meets-weaken _ (next_round-again (some e)) (caught n))
      | inr other ↦ rw other (Meets-raise e (escaped n))
    ]

  pub retry_loop-Meets :
      (n : ℕ) (last : Option Exn)
      → Meets (P n) (retry_loop fn attempts delay until exceptions n last) Q E
  unfolding retry_loop
  retry_loop-Meets zero (some e) = unfold give_up in Meets-raise e ends
  retry_loop-Meets zero none = unfold give_up in Meets-raise _ ends
  retry_loop-Meets (suc n) last =
      Meets-bind _ _ (Meets-attempt fn (tries n)) (next_round-judge n last _ (retry_loop-Meets n))
