-- ===== src/Orchestration/Polling.antt =====
-- `poll_until` of proxmox_fleet/http.py: what an answer of the health service keeps, the loop keeps.
use proxmox_management.Prelude.{ℕ, suc, Bool, true, false, ◌||◌, List, [], ◌∷◌, none, ◌≡◌, arith}
use proxmox_management.Flow.{
  World, Event, polled, slept, Outcome, ok, raised, Env, Payload, happens, fetch,
}
use proxmox_management.Flow.Triples.{Meets, Meets-fetch}
use proxmox_management.Orchestration.{retry, poll_until}
use proxmox_management.Orchestration.Retrying.{retry_loop-Meets}

-- an answer that the test accepts
abbrev pub shows : (Payload → Bool) → Event → Bool
shows good (polled (ok payload)) = good payload
shows good _ = false

abbrev pub seen : (Payload → Bool) → List Event → Bool
seen good [] = false
seen good (e ∷ log) = shows good e || seen good log

module _ {V : Type 0} (env : Env) (I S : World V → Type 0)
    (polls : (r : Outcome Payload) (w : World V) → I w → I (happens (polled r) w))
    (sleeps : (k : ℕ) (w : World V) → I w → I (happens (slept k) w)) (good : Payload → Bool)
    (shown : (r : Payload) (w : World V) → I w → good r ≡ true → S (happens (polled (ok r)) w))
    (retries delay : ℕ) where
  abbrev Answered : Payload → World V → Type 0
  Answered p w = I w × (good p ≡ true → S w)

  get_json-Meets : Meets I (retry (fetch env) 0 10 (λ _. true) (λ e. e.is_os_error)) Answered I
  unfolding retry
  get_json-Meets =
      retry_loop-Meets (fetch env) 1 10 (λ _. true) (λ e. e.is_os_error) (λ _. I) (λ _. I)
        (λ _. Answered)
        (λ _.
          Meets-fetch env (λ r w h. (polls (ok r) w h, shown r w h))
            (λ e w h. polls (raised e) w h))
        (λ _ w h. h) (λ _ w h. h) (λ _ r w _ h. h.0) (λ _ k w h. sleeps k w h) (λ _ r w _ h. h)
        (λ w h. h) 1 none

  -- the loop returns only behind an answer that the test accepts
  pub poll_until-Shown : Meets I (poll_until env good retries delay) (λ _ w. I w × S w) I
  unfolding poll_until retry
  poll_until-Shown =
      retry_loop-Meets _ (suc retries) delay good (λ e. e.is_os_error) (λ _. I) (λ _. I)
        (λ _. Answered) (λ _. get_json-Meets) (λ _ w h. h) (λ _ w h. h) (λ _ r w _ h. h.0)
        (λ _ k w h. sleeps k w h) (λ _ r w fine h. (h.0, h.1 fine)) (λ w h. h) (suc retries) none

module _ {V : Type 0} (env : Env) (I : World V → Type 0)
    (polls : (r : Outcome Payload) (w : World V) → I w → I (happens (polled r) w))
    (sleeps : (k : ℕ) (w : World V) → I w → I (happens (slept k) w)) (good : Payload → Bool)
    (retries delay : ℕ) where
  pub poll_until-Meets :
      Meets I (poll_until env good retries delay) (λ _ w. I w × (seen good w.log ≡ true)) I
  poll_until-Meets =
      poll_until-Shown env I (λ w. seen good w.log ≡ true) polls sleeps good
        (λ r w h fine. ground (arith, fine)) retries delay
