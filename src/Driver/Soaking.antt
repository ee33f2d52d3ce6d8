-- ===== src/Driver/Soaking.antt =====
-- What a soak that passes has seen (`_soak_canaries` of proxmox_fleet/driver.py).
use proxmox_management.Prelude.{
  ℕ, Text, Bool, true, List, [], ◌∷◌, Option, none, ◌++◌, ◌≡◌, ◌⊎◌, inl, inr, ap, arith, is_empty,
}
use proxmox_management.Flow.{
  World, Event, polled, slept, Outcome, ok, raised, Env, Payload, happens, Exec,
}
use proxmox_management.Flow.Triples.{
  Meets, Ends, Meets-bind, Meets-pure, Meets-if, Meets-attempt, Meets-when, Meets-pause,
  Meets-strengthen,
}
use proxmox_management.Flow.Packages.{kuma_healthy}
use proxmox_management.Orchestration.Polling.{seen, poll_until-Shown}
use proxmox_management.Driver.{Soak, soak_canaries, soak_each, after_poll}

module _ (start : List Event) where
  -- an answer that the test accepts came behind `start`
  pub record IsSeen (good : Payload → Bool) (log : List Event) : Type 0 where
    pub recent : List Event
    pub behind : log ≡ recent ++ start
    pub answered : seen good recent ≡ true

  -- every token that has a monitor was seen healthy behind `start`
  abbrev pub AllHealthy : (Text → Text) → List Text → List Event → Type 0
  AllHealthy monitor_map [] log = Unit
  AllHealthy monitor_map (token ∷ tokens) log =
      ((is_empty (monitor_map token) ≡ true) ⊎ IsSeen (kuma_healthy (monitor_map token)) log)
      × AllHealthy monitor_map tokens log

  -- nothing but events came since `start`
  pub record IsBehind (log : List Event) : Type 0 where
    pub recent : List Event
    pub behind : log ≡ recent ++ start

  IsSeen-happens :
      (good : Payload → Bool) (e : Event) (log : List Event)
      → IsSeen good log
      → IsSeen good (e ∷ log)
  IsSeen-happens good e log h = record {
    recent = e ∷ h.recent;
    behind = ap (λ l. e ∷ l) h.behind;
    answered = ground (arith, h.answered);
  }

  IsSeen-shown :
      (good : Payload → Bool) (r : Payload) (log : List Event)
      → IsBehind log
      → good r ≡ true
      → IsSeen good (polled (ok r) ∷ log)
  IsSeen-shown good r log h fine = record {
    recent = polled (ok r) ∷ h.recent;
    behind = ap (λ l. polled (ok r) ∷ l) h.behind;
    answered = ground (arith, fine);
  }

module _ {V : Type 0} (env : Env) (soak : Soak) (monitor_map : Text → Text)
    (start : List Event) where
  -- an assertion that the events of a soak keep, and that knows what came before
  pub record Keeps (I : World V → Type 0) : Type 0 where
    pub polls : (r : Outcome Payload) (w : World V) → I w → I (happens (polled r) w)
    pub sleeps : (k : ℕ) (w : World V) → I w → I (happens (slept k) w)
    pub later : (w : World V) → I w → IsBehind start w.log

  Keeps-IsSeen :
      (I : World V → Type 0) (good : Payload → Bool)
      → Keeps I
      → Keeps (λ w. I w × IsSeen start good w.log)
  Keeps-IsSeen I good k = record {
    polls = λ r w h. (k.polls r w h.0, IsSeen-happens start good (polled r) w.log h.1);
    sleeps = λ n w h. (k.sleeps n w h.0, IsSeen-happens start good (slept n) w.log h.1);
    later = λ w h. k.later w h.0;
  }

  abbrev Passed : (World V → Type 0) → List Text → Option Text → World V → Type 0
  Passed I tokens r w = I w × (r ≡ none → AllHealthy start monitor_map tokens w.log)

  -- behind the polls of one token
  module _ (token : Text) (tokens : List Text) (I : World V → Type 0)
      (others : Exec V (Option Text)) where
    abbrev Seen : World V → Type 0
    Seen w = I w × IsSeen start (kuma_healthy (monitor_map token)) w.log

    after_poll-Meets :
        (r : Outcome Payload)
        → Meets Seen others (Passed Seen tokens) (λ _. ⊥)
        → Meets
            (Ends (λ _. Seen) I r)
            (after_poll env soak monitor_map token others r)
            (Passed I (token ∷ tokens))
            (λ _. ⊥)
    unfolding after_poll
    after_poll-Meets (ok p) rest =
        Meets-strengthen _ rest (λ r w h. (h.0.0, λ e. (inr h.0.1, h.1 e))) (λ w h. h)
    after_poll-Meets (raised e) rest = Meets-pure _ (λ w h. (h, λ x. cc))

  pub soak_each-Meets :
      (tokens : List Text) (I : World V → Type 0)
      → Keeps I
      → Meets I (soak_each env soak monitor_map tokens) (Passed I tokens) (λ _. ⊥)
  unfolding soak_each
  soak_each-Meets [] I k = Meets-pure none (λ w h. (h, λ _. tt))
  soak_each-Meets (token ∷ tokens) I k =
      Meets-if (is_empty (monitor_map token)) _ _
        (λ unmonitored.
          Meets-strengthen _ (soak_each-Meets tokens I k)
            (λ r w h. (h.0, λ e. (inl unmonitored, h.1 e))) (λ w h. h))
        (λ monitored.
          Meets-bind _ _
            (Meets-attempt _ (
              poll_until-Shown env I (λ w. IsSeen start (kuma_healthy (monitor_map token)) w.log)
                k.polls k.sleeps (kuma_healthy (monitor_map token))
                (λ r w h fine. IsSeen-shown start _ r w.log (k.later w h) fine) _ _))
            (λ r. after_poll-Meets token tokens I _ r (
              soak_each-Meets tokens (Seen token tokens I (soak_each env soak monitor_map tokens))
                (Keeps-IsSeen I _ k))))

  -- a soak does not raise, and if it passes, there is no Kuma URL or each monitored canary was
  -- seen healthy
  pub soak_canaries-Meets :
      (tokens : List Text) (I : World V → Type 0)
      → Keeps I
      → Meets I
          (soak_canaries env soak monitor_map tokens)
          (λ r w.
            I w
            × (r ≡ none
                → (is_empty soak.kuma_url ≡ true) ⊎ AllHealthy start monitor_map tokens w.log))
          (λ _. ⊥)
  unfolding soak_canaries
  soak_canaries-Meets tokens I k =
      Meets-bind {R = λ _. I} _ _
        (Meets-when _ _ (λ _. Meets-pause _ (λ w h. k.sleeps _ w h)) (λ _ w h. h))
        (λ _.
          Meets-if _ _ _ (λ unset. Meets-pure none (λ w h. (h, λ _. inl unset)))
            (λ set.
              Meets-strengthen _ (soak_each-Meets tokens I k) (λ r w h. (h.0, λ e. inr (h.1 e)))
                (λ w h. h)))
