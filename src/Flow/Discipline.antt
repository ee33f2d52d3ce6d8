-- ===== src/Flow/Discipline.antt =====
-- What a guest flow has done to the packages so far, as a test on its log.
use proxmox_management.Prelude.{Bool, true, false, not, ◌&&◌, ◌||◌, List, [], ◌∷◌, ◌≡◌, refl}
use proxmox_management.Flow.{Event, ran, run_shell, guest, upgrade, ok}

-- a package upgrade that was not simulated was started, and one ended well
abbrev pub is_attempt : Event → Bool
is_attempt (ran (run_shell guest (upgrade m dry)) r) = not dry
is_attempt _ = false

abbrev pub attempted : List Event → Bool
attempted [] = false
attempted (e ∷ log) = is_attempt e || attempted log

abbrev pub is_upgrade : Event → Bool
is_upgrade (ran (run_shell guest (upgrade m dry)) (ok r)) = not dry && not r.failed
is_upgrade _ = false

abbrev pub upgraded : List Event → Bool
upgraded [] = false
upgraded (e ∷ log) = is_upgrade e || upgraded log

abbrev pub same_mode : Bool → Bool → Bool
same_mode true b = b
same_mode false b = not b

pub same_mode_refl : (b : Bool) → same_mode b b ≡ true
same_mode_refl true = refl
same_mode_refl false = refl
