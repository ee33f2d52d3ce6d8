-- ===== src/Deps/Order.antt =====
-- The order that `validate_depends_order` of proxmox_fleet/deps.py accepts.
use proxmox_management.Prelude.{
  ◌≤◌, Text, Bool, true, false, not, ◌||◌, List, [], ◌∷◌, ◌++◌, ◌≡◌, refl, ap, ◌∙◌, if◌then◌else◌,
  text_eq, text_in, text_eq→≡, ltb, inl, inr, ◌⊎◌, arith,
}
use proxmox_management.Deps.{
  index, dependency_problem, host_problems, all_problems, validate_depends_order, missing_host,
  listed_after,
}

cons_is_not_nil : (x : Text) (xs : List Text) → (x ∷ xs) ≡ [] → ⊥
cons_is_not_nil x xs h = ground arith

false_is_not_true : false ≡ true → ⊥
false_is_not_true h = ground arith

or_cases : (a b : Bool) → (a || b) ≡ true → (a ≡ true) ⊎ (b ≡ true)
or_cases true b h = inl refl
or_cases false b h = inr h

append-parts : (xs ys : List Text) → (xs ++ ys) ≡ [] → (xs ≡ []) × (ys ≡ [])
append-parts [] ys h = (refl, h)
append-parts (x ∷ xs) ys h = elim (cons_is_not_nil x (xs ++ ys) h) [ ]

-- the dependency is a custom host that is not listed behind the host
pub IsOrdered : List Text → Text → Text → Type 0
IsOrdered hosts h d = (text_in d hosts ≡ true) × (index hosts d ≤ index hosts h)

dependency_problem-none :
    (hosts : List Text) (h d : Text) → dependency_problem hosts h d ≡ [] → IsOrdered hosts h d
unfolding dependency_problem IsOrdered
dependency_problem-none hosts h d e =
    go (text_in d hosts) refl (ltb (index hosts h) (index hosts d)) refl e
  where
    go :
        (known : Bool)
        → text_in d hosts ≡ known
        → (late : Bool) → ltb (index hosts h) (index hosts d) ≡ late
        → (if not known then missing_host h d ∷ [] else if late then listed_after h d ∷ [] else [])
          ≡ []
        → (text_in d hosts ≡ true) × (index hosts d ≤ index hosts h)
    go false k late l p = elim (cons_is_not_nil _ _ p) [ ]
    go true k true l p = elim (cons_is_not_nil _ _ p) [ ]
    go true k false l p = (k, ground (arith, l))

host_problems-none :
    (hosts : List Text) (h d : Text) (ds : List Text)
    → host_problems hosts h ds ≡ []
    → text_in d ds ≡ true
    → IsOrdered hosts h d
unfolding host_problems text_in
host_problems-none hosts h d [] e m = elim (false_is_not_true m) [ ]
host_problems-none hosts h d (x ∷ ds) e m =
    let (here, there) = append-parts (dependency_problem hosts h x) (host_problems hosts h ds) e in
    elim (or_cases (text_eq d x) (text_in d ds) m) [
      | inl same ↦
          dependency_problem-none hosts h d
            (ap (dependency_problem hosts h) (text_eq→≡ d x same) ∙ here)
      | inr later ↦ host_problems-none hosts h d ds there later
    ]

all_problems-none :
    (hosts : List Text) (depends_on : Text → List Text) (hs : List Text) (h d : Text)
    → all_problems hosts depends_on hs ≡ []
    → text_in h hs ≡ true
    → text_in d (depends_on h) ≡ true
    → IsOrdered hosts h d
unfolding all_problems text_in
all_problems-none hosts depends_on [] h d e m n = elim (false_is_not_true m) [ ]
all_problems-none hosts depends_on (x ∷ hs) h d e m n =
    let (here, there) =
      append-parts (host_problems hosts x (depends_on x)) (all_problems hosts depends_on hs) e in
    elim (or_cases (text_eq h x) (text_in h hs) m) [
      | inl same ↦
          host_problems-none hosts h d (depends_on h)
            (ap (λ k. host_problems hosts k (depends_on k)) (text_eq→≡ h x same) ∙ here) n
      | inr later ↦ all_problems-none hosts depends_on hs h d there later n
    ]

-- If no problem is reported, each dependency of each host is a custom host, and it is listed no
-- later than the host that depends on it.
pub validate_depends_order-IsOrdered :
    (hosts : List Text) (depends_on : Text → List Text) (h d : Text)
    → validate_depends_order hosts depends_on ≡ []
    → text_in h hosts ≡ true
    → text_in d (depends_on h) ≡ true
    → IsOrdered hosts h d
unfolding validate_depends_order
validate_depends_order-IsOrdered hosts depends_on h d = all_problems-none hosts depends_on hosts h d
