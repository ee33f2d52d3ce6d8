-- ===== src/Deps.antt =====
-- proxmox_fleet/deps.py. `depends_on_map` is a function, with the empty list for a missing host.
pub mod Order
pub mod Examples
use proxmox_management.Prelude.{
  ℕ, zero, suc, Text, Bool, true, false, not, ◌||◌, List, [], ◌∷◌, ◌++◌, if◌then◌else◌, codes,
  text_eq, text_in, ltb,
}

-- hosts.index(x), for x in hosts
unfoldable pub index : List Text → Text → ℕ
index [] x = 0
index (y ∷ ys) x = let rest = index ys x in if text_eq x y then 0 else suc rest

abbrev pub missing_host : Text → Text → Text
missing_host h d = h ++ (codes " depends_on missing custom host " ++ d)

abbrev pub listed_after : Text → Text → Text
listed_after h d =
    h
    ++ (codes " depends_on "
        ++ (d
            ++ codes
                " which is listed AFTER it; reorder [custom_hosts] so dependencies come first"))

-- the problem of one dependency
unfoldable pub dependency_problem : List Text → Text → Text → List Text
dependency_problem hosts h d =
    if not (text_in d hosts)
    then missing_host h d ∷ []
    else if ltb (index hosts h) (index hosts d)
    then listed_after h d ∷ []
    else []

-- the inner loop
unfoldable pub host_problems : List Text → Text → List Text → List Text
host_problems hosts h [] = []
host_problems hosts h (d ∷ ds) = dependency_problem hosts h d ++ host_problems hosts h ds

-- the outer loop, over the hosts that are left
unfoldable pub all_problems : List Text → (Text → List Text) → List Text → List Text
all_problems hosts depends_on [] = []
all_problems hosts depends_on (h ∷ hs) =
    host_problems hosts h (depends_on h) ++ all_problems hosts depends_on hs

unfoldable pub validate_depends_order : List Text → (Text → List Text) → List Text
validate_depends_order hosts depends_on = all_problems hosts depends_on hosts

unfoldable pub dependency_failed : List Text → List Text → Bool
dependency_failed [] failed_hosts = false
dependency_failed (d ∷ ds) failed_hosts =
    text_in d failed_hosts || dependency_failed ds failed_hosts
