-- ===== src/Deps/Examples.antt =====
-- A host that depends on the one before it.
use proxmox_management.Prelude.{
  Text, List, [], ◌∷◌, ◌≡◌, refl, codes, text_eq, text_in, true, if◌then◌else◌,
}
use proxmox_management.Deps.{
  index, dependency_problem, host_problems, all_problems, validate_depends_order,
}
use proxmox_management.Deps.Order.{IsOrdered, validate_depends_order-IsOrdered}

abbrev custom_hosts : List Text
custom_hosts = codes "db" ∷ codes "app" ∷ []

abbrev depends_on_map : Text → List Text
depends_on_map h = if text_eq h (codes "app") then codes "db" ∷ [] else []

no_problems : validate_depends_order custom_hosts depends_on_map ≡ []
unfolding validate_depends_order all_problems host_problems dependency_problem index text_in text_eq
no_problems = refl

app_listed : text_in (codes "app") custom_hosts ≡ true
unfolding text_in text_eq
app_listed = refl

app_needs_db : text_in (codes "db") (depends_on_map (codes "app")) ≡ true
unfolding text_in text_eq
app_needs_db = refl

validate_depends_order-IsOrdered_example : IsOrdered custom_hosts (codes "app") (codes "db")
validate_depends_order-IsOrdered_example =
    validate_depends_order-IsOrdered custom_hosts depends_on_map (codes "app") (codes "db")
      no_problems app_listed app_needs_db
