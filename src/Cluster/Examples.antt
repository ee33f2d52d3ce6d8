-- ===== src/Cluster/Examples.antt =====
-- A token list at a concrete guest.
use proxmox_management.Prelude.{
  List, Text, text_eq, false, [], ◌∷◌, ◌||◌, ◌≡◌, refl, codes, text_in,
}
use proxmox_management.Cluster.{matches_any, qualified}
use proxmox_management.Cluster.Matching.{has_slash, matches_any-selects}

abbrev tokens : List Text
tokens = codes "pve1" ∷ codes "alpha/101" ∷ []

matches_any-selects_example :
    matches_any tokens (codes "alpha") (codes "101")
    ≡ (text_in (codes "101") tokens || text_in (qualified (codes "alpha") (codes "101")) tokens)
unfolding has_slash
matches_any-selects_example = matches_any-selects (codes "alpha") (codes "101") refl refl tokens

other_cluster : matches_any tokens (codes "beta") (codes "101") ≡ false
unfolding matches_any text_eq
other_cluster = refl
