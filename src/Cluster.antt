-- ===== src/Cluster.antt =====
-- proxmox_fleet/cluster.py. A settings value is a text already; a map is a function.
pub mod Matching
pub mod Examples
use proxmox_management.Prelude.{
  ℕ, Text, Bool, true, false, ◌&&◌, ◌||◌, List, [], ◌∷◌, ◌++◌, Option, none, some, if◌then◌else◌,
  ◌==◌, leb, codes, text_eq, is_empty,
}

-- DEFAULT_CLUSTER
abbrev pub default_cluster : Text
default_cluster = codes "default"

-- the prefix up to the first "/" and what is behind it
abbrev pub qualify : ℕ → Option Text × Text → Option Text × Text
qualify c (none, vmid) = (none, c ∷ vmid)
qualify c (some cluster, vmid) = (some (c ∷ cluster), vmid)

unfoldable pub split_qualified : Text → Option Text × Text
split_qualified [] = (none, [])
split_qualified (c ∷ token) =
    let rest = qualify c (split_qualified token) in if c == b'/' then (some [], token) else rest

-- str.isdigit of a text behind its first character, for ASCII text
unfoldable pub all_digits : Text → Bool
all_digits [] = true
all_digits (c ∷ text) = (leb b'0' c && leb c b'9') && all_digits text

unfoldable pub token_is_id : Text → Bool
unfolding split_qualified all_digits
token_is_id token =
    let vmid = (split_qualified token).1 in if is_empty vmid then false else all_digits vmid

abbrev pub cluster_agrees : Option Text → Text → Bool
cluster_agrees none cluster = true
cluster_agrees (some named) cluster = text_eq named cluster

unfoldable pub id_matches : Text → Text → Text → Bool
id_matches token cluster vmid =
    let (tok_cluster, tok_vmid) = split_qualified token in
    if text_eq tok_vmid vmid then cluster_agrees tok_cluster cluster else false

unfoldable pub matches_any : List Text → Text → Text → Bool
unfolding id_matches split_qualified
matches_any [] cluster vmid = false
matches_any (token ∷ tokens) cluster vmid =
    id_matches token cluster vmid || matches_any tokens cluster vmid

abbrev pub qualified : Text → Text → Text
qualified cluster vmid = cluster ++ (codes "/" ++ vmid)

abbrev pub value_or : Option Text → Text → Text
value_or none default = default
value_or (some value) default = value

unfoldable pub map_lookup : (Text → Option Text) → Text → Text → Text → Text
map_lookup mapping cluster vmid default = elim (mapping (qualified cluster vmid)) [
  | none ↦ value_or (mapping vmid) default
  | some value ↦ value
]

-- --limit
abbrev pub limit_selects_id : List Text → Text → Text → Bool
limit_selects_id = matches_any

pub record ApiCreds : Type 0 where
  pub api_user : Text
  pub api_token_id : Text
  pub api_token_secret : Text

-- the override of one field, unless it is empty
abbrev pub field : Text → Text → Text
field override_value global_value = if is_empty override_value then global_value else override_value

-- the global values and the overrides of each cluster
unfoldable pub api_creds : ApiCreds → (Text → Option ApiCreds) → Text → ApiCreds
api_creds global pve_clusters cluster = elim (pve_clusters cluster) [
  | none ↦ global
  | some override ↦ record {
    api_user = field override.api_user global.api_user;
    api_token_id = field override.api_token_id global.api_token_id;
    api_token_secret = field override.api_token_secret global.api_token_secret;
  }
]
