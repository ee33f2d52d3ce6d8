-- ===== src/Cluster/Matching.antt =====
-- What an id token of proxmox_fleet/cluster.py selects.
use proxmox_management.Prelude.{
  Option, ℕ, ◌⊎◌, inl, inr, text_eq, text_eq→≡, subst, ap, ◌∙◌, Bool-cases, ==_iff, List, true,
  text_in, ◌||◌, text_eq_refl, text_eq_iff, Bool-ext, sym, Text, Bool, false, [], ◌∷◌, none, some,
  ◌≡◌, refl, arith, ◌==◌, if◌then◌else◌,
}
use proxmox_management.Cluster.{
  qualify, id_matches, cluster_agrees, matches_any, split_qualified, qualified,
}

-- a text without "/"
unfoldable pub has_slash : Text → Bool
has_slash [] = false
has_slash (c ∷ text) = (c == b'/') || has_slash text

split_qualified-plain : (t : Text) → has_slash t ≡ false → split_qualified t ≡ (none, t)
unfolding split_qualified has_slash
split_qualified-plain [] h = refl
split_qualified-plain (c ∷ t) h = ground (arith, split_qualified-plain t)

split_qualified-qualified :
    (cluster vmid : Text)
    → has_slash cluster ≡ false
    → split_qualified (qualified cluster vmid) ≡ (some cluster, vmid)
unfolding split_qualified has_slash
split_qualified-qualified [] vmid h = refl
split_qualified-qualified (c ∷ cluster) vmid h =
    ground (arith, split_qualified-qualified cluster vmid)

-- what a split stands for
abbrev joined : Option Text × Text → Text
joined (none, vmid) = vmid
joined (some cluster, vmid) = qualified cluster vmid

joined-qualify : (c : ℕ) (p : Option Text × Text) → joined (qualify c p) ≡ c ∷ joined p
joined-qualify c (none, vmid) = refl
joined-qualify c (some cluster, vmid) = refl

joined-split_qualified : (t : Text) → joined (split_qualified t) ≡ t
unfolding split_qualified
joined-split_qualified [] = refl
joined-split_qualified (c ∷ t) = elim (Bool-cases (c == b'/')) [
  | inl slash ↦ rw slash (rw ((==_iff c b'/').0 slash) refl)
  | inr other ↦
      rw other (joined-qualify c (split_qualified t) ∙ ap (λ x. c ∷ x) (joined-split_qualified t))
]

agrees→joined :
    (p : Option Text × Text) (cluster vmid : Text)
    → (if text_eq p.1 vmid then cluster_agrees p.0 cluster else false) ≡ true
    → (joined p ≡ vmid) ⊎ (joined p ≡ qualified cluster vmid)
agrees→joined (none, v) cluster vmid h = inl (ground (arith, text_eq→≡ v vmid))
agrees→joined (some c, v) cluster vmid h =
    inr (ground (arith, text_eq→≡ v vmid, text_eq→≡ c cluster))

id_matches→ :
    (token cluster vmid : Text)
    → id_matches token cluster vmid ≡ true
    → (token ≡ vmid) ⊎ (token ≡ qualified cluster vmid)
unfolding id_matches
id_matches→ token cluster vmid h =
    subst (λ (t : Text). (t ≡ vmid) ⊎ (t ≡ qualified cluster vmid)) (joined-split_qualified token)
      (agrees→joined (split_qualified token) cluster vmid h)

id_matches-plain :
    (cluster vmid : Text) → has_slash vmid ≡ false → id_matches vmid cluster vmid ≡ true
unfolding id_matches
id_matches-plain cluster vmid h = rw (split_qualified-plain vmid h) (rw (text_eq_refl vmid))

id_matches-qualified :
    (cluster vmid : Text)
    → has_slash cluster ≡ false
    → id_matches (qualified cluster vmid) cluster vmid ≡ true
unfolding id_matches
id_matches-qualified cluster vmid h =
    rw (split_qualified-qualified cluster vmid h) (rw (text_eq_refl vmid) (text_eq_refl cluster))

selected :
    (token cluster vmid : Text)
    → (token ≡ vmid) ⊎ (token ≡ qualified cluster vmid)
    → (text_eq vmid token || text_eq (qualified cluster vmid) token) ≡ true
selected token cluster vmid (inl e) = ground (arith, text_eq_iff vmid token, e)
selected token cluster vmid (inr e) = ground (arith, text_eq_iff (qualified cluster vmid) token, e)

selected← :
    (token cluster vmid : Text)
    → (text_eq vmid token || text_eq (qualified cluster vmid) token) ≡ true
    → (token ≡ vmid) ⊎ (token ≡ qualified cluster vmid)
selected← token cluster vmid h = elim (Bool-cases (text_eq vmid token)) [
  | inl same ↦ inl (sym (text_eq→≡ vmid token same))
  | inr other ↦ inr (sym (text_eq→≡ (qualified cluster vmid) token (ground (arith, h, other))))
]

module _ (cluster vmid : Text) (hc : has_slash cluster ≡ false) (hv : has_slash vmid ≡ false) where
  id_matches← :
      (token : Text)
      → (token ≡ vmid) ⊎ (token ≡ qualified cluster vmid)
      → id_matches token cluster vmid ≡ true
  id_matches← token (inl e) = rw e (id_matches-plain cluster vmid hv)
  id_matches← token (inr e) = rw e (id_matches-qualified cluster vmid hc)

  id_matches-eq :
      (token : Text)
      → id_matches token cluster vmid
        ≡ (text_eq vmid token || text_eq (qualified cluster vmid) token)
  id_matches-eq token =
      Bool-ext _ _ (λ h. selected token cluster vmid (id_matches→ token cluster vmid h))
        (λ h. id_matches← token (selected← token cluster vmid h))

  -- For a cluster name and an id without "/", a token list selects the guest if and only if it
  -- lists the bare id or the id qualified with this cluster.
  pub matches_any-selects :
      (tokens : List Text)
      → matches_any tokens cluster vmid
        ≡ (text_in vmid tokens || text_in (qualified cluster vmid) tokens)
  unfolding matches_any text_in
  matches_any-selects [] = refl
  matches_any-selects (token ∷ tokens) =
      ground (arith, id_matches-eq token, matches_any-selects tokens)
