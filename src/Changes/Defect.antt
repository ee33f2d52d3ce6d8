-- ===== src/Changes/Defect.antt =====
-- The summary of an upgrade of 10, 20, … packages reads as if nothing had been upgraded.
use proxmox_management.Prelude.{
  Text, true, false, ◌≡◌, refl, [], ◌∷◌, ◌++◌, arith, contains, starts_with,
}
use proxmox_management.Flow.{apt}
use proxmox_management.Changes.{nothing_upgraded, pkg_changed, lxc_os_changed}

starts_with-append : (p s : Text) → starts_with p (p ++ s) ≡ true
unfolding starts_with
starts_with-append [] s = refl
starts_with-append (c ∷ p) s = ground (arith, starts_with-append p s)

pub contains-middle : (a p s : Text) → contains p (a ++ (p ++ s)) ≡ true
unfolding contains
contains-middle [] [] [] = refl
contains-middle [] [] (c ∷ s) = refl
contains-middle [] (d ∷ p) s = rw (starts_with-append (d ∷ p) s)
contains-middle (c ∷ a) p s = ground (arith, contains-middle a p s)

unchanged_by_summary :
    (stdout : Text)
    → contains nothing_upgraded stdout ≡ true
    → (pkg_changed stdout apt ≡ false) × (lxc_os_changed stdout ≡ false)
unfolding pkg_changed lxc_os_changed
unchanged_by_summary stdout h = (ground arith, ground arith)

-- Whatever stands before "0 upgraded, 0 newly installed" in apt's output, a digit of a larger
-- count included, the output counts as unchanged: "10 upgraded, 0 newly installed" does.
pub ten_upgraded_unchanged :
    (count rest : Text)
    → (pkg_changed (count ++ (nothing_upgraded ++ rest)) apt ≡ false)
      × (lxc_os_changed (count ++ (nothing_upgraded ++ rest)) ≡ false)
ten_upgraded_unchanged count rest =
    unchanged_by_summary (count ++ (nothing_upgraded ++ rest))
      (contains-middle count nothing_upgraded rest)
