-- ===== src/Changes.antt =====
-- proxmox_fleet/changes.py: did an update change anything?
pub mod Defect
pub mod Examples
use proxmox_management.Prelude.{
  ℕ, Text, Bool, true, false, not, ◌&&◌, ◌||◌, Option, none, some, if◌then◌else◌, ◌==◌, codes,
  contains, strip, drop_v, is_empty, text_eq,
}
use proxmox_management.Flow.{PkgMgr, apt, dnf, apk}

unfoldable pub normalize_version : Text → Text
unfolding strip drop_v
normalize_version value = drop_v (strip value)

unfoldable pub is_outdated : Text → Text → Bool
unfolding normalize_version text_eq
is_outdated ver_before latest_ver =
    is_empty (strip latest_ver)
    || not (text_eq (normalize_version ver_before) (normalize_version latest_ver))

abbrev pub nothing_upgraded : Text
nothing_upgraded = codes "0 upgraded, 0 newly installed"

unfoldable pub lxc_os_changed : Text → Bool
unfolding contains
lxc_os_changed stdout =
    not (is_empty stdout)
    && ((contains (codes "upgraded") stdout
          || contains (codes "Installing") stdout
          || contains (codes "Upgrading") stdout
          || contains (codes "Setting up") stdout)
        && not (contains nothing_upgraded stdout))

unfoldable pub dpkg_hash_differs : Text → Text → Bool
unfolding strip text_eq
dpkg_hash_differs before after =
    not (is_empty (strip before))
    && (not (is_empty (strip after)) && not (text_eq (strip before) (strip after)))

unfoldable pub pkg_changed : Text → PkgMgr → Bool
unfolding contains
pkg_changed stdout apt = not (is_empty stdout) && not (contains nothing_upgraded stdout)
pkg_changed stdout dnf = not (is_empty stdout) && not (contains (codes "Nothing to do") stdout)
pkg_changed stdout apk =
    not (is_empty stdout) && not (contains (codes "0 upgraded, 0 installed, 0 removed") stdout)

-- changed_when.type of a custom system's configuration
pub data ChangedWhenType : Type 0 where
  version command always : ChangedWhenType

-- the comparison of two versions, when both are known
abbrev pub both_known : Text → Text → Bool
both_known before after = not (is_empty before) && not (is_empty after)

-- `changed_cmd_rc is not None and not changed_cmd_skipped`
abbrev pub command_result : Option ℕ → Bool → Option ℕ
command_result rc true = none
command_result rc false = rc

abbrev pub versions_changed : Text → Text → Bool
versions_changed before after = if both_known before after then not (text_eq before after) else true

unfoldable pub custom_changed : ChangedWhenType → Text → Text → Option ℕ → Bool → Bool
unfolding strip text_eq
custom_changed always ver_before ver_after rc skipped = true
custom_changed version ver_before ver_after rc skipped =
    versions_changed (strip ver_before) (strip ver_after)
custom_changed command ver_before ver_after rc skipped = elim (command_result rc skipped) [
  | some code ↦ code == 0
  | none ↦ versions_changed (strip ver_before) (strip ver_after)
]
