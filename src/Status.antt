-- ===== src/Status.antt =====
-- proxmox_fleet/status.py: the status strings of the briefing, and which records it shows.
pub mod Reporting
pub mod Examples
use proxmox_management.Prelude.{
  ℕ, Text, Bool, true, false, not, ◌&&◌, ◌||◌, Option, none, some, if◌then◌else◌, ◌==◌, ◌++◌, codes,
  contains, strip, lower, drop_v, is_empty, text_eq, decimal,
}
use proxmox_management.Changes.{
  ChangedWhenType, version, command, always, dpkg_hash_differs, both_known, command_result,
}

unfoldable pub reboot_suffix : Bool → Text
reboot_suffix reboot_done = if reboot_done then codes " + Rebooted" else codes ""

abbrev pub text_or : Option Text → Text → Text
text_or none default = default
text_or (some t) default = t

-- the keyword arguments of `custom_status`
pub record CustomArgs : Type 0 where
  pub dry_run : Bool
  pub changed_when_type : ChangedWhenType
  pub update_only_if_outdated : Bool
  pub is_outdated : Bool
  pub ver_before : Option Text
  pub ver_after : Option Text
  pub latest_ver : Option Text
  pub changed_cmd_rc : Option ℕ
  pub changed_cmd_skipped : Bool
  pub reboot_done : Bool

-- tiers 5 and 6
unfoldable pub custom_version_status : Text → Text → Text → Text
unfolding text_eq
custom_version_status before after reboot =
    if both_known before after
    then (if text_eq before after
        then codes "OK"
        else codes "Updated: " ++ (before ++ (codes " → " ++ (after ++ reboot))))
    else codes "Updated" ++ reboot

-- tiers 3 to 6
unfoldable pub custom_change_status : ChangedWhenType → Option ℕ → Text → Text → Text → Text
unfolding custom_version_status
custom_change_status always rc before after reboot = codes "Updated" ++ reboot
custom_change_status version rc before after reboot = custom_version_status before after reboot
custom_change_status command none before after reboot = custom_version_status before after reboot
custom_change_status command (some code) before after reboot =
    if code == 0 then codes "Updated" ++ reboot else codes "OK"

unfoldable pub custom_status : CustomArgs → Text
unfolding custom_change_status reboot_suffix strip
custom_status a =
    if a.dry_run
    then codes "dry-run: "
      ++ (text_or a.ver_before (codes "?")
          ++ (codes " → " ++ text_or a.latest_ver (codes "unknown")))
    else if a.update_only_if_outdated && not a.is_outdated
    then codes "OK (up to date)"
    else custom_change_status a.changed_when_type
        (command_result a.changed_cmd_rc a.changed_cmd_skipped)
        (strip (text_or a.ver_before (codes ""))) (strip (text_or a.ver_after (codes "")))
        (reboot_suffix a.reboot_done)

unfoldable pub custom_should_report : Text → Bool → Bool
unfolding strip lower contains
custom_should_report status dry_run =
    dry_run
    || (contains (codes "updated") (lower (strip status))
        || contains (codes "failed") (lower (strip status)))

-- the same tree in custom_rescue_status, lxc_rescue_app_status and vm_rescue_status
unfoldable pub rescue_status : Bool → Bool → Text
rescue_status rollback_done snapshot_failed =
    if rollback_done
    then codes "FAILED + ROLLED BACK"
    else if snapshot_failed
    then codes "FAILED (NO SNAPSHOT)"
    else codes "FAILED"

unfoldable pub custom_rescue_status : Bool → Bool → Text
custom_rescue_status rollback_done snapshot_failed = rescue_status rollback_done snapshot_failed

unfoldable pub lxc_rescue_app_status : Bool → Bool → Text
lxc_rescue_app_status rollback_done snapshot_failed = rescue_status rollback_done snapshot_failed

unfoldable pub vm_rescue_status : Bool → Bool → Text
vm_rescue_status rollback_done snapshot_failed = rescue_status rollback_done snapshot_failed

-- the keyword arguments of `lxc_app_did_update` and `lxc_app_status`
pub record AppArgs : Type 0 where
  pub is_template : Bool
  pub is_running : Bool
  pub dry_run : Bool
  pub dry_run_status : Text
  pub no_update_script : Bool
  pub excluded : Bool
  pub app_failed : Bool
  pub app_changed : Bool
  pub ver_before : Text
  pub ver_after : Text
  pub dpkg_before : Text
  pub dpkg_after : Text

-- the comparisons of `lxc_app_did_update`, behind its first guard
unfoldable pub app_differs : Text → Text → Text → Text → Bool
unfolding strip drop_v text_eq dpkg_hash_differs
app_differs ver_before ver_after dpkg_before dpkg_after =
    if both_known (strip ver_before) (strip ver_after)
    then not (text_eq (drop_v (strip ver_before)) (drop_v (strip ver_after)))
    else if dpkg_hash_differs dpkg_before dpkg_after
    then true
    else if both_known (strip dpkg_before) (strip dpkg_after)
    then false
    else true

unfoldable pub lxc_app_did_update : AppArgs → Bool
unfolding app_differs
lxc_app_did_update a =
    if a.no_update_script || (a.excluded || (a.app_failed || not a.app_changed))
    then false
    else app_differs a.ver_before a.ver_after a.dpkg_before a.dpkg_after

-- the branch `if app_changed`
unfoldable pub changed_app_status : Bool → Text → Text → Text
changed_app_status did_update before after =
    if both_known before after
    then (if did_update
        then codes "Updated: " ++ (before ++ (codes " → " ++ after))
        else codes "OK")
    else if did_update
    then codes "UPDATED"
    else codes "OK"

unfoldable pub lxc_app_status : AppArgs → Text
unfolding app_differs changed_app_status strip
lxc_app_status a =
    if a.is_template
    then codes "TEMPLATE"
    else if not a.is_running
    then codes "NEVER STARTED"
    else if a.dry_run
    then (if is_empty a.dry_run_status then codes "dry-run" else a.dry_run_status)
    else if a.no_update_script
    then codes "NO SCRIPT"
    else if a.excluded
    then codes "SKIPPED"
    else if a.app_failed
    then codes "FAILED"
    else if a.app_changed
    then changed_app_status (app_differs a.ver_before a.ver_after a.dpkg_before a.dpkg_after)
        (strip a.ver_before) (strip a.ver_after)
    else codes "OK"

-- the keyword arguments of `lxc_os_status`
pub record OsArgs : Type 0 where
  pub is_template : Bool
  pub is_running : Bool
  pub dry_run : Bool
  pub excluded : Bool
  pub os_failed : Bool
  pub os_changed : Bool
  pub pkg_count : Option ℕ
  pub reboot_done : Bool

unfoldable pub count_suffix : Option ℕ → Text
unfolding decimal
count_suffix none = codes ""
count_suffix (some n) = codes " (" ++ (decimal n ++ codes " upgraded)")

unfoldable pub lxc_os_status : OsArgs → Text
unfolding count_suffix
lxc_os_status a =
    if a.is_template || (not a.is_running || a.dry_run)
    then codes ""
    else if a.excluded
    then codes "SKIPPED"
    else if a.os_failed
    then codes "FAILED"
    else if a.reboot_done
    then codes "Updated" ++ (count_suffix a.pkg_count ++ codes " & Rebooted")
    else if a.os_changed
    then codes "Updated" ++ count_suffix a.pkg_count
    else codes "OK"

unfoldable pub lxc_should_report : Text → Text → Bool → Bool → Bool
unfolding strip lower contains
lxc_should_report app os dry_run script_expected =
    if dry_run
    then true
    else if script_expected && contains (codes "no script") (lower (strip app))
    then true
    else if contains (codes "updated") (lower (strip app))
        || (contains (codes "failed") (lower (strip app))
            || contains (codes "never started") (lower (strip app)))
    then true
    else contains (codes "updated") (lower (strip os))
      || contains (codes "failed") (lower (strip os))

-- vm_status and remote_status are the same tree
unfoldable pub guest_status : Bool → Bool → Bool → Bool → Text
guest_status pkg_changed rebooted dry_run failed =
    if failed
    then codes "FAILED"
    else if dry_run
    then (if pkg_changed then codes "WOULD UPDATE" else codes "OK")
    else if rebooted
    then codes "UPDATED & REBOOTED"
    else if pkg_changed
    then codes "UPDATED"
    else codes "OK"

-- vm_should_report and remote_should_report
unfoldable pub guest_should_report : Bool → Bool → Bool → Bool
guest_should_report pkg_changed rebooted failed = failed || (pkg_changed || rebooted)

unfoldable pub vm_status : Bool → Bool → Bool → Bool → Text
vm_status pkg_changed rebooted dry_run failed = guest_status pkg_changed rebooted dry_run failed

unfoldable pub remote_status : Bool → Bool → Bool → Bool → Text
remote_status pkg_changed rebooted dry_run failed = guest_status pkg_changed rebooted dry_run failed

unfoldable pub remote_should_report : Bool → Bool → Bool → Bool
remote_should_report pkg_changed rebooted failed = guest_should_report pkg_changed rebooted failed

unfoldable pub node_status : Bool → Bool → Bool → Bool → Bool → Text
node_status apt_changed reboot_needed rebooted is_manager reboot_disabled =
    if rebooted
    then codes "UPDATED & REBOOTED"
    else if reboot_needed && (is_manager || reboot_disabled)
    then codes "UPDATED (MANUAL REBOOT REQ)"
    else if reboot_needed
    then codes "REBOOT FAILED"
    else if apt_changed
    then codes "UPDATED"
    else codes "OK"

unfoldable pub manager_status : Bool → Bool → Text
manager_status apt_changed reboot_needed =
    if reboot_needed
    then codes "UPDATED (MANUAL REBOOT REQ)"
    else if apt_changed
    then codes "UPDATED"
    else codes "OK"

unfoldable pub lxc_dry_run_status : Text → Bool → Text → Text → Text
unfolding strip drop_v text_eq
lxc_dry_run_status gh_repo fetch_ok installed_ver latest_tag =
    let installed = strip installed_ver in
    let tag = strip (if is_empty latest_tag then codes "?" else latest_tag) in
    if is_empty gh_repo
    then codes "no ver info"
    else if not fetch_ok
    then codes "fetch failed"
    else if is_empty installed
    then codes "unknown (latest: " ++ (tag ++ codes ")")
    else if text_eq (drop_v installed) (drop_v tag)
    then installed
    else installed ++ (codes " → " ++ tag)
