-- ===== src/Status/Examples.antt =====
-- Runs of the status lines at concrete inputs.
use proxmox_management.Prelude.{false, none, some, codes, ◌≡◌, refl, true, strip, text_eq}
use proxmox_management.Changes.{version, custom_changed}
use proxmox_management.Status.{CustomArgs, custom_status, custom_should_report}
use proxmox_management.Status.Reporting.{custom_status-agrees}

-- a system that went from 1.0 to 1.1
abbrev upgraded_system : CustomArgs
upgraded_system = record {
  dry_run = false;
  changed_when_type = version;
  update_only_if_outdated = true;
  is_outdated = true;
  ver_before = some (codes "1.0");
  ver_after = some (codes "1.1");
  latest_ver = some (codes "1.1");
  changed_cmd_rc = none;
  changed_cmd_skipped = false;
  reboot_done = false;
}

custom_status-agrees_example :
    custom_should_report (custom_status upgraded_system) false
    ≡ custom_changed version (codes "1.0") (codes "1.1") none false
custom_status-agrees_example = custom_status-agrees upgraded_system refl refl

upgraded_system_changed : custom_changed version (codes "1.0") (codes "1.1") none false ≡ true
unfolding custom_changed strip text_eq
upgraded_system_changed = refl
