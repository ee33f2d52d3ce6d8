-- ===== src/Changes/Examples.antt =====
-- Runs of the change tests at concrete outputs.
use proxmox_management.Prelude.{false, codes, ◌≡◌, ◌++◌}
use proxmox_management.Flow.{apt}
use proxmox_management.Changes.{pkg_changed, lxc_os_changed, nothing_upgraded}
use proxmox_management.Changes.Defect.{ten_upgraded_unchanged}

ten_upgraded_unchanged_example :
    (pkg_changed (codes "1" ++ (nothing_upgraded ++ codes ", 0 to remove")) apt ≡ false)
    × (lxc_os_changed (codes "1" ++ (nothing_upgraded ++ codes ", 0 to remove")) ≡ false)
ten_upgraded_unchanged_example = ten_upgraded_unchanged (codes "1") (codes ", 0 to remove")
