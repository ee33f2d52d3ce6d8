-- ===== src/Status/Reporting.antt =====
-- The strings of proxmox_fleet/status.py against the gates that read them back.
use proxmox_management.Prelude.{
  ℕ, Text, Bool, true, false, not, ◌&&◌, ◌≡◌, refl, Option, none, some, ◌==◌, [], ◌∷◌, ◌++◌, codes,
  contains, strip, lstrip, rstrip, rstrip_char, is_space, lower, text_eq, Bool-cases, inl, inr,
  starts_with,
}
use proxmox_management.Changes.{
  ChangedWhenType, version, command, always, custom_changed, both_known, command_result,
  versions_changed,
}
use proxmox_management.Status.{
  CustomArgs, text_or, reboot_suffix, custom_status, custom_change_status, custom_version_status,
  custom_should_report,
}

rstrip_keep : (c : ℕ) (s : Text) → is_space c ≡ false → rstrip (c ∷ s) ≡ c ∷ rstrip s
unfolding rstrip
rstrip_keep c s h = go (rstrip s)
  where
    go : (r : Text) → rstrip_char c r ≡ c ∷ r
    go [] = rw h
    go (d ∷ r) = refl

-- a status that starts with "Updated" is read back as one
mentions_updated :
    (s : Text) → contains (codes "updated") (lower (strip (codes "Updated" ++ s))) ≡ true
unfolding strip lstrip lower contains starts_with
mentions_updated s = simp rstrip_keep refl

reported-updated : (s : Text) → custom_should_report (codes "Updated" ++ s) false ≡ true
unfolding custom_should_report
reported-updated s = rw (mentions_updated s)

reported-ok : custom_should_report (codes "OK") false ≡ false
unfolding custom_should_report strip lower contains lstrip rstrip starts_with
reported-ok = refl

reported-version :
    (before after reboot : Text)
    → custom_should_report (custom_version_status before after reboot) false
      ≡ versions_changed before after
unfolding custom_version_status
reported-version before after reboot = elim (Bool-cases (both_known before after)) [
  | inl known ↦ elim (Bool-cases (text_eq before after)) [
    | inl same ↦ rw (known, same, reported-ok)
    | inr differs ↦ rw (
      known,
      differs,
      reported-updated (codes ": " ++ (before ++ (codes " → " ++ (after ++ reboot)))),
    )
  ]
  | inr unknown ↦ rw (unknown, reported-updated reboot)
]

reported-change :
    (t : ChangedWhenType) (rc : Option ℕ) (skipped : Bool) (before after reboot : Text)
    → custom_should_report
        (custom_change_status t (command_result rc skipped) (strip before) (strip after) reboot)
        false
      ≡ custom_changed t before after rc skipped
unfolding custom_change_status custom_changed
reported-change always rc skipped before after reboot = reported-updated reboot
reported-change version rc skipped before after reboot =
    reported-version (strip before) (strip after) reboot
reported-change command rc true before after reboot =
    reported-version (strip before) (strip after) reboot
reported-change command none false before after reboot =
    reported-version (strip before) (strip after) reboot
reported-change command (some code) false before after reboot = elim (Bool-cases (code == 0)) [
  | inl zero ↦ rw (zero, reported-updated reboot)
  | inr other ↦ rw (other, reported-ok)
]

-- The status line of a custom system's update and the decision whether to run its health
-- check agree: in a real run of a system that was due, the record is reported if and only if
-- `custom_changed` finds that the update changed something.
pub custom_status-agrees :
    (a : CustomArgs)
    → a.dry_run ≡ false
    → (a.update_only_if_outdated && not a.is_outdated) ≡ false
    → custom_should_report (custom_status a) false
      ≡ custom_changed a.changed_when_type
          (text_or a.ver_before (codes ""))
          (text_or a.ver_after (codes ""))
          a.changed_cmd_rc
          a.changed_cmd_skipped
unfolding custom_status
custom_status-agrees a real due = rw (
  real,
  due,
  reported-change a.changed_when_type a.changed_cmd_rc a.changed_cmd_skipped
      (text_or a.ver_before (codes "")) (text_or a.ver_after (codes ""))
      (reboot_suffix a.reboot_done),
)
