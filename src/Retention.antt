-- ===== src/Retention.antt =====
-- The planning of deletions in proxmox_fleet/housekeeping_retention.py.
pub mod Wires
pub mod Planning
pub mod Outcomes
pub mod Echo
pub mod Resolving
pub mod Ownership
pub mod Examples
use proxmox_management.Prelude.{
  ℕ, zero, suc, ◌-◌, ◌*◌, Text, Bool, true, false, not, ◌&&◌, ◌||◌, List, [], ◌∷◌, ◌++◌, Option,
  none, some, if◌then◌else◌, codes, is_empty, text_eq, text_in, starts_with, length, drop, leb, ltb,
  ◌==◌,
}
use proxmox_management.Sources.Provenance.{
  Json, Value, text, number, negative, flag, null, foreign, get,
}
use proxmox_management.Sources.Coverage.{ArchiveNames, basename}
use proxmox_management.Retention.Wires.{
  Wire, all_hex, count_value, digest_value, flag_value, guest_log_roots, in_quarantine, is_hex,
  is_longer, is_protected_log_name, is_under, log_root_for, longest_root, lstrip_slash, path_value,
  quarantine_path_for, raw_value, source_id_value, validated_object, validated_wire, word_value,
  ◌>>=◌,
}

-- the identity of a resolved deletion
pub record OwnedDeletion : Type 0 where
  pub path : Text
  pub device : ℕ
  pub inode : ℕ
  pub size : ℕ
  pub mtime_ns : ℕ
  pub sha256 : Text

pub record Spec : Type 0 where
  pub wire : Wire
  pub sha256 : Text
  pub source_id : Option Text
  pub quarantine_path : Text
  pub recovery : Bool

abbrev pub owned_deletion : Wire → Text → OwnedDeletion
owned_deletion w digest = record {
  path = w.path;
  device = w.device;
  inode = w.inode;
  size = w.size;
  mtime_ns = w.mtime_ns;
  sha256 = digest;
}

abbrev pub same_deletion : OwnedDeletion → OwnedDeletion → Bool
same_deletion a b =
    text_eq a.path b.path
    && ((a.device == b.device)
        && ((a.inode == b.inode)
            && ((a.size == b.size) && ((a.mtime_ns == b.mtime_ns) && text_eq a.sha256 b.sha256))))

unfoldable pub owned_in : OwnedDeletion → List OwnedDeletion → Bool
owned_in d [] = false
owned_in d (o ∷ owned) = same_deletion d o || owned_in d owned

-- _identity(a) == _identity(b)
abbrev pub same_identity : Wire → Wire → Bool
same_identity a b =
    (a.device == b.device)
    && ((a.inode == b.inode) && ((a.size == b.size) && (a.mtime_ns == b.mtime_ns)))

abbrev pub keep_wire : Option Wire → List Wire → List Wire
keep_wire none wires = wires
keep_wire (some w) wires = w ∷ wires

-- the validated entries of the probe, the latest first
unfoldable pub probe_by_path : List (Option Json) → List Wire → List Wire
probe_by_path [] wires = wires
probe_by_path (item ∷ items) wires = probe_by_path items (keep_wire (validated_wire item) wires)

-- probe_by_path.get(path)
unfoldable pub wire_at : List Wire → Text → Option Wire
wire_at [] path = none
wire_at (w ∷ wires) path = if text_eq w.path path then some w else wire_at wires path

-- what the loop adds for one entry
pub data Verdict : Type 0 where
  candidate : Spec → Verdict
  finding : Text → Verdict
  passed_over : Verdict

abbrev pub covered_file : Text → Text → Verdict
covered_file path why = finding (codes "covered file " ++ (path ++ why))

abbrev pub spec_of : Wire → Text → Option Text → Text → Spec
spec_of w digest source_id quarantine_path = record {
  wire = w;
  sha256 = digest;
  source_id = source_id;
  quarantine_path = quarantine_path;
  recovery = false;
}

-- the plan's parameters, with the probe's files by their path
pub record PrunePlan : Type 0 where
  pub probe : List Wire
  pub recognized : List Text
  pub retention_hours : ℕ
  pub now_ns : ℕ
  pub owned_deletions : List OwnedDeletion

-- a negative cutoff is as good as zero
abbrev pub cutoff_ns : PrunePlan → ℕ
cutoff_ns plan = plan.now_ns - plan.retention_hours * 3600000000000

module _ (names : ArchiveNames) (plan : PrunePlan) where
  -- behind the look-up of the quarantine path
  unfoldable pub judge_path : Wire → Text → Option Text → Option Text → Verdict
  judge_path w digest source_id none =
      covered_file w.path
        (codes " is outside the allowlist: path is outside the allowlisted guest log roots")
  judge_path w digest source_id (some quarantine_path) =
      candidate (spec_of w digest source_id quarantine_path)

  -- behind the look-up in the probe
  unfoldable pub judge_current : Wire → Text → Option Text → Option Wire → Verdict
  judge_current w digest source_id none =
      if owned_in (owned_deletion w digest) plan.owned_deletions
      then passed_over
      else covered_file w.path (codes " is absent from the current probe; not pruning")
  judge_current w digest source_id (some current) =
      if not (same_identity current w)
      then covered_file w.path (codes " changed identity since acknowledgement; not pruning")
      else if current.is_active
      then passed_over
      else judge_path w digest source_id (quarantine_path_for w.path)

  abbrev pub is_some_reason : Option Text → Bool
  is_some_reason none = false
  is_some_reason (some why) = true

  -- an entry that is in order, with its digest
  unfoldable pub judge_digest : Wire → Option Text → Option Text → Verdict
  judge_digest w source_id none =
      covered_file w.path (codes " has no valid acknowledged digest; not pruning")
  judge_digest w source_id (some digest) =
      if not (text_in w.profile plan.recognized)
      then covered_file w.path (codes " belongs to an unrecognized profile; not pruning")
      else if text_eq w.log_kind (codes "task_index")
          || (is_some_reason (is_protected_log_name names w.path w.log_kind)
              || (w.is_active || not (ltb w.mtime_ns (cutoff_ns plan))))
      then passed_over
      else judge_current w digest source_id (wire_at plan.probe w.path)

  unfoldable pub judge_wire : Option Json → Option Wire → Verdict
  judge_wire raw none = finding (codes "covered file entry is malformed; not pruning")
  judge_wire raw (some w) =
      judge_digest w (source_id_value (raw_value raw (codes "source_id")))
        (digest_value (raw_value raw (codes "sha256")))

  abbrev pub add_verdict : Verdict → List Spec × List Text → List Spec × List Text
  add_verdict (candidate spec) (specs, warnings) = (spec ∷ specs, warnings)
  add_verdict (finding why) (specs, warnings) = (specs, why ∷ warnings)
  add_verdict passed_over (specs, warnings) = (specs, warnings)

  unfoldable pub plan_prune_candidates : List (Option Json) → List Spec × List Text
  plan_prune_candidates [] = ([], [])
  plan_prune_candidates (raw ∷ covered_files) =
      add_verdict (judge_wire raw (validated_wire raw)) (plan_prune_candidates covered_files)
