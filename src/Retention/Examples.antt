-- ===== src/Retention/Examples.antt =====
-- A plan and its outcomes at a concrete archive file.
use proxmox_management.Prelude.{
  true, Text, false, List, [], ◌∷◌, Option, none, some, ◌≡◌, refl, codes, text_eq, replicate,
  length, text_in, starts_with,
}
use proxmox_management.Sources.Provenance.{Json, text, number, flag, get, is_true}
use proxmox_management.Sources.Coverage.{ArchiveNames, basename}
use proxmox_management.Driver.Accounting.{All}
use proxmox_management.Retention.{
  Spec, PrunePlan, plan_prune_candidates, judge_wire, judge_digest, judge_current, judge_path,
  wire_at,
}
use proxmox_management.Retention.Wires.{
  Wire, validated_object, digest_value, is_protected_log_name, quarantine_path_for, log_root_for,
  longest_root, lstrip_slash,
}
use proxmox_management.Retention.Planning.{IsPrunable, AnyCovered, plan_prune_candidates-IsPrunable}
use proxmox_management.Retention.Outcomes.{
  Answer, object, resolve_outcomes, note_extra, note_entry, note_state, note_done, same_wire,
  is_valid_wire,
}
use proxmox_management.Retention.Ownership.{AnyConfirmed, resolve_outcomes-confirmed}
use proxmox_management.Retention.Resolving.{
  no_progress, verdicts, answered, all_terminal, resolve_outcomes-resolves,
}

abbrev no_archives : ArchiveNames
no_archives = record { npm_archive = λ name. false; pbs_api_archive = λ name. false }

abbrev task_log : Wire
task_log = record {
  path = codes "/var/log/proxmox-backup/tasks/A0/UPID:x";
  device = 1;
  inode = 7;
  size = 100;
  mtime_ns = 5;
  allocated_bytes = 4096;
  compression = codes "plain";
  profile = codes "pbs";
  log_kind = codes "task";
  is_active = false;
}

abbrev entry_of : Wire → Json
entry_of w =
    (codes "path", text w.path)
    ∷ (codes "device", number w.device)
    ∷ (codes "inode", number w.inode)
    ∷ (codes "size", number w.size)
    ∷ (codes "mtime_ns", number w.mtime_ns)
    ∷ (codes "allocated_bytes", number w.allocated_bytes)
    ∷ (codes "compression", text w.compression)
    ∷ (codes "profile", text w.profile)
    ∷ (codes "log_kind", text w.log_kind)
    ∷ (codes "is_active", flag w.is_active)
    ∷ (codes "sha256", text (replicate 64 b'a'))
    ∷ (codes "state", text (codes "done"))
    ∷ (codes "bytes_reclaimed", number w.allocated_bytes)
    ∷ []

abbrev one_day : PrunePlan
one_day = record {
  probe = task_log ∷ [];
  recognized = codes "pbs" ∷ [];
  retention_hours = 24;
  now_ns = 86400000000006;
  owned_deletions = [];
}

abbrev covered : List (Option Json)
covered = some (entry_of task_log) ∷ none ∷ []

planned : length (plan_prune_candidates no_archives one_day covered).0 ≡ 1
unfolding plan_prune_candidates judge_wire judge_digest judge_current judge_path validated_object
    digest_value is_protected_log_name wire_at quarantine_path_for log_root_for longest_root
    lstrip_slash get basename text_in text_eq starts_with
planned = refl

plan_prune_candidates-IsPrunable_example :
    All
      (λ spec. IsPrunable no_archives one_day spec × AnyCovered no_archives one_day covered spec)
      (plan_prune_candidates no_archives one_day covered).0
plan_prune_candidates-IsPrunable_example =
    plan_prune_candidates-IsPrunable no_archives one_day covered

abbrev request : Spec
request = record {
  wire = task_log;
  sha256 = replicate 64 b'a';
  source_id = none;
  quarantine_path = codes "/var/log/proxmox-backup/tasks/.fleet-housekeeping-quarantine/A0/UPID:x";
  recovery = false;
}

abbrev batch : List (Text × Spec)
batch = (codes "intent-1", request) ∷ []

abbrev answers : List Answer
answers = object (entry_of task_log) ∷ []

resolve_outcomes-resolves_example :
    (verdicts (resolve_outcomes batch answers no_progress).resolved ≡ answered batch answers)
    × (all_terminal (answered batch answers) ≡ true)
unfolding resolve_outcomes note_extra note_entry note_state note_done same_wire is_valid_wire
    validated_object get text_eq text_in starts_with is_true
resolve_outcomes-resolves_example = resolve_outcomes-resolves batch answers refl

resolve_outcomes-confirmed_example :
    All (AnyConfirmed batch answers) (resolve_outcomes batch answers no_progress).owned_deletions
resolve_outcomes-confirmed_example = resolve_outcomes-confirmed batch answers
