-- ===== src/Sources/Examples.antt =====
-- A nginx log that was rotated, acknowledged and archived whole.
use proxmox_management.Prelude.{arith, true, false, none, some, ◌≡◌, refl, codes, text_eq, contains}
use proxmox_management.Sources.Provenance.{SourceProvenance, parse, as_dict}
use proxmox_management.Sources.RoundTrip.{parse-as_dict, IsStored}
use proxmox_management.Sources.Coverage.{
  Wire, SourceRecord, ArchiveNames, CurrentCoverage, current_coverage, coverage_with,
  prefix_complete_for_current, is_prefix_complete, identity_compatible, current_log_name,
}
use proxmox_management.Sources.Authorization.{IsAuthorized, current_coverage-IsAuthorized}

abbrev imported : SourceProvenance
imported = record {
  canonical_path = codes "/var/log/nginx/access.log.1";
  profile = codes "system";
  log_kind = codes "text";
  active_at_capture = false;
  generation = 1;
  complete = true;
  complete_size = 70;
  capture_id = some (codes "c1");
  raw_sha256 = some (codes "ab");
  decoded_sha256 = none;
  decoded_bytes = 70;
  blob_sha256 = none;
  blob_decoded_bytes = some 70;
  lineage_of = none;
  verified_raw_size = 0;
  coverage_conflict = false;
}

imported-IsStored : IsStored imported
imported-IsStored = record {
  numbered = omega arith;
  capture = omega arith;
  raw = omega arith;
  decoded = tt;
  blob = tt;
  lineage = tt;
}

parse-as_dict_example : parse (some (as_dict imported)) ≡ imported
parse-as_dict_example = parse-as_dict imported imported-IsStored

abbrev archive_names : ArchiveNames
archive_names = record {
  npm_archive = contains (codes ".log.");
  pbs_api_archive = contains (codes ".log.");
}

abbrev rotated_log : SourceRecord
rotated_log = record {
  source_id = codes "s1";
  path = codes "/var/log/nginx/access.log.1";
  device = 8;
  inode = 77;
  size = 70;
  mtime_ns = 5;
  compression = codes "plain";
  profile = codes "system";
  log_kind = codes "text";
  is_active = false;
  provenance = some (as_dict imported);
  digest = some (codes "ab");
  acknowledged = true;
  updated_ns = 9;
}

abbrev probed_log : Wire
probed_log = record {
  path = codes "/var/log/nginx/access.log.1";
  profile = codes "system";
  log_kind = codes "text";
  compression = codes "plain";
  device = 8;
  inode = 77;
  size = 70;
  mtime_ns = 5;
}

abbrev coverage : CurrentCoverage
coverage = record {
  wire = probed_log;
  source_id = codes "s1";
  sha256 = codes "ab";
  provenance_path = codes "/var/log/nginx/access.log.1";
}

rotated_log_covered : current_coverage archive_names rotated_log probed_log ≡ some coverage
unfolding current_coverage coverage_with prefix_complete_for_current is_prefix_complete text_eq
    current_log_name identity_compatible parse as_dict
rotated_log_covered = refl

current_coverage-IsAuthorized_example : IsAuthorized archive_names rotated_log probed_log coverage
current_coverage-IsAuthorized_example =
    current_coverage-IsAuthorized archive_names rotated_log probed_log coverage rotated_log_covered
