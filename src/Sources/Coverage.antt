-- ===== src/Sources/Coverage.antt =====
-- The identity and coverage predicates of proxmox_fleet/housekeeping_sources.py. The two regular
-- expressions for archive names are a parameter. A predicate stands for its call with a record and
-- a wire at hand.
use proxmox_management.Prelude.{
  ℕ, suc, ◌+◌, ◌-◌, Text, Bool, true, false, not, ◌&&◌, ◌||◌, List, [], ◌∷◌, ◌++◌, Option, none,
  some, if◌then◌else◌, codes, is_empty, text_eq, starts_with, length, take, drop, leb, ltb, ◌==◌,
}
use proxmox_management.Sources.Provenance.{Json, parse}

-- the entry of a probe
pub record Wire : Type 0 where
  pub path : Text
  pub profile : Text
  pub log_kind : Text
  pub compression : Text
  pub device : ℕ
  pub inode : ℕ
  pub size : ℕ
  pub mtime_ns : ℕ

-- the persisted source row, as far as these predicates read it
pub record SourceRecord : Type 0 where
  pub source_id : Text
  pub path : Text
  pub device : ℕ
  pub inode : ℕ
  pub size : ℕ
  pub mtime_ns : ℕ
  pub compression : Text
  pub profile : Text
  pub log_kind : Text
  pub is_active : Bool
  pub provenance : Option Json
  pub digest : Option Text
  pub acknowledged : Bool
  pub updated_ns : ℕ

pub record CurrentCoverage : Type 0 where
  pub wire : Wire
  pub source_id : Text
  pub sha256 : Text
  pub provenance_path : Text

pub record ArchiveNames : Type 0 where
  pub npm_archive : Text → Bool
  pub pbs_api_archive : Text → Bool

-- posixpath.basename: what follows the last slash
unfoldable pub basename_from : Text → Text → Text
basename_from tail [] = tail
basename_from tail (c ∷ rest) = if c == 47 then basename_from rest rest else basename_from tail rest

unfoldable pub basename : Text → Text
unfolding basename_from
basename path = basename_from path path

unfoldable pub ends_with : Text → Text → Bool
unfolding text_eq
ends_with suffix s =
    leb (length suffix) (length s) && text_eq (drop (length s - length suffix) s) suffix

unfoldable pub strip_suffix : List Text → Text → Text
unfolding ends_with
strip_suffix [] path = path
strip_suffix (suffix ∷ rest) path =
    if ends_with suffix path
    then take (length path - length suffix) path
    else strip_suffix rest path

-- _plain_log_path
unfoldable pub plain_log_path : Text → Text
unfolding strip_suffix
plain_log_path = strip_suffix (codes ".gz" ∷ codes ".zst" ∷ codes ".zstd" ∷ [])

-- the place behind the last `needle`; `rfind` yields -1 where there is none
unfoldable pub behind_last : Text → ℕ → ℕ → Text → ℕ
unfolding starts_with
behind_last needle found at [] = found
behind_last needle found at (c ∷ rest) =
    behind_last needle (if starts_with needle (c ∷ rest) then at + length needle else found)
      (suc at) rest

module _ (names : ArchiveNames) where
  unfoldable pub current_log_name : Text → Text → Text → Bool
  unfolding basename text_eq
  current_log_name profile log_kind path =
      if text_eq profile (codes "npm") && text_eq log_kind (codes "application")
      then not (names.npm_archive (basename path))
      else if text_eq profile (codes "pbs") && text_eq log_kind (codes "api")
      then not (names.pbs_api_archive (basename path))
      else false

  unfoldable pub logical_identity : Text → Text → Text → Option Text
  unfolding basename text_eq plain_log_path behind_last ends_with
  logical_identity profile log_kind path =
      let plain = plain_log_path path in
      if text_eq profile (codes "pbs") && text_eq log_kind (codes "task")
      then some (basename plain)
      else if text_eq profile (codes "npm")
          && (text_eq log_kind (codes "application")
              && (ends_with (codes ".log") plain || names.npm_archive (basename plain)))
      then some (take (behind_last (codes ".log") 3 0 plain) plain)
      else none

  -- identified != logical_identity(...)
  abbrev pub is_identity : Text → Option Text → Bool
  is_identity identified none = false
  is_identity identified (some other) = text_eq identified other

  unfoldable pub same_logical_source : Text → Text → Text → Text → Bool
  unfolding logical_identity
  same_logical_source profile log_kind path_a path_b =
      elim (logical_identity profile log_kind path_a) [
        | none ↦ true
        | some identified ↦
            if not (is_identity identified (logical_identity profile log_kind path_b))
            then false
            else if text_eq profile (codes "npm")
                && (text_eq log_kind (codes "application")
                    && starts_with (identified ++ codes "-") (plain_log_path path_a))
            then text_eq (plain_log_path path_a) (plain_log_path path_b)
            else true
      ]

  unfoldable pub canonical_path_of : SourceRecord → Text
  unfolding parse
  canonical_path_of record_ =
      let canonical = (parse record_.provenance).canonical_path in
      if is_empty canonical then record_.path else canonical

  unfoldable pub identity_compatible : SourceRecord → Wire → Bool
  unfolding same_logical_source canonical_path_of
  identity_compatible r w =
      (text_eq r.profile w.profile && text_eq r.log_kind w.log_kind)
      && (same_logical_source r.profile r.log_kind (canonical_path_of r) w.path
          && same_logical_source r.profile r.log_kind r.path w.path)

  abbrev pub has_digest : Option Text → Bool
  has_digest none = false
  has_digest (some d) = true

  unfoldable pub is_prefix_complete : SourceRecord → Bool
  is_prefix_complete r = has_digest r.digest && (parse r.provenance).complete

  abbrev pub same_inode : SourceRecord → Wire → Bool
  same_inode r w = (r.device == w.device) && (r.inode == w.inode)

  unfoldable pub prefix_complete_for_current : SourceRecord → Wire → Bool
  prefix_complete_for_current r w =
      if not (identity_compatible r w) || not (is_prefix_complete r)
      then false
      else if not (same_inode r w)
      then false
      else (parse r.provenance).complete_size == w.size

  -- `current_coverage` behind the test of the digest
  unfoldable pub coverage_with : SourceRecord → Wire → Option Text → Option CurrentCoverage
  coverage_with r w none = none
  coverage_with r w (some digest) =
      if not r.acknowledged
      then none
      else if text_eq r.log_kind (codes "task_index") || r.is_active
      then none
      else if current_log_name r.profile r.log_kind r.path
      then none
      else if not (prefix_complete_for_current r w)
      then none
      else some
          (record { wire = w; source_id = r.source_id; sha256 = digest; provenance_path = r.path })

  unfoldable pub current_coverage : SourceRecord → Wire → Option CurrentCoverage
  current_coverage r w = coverage_with r w r.digest

  -- where a path's file is now
  abbrev pub current_at : List (Text × (ℕ × ℕ)) → Text → Option (ℕ × ℕ)
  current_at [] path = none
  current_at ((key, place) ∷ rest) path =
      if text_eq key path then some place else current_at rest path

  abbrev pub is_place : Option (ℕ × ℕ) → ℕ → ℕ → Bool
  is_place none device inode = false
  is_place (some (d, i)) device inode = (d == device) && (i == inode)

  unfoldable pub same_generation : SourceRecord → Wire → List (Text × (ℕ × ℕ)) → Bool
  unfolding identity_compatible
  same_generation r w current_paths =
      if not (identity_compatible r w)
      then false
      else if not (text_eq w.compression r.compression)
      then false
      else if not (same_inode r w)
      then false
      else if (r.size == w.size) && (r.mtime_ns == w.mtime_ns)
      then true
      else text_eq w.compression (codes "plain")
        && (ltb r.size w.size
            && (text_eq r.path w.path
                || (not (text_eq r.path w.path)
                    && not (is_place (current_at current_paths r.path) r.device r.inode))))
