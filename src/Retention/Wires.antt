-- ===== src/Retention/Wires.antt =====
-- The paths, the names and the validated entries of log files in proxmox_fleet/housekeeping_retention.py.
-- An entry is parsed JSON, none if it is no object; a list or an object in the place of a word, where the
-- source raises a TypeError, counts as a wrong word. The two regular expressions for archive names
-- are the parameter of the model of proxmox_fleet/housekeeping_sources.py.
use proxmox_management.Prelude.{
  ℕ, Text, Bool, true, ◌&&◌, ◌||◌, List, [], ◌∷◌, ◌++◌, Option, none, some, if◌then◌else◌, codes,
  is_empty, text_eq, text_in, starts_with, length, drop, leb, ltb, ◌==◌,
}
use proxmox_management.Sources.Provenance.{Json, Value, text, number, flag, null, get}
use proxmox_management.Sources.Coverage.{ArchiveNames, basename}

-- GUEST_LOG_ROOTS of proxmox_fleet/housekeeping_io.py
abbrev pub guest_log_roots : List Text
guest_log_roots =
    codes "/data/logs"
    ∷ codes "/var/log/proxmox-backup/tasks"
    ∷ codes "/var/log/proxmox-backup/api"
    ∷ []

abbrev pub is_under : Text → Text → Bool
is_under path root = text_eq path root || starts_with (root ++ codes "/") path

-- best is None or len(root) > len(best)
abbrev pub is_longer : Text → Option Text → Bool
is_longer root none = true
is_longer root (some best) = ltb (length best) (length root)

unfoldable pub longest_root : Text → List Text → Option Text → Option Text
longest_root path [] best = best
longest_root path (root ∷ roots) best =
    longest_root path roots (if is_under path root && is_longer root best then some root else best)

unfoldable pub log_root_for : Text → Option Text
unfolding longest_root
log_root_for path = longest_root path guest_log_roots none

-- lstrip("/")
unfoldable pub lstrip_slash : Text → Text
lstrip_slash [] = []
lstrip_slash (c ∷ s) = let rest = lstrip_slash s in if c == b'/' then rest else c ∷ s

abbrev pub in_quarantine : Text → Text → Text
in_quarantine root path =
    root ++ (codes "/.fleet-housekeeping-quarantine/" ++ lstrip_slash (drop (length root) path))

-- none where the source raises a ValueError
unfoldable pub quarantine_path_for : Text → Option Text
unfolding lstrip_slash
quarantine_path_for path = elim (log_root_for path) [
  | none ↦ none
  | some root ↦ some (in_quarantine root path)
]

module _ (names : ArchiveNames) where
  -- the reason, or none for a closed archive
  unfoldable pub is_protected_log_name : Text → Text → Option Text
  is_protected_log_name path log_kind =
      if text_eq log_kind (codes "task_index")
      then some (codes "PBS task index/control file")
      else if text_eq log_kind (codes "application")
      then (if names.npm_archive (basename path)
          then none
          else some (codes "current NPM application log"))
      else if text_eq log_kind (codes "task")
      then (if starts_with (codes "UPID:") (basename path)
          then none
          else some (codes "PBS task control file"))
      else if text_eq log_kind (codes "api")
      then (if names.pbs_api_archive (basename path)
          then none
          else some (codes "current PBS API log"))
      else some (codes "unrecognised log kind")

-- _Wire
pub record Wire : Type 0 where
  pub path : Text
  pub device : ℕ
  pub inode : ℕ
  pub size : ℕ
  pub mtime_ns : ℕ
  pub allocated_bytes : ℕ
  pub compression : Text
  pub profile : Text
  pub log_kind : Text
  pub is_active : Bool

-- what is asked of one value of an entry
abbrev pub path_value : Value → Option Text
path_value (text t) = if starts_with (codes "/") t then some t else none
path_value _ = none

abbrev pub count_value : Value → Option ℕ
count_value (number n) = some n
count_value _ = none

abbrev pub flag_value : Value → Option Bool
flag_value (flag b) = some b
flag_value _ = none

abbrev pub word_value : List Text → Value → Option Text
word_value valid (text t) = if text_in t valid then some t else none
word_value valid _ = none

infixl 5 ◌>>=◌
abbrev pub ◌>>=◌ : {A B : Type 0} → Option A → (A → Option B) → Option B
none >>= f = none
some a >>= f = f a

unfoldable pub validated_object : Json → Option Wire
validated_object raw = path_value (get raw (codes "path")) >>= λ path.
    count_value (get raw (codes "device")) >>= λ device.
    count_value (get raw (codes "inode")) >>= λ inode.
    count_value (get raw (codes "size")) >>= λ size.
    count_value (get raw (codes "mtime_ns")) >>= λ mtime_ns.
    count_value (get raw (codes "allocated_bytes")) >>= λ allocated_bytes.
    flag_value (get raw (codes "is_active")) >>= λ is_active.
    word_value (codes "plain" ∷ codes "gzip" ∷ codes "zstd" ∷ []) (get raw (codes "compression"))
    >>= λ compression.
        word_value (codes "npm" ∷ codes "pbs" ∷ []) (get raw (codes "profile")) >>= λ profile.
        word_value (codes "application" ∷ codes "task" ∷ codes "api" ∷ codes "task_index" ∷ [])
          (get raw (codes "log_kind"))
        >>= λ log_kind. some (record {
          path = path;
          device = device;
          inode = inode;
          size = size;
          mtime_ns = mtime_ns;
          allocated_bytes = allocated_bytes;
          compression = compression;
          profile = profile;
          log_kind = log_kind;
          is_active = is_active;
        })

-- _wire_spec
abbrev pub wire_spec : Wire → Json
wire_spec w =
    (codes "path", text w.path)
    ∷ (codes "device", number w.device)
    ∷ (codes "inode", number w.inode)
    ∷ (codes "size", number w.size)
    ∷ (codes "mtime_ns", number w.mtime_ns)
    ∷ (codes "allocated_bytes", number w.allocated_bytes)
    ∷ (codes "compression", text w.compression)
    ∷ (codes "profile", text w.profile)
    ∷ (codes "log_kind", text w.log_kind)
    ∷ (codes "is_active", flag w.is_active)
    ∷ []

abbrev pub validated_wire : Option Json → Option Wire
validated_wire none = none
validated_wire (some raw) = validated_object raw

-- [0-9a-f]
abbrev pub is_hex : ℕ → Bool
is_hex c = (leb b'0' c && leb c b'9') || (leb b'a' c && leb c b'f')

unfoldable pub all_hex : Text → Bool
all_hex [] = true
all_hex (c ∷ s) = is_hex c && all_hex s

-- isinstance(digest, str) and _SHA256_RE.match(digest)
unfoldable pub digest_value : Value → Option Text
unfolding all_hex
digest_value (text t) = if (length t == 64) && all_hex t then some t else none
digest_value _ = none

-- isinstance(source_id, str) and source_id
abbrev pub source_id_value : Value → Option Text
source_id_value (text t) = if is_empty t then none else some t
source_id_value _ = none

abbrev pub raw_value : Option Json → Text → Value
raw_value none name = null
raw_value (some raw) name = get raw name
