-- ===== src/Sources/Provenance.antt =====
-- `SourceProvenance` of proxmox_fleet/housekeeping_sources.py. A JSON object is the list of its
-- keys with their values.
use proxmox_management.Prelude.{
  ℕ, zero, suc, Text, Bool, true, false, List, [], ◌∷◌, ◌++◌, Option, none, some, if◌then◌else◌,
  codes, decimal, is_empty, text_eq, max,
}

-- a value of parsed JSON; what is no string, integer, flag or null is given by its `str`, empty
-- if the value is falsy
pub data Value : Type 0 where
  text : Text → Value
  number negative : ℕ → Value
  flag : Bool → Value
  null : Value
  foreign : Text → Value

abbrev pub Json : Type 0
Json = List (Text × Value)

-- raw.get(name), where a missing key is null
unfoldable pub get : Json → Text → Value
unfolding text_eq
get [] name = null
get ((key, value) ∷ raw) name = if text_eq key name then value else get raw name

-- str(value or "")
unfoldable pub text_of : Value → Text
text_of (text t) = t
text_of (number n) = elim n [ zero ↦ codes "" | suc k ↦ decimal (suc k) ]
text_of (negative n) = codes "-" ++ decimal n
text_of (flag true) = codes "True"
text_of (flag false) = codes ""
text_of null = codes ""
text_of (foreign t) = t

-- value is True
unfoldable pub is_true : Value → Bool
is_true (flag b) = b
is_true _ = false

-- _nonneg; a key that is missing or has no such value yields the default
unfoldable pub nonneg : Value → ℕ → ℕ
nonneg (number n) default = n
nonneg _ default = default

-- _text
unfoldable pub text_or_none : Value → Option Text
text_or_none (text t) = if is_empty t then none else some t
text_or_none _ = none

-- blob_decoded_bytes
unfoldable pub nonneg_or_none : Value → Option ℕ
nonneg_or_none null = none
nonneg_or_none value = some (nonneg value 0)

pub record SourceProvenance : Type 0 where
  pub canonical_path : Text
  pub profile : Text
  pub log_kind : Text
  pub active_at_capture : Bool
  pub generation : ℕ
  pub complete : Bool
  pub complete_size : ℕ
  pub capture_id : Option Text
  pub raw_sha256 : Option Text
  pub decoded_sha256 : Option Text
  pub decoded_bytes : ℕ
  pub blob_sha256 : Option Text
  pub blob_decoded_bytes : Option ℕ
  pub lineage_of : Option Text
  pub verified_raw_size : ℕ
  pub coverage_conflict : Bool

unfoldable pub parse_object : Json → SourceProvenance
unfolding get text_of is_true nonneg text_or_none nonneg_or_none
parse_object raw = record {
  canonical_path = text_of (get raw (codes "canonical_path"));
  profile = text_of (get raw (codes "profile"));
  log_kind = text_of (get raw (codes "log_kind"));
  active_at_capture = is_true (get raw (codes "active_at_capture"));
  generation = max (nonneg (get raw (codes "generation")) 1) 1;
  complete = is_true (get raw (codes "complete"));
  complete_size = nonneg (get raw (codes "complete_size")) 0;
  capture_id = text_or_none (get raw (codes "capture_id"));
  raw_sha256 = text_or_none (get raw (codes "raw_sha256"));
  decoded_sha256 = text_or_none (get raw (codes "decoded_sha256"));
  decoded_bytes = nonneg (get raw (codes "decoded_bytes")) 0;
  blob_sha256 = text_or_none (get raw (codes "blob_sha256"));
  blob_decoded_bytes = nonneg_or_none (get raw (codes "blob_decoded_bytes"));
  lineage_of = text_or_none (get raw (codes "lineage_of"));
  verified_raw_size = nonneg (get raw (codes "verified_raw_size")) 0;
  coverage_conflict = is_true (get raw (codes "coverage_conflict"));
}

-- SourceProvenance.parse: what is no mapping yields the defaults
unfoldable pub parse : Option Json → SourceProvenance
unfolding parse_object
parse none = parse_object []
parse (some raw) = parse_object raw

abbrev pub json_text : Option Text → Value
json_text none = null
json_text (some t) = text t

abbrev pub json_number : Option ℕ → Value
json_number none = null
json_number (some n) = number n

unfoldable pub as_dict : SourceProvenance → Json
as_dict p =
    (codes "canonical_path", text p.canonical_path)
    ∷ (codes "profile", text p.profile)
    ∷ (codes "log_kind", text p.log_kind)
    ∷ (codes "active_at_capture", flag p.active_at_capture)
    ∷ (codes "generation", number p.generation)
    ∷ (codes "complete", flag p.complete)
    ∷ (codes "complete_size", number p.complete_size)
    ∷ (codes "capture_id", json_text p.capture_id)
    ∷ (codes "raw_sha256", json_text p.raw_sha256)
    ∷ (codes "decoded_sha256", json_text p.decoded_sha256)
    ∷ (codes "decoded_bytes", number p.decoded_bytes)
    ∷ (codes "blob_sha256", json_text p.blob_sha256)
    ∷ (codes "blob_decoded_bytes", json_number p.blob_decoded_bytes)
    ∷ (codes "lineage_of", json_text p.lineage_of)
    ∷ (codes "verified_raw_size", number p.verified_raw_size)
    ∷ (codes "coverage_conflict", flag p.coverage_conflict)
    ∷ []

-- the keyword arguments of `with_completion`
pub record Completion : Type 0 where
  pub size : ℕ
  pub raw_sha256 : Text
  pub decoded_sha256 : Option Text
  pub decoded_bytes : ℕ
  pub frozen : Bool
  pub lineage : Option Text

abbrev pub given_or : {A : Type 0} → Option A → Option A → Option A
given_or none other = other
given_or (some a) other = some a

unfoldable pub with_completion : SourceProvenance → Completion → SourceProvenance
with_completion p c = record p {
  complete = true;
  complete_size = c.size;
  raw_sha256 = some c.raw_sha256;
  decoded_sha256 = c.decoded_sha256;
  decoded_bytes = c.decoded_bytes;
  blob_sha256 = if c.frozen then some c.raw_sha256 else p.blob_sha256;
  blob_decoded_bytes = if c.frozen then some c.decoded_bytes else p.blob_decoded_bytes;
  lineage_of = given_or c.lineage p.lineage_of;
}

unfoldable pub with_verification : SourceProvenance → ℕ → Bool → SourceProvenance
with_verification p verified_raw_size conflict = record p {
  verified_raw_size = verified_raw_size;
  coverage_conflict = conflict;
}
