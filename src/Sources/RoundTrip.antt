-- ===== src/Sources/RoundTrip.antt =====
-- What `as_dict` writes, `parse` reads back.
use proxmox_management.Prelude.{
  ℕ, ◌≤◌, ◌<◌, Text, [], ◌∷◌, Option, none, some, ◌≡◌, refl, max, arith, length,
}
use proxmox_management.Sources.Provenance.{
  SourceProvenance, parse, as_dict, nonneg, text_or_none, nonneg_or_none, json_text, json_number,
}

abbrev pub NotBlank : Option Text → Type 0
NotBlank none = Unit
NotBlank (some t) = 0 < length t

-- what every provenance that the program builds satisfies
pub record IsStored (p : SourceProvenance) : Type 0 where
  pub numbered : 1 ≤ p.generation
  pub capture : NotBlank p.capture_id
  pub raw : NotBlank p.raw_sha256
  pub decoded : NotBlank p.decoded_sha256
  pub blob : NotBlank p.blob_sha256
  pub lineage : NotBlank p.lineage_of

text_or_none-json_text : (t : Option Text) → NotBlank t → text_or_none (json_text t) ≡ t
unfolding text_or_none
text_or_none-json_text none h = refl
text_or_none-json_text (some []) h = ground arith
text_or_none-json_text (some (c ∷ t)) h = refl

nonneg_or_none-json_number : (n : Option ℕ) → nonneg_or_none (json_number n) ≡ n
unfolding nonneg_or_none nonneg
nonneg_or_none-json_number none = refl
nonneg_or_none-json_number (some n) = refl

max-one : (n : ℕ) → 1 ≤ n → max n 1 ≡ n
max-one n h = omega arith

-- A provenance whose generation is at least 1 and whose present texts are not empty is read
-- back from its JSON unchanged.
pub parse-as_dict : (p : SourceProvenance) → IsStored p → parse (some (as_dict p)) ≡ p
unfolding parse as_dict
parse-as_dict p h = λ i. record {
  canonical_path = p.canonical_path;
  profile = p.profile;
  log_kind = p.log_kind;
  active_at_capture = p.active_at_capture;
  generation = max-one p.generation h.numbered i;
  complete = p.complete;
  complete_size = p.complete_size;
  capture_id = text_or_none-json_text p.capture_id h.capture i;
  raw_sha256 = text_or_none-json_text p.raw_sha256 h.raw i;
  decoded_sha256 = text_or_none-json_text p.decoded_sha256 h.decoded i;
  decoded_bytes = p.decoded_bytes;
  blob_sha256 = text_or_none-json_text p.blob_sha256 h.blob i;
  blob_decoded_bytes = nonneg_or_none-json_number p.blob_decoded_bytes i;
  lineage_of = text_or_none-json_text p.lineage_of h.lineage i;
  verified_raw_size = p.verified_raw_size;
  coverage_conflict = p.coverage_conflict;
}
