-- ===== src/Retention/Echo.antt =====
-- The helper answers a request with the entry that it was sent: `_wire_spec` against `_validated_wire`
-- of proxmox_fleet/housekeeping_retention.py.
use proxmox_management.Prelude.{
  ℕ, suc, ◌+◌, length, Text, Bool, true, ◌&&◌, List, [], ◌∷◌, ◌++◌, ◌≡◌, codes,
}
use proxmox_management.Sources.Provenance.{text, number}
use proxmox_management.Retention.{Spec, OwnedDeletion, owned_deletion}
use proxmox_management.Retention.Wires.{wire_spec}
use proxmox_management.Retention.Outcomes.{is_valid_wire, Answer, object, Progress}

-- the answer of a helper that completes the request and echoes its entry
abbrev pub echo : (Spec → ℕ) → Spec → Answer
echo freed spec = object (
    wire_spec spec.wire
    ++ (codes "state", text (codes "done")) ∷ (codes "bytes_reclaimed", number (freed spec)) ∷ [])

abbrev pub echoes : (Spec → ℕ) → List (Text × Spec) → List Answer
echoes freed [] = []
echoes freed ((intent_id, spec) ∷ batch) = echo freed spec ∷ echoes freed batch

abbrev pub all_valid : List (Text × Spec) → Bool
all_valid [] = true
all_valid ((intent_id, spec) ∷ batch) = is_valid_wire spec.wire && all_valid batch

-- what a completed batch adds
abbrev pub total_freed : (Spec → ℕ) → List (Text × Spec) → ℕ
total_freed freed [] = 0
total_freed freed ((intent_id, spec) ∷ batch) = freed spec + total_freed freed batch

abbrev pub owned_by : List (Text × Spec) → List OwnedDeletion → List OwnedDeletion
owned_by [] owned = owned
owned_by ((intent_id, spec) ∷ batch) owned =
    owned_by batch (owned_deletion spec.wire spec.sha256 ∷ owned)

module _ (freed : Spec → ℕ) where
  -- behind the answers to a batch
  pub record IsCompleted (batch : List (Text × Spec)) (p p' : Progress) : Type 0 where
    pub unfailed : p'.failed ≡ p.failed
    pub counted : p'.pruned ≡ p.pruned + length batch
    pub freed_all : p'.bytes_total ≡ p.bytes_total + total_freed freed batch
    pub owned_all : p'.owned_deletions ≡ owned_by batch p.owned_deletions
    pub quiet : p'.warnings ≡ p.warnings

  -- behind one answer
  record IsDone (spec : Spec) (p p' : Progress) : Type 0 where
    unfailed : p'.failed ≡ p.failed
    counted : p'.pruned ≡ suc p.pruned
    freed_it : p'.bytes_total ≡ p.bytes_total + freed spec
    owned : p'.owned_deletions ≡ owned_deletion spec.wire spec.sha256 ∷ p.owned_deletions
    quiet : p'.warnings ≡ p.warnings
