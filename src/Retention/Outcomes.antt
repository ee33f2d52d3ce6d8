-- ===== src/Retention/Outcomes.antt =====
-- `_resolve_outcomes` of proxmox_fleet/housekeeping_retention.py. An intent is its id; the store's
-- updates of the intents, which exist, are the list `resolved`.
use proxmox_management.Prelude.{
  ℕ, suc, ◌+◌, Text, Bool, true, false, not, ◌&&◌, ◌||◌, List, [], ◌∷◌, ◌++◌, Option, none, some,
  if◌then◌else◌, codes, is_empty, text_eq, text_in, starts_with, take, words, ◌==◌,
}
use proxmox_management.Sources.Provenance.{Json, Value, text, number, get, text_of, is_true}
use proxmox_management.Retention.{Spec, OwnedDeletion, owned_deletion}
use proxmox_management.Retention.Wires.{Wire, validated_object}

-- an element of the answer's list
pub data Answer : Type 0 where
  nothing : Answer
  no_object : Answer
  object : Json → Answer

pub record Resolution : Type 0 where
  pub intent_id : Text
  pub state : Text
  pub reclaimed_bytes : ℕ
  pub detail : Option Text

pub record Progress : Type 0 where
  pub resolved : List Resolution
  pub owned_deletions : List OwnedDeletion
  pub bytes_total : ℕ
  pub pruned : ℕ
  pub failed : Bool
  pub warnings : List Text

-- _validated_wire of a spec is no None
unfoldable pub is_valid_wire : Wire → Bool
is_valid_wire w =
    starts_with (codes "/") w.path
    && (text_in w.compression (codes "plain" ∷ codes "gzip" ∷ codes "zstd" ∷ [])
        && (text_in w.profile (codes "npm" ∷ codes "pbs" ∷ [])
            && text_in w.log_kind
                (codes "application" ∷ codes "task" ∷ codes "api" ∷ codes "task_index" ∷ [])))

abbrev pub same_flag : Bool → Bool → Bool
same_flag true b = b
same_flag false b = not b

unfoldable pub same_wire : Wire → Wire → Bool
same_wire a b =
    (text_eq a.path b.path
      && ((a.device == b.device)
          && ((a.inode == b.inode) && ((a.size == b.size) && (a.mtime_ns == b.mtime_ns)))))
    && ((a.allocated_bytes == b.allocated_bytes)
        && (text_eq a.compression b.compression
            && (text_eq a.profile b.profile
                && (text_eq a.log_kind b.log_kind && same_flag a.is_active b.is_active))))

-- observed == _validated_wire(spec)
abbrev pub is_observed : Option Wire → Spec → Bool
is_observed none spec = false
is_observed (some w) spec = is_valid_wire spec.wire && same_wire w spec.wire

abbrev pub reclaimed_of : Value → ℕ
reclaimed_of (number n) = n
reclaimed_of _ = 0

-- " ".join(words)
unfoldable pub join_words : List Text → Text
join_words [] = []
join_words (word ∷ []) = word
join_words (word ∷ (next ∷ rest)) = word ++ (codes " " ++ join_words (next ∷ rest))

-- _bounded(text, 200)
unfoldable pub bounded : Text → Text
bounded s = take 200 (join_words (words s))

abbrev pub detail_of : Json → Text
detail_of raw = bounded (text_of (get raw (codes "detail")))

abbrev pub or_none : Text → Option Text
or_none s = if is_empty s then none else some s

abbrev pub or_else : Text → Text → Text
or_else s other = if is_empty s then other else s

abbrev pub is_word : Text → Value → Bool
is_word word (text t) = text_eq t word
is_word word _ = false

-- state == word
abbrev pub has_state : Json → Text → Bool
has_state raw word = is_word word (get raw (codes "state"))

-- a warning, with or without the failure of the run
abbrev pub warn : Text → Progress → Progress
warn why p = record p { warnings = p.warnings ++ (why ∷ []) }

abbrev pub fail : Text → Progress → Progress
fail why p = record p { warnings = p.warnings ++ (why ∷ []); failed = true }

abbrev pub resolve : Text → Text → ℕ → Option Text → Progress → Progress
resolve intent_id state reclaimed detail p = record p {
  resolved =
      p.resolved
      ++ (record {
        intent_id = intent_id;
        state = state;
        reclaimed_bytes = reclaimed;
        detail = detail;
      }
          ∷ []);
}

abbrev pub own : Spec → Progress → Progress
own spec p = record p { owned_deletions = owned_deletion spec.wire spec.sha256 ∷ p.owned_deletions }

unfoldable pub note_done : Text → Spec → Json → Progress → Progress
note_done intent_id spec raw p =
    let reclaimed = reclaimed_of (get raw (codes "bytes_reclaimed")) in
    let p' = own spec (resolve intent_id (codes "done") reclaimed (or_none (detail_of raw)) p) in
    let p'' = record p' { bytes_total = p'.bytes_total + reclaimed; pruned = suc p'.pruned } in
    if is_true (get raw (codes "blocked"))
    then fail
        (codes "prune completed for "
          ++ (spec.wire.path
              ++ (codes ": " ++ (detail_of raw ++ codes "; further pruning paused"))))
        p''
    else p''

unfoldable pub note_restored : Text → Spec → Json → Progress → Progress
note_restored intent_id spec raw p =
    warn
      (codes "prune restored "
        ++ (spec.wire.path
            ++ (codes ": " ++ or_else (detail_of raw) (codes "original path retained"))))
      (resolve intent_id (codes "restored") 0
        (some (or_else (detail_of raw) (codes "original path restored"))) p)

abbrev pub absent_detail : Text
absent_detail =
    codes
      "source and quarantine paths are both absent; deletion origin unknown (0 bytes reclaimed, 0 new files pruned)"

unfoldable pub note_absent : Text → Spec → Progress → Progress
note_absent intent_id spec p =
    if spec.recovery
    then own spec (resolve intent_id (codes "absent") 0 (some absent_detail) p)
    else fail
        (codes "prune reported an absence for "
          ++ (spec.wire.path ++ codes " without a proofed recovery spec; intent retained"))
        p

unfoldable pub note_conflict : Text → Spec → Json → Progress → Progress
note_conflict intent_id spec raw p =
    warn
      (codes "prune conflict for "
        ++ (spec.wire.path ++ (codes ": " ++ or_else (detail_of raw) (codes "file retained"))))
      (resolve intent_id (codes "conflict") 0 (or_none (detail_of raw)) p)

-- state, for a state that is not terminal
abbrev pub unfinished : Spec → Json → Text
unfinished spec raw =
    codes "prune "
    ++ (text_of (get raw (codes "state"))
        ++ (codes " for "
            ++ (spec.wire.path
                ++ (codes ": "
                    ++ (or_else (detail_of raw) (codes "filesystem state unknown")
                        ++ codes "; intent retained")))))

abbrev pub unrecognised : Spec → Text
unrecognised spec =
    codes "prune outcome for " ++ (spec.wire.path ++ codes " is unrecognised; intent retained")

unfoldable pub note_state : Text → Spec → Json → Progress → Progress
note_state intent_id spec raw p =
    if has_state raw (codes "done")
    then note_done intent_id spec raw p
    else if has_state raw (codes "restored")
    then note_restored intent_id spec raw p
    else if has_state raw (codes "absent")
    then note_absent intent_id spec p
    else if has_state raw (codes "blocked") || has_state raw (codes "pending")
    then fail (unfinished spec raw) p
    else if has_state raw (codes "conflict")
    then note_conflict intent_id spec raw p
    else fail (unrecognised spec) p

abbrev pub missing_outcome : Spec → Progress → Progress
missing_outcome spec p =
    fail
      (codes "prune outcome missing for "
        ++ (spec.wire.path ++ codes "; intent retained for recovery"))
      p

abbrev pub other_identity : Spec → Progress → Progress
other_identity spec p =
    fail
      (codes "prune outcome identity mismatch for "
        ++ (spec.wire.path ++ codes "; intent retained"))
      p

unfoldable pub note_entry : Text → Spec → Answer → Progress → Progress
note_entry intent_id spec nothing p = missing_outcome spec p
note_entry intent_id spec no_object p = other_identity spec p
note_entry intent_id spec (object raw) p =
    if is_observed (validated_object raw) spec
    then note_state intent_id spec raw p
    else other_identity spec p

unfoldable pub note_extra : List Answer → Progress → Progress
note_extra [] p = p
note_extra (entry ∷ entries) p =
    fail (codes "prune returned unexpected extra outcomes; further pruning paused") p

-- the loop over the batch; entries go with requests by their position
unfoldable pub resolve_outcomes : List (Text × Spec) → List Answer → Progress → Progress
resolve_outcomes [] entries p = note_extra entries p
resolve_outcomes ((intent_id, spec) ∷ batch) [] p =
    resolve_outcomes batch [] (missing_outcome spec p)
resolve_outcomes ((intent_id, spec) ∷ batch) (entry ∷ entries) p =
    resolve_outcomes batch entries (note_entry intent_id spec entry p)
