-- ===== src/Retention/Planning.antt =====
-- What `plan_prune_candidates` of proxmox_fleet/housekeeping_retention.py may delete.
use proxmox_management.Prelude.{
  ◌+◌, ◌*◌, ◌<◌, Text, Bool, true, false, not, ◌||◌, List, [], ◌∷◌, Option, none, some, ◌≡◌, refl,
  arith, ◌⊎◌, inl, inr, codes, text_eq, text_in, ltb, ltb→lt, length, ==_iff, if◌then◌else◌, sym,
  ap, subst,
}
use proxmox_management.Sources.Provenance.{Json, Value, text, number, negative, flag, null, foreign}
use proxmox_management.Sources.Coverage.{ArchiveNames}
use proxmox_management.Driver.Accounting.{All}
use proxmox_management.Retention.{
  Spec, spec_of, PrunePlan, cutoff_ns, Verdict, candidate, finding, passed_over, same_identity,
  wire_at, owned_in, owned_deletion, is_some_reason, judge_path, judge_current, judge_digest,
  judge_wire, add_verdict, plan_prune_candidates,
}
use proxmox_management.Retention.Wires.{
  Wire, validated_wire, raw_value, all_hex, digest_value, is_protected_log_name,
  quarantine_path_for,
}

digest_value-shape :
    (v : Value) (d : Text) → digest_value v ≡ some d → (length d ≡ 64) × (all_hex d ≡ true)
unfolding digest_value
digest_value-shape (text t) d h = ground (arith, h, ==_iff (length t) 64)
digest_value-shape (number n) d h = cc
digest_value-shape (negative n) d h = cc
digest_value-shape (flag b) d h = cc
digest_value-shape null d h = cc
digest_value-shape (foreign t) d h = cc

behind_guard :
    (b : Bool) (stop v : Verdict) (spec : Spec)
    → (stop ≡ candidate spec → ⊥)
    → (if b then stop else v) ≡ candidate spec
    → (b ≡ false) × (v ≡ candidate spec)
behind_guard true stop v spec never h = elim (never h) [ ]
behind_guard false stop v spec never h = (refl, h)

module _ (names : ArchiveNames) (plan : PrunePlan) where
  -- a closed archive file that is old enough, that its acknowledged digest goes with, and that the
  -- probe of now finds unchanged
  pub record IsPrunable (spec : Spec) : Type 0 where
    pub recognized : text_in spec.wire.profile plan.recognized ≡ true
    pub unprotected : is_protected_log_name names spec.wire.path spec.wire.log_kind ≡ none
    pub inactive : spec.wire.is_active ≡ false
    pub old : spec.wire.mtime_ns + plan.retention_hours * 3600000000000 < plan.now_ns
    pub hex : all_hex spec.sha256 ≡ true
    pub whole_digest : length spec.sha256 ≡ 64
    pub current : Wire
    pub probed : wire_at plan.probe spec.wire.path ≡ some current
    pub unchanged : same_identity current spec.wire ≡ true
    pub still_inactive : current.is_active ≡ false
    pub quarantined : quarantine_path_for spec.wire.path ≡ some spec.quarantine_path

  judge_path-candidate :
      (w : Wire) (d : Text) (s o : Option Text) (spec : Spec)
      → judge_path names plan w d s o ≡ candidate spec
      → (q : Text) × (o ≡ some q) × (spec_of w d s q ≡ spec)
  unfolding judge_path
  judge_path-candidate w d s none spec h = cc
  judge_path-candidate w d s (some q) spec h = (q, refl, cc)

  -- what the plan has seen of the file behind the tests of the entry itself
  record IsProbed (w : Wire) (d : Text) (s : Option Text) (o : Option Wire) (spec : Spec)
      : Type 0 where
    current : Wire
    probed : o ≡ some current
    unchanged : same_identity current w ≡ true
    still_inactive : current.is_active ≡ false
    place : Text
    quarantined : quarantine_path_for w.path ≡ some place
    same_spec : spec_of w d s place ≡ spec

  judge_current-candidate :
      (w : Wire) (d : Text) (s : Option Text) (o : Option Wire) (spec : Spec)
      → judge_current names plan w d s o ≡ candidate spec
      → IsProbed w d s o spec
  unfolding judge_current
  judge_current-candidate w d s none spec h =
      let (b, e) =
        behind_guard (owned_in (owned_deletion w d) plan.owned_deletions) passed_over _ spec
          (λ x. cc) h in
      let x : ⊥ = cc in elim x [ ]
  judge_current-candidate w d s (some current) spec h =
      let (same, h') = behind_guard (not (same_identity current w)) _ _ spec (λ x. cc) h in
      let (idle, h'') = behind_guard current.is_active passed_over _ spec (λ x. cc) h' in
      let (q, e, f) = judge_path-candidate w d s (quarantine_path_for w.path) spec h'' in
      record {
        current = current;
        probed = refl;
        unchanged = ground (arith, same);
        still_inactive = idle;
        place = q;
        quarantined = e;
        same_spec = f;
      }

  IsPrunable-spec_of :
      (w : Wire) (d : Text) (s : Option Text) (spec : Spec)
      → text_in w.profile plan.recognized ≡ true
      → (text_eq w.log_kind (codes "task_index")
          || (is_some_reason names plan (is_protected_log_name names w.path w.log_kind)
              || (w.is_active || not (ltb w.mtime_ns (cutoff_ns plan)))))
        ≡ false
      → (length d ≡ 64) × (all_hex d ≡ true)
      → IsProbed w d s (wire_at plan.probe w.path) spec
      → IsPrunable spec
  IsPrunable-spec_of w d s spec known quiet hex p =
      let young : ltb w.mtime_ns (cutoff_ns plan) ≡ true = ground (arith, quiet) in
      let below = ltb→lt _ _ young in
      subst IsPrunable p.same_spec (record {
        recognized = known;
        unprotected =
            no_reason (is_protected_log_name names w.path w.log_kind) (ground (arith, quiet));
        inactive = ground (arith, quiet);
        old = omega (arith, below);
        hex = hex.1;
        whole_digest = hex.0;
        current = p.current;
        probed = p.probed;
        unchanged = p.unchanged;
        still_inactive = p.still_inactive;
        quarantined = p.quarantined;
      })
    where
      no_reason : (o : Option Text) → is_some_reason names plan o ≡ false → o ≡ none
      no_reason none e = refl
      no_reason (some why) e = cc

  judge_digest-IsPrunable :
      (w : Wire) (s o : Option Text) (spec : Spec)
      → ((d : Text) → o ≡ some d → (length d ≡ 64) × (all_hex d ≡ true))
      → judge_digest names plan w s o ≡ candidate spec
      → IsPrunable spec × (o ≡ some spec.sha256) × (spec.wire ≡ w)
  unfolding judge_digest
  judge_digest-IsPrunable w s none spec shape h = let x : ⊥ = cc in elim x [ ]
  judge_digest-IsPrunable w s (some d) spec shape h =
      let (known, h') =
        behind_guard (not (text_in w.profile plan.recognized)) _ _ spec (λ x. cc) h in
      let (quiet, h'') = behind_guard _ passed_over _ spec (λ x. cc) h' in
      let p = judge_current-candidate w d s (wire_at plan.probe w.path) spec h'' in
      (
        IsPrunable-spec_of w d s spec (ground (arith, known)) quiet (shape d refl) p,
        ap (λ (x : Spec). some x.sha256) p.same_spec,
        sym (ap (λ (x : Spec). x.wire) p.same_spec),
      )

  -- the entry of the importer that a deletion rests on
  abbrev pub IsCovered : Option Json → Spec → Type 0
  IsCovered raw spec =
      (validated_wire raw ≡ some spec.wire)
      × (digest_value (raw_value raw (codes "sha256")) ≡ some spec.sha256)

  abbrev pub AnyCovered : List (Option Json) → Spec → Type 0
  AnyCovered [] spec = ⊥
  AnyCovered (raw ∷ covered_files) spec = IsCovered raw spec ⊎ AnyCovered covered_files spec

  judge_wire-IsPrunable :
      (raw : Option Json) (o : Option Wire) (spec : Spec)
      → judge_wire names plan raw o ≡ candidate spec
      → IsPrunable spec
        × (o ≡ some spec.wire)
        × (digest_value (raw_value raw (codes "sha256")) ≡ some spec.sha256)
  unfolding judge_wire
  judge_wire-IsPrunable raw none spec h = let x : ⊥ = cc in elim x [ ]
  judge_wire-IsPrunable raw (some w) spec h =
      let (fine, same, wire) =
        judge_digest-IsPrunable w _ (digest_value (raw_value raw (codes "sha256"))) spec
          (digest_value-shape (raw_value raw (codes "sha256"))) h in
      (fine, sym (ap some wire), same)

  abbrev IsPlanned : List (Option Json) → Spec → Type 0
  IsPlanned covered_files spec = IsPrunable spec × AnyCovered covered_files spec

  All-later :
      (raw : Option Json) (covered_files : List (Option Json)) (specs : List Spec)
      → All (IsPlanned covered_files) specs
      → All (IsPlanned (raw ∷ covered_files)) specs
  All-later raw covered_files [] h = tt
  All-later raw covered_files (spec ∷ specs) h =
      ((h.0.0, inr h.0.1), All-later raw covered_files specs h.1)

  add_verdict-All :
      (raw : Option Json) (covered_files : List (Option Json)) (v : Verdict)
      (planned : List Spec × List Text)
      → judge_wire names plan raw (validated_wire raw) ≡ v
      → All (IsPlanned (raw ∷ covered_files)) planned.0
      → All (IsPlanned (raw ∷ covered_files)) (add_verdict names plan v planned).0
  add_verdict-All raw covered_files (candidate spec) (specs, warnings) e h =
      let (fine, wire, digest) = judge_wire-IsPrunable raw (validated_wire raw) spec e in
      ((fine, inl (wire, digest)), h)
  add_verdict-All raw covered_files (finding why) (specs, warnings) e h = h
  add_verdict-All raw covered_files passed_over (specs, warnings) e h = h

  -- Every planned deletion rests on an entry of the importer with this file and this digest of 64
  -- hexadecimal digits; and its file is of a recognized profile, a closed archive and no live or
  -- control file, was not written to within the retention time, is in the current probe with the
  -- same device, inode, size and time and still inactive, and goes to the quarantine of its log
  -- root.
  pub plan_prune_candidates-IsPrunable :
      (covered_files : List (Option Json))
      → All
          (λ spec. IsPrunable spec × AnyCovered covered_files spec)
          (plan_prune_candidates names plan covered_files).0
  unfolding plan_prune_candidates
  plan_prune_candidates-IsPrunable [] = tt
  plan_prune_candidates-IsPrunable (raw ∷ covered_files) =
      add_verdict-All raw covered_files _ _ refl
        (All-later raw covered_files _ (plan_prune_candidates-IsPrunable covered_files))
