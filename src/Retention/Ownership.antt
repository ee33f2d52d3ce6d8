-- ===== src/Retention/Ownership.antt =====
-- Which deletions `_resolve_outcomes` of proxmox_fleet/housekeeping_retention.py counts as the
-- program's own.
use proxmox_management.Prelude.{
  Text, Bool, true, not, ◌&&◌, ◌||◌, List, [], ◌∷◌, ◌++◌, ◌≡◌, refl, arith, ◌⊎◌, inl, inr, codes,
  Bool-cases, if◌then◌else◌, sym, ap, ◌∙◌, append_assoc, append-nil, subst,
}
use proxmox_management.Sources.Provenance.{Json}
use proxmox_management.Driver.Accounting.{All}
use proxmox_management.Retention.{Spec, OwnedDeletion, owned_deletion}
use proxmox_management.Retention.Wires.{validated_object}
use proxmox_management.Retention.Outcomes.{
  Answer, nothing, no_object, object, Progress, is_observed, has_state, note_done, note_restored,
  note_absent, note_conflict, note_state, note_entry, note_extra, resolve_outcomes,
}
use proxmox_management.Retention.Resolving.{no_progress}

-- the helper's answer to this request lets the deletion count as the program's own
pub record IsConfirmed (spec : Spec) (raw : Json) : Type 0 where
  pub observed : is_observed (validated_object raw) spec ≡ true
  pub settled :
      (has_state raw (codes "done") || (has_state raw (codes "absent") && spec.recovery)) ≡ true

abbrev pub Confirms : Spec → Answer → Type 0
Confirms spec (object raw) = IsConfirmed spec raw
Confirms spec _ = ⊥

-- an answer at the same position of the batch confirms the deletion
abbrev pub AnyConfirmed : List (Text × Spec) → List Answer → OwnedDeletion → Type 0
AnyConfirmed ((intent_id, spec) ∷ batch) (entry ∷ entries) d =
    ((d ≡ owned_deletion spec.wire spec.sha256) × Confirms spec entry)
    ⊎ AnyConfirmed batch entries d
AnyConfirmed _ _ d = ⊥

abbrev gained : Spec → Json → Bool
gained spec raw =
    has_state raw (codes "done")
    || (not (has_state raw (codes "restored")) && (has_state raw (codes "absent") && spec.recovery))

note_state-owned :
    (intent_id : Text) (spec : Spec) (raw : Json) (p : Progress)
    → (note_state intent_id spec raw p).owned_deletions ≡ (
        if gained spec raw
        then owned_deletion spec.wire spec.sha256 ∷ p.owned_deletions
        else p.owned_deletions)
unfolding note_state note_done note_restored note_absent note_conflict
note_state-owned intent_id spec raw p = ground arith

-- what a step adds to the deletions that count as the program's own
record Gains (Holds : OwnedDeletion → Type 0) (p p' : Progress) : Type 0 where
  new : List OwnedDeletion
  appended : p'.owned_deletions ≡ new ++ p.owned_deletions
  confirmed : All Holds new

Gains-none :
    (Holds : OwnedDeletion → Type 0) (p p' : Progress)
    → p'.owned_deletions ≡ p.owned_deletions
    → Gains Holds p p'
Gains-none Holds p p' e = record { new = []; appended = e; confirmed = tt }

note_entry-Gains :
    (intent_id : Text) (spec : Spec) (entry : Answer) (p : Progress)
    → Gains
        (λ d. (d ≡ owned_deletion spec.wire spec.sha256) × Confirms spec entry)
        p
        (note_entry intent_id spec entry p)
unfolding note_entry
note_entry-Gains intent_id spec nothing p = Gains-none _ _ _ refl
note_entry-Gains intent_id spec no_object p = Gains-none _ _ _ refl
note_entry-Gains intent_id spec (object raw) p =
    elim (Bool-cases (is_observed (validated_object raw) spec)) [
      | inr other ↦ Gains-none _ _ _ (rw other)
      | inl observed ↦ elim (Bool-cases (gained spec raw)) [
        | inl more ↦ record {
          new = owned_deletion spec.wire spec.sha256 ∷ [];
          appended = rw observed (note_state-owned intent_id spec raw p ∙ rw more);
          confirmed = ((refl, record { observed = observed; settled = ground (arith, more) }), tt);
        }
        | inr same ↦
            Gains-none _ _ _ (rw observed (note_state-owned intent_id spec raw p ∙ rw same))
      ]
    ]

All-map :
    (P Q : OwnedDeletion → Type 0)
    → ((d : OwnedDeletion) → P d → Q d)
    → (l : List OwnedDeletion) → All P l
    → All Q l
All-map P Q f [] h = tt
All-map P Q f (d ∷ l) h = (f d h.0, All-map P Q f l h.1)

All-append :
    (P : OwnedDeletion → Type 0) (l m : List OwnedDeletion) → All P l → All P m → All P (l ++ m)
All-append P [] m hl hm = hm
All-append P (d ∷ l) m hl hm = (hl.0, All-append P l m hl.1 hm)

Gains-trans :
    (P Q R : OwnedDeletion → Type 0) (p p' p'' : Progress)
    → ((d : OwnedDeletion) → P d → R d)
    → ((d : OwnedDeletion) → Q d → R d)
    → Gains P p p'
    → Gains Q p' p''
    → Gains R p p''
Gains-trans P Q R p p' p'' f g a b = record {
  new = b.new ++ a.new;
  appended =
      b.appended
      ∙ (ap (λ l. b.new ++ l) a.appended ∙ sym (append_assoc b.new a.new p.owned_deletions));
  confirmed =
      All-append R b.new a.new (All-map Q R g b.new b.confirmed) (All-map P R f a.new a.confirmed);
}

resolve_outcomes-Gains :
    (batch : List (Text × Spec)) (entries : List Answer) (p : Progress)
    → Gains (AnyConfirmed batch entries) p (resolve_outcomes batch entries p)
unfolding resolve_outcomes note_extra
resolve_outcomes-Gains [] [] p = Gains-none _ _ _ refl
resolve_outcomes-Gains [] (entry ∷ entries) p = Gains-none _ _ _ refl
resolve_outcomes-Gains ((intent_id, spec) ∷ batch) [] p =
    Gains-trans (λ d. ⊥) (AnyConfirmed batch []) _ p _ _ (λ d h. elim h [ ])
      (λ d h. none_confirmed batch d h) (Gains-none _ _ _ refl) (resolve_outcomes-Gains batch [] _)
  where
    none_confirmed : (batch : List (Text × Spec)) (d : OwnedDeletion) → AnyConfirmed batch [] d → ⊥
    none_confirmed [] d h = h
    none_confirmed (b ∷ batch) d h = h
resolve_outcomes-Gains ((intent_id, spec) ∷ batch) (entry ∷ entries) p =
    Gains-trans _ (AnyConfirmed batch entries) _ p _ _ (λ d h. inl h) (λ d h. inr h)
      (note_entry-Gains intent_id spec entry p) (resolve_outcomes-Gains batch entries _)

-- A deletion counts as the program's own only if the answer at its request's own position shows the
-- very file that was to be deleted, its metadata included, and reports it as done, or as absent for
-- a request with a proof of recovery.
pub resolve_outcomes-confirmed :
    (batch : List (Text × Spec)) (entries : List Answer)
    → All (AnyConfirmed batch entries) (resolve_outcomes batch entries no_progress).owned_deletions
resolve_outcomes-confirmed batch entries =
    let g = resolve_outcomes-Gains batch entries no_progress in
    subst (All (AnyConfirmed batch entries)) (sym (g.appended ∙ append-nil g.new)) g.confirmed
