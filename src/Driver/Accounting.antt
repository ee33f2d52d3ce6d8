-- ===== src/Driver/Accounting.antt =====
-- No host of a phase in proxmox_fleet/driver.py is forgotten or started twice.
use proxmox_management.Prelude.{
  Bool, true, false, not, List, [], ◌∷◌, ◌++◌, ◌≡◌, refl, arith, ◌⊎◌, inl, inr, Bool-cases,
  append-nil, subst, sym,
}
use mathlib.Core.List.{Perm, perm_middle}
use mathlib.Core.List.Perm
use proxmox_management.Flow.{World, Event, Env}
use proxmox_management.Driver.{Phase, PhaseVars, partition_by, others, is_nil, run_waves}
use proxmox_management.Driver.Folding.{IsBucket}
use proxmox_management.Driver.Staged.{IsStagedIf}
use proxmox_management.Driver.Staging.{IsFresh, run_waves-IsStaged}

-- a predicate on each element
abbrev pub All : {A : Type 0} → (A → Type 0) → List A → Type 0
All P [] = Unit
All P (a ∷ rest) = P a × All P rest

module _ {H : Type 0} (test : H → Bool) where
  pub All-partition_by : (hosts : List H) → All (λ h. test h ≡ true) (partition_by test hosts)
  unfolding partition_by
  All-partition_by [] = tt
  All-partition_by (h ∷ hosts) = elim (Bool-cases (test h)) [
    | inl first ↦ rw first (first, All-partition_by hosts)
    | inr second ↦ rw second (All-partition_by hosts)
  ]

  pub All-none_other :
      (hosts : List H)
      → is_nil (partition_by (λ h. not (test h)) hosts) ≡ true
      → All (λ h. test h ≡ true) hosts
  unfolding partition_by
  All-none_other [] e = tt
  All-none_other (h ∷ hosts) e = elim (Bool-cases (test h)) [
    | inl first ↦ (first, All-none_other hosts (ground (arith, e, first)))
    | inr second ↦ absurd (ground (arith, e, second))
  ]

pub All-nil : {A : Type 0} (P : A → Type 0) (l : List A) → is_nil l ≡ true → All P l
All-nil P [] e = tt
All-nil P (a ∷ l) e = cc

partition_by-perm :
    {H : Type 0} (test : H → Bool) (hosts : List H)
    → Perm (partition_by test hosts ++ partition_by (λ h. not (test h)) hosts) hosts
unfolding partition_by
partition_by-perm test [] = Perm.refl []
partition_by-perm test (h ∷ hosts) = elim (Bool-cases (test h)) [
  | inl first ↦ rw first (Perm.cons h (partition_by-perm test hosts))
  | inr second ↦
      rw second (Perm.trans (perm_middle _ _) (Perm.cons h (partition_by-perm test hosts)))
]

module _ {H R : Type 0} (phase : Phase H R) (laws : IsBucket phase.put phase.bucket) where
  -- the hosts that were started and those that were left out
  pub record IsAccounted (hosts : List H) (v : PhaseVars H) : Type 0 where
    pub left_out : List H
    pub each_once : Perm (v.started ++ left_out) hosts
    pub none_unless_failed : (left_out ≡ []) ⊎ (v.state.failed ≡ true)

  IsAccounted-whole :
      (hosts : List H) (v : PhaseVars H) → Perm v.started hosts → IsAccounted hosts v
  IsAccounted-whole hosts v p = record {
    left_out = [];
    each_once = subst (λ l. Perm l hosts) (sym (append-nil v.started)) p;
    none_unless_failed = inl refl;
  }

  IsStaged-IsAccounted :
      (before : List R) (start : List Event) (hosts : List H) (w : World (PhaseVars H))
      → (b : Bool) → IsStagedIf phase before start hosts b w
      → IsAccounted hosts w.vars
  IsStaged-IsAccounted before start hosts w true h =
      IsAccounted-whole hosts w.vars
        (subst (λ l. Perm l hosts) (sym h.started_all) (Perm.refl hosts))
  IsStaged-IsAccounted before start hosts w false (inl h) =
      IsAccounted-whole hosts w.vars
        (subst (λ l. Perm l hosts) (sym h.started_all) (partition_by-perm phase.is_canary hosts))
  IsStaged-IsAccounted before start hosts w false (inr h) = record {
    left_out = others phase hosts;
    each_once =
        subst (λ l. Perm (l ++ others phase hosts) hosts) (sym h.started_canaries)
          (partition_by-perm phase.is_canary hosts);
    none_unless_failed = inr h.has_failed;
  }

  -- A phase starts each of its hosts at most once and no other host, and leaves a host out only
  -- if it fails.
  pub run_waves-IsAccounted :
      (env : Env) (hosts : List H) (w : World (PhaseVars H))
      → IsFresh phase laws (phase.bucket w.vars.state) w.vars
      → IsAccounted hosts (run_waves phase env hosts w).1.vars
  run_waves-IsAccounted env hosts w fresh =
      let (w', e, h) = run_waves-IsStaged phase laws env hosts w fresh in
      subst (λ x. IsAccounted hosts x.1.vars) (sym e) (IsStaged-IsAccounted _ _ hosts w' _ h)
