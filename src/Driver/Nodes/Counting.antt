-- ===== src/Driver/Nodes/Counting.antt =====
-- What folding the outcome of a node adds to the records and errors of a state, for `_fold_outcome` of
-- proxmox_fleet/driver.py.
use proxmox_management.Prelude.{
  ℕ, zero, suc, none, Text, Bool, true, false, not, ◌||◌, List, [], ◌∷◌, ◌++◌, map, Option, some,
  ◌≡◌, refl, sym, ap, subst, ◌∙◌, arith, if◌then◌else◌,
}
use proxmox_management.Flow.{Outcome, ok}
use proxmox_management.Records.{ErrorEntry, FleetState, NodeRecord}
use proxmox_management.Node.{has_error, NodeFlowOutcome, is_nil}
use proxmox_management.Driver.{fold_outcome, append_report, option_list}
use proxmox_management.Driver.Locating.{NodeInfo}
use proxmox_management.Driver.Phases.{and_then}
use proxmox_management.Driver.Nodes.{put_node}

-- a run of several steps
pub and_then-ok :
    {A B : Type 0} (m : Outcome A) (f : A → Outcome B) (P : Outcome B → Type 0) (a : A)
    → m ≡ ok a
    → P (f a)
    → P (and_then m f)
and_then-ok m f P a e p = subst (λ x. P (and_then x f)) (sym e) p

abbrev pub names : List NodeInfo → List Text
names nodes = map (λ (n : NodeInfo). n.name) nodes

abbrev pub recorded_names : List NodeRecord → List Text
recorded_names records = map (λ (r : NodeRecord). r.node_name) records

pub recorded_names-snoc :
    (records : List NodeRecord) (r : NodeRecord)
    → recorded_names (records ++ r ∷ []) ≡ recorded_names records ++ r.node_name ∷ []
recorded_names-snoc [] r = refl
recorded_names-snoc (x ∷ records) r = ap (λ xs. x.node_name ∷ xs) (recorded_names-snoc records r)

pub if-keeps :
    {A : Type 0} (P : A → Type 0) (b : Bool) (x y : A) → P x → P y → P (if b then x else y)
if-keeps P true x y p q = p
if-keeps P false x y p q = q

-- folding an outcome adds its record
pub fold_outcome-recorded :
    (o : NodeFlowOutcome) (r : NodeRecord) (name : Text) (s : FleetState)
    → o.report ≡ some r
    → r.node_name ≡ name
    → recorded_names (fold_outcome put_node o [] false s).node ≡ recorded_names s.node ++ name ∷ []
unfolding fold_outcome
fold_outcome-recorded o r name s e n =
    subst
      (λ x. recorded_names (append_report put_node x s).node ≡ recorded_names s.node ++ name ∷ [])
      (sym e) (recorded_names-snoc s.node r ∙ ap (λ x. recorded_names s.node ++ x ∷ []) n)

pub fold_outcome-failed :
    (o : NodeFlowOutcome) (s : FleetState)
    → ((fold_outcome put_node o [] false s).failed || not o.failed) ≡ true
unfolding fold_outcome
fold_outcome-failed o s = ground arith

-- at most n entries
abbrev pub at_most : {A : Type 0} → ℕ → List A → Bool
at_most n [] = true
at_most zero (x ∷ xs) = false
at_most (suc n) (x ∷ xs) = at_most n xs

-- the error of one outcome behind none
pub one_error :
    (es : List ErrorEntry) (e : Option ErrorEntry)
    → is_nil es ≡ true
    → (at_most 1 (es ++ (option_list e ++ [])) ≡ true)
      × ((has_error e || is_nil (es ++ (option_list e ++ []))) ≡ true)
one_error [] none h = (refl, refl)
one_error [] (some e) h = (refl, refl)
one_error (x ∷ es) e h = (ground (arith, h), ground (arith, h))

pub none_at_most : (es : List ErrorEntry) → is_nil es ≡ true → at_most 1 es ≡ true
none_at_most [] h = refl
none_at_most (x ∷ es) h = ground (arith, h)

pub append_report-quiet :
    (report : Option NodeRecord) (s : FleetState)
    → is_nil s.errors ≡ true
    → is_nil (append_report put_node report s).errors ≡ true
append_report-quiet none s h = h
append_report-quiet (some r) s h = h

pub fold_outcome-few :
    (o : NodeFlowOutcome) (s : FleetState)
    → is_nil s.errors ≡ true
    → at_most 1 (fold_outcome put_node o [] false s).errors ≡ true
unfolding fold_outcome
fold_outcome-few o s h = (one_error _ o.error (append_report-quiet o.report s h)).0

pub fold_outcome-clean :
    (o : NodeFlowOutcome) (s : FleetState)
    → o.failed ≡ has_error o.error
    → is_nil s.errors ≡ true
    → (not (not o.failed) || is_nil (fold_outcome put_node o [] false s).errors) ≡ true
unfolding fold_outcome
fold_outcome-clean o s a h =
    ground (arith, a, (one_error _ o.error (append_report-quiet o.report s h)).1)

pub second_error :
    (es : List ErrorEntry) (e : Option ErrorEntry)
    → at_most 1 es ≡ true
    → at_most 2 (es ++ (option_list e ++ [])) ≡ true
second_error [] none h = refl
second_error [] (some e) h = refl
second_error (x ∷ []) none h = refl
second_error (x ∷ []) (some e) h = refl
second_error (x ∷ (y ∷ es)) e h = ground (arith, h)

pub append_report-few :
    (report : Option NodeRecord) (s : FleetState)
    → at_most 1 s.errors ≡ true
    → at_most 1 (append_report put_node report s).errors ≡ true
append_report-few none s h = h
append_report-few (some r) s h = h

pub fold_outcome-second :
    (o : NodeFlowOutcome) (s : FleetState)
    → at_most 1 s.errors ≡ true
    → at_most 2 (fold_outcome put_node o [] false s).errors ≡ true
unfolding fold_outcome
fold_outcome-second o s h = second_error _ o.error (append_report-few o.report s h)

pub fold_outcome-keeps :
    (o : NodeFlowOutcome) (s : FleetState)
    → (not s.failed || (fold_outcome put_node o [] false s).failed) ≡ true
unfolding fold_outcome
fold_outcome-keeps o s = ground arith
