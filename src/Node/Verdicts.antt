-- ===== src/Node/Verdicts.antt =====
-- Rules for a computation on the assessment of proxmox_fleet/flows/node.py that ends without an error.
use proxmox_management.Prelude.{
  Text, Bool, true, false, List, [], ◌∷◌, ◌++◌, ◌≡◌, refl, sym, ◌∙◌, arith, if◌then◌else◌,
}
use proxmox_management.Node.Facts.{Fact, known, refused}
use proxmox_management.Node.{is_nil}
use proxmox_management.Node.Diagnostics.{
  Assessment, Kernels, Check, give, ◌>>=◌, go_on, add_error, add_reason, set_checks, provided◌then◌,
  assessed,
}

-- no ValueError and no error
abbrev pub is_clean : {A : Type 0} → Fact A × Assessment → Bool
is_clean (known x, a) = is_nil a.errors
is_clean (refused why, a) = false

abbrev pub is_known : {A : Type 0} → Fact A → Bool
is_known (known x) = true
is_known (refused why) = false

abbrev pub Found : {A : Type 0} → Fact A → (A → Type 0) → Type 0
Found (known x) Q = Q x
Found (refused why) Q = ⊥

pub impossible : {A : Type 0} → false ≡ true → A
impossible h = elim (false_not_true h) [ ]
  where
    false_not_true : false ≡ true → ⊥
    false_not_true h = ground (arith, h)

pub is_nil-snoc : (xs : List Text) (y : Text) → is_nil (xs ++ y ∷ []) ≡ false
is_nil-snoc [] y = refl
is_nil-snoc (x ∷ xs) y = refl

pub assessed-is_clean :
    (r : Fact (Unit {0}) × Assessment) → is_nil (assessed r).errors ≡ true → is_clean r ≡ true
assessed-is_clean (known x, a) h = h
assessed-is_clean (refused why, a) h = impossible (sym (is_nil-snoc a.errors why) ∙ h)

-- `m` ends clean only from no errors, and then with Q
pub record Tells {A : Type 0} (m : Check A) (Q : A → Type 0) : Type 0 where
  pub at : (a : Assessment) → is_clean (m a) ≡ true → (is_nil a.errors ≡ true) × Found (m a).0 Q

module _ {A : Type 0} where
  pub Tells-give : (f : Fact A) → Tells (give f) (λ x. f ≡ known x)
  unfolding give
  Tells-give f = record { at = λ a h. go f a h }
    where
      go :
          (g : Fact A) (a : Assessment)
          → is_clean (g, a) ≡ true
          → (is_nil a.errors ≡ true) × Found g (λ x. g ≡ known x)
      go (known x) a h = (h, refl)
      go (refused why) a h = impossible h

  pub Tells-map :
      {Q Q' : A → Type 0} (m : Check A) → Tells m Q → ((x : A) → Q x → Q' x) → Tells m Q'
  Tells-map {Q = Q} {Q' = Q'} m hm hq = record {
    at = λ a h. let (n, q) = hm.at a h in (n, go (m a).0 q);
  }
    where
      go : (f : Fact A) → Found f Q → Found f Q'
      go (known x) q = hq x q
      go (refused why) q = q

module _ {A B : Type 0} {R : A → Type 0} {Q : B → Type 0} where
  pub Tells-bind :
      (m : Check A) (f : A → Check B)
      → Tells m R
      → ((x : A) → Tells (f x) (λ y. R x → Q y))
      → Tells (m >>= f) Q
  unfolding ◌>>=◌
  Tells-bind m f hm hf = record { at = λ a h. go a (m a).0 (m a).1 h (hm.at a) }
    where
      finish : (x : A) (g : Fact B) → R x → Found g (λ y. R x → Q y) → Found g Q
      finish x (known y) r q = q r
      finish x (refused why) r q = q

      go :
          (a : Assessment) (r : Fact A) (a' : Assessment)
          → is_clean (go_on r f a') ≡ true
          → (is_clean (r, a') ≡ true → (is_nil a.errors ≡ true) × Found r R)
          → (is_nil a.errors ≡ true) × Found (go_on r f a').0 Q
      go a (known x) a' h hr =
          let (n, q) = (hf x).at a' h in let (n', r) = hr n in (n', finish x (f x a').0 r q)
      go a (refused why) a' h hr = impossible h

pub Tells-error : (why : Text) → Tells (add_error why) (λ _. ⊥)
Tells-error why = record { at = λ a h. impossible (sym (is_nil-snoc a.errors why) ∙ h) }

pub Tells-provided :
    (b : Bool) (m : Check (Unit {0})) (Q : Type 0)
    → (b ≡ true → Tells m (λ _. Q))
    → (b ≡ false → Q)
    → Tells (provided b then m) (λ _. Q)
unfolding give
Tells-provided true m Q ht hf = ht refl
Tells-provided false m Q ht hf = record { at = λ a h. (h, hf refl) }

-- an error unless the test fails
pub Tells-refuses : (b : Bool) (why : Text) → Tells (provided b then add_error why) (λ _. b ≡ false)
Tells-refuses b why =
    Tells-provided b _ _ (λ _. Tells-map _ (Tells-error why) (λ _ q. elim q [ ])) (λ h. h)

pub Tells-reason : (b : Bool) (why : Text) → Tells (provided b then add_reason why) (λ _. Unit {0})
Tells-reason b why = Tells-provided b _ _ (λ _. record { at = λ a h. (h, tt) }) (λ _. tt)

pub Tells-if :
    (b : Bool) (m n : Check (Unit {0})) {Q : Type 0}
    → (b ≡ true → Tells m (λ _. Q))
    → (b ≡ false → Tells n (λ _. Q))
    → Tells (if b then m else n) (λ _. Q)
Tells-if true m n hm hn = hm refl
Tells-if false m n hm hn = hn refl

pub Tells-set : (kernels : Kernels) → Tells (set_checks kernels) (λ _. Unit {0})
Tells-set kernels = record { at = λ a h. (h, tt) }
