-- ===== src/Stream/Fragments/Skip.antt =====
-- Skipping to the resume offset.
use proxmox_management.Prelude.{
  ℕ, zero, suc, ◌+◌, ◌-◌, ◌≤◌, ◌<◌, ◌≡◌, refl, List, [], ◌∷◌, length, take, drop, ◌==◌, false, none,
  some, min, arith, Bool-cases, inl, inr, ap, sym, ◌∙◌, length-drop, length-take,
}
use proxmox_management.Stream.Fragments.{skip_to, read_chunk}

drop_nil : (n : ℕ) → drop {A = ℕ} n [] ≡ []
drop_nil zero = refl
drop_nil (suc n) = refl

pub drop-drop : (m n : ℕ) (xs : List ℕ) → drop m (drop n xs) ≡ drop (n + m) xs
drop-drop m zero xs = let e : 0 + m ≡ m = omega arith in rw e
drop-drop m (suc n) [] = drop_nil m ∙ sym (drop_nil (suc n + m))
drop-drop m (suc n) (x ∷ xs) =
    let e : suc n + m ≡ suc (n + m) = omega arith in rw e (drop-drop m n xs)

-- one read of the loop, with what it leaves
module _ (skip : ℕ) (stream : List ℕ) where
  abbrev got : ℕ
  got = length (take (min skip read_chunk) stream)

  drop-got :
      skip ≤ length stream
      → drop (skip - got) (drop (min skip read_chunk) stream) ≡ drop skip stream
  drop-got le =
      let e : min skip read_chunk + (skip - got) ≡ skip =
        omega (arith, length-take (min skip read_chunk) stream) in
      drop-drop (skip - got) (min skip read_chunk) stream ∙ ap (λ n. drop n stream) e

pub skip_to-some :
    (f skip : ℕ) (stream : List ℕ)
    → skip ≤ f
    → skip ≤ length stream
    → skip_to f skip stream ≡ some (drop skip stream)
unfolding skip_to
skip_to-some zero skip stream h le = let e : skip ≡ 0 = omega arith in rw e
skip_to-some (suc f) skip stream h le = elim (Bool-cases (skip == 0)) [
  | inl done ↦ let e : skip ≡ 0 = ground arith in rw e
  | inr more ↦
      let len = length-take (min skip read_chunk) stream in
      let rest = length-drop (min skip read_chunk) stream in
      let some_read : (got skip stream == 0) ≡ false = ground (arith, len) in
      rw (more, some_read)
        (skip_to-some f (skip - got skip stream) (drop (min skip read_chunk) stream)
            (ground (arith, len)) (ground (arith, len, rest))
          ∙ ap some (drop-got skip stream le))
]

pub skip_to-none :
    (f skip : ℕ) (stream : List ℕ) → length stream < skip → skip_to f skip stream ≡ none
unfolding skip_to
skip_to-none zero skip stream h = ground arith
skip_to-none (suc f) skip stream h = ground (
  arith,
  skip_to-none f (skip - got skip stream) (drop (min skip read_chunk) stream),
  length-take (min skip read_chunk) stream,
  length-drop (min skip read_chunk) stream,
)
