-- ===== src/Stream/Fragments/Resume.antt =====
-- Resuming the generator at the cursor of an acknowledged fragment.
use proxmox_management.Prelude.{
  ℕ, zero, suc, ◌+◌, ◌-◌, ◌≤◌, ◌<◌, ◌≡◌, refl, Bool, List, ◌++◌, length, drop, Option, none, some,
  arith, ◌∙◌, subst, drop-append,
}
use proxmox_management.Stream.Lines.Refinement.{chunk_of}
use proxmox_management.Stream.Fragments.{
  Cursor, LogFragment, Encoder, Step, Trace, finished, failed, yields, stop, fail, fragment, emit,
  follow,
}
use proxmox_management.Stream.Fragments.Steps.{bytes_of, IsEmitted, IsGoodStep}
use proxmox_management.Stream.Fragments.Reference.{stream_fragments, follow_cong}
use proxmox_management.Stream.Fragments.Delivery.{stream-IsGoodStep, shorter}

-- the cursor behind the first `suc n` fragments, and what the generator yields from there
abbrev pub tail_after : ℕ → Trace → Option (Cursor × Trace)
tail_after zero (yields l t) = some (l.next, t)
tail_after (suc n) (yields l t) = tail_after n t
tail_after n (finished c) = none
tail_after n (failed e) = none

module _ (enc : Encoder) (active_prefix : Bool) (limit : ℕ) where
  -- enough fuel is as good as any other
  pub fuel_enough :
      (f g : ℕ) (p : List ℕ) (c : Cursor)
      → 0 < limit
      → length p < f
      → length p < g
      → stream_fragments enc active_prefix f limit p c
        ≡ stream_fragments enc active_prefix g limit p c
  unfolding stream_fragments
  fuel_enough zero g p c pos lt lt' = elim lt [ ]
  fuel_enough (suc f) zero p c pos lt lt' = elim lt' [ ]
  fuel_enough (suc f) (suc g) p c pos lt lt' =
      follow_cong c _ _ (emit enc active_prefix (chunk_of limit p).0 c) (λ l back e.
        let (less, _) = shorter enc active_prefix limit p c l (back ++ (chunk_of limit p).1) (
          subst (IsGoodStep enc active_prefix limit p (chunk_of limit p).1 c) e
            (stream-IsGoodStep enc active_prefix limit p c pos)) in
        fuel_enough f g (back ++ (chunk_of limit p).1) l.next pos (omega arith) (omega arith))

  tail_first :
      (c : Cursor) (k : LogFragment → List ℕ → Trace) (s : Step) (c' : Cursor) (t : Trace)
      → tail_after 0 (follow c k s) ≡ some (c', t)
      → (l : LogFragment) × (back : List ℕ) × (s ≡ fragment l back) × (c' ≡ l.next) × (t ≡ k l back)
  unfolding follow
  tail_first c k stop c' t h = absurd (cc)
  tail_first c k (fail e) c' t h = absurd (cc)
  tail_first c k (fragment l back) c' t h = (l, back, refl, cc, cc)

  tail_later :
      (n : ℕ) (c : Cursor) (k : LogFragment → List ℕ → Trace) (s : Step) (c' : Cursor) (t : Trace)
      → tail_after (suc n) (follow c k s) ≡ some (c', t)
      → (l : LogFragment) × (back : List ℕ) × (s ≡ fragment l back)
        × (tail_after n (k l back) ≡ some (c', t))
  unfolding follow
  tail_later n c k stop c' t h = absurd (cc)
  tail_later n c k (fail e) c' t h = absurd (cc)
  tail_later n c k (fragment l back) c' t h = (l, back, refl, h)

  -- `t` is what the reference yields from `c'` on, which stands behind `c` in the bytes `p`
  pub record Resumes (p : List ℕ) (c c' : Cursor) (t : Trace) : Type 0 where
    pub forward : c.offset ≤ c'.offset
    pub within : c'.offset - c.offset ≤ length p
    pub same :
        (f : ℕ)
        → length p < f
        → t ≡ stream_fragments enc active_prefix f limit (drop (c'.offset - c.offset) p) c'

  good_fragment :
      (p : List ℕ) (c : Cursor) (l : LogFragment) (back : List ℕ)
      → 0 < limit
      → emit enc active_prefix (chunk_of limit p).0 c ≡ fragment l back
      → IsEmitted enc active_prefix limit p c l (back ++ (chunk_of limit p).1)
  good_fragment p c l back pos e =
      subst (IsGoodStep enc active_prefix limit p (chunk_of limit p).1 c) e
        (stream-IsGoodStep enc active_prefix limit p c pos)

  drop_emitted :
      (p : List ℕ) (c : Cursor) (l : LogFragment) (rest : List ℕ) (n : ℕ)
      → IsEmitted enc active_prefix limit p c l rest
      → drop (length (bytes_of l.entry) + n) p ≡ drop n rest
  drop_emitted p c l rest n e =
      let z : length (bytes_of l.entry) + n - length (bytes_of l.entry) ≡ n = omega arith in
      rw (← e.kept)
        (drop-append (length (bytes_of l.entry) + n) (bytes_of l.entry) rest (omega arith) ∙ rw z)

  Resumes-here :
      (f : ℕ) (p : List ℕ) (c : Cursor) (t : Trace)
      → 0 < limit
      → length p < f
      → t ≡ stream_fragments enc active_prefix f limit p c
      → Resumes p c c t
  Resumes-here f p c t pos lt e =
      let z : c.offset - c.offset ≡ 0 = omega arith in
      record {
        forward = omega arith;
        within = omega arith;
        same = λ g lt'. rw z (e ∙ fuel_enough f g p c pos lt lt');
      }

  -- what resumes behind a fragment resumes behind what came before it
  Resumes-behind :
      (p : List ℕ) (c : Cursor) (l : LogFragment) (rest : List ℕ) (c' : Cursor) (t : Trace)
      → IsEmitted enc active_prefix limit p c l rest
      → Resumes rest l.next c' t
      → Resumes p c c' t
  Resumes-behind p c l rest c' t e r =
      let (less, whole) = shorter enc active_prefix limit p c l rest e in
      let apart : c'.offset - c.offset ≡ length (bytes_of l.entry) + (c'.offset - l.next.offset) =
        omega (arith, e.next_offset, r.forward) in
      record {
        forward = omega (arith, e.next_offset, r.forward);
        within = omega (arith, apart, r.within, whole);
        same = λ g lt. rw (apart, drop_emitted p c l rest _ e) (r.same g (omega (arith, less, lt)));
      }

  pub tail_after-Resumes :
      (n f : ℕ) (p : List ℕ) (c c' : Cursor) (t : Trace)
      → 0 < limit
      → length p < f
      → tail_after n (stream_fragments enc active_prefix f limit p c) ≡ some (c', t)
      → Resumes p c c' t
  unfolding stream_fragments
  tail_after-Resumes zero zero p c c' t pos lt h = elim lt [ ]
  tail_after-Resumes (suc n) zero p c c' t pos lt h = elim lt [ ]
  tail_after-Resumes zero (suc f) p c c' t pos lt h =
      let (l, back, s, at, rest) = tail_first c _ _ c' t h in
      let left = back ++ (chunk_of limit p).1 in
      let e = good_fragment p c l back pos s in
      let (less, whole) = shorter enc active_prefix limit p c l left e in
      Resumes-behind p c l left c' t e
        (rw at (Resumes-here f left l.next t pos (omega (arith, less, lt)) rest))
  tail_after-Resumes (suc n) (suc f) p c c' t pos lt h =
      let (l, back, s, rest) = tail_later n c _ _ c' t h in
      let left = back ++ (chunk_of limit p).1 in
      let e = good_fragment p c l back pos s in
      let (less, whole) = shorter enc active_prefix limit p c l left e in
      Resumes-behind p c l left c' t e
        (tail_after-Resumes n f left l.next c' t pos (omega (arith, less, lt)) rest)
