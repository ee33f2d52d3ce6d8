-- ===== src/Stream/Fragments/Steps.antt =====
-- What one round of `iter_log_fragments` emits of the bytes that are still to be emitted.
use proxmox_management.Prelude.{
  ℕ, zero, suc, ◌+◌, ◌-◌, ◌≤◌, ◌<◌, ◌≡◌, refl, Bool, List, [], ◌∷◌, ◌++◌, length, take, drop, leb,
  ◌==◌, if◌then◌else◌, true, false, not, ◌&&◌, arith, Bool-cases, inl, inr, ap, sym, ◌∙◌,
  append-nil, append_assoc, take-append-drop, take_all, length-take, length-append,
}
use proxmox_management.Stream.Utf8.{utf8_safe_end-le}
use proxmox_management.Stream.Lines.{Chunk, newline_if, at_least_one}
use proxmox_management.Stream.Lines.Splitting.{NoNewline}
use proxmox_management.Stream.Lines.Refinement.{IsTaken}
use proxmox_management.Stream.Fragments.{
  Cursor, Entry, LogFragment, Encoder, Fit, Step, max_entry_bytes, fits, too_large, exhausted, stop,
  fail, fragment, encoding, shorten, entry_of, fit, fragment_of, remainder_of, emit, emit_fit,
  is_final,
}

-- the bytes of the stream that an entry stands for
abbrev pub bytes_of : Entry → List ℕ
bytes_of e = e.payload ++ newline_if e.terminated

shorten_bounds :
    (content : List ℕ) (p proposed : ℕ)
    → 1 < p
    → p ≤ length content
    → (shorten content p proposed < p) × (0 < shorten content p proposed)
unfolding shorten
shorten_bounds content p proposed h le =
    ground
      (arith, utf8_safe_end-le content (at_least_one (if leb p proposed then p - 1 else proposed)))

NoNewline-take : (n : ℕ) (xs : List ℕ) → NoNewline xs → NoNewline (take n xs)
NoNewline-take zero xs h = tt
NoNewline-take (suc n) [] h = tt
NoNewline-take (suc n) (x ∷ xs) h = (h.0, NoNewline-take n xs h.1)

-- the part of a chunk that is not emitted goes back in front of what is left
kept_part :
    (content newline left p : List ℕ) (n : ℕ)
    → content ++ (newline ++ left) ≡ p
    → (take n content ++ []) ++ ((drop n content ++ newline) ++ left) ≡ p
kept_part content newline left p n h =
    simp (append-nil, append_assoc)
      (sym (append_assoc (take n content) (drop n content) (newline ++ left))
        ∙ (ap (λ r. r ++ (newline ++ left)) (take-append-drop n content) ∙ h))

kept_all :
    (content newline left p : List ℕ) (n : ℕ)
    → length content ≤ n
    → content ++ (newline ++ left) ≡ p
    → (take n content ++ newline) ++ left ≡ p
kept_all content newline left p n le h =
    rw (take_all n content le) (append_assoc content newline left ∙ h)

is_final_empty :
    (chunk : Chunk) (n : ℕ)
    → n ≤ length chunk.content
    → length chunk.content ≡ 0
    → chunk.terminated ≡ true
    → is_final chunk n ≡ true
unfolding is_final
is_final_empty chunk n le e t = ground arith

-- an entry of at most one byte that does not fit
abbrev pub Oversized : Encoder → Type 0
Oversized enc = (e : Entry) × (length e.payload ≤ 1) × (max_entry_bytes < enc.entry_size e)

module _ (enc : Encoder) (active_prefix : Bool) where
  abbrev IsGoodFit : Chunk → Cursor → ℕ → Fit → Type 0
  IsGoodFit chunk c p (fits n) =
      (n ≤ p)
      × (0 < p → 0 < n)
      × (enc.entry_size (entry_of enc active_prefix chunk c n) ≤ max_entry_bytes)
  IsGoodFit chunk c p too_large = Oversized enc
  IsGoodFit chunk c p exhausted = ⊥

  IsGoodFit-le :
      (chunk : Chunk) (c : Cursor) (p q : ℕ) (r : Fit)
      → 0 < q
      → q ≤ p
      → IsGoodFit chunk c q r
      → IsGoodFit chunk c p r
  IsGoodFit-le chunk c p q (fits n) pos le h = (omega arith, λ _. h.1 pos, h.2)
  IsGoodFit-le chunk c p q too_large pos le h = h
  IsGoodFit-le chunk c p q exhausted pos le h = h

  payload_length-le :
      (chunk : Chunk) (c : Cursor) (p : ℕ)
      → p ≤ 1
      → length (entry_of enc active_prefix chunk c p).payload ≤ 1
  unfolding entry_of
  payload_length-le chunk c p h = omega (arith, length-take p chunk.content)

  -- the shrinking loop ends with a payload whose entry fits, or finds that none fits
  fit-IsGoodFit :
      (f : ℕ) (chunk : Chunk) (c : Cursor) (p : ℕ)
      → p < f
      → p ≤ length chunk.content
      → IsGoodFit chunk c p (fit enc active_prefix f chunk c p)
  unfolding fit
  fit-IsGoodFit zero chunk c p lt le = elim lt [ ]
  fit-IsGoodFit (suc f) chunk c p lt le =
      let size = enc.entry_size (entry_of enc active_prefix chunk c p) in
      elim (Bool-cases (leb size max_entry_bytes)) [
        | inl small ↦ rw small (omega arith, λ h. h, ground arith)
        | inr large ↦ rw large (elim (Bool-cases (leb p 1)) [
          | inl one ↦ rw one (
            entry_of enc active_prefix chunk c p,
            payload_length-le chunk c p (ground arith),
            ground arith,
          )
          | inr more ↦ rw more (
              let q = shorten chunk.content p (enc.proposed p size) in
              let b = shorten_bounds chunk.content p (enc.proposed p size) (ground arith) le in
              IsGoodFit-le chunk c p q _ b.1 (omega arith)
                (fit-IsGoodFit f chunk c q (omega arith) (omega arith)))
        ])
      ]

  pub record IsEmitted (limit : ℕ) (p : List ℕ) (c : Cursor) (l : LogFragment) (after : List ℕ)
      : Type 0 where
    pub kept : bytes_of l.entry ++ after ≡ p
    pub advances : 0 < length (bytes_of l.entry)
    pub short : length l.entry.payload ≤ limit
    pub clean : NoNewline l.entry.payload
    pub sized : enc.entry_size l.entry ≤ max_entry_bytes
    pub starts : l.entry.at ≡ c
    pub next_offset : l.next.offset ≡ c.offset + length (bytes_of l.entry)

  fragment_of-IsEmitted :
      (limit : ℕ) (p left : List ℕ) (chunk : Chunk) (c : Cursor) (n : ℕ)
      → IsTaken limit p chunk left
      → IsGoodFit chunk c (length chunk.content) (fits n)
      → IsEmitted limit p c (fragment_of enc active_prefix chunk c n) (
          remainder_of chunk n (fragment_of enc active_prefix chunk c n).entry.fragment_final
          ++ left)
  unfolding fragment_of remainder_of
  fragment_of-IsEmitted limit p left chunk c n t (le, pos, sized) = record {
    kept = elim (Bool-cases (is_final chunk n)) [
      | inl final ↦ rw final (
          kept_all chunk.content (newline_if chunk.terminated) left p n
            (unfold is_final in ground arith) t.kept)
      | inr more ↦ rw more (kept_part chunk.content (newline_if chunk.terminated) left p n t.kept)
    ];
    advances = advances;
    short = omega (arith, t.fits, length-take n chunk.content);
    clean = NoNewline-take n chunk.content t.clean;
    sized = sized;
    starts = refl;
    next_offset = ground (
      arith,
      length-take n chunk.content,
      length-append (take n chunk.content) (newline_if (is_final chunk n && chunk.terminated)),
    );
  }
    where
      advances :
          0 < length (take n chunk.content ++ newline_if (is_final chunk n && chunk.terminated))
      advances = ground (
        arith,
        is_final_empty chunk n le,
        t.advances,
        pos,
        length-take n chunk.content,
        length-append (take n chunk.content) (newline_if (is_final chunk n && chunk.terminated)),
      )

  -- what a round that neither stops nor fails has done, and that a round never runs out of fuel
  abbrev pub IsGoodStep : ℕ → List ℕ → List ℕ → Cursor → Step → Type 0
  IsGoodStep limit p left c stop = p ≡ []
  IsGoodStep limit p left c (fail e) = (e ≡ encoding) × Oversized enc
  IsGoodStep limit p left c (fragment l back) = IsEmitted limit p c l (back ++ left)

  emit_fit-IsGoodStep :
      (limit : ℕ) (p left : List ℕ) (chunk : Chunk) (c : Cursor) (r : Fit)
      → IsTaken limit p chunk left
      → IsGoodFit chunk c (length chunk.content) r
      → IsGoodStep limit p left c (emit_fit enc active_prefix chunk c r)
  unfolding emit_fit
  emit_fit-IsGoodStep limit p left chunk c (fits n) t g =
      fragment_of-IsEmitted limit p left chunk c n t g
  emit_fit-IsGoodStep limit p left chunk c too_large t g = (refl, g)
  emit_fit-IsGoodStep limit p left chunk c exhausted t g = absurd g

  pub emit-IsGoodStep :
      (limit : ℕ) (p left : List ℕ) (chunk : Chunk) (c : Cursor)
      → IsTaken limit p chunk left
      → IsGoodStep limit p left c (emit enc active_prefix chunk c)
  unfolding emit
  emit-IsGoodStep limit p left chunk c t =
      let more : (length chunk.content == 0) && not chunk.terminated ≡ false =
        ground (arith, t.advances) in
      rw more (
        emit_fit-IsGoodStep limit p left chunk c _ t (
          fit-IsGoodFit (suc (length chunk.content)) chunk c (length chunk.content) (omega arith)
            (omega arith)))
