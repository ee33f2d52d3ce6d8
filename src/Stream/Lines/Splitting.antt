-- ===== src/Stream/Lines/Splitting.antt =====
-- What one chunk of `_LineBuffer.next_chunk` is of the buffer that it is split off.
use proxmox_management.Prelude.{
  ℕ, zero, suc, ◌+◌, ◌≤◌, ◌<◌, ◌≡◌, refl, List, [], ◌∷◌, ◌++◌, length, take, drop, ltb, ◌==◌, arith,
  true, false, Option, none, some, length-take, take-append-drop, append-nil, Bool-cases, inl, inr,
  ap, subst, take_all,
}
use proxmox_management.Stream.Utf8.{utf8_safe_end, utf8_safe_end-le}
use proxmox_management.Stream.Lines.{
  Chunk, newline_if, find_newline, at_least_one, split_at, split_buffer,
}

abbrev pub NoNewline : List ℕ → Type 0
NoNewline [] = Unit
NoNewline (b ∷ bs) = ((b == 10) ≡ false) × NoNewline bs

pub record IsSplit (max_raw : ℕ) (buf : List ℕ) (chunk : Chunk) (left : List ℕ) : Type 0 where
  pub kept : chunk.content ++ (newline_if chunk.terminated ++ left) ≡ buf
  pub fits : length chunk.content ≤ max_raw
  pub advances : 0 < length chunk.content + length (newline_if chunk.terminated)
  pub clean : NoNewline chunk.content
  pub last : chunk.eof_final ≡ true → (chunk.terminated ≡ false) × (left ≡ [])

newline_before : (buf : List ℕ) (end i : ℕ) → find_newline buf end ≡ some i → i < end
unfolding find_newline
newline_before [] end i h = ground arith
newline_before (b ∷ bs) zero i h = ground arith
newline_before (b ∷ bs) (suc end) zero h = omega arith
newline_before (b ∷ bs) (suc end) (suc i) h = ground (arith, newline_before bs end i)

newline_kept :
    (buf : List ℕ) (end i : ℕ)
    → find_newline buf end ≡ some i
    → take i buf ++ (10 ∷ drop (suc i) buf) ≡ buf
unfolding find_newline
newline_kept [] end i h = ground arith
newline_kept (b ∷ bs) zero i h = ground arith
newline_kept (b ∷ bs) (suc end) zero h = ground arith
newline_kept (b ∷ bs) (suc end) (suc i) h = ap (λ r. b ∷ r) (newline_kept bs end i (ground arith))

newline_clean : (buf : List ℕ) (end i : ℕ) → find_newline buf end ≡ some i → NoNewline (take i buf)
unfolding find_newline
newline_clean [] end i h = ground arith
newline_clean (b ∷ bs) zero i h = ground arith
newline_clean (b ∷ bs) (suc end) zero h = tt
newline_clean (b ∷ bs) (suc end) (suc i) h = (ground arith, newline_clean bs end i (ground arith))

newline_length : (buf : List ℕ) (end i : ℕ) → find_newline buf end ≡ some i → i < length buf
unfolding find_newline
newline_length [] end i h = ground arith
newline_length (b ∷ bs) zero i h = ground arith
newline_length (b ∷ bs) (suc end) zero h = omega arith
newline_length (b ∷ bs) (suc end) (suc i) h = ground (arith, newline_length bs end i)

absent_clean :
    (buf : List ℕ) (end n : ℕ) → n ≤ end → find_newline buf end ≡ none → NoNewline (take n buf)
unfolding find_newline
absent_clean buf end zero le h = tt
absent_clean [] end (suc n) le h = tt
absent_clean (b ∷ bs) zero (suc n) le h = elim le [ ]
absent_clean (b ∷ bs) (suc end) (suc n) le h =
    (ground arith, absent_clean bs end n (omega arith) (ground arith))

end_bounds :
    (max_raw : ℕ) (buf : List ℕ)
    → 0 < max_raw
    → (at_least_one (utf8_safe_end buf max_raw) ≤ max_raw)
      × (0 < at_least_one (utf8_safe_end buf max_raw))
unfolding at_least_one
end_bounds max_raw buf p = ground (arith, utf8_safe_end-le buf max_raw)

split_at-IsSplit :
    (max_raw : ℕ) (buf : List ℕ) (newline : Option ℕ)
    → 0 < max_raw
    → 0 < length buf
    → find_newline buf (max_raw + 1) ≡ newline
    → IsSplit max_raw buf (split_at max_raw buf newline).0 (split_at max_raw buf newline).1
unfolding split_at
split_at-IsSplit max_raw buf (some i) p nonempty found =
    let e : i + 1 ≡ suc i = omega arith in
    rw e (record {
      kept = newline_kept buf (max_raw + 1) i found;
      fits = ground (arith, newline_before buf (max_raw + 1) i, length-take i buf);
      advances = ground (arith, length-take i buf);
      clean = newline_clean buf (max_raw + 1) i found;
      last = λ h. cc;
    })
split_at-IsSplit max_raw buf none p nonempty absent = elim (Bool-cases (ltb max_raw (length buf))) [
  | inl long ↦
      let ends = end_bounds max_raw buf p in
      let len = length-take (at_least_one (utf8_safe_end buf max_raw)) buf in
      rw long (record {
        kept = take-append-drop _ buf;
        fits = ground arith;
        advances = ground arith;
        clean = absent_clean buf (max_raw + 1) _ (omega arith) absent;
        last = λ h. cc;
      })
  | inr short ↦ rw short (record {
    kept = append-nil buf;
    fits = ground arith;
    advances = omega arith;
    clean =
        subst NoNewline (take_all max_raw buf (ground arith))
          (absent_clean buf (max_raw + 1) max_raw (omega arith) absent);
    last = λ h. (refl, refl);
  })
]

pub split_buffer-IsSplit :
    (max_raw : ℕ) (buf : List ℕ)
    → 0 < max_raw
    → 0 < length buf
    → IsSplit max_raw buf (split_buffer max_raw buf).0 (split_buffer max_raw buf).1
unfolding split_buffer
split_buffer-IsSplit max_raw buf p nonempty =
    split_at-IsSplit max_raw buf (find_newline buf (max_raw + 1)) p nonempty refl
