-- ===== src/Stream/Utf8/Boundary.antt =====
-- Where `_utf8_safe_end` cuts a buffer that is well-formed UTF-8.
use proxmox_management.Prelude.{
  ℕ, zero, suc, ◌+◌, ◌-◌, ◌≤◌, ◌<◌, ◌≡◌, refl, List, [], ◌∷◌, ◌++◌, length, get_or, ltb, leb,
  if◌then◌else◌, arith, Bool-cases, inl, inr, true, false, length-append, ◌∙◌, ap, sym,
}
use proxmox_management.Stream.Utf8.{
  is_continuation, sequence_length, back_up, cut_before, utf8_safe_end,
}

-- one encoded character: its lead byte and its continuation bytes
pub record Encoded : Type 0 where
  pub lead : ℕ
  pub continuations : List ℕ

abbrev pub bytes : Encoded → List ℕ
bytes c = c.lead ∷ c.continuations

abbrev pub AllContinuations : List ℕ → Type 0
AllContinuations [] = Unit
AllContinuations (b ∷ bs) = (is_continuation b ≡ true) × AllContinuations bs

pub record IsEncoded (c : Encoded) : Type 0 where
  pub starts : is_continuation c.lead ≡ false
  pub announced : sequence_length c.lead ≡ length (bytes c)
  pub continued : AllContinuations c.continuations

abbrev pub AllEncoded : List Encoded → Type 0
AllEncoded [] = Unit
AllEncoded (c ∷ cs) = IsEncoded c × AllEncoded cs

abbrev pub encode_all : List Encoded → List ℕ
encode_all [] = []
encode_all (c ∷ cs) = bytes c ++ encode_all cs

-- the length of the longest run of whole characters within `end` bytes
unfoldable pub whole_characters : List Encoded → ℕ → ℕ
whole_characters [] end = 0
whole_characters (c ∷ cs) end =
    let rest = whole_characters cs (end - length (bytes c)) in
    if leb (length (bytes c)) end then length (bytes c) + rest else 0

get_or-append : (c r : List ℕ) (i : ℕ) → get_or (c ++ r) (length c + i) 0 ≡ get_or r i 0
get_or-append [] r i = ground arith
get_or-append (x ∷ c) r i = ground (arith, get_or-append c r i)

get_or-append_left : (c r : List ℕ) (i : ℕ) → i < length c → get_or (c ++ r) i 0 ≡ get_or c i 0
get_or-append_left [] r i h = elim h [ ]
get_or-append_left (x ∷ c) r zero h = refl
get_or-append_left (x ∷ c) r (suc i) h = get_or-append_left c r i (omega arith)

continuation_at :
    (bs : List ℕ) (i : ℕ)
    → AllContinuations bs
    → i < length bs
    → is_continuation (get_or bs i 0) ≡ true
continuation_at [] i h lt = elim lt [ ]
continuation_at (b ∷ bs) zero h lt = h.0
continuation_at (b ∷ bs) (suc i) h lt = continuation_at bs i h.1 (omega arith)

-- inside the first character every position backs up to behind its lead byte
back_up_first :
    (c : Encoded) (r : List ℕ) (i : ℕ)
    → IsEncoded c
    → i < length (bytes c)
    → back_up (bytes c ++ r) (suc i) ≡ 1
unfolding back_up
back_up_first c r zero h lt = rw (h.starts)
back_up_first c r (suc i) h lt = rw (get_or-append_left c.continuations r i (omega arith)) (
    rw (continuation_at c.continuations i h.continued (omega arith))
      (back_up_first c r i h (omega arith)))

back_up_pos : (c : Encoded) (r : List ℕ) (i : ℕ) → IsEncoded c → 0 < back_up (bytes c ++ r) (suc i)
unfolding back_up
back_up_pos c r zero h = rw (h.starts) (omega arith)
back_up_pos c r (suc i) h = ground (arith, back_up_pos c r i h)

-- behind the first part the search does not return to it
back_up-append :
    (c r : List ℕ) (i : ℕ)
    → 0 < back_up r i
    → back_up (c ++ r) (length c + i) ≡ length c + back_up r i
unfolding back_up
back_up-append c r zero h = absurd (omega arith)
back_up-append c r (suc i) h = rw (e) (ground (arith, get_or-append c r i, back_up-append c r i))
  where
    e : length c + suc i ≡ suc (length c + i)
    e = omega arith

cut_before-append :
    (c r : List ℕ) (end j : ℕ)
    → cut_before (c ++ r) (length c + end) (length c + suc j) ≡ length c + cut_before r end (suc j)
unfolding cut_before
cut_before-append c r end j = rw (e) (ground (arith, get_or-append c r j))
  where
    e : length c + suc j ≡ suc (length c + j)
    e = omega arith

-- a cut at the end of a first character, or inside it
cut_first :
    (c : Encoded) (r : List ℕ) (i : ℕ)
    → IsEncoded c
    → i < length (bytes c)
    → cut_before (bytes c ++ r) (suc i) (back_up (bytes c ++ r) (suc i))
      ≡ (if leb (length (bytes c)) (suc i) then suc i else 0)
unfolding cut_before
cut_first c r i h lt = rw (back_up_first c r i h lt) (ground (arith, h.announced))

-- a cut behind the first character
cut_rest :
    (c d : Encoded) (r : List ℕ) (i : ℕ)
    → IsEncoded d
    → cut_before
        (bytes c ++ (bytes d ++ r))
        (length (bytes c) + suc i)
        (back_up (bytes c ++ (bytes d ++ r)) (length (bytes c) + suc i))
      ≡ length (bytes c) + cut_before (bytes d ++ r) (suc i) (back_up (bytes d ++ r) (suc i))
cut_rest c d r i h =
    rw (back_up-append (bytes c) (bytes d ++ r) (suc i) (back_up_pos d r i h))
      (step _ (back_up_pos d r i h))
  where
    step :
        (j : ℕ)
        → 0 < j
        → cut_before (bytes c ++ (bytes d ++ r)) (length (bytes c) + suc i) (length (bytes c) + j)
          ≡ length (bytes c) + cut_before (bytes d ++ r) (suc i) j
    step zero p = absurd (omega arith)
    step (suc j) p = cut_before-append (bytes c) (bytes d ++ r) (suc i) j

whole_characters-zero : (cs : List Encoded) → whole_characters cs 0 ≡ 0
unfolding whole_characters
whole_characters-zero [] = refl
whole_characters-zero (c ∷ cs) = ground arith

whole_characters_first :
    (c : Encoded) (cs : List Encoded) (k : ℕ)
    → whole_characters (c ∷ cs) (length (bytes c) + k) ≡ length (bytes c) + whole_characters cs k
unfolding whole_characters
whole_characters_first c cs k =
    let e : length (bytes c) + k - length (bytes c) ≡ k = omega arith in rw e (ground arith)

utf8_safe_end_inside :
    (buf : List ℕ) (end : ℕ)
    → 0 < end
    → end < length buf
    → utf8_safe_end buf end ≡ cut_before buf end (back_up buf end)
unfolding utf8_safe_end
utf8_safe_end_inside buf end p h = ground arith

utf8_safe_end_all : (buf : List ℕ) (end : ℕ) → length buf ≤ end → utf8_safe_end buf end ≡ length buf
unfolding utf8_safe_end
utf8_safe_end_all buf end h = ground arith

-- The cut of a well-formed buffer keeps the longest run of whole characters that ends at most
-- at the requested place: no encoded character is split, and none that fits is left out.
pub utf8_safe_end-whole_characters :
    (cs : List Encoded) (end : ℕ)
    → AllEncoded cs
    → utf8_safe_end (encode_all cs) end ≡ whole_characters cs end
unfolding whole_characters
utf8_safe_end-whole_characters [] end h = unfold utf8_safe_end in ground arith
utf8_safe_end-whole_characters (c ∷ cs) zero h = unfold utf8_safe_end in ground arith
utf8_safe_end-whole_characters (c ∷ cs) (suc i) h =
    elim (Bool-cases (leb (length (encode_all (c ∷ cs))) (suc i))) [
      | inl all ↦
          utf8_safe_end_all (encode_all (c ∷ cs)) (suc i) (ground arith)
          ∙ ground (
            arith,
            length-append (bytes c) (encode_all cs),
            utf8_safe_end-whole_characters cs (suc i - length (bytes c)) h.1,
            utf8_safe_end_all (encode_all cs) (suc i - length (bytes c)),
          )
      | inr more ↦
          utf8_safe_end_inside (encode_all (c ∷ cs)) (suc i) (omega arith) (ground arith)
          ∙ elim (Bool-cases (ltb i (length (bytes c)))) [
            | inl first ↦
                cut_first c (encode_all cs) i h.0 (ground arith)
                ∙ ground (arith, whole_characters-zero cs)
            | inr behind ↦
                rest cs (i - length (bytes c)) h.1 (ground arith)
                  (ground (arith, length-append (bytes c) (encode_all cs)))
                  (utf8_safe_end-whole_characters cs (suc (i - length (bytes c))) h.1)
          ]
    ]
  where
    rest :
        (ds : List Encoded) (k : ℕ)
        → AllEncoded ds
        → i ≡ length (bytes c) + k
        → suc k < length (encode_all ds)
        → utf8_safe_end (encode_all ds) (suc k) ≡ whole_characters ds (suc k)
        → cut_before (bytes c ++ encode_all ds) (suc i) (back_up (bytes c ++ encode_all ds) (suc i))
          ≡ whole_characters (c ∷ ds) (suc i)
    rest [] k hs e lt ih = elim lt [ ]
    rest (d ∷ ds) k hs e lt ih =
        let e' : suc i ≡ length (bytes c) + suc k = omega arith in
        rw e' (
          cut_rest c d (encode_all ds) k hs.0
          ∙ (ap (λ n. length (bytes c) + n)
                (sym (utf8_safe_end_inside (encode_all (d ∷ ds)) (suc k) (omega arith) lt) ∙ ih)
              ∙ sym (whole_characters_first c (d ∷ ds) (suc k))))
