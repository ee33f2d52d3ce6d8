-- ===== src/Stream/Lines/Refinement.antt =====
-- `_LineBuffer` against the bytes that it still stands for: what lookahead it holds makes no
-- difference, and no byte is lost, doubled or reordered.
use proxmox_management.Prelude.{
  ℕ, zero, suc, ◌+◌, ◌-◌, ◌≤◌, ◌<◌, ◌≡◌, List, [], ◌++◌, length, take, drop, ltb, ◌==◌,
  if◌then◌else◌, arith, true, false, not, ◌&&◌, take_all, drop_all, take-append, drop-append,
  append_regroup, nil_of_length, length-take, take-append-drop, append_assoc, append-nil,
  Bool-cases, inl, inr, ap, sym, ◌∙◌, subst, ◌⊎◌, length-append,
}
use proxmox_management.Stream.Lines.{
  LineBuffer, Chunk, fill_loop, fill, split_buffer, next_chunk, take_chunk, newline_if,
}
use proxmox_management.Stream.Lines.Splitting.{NoNewline, IsSplit, split_buffer-IsSplit}

-- the bytes that are still to be emitted
abbrev pub pending : LineBuffer → List ℕ
pending b = b.buf ++ b.rest

-- the lookahead is bounded, and the end of the stream is only noted at its end
pub record IsReady (max_raw : ℕ) (b : LineBuffer) : Type 0 where
  pub bounded : length b.buf ≤ max_raw + 1
  pub ended : b.eof ≡ true → b.rest ≡ []

record IsFilled (want : ℕ) (p : List ℕ) (b : LineBuffer) : Type 0 where
  looked : b.buf ≡ take want p
  left : b.rest ≡ drop want p
  ended : b.eof ≡ true → b.rest ≡ []

IsFilled-here :
    (want : ℕ) (b : LineBuffer)
    → length b.buf ≤ want
    → (b.eof ≡ true → b.rest ≡ [])
    → (want ≤ length b.buf) ⊎ (b.rest ≡ [])
    → IsFilled want (pending b) b
IsFilled-here want b h e (inl full) =
    let z : want - length b.buf ≡ 0 = omega arith in
    record {
      looked = rw (take-append want b.buf b.rest h) (rw (z, append-nil));
      left = rw (drop-append want b.buf b.rest h) (rw z);
      ended = e;
    }
IsFilled-here want b h e (inr empty) = record {
  looked = rw empty (rw append-nil (sym (take_all want b.buf h)));
  left = rw empty (rw append-nil (sym (drop_all want b.buf h)));
  ended = e;
}

read_nothing : (n : ℕ) (rest : List ℕ) → 0 < n → (length (take n rest) == 0) ≡ true → rest ≡ []
read_nothing n rest p h = nil_of_length rest (ground (arith, length-take n rest))

-- `self._buf += self._decoded.read(n)`
abbrev after_read : ℕ → LineBuffer → LineBuffer
after_read n b = record b { buf = b.buf ++ take n b.rest; rest = drop n b.rest }

pending-after_read : (n : ℕ) (b : LineBuffer) → pending (after_read n b) ≡ pending b
pending-after_read n b = append_assoc b.buf _ _ ∙ ap (λ r. b.buf ++ r) (take-append-drop n b.rest)

read_room :
    (f want : ℕ) (b : LineBuffer)
    → length b.buf ≤ want
    → want < suc f + length b.buf
    → (length (take (want - length b.buf) b.rest) == 0) ≡ false
    → (length (after_read (want - length b.buf) b).buf ≤ want)
      × (want < f + length (after_read (want - length b.buf) b).buf)
read_room f want b h lt more =
    rw (length-append b.buf (take (want - length b.buf) b.rest))
      (ground (arith, length-take (want - length b.buf) b.rest))

stop_reason :
    (want : ℕ) (b : LineBuffer)
    → (b.eof ≡ true → b.rest ≡ [])
    → (ltb (length b.buf) want && not b.eof) ≡ false
    → (want ≤ length b.buf) ⊎ (b.rest ≡ [])
stop_reason want b e h = elim (Bool-cases b.eof) [ inl t ↦ inr (e t) | inr f ↦ inl (ground arith) ]

fill_loop-IsFilled :
    (f want : ℕ) (b : LineBuffer)
    → length b.buf ≤ want
    → want < f + length b.buf
    → (b.eof ≡ true → b.rest ≡ [])
    → IsFilled want (pending b) (fill_loop f want b)
unfolding fill_loop
fill_loop-IsFilled zero want b h lt e = absurd (omega arith)
fill_loop-IsFilled (suc f) want b h lt e =
    elim (Bool-cases (ltb (length b.buf) want && not b.eof)) [
      | inl go ↦ rw go (elim (Bool-cases (length (take (want - length b.buf) b.rest) == 0)) [
        | inl nothing ↦ rw nothing (
            let z = read_nothing (want - length b.buf) b.rest (ground arith) nothing in
            let here = IsFilled-here want b h e (inr z) in
            record { looked = here.looked; left = here.left; ended = λ _. z })
        | inr more ↦ rw more (
            let room = read_room f want b h lt more in
            subst (λ p. IsFilled want p (fill_loop f want (after_read (want - length b.buf) b)))
              (pending-after_read (want - length b.buf) b)
              (fill_loop-IsFilled f want (after_read (want - length b.buf) b) room.0 room.1
                (λ t. ground arith)))
      ])
      | inr stop ↦ rw stop (IsFilled-here want b h e (stop_reason want b e stop))
    ]

fill-IsFilled :
    (max_raw : ℕ) (b : LineBuffer)
    → IsReady max_raw b
    → IsFilled (max_raw + 1) (pending b) (fill (max_raw + 1) b)
unfolding fill
fill-IsFilled max_raw b h =
    fill_loop-IsFilled (suc (max_raw + 1)) (max_raw + 1) b h.bounded (omega arith) h.ended

-- `next_chunk` over the bytes themselves: what stands in the lookahead is not part of the state
unfoldable pub chunk_of : ℕ → List ℕ → Chunk × List ℕ
chunk_of max_raw p =
    let (chunk, left) = split_buffer max_raw (take (max_raw + 1) p) in
    if length (take (max_raw + 1) p) == 0
    then (record { content = []; terminated = false; eof_final = true }, p)
    else (chunk, left ++ drop (max_raw + 1) p)

pub record Refines (max_raw : ℕ) (b : LineBuffer) (chunk : Chunk) (after : LineBuffer)
    : Type 0 where
  pub same_chunk : chunk ≡ (chunk_of max_raw (pending b)).0
  pub same_bytes : pending after ≡ (chunk_of max_raw (pending b)).1
  pub ready : IsReady max_raw after

-- the chunk and what is left of the lookahead fit in the lookahead
abbrev pub HasRoom : ℕ → Chunk → List ℕ → Type 0
HasRoom max_raw chunk left =
    length chunk.content + length (newline_if chunk.terminated) + length left ≤ max_raw + 1

split_room :
    (max_raw : ℕ) (buf : List ℕ)
    → 0 < max_raw
    → length buf ≤ max_raw + 1
    → 0 < length buf
    → HasRoom max_raw (split_buffer max_raw buf).0 (split_buffer max_raw buf).1
split_room max_raw buf p h nonempty =
    let (c, left) = split_buffer max_raw buf in
    let s = split_buffer-IsSplit max_raw buf p nonempty in
    omega (
      arith,
      length-append c.content (newline_if c.terminated ++ left),
      length-append (newline_if c.terminated) left,
      ap length s.kept,
    )

take_chunk-Refines :
    (max_raw : ℕ) (p : List ℕ) (b : LineBuffer)
    → 0 < max_raw
    → IsFilled (max_raw + 1) p b
    → ((take_chunk max_raw b).0 ≡ (chunk_of max_raw p).0)
      × (pending (take_chunk max_raw b).1 ≡ (chunk_of max_raw p).1)
      × ((take_chunk max_raw b).1.eof ≡ true → (take_chunk max_raw b).1.rest ≡ [])
      × HasRoom max_raw (take_chunk max_raw b).0 (take_chunk max_raw b).1.buf
unfolding take_chunk chunk_of
take_chunk-Refines max_raw p b pos h = elim (Bool-cases (length b.buf == 0)) [
  | inl empty ↦ (ground arith, ground (arith, whole), λ e. ground (arith, h.ended), ground arith)
  | inr more ↦ (
    ground arith,
    ground arith,
    λ e. ground (arith, h.ended),
    rw more (split_room max_raw b.buf pos room (ground arith)),
  )
]
  where
    room : length b.buf ≤ max_raw + 1
    room = rw h.looked (omega (arith, length-take (max_raw + 1) p))

    whole : b.buf ++ b.rest ≡ p
    whole = rw (h.looked, h.left) (take-append-drop (max_raw + 1) p)

-- `next_chunk` sees only the bytes still to be emitted: its chunk and what it leaves are those of
-- the lookahead-free `chunk_of`, and the buffer stays bounded.
pub next_chunk-Refines :
    (max_raw : ℕ) (b : LineBuffer)
    → 0 < max_raw
    → IsReady max_raw b
    → ((next_chunk max_raw b).0 ≡ (chunk_of max_raw (pending b)).0)
      × (pending (next_chunk max_raw b).1 ≡ (chunk_of max_raw (pending b)).1)
      × ((next_chunk max_raw b).1.eof ≡ true → (next_chunk max_raw b).1.rest ≡ [])
      × HasRoom max_raw (next_chunk max_raw b).0 (next_chunk max_raw b).1.buf
unfolding next_chunk
next_chunk-Refines max_raw b pos h =
    take_chunk-Refines max_raw (pending b) (fill (max_raw + 1) b) pos (fill-IsFilled max_raw b h)

-- what a chunk takes off the bytes still to be emitted
pub record IsTaken (max_raw : ℕ) (p : List ℕ) (chunk : Chunk) (left : List ℕ) : Type 0 where
  pub kept : chunk.content ++ (newline_if chunk.terminated ++ left) ≡ p
  pub fits : length chunk.content ≤ max_raw
  pub advances : 0 < length chunk.content + length (newline_if chunk.terminated)
  pub clean : NoNewline chunk.content
  pub last : chunk.eof_final ≡ true → (chunk.terminated ≡ false) × (left ≡ [])

-- a chunk that ends the file has seen all of it
nothing_left :
    (max_raw : ℕ) (p : List ℕ) (chunk : Chunk) (left : List ℕ)
    → IsSplit max_raw (take (max_raw + 1) p) chunk left
    → (chunk.terminated ≡ false) × (left ≡ [])
    → left ++ drop (max_raw + 1) p ≡ []
nothing_left max_raw p chunk left s (t, e) = rw e (
    drop_all (max_raw + 1) p (
      omega (
        arith,
        s.fits,
        ap length (sym s.kept),
        ap length (ap newline_if t),
        ap length e,
        length-append chunk.content (newline_if chunk.terminated ++ left),
        length-append (newline_if chunk.terminated) left,
        length-take (max_raw + 1) p,
      )))

IsTaken-of_split :
    (max_raw : ℕ) (p : List ℕ) (chunk : Chunk) (left : List ℕ)
    → IsSplit max_raw (take (max_raw + 1) p) chunk left
    → IsTaken max_raw p chunk (left ++ drop (max_raw + 1) p)
IsTaken-of_split max_raw p chunk left s = record {
  kept =
      append_regroup chunk.content (newline_if chunk.terminated) left (drop (max_raw + 1) p)
      ∙ (ap (λ r. r ++ drop (max_raw + 1) p) s.kept ∙ take-append-drop (max_raw + 1) p);
  fits = s.fits;
  advances = s.advances;
  clean = s.clean;
  last = λ e. ((s.last e).0, nothing_left max_raw p chunk left s (s.last e));
}

pub chunk_of-IsTaken :
    (max_raw : ℕ) (p : List ℕ)
    → 0 < max_raw
    → 0 < length p
    → IsTaken max_raw p (chunk_of max_raw p).0 (chunk_of max_raw p).1
unfolding chunk_of
chunk_of-IsTaken max_raw p pos nonempty =
    let len = length-take (max_raw + 1) p in
    let more : (length (take (max_raw + 1) p) == 0) ≡ false = ground arith in
    rw more (
      IsTaken-of_split max_raw p _ _
        (split_buffer-IsSplit max_raw (take (max_raw + 1) p) pos (omega arith)))

pub chunk_of-nil :
    (max_raw : ℕ)
    → ((chunk_of max_raw []).0.content ≡ []) × ((chunk_of max_raw []).0.terminated ≡ false)
unfolding chunk_of
chunk_of-nil max_raw = ground arith
