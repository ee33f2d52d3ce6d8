-- ===== src/Stream/Guarantees.antt =====
-- What `iter_log_fragments` of proxmox_fleet/housekeeping_stream.py guarantees its caller.
use proxmox_management.Prelude.{
  ℕ, suc, ◌+◌, ◌-◌, ◌≤◌, ◌<◌, ◌≡◌, refl, Bool, List, ◌++◌, length, drop, ltb, false, Option, none,
  some, min, arith, Bool-cases, inl, inr, ap, sym, ◌∙◌, append_assoc, length-append, subst,
  length-drop, ◌⊎◌,
}
use proxmox_management.Stream.Lines.{new_buffer}
use proxmox_management.Stream.Lines.Splitting.{NoNewline}
use proxmox_management.Stream.Fragments.{
  Cursor, LogFragment, Error, Encoder, Trace, finished, failed, yields, encoding, offset_before,
  truncated, unsupported, iter_log_fragments, max_raw_fragment, max_entry_bytes,
}
use proxmox_management.Stream.Fragments.Steps.{bytes_of, Oversized}
use proxmox_management.Stream.Fragments.Skip.{skip_to-some, skip_to-none, drop-drop}
use proxmox_management.Stream.Fragments.Reference.{stream_fragments, fragments-eq-stream_fragments}
use proxmox_management.Stream.Fragments.Delivery.{emitted, Delivers, stream_fragments-Delivers}
use proxmox_management.Stream.Fragments.Resume.{tail_after, tail_after-Resumes, fuel_enough}

-- where a run that ends normally stands
abbrev pub last_cursor : Trace → Option Cursor
last_cursor (finished c) = some c
last_cursor (failed e) = none
last_cursor (yields l t) = last_cursor t

abbrev pub error_of : Trace → Option Error
error_of (finished c) = none
error_of (failed e) = some e
error_of (yields l t) = error_of t

abbrev pub AllFragments : (LogFragment → Type 0) → Trace → Type 0
AllFragments P (finished c) = Unit
AllFragments P (failed e) = Unit
AllFragments P (yields l t) = P l × AllFragments P t

-- each fragment starts where the one before it ended, and moves on by the bytes it stands for
abbrev pub IsContiguous : Cursor → Trace → Type 0
IsContiguous c (finished c') = c' ≡ c
IsContiguous c (failed e) = Unit
IsContiguous c (yields l t) =
    (l.entry.at ≡ c)
    × (l.next.offset ≡ c.offset + length (bytes_of l.entry))
    × IsContiguous l.next t

-- all of `p` is emitted, and the run ends behind it
pub record IsComplete (p : List ℕ) (c : Cursor) (t : Trace) : Type 0 where
  end : Cursor
  ended : last_cursor t ≡ some end
  all : emitted t ≡ p
  offset : end.offset ≡ c.offset + length p

-- the run stops at an entry that cannot be made to fit, behind a prefix of `p`
pub record IsCut (enc : Encoder) (p : List ℕ) (t : Trace) : Type 0 where
  why : error_of t ≡ some encoding
  entry : Oversized enc
  lost : List ℕ
  prefix : emitted t ++ lost ≡ p

module _ (enc : Encoder) (active_prefix : Bool) (limit : ℕ) where
  Delivers-covers :
      (p : List ℕ) (c : Cursor) (t : Trace)
      → Delivers enc active_prefix limit p c t
      → IsComplete p c t ⊎ IsCut enc p t
  Delivers-covers p c (finished c') (e, same) =
      inl (record { end = c'; ended = refl; all = sym e; offset = rw (same, e) (omega arith) })
  Delivers-covers p c (failed e) (why, entry) =
      inr (record { why = ap some why; entry = entry; lost = p; prefix = refl })
  Delivers-covers p c (yields l t) (rest, e, d) = elim (Delivers-covers rest l.next t d) [
    | inl h ↦ inl (record {
      end = h.end;
      ended = h.ended;
      all = ap (λ r. bytes_of l.entry ++ r) h.all ∙ e.kept;
      offset =
          omega (
            arith,
            h.offset,
            e.next_offset,
            ap length e.kept,
            length-append (bytes_of l.entry) rest,
          );
    })
    | inr h ↦ inr (record {
      why = h.why;
      entry = h.entry;
      lost = h.lost;
      prefix =
          append_assoc (bytes_of l.entry) (emitted t) h.lost
          ∙ (ap (λ r. bytes_of l.entry ++ r) h.prefix ∙ e.kept);
    })
  ]

  Delivers-IsContiguous :
      (p : List ℕ) (c : Cursor) (t : Trace)
      → Delivers enc active_prefix limit p c t
      → IsContiguous c t
  Delivers-IsContiguous p c (finished c') (e, same) = same
  Delivers-IsContiguous p c (failed e) d = tt
  Delivers-IsContiguous p c (yields l t) (rest, e, d) =
      (e.starts, e.next_offset, Delivers-IsContiguous rest l.next t d)

  -- what every consumer of a fragment relies on
  pub record IsSendable (l : LogFragment) : Type 0 where
    pub nonempty : 0 < length (bytes_of l.entry)
    pub short : length l.entry.payload ≤ limit
    pub one_line : NoNewline l.entry.payload
    pub sized : enc.entry_size l.entry ≤ max_entry_bytes

  Delivers-AllFragments :
      (p : List ℕ) (c : Cursor) (t : Trace)
      → Delivers enc active_prefix limit p c t
      → AllFragments IsSendable t
  Delivers-AllFragments p c (finished c') d = tt
  Delivers-AllFragments p c (failed e) d = tt
  Delivers-AllFragments p c (yields l t) (rest, e, d) = (
    record { nonempty = e.advances; short = e.short; one_line = e.clean; sized = e.sized },
    Delivers-AllFragments rest l.next t d,
  )

-- the run from a resume offset inside the stream is the reference run on the bytes behind it
iter-eq-stream_fragments :
    (enc : Encoder) (active_prefix : Bool) (max_raw position : ℕ) (stream : List ℕ) (start : Cursor)
    → 0 < max_raw
    → position ≤ start.offset
    → start.offset - position ≤ length stream
    → iter_log_fragments enc active_prefix max_raw position stream start
      ≡ stream_fragments enc active_prefix
          (suc (length (drop (start.offset - position) stream)))
          (min max_raw max_raw_fragment)
          (drop (start.offset - position) stream)
          start
unfolding iter_log_fragments
iter-eq-stream_fragments enc active_prefix max_raw position stream start asked after inside =
    let valid : ltb max_raw 1 ≡ false = ground arith in
    let late : ltb start.offset position ≡ false = ground arith in
    let skip = start.offset - position in
    rw (valid, late, skip_to-some skip skip stream (omega arith) inside)
      (fragments-eq-stream_fragments enc active_prefix (suc (length (drop skip stream)))
        (min max_raw max_raw_fragment) (new_buffer (drop skip stream)) start (omega arith)
        (record { bounded = omega arith; ended = λ e. absurd (cc) }))

module _ (enc : Encoder) (active_prefix : Bool) (max_raw position : ℕ) (stream : List ℕ)
    (start : Cursor) (asked : 0 < max_raw) (after : position ≤ start.offset)
    (inside : start.offset - position ≤ length stream) where
  abbrev run : Trace
  run = iter_log_fragments enc active_prefix max_raw position stream start

  abbrev behind : List ℕ
  behind = drop (start.offset - position) stream

  abbrev bound : ℕ
  bound = min max_raw max_raw_fragment

  run-eq-stream_fragments :
      run ≡ stream_fragments enc active_prefix (suc (length behind)) bound behind start
  run-eq-stream_fragments =
      iter-eq-stream_fragments enc active_prefix max_raw position stream start asked after inside

  run-Delivers : Delivers enc active_prefix bound behind start run
  run-Delivers = rw run-eq-stream_fragments (
      stream_fragments-Delivers enc active_prefix bound (suc (length behind)) behind start
        (omega arith) (omega arith))

  -- Resuming inside the stream either emits every byte behind the resume offset, once and in
  -- order, and ends with the offset of the stream's end, or it stops with the encoding error at
  -- an entry of at most one byte that is over the bound, behind a prefix of those bytes.
  pub iter_log_fragments_lossless : IsComplete behind start run ⊎ IsCut enc behind run
  iter_log_fragments_lossless =
      Delivers-covers enc active_prefix bound behind start run run-Delivers

  -- Every fragment stands for at least one byte, holds no newline, has a payload within `max_raw`
  -- and 16 KiB, and an encoded entry of at most 128 KiB.
  pub iter_log_fragments-IsSendable : AllFragments (IsSendable enc active_prefix bound) run
  iter_log_fragments-IsSendable =
      Delivers-AllFragments enc active_prefix bound behind start run run-Delivers

  -- Each fragment starts at the cursor of the one before it, and its next offset is its own plus
  -- the bytes that it stands for; a run that ends normally ends at the last of these cursors.
  pub iter_log_fragments-IsContiguous : IsContiguous start run
  iter_log_fragments-IsContiguous =
      Delivers-IsContiguous enc active_prefix bound behind start run run-Delivers

  -- Resuming at the cursor that any fragment carried yields exactly the fragments that came
  -- behind it, with the same ending.
  pub iter_log_fragments_resume :
      (n : ℕ) (c : Cursor) (t : Trace)
      → tail_after n run ≡ some (c, t)
      → iter_log_fragments enc active_prefix max_raw position stream c ≡ t
  iter_log_fragments_resume n c t h =
      let r =
        tail_after-Resumes enc active_prefix bound n (suc (length behind)) behind start c t
          (omega arith) (omega arith)
          (subst (λ x. tail_after n x ≡ some (c, t)) run-eq-stream_fragments h) in
      let len = length-drop (start.offset - position) stream in
      let apart : start.offset - position + (c.offset - start.offset) ≡ c.offset - position =
        omega (arith, r.forward) in
      let tail : drop (c.offset - start.offset) behind ≡ drop (c.offset - position) stream =
        drop-drop (c.offset - start.offset) (start.offset - position) stream
        ∙ ap (λ k. drop k stream) apart in
      iter-eq-stream_fragments enc active_prefix max_raw position stream c asked
        (omega (arith, r.forward)) (omega (arith, r.forward, r.within, len))
      ∙ (fuel_enough enc active_prefix bound (suc (length (drop (c.offset - position) stream)))
            (suc (length behind)) (drop (c.offset - position) stream) c (omega arith) (omega arith)
            (omega (arith, length-drop (c.offset - position) stream, r.forward, len))
          ∙ sym (
              r.same (suc (length behind)) (omega arith)
              ∙ ap (λ q. stream_fragments enc active_prefix (suc (length behind)) bound q c) tail))

-- A resume offset before the stream's position, or behind the stream's end, is an error, and
-- nothing is yielded: no run starts at the wrong byte.
pub iter_log_fragments_refuses :
    (enc : Encoder) (active_prefix : Bool) (max_raw position : ℕ) (stream : List ℕ) (start : Cursor)
    → (start.offset < position) ⊎ (position + length stream < start.offset)
    → (e : Error) × (iter_log_fragments enc active_prefix max_raw position stream start ≡ failed e)
unfolding iter_log_fragments
iter_log_fragments_refuses enc active_prefix max_raw position stream start h =
    elim (Bool-cases (ltb max_raw 1)) [
      | inl none_asked ↦ (unsupported, rw none_asked)
      | inr asked ↦ elim h [
        | inl early ↦ (offset_before, ground arith)
        | inr late ↦
            let skip = start.offset - position in
            (truncated, ground (arith, skip_to-none skip skip stream))
      ]
    ]
