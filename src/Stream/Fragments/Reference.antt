-- ===== src/Stream/Fragments/Reference.antt =====
-- `iter_log_fragments` against a reference without lookahead, whose state is the bytes still to
-- be emitted and the cursor.
use proxmox_management.Prelude.{
  ℕ, zero, suc, ◌+◌, ◌≤◌, ◌<◌, ◌≡◌, refl, Bool, List, [], ◌++◌, length, drop, ◌==◌, true, not, ◌&&◌,
  arith, Bool-cases, inl, inr, ap, ◌∙◌, append_assoc, length-append, subst, length-drop,
}
use proxmox_management.Stream.Lines.{LineBuffer, Chunk, newline_if, push_front, next_chunk}
use proxmox_management.Stream.Lines.Refinement.{
  IsReady, HasRoom, pending, chunk_of, next_chunk-Refines,
}
use proxmox_management.Stream.Fragments.{
  Cursor, LogFragment, Encoder, Fit, Step, Trace, failed, yields, fits, too_large, exhausted, stop,
  fail, fragment, out_of_fuel, remainder_of, emit, emit_fit, fragments, follow,
}

length-remainder_of :
    (chunk : Chunk) (n : ℕ) (final : Bool)
    → length (remainder_of chunk n final)
      ≤ length chunk.content + length (newline_if chunk.terminated)
unfolding remainder_of
length-remainder_of chunk n final = ground (
  arith,
  length-append (drop n chunk.content) (newline_if chunk.terminated),
  length-drop n chunk.content,
)

pub follow_cong :
    (c : Cursor) (k k' : LogFragment → List ℕ → Trace) (s : Step)
    → ((l : LogFragment) (back : List ℕ) → s ≡ fragment l back → k l back ≡ k' l back)
    → follow c k s ≡ follow c k' s
unfolding follow
follow_cong c k k' stop h = refl
follow_cong c k k' (fail e) h = refl
follow_cong c k k' (fragment l back) h = ap (yields l) (h l back refl)

pending-push_front :
    (back : List ℕ) (b : LineBuffer) → pending (push_front back b) ≡ back ++ pending b
unfolding push_front
pending-push_front back b = append_assoc back b.buf b.rest

module _ (enc : Encoder) (active_prefix : Bool) where
  -- the reference
  unfoldable pub stream_fragments : ℕ → ℕ → List ℕ → Cursor → Trace
  stream_fragments zero limit p c = failed out_of_fuel
  stream_fragments (suc f) limit p c =
      let (chunk, left) = chunk_of limit p in
      follow c (λ l back. stream_fragments f limit (back ++ left) l.next)
        (emit enc active_prefix chunk c)

  abbrev BackFits : Chunk → Step → Type 0
  BackFits chunk (fragment l back) =
      length back ≤ length chunk.content + length (newline_if chunk.terminated)
  BackFits chunk stop = Unit
  BackFits chunk (fail e) = Unit

  emit_fit-BackFits :
      (chunk : Chunk) (c : Cursor) (r : Fit) → BackFits chunk (emit_fit enc active_prefix chunk c r)
  unfolding emit_fit
  emit_fit-BackFits chunk c (fits n) = length-remainder_of chunk n _
  emit_fit-BackFits chunk c too_large = tt
  emit_fit-BackFits chunk c exhausted = tt

  emit-BackFits : (chunk : Chunk) (c : Cursor) → BackFits chunk (emit enc active_prefix chunk c)
  unfolding emit
  emit-BackFits chunk c = elim (Bool-cases ((length chunk.content == 0) && not chunk.terminated)) [
    | inl done ↦ rw done tt
    | inr more ↦ rw more (emit_fit-BackFits chunk c _)
  ]

  pushed-IsReady :
      (limit : ℕ) (b : LineBuffer) (chunk : Chunk) (s : Step) (l : LogFragment) (back : List ℕ)
      → HasRoom limit chunk b.buf
      → (b.eof ≡ true → b.rest ≡ [])
      → BackFits chunk s
      → s ≡ fragment l back
      → IsReady limit (push_front back b)
  unfolding push_front
  pushed-IsReady limit b chunk s l back room ended fit' e = record {
    bounded = omega (arith, length-append back b.buf, subst (BackFits chunk) e fit');
    ended = ended;
  }

  -- Lookahead and push-back are invisible: from any buffer within its bound the generator yields
  -- what the reference yields on the bytes that the buffer stands for.
  pub fragments-eq-stream_fragments :
      (f limit : ℕ) (b : LineBuffer) (c : Cursor)
      → 0 < limit
      → IsReady limit b
      → fragments enc active_prefix f limit b c ≡ stream_fragments f limit (pending b) c
  unfolding fragments stream_fragments
  fragments-eq-stream_fragments zero limit b c pos h = refl
  fragments-eq-stream_fragments (suc f) limit b c pos h =
      let (same_chunk, same_bytes, ended, room) = next_chunk-Refines limit b pos h in
      rw (← same_chunk, ← same_bytes)
        (follow_cong c _ _ (emit enc active_prefix (next_chunk limit b).0 c) (λ l back e.
          fragments-eq-stream_fragments f limit (push_front back (next_chunk limit b).1) l.next pos
            (pushed-IsReady limit (next_chunk limit b).1 (next_chunk limit b).0 _ l back room ended
              (emit-BackFits (next_chunk limit b).0 c) e)
          ∙ ap (λ q. stream_fragments f limit q l.next)
              (pending-push_front back (next_chunk limit b).1)))
