-- ===== src/Stream/Fragments/Delivery.antt =====
-- What a whole run of the fragment generator delivers of its stream.
use proxmox_management.Prelude.{
  ℕ, zero, suc, ◌+◌, ◌<◌, ◌≡◌, refl, Bool, List, [], ◌∷◌, ◌++◌, length, arith, ap, length-append,
}
use proxmox_management.Stream.Lines.Refinement.{chunk_of, chunk_of-IsTaken, chunk_of-nil}
use proxmox_management.Stream.Fragments.{
  Cursor, LogFragment, Encoder, Step, Trace, finished, failed, yields, stop, fail, fragment,
  encoding, emit, follow,
}
use proxmox_management.Stream.Fragments.Steps.{
  bytes_of, Oversized, IsEmitted, IsGoodStep, emit-IsGoodStep,
}
use proxmox_management.Stream.Fragments.Reference.{stream_fragments}

-- the bytes that the yielded fragments stand for, in their order
abbrev pub emitted : Trace → List ℕ
emitted (finished c) = []
emitted (failed e) = []
emitted (yields l t) = bytes_of l.entry ++ emitted t

module _ (enc : Encoder) (active_prefix : Bool) (limit : ℕ) where
  -- from the cursor on, the trace covers the bytes fragment by fragment
  abbrev pub Delivers : List ℕ → Cursor → Trace → Type 0
  Delivers p c (finished c') = (p ≡ []) × (c' ≡ c)
  Delivers p c (failed e) = (e ≡ encoding) × Oversized enc
  Delivers p c (yields l t) =
      (rest : List ℕ) × IsEmitted enc active_prefix limit p c l rest × Delivers rest l.next t

  follow-Delivers :
      (p left : List ℕ) (c : Cursor) (k : LogFragment → List ℕ → Trace) (s : Step)
      → IsGoodStep enc active_prefix limit p left c s
      → ((l : LogFragment) (back : List ℕ)
          → IsEmitted enc active_prefix limit p c l (back ++ left)
          → Delivers (back ++ left) l.next (k l back))
      → Delivers p c (follow c k s)
  unfolding follow
  follow-Delivers p left c k stop g h = (g, refl)
  follow-Delivers p left c k (fail e) g h = g
  follow-Delivers p left c k (fragment l back) g h = (back ++ left, g, h l back g)

  pub shorter :
      (p : List ℕ) (c : Cursor) (l : LogFragment) (rest : List ℕ)
      → IsEmitted enc active_prefix limit p c l rest
      → (length rest < length p) × (length p ≡ length (bytes_of l.entry) + length rest)
  shorter p c l rest e =
      omega (arith, e.advances, ap length e.kept, length-append (bytes_of l.entry) rest)

  emit_nothing : (c : Cursor) → emit enc active_prefix (chunk_of limit []).0 c ≡ stop
  unfolding emit
  emit_nothing c = ground (arith, chunk_of-nil limit)

  pub stream-IsGoodStep :
      (p : List ℕ) (c : Cursor)
      → 0 < limit
      → IsGoodStep enc active_prefix limit p
          (chunk_of limit p).1
          c
          (emit enc active_prefix (chunk_of limit p).0 c)
  stream-IsGoodStep [] c pos = rw (emit_nothing c)
  stream-IsGoodStep (b ∷ p) c pos =
      emit-IsGoodStep enc active_prefix limit (b ∷ p) _ _ c
        (chunk_of-IsTaken limit (b ∷ p) pos (omega arith))

  pub stream_fragments-Delivers :
      (f : ℕ) (p : List ℕ) (c : Cursor)
      → 0 < limit
      → length p < f
      → Delivers p c (stream_fragments enc active_prefix f limit p c)
  unfolding stream_fragments
  stream_fragments-Delivers zero p c pos lt = elim lt [ ]
  stream_fragments-Delivers (suc f) p c pos lt =
      follow-Delivers p (chunk_of limit p).1 c _ _ (stream-IsGoodStep p c pos) (λ l back e.
        stream_fragments-Delivers f (back ++ (chunk_of limit p).1) l.next pos
          (omega (arith, shorter p c l (back ++ (chunk_of limit p).1) e)))
