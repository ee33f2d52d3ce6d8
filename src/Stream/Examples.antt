-- ===== src/Stream/Examples.antt =====
-- Runs of the fragment generator, and the guarantees at these runs.
use proxmox_management.Prelude.{
  ℕ, zero, suc, ◌+◌, ◌-◌, ◌≡◌, refl, List, [], ◌∷◌, true, false, arith, length, codes, ◌⊎◌, inr,
}
use proxmox_management.Stream.Utf8.{is_continuation, sequence_length, utf8_safe_end}
use proxmox_management.Stream.Utf8.Boundary.{
  Encoded, encode_all, whole_characters, utf8_safe_end-whole_characters,
}
use proxmox_management.Stream.Lines.{LineBuffer, push_front, next_chunk}
use proxmox_management.Stream.Lines.Refinement.{pending}
use proxmox_management.Stream.Fragments.{
  Cursor, Encoder, Error, Trace, finished, failed, yields, emit, is_final, fragments,
  iter_log_fragments,
}
use proxmox_management.Stream.Fragments.Reference.{stream_fragments, fragments-eq-stream_fragments}
use proxmox_management.Stream.Fragments.Delivery.{emitted}
use proxmox_management.Stream.Guarantees.{
  IsComplete, IsCut, AllFragments, IsSendable, IsContiguous, iter_log_fragments_lossless,
  iter_log_fragments-IsSendable, iter_log_fragments-IsContiguous, iter_log_fragments_resume,
  iter_log_fragments_refuses,
}

-- an encoder that frames a payload with 60 bytes
abbrev framing : Encoder
framing = record { entry_size = λ e. length e.payload + 60; proposed = λ n size. n - 1 }

abbrev log_bytes : List ℕ
log_bytes = codes "ab\ncdefg\nh"

abbrev start : Cursor
start = record { offset = 100; line_number = 1; fragment_index = 0 }

abbrev whole_run : Trace
whole_run = iter_log_fragments framing true 3 100 log_bytes start

whole_run_emits : emitted whole_run ≡ log_bytes
unfolding iter_log_fragments fragments emit next_chunk push_front utf8_safe_end is_continuation
    sequence_length is_final
whole_run_emits = refl

-- "aé€" and a request that falls inside "€"
abbrev characters : List Encoded
characters =
    record { lead = 0x61; continuations = [] }
    ∷ record { lead = 0xC3; continuations = 0xA9 ∷ [] }
    ∷ record { lead = 0xE2; continuations = 0x82 ∷ 0xAC ∷ [] }
    ∷ []

utf8_safe_end-whole_characters_example :
    utf8_safe_end (encode_all characters) 5 ≡ whole_characters characters 5
unfolding is_continuation sequence_length
utf8_safe_end-whole_characters_example = utf8_safe_end-whole_characters characters 5 (
  record { starts = refl; announced = refl; continued = tt },
  (
    record { starts = refl; announced = refl; continued = (refl, tt) },
    (record { starts = refl; announced = refl; continued = (refl, (refl, tt)) }, tt),
  ),
)

abbrev looking : LineBuffer
looking = record { buf = codes "ab"; eof = false; rest = codes "\ncd" }

fragments-eq-stream_fragments_example :
    fragments framing true 9 3 looking start
    ≡ stream_fragments framing true 9 3 (pending looking) start
fragments-eq-stream_fragments_example =
    fragments-eq-stream_fragments framing true 9 3 looking start (omega arith)
      (record { bounded = omega arith; ended = λ e. absurd (cc) })

iter_log_fragments_lossless_example :
    IsComplete log_bytes start whole_run ⊎ IsCut framing log_bytes whole_run
iter_log_fragments_lossless_example =
    iter_log_fragments_lossless framing true 3 100 log_bytes start (omega arith) (omega arith)
      (omega arith)

iter_log_fragments-IsSendable_example : AllFragments (IsSendable framing true 3) whole_run
iter_log_fragments-IsSendable_example =
    iter_log_fragments-IsSendable framing true 3 100 log_bytes start (omega arith) (omega arith)
      (omega arith)

iter_log_fragments-IsContiguous_example : IsContiguous start whole_run
iter_log_fragments-IsContiguous_example =
    iter_log_fragments-IsContiguous framing true 3 100 log_bytes start (omega arith) (omega arith)
      (omega arith)

-- the second fragment is the first part of the second line
abbrev second : Cursor
second = record { offset = 106; line_number = 2; fragment_index = 1 }

abbrev drop_fragments : ℕ → Trace → Trace
drop_fragments zero t = t
drop_fragments (suc n) (yields l t) = drop_fragments n t
drop_fragments (suc n) (finished c) = finished c
drop_fragments (suc n) (failed e) = failed e

iter_log_fragments_resume_example :
    iter_log_fragments framing true 3 100 log_bytes second ≡ drop_fragments 2 whole_run
unfolding iter_log_fragments fragments emit next_chunk push_front utf8_safe_end is_continuation
    sequence_length is_final
iter_log_fragments_resume_example =
    iter_log_fragments_resume framing true 3 100 log_bytes start (omega arith) (omega arith)
      (omega arith) 1 second (drop_fragments 2 whole_run) refl

iter_log_fragments_refuses_example :
    (e : Error) × (iter_log_fragments framing true 3 100 log_bytes (record start { offset = 111 })
      ≡ failed e)
iter_log_fragments_refuses_example =
    iter_log_fragments_refuses framing true 3 100 log_bytes (record start { offset = 111 })
      (inr (omega arith))
