-- ===== src/Stream/Fragments.antt =====
-- `iter_log_fragments` of proxmox_fleet/housekeeping_stream.py. The yielded entry's text and
-- base64 forms are functions of its payload, and are left out, as are the constant `filename`
-- and `source_id` and the statistic `decoded_bytes`. The length of the JSON that `encode_entry`
-- makes of an entry, and the shortened length that the float product
-- `int(payload_length * MAX_ENTRY_BYTES / len(encoded) * 0.97)` proposes, are parameters.
pub mod Steps
pub mod Reference
pub mod Delivery
pub mod Resume
pub mod Skip
use proxmox_management.Prelude.{
  ℕ, zero, suc, ◌+◌, ◌-◌, Bool, List, [], ◌++◌, length, take, drop, ltb, leb, ◌==◌, if◌then◌else◌,
  false, not, ◌&&◌, ◌||◌, Option, none, some, min,
}
use proxmox_management.Stream.Utf8.{utf8_safe_end}
use proxmox_management.Stream.Lines.{
  LineBuffer, Chunk, new_buffer, push_front, at_least_one, next_chunk, newline_if,
}

abbrev pub max_entry_bytes : ℕ
max_entry_bytes = 131072

abbrev pub max_raw_fragment : ℕ
max_raw_fragment = 16384

abbrev pub read_chunk : ℕ
read_chunk = 1048576

-- offset, line_number, fragment_index: where the next fragment starts
pub record Cursor : Type 0 where
  pub offset : ℕ
  pub line_number : ℕ
  pub fragment_index : ℕ

pub record Entry : Type 0 where
  pub payload : List ℕ
  pub at : Cursor
  pub fragment_final : Bool
  pub terminated : Bool
  pub partial : Bool

pub record LogFragment : Type 0 where
  pub entry : Entry
  pub next : Cursor

pub data Error : Type 0 where
  unsupported offset_before truncated encoding out_of_fuel : Error

-- what the generator yields, and how it ends
pub data Trace : Type 0 where
  finished : Cursor → Trace
  failed : Error → Trace
  yields : LogFragment → Trace → Trace

unfoldable pub build_entry : List ℕ → Cursor → Bool → Bool → Bool → Entry
build_entry payload at fragment_final terminated partial = record {
  payload = payload;
  at = at;
  fragment_final = fragment_final;
  terminated = fragment_final && terminated;
  partial = partial;
}

pub data Fit : Type 0 where
  fits : ℕ → Fit
  too_large exhausted : Fit

-- the guards round the proposed length, and the cut at a character
unfoldable pub shorten : List ℕ → ℕ → ℕ → ℕ
unfolding at_least_one
shorten content payload_length proposed =
    let below = if leb payload_length proposed then payload_length - 1 else proposed in
    at_least_one (utf8_safe_end content (at_least_one below))

-- the four cases of `next_offset`, `next_line_number` and `next_fragment_index`
unfoldable pub next_cursor : Cursor → ℕ → Bool → Bool → Bool → Cursor
next_cursor c payload_length final terminated active_prefix =
    if final && terminated
    then record {
      offset = c.offset + payload_length + 1;
      line_number = c.line_number + 1;
      fragment_index = 0;
    }
    else if final && active_prefix
    then record {
      offset = c.offset + payload_length;
      line_number = c.line_number;
      fragment_index = c.fragment_index + 1;
    }
    else if final
    then record {
      offset = c.offset + payload_length;
      line_number = c.line_number + 1;
      fragment_index = 0;
    }
    else record {
      offset = c.offset + payload_length;
      line_number = c.line_number;
      fragment_index = c.fragment_index + 1;
    }

-- what goes back into the buffer when the fragment does not end its line
unfoldable pub remainder_of : Chunk → ℕ → Bool → List ℕ
remainder_of chunk payload_length final =
    if final then [] else drop payload_length chunk.content ++ newline_if chunk.terminated

-- one round of the outer loop: the fragment, and the bytes to push back
pub data Step : Type 0 where
  stop : Step
  fail : Error → Step
  fragment : LogFragment → List ℕ → Step

-- the generator goes on with `rest` behind a fragment
unfoldable pub follow : Cursor → (LogFragment → List ℕ → Trace) → Step → Trace
follow c rest stop = finished c
follow c rest (fail e) = failed e
follow c rest (fragment l back) = yields l (rest l back)

-- final = line_end and payload_length == len(content)
unfoldable pub is_final : Chunk → ℕ → Bool
is_final chunk payload_length =
    (chunk.terminated || chunk.eof_final) && (payload_length == length chunk.content)

-- len(encode_entry(entry)), and the proposed shorter length
pub record Encoder : Type 0 where
  pub entry_size : Entry → ℕ
  pub proposed : ℕ → ℕ → ℕ

-- `skip`: reads what stands before the resume offset, in chunks of at most `read_chunk`
pub skip_to : ℕ → ℕ → List ℕ → Option (List ℕ)
skip_to zero skip stream = if skip == 0 then some stream else none
skip_to (suc f) skip stream =
    let n = min skip read_chunk in
    let got = length (take n stream) in
    let rest = skip_to f (skip - got) (drop n stream) in
    if skip == 0 then some stream else if got == 0 then none else rest

module _ (enc : Encoder) (active_prefix : Bool) where
  open enc use {entry_size, proposed}

  -- the entry of the first `payload_length` bytes of a chunk
  unfoldable pub entry_of : Chunk → Cursor → ℕ → Entry
  unfolding build_entry
  entry_of chunk c payload_length =
      let line_end = chunk.terminated || chunk.eof_final in
      let final = is_final chunk payload_length in
      let partial = line_end && (not chunk.terminated && active_prefix) in
      build_entry (take payload_length chunk.content) c final chunk.terminated
        (if final then partial else false)

  -- the inner loop that shrinks a payload until its encoded entry fits
  pub fit : ℕ → Chunk → Cursor → ℕ → Fit
  fit zero chunk c payload_length = exhausted
  fit (suc f) chunk c payload_length =
      let size = entry_size (entry_of chunk c payload_length) in
      let smaller =
        fit f chunk c (shorten chunk.content payload_length (proposed payload_length size)) in
      if leb size max_entry_bytes
      then fits payload_length
      else if leb payload_length 1
      then too_large
      else smaller

  unfoldable pub fragment_of : Chunk → Cursor → ℕ → LogFragment
  unfolding entry_of next_cursor
  fragment_of chunk c payload_length =
      let entry = entry_of chunk c payload_length in
      record {
        entry = entry;
        next = next_cursor c payload_length entry.fragment_final chunk.terminated active_prefix;
      }

  unfoldable pub emit_fit : Chunk → Cursor → Fit → Step
  unfolding fragment_of remainder_of
  emit_fit chunk c (fits payload_length) =
      let fragment' = fragment_of chunk c payload_length in
      fragment fragment' (remainder_of chunk payload_length fragment'.entry.fragment_final)
  emit_fit chunk c too_large = fail encoding
  emit_fit chunk c exhausted = fail out_of_fuel

  unfoldable pub emit : Chunk → Cursor → Step
  unfolding fit emit_fit
  emit chunk c =
      if (length chunk.content == 0) && not chunk.terminated
      then stop
      else emit_fit chunk c (fit (suc (length chunk.content)) chunk c (length chunk.content))

  -- `while True`; each round emits at least one byte
  unfoldable pub fragments : ℕ → ℕ → LineBuffer → Cursor → Trace
  fragments zero limit b c = failed out_of_fuel
  fragments (suc f) limit b c =
      let (chunk, b') = next_chunk limit b in
      follow c (λ l back. fragments f limit (push_front back b') l.next) (emit chunk c)

  -- `position` is the offset of the first byte of `stream`
  unfoldable pub iter_log_fragments : ℕ → ℕ → List ℕ → Cursor → Trace
  unfolding skip_to fragments follow
  iter_log_fragments max_raw position stream start =
      if ltb max_raw 1
      then failed unsupported
      else if ltb start.offset position
      then failed offset_before
      else elim (skip_to (start.offset - position) (start.offset - position) stream) [
        | none ↦ failed truncated
        | some rest ↦
            fragments (suc (length rest)) (min max_raw max_raw_fragment) (new_buffer rest) start
      ]
