-- ===== src/Stream/Lines.antt =====
-- `_LineBuffer` of proxmox_fleet/housekeeping_stream.py: bounded lookahead over the decoded stream.
-- `rest` is what `DecodedLogReader.read` still returns; `read(n)` gives n bytes, or fewer at the
-- end of the stream (a decoding error ends the iteration and is not modelled).
pub mod Splitting
pub mod Refinement
use proxmox_management.Prelude.{
  ℕ, zero, suc, ◌+◌, ◌-◌, ◌≤◌, ◌<◌, ◌≡◌, refl, Bool, List, [], ◌∷◌, ◌++◌, length, take, drop, ltb,
  leb, ◌==◌, if◌then◌else◌, arith, true, false, not, ◌&&◌, Option, none, some,
}
use proxmox_management.Stream.Utf8.{utf8_safe_end}

pub record LineBuffer : Type 0 where
  pub buf : List ℕ
  pub eof : Bool
  pub rest : List ℕ

pub record Chunk : Type 0 where
  pub content : List ℕ
  pub terminated : Bool
  pub eof_final : Bool

-- the newline that ended a line, if one did
abbrev pub newline_if : Bool → List ℕ
newline_if true = 10 ∷ []
newline_if false = []

-- __init__
abbrev pub new_buffer : List ℕ → LineBuffer
new_buffer stream = record { buf = []; eof = false; rest = stream }

unfoldable pub push_front : List ℕ → LineBuffer → LineBuffer
push_front bytes b = record b { buf = bytes ++ b.buf }

-- The loop of `_fill`; each round reads at least one byte or meets the end of the stream.
pub fill_loop : ℕ → ℕ → LineBuffer → LineBuffer
fill_loop zero want b = b
fill_loop (suc f) want b =
    let chunk = take (want - length b.buf) b.rest in
    let left = drop (want - length b.buf) b.rest in
    let next = fill_loop f want (record b { buf = b.buf ++ chunk; rest = left }) in
    if ltb (length b.buf) want && not b.eof
    then (if length chunk == 0 then record b { eof = true } else next)
    else b

unfoldable pub fill : ℕ → LineBuffer → LineBuffer
unfolding fill_loop
fill want b = fill_loop (suc want) want b

-- bytes.find(b"\n", 0, end)
unfoldable pub find_newline : List ℕ → ℕ → Option ℕ
find_newline [] end = none
find_newline (b ∷ bs) zero = none
find_newline (b ∷ bs) (suc end) =
    let later = find_newline bs end in
    if b == 10 then some 0 else elim later [ none ↦ none | some i ↦ some (suc i) ]

unfoldable pub at_least_one : ℕ → ℕ
at_least_one n = if ltb n 1 then 1 else n

-- `next_chunk` behind its `_fill` and its search, for a buffer that is not empty
unfoldable pub split_at : ℕ → List ℕ → Option ℕ → Chunk × List ℕ
unfolding at_least_one
split_at max_raw buf (some newline) = (
  record { content = take newline buf; terminated = true; eof_final = false },
  drop (newline + 1) buf,
)
split_at max_raw buf none =
    let end = at_least_one (utf8_safe_end buf max_raw) in
    if ltb max_raw (length buf)
    then (record { content = take end buf; terminated = false; eof_final = false }, drop end buf)
    else (record { content = buf; terminated = false; eof_final = true }, [])

unfoldable pub split_buffer : ℕ → List ℕ → Chunk × List ℕ
unfolding split_at find_newline
split_buffer max_raw buf = split_at max_raw buf (find_newline buf (max_raw + 1))

-- `next_chunk` behind its `_fill`
unfoldable pub take_chunk : ℕ → LineBuffer → Chunk × LineBuffer
take_chunk max_raw b =
    let (chunk, left) = split_buffer max_raw b.buf in
    if length b.buf == 0
    then (record { content = []; terminated = false; eof_final = true }, b)
    else (chunk, record b { buf = left })

unfoldable pub next_chunk : ℕ → LineBuffer → Chunk × LineBuffer
unfolding fill take_chunk split_buffer
next_chunk max_raw b = take_chunk max_raw (fill (max_raw + 1) b)
