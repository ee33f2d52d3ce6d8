-- ===== src/Stream/Utf8.antt =====
-- `_utf8_safe_end` of proxmox_fleet/housekeeping_stream.py. A byte is a number.
pub mod Boundary
use Prim.Native.Nat.{bit_and}
use proxmox_management.Prelude.{
  ℕ, zero, suc, ◌+◌, ◌≤◌, Bool, List, length, get_or, ltb, leb, ◌==◌, if◌then◌else◌, arith,
}

-- (b & 0xC0) == 0x80
unfoldable pub is_continuation : ℕ → Bool
is_continuation b = bit_and b 0xC0 == 0x80

unfoldable pub sequence_length : ℕ → ℕ
sequence_length lead =
    if ltb lead 0x80 then 1 else if ltb lead 0xE0 then 2 else if ltb lead 0xF0 then 3 else 4

-- while index > 0 and buf[index - 1] is a continuation byte: index -= 1
pub back_up : List ℕ → ℕ → ℕ
back_up buf zero = zero
back_up buf (suc i) =
    let rest = back_up buf i in if is_continuation (get_or buf i 0) then rest else suc i

pub cut_before : List ℕ → ℕ → ℕ → ℕ
cut_before buf end zero = end
cut_before buf end (suc i) = if ltb end (i + sequence_length (get_or buf i 0)) then i else end

unfoldable pub utf8_safe_end : List ℕ → ℕ → ℕ
unfolding back_up cut_before
utf8_safe_end buf end =
    if leb end 0
    then 0
    else if leb (length buf) end
    then length buf
    else cut_before buf end (back_up buf end)

back_up-le : (buf : List ℕ) (i : ℕ) → back_up buf i ≤ i
unfolding back_up
back_up-le buf zero = omega arith
back_up-le buf (suc i) = ground (arith, back_up-le buf i)

cut_before-le : (buf : List ℕ) (end i : ℕ) → i ≤ end → cut_before buf end i ≤ end
unfolding cut_before
cut_before-le buf end zero h = omega arith
cut_before-le buf end (suc i) h = ground arith

-- The cut is never behind the requested end.
pub utf8_safe_end-le : (buf : List ℕ) (end : ℕ) → utf8_safe_end buf end ≤ end
unfolding utf8_safe_end
utf8_safe_end-le buf end =
    ground (arith, cut_before-le buf end (back_up buf end), back_up-le buf end)
