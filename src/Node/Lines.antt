-- ===== src/Node/Lines.antt =====
-- The lines of a command's output, as proxmox_fleet/flows/node.py reads them.
use proxmox_management.Prelude.{
  ℕ, Text, Bool, ◌&&◌, ◌||◌, List, [], ◌∷◌, ◌++◌, if◌then◌else◌, is_empty, strip, leb, ◌==◌,
}

-- str.splitlines
abbrev pub is_break : ℕ → Bool
is_break c =
    (leb 10 c && leb c 13)
    || ((leb 28 c && leb c 30) || ((c == 0x85) || ((c == 0x2028) || (c == 0x2029))))

-- the lines, stripped and without the empty ones
unfoldable pub packages_from : Text → Text → List Text
packages_from line [] = if is_empty (strip line) then [] else strip line ∷ []
packages_from line (c ∷ s) =
    let here = packages_from [] s in
    let longer = packages_from (line ++ c ∷ []) s in
    if is_break c then (if is_empty (strip line) then here else strip line ∷ here) else longer
