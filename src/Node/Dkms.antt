-- ===== src/Node/Dkms.antt =====
-- `_nvidia_dkms_ready` of proxmox_fleet/flows/node.py. Its regular expression is followed part by part:
-- where one part ends, the next one begins with a character that it cannot take, so nothing has to
-- be tried again. The kernel is a stripped text. Letters are compared like those of ASCII.
use proxmox_management.Prelude.{
  ℕ, Text, Bool, false, ◌&&◌, ◌||◌, List, [], ◌∷◌, Option, none, some, if◌then◌else◌, codes,
  is_empty, lstrip, lower, leb, ◌==◌,
}
use proxmox_management.Node.Lines.{packages_from}

-- what is left behind a part, tested
abbrev pub left_over : Option Text → (Text → Bool) → Bool
left_over none test = false
left_over (some s) test = test s

-- behind a word
unfoldable pub behind_word : Text → Text → Option Text
behind_word [] s = some s
behind_word (c ∷ word) [] = none
behind_word (c ∷ word) (d ∷ s) = let rest = behind_word word s in if c == d then rest else none

-- [A-Za-z0-9_.-], in lower case
abbrev pub is_module_char : ℕ → Bool
is_module_char c =
    (leb b'a' c && leb c b'z')
    || ((leb b'0' c && leb c b'9') || ((c == b'_') || ((c == b'.') || (c == b'-'))))

-- behind [A-Za-z0-9_.-]*/
unfoldable pub behind_chars : Text → Option Text
behind_chars [] = none
behind_chars (c ∷ s) =
    let rest = behind_chars s in
    if c == b'/' then some s else if is_module_char c then rest else none

-- behind [A-Za-z0-9_.-]+/
abbrev pub behind_some_chars : Text → Option Text
behind_some_chars [] = none
behind_some_chars (c ∷ s) = if is_module_char c then behind_chars s else none

-- behind (?:[-_][A-Za-z0-9_.-]+)?/
abbrev pub behind_module : Text → Option Text
behind_module [] = none
behind_module (c ∷ s) =
    if c == b'/' then some s else if (c == b'-') || (c == b'_') then behind_some_chars s else none

-- behind the next `stop`
unfoldable pub behind_next : ℕ → Text → Option Text
behind_next stop [] = none
behind_next stop (c ∷ s) = let rest = behind_next stop s in if c == stop then some s else rest

-- behind the next `stop`, which does not stand at the beginning
abbrev pub behind_other : ℕ → Text → Option Text
behind_other stop [] = none
behind_other stop (c ∷ s) = if c == stop then none else behind_next stop s

-- \s*installed\s*$
abbrev pub is_installed : Text → Bool
is_installed s =
    left_over (behind_word (codes "installed") (lstrip s)) (λ rest. is_empty (lstrip rest))

-- (?:,\s*[^:]+)?:\s*installed\s*$
abbrev pub is_arch_installed : Text → Bool
is_arch_installed [] = false
is_arch_installed (c ∷ s) =
    if c == b':'
    then is_installed s
    else if c == b','
    then left_over (behind_other b':' s) is_installed
    else false

-- pattern.match(line)
unfoldable pub is_ready_line : Text → Text → Bool
unfolding lstrip lower behind_word behind_chars behind_next
is_ready_line kernel line = left_over (behind_word (codes "nvidia") (lstrip (lower line))) (λ name.
    left_over (behind_module name) (λ release.
      left_over (behind_other b',' release)
        (λ place. left_over (behind_word (lower kernel) (lstrip place)) is_arch_installed)))

unfoldable pub any_ready : Text → List Text → Bool
any_ready kernel [] = false
any_ready kernel (line ∷ lines) = is_ready_line kernel line || any_ready kernel lines

-- The pattern takes white space around a line, and no empty line.
unfoldable pub nvidia_dkms_ready : Text → Text → Bool
unfolding packages_from any_ready
nvidia_dkms_ready status kernel = any_ready kernel (packages_from [] status)
