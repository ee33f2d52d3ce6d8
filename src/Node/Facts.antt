-- ===== src/Node/Facts.antt =====
-- The readers of one diagnostic fact in proxmox_fleet/flows/node.py. A ValueError is the text of its
-- message. An integer is a JSON number, a flag or an ASCII text.
use proxmox_management.Prelude.{
  ℕ, zero, suc, ◌-◌, ◌*◌, ◌+◌, Text, Bool, true, false, ◌&&◌, ◌||◌, [], ◌∷◌, ◌++◌, Option, none,
  some, if◌then◌else◌, codes, decimal, is_empty, text_eq, text_in, strip, lower, leb, ◌==◌,
}
use proxmox_management.Sources.Provenance.{
  Json, Value, text, number, negative, flag, null, foreign, get, text_of,
}

pub data Fact (A : Type 0) : Type 0 where
  known : A → Fact A
  refused : Text → Fact A

-- an integer, as far as it is compared
pub data Integer : Type 0 where
  whole : ℕ → Integer
  below_zero : Integer

unfoldable pub has_key : Json → Text → Bool
has_key [] key = false
has_key ((name, value) ∷ facts) key = text_eq name key || has_key facts key

abbrev pub missing_fact : Text → Text
missing_fact key = codes "missing diagnostic fact: " ++ key

abbrev pub invalid_fact : Text → Text
invalid_fact key = codes "invalid diagnostic fact: " ++ key

-- int of the digits of an ASCII text
unfoldable pub digits_from : ℕ → Text → Option ℕ
digits_from n [] = some n
digits_from n (c ∷ s) =
    let rest = digits_from (n * 10 + (c - b'0')) s in
    if leb b'0' c && leb c b'9' then rest else none

abbrev pub whole_or : Text → Option ℕ → Fact Integer
whole_or why none = refused why
whole_or why (some n) = known (whole n)

abbrev pub below_or : Text → Option ℕ → Fact Integer
below_or why none = refused why
below_or why (some zero) = known (whole 0)
below_or why (some (suc n)) = known below_zero

-- int(text), without underscores
unfoldable pub int_of_text : Text → Text → Fact Integer
int_of_text why [] = refused why
int_of_text why (c ∷ s) =
    if c == b'-'
    then (if is_empty s then refused why else below_or why (digits_from 0 s))
    else if c == b'+'
    then (if is_empty s then refused why else whole_or why (digits_from 0 s))
    else whole_or why (digits_from 0 (c ∷ s))

unfoldable pub int_of : Text → Value → Fact Integer
int_of why (number n) = known (whole n)
int_of why (negative n) = known below_zero
int_of why (flag true) = known (whole 1)
int_of why (flag false) = known (whole 0)
int_of why (text t) = int_of_text why (strip t)
int_of why null = refused why
int_of why (foreign t) = refused why

unfoldable pub fact_int : Json → Text → Fact Integer
fact_int facts key =
    if has_key facts key
    then int_of (invalid_fact key) (get facts key)
    else refused (missing_fact key)

-- str(value)
abbrev pub str_of : Value → Text
str_of (text t) = t
str_of (number n) = decimal n
str_of (negative n) = codes "-" ++ decimal n
str_of (flag true) = codes "True"
str_of (flag false) = codes "False"
str_of null = codes "None"
str_of (foreign t) = t

unfoldable pub bool_of : Text → Value → Fact Bool
bool_of why (flag b) = known b
bool_of why value =
    let word = lower (strip (str_of value)) in
    if text_in word (codes "true" ∷ codes "1" ∷ codes "yes" ∷ [])
    then known true
    else if text_in word (codes "false" ∷ codes "0" ∷ codes "no" ∷ [])
    then known false
    else refused why

unfoldable pub fact_bool : Json → Text → Fact Bool
fact_bool facts key =
    if has_key facts key
    then bool_of (invalid_fact key) (get facts key)
    else refused (missing_fact key)

unfoldable pub fact_text : Json → Text → Fact Text
fact_text facts key =
    if has_key facts key
    then known (strip (text_of (get facts key)))
    else refused (missing_fact key)
