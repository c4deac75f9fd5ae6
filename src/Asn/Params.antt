-- ===== src/Asn/Params.antt =====
-- The parameters of a field in the tag of a Go struct (`parseFieldParameters` of cdr/asn/common.go).
use chf.Base.{ℕ, ◌==◌, true, false, List, [], ◌∷◌, Option, none, some, if◌then◌else◌}
use chf.Base.Decimal.{Text, parse_int}
use chf.Base.Maps.{text_eq}
use chf.Asn.{FieldParameters}

abbrev pub no_parameters : FieldParameters
no_parameters = record {
  optional = false;
  open_type = false;
  tag_number = none;
  explicit_tag = false;
  set = false;
  string_type = 0;
}

-- A text before the first comma, in front of the parts behind it.
abbrev join_first : ℕ → List Text → List Text
join_first c [] = (c ∷ []) ∷ []
join_first c (part ∷ parts) = (c ∷ part) ∷ parts

-- `strings.Split(s, ",")`
unfoldable pub split : Text → List Text
split [] = [] ∷ []
split (c ∷ s) = let rest = split s in if c == b',' then [] ∷ rest else join_first c rest

-- What is behind a prefix.
unfoldable pub behind : Text → Text → Option Text
behind [] s = some s
behind (c ∷ prefix) [] = none
behind (c ∷ prefix) (d ∷ s) = let rest = behind prefix s in if c == d then rest else none

-- A number that cannot be read leaves the tag number as it was.
abbrev with_number : FieldParameters → Option ℕ → FieldParameters
with_number params none = params
with_number params (some n) = record params { tag_number = some n }

abbrev with_tag : FieldParameters → Option Text → FieldParameters
with_tag params none = params
with_tag params (some s) = with_number params (parse_int s)

-- One part; those that nothing reads, and unknown ones, leave the parameters as they are.
unfoldable pub parse_part : FieldParameters → Text → FieldParameters
parse_part params part =
    if text_eq part (b'o' ∷ b'p' ∷ b't' ∷ b'i' ∷ b'o' ∷ b'n' ∷ b'a' ∷ b'l' ∷ [])
    then record params { optional = true }
    else if text_eq part (b'o' ∷ b'p' ∷ b'e' ∷ b'n' ∷ b'T' ∷ b'y' ∷ b'p' ∷ b'e' ∷ [])
    then record params { open_type = true }
    else if text_eq part (b'e' ∷ b'x' ∷ b'p' ∷ b'l' ∷ b'i' ∷ b'c' ∷ b'i' ∷ b't' ∷ [])
    then record params { explicit_tag = true }
    else if text_eq part (b's' ∷ b'e' ∷ b't' ∷ [])
    then record params { set = true }
    else if text_eq part (b'u' ∷ b't' ∷ b'f' ∷ b'8' ∷ [])
    then record params { string_type = 12 }
    else if text_eq part (b'i' ∷ b'a' ∷ b'5' ∷ [])
    then record params { string_type = 22 }
    else if text_eq part (b'g' ∷ b'r' ∷ b'a' ∷ b'p' ∷ b'h' ∷ b'i' ∷ b'c' ∷ [])
    then record params { string_type = 25 }
    else with_tag params (behind (b't' ∷ b'a' ∷ b'g' ∷ b'N' ∷ b'u' ∷ b'm' ∷ b':' ∷ []) part)

abbrev parse_parts : FieldParameters → List Text → FieldParameters
parse_parts params [] = params
parse_parts params (part ∷ parts) = parse_parts (parse_part params part) parts

unfoldable pub parse_field_parameters : Text → FieldParameters
parse_field_parameters s = parse_parts no_parameters (split s)
