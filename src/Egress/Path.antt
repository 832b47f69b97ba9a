-- ===== src/Egress/Path.antt =====
-- `_has_dot_segment` and `_path_allowed` of ephemora_cell/egress_sidecar.py, over the segments of a
-- path.
use ephemora_cell.Common.{Bool, false, ◌||◌, List, [], ◌∷◌, ◌++◌, nat_beq, if◌then◌else◌, ◌==◌}
use ephemora_cell.Common.Texts.{slash, split, starts_with}
use ephemora_cell.Common.Bytes.{Text, bytes_key}

abbrev pub is_dots : Text → Bool
is_dots s = s == b'.' ∷ [] || s == b'.' ∷ b'.' ∷ []

abbrev any_dots : List Text → Bool
any_dots [] = false
any_dots (s ∷ rest) = is_dots s || any_dots rest

-- One candidate of `_has_dot_segment`
unfoldable pub has_dot_segment_in : Text → Bool
has_dot_segment_in path = is_dots (split path).0 || any_dots (split path).1

abbrev pub ends_in_slash : Text → Bool
ends_in_slash [] = false
ends_in_slash (c ∷ []) = nat_beq c slash
ends_in_slash (c ∷ d ∷ s) = ends_in_slash (d ∷ s)

abbrev pub boundary : Text → Text
boundary entry = if ends_in_slash entry then entry else entry ++ slash ∷ []

-- `_path_allowed`
unfoldable pub path_allowed : Text → Text → Bool
path_allowed request entry =
    entry == [] || entry == slash ∷ [] || request == entry || starts_with (boundary entry) request
