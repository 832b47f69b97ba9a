-- ===== src/Egress/Segments.antt =====
-- The path test of the allowlist, by segments.
use ephemora_cell.Common.{◌≡◌, ◌≢◌, false, [], ◌∷◌, arith}
use ephemora_cell.Common.Bytes.{Text, bytes_key, list_beq_iff}
use ephemora_cell.Common.Texts.{slash, segments, begins, below}
use ephemora_cell.Egress.Path.{ends_in_slash, path_allowed}

-- An allowlist entry with a path, which is not the root and does not end in a slash, admits exactly the
-- paths whose segments begin with its own.
pub path_allowed-begins :
    (request entry : Text)
    → entry ≢ []
    → entry ≢ slash ∷ []
    → ends_in_slash entry ≡ false
    → path_allowed request entry ≡ begins (segments entry) (segments request)
unfolding path_allowed
path_allowed-begins request entry filled deep ended =
    ground (arith, below entry request, list_beq_iff entry [], list_beq_iff entry (slash ∷ []))
