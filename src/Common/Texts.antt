-- ===== src/Common/Texts.antt =====
-- Prefixes of texts, the segments of paths and the lines of bytes.
use Prim.Native.Nat.{ℕ}
use mathlib.Core.Path.{◌≡◌, refl}
use mathlib.Core.Bool.{Bool, true, false, ◌&&◌, ◌||◌}
use mathlib.Core.List.{List, [], ◌∷◌, ◌++◌}
use native.Mathlib.Omega.{arith}
use ephemora_cell.Common.Tests.{nat_beq, nat_beq_iff, if◌then◌else◌, ◌==◌}
use ephemora_cell.Common.Bytes.{Bytes, Text, bytes_key}

-- `s.startswith(p)`
unfoldable pub starts_with : Text → Text → Bool
starts_with [] s = true
starts_with (c ∷ p) [] = false
starts_with (c ∷ p) (d ∷ s) = nat_beq c d && starts_with p s

abbrev pub slash : ℕ
slash = b'/'

abbrev pub extend_first : ℕ → Text × List Text → Text × List Text
extend_first c (s, rest) = (c ∷ s, rest)

-- `path.split("/")`: the first segment and the others
unfoldable pub split : Text → Text × List Text
split [] = ([], [])
split (c ∷ s) =
    if nat_beq c slash then ([], (split s).0 ∷ (split s).1) else extend_first c (split s)

-- The segments of a path, between its slashes.
abbrev pub segments : Text → List Text
segments path = (split path).0 ∷ (split path).1

-- Whether the segments of the one list begin the other.
abbrev pub begins : List Text → List Text → Bool
begins [] ys = true
begins (x ∷ xs) [] = false
begins (x ∷ xs) (y ∷ ys) = x == y && begins xs ys

-- A path is an entry or lies below it when the segments of the entry begin its own.
pub below :
    (entry request : Text)
    → (request == entry || starts_with (entry ++ slash ∷ []) request)
      ≡ begins (segments entry) (segments request)
unfolding split starts_with
below [] [] = refl
below [] (d ∷ s) = ground (arith, nat_beq_iff d slash)
below (c ∷ p) [] = ground (arith, nat_beq_iff c slash)
below (c ∷ p) (d ∷ s) =
    ground
      (arith, below p s, nat_beq_iff c d, nat_beq_iff c slash, nat_beq_iff d slash, nat_beq_iff d c)

abbrev pub newline : ℕ
newline = 10

-- A line that continues the first of the lines.
abbrev pub join : Bytes → List Bytes → List Bytes
join [] ls = ls
join (c ∷ s) [] = (c ∷ s) ∷ []
join (c ∷ s) (l ∷ ls) = (c ∷ s ++ l) ∷ ls

-- The input cut after each newline; what follows the last one, if anything, is a line too.
unfoldable pub lines : Bytes → List Bytes
lines [] = []
lines (c ∷ s) = if nat_beq c newline then (c ∷ []) ∷ lines s else join (c ∷ []) (lines s)
