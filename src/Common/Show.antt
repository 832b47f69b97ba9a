-- ===== src/Common/Show.antt =====
-- `str(n)` for an integer.
use Prim.Native.Nat.{ℕ, zero, suc, ◌/◌, ◌%◌}
use Prim.Native.Char.{Char}
use Prim.Native.String.{String, [], ◌∷◌}
use mathlib.Core.Path.{◌≡◌, refl}
use ephemora_cell.Common.Tests.{ltb, nat_beq, if◌then◌else◌}
use ephemora_cell.Common.Int.{ℤ, pos, negsuc}

abbrev pub digit : ℕ → Char
digit n =
    if nat_beq n 0
    then "0"
    else if nat_beq n 1
    then "1"
    else if nat_beq n 2
    then "2"
    else if nat_beq n 3
    then "3"
    else if nat_beq n 4
    then "4"
    else if nat_beq n 5
    then "5"
    else if nat_beq n 6
    then "6"
    else if nat_beq n 7
    then "7"
    else if nat_beq n 8
    then "8"
    else "9"

-- A number has no more digits than its successor.
unfoldable pub show_from : ℕ → ℕ → String → String
show_from zero n acc = acc
show_from (suc fuel) n acc =
    let rest = show_from fuel (n / 10) (digit (n % 10) ∷ acc) in
    if ltb n 10 then digit n ∷ acc else rest

unfoldable pub show : ℤ → String
unfolding show_from
show (pos n) = show_from (suc n) n []
show (negsuc n) = "-" ∷ show_from (suc (suc n)) (suc n) []

show_negative : show (negsuc 204) ≡ "-205"
unfolding show
show_negative = refl
