-- ===== src/AppendLog.antt =====
-- `AppendLog` of ephemora_cell/_appendlog.py, on the bytes of its file. The lock makes each call one
-- step; opening the file, and refusing a symlink, are left to the system.
pub mod Records
use ephemora_cell.Common.{
  ℕ, zero, suc, ◌+◌, ◌-◌, String, Bool, true, false, ◌&&◌, ◌||◌, not, Option, none, some, List, [],
  ◌∷◌, ◌++◌, ltb, leb, nat_beq, if◌then◌else◌, Outcome, ok, raised, ◌>>=◌, length, drop,
}
use ephemora_cell.Common.Bytes.{Bytes}
use ephemora_cell.Common.Texts.{newline, lines}

pub data Error : Type 0 where
  line_too_long no_line : Error

abbrev pub has_newline : Bytes → Bool
has_newline [] = false
has_newline (c ∷ s) = nat_beq c newline || has_newline s

-- `line.strip()` is not empty.
abbrev pub is_filled : Bytes → Bool
is_filled [] = false
is_filled (c ∷ s) = not (nat_beq c 32 || leb 9 c && leb c 13) || is_filled s

abbrev pub continued : ℕ → Bytes × List Bytes → Bytes × List Bytes
continued c (s, rest) = (c ∷ s, rest)

-- `chunk.split(b"\n")`: the first piece and the others
unfoldable pub pieces : Bytes → Bytes × List Bytes
pieces [] = ([], [])
pieces (c ∷ s) =
    if nat_beq c newline then ([], (pieces s).0 ∷ (pieces s).1) else continued c (pieces s)

-- The last of the pieces that are not blank.
abbrev pub last_filled : List Bytes → Option Bytes
last_filled [] = none
last_filled (s ∷ rest) = elim (last_filled rest) [
  | some l ↦ some l
  | none ↦ if is_filled s then some s else none
]

abbrev pub found : Option Bytes → Outcome Error (Option Bytes)
found none = raised no_line
found (some l) = ok (some l)

-- `tail_line`
unfoldable pub tail_line : ℕ → Bytes → Outcome Error (Option Bytes)
tail_line window [] = ok none
tail_line window (c ∷ s) =
    let start = length (c ∷ s) - window in
    let chunk = drop start (c ∷ s) in
    if ltb 0 start && not (has_newline chunk)
    then raised line_too_long
    else found (last_filled ((pieces chunk).0 ∷ (pieces chunk).1))

abbrev pub filled_only : List Bytes → List Bytes
filled_only [] = []
filled_only (l ∷ ls) = if is_filled l then l ∷ filled_only ls else filled_only ls

-- `read_lines`
unfoldable pub read_lines : Bytes → List Bytes
read_lines file = filled_only (lines file)

-- `decide_and_append`: the decision on the last line, and the file with what it wrote.
unfoldable pub decide_and_append :
    {A E : Type 0}
    → (Error → E)
    → ℕ
    → (Option Bytes → Outcome E (A × Bytes))
    → Bytes
    → Outcome E (A × Bytes)
decide_and_append {A} {E} failed window decide file = elim (tail_line window file) [
  | raised e ↦ raised (failed e)
  | ok last ↦ elim (decide last) [
    | raised e ↦ raised e
    | ok (decision, payload) ↦ ok (decision, file ++ payload)
  ]
]
