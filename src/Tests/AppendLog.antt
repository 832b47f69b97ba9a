-- ===== src/Tests/AppendLog.antt =====
-- The append-only log at concrete inputs.
use ephemora_cell.Common.{
  ℕ, ◌≡◌, refl, List, [], ◌∷◌, ◌++◌, Option, none, some, map, arith, Outcome, ok, raised, All,
}
use ephemora_cell.Common.Bytes.{Bytes}
use ephemora_cell.Common.Decimal.{codes}
use ephemora_cell.AppendLog.{Error, tail_line, pieces, read_lines, decide_and_append}
use ephemora_cell.AppendLog.Records.{
  IsRecord, ended, written, last_of, log-records, decide_and_append-written,
}

abbrev two : List Bytes
two = codes "{}" ∷ codes "{\"a\": 1}" ∷ []

two-IsRecord : All (IsRecord 12) two
two-IsRecord = (
  record { one_line = refl; filled = refl; fits = omega arith },
  (record { one_line = refl; filled = refl; fits = omega arith }, tt),
)

log-records_example :
    (read_lines (written two) ≡ map ended two) × (tail_line 12 (written two) ≡ ok (last_of two))
log-records_example = log-records 12 two two-IsRecord

abbrev decide : Option Bytes → Outcome Error (ℕ × Bytes)
decide none = ok (0, ended (codes "x"))
decide (some l) = ok (1, ended l)

decide_and_append-written_example :
    ((a : ℕ) (r : Bytes)
      → decide (last_of two) ≡ ok (a, ended r)
      → decide_and_append (λ (e : Error). e) 12 decide (written two)
        ≡ ok (a, written (two ++ r ∷ [])))
    × ((e : Error)
        → decide (last_of two) ≡ raised e
        → decide_and_append (λ (e : Error). e) 12 decide (written two) ≡ raised e)
decide_and_append-written_example =
    decide_and_append-written (λ (e : Error). e) 12 decide two two-IsRecord

-- A line that is longer than the window is not refused when it ends in a newline: its end is returned.
long_line_cut : tail_line 4 (ended (codes "abcdefgh")) ≡ ok (some (codes "fgh"))
unfolding tail_line pieces
long_line_cut = refl
