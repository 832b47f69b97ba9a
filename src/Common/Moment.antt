-- ===== src/Common/Moment.antt =====
-- Moments, and the ISO-8601 bounds that `_parse_bound` of ephemora_cell/grant_ledger.py reads.
use Prim.Native.Nat.{ℕ, ◌*◌, ◌/◌}
use Prim.Native.Char.{code}
use Prim.Native.String.{String, [], ◌∷◌}
use mathlib.Core.Path.{◌≡◌}
use mathlib.Core.Bool.{false}
use mathlib.Core.Option.{Option, none, some}
use ephemora_cell.Common.Tests.{nat_beq, str_is_empty, if◌then◌else◌}
use ephemora_cell.Common.Json.{Json}
use ephemora_cell.Common.Raising.{Outcome, ok, raised}

-- An aware `datetime`, as its microseconds since a fixed moment.
abbrev pub Moment : Type 0
Moment = ℕ

-- What `datetime.fromisoformat` makes of a text it accepts.
pub data Parsed : Type 0 where
  naive : Parsed
  aware : Moment → Parsed

-- `_parse_bound`: a final `Z` becomes `+00:00`.
unfoldable pub replace_z : String → String
replace_z [] = []
replace_z (c ∷ []) = if nat_beq (code c) b'Z' then "+00:00" else c ∷ []
replace_z (c ∷ d ∷ s) = c ∷ replace_z (d ∷ s)

-- `datetime.fromisoformat`, whose accepted texts differ between the interpreters that the program
-- supports, and `isoformat(timespec="milliseconds")` of a UTC moment. A stamp is read back as the
-- moment without its microseconds, and ends in `+00:00`, not in `Z`.
pub record Iso : Type 0 where
  pub from_iso : String → Option Parsed
  pub stamp : Moment → String
  pub from_iso-stamp : (m : Moment) → from_iso (stamp m) ≡ some (aware (m / 1000 * 1000))
  pub replace_z-stamp : (m : Moment) → replace_z (stamp m) ≡ stamp m
  pub stamp_named : (m : Moment) → str_is_empty (stamp m) ≡ false

-- The `ValueError`s of `_parse_bound`.
pub data BadBound : Type 0 where
  not_text unparsed no_offset : BadBound

unfoldable pub read_moment : Option Parsed → Outcome BadBound (Option Moment)
read_moment none = raised unparsed
read_moment (some naive) = raised no_offset
read_moment (some (aware m)) = ok (some m)

module _ (iso : Iso) where
  unfoldable pub parse_bound : Json → Outcome BadBound (Option Moment)
  unfolding read_moment replace_z
  parse_bound Json.null = ok none
  parse_bound (Json.str s) =
      if str_is_empty s then raised not_text else read_moment (iso.from_iso (replace_z s))
  parse_bound _ = raised not_text

  -- What a writer stamped is read back, cut to milliseconds.
  pub parse_bound-stamp :
      (m : Moment) → parse_bound (Json.str (iso.stamp m)) ≡ ok (some (m / 1000 * 1000))
  unfolding parse_bound
  parse_bound-stamp m = rw (iso.stamp_named m, iso.replace_z-stamp m, iso.from_iso-stamp m)
