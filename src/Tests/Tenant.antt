-- ===== src/Tests/Tenant.antt =====
-- The tenant book at concrete inputs: a tenant with a budget of one run asks for two and settles one.
use ephemora_cell.Common.{
  ◌≡◌, ◌≢◌, ◌↔◌, refl, String, true, false, none, some, List, [], ◌∷◌, arith, ok, Outcome, raised,
  text_key,
}
use ephemora_cell.Common.Decimal.{int_of}
use ephemora_cell.Common.Int.{pos}
use ephemora_cell.Common.Dict.{contains}
use ephemora_cell.Common.Json.{Json, Fields}
use ephemora_cell.Common.Moment.{Moment}
use ephemora_cell.Tenant.Values.{
  Charge, Budget, Error, plus, make_charge, from_line, tenant_id, violation, unknown_admission,
}
use ephemora_cell.Tenant.Values.Bounds.{IsSafe}
use ephemora_cell.Tenant.Book.{
  Raw, Account, replay, entries, entry, apply_all, apply, fold, fold_admit, fold_settle,
  fold_expire, totals, agree, active_open, reserved, sealed, admit_id_of, parse_stamp,
}
use ephemora_cell.Tenant.{
  Usage, Admission, usage_of, projected, prospective, conclude, decide, admit, settle, expire,
}
use ephemora_cell.Tenant.Lines.{settled}
use ephemora_cell.Tenant.Admissions.{FitsIn}
use ephemora_cell.Tenant.Admitted.{admit_allows_iff, admit-replay, decided}
use ephemora_cell.Tenant.Settlements.{settle-replay}
use ephemora_cell.Tenant.History.{
  Op, admission, settlement, expiry, perform, history, runs_settled, tenant_history-replay,
}
use ephemora_cell.Tests.Iso.{unary_iso}

abbrev other_text : Json → String
other_text v = ""

abbrev digest : Budget → String
digest b = "budget"

abbrev one_run : Budget
one_run = record {
  max_total_fuel = some 100;
  max_total_output_bytes = none;
  max_total_wall_ms = none;
  max_runs = some 1;
}

abbrev ten : Charge
ten = record { fuel = 10; output_bytes = 2; wall_ms = 3 }

ten-IsSafe : IsSafe ten
ten-IsSafe = record { fuel = omega arith; output_bytes = omega arith; wall_ms = omega arith }

abbrev ask : String → Moment → List Raw → Outcome Error (Admission × List Raw)
ask id now book = admit unary_iso other_text digest "acme" ten (some one_run) (pos 2000) now id book

abbrev book_of : {A : Type 0} → Outcome Error (A × List Raw) → List Raw
book_of (ok r) = r.1
book_of (raised e) = []

abbrev first_book : List Raw
first_book = book_of (ask "a1" 1000 [])

first_ask : (d : Admission) × (ask "a1" 1000 [] ≡ ok (d, first_book)) × (d.allowed ≡ true)
unfolding admit tenant_id replay entries entry apply_all apply fold fold_admit fold_settle
    fold_expire from_line admit_id_of parse_stamp totals agree int_of decide usage_of active_open
    reserved projected prospective plus make_charge violation conclude sealed settle expire
first_ask = (_, refl, refl)

-- The second run would be one over the cap while the first is open.
second_ask :
    (d : Admission) × (book : List Raw) × (ask "a2" 1500 first_book ≡ ok (d, book))
    × (d.allowed ≡ false)
unfolding admit tenant_id replay entries entry apply_all apply fold fold_admit fold_settle
    fold_expire from_line admit_id_of parse_stamp totals agree int_of decide usage_of active_open
    reserved projected prospective plus make_charge violation conclude sealed settle expire
second_ask = (_, _, refl, refl)

first_settlement :
    (line : Fields) × (book : List Raw) × (settle unary_iso other_text digest "acme" "a1" ten true
        false 1500 first_book
      ≡ ok (line, book))
unfolding admit tenant_id replay entries entry apply_all apply fold fold_admit fold_settle
    fold_expire from_line admit_id_of parse_stamp totals agree int_of decide usage_of active_open
    reserved projected prospective plus make_charge violation conclude sealed settle expire
first_settlement = (_, _, refl)

first_expiry :
    (line : Fields) × (book : List Raw) × (expire unary_iso other_text digest "acme" "a1" 1500
        first_book
      ≡ ok (line, book))
unfolding admit tenant_id replay entries entry apply_all apply fold fold_admit fold_settle
    fold_expire from_line admit_id_of parse_stamp totals agree int_of decide usage_of active_open
    reserved projected prospective plus make_charge violation conclude sealed settle expire
first_expiry = (_, _, refl)

-- A second settlement finds the admission closed.
settled_once :
    settle unary_iso other_text digest "acme" "a1" ten true false 1600
      (book_of (settle unary_iso other_text digest "acme" "a1" ten true false 1500 first_book))
    ≡ raised unknown_admission
unfolding admit tenant_id replay entries entry apply_all apply fold fold_admit fold_settle
    fold_expire from_line admit_id_of parse_stamp totals agree int_of decide usage_of active_open
    reserved projected prospective plus make_charge violation conclude sealed settle expire
settled_once = refl

admit_allows_iff_example :
    (a : Account) × (u : Usage) × (replay unary_iso other_text "acme" first_book ≡ ok a)
    × (usage_of 1500 a ≡ ok u)
    × ((second_ask.0.allowed ≡ true) ↔ FitsIn u ten (some one_run))
admit_allows_iff_example =
    admit_allows_iff unary_iso other_text digest "acme" ten (some one_run) (pos 2000) 1500 "a2"
      first_book second_ask.0 second_ask.1 second_ask.2

admit-replay_example :
    ((a : Account) × (replay unary_iso other_text "acme" first_book ≡ ok a)
      × (replay unary_iso other_text "acme" second_ask.1
          ≡ ok (decided unary_iso other_text digest "a2" ten (pos 2000) 1500 second_ask.0 a)))
    × ((other : String)
        → other ≢ "acme"
        → replay unary_iso other_text other second_ask.1
          ≡ replay unary_iso other_text other first_book)
admit-replay_example =
    admit-replay unary_iso other_text digest "acme" ten (some one_run) (pos 2000) 1500 "a2"
      first_book second_ask.0 second_ask.1 ten-IsSafe second_ask.2

settle-replay_example :
    ((a : Account) × (charged : Charge) × (replay unary_iso other_text "acme" first_book ≡ ok a)
      × (contains "a1" a.reservations ≡ true)
      × (plus a.charged ten ≡ ok charged)
      × (replay unary_iso other_text "acme" first_settlement.1
          ≡ ok (settled a "a1" charged true false)))
    × ((other : String)
        → other ≢ "acme"
        → replay unary_iso other_text other first_settlement.1
          ≡ replay unary_iso other_text other first_book)
settle-replay_example =
    settle-replay unary_iso other_text digest "acme" "a1" ten true false 1500 first_book
      first_settlement.0 first_settlement.1 ten-IsSafe first_settlement.2

abbrev ops : List Op
ops =
    admission "acme" ten ten-IsSafe (some one_run) (pos 2000) 1000 "a1"
    ∷ settlement "acme" "a1" ten ten-IsSafe false false 1500
    ∷ expiry "acme" "a1" 1600
    ∷ []

ops_run : runs_settled unary_iso other_text digest "acme" ops [] ≡ 1
unfolding admit tenant_id replay entries entry apply_all apply fold fold_admit fold_settle
    fold_expire from_line admit_id_of parse_stamp totals agree int_of decide usage_of active_open
    reserved projected prospective plus make_charge violation conclude sealed settle expire
    runs_settled perform
ops_run = refl

tenant_history-replay_example :
    (a : Account) × (replay unary_iso other_text "acme" (history unary_iso other_text digest ops [])
      ≡ ok a)
    × (a.runs ≡ runs_settled unary_iso other_text digest "acme" ops [])
tenant_history-replay_example = tenant_history-replay unary_iso other_text digest "acme" ops
