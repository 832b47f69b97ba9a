-- ===== src/Tests/GrantLedger.antt =====
-- The grant book at concrete inputs: a grant with two calls, asked for three and then revoked.
use ephemora_cell.Common.{
  ℕ, ◌≤◌, ◌≡◌, ◌≢◌, ◌↔◌, refl, String, true, Option, none, some, List, [], ◌∷◌, arith, ok,
}
use ephemora_cell.Common.Int.{pos}
use ephemora_cell.Common.Json.{Json, equal_int, get}
use ephemora_cell.Common.Moment.{Moment, parse_bound}
use ephemora_cell.GrantLedger.{
  Raw, GrantState, Grant, Decision, record_call, revoke, replay, verify, decide, gate, fold_line,
  step, call_line, inspect, line_fault, call_count,
}
use ephemora_cell.GrantLedger.Writers.{after, record_call-replay}
use ephemora_cell.GrantLedger.Gates.{Open, record_call_allows_iff}
use ephemora_cell.GrantLedger.History.{Op, call, history, approved, perform, history-replay}
use ephemora_cell.GrantLedger.Caps.{approved-le-cap, approved-revoke}
use ephemora_cell.GrantLedger.Verify.{verify-replay}
use ephemora_cell.GrantLedger.Honest.{verify-history}
use ephemora_cell.GrantLedger.Evidence.{call_position, call_booked, calls_in, fields_of}
use ephemora_cell.Tests.Iso.{unary_iso}

abbrev pub grant : Grant
grant = record {
  grant_id = "g";
  tool = "fetch";
  not_before = Json.null;
  not_after = Json.str "iiii";
  max_calls = some (pos 2);
}

abbrev line : ℕ → Raw
line n = call_line unary_iso grant 1500 n

abbrev ops : List Op
ops = call grant 1500 ∷ call grant 1500 ∷ call grant 1500 ∷ call grant 9000 ∷ []

-- The third call meets the cap, and the fourth the end of the window.
history_counts : approved unary_iso "g" ops [] ≡ 2
unfolding approved perform record_call replay parse_bound decide gate fold_line step
history_counts = refl

-- The second of two calls, after the first was dropped.
verify_sees_drop : verify unary_iso (line 2 ∷ []) ≡ line_fault 1 call_count ∷ []
unfolding verify inspect fold_line
verify_sees_drop = refl

abbrev approval : Decision
approval = record { allowed = true; grant_id = "g"; calls = 1; limit = none }

first_call : record_call unary_iso grant 1500 [] ≡ ok (approval, line 1 ∷ [])
unfolding record_call replay parse_bound decide gate
first_call = refl

record_call-replay_example :
    ((state : GrantState) × (replay unary_iso "g" [] ≡ ok state)
      × (replay unary_iso "g" (line 1 ∷ []) ≡ ok (after approval state))
      × (1 ≡ (after approval state).calls))
    × ((other : String)
        → other ≢ "g"
        → replay unary_iso other (line 1 ∷ []) ≡ replay unary_iso other [])
record_call-replay_example =
    record_call-replay unary_iso grant 1500 [] approval (line 1 ∷ []) first_call

record_call_allows_iff_example :
    (lower upper : Option Moment) × (state : GrantState) × (parse_bound unary_iso Json.null
      ≡ ok lower)
    × (parse_bound unary_iso (Json.str "iiii") ≡ ok upper)
    × (replay unary_iso "g" [] ≡ ok state)
    × ((approval.allowed ≡ true) ↔ Open grant 1500 lower upper state)
record_call_allows_iff_example =
    record_call_allows_iff unary_iso grant 1500 [] approval (line 1 ∷ []) first_call

history-replay_example :
    (state : GrantState) × (replay unary_iso "g" (history unary_iso ops []) ≡ ok state)
    × (state.calls ≡ approved unary_iso "g" ops [])
history-replay_example = history-replay unary_iso "g" ops

approved-le-cap_example : approved unary_iso "g" ops [] ≤ 2
approved-le-cap_example = approved-le-cap unary_iso "g" 2 ops (
  λ r e q. ground (arith, e),
  (λ r e q. ground (arith, e), (λ r e q. ground (arith, e), (λ r e q. ground (arith, e), tt))),
)

revoked_book :
    (book : List Raw) × (revoke unary_iso "g" "lost" 2000 (history unary_iso ops []) ≡ ok book)
unfolding revoke
revoked_book = (_, refl)

approved-revoke_example : approved unary_iso "g" ops revoked_book.0 ≡ 0
approved-revoke_example =
    approved-revoke unary_iso "g" "lost" 2000 ops ops revoked_book.0 revoked_book.1

verify-replay_example :
    (state : GrantState) × (replay unary_iso "g" (line 1 ∷ line 2 ∷ []) ≡ ok state)
unfolding verify inspect fold_line
verify-replay_example = verify-replay unary_iso (line 1 ∷ line 2 ∷ []) "g" refl

verify-history_example : verify unary_iso (history unary_iso ops []) ≡ []
verify-history_example = verify-history unary_iso ops

abbrev none_object : Raw
none_object = some Json.null

abbrev two : GrantState
two = record { grant_id = "g"; calls = 2; revoked_at = none }

call_booked_example : equal_int (get "calls_after" (fields_of (line 2))) ≡ some (pos 2)
unfolding replay step fold_line calls_in
call_booked_example = call_booked unary_iso "g" (line 1 ∷ []) [] (line 2) two refl refl

call_position_example : calls_in "g" (line 1 ∷ []) ≡ calls_in "g" (none_object ∷ line 1 ∷ [])
unfolding replay step fold_line
call_position_example =
    call_position unary_iso "g" (line 1 ∷ []) [] (none_object ∷ line 1 ∷ []) [] (line 2) two two
      refl refl refl
