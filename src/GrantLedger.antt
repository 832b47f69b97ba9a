-- ===== src/GrantLedger.antt =====
-- The per-grant book of ephemora_cell/grant_ledger.py: its lines, the fold that replays them, and the
-- operations that append to it. A book is the list of its lines in file order; `none` is a line
-- that is not JSON. `Iso` stands for `datetime`'s parser and printer.
pub mod Book
pub mod Replay
pub mod Writers
pub mod Gates
pub mod History
pub mod Caps
pub mod Verify
pub mod Honest
pub mod Evidence
pub use Book.{
  Raw, GrantState, Fault, call_count, bad_moment, refusal_count, unknown_kind, Tamper, not_json,
  at_line, fresh,
}
unfoldable pub use Book.{fold_line, step, replay_from, replay}
use ephemora_cell.Common.{
  ℕ, suc, ◌+◌, String, Bool, true, false, Option, none, some, List, [], ◌∷◌, ◌++◌, ltb, leb,
  if◌then◌else◌, Outcome, ok, raised, ◌>>=◌, str_is_empty, text_key,
}
use ephemora_cell.Common.Int.{ℤ, pos, ltb_ℤ}
use ephemora_cell.Common.Dict.{Dict, lookup, insert}
use ephemora_cell.Common.Json.{Json, Fields, end, field, get, text?, object?}
use Prim.Native.String.{◌++◌ as text_append}
use ephemora_cell.Common.Show.{show}
use ephemora_cell.Common.Moment.{Moment, Iso, BadBound, parse_bound}

-- `EgressGrant`, the fields that the book reads.
pub record Grant : Type 0 where
  pub grant_id : String
  pub tool : String
  pub not_before : Json
  pub not_after : Json
  pub max_calls : Option ℤ

-- `limit` of a decision
pub data Limit : Type 0 where
  revoked not_before expired max_calls : Limit

pub record Decision : Type 0 where
  pub allowed : Bool
  pub grant_id : String
  pub calls : ℕ
  pub limit : Option Limit

-- What a call on the book raises.
pub data Error : Type 0 where
  malformed_bound : BadBound → Error
  tampered : Tamper → Error
  empty_id : Error

abbrev pub limit_text : Limit → String
limit_text revoked = "revoked"
limit_text not_before = "not_before"
limit_text expired = "expired"
limit_text max_calls = "max_calls"

-- `not_before is not None and clock < not_before`
abbrev pub before : Moment → Option Moment → Bool
before now none = false
before now (some bound) = ltb now bound

-- `not_after is not None and clock >= not_after`
abbrev pub reached : Moment → Option Moment → Bool
reached now none = false
reached now (some bound) = leb bound now

-- `grant.max_calls is not None and prospective > grant.max_calls`
abbrev pub over : ℕ → Option ℤ → Bool
over prospective none = false
over prospective (some cap) = ltb_ℤ cap (pos prospective)

-- The gate that refuses, in the order of `record_call`; `none` is the approval.
unfoldable pub gate : Grant → Moment → Option Moment → Option Moment → GrantState → Option Limit
gate grant now lower upper state = elim state.revoked_at [
  | some at ↦ some revoked
  | none ↦
      if before now lower
      then some not_before
      else if reached now upper
      then some expired
      else if over (suc state.calls) grant.max_calls
      then some max_calls
      else none
]

-- What `verify` reports, with the number of the line.
pub data Problem : Type 0 where
  line_not_json line_not_object line_without_grant : ℕ → Problem
  line_fault : ℕ → Fault → Problem

-- `seen.get(grant_id, GrantState(grant_id, 0, None))`
abbrev pub state_of : String → Dict String GrantState → GrantState
state_of grant_id seen = elim (lookup grant_id seen) [ none ↦ fresh grant_id | some state ↦ state ]

abbrev pub reported : ℕ → Option Fault → List Problem
reported number none = []
reported number (some fault) = line_fault number fault ∷ []

module _ (iso : Iso) where
  -- `_line(kind="call", …)`
  abbrev pub call_line : Grant → Moment → ℕ → Raw
  call_line grant now calls_after = some (
      Json.obj (
        field "grant_entry_version" (Json.str "egress-grant-entry.v1") (
          field "kind" (Json.str "call") (
            field "grant_id" (Json.str grant.grant_id) (
              field "tool" (Json.str grant.tool) (
                field "at" (Json.str (iso.stamp now))
                  (field "calls_after" (Json.num (pos calls_after)) end)))))))

  -- `_line(kind="refuse", …)`; `booked` is the `calls_after` of a capped refusal.
  abbrev pub refuse_line : Grant → Moment → String → Limit → Fields → Raw
  refuse_line grant now reason limit booked = some (
      Json.obj (
        field "grant_entry_version" (Json.str "egress-grant-entry.v1") (
          field "kind" (Json.str "refuse") (
            field "grant_id" (Json.str grant.grant_id) (
              field "tool" (Json.str grant.tool) (
                field "at" (Json.str (iso.stamp now)) (
                  field "reason" (Json.str reason)
                    (field "limit" (Json.str (limit_text limit)) booked))))))))

  -- `_line(kind="revoke", …)`
  abbrev pub revoke_line : String → String → Moment → Raw
  revoke_line grant_id reason now = some (
      Json.obj (
        field "grant_entry_version" (Json.str "egress-grant-entry.v1") (
          field "kind" (Json.str "revoke") (
            field "grant_id" (Json.str grant_id)
              (field "at" (Json.str (iso.stamp now)) (field "reason" (Json.str reason) end))))))

  abbrev stamp_of : Option Moment → String
  stamp_of none = "None"
  stamp_of (some m) = iso.stamp m

  abbrev show_cap : Option ℤ → String
  show_cap none = "None"
  show_cap (some n) = show n

  -- The prose of a refusal.
  abbrev reason : Grant → Option Moment → Option Moment → GrantState → Limit → String
  reason grant lower upper state revoked =
      text_append "grant revoked at " (stamp_of state.revoked_at)
  reason grant lower upper state not_before = text_append "grant not valid before " (stamp_of lower)
  reason grant lower upper state expired = text_append "grant expired at " (stamp_of upper)
  reason grant lower upper state max_calls =
      text_append "grant call cap reached (" (text_append (show_cap grant.max_calls) ")")

  -- Only a capped refusal books the count.
  abbrev booked : GrantState → Limit → Fields
  booked state max_calls = field "calls_after" (Json.num (pos state.calls)) end
  booked state _ = end

  -- The decision at a replayed state, and the line that books it.
  unfoldable pub decide :
      Grant → Moment → Option Moment → Option Moment → GrantState → Decision × Raw
  decide grant now lower upper state = elim (gate grant now lower upper state) [
    | some limit ↦ (
      record {
        allowed = false;
        grant_id = grant.grant_id;
        calls = state.calls;
        limit = some limit;
      },
      refuse_line grant now (reason grant lower upper state limit) limit (booked state limit),
    )
    | none ↦ (
      record { allowed = true; grant_id = grant.grant_id; calls = suc state.calls; limit = none },
      call_line grant now (suc state.calls),
    )
  ]

  abbrev appended : {A : Type 0} → List Raw → A × Raw → A × List Raw
  appended book (decision, line) = (decision, book ++ line ∷ [])

  abbrev bound_of : {A : Type 0} → Outcome BadBound A → Outcome Error A
  bound_of (ok a) = ok a
  bound_of (raised e) = raised (malformed_bound e)

  abbrev untampered : {A : Type 0} → Outcome Tamper A → Outcome Error A
  untampered (ok a) = ok a
  untampered (raised e) = raised (tampered e)

  -- `record_call`: the decision and the book with its line. An exception leaves the book alone.
  unfoldable pub record_call : Grant → Moment → List Raw → Outcome Error (Decision × List Raw)
  record_call grant now book = do
    lower ← bound_of (parse_bound iso grant.not_before)
    upper ← bound_of (parse_bound iso grant.not_after)
    state ← untampered (replay iso grant.grant_id book)
    ok (appended book (decide grant now lower upper state))

  -- `revoke`: the book with the revocation's line.
  unfoldable pub revoke : String → String → Moment → List Raw → Outcome Error (List Raw)
  revoke grant_id reason now book =
      if str_is_empty grant_id
      then raised empty_id
      else ok (book ++ revoke_line grant_id reason now ∷ [])

  -- One round of the loop of `verify`.
  unfoldable pub inspect : ℕ → Dict String GrantState → Raw → Dict String GrantState × List Problem
  inspect number seen none = (seen, line_not_json number ∷ [])
  inspect number seen (some v) = elim (object? v) [
    | none ↦ (seen, line_not_object number ∷ [])
    | some line ↦ elim (text? (get "grant_id" line)) [
      | none ↦ (seen, line_without_grant number ∷ [])
      | some grant_id ↦
          let (state, error) = fold_line iso (state_of grant_id seen) line in
          (insert grant_id state seen, reported number error)
    ]
  ]

  unfoldable pub verify_from : ℕ → Dict String GrantState → List Raw → List Problem
  verify_from number seen [] = []
  verify_from number seen (raw ∷ rest) =
      let (seen', problems) = inspect number seen raw in
      problems ++ verify_from (suc number) seen' rest

  -- `verify`
  unfoldable pub verify : List Raw → List Problem
  unfolding verify_from
  verify book = verify_from 1 [] book
