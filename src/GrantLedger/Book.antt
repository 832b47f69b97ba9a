-- ===== src/GrantLedger/Book.antt =====
-- The lines of a grant book and their replay: `_apply` and `_replay`.
use ephemora_cell.Common.{
  ℕ, suc, String, ◌&&◌, ◌||◌, Option, none, some, List, [], ◌∷◌, if◌then◌else◌, Outcome, ok, raised,
}
use ephemora_cell.Common.Json.{Json, Fields, get, is_text, is_int, is_number, is_none, object?}
use ephemora_cell.Common.Moment.{Moment, Iso, BadBound, parse_bound}

-- A line of the file, as `json.loads` reads it.
abbrev pub Raw : Type 0
Raw = Option Json

pub record GrantState : Type 0 where
  pub grant_id : String
  pub calls : ℕ
  pub revoked_at : Option Moment

abbrev pub fresh : String → GrantState
fresh grant_id = record { grant_id = grant_id; calls = 0; revoked_at = none }

-- The messages of `_apply`.
pub data Fault : Type 0 where
  call_count refusal_count unknown_kind : Fault
  bad_moment : BadBound → Fault

-- `GrantTamperError`, with the number of the line.
pub data Tamper : Type 0 where
  not_json : ℕ → Tamper
  at_line : ℕ → Fault → Tamper

-- A revocation line, by what its moment parses to.
abbrev pub revoke_at : GrantState → Outcome BadBound (Option Moment) → GrantState × Option Fault
revoke_at state (ok at) = (record state { revoked_at = at }, none)
revoke_at state (raised e) = (state, some (bad_moment e))

-- `_replay` raises where `_apply` reports.
abbrev pub checked : ℕ → GrantState × Option Fault → Outcome Tamper GrantState
checked number (state, none) = ok state
checked number (state, some fault) = raised (at_line number fault)

module _ (iso : Iso) where
  -- `_apply`: the state that the line implies, and what is wrong with the line.
  unfoldable pub fold_line : GrantState → Fields → GrantState × Option Fault
  fold_line state line =
      if is_text "call" (get "kind" line)
      then (
        record state { calls = suc state.calls },
        if is_int (get "calls_after" line) && is_number (suc state.calls) (get "calls_after" line)
            then none
            else some call_count,
      )
      else if is_text "revoke" (get "kind" line)
      then elim state.revoked_at [
        | some at ↦ (state, none)
        | none ↦ revoke_at state (parse_bound iso (get "at" line))
      ]
      else if is_text "refuse" (get "kind" line)
      then (
        state,
        if is_none (get "calls_after" line) || is_number state.calls (get "calls_after" line)
            then none
            else some refusal_count,
      )
      else (state, some unknown_kind)

  -- One round of the loop of `_replay`, at a state of the grant that is replayed.
  unfoldable pub step : ℕ → GrantState → Raw → Outcome Tamper GrantState
  step number state none = raised (not_json number)
  step number state (some v) = elim (object? v) [
    | none ↦ ok state
    | some line ↦
        if is_text state.grant_id (get "grant_id" line)
        then checked number (fold_line state line)
        else ok state
  ]

  unfoldable pub replay_from : ℕ → GrantState → List Raw → Outcome Tamper GrantState
  replay_from number state [] = ok state
  replay_from number state (raw ∷ rest) = elim (step number state raw) [
    | ok state' ↦ replay_from (suc number) state' rest
    | raised e ↦ raised e
  ]

  -- `_replay`, and so `usage`
  unfoldable pub replay : String → List Raw → Outcome Tamper GrantState
  unfolding replay_from
  replay grant_id book = replay_from 1 (fresh grant_id) book
