-- ===== src/GrantLedger/Gates.antt =====
-- The gates of `record_call`, and when all of them are open.
use ephemora_cell.Common.{ℕ, suc, ◌≤◌, ◌<◌, ◌≡◌, ◌↔◌, true, Option, none, some, List, arith, ok}
use ephemora_cell.Common.Int.{ℤ, pos, ◌≤ℤ◌}
use ephemora_cell.Common.Moment.{Moment, Iso, parse_bound}
use ephemora_cell.GrantLedger.{Raw, GrantState, Grant, Decision, gate, decide, record_call, replay}
use ephemora_cell.GrantLedger.Writers.{record_call-Called}

abbrev pub Begun : Moment → Option Moment → Type 0
Begun now none = Unit
Begun now (some m) = m ≤ now

abbrev pub Unexpired : Moment → Option Moment → Type 0
Unexpired now none = Unit
Unexpired now (some m) = now < m

abbrev pub HasRoom : ℕ → Option ℤ → Type 0
HasRoom calls none = Unit
HasRoom calls (some n) = pos (suc calls) ≤ℤ n

-- Every gate of `record_call` is open: the grant is not revoked, the moment is in `[lower, upper)`,
-- and the cap admits one call more.
pub record Open (grant : Grant) (now : Moment) (lower upper : Option Moment) (state : GrantState)
    : Type 0 where
  pub unrevoked : state.revoked_at ≡ none
  pub begun : Begun now lower
  pub unexpired : Unexpired now upper
  pub room : HasRoom state.calls grant.max_calls

gate-Open :
    (grant : Grant) (now : Moment) (lower upper : Option Moment) (state : GrantState)
    → gate grant now lower upper state ≡ none
    → Open grant now lower upper state
unfolding gate
gate-Open grant now lower upper state h = ground arith

Open-gate :
    (grant : Grant) (now : Moment) (lower upper : Option Moment) (state : GrantState)
    → Open grant now lower upper state
    → gate grant now lower upper state ≡ none
unfolding gate
Open-gate grant now lower upper state o = ground arith

module _ (iso : Iso) where
  decide-allowed :
      (grant : Grant) (now : Moment) (lower upper : Option Moment) (state : GrantState)
      → ((decide iso grant now lower upper state).0.allowed ≡ true)
        ↔ (gate grant now lower upper state ≡ none)
  unfolding decide
  decide-allowed grant now lower upper state = (λ h. ground arith, λ h. ground arith)

  -- A call that returns was allowed exactly when every gate was open on the replayed book.
  pub record_call_allows_iff :
      (grant : Grant) (now : Moment) (book : List Raw) (d : Decision) (book' : List Raw)
      → record_call iso grant now book ≡ ok (d, book')
      → (lower upper : Option Moment) × (state : GrantState) × (parse_bound iso grant.not_before
          ≡ ok lower)
        × (parse_bound iso grant.not_after ≡ ok upper)
        × (replay iso grant.grant_id book ≡ ok state)
        × ((d.allowed ≡ true) ↔ Open grant now lower upper state)
  record_call_allows_iff grant now book d book' h =
      let c = record_call-Called iso grant now book d book' h in
      let (closed, opened) = decide-allowed grant now c.lower c.upper c.state in
      (
        c.lower,
        c.upper,
        c.state,
        c.reads_lower,
        c.reads_upper,
        c.replays,
        (
          λ a. gate-Open grant now c.lower c.upper c.state (closed (rw c.decides at a)),
          λ o. rw c.decides (opened (Open-gate grant now c.lower c.upper c.state o)),
        ),
      )
