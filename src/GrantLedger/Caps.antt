-- ===== src/GrantLedger/Caps.antt =====
-- The cap on a grant's calls, and the end that a revocation puts to them, over histories.
use ephemora_cell.Common.{
  ℕ, suc, ◌+◌, ◌≤◌, ◌≡◌, refl, ◌∙◌, sym, String, true, Option, none, some, List, [], ◌∷◌, arith, ok,
  Outcome-cases, Bool-cases, inl, inr, eq_iff, Option-cases, ◌/◌, ◌*◌,
}
use ephemora_cell.Common.Int.{pos}
use ephemora_cell.Common.Moment.{Moment, Iso}
use ephemora_cell.GrantLedger.{Raw, GrantState, Grant, record_call, revoke, replay, fresh}
use ephemora_cell.GrantLedger.Writers.{revoke-replay, revoked_state}
use ephemora_cell.GrantLedger.Gates.{HasRoom, record_call_allows_iff}
use ephemora_cell.GrantLedger.History.{
  Op, call, withdraw, granted_to, perform, history, approved, decision-grant_id, advance,
  history-Reached,
}

-- The grant of an operation that is a call.
abbrev pub grant_of : Op → Option Grant
grant_of (call grant now) = some grant
grant_of (withdraw id reason now) = none

-- Every call under the grant id comes with the same cap.
abbrev pub IsCapped : String → ℕ → List Op → Type 0
IsCapped id n [] = Unit
IsCapped id n (op ∷ ops) =
    ((grant : Grant)
      → grant_of op ≡ some grant
      → grant.grant_id ≡ id
      → grant.max_calls ≡ some (pos n))
    × IsCapped id n ops

module _ (iso : Iso) where
  -- An approval was made of a call whose gates were open at the replayed state.
  record Approval (id : String) (state : GrantState) (op : Op) : Type 0 where
    grant : Grant
    called : grant_of op ≡ some grant
    named : grant.grant_id ≡ id
    unrevoked : state.revoked_at ≡ none
    room : HasRoom state.calls grant.max_calls

  approval :
      (id : String) (state : GrantState) (op : Op) (book : List Raw)
      → replay iso id book ≡ ok state
      → granted_to id (perform iso op book).0 ≡ true
      → Approval id state op
  unfolding perform
  approval id state (withdraw other reason now) book r g =
      elim (Outcome-cases (revoke iso other reason now book)) [
        | inl (b, h) ↦ ground (arith, h)
        | inr (e, h) ↦ ground (arith, h)
      ]
  approval id state (call grant now) book r g =
      elim (Outcome-cases (record_call iso grant now book)) [
        | inr (e, h) ↦ ground (arith, h)
        | inl ((d, book'), h) ↦
            let named : grant.grant_id ≡ id =
              sym (decision-grant_id iso grant now book d book' h)
              ∙ (eq_iff d.grant_id id).0 (ground (arith, h)) in
            let (lower, upper, s, l, u, q, iff) =
              record_call_allows_iff iso grant now book d book' h in
            let same : s ≡ state = cc (q, r, named) in
            let opened = iff.0 (ground (arith, h)) in
            record {
              grant = grant;
              called = refl;
              named = named;
              unrevoked = rw same at opened.unrevoked;
              room = rw same at opened.room;
            }
      ]

  capped_history :
      (id : String) (n : ℕ) (state : GrantState) (ops : List Op) (book : List Raw)
      → IsCapped id n ops
      → replay iso id book ≡ ok state
      → state.calls ≤ n
      → state.calls + approved iso id ops book ≤ n
  unfolding approved
  capped_history id n state [] book c r h = omega arith
  capped_history id n state (op ∷ ops) book c r h =
      let a = advance iso id state op book r in
      let rest = capped_history id n a.next ops (perform iso op book).1 c.1 a.replays in
      elim (Bool-cases (granted_to id (perform iso op book).0)) [
        | inl g ↦
            let p = approval id state op book r g in
            let fits : suc state.calls ≤ n = ground (arith, c.0 p.grant p.called p.named, p.room) in
            rw g (ground (arith, a.calls, rest, fits, g))
        | inr g ↦ rw g (ground (arith, a.calls, rest, g))
      ]

  -- Of the calls asked for under a grant id whose cap is `n`, at most `n` are allowed, whatever else
  -- is asked of the book, which starts empty.
  pub approved-le-cap :
      (id : String) (n : ℕ) (ops : List Op) → IsCapped id n ops → approved iso id ops [] ≤ n
  approved-le-cap id n ops c =
      omega (arith, capped_history id n (fresh id) ops [] c (unfold replay in refl) (omega arith))

  revoked_history :
      (id : String) (state : GrantState) (m : Moment) (ops : List Op) (book : List Raw)
      → replay iso id book ≡ ok state
      → state.revoked_at ≡ some m
      → approved iso id ops book ≡ 0
  unfolding approved
  revoked_history id state m [] book r v = refl
  revoked_history id state m (op ∷ ops) book r v =
      let a = advance iso id state op book r in
      elim (Bool-cases (granted_to id (perform iso op book).0)) [
        | inl g ↦ ground (arith, v, (approval id state op book r g).unrevoked)
        | inr g ↦
            rw g (revoked_history id a.next m ops (perform iso op book).1 a.replays (a.keeps m v))
      ]

  revoked_at-revoked_state :
      (now : Moment) (state : GrantState)
      → (m : Moment) × ((revoked_state iso now state).revoked_at ≡ some m)
  revoked_at-revoked_state now state = elim (Option-cases state.revoked_at) [
    | inl e ↦ (now / 1000 * 1000, ground (arith, e))
    | inr (m, e) ↦ (m, ground (arith, e))
  ]

  -- Once a grant of a book that starts empty is revoked, whatever was asked of the book before and is
  -- asked after, no call is allowed to it again.
  pub approved-revoke :
      (id reason : String) (now : Moment) (earlier later : List Op) (book : List Raw)
      → revoke iso id reason now (history iso earlier []) ≡ ok book
      → approved iso id later book ≡ 0
  approved-revoke id reason now earlier later book h =
      let past = history-Reached iso id (fresh id) earlier [] (unfold replay in refl) in
      let (m, v) = revoked_at-revoked_state now past.last in
      revoked_history id (revoked_state iso now past.last) m later book
        (revoke-replay iso id reason now (history iso earlier []) book past.last h past.replays) v
