-- ===== src/GrantLedger/History.antt =====
-- Histories of a book: any operations in any order, from the empty book or from a later one.
use ephemora_cell.Common.{
  ℕ, suc, ◌+◌, ◌≡◌, refl, ap, ◌∙◌, sym, String, Bool, false, ◌&&◌, Option, none, some, List, [],
  ◌∷◌, arith, ok, raised, Outcome-cases, inl, inr, if◌then◌else◌, eq_iff, str_eq, Bool-cases,
}
use ephemora_cell.Common.Moment.{Moment, Iso}
use ephemora_cell.GrantLedger.{
  Raw, GrantState, Grant, Decision, decide, record_call, revoke, replay, fresh,
}
use ephemora_cell.GrantLedger.Writers.{
  after, record_call-Called, record_call-replay, revoke-replay, revoke-replay_other, revoked_state,
}

-- What a book is asked for.
pub data Op : Type 0 where
  call : Grant → Moment → Op
  withdraw : String → String → Moment → Op

abbrev pub granted_to : String → Option Decision → Bool
granted_to id none = false
granted_to id (some d) = d.allowed && str_eq d.grant_id id

module _ (iso : Iso) where
  -- One operation: its decision, if it made one, and the book it leaves.
  unfoldable pub perform : Op → List Raw → Option Decision × List Raw
  perform (call grant now) book = elim (record_call iso grant now book) [
    | ok (d, book') ↦ (some d, book')
    | raised e ↦ (none, book)
  ]
  perform (withdraw id reason now) book = elim (revoke iso id reason now book) [
    | ok book' ↦ (none, book')
    | raised e ↦ (none, book)
  ]

  unfoldable pub history : List Op → List Raw → List Raw
  history [] book = book
  history (op ∷ ops) book = history ops (perform op book).1

  -- The calls that were allowed to a grant in a history.
  unfoldable pub approved : String → List Op → List Raw → ℕ
  approved id [] book = 0
  approved id (op ∷ ops) book =
      let rest = approved id ops (perform op book).1 in
      if granted_to id (perform op book).0 then suc rest else rest

  -- One operation on a book whose replay for a grant succeeds: it goes on succeeding, a revocation
  -- stays, the count rises by one exactly at an approval, and an approval finds the gates open.
  pub record Advance (id : String) (state : GrantState) (op : Op) (book : List Raw) : Type 0 where
    pub next : GrantState
    pub replays : replay iso id (perform op book).1 ≡ ok next
    pub calls :
        next.calls ≡ (if granted_to id (perform op book).0 then suc state.calls else state.calls)
    pub keeps : (m : Moment) → state.revoked_at ≡ some m → next.revoked_at ≡ some m

  pub decision-grant_id :
      (grant : Grant) (now : Moment) (book : List Raw) (d : Decision) (book' : List Raw)
      → record_call iso grant now book ≡ ok (d, book')
      → d.grant_id ≡ grant.grant_id
  unfolding decide
  decision-grant_id grant now book d book' h =
      let c = record_call-Called iso grant now book d book' h in rw c.decides (ground arith)

  Advance-call :
      (id : String) (state : GrantState) (grant : Grant) (now : Moment) (book : List Raw)
      (d : Decision) (book' : List Raw)
      → record_call iso grant now book ≡ ok (d, book')
      → replay iso id book ≡ ok state
      → Advance id state (call grant now) book
  unfolding perform
  Advance-call id state grant now book d book' h r =
      let own = (record_call-replay iso grant now book d book' h).0 in
      let others = (record_call-replay iso grant now book d book' h).1 in
      let named = decision-grant_id grant now book d book' h in
      elim (Bool-cases (str_eq d.grant_id id)) [
        | inl same ↦
            let e : id ≡ grant.grant_id = sym ((eq_iff d.grant_id id).0 same) ∙ named in
            let s : own.0 ≡ state = cc (own.1, r, e) in
            record {
              next = after d state;
              replays = rw (h, perform, e) (own.2 ∙ ap (λ t. ok (after d t)) s);
              calls = ground (arith, h, same);
              keeps = λ m q. ground (arith, q);
            }
        | inr different ↦ record {
          next = state;
          replays = rw (h, perform) (others id (λ q. ground (arith, q, eq_iff d.grant_id id)) ∙ r);
          calls = ground (arith, h, different);
          keeps = λ m q. q;
        }
      ]

  Advance-withdraw :
      (id : String) (state : GrantState) (other reason : String) (now : Moment)
      (book book' : List Raw)
      → revoke iso other reason now book ≡ ok book'
      → replay iso id book ≡ ok state
      → Advance id state (withdraw other reason now) book
  unfolding perform
  Advance-withdraw id state other reason now book book' h r = elim (Bool-cases (str_eq other id)) [
    | inl same ↦
        let e : other ≡ id = (eq_iff other id).0 same in
        let h' : revoke iso id reason now book ≡ ok book' = rw e at h in
        record {
          next = revoked_state iso now state;
          replays = rw (h, perform) (revoke-replay iso id reason now book book' state h' r);
          calls = ground (arith, h);
          keeps = λ m q. ground (arith, q);
        }
    | inr different ↦ record {
      next = state;
      replays =
          rw (h, perform)
            (revoke-replay_other iso other reason id now book book' h
                (λ q. ground (arith, q, eq_iff other id))
              ∙ r);
      calls = ground (arith, h);
      keeps = λ m q. q;
    }
  ]

  pub advance :
      (id : String) (state : GrantState) (op : Op) (book : List Raw)
      → replay iso id book ≡ ok state
      → Advance id state op book
  unfolding perform
  advance id state (call grant now) book r = elim (Outcome-cases (record_call iso grant now book)) [
    | inr (e, h) ↦ record {
      next = state;
      replays = rw (h, perform) r;
      calls = ground (arith, h);
      keeps = λ m q. q;
    }
    | inl ((d, book'), h) ↦ Advance-call id state grant now book d book' h r
  ]
  advance id state (withdraw other reason now) book r =
      elim (Outcome-cases (revoke iso other reason now book)) [
        | inr (e, h) ↦ record {
          next = state;
          replays = rw (h, perform) r;
          calls = ground (arith, h);
          keeps = λ m q. q;
        }
        | inl (book', h) ↦ Advance-withdraw id state other reason now book book' h r
      ]

  -- What a history of any operations leaves of a grant.
  pub record Reached (id : String) (state : GrantState) (ops : List Op) (book : List Raw)
      : Type 0 where
    pub last : GrantState
    pub replays : replay iso id (history ops book) ≡ ok last
    pub calls : last.calls ≡ state.calls + approved id ops book
    pub keeps : (m : Moment) → state.revoked_at ≡ some m → last.revoked_at ≡ some m

  pub history-Reached :
      (id : String) (state : GrantState) (ops : List Op) (book : List Raw)
      → replay iso id book ≡ ok state
      → Reached id state ops book
  unfolding history approved
  history-Reached id state [] book r = record {
    last = state;
    replays = r;
    calls = omega arith;
    keeps = λ m q. q;
  }
  history-Reached id state (op ∷ ops) book r =
      let a = advance id state op book r in
      let rest = history-Reached id a.next ops (perform op book).1 a.replays in
      record {
        last = rest.last;
        replays = rest.replays;
        calls = ground (arith, a.calls, rest.calls);
        keeps = λ m q. rest.keeps m (a.keeps m q);
      }

  -- Whatever is asked of a book that starts empty, its replay for every grant succeeds, and counts
  -- exactly the calls that were allowed to the grant.
  pub history-replay :
      (id : String) (ops : List Op)
      → (state : GrantState) × (replay iso id (history ops []) ≡ ok state)
        × (state.calls ≡ approved id ops [])
  history-replay id ops =
      let h = history-Reached id (fresh id) ops [] (unfold replay in refl) in
      (h.last, h.replays, omega (arith, h.calls))
