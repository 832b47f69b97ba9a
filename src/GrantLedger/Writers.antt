-- ===== src/GrantLedger/Writers.antt =====
-- What the writers append is what the replay reads: a decision's line is never refused by the next
-- replay, and moves the state by exactly what the decision said.
use ephemora_cell.Common.{
  ℕ, suc, ◌+◌, ◌/◌, ◌*◌, ◌≡◌, ◌≢◌, ◌∙◌, sym, String, Option, none, some, List, [], ◌∷◌, ◌++◌, arith,
  length, ok, Outcome-cases, inl, inr, if◌then◌else◌, eq_iff, text_key,
}
use ephemora_cell.Common.Moment.{Moment, Iso, parse_bound, parse_bound-stamp}
use ephemora_cell.GrantLedger.{
  Raw, GrantState, Grant, Decision, decide, record_call, revoke, fold_line, step, replay,
  revoke_line,
}
use ephemora_cell.GrantLedger.Replay.{replay-snoc, replay-snoc_raised, replay-grant_id}

-- The state after a decision: an approval spends one call, a refusal nothing.
abbrev pub after : Decision → GrantState → GrantState
after d state = if d.allowed then record state { calls = suc state.calls } else state

module _ (iso : Iso) where
  decide-step :
      (n : ℕ) (grant : Grant) (now : Moment) (lower upper : Option Moment) (state : GrantState)
      → state.grant_id ≡ grant.grant_id
      → let (d, line) = decide iso grant now lower upper state in
        step iso n state line ≡ ok (after d state)
  unfolding decide step fold_line
  decide-step n grant now lower upper state e = ground (arith, eq_iff grant.grant_id state.grant_id)

  decide-foreign :
      (n : ℕ) (grant : Grant) (now : Moment) (lower upper : Option Moment)
      (state other : GrantState)
      → other.grant_id ≢ grant.grant_id
      → step iso n other (decide iso grant now lower upper state).1 ≡ ok other
  unfolding decide step
  decide-foreign n grant now lower upper state other e =
      ground (arith, eq_iff grant.grant_id other.grant_id)

  -- What a `record_call` that returned has read, decided and written.
  pub record Called (grant : Grant) (now : Moment) (book : List Raw) (d : Decision)
      (book' : List Raw) : Type 0 where
    pub lower : Option Moment
    pub upper : Option Moment
    pub state : GrantState
    pub reads_lower : parse_bound iso grant.not_before ≡ ok lower
    pub reads_upper : parse_bound iso grant.not_after ≡ ok upper
    pub replays : replay iso grant.grant_id book ≡ ok state
    pub decides : d ≡ (decide iso grant now lower upper state).0
    pub appends : book' ≡ book ++ (decide iso grant now lower upper state).1 ∷ []

  pub record_call-Called :
      (grant : Grant) (now : Moment) (book : List Raw) (d : Decision) (book' : List Raw)
      → record_call iso grant now book ≡ ok (d, book')
      → Called grant now book d book'
  unfolding record_call
  record_call-Called grant now book d book' h =
      elim (Outcome-cases (parse_bound iso grant.not_before)) [
        | inr (e, p) ↦ ground (arith, p)
        | inl (lower, p) ↦ elim (Outcome-cases (parse_bound iso grant.not_after)) [
          | inr (e, q) ↦ ground (arith, p, q)
          | inl (upper, q) ↦ elim (Outcome-cases (replay iso grant.grant_id book)) [
            | inr (e, r) ↦ ground (arith, p, q, r)
            | inl (state, r) ↦ record {
              lower = lower;
              upper = upper;
              state = state;
              reads_lower = p;
              reads_upper = q;
              replays = r;
              decides = ground (arith, p, q, r);
              appends = ground (arith, p, q, r);
            }
          ]
        ]
      ]

  -- A line that another grant's replay passes over leaves that replay as it was, raising or not.
  replay_passes_over :
      (other : String) (book : List Raw) (raw : Raw)
      → ((n : ℕ) (s : GrantState) → s.grant_id ≡ other → step iso n s raw ≡ ok s)
      → replay iso other (book ++ raw ∷ []) ≡ replay iso other book
  replay_passes_over other book raw skip = elim (Outcome-cases (replay iso other book)) [
    | inl (s, e) ↦
        replay-snoc iso other book raw e
        ∙ skip (1 + length book) s (replay-grant_id iso other s book e)
        ∙ sym e
    | inr (t, e) ↦ replay-snoc_raised iso other book raw e ∙ sym e
  ]

  -- A call that returns leaves a book whose replay succeeds: for its own grant with one call more if
  -- it was allowed and the same state if it was refused, the count that the decision reports; and for
  -- every other grant with what it was before.
  pub record_call-replay :
      (grant : Grant) (now : Moment) (book : List Raw) (d : Decision) (book' : List Raw)
      → record_call iso grant now book ≡ ok (d, book')
      → ((state : GrantState) × (replay iso grant.grant_id book ≡ ok state)
          × (replay iso grant.grant_id book' ≡ ok (after d state))
          × (d.calls ≡ (after d state).calls))
        × ((other : String)
            → other ≢ grant.grant_id
            → replay iso other book' ≡ replay iso other book)
  unfolding decide
  record_call-replay grant now book d book' h =
      let c = record_call-Called grant now book d book' h in
      let own = replay-grant_id iso grant.grant_id c.state book c.replays in
      (
        (
          c.state,
          c.replays,
          rw (c.appends, c.decides)
              (replay-snoc iso grant.grant_id book _ c.replays
                ∙ decide-step (1 + length book) grant now c.lower c.upper c.state own),
          rw c.decides (ground arith),
        ),
        λ other ne. rw c.appends (
            replay_passes_over other book (decide iso grant now c.lower c.upper c.state).1
              λ n s e. decide-foreign n grant now c.lower c.upper c.state s (λ q. ne (sym e ∙ q))),
      )

  -- The revocation's line: the earliest revocation stays, else the moment is cut to milliseconds.
  abbrev pub revoked_state : Moment → GrantState → GrantState
  revoked_state now state = elim state.revoked_at [
    | some at ↦ state
    | none ↦ record state { revoked_at = some (now / 1000 * 1000) }
  ]

  revoke-step :
      (n : ℕ) (grant_id reason : String) (now : Moment) (state : GrantState)
      → state.grant_id ≡ grant_id
      → step iso n state (revoke_line iso grant_id reason now) ≡ ok (revoked_state now state)
  unfolding step fold_line
  revoke-step n grant_id reason now state e =
      ground (arith, eq_iff grant_id state.grant_id, parse_bound-stamp iso now)

  revoke-foreign :
      (n : ℕ) (grant_id reason : String) (now : Moment) (other : GrantState)
      → other.grant_id ≢ grant_id
      → step iso n other (revoke_line iso grant_id reason now) ≡ ok other
  unfolding step
  revoke-foreign n grant_id reason now other e = ground (arith, eq_iff grant_id other.grant_id)

  -- A revocation that returns is read back as the grant's, unless an earlier one stands.
  pub revoke-replay :
      (grant_id reason : String) (now : Moment) (book book' : List Raw) (state : GrantState)
      → revoke iso grant_id reason now book ≡ ok book'
      → replay iso grant_id book ≡ ok state
      → replay iso grant_id book' ≡ ok (revoked_state now state)
  unfolding revoke
  revoke-replay grant_id reason now book book' state h r =
      let e : book' ≡ book ++ revoke_line iso grant_id reason now ∷ [] = ground arith in
      rw e (
        replay-snoc iso grant_id book _ r
        ∙ revoke-step (1 + length book) grant_id reason now state
            (replay-grant_id iso grant_id state book r))

  -- It changes no other grant's replay.
  pub revoke-replay_other :
      (grant_id reason other : String) (now : Moment) (book book' : List Raw)
      → revoke iso grant_id reason now book ≡ ok book'
      → other ≢ grant_id
      → replay iso other book' ≡ replay iso other book
  unfolding revoke
  revoke-replay_other grant_id reason other now book book' h ne =
      let e : book' ≡ book ++ revoke_line iso grant_id reason now ∷ [] = ground arith in
      rw e (
        replay_passes_over other book (revoke_line iso grant_id reason now)
          λ n s q. revoke-foreign n grant_id reason now s (λ p. ne (sym q ∙ p)))
