-- ===== src/GrantLedger/Verify.antt =====
-- `verify` and `_replay` agree: a book without problems is one that every grant's replay accepts.
use ephemora_cell.Common.{
  ℕ, suc, ◌≡◌, refl, ◌∙◌, String, none, some, List, [], ◌∷◌, ◌++◌, arith, ok, Option-cases, inl,
  inr, eq_iff, str_eq, text_key, if◌then◌else◌,
}
use ephemora_cell.Common.Dict.{Dict, insert, lookup-insert}
use ephemora_cell.Common.Json.{get, text?, object?}
use ephemora_cell.Common.Moment.{Iso}
use ephemora_cell.GrantLedger.{
  Raw, GrantState, Problem, state_of, inspect, verify_from, verify, fold_line, step, replay_from,
  replay,
}
use ephemora_cell.GrantLedger.Replay.{fold_line-grant_id}

state_of-insert :
    (id j : String) (state : GrantState) (seen : Dict String GrantState)
    → state_of j (insert id state seen) ≡ (if str_eq id j then state else state_of j seen)
state_of-insert id j state seen = ground (arith, lookup-insert id j state seen)

-- Every state is stored under its own grant.
abbrev pub IsNamed : Dict String GrantState → Type 0
IsNamed seen = (id : String) → (state_of id seen).grant_id ≡ id

no_problems : (xs ys : List Problem) → xs ++ ys ≡ [] → (xs ≡ []) × (ys ≡ [])
no_problems [] ys h = (refl, h)
no_problems (x ∷ xs) ys h = cc

module _ (iso : Iso) where
  -- A line without a problem moves each grant's state as that grant's own replay does.
  pub inspect-step :
      (n : ℕ) (seen : Dict String GrantState) (raw : Raw) (id : String)
      → IsNamed seen
      → (inspect iso n seen raw).1 ≡ []
      → step iso n (state_of id seen) raw ≡ ok (state_of id (inspect iso n seen raw).0)
  unfolding inspect step
  inspect-step n seen none id named h = cc
  inspect-step n seen (some v) id named h = elim (Option-cases (object? v)) [
    | inl e ↦ ground (arith, e)
    | inr (line, e) ↦ elim (Option-cases (text? (get "grant_id" line))) [
      | inl f ↦ ground (arith, e, f)
      | inr (g, f) ↦ ground (
        arith,
        e,
        f,
        eq_iff g id,
        named id,
        state_of-insert g id (fold_line iso (state_of g seen) line).0 seen,
      )
    ]
  ]

  pub inspect-IsNamed :
      (n : ℕ) (seen : Dict String GrantState) (raw : Raw)
      → IsNamed seen
      → IsNamed (inspect iso n seen raw).0
  unfolding inspect
  inspect-IsNamed n seen none named id = named id
  inspect-IsNamed n seen (some v) named id = elim (Option-cases (object? v)) [
    | inl e ↦ rw (e, inspect) (named id)
    | inr (line, e) ↦ elim (Option-cases (text? (get "grant_id" line))) [
      | inl f ↦ rw (e, f, inspect) (named id)
      | inr (g, f) ↦
          let state = (fold_line iso (state_of g seen) line).0 in
          let kept : state.grant_id ≡ g = fold_line-grant_id iso (state_of g seen) line ∙ named g in
          rw (e, f, inspect, state_of-insert g id state seen)
            (ground (arith, eq_iff g id, kept, named id))
    ]
  ]

  verify_from-replay :
      (n : ℕ) (seen : Dict String GrantState) (book : List Raw) (id : String)
      → IsNamed seen
      → verify_from iso n seen book ≡ []
      → (state : GrantState) × (replay_from iso n (state_of id seen) book ≡ ok state)
  unfolding verify_from replay_from
  verify_from-replay n seen [] id named h = (state_of id seen, refl)
  verify_from-replay n seen (raw ∷ rest) id named h =
      let (here, there) = no_problems (inspect iso n seen raw).1 _ h in
      rw (inspect-step n seen raw id named here, replay_from)
        (verify_from-replay (suc n) (inspect iso n seen raw).0 rest id
          (inspect-IsNamed n seen raw named) there)

  -- A book in which `verify` finds no problem is accepted by the replay of every grant, so no call on
  -- it is refused as tampered with.
  pub verify-replay :
      (book : List Raw) (id : String)
      → verify iso book ≡ []
      → (state : GrantState) × (replay iso id book ≡ ok state)
  unfolding verify replay
  verify-replay book id h = verify_from-replay 1 [] book id (λ j. refl) h
