-- ===== src/GrantLedger/Evidence.antt =====
-- What a book proves: a call line pins how many calls of its grant stand before it, so that dropping,
-- inserting or moving one of these is seen.
use ephemora_cell.Common.{
  ℕ, suc, ◌+◌, ◌≡◌, ap, ◌∙◌, sym, String, Bool, true, ◌&&◌, none, some, List, [], ◌∷◌, ◌++◌, arith,
  length, ok, Outcome-cases, inl, inr, if◌then◌else◌,
}
use ephemora_cell.Common.Int.{pos}
use ephemora_cell.Common.Json.{Json, Fields, end, get, is_text, equal_int}
use ephemora_cell.Common.Moment.{Iso}
use ephemora_cell.GrantLedger.{Raw, GrantState, fold_line, step, replay_from, replay, fresh}
use ephemora_cell.GrantLedger.Replay.{replay_from-append, replay_from-grant_id, step-grant_id}

abbrev pub fields_of : Raw → Fields
fields_of (some (Json.obj d)) = d
fields_of _ = end

-- A `call` line of the grant.
abbrev pub is_call_of : String → Raw → Bool
is_call_of id raw =
    is_text id (get "grant_id" (fields_of raw)) && is_text "call" (get "kind" (fields_of raw))

unfoldable pub calls_in : String → List Raw → ℕ
calls_in id [] = 0
calls_in id (raw ∷ rest) = if is_call_of id raw then suc (calls_in id rest) else calls_in id rest

calls_in-append :
    (id : String) (xs ys : List Raw) → calls_in id (xs ++ ys) ≡ calls_in id xs + calls_in id ys
unfolding calls_in
calls_in-append id [] ys = omega arith
calls_in-append id (x ∷ xs) ys = ground (arith, calls_in-append id xs ys)

module _ (iso : Iso) where
  -- A line that the replay accepts counts one call if it is one, and then books the new count.
  step-calls :
      (n : ℕ) (state state' : GrantState) (raw : Raw)
      → step iso n state raw ≡ ok state'
      → state'.calls ≡ (if is_call_of state.grant_id raw then suc state.calls else state.calls)
  unfolding step fold_line
  step-calls n state state' none h = cc
  step-calls n state state' (some (Json.obj line)) h = ground arith
  step-calls n state state' (some _) h = ground arith

  step-books :
      (n : ℕ) (state state' : GrantState) (raw : Raw)
      → step iso n state raw ≡ ok state'
      → is_call_of state.grant_id raw ≡ true
      → equal_int (get "calls_after" (fields_of raw)) ≡ some (pos (suc state.calls))
  unfolding step fold_line
  step-books n state state' none h c = cc
  step-books n state state' (some (Json.obj line)) h c = ground arith
  step-books n state state' (some _) h c = ground arith

  replay_from-calls :
      (n : ℕ) (state last : GrantState) (book : List Raw)
      → replay_from iso n state book ≡ ok last
      → last.calls ≡ state.calls + calls_in state.grant_id book
  unfolding replay_from calls_in
  replay_from-calls n state last [] h = ground arith
  replay_from-calls n state last (raw ∷ rest) h = elim (Outcome-cases (step iso n state raw)) [
    | inr (t, e) ↦ ground (arith, e)
    | inl (next, e) ↦
        let ih = replay_from-calls (suc n) next last rest (rw (e, replay_from) at h) in
        ground (arith, step-calls n state next raw e, step-grant_id iso n state next raw e, ih)
  ]

  -- A replay that accepts a book has accepted each beginning of it.
  replay_from_split :
      (n : ℕ) (state last : GrantState) (xs ys : List Raw)
      → replay_from iso n state (xs ++ ys) ≡ ok last
      → (middle : GrantState) × (replay_from iso n state xs ≡ ok middle)
        × (replay_from iso (n + length xs) middle ys ≡ ok last)
  replay_from_split n state last xs ys h =
      let joined = sym (replay_from-append iso n state xs ys) ∙ h in
      elim (Outcome-cases (replay_from iso n state xs)) [
        | inl (middle, e) ↦ (middle, e, rw e at joined)
        | inr (t, e) ↦ ground (arith, e, joined)
      ]

  -- In a book that a grant's replay accepts, a call line of the grant books one more than the calls of
  -- the grant that stand before it.
  pub call_booked :
      (id : String) (before after : List Raw) (raw : Raw) (last : GrantState)
      → replay iso id (before ++ raw ∷ after) ≡ ok last
      → is_call_of id raw ≡ true
      → equal_int (get "calls_after" (fields_of raw)) ≡ some (pos (suc (calls_in id before)))
  unfolding replay replay_from
  call_booked id before after raw last h c =
      let (middle, r, onto) = replay_from_split 1 (fresh id) last before (raw ∷ after) h in
      let named : middle.grant_id ≡ id = replay_from-grant_id iso 1 (fresh id) middle before r in
      let counted = replay_from-calls 1 (fresh id) middle before r in
      elim (Outcome-cases (step iso (1 + length before) middle raw)) [
        | inr (t, e) ↦ ground (arith, e)
        | inl (next, e) ↦
            step-books (1 + length before) middle next raw e (rw named c)
            ∙ ap (λ k. some (pos (suc k))) (omega (arith, counted))
      ]

  -- If a grant's replay accepts two books that both hold a call line of the grant, as many calls of
  -- the grant stand before the line in the one as in the other: a book from which an earlier call was
  -- dropped, or to which one was added, is not accepted.
  pub call_position :
      (id : String) (before after before' after' : List Raw) (raw : Raw) (last last' : GrantState)
      → replay iso id (before ++ raw ∷ after) ≡ ok last
      → replay iso id (before' ++ raw ∷ after') ≡ ok last'
      → is_call_of id raw ≡ true
      → calls_in id before ≡ calls_in id before'
  call_position id before after before' after' raw last last' h h' c = ground (
    arith,
    call_booked id before after raw last h c,
    call_booked id before' after' raw last' h' c,
  )
