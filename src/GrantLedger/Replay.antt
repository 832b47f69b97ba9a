-- ===== src/GrantLedger/Replay.antt =====
-- How the replay of a book goes on when a line is appended.
use ephemora_cell.Common.{
  ℕ, suc, ◌+◌, ◌≡◌, ap, ◌∙◌, String, true, false, none, some, List, [], ◌∷◌, ◌++◌, arith, length,
  ok, raised, ◌>>=◌, Outcome-cases, inl, inr, text_key,
}
use ephemora_cell.Common.Json.{Json, Fields, end, get, is_text}
use ephemora_cell.Common.Moment.{Iso}
use ephemora_cell.GrantLedger.Book.{
  Raw, GrantState, Tamper, fresh, fold_line, step, replay_from, replay, checked,
}

abbrev body : Json → Fields
body (Json.obj d) = d
body _ = end

module _ (iso : Iso) where
  pub replay_from-append :
      (n : ℕ) (state : GrantState) (xs ys : List Raw)
      → replay_from iso n state (xs ++ ys)
        ≡ (replay_from iso n state xs >>= λ s. replay_from iso (n + length xs) s ys)
  unfolding replay_from
  replay_from-append n state [] ys = ap (λ (k : ℕ). replay_from iso k state ys) (omega arith)
  replay_from-append n state (raw ∷ xs) ys = elim (Outcome-cases (step iso n state raw)) [
    | inl (s, e) ↦
        let same : suc n + length xs ≡ n + suc (length xs) = omega arith in
        rw (e, replay_from, ← same) (replay_from-append (suc n) s xs ys)
    | inr (t, e) ↦ rw (e, replay_from)
  ]

  replay_one :
      (n : ℕ) (state : GrantState) (raw : Raw)
      → replay_from iso n state (raw ∷ []) ≡ step iso n state raw
  unfolding replay_from
  replay_one n state raw = ground arith

  -- One more line is one more round.
  pub replay-snoc :
      (grant_id : String) (book : List Raw) (raw : Raw) {state : GrantState}
      → replay iso grant_id book ≡ ok state
      → replay iso grant_id (book ++ raw ∷ []) ≡ step iso (1 + length book) state raw
  unfolding replay
  replay-snoc grant_id book raw {state} h =
      replay_from-append 1 (fresh grant_id) book (raw ∷ [])
      ∙ rw h (replay_one (1 + length book) state raw)

  -- A replay that raises goes on raising.
  pub replay-snoc_raised :
      (grant_id : String) (book : List Raw) (raw : Raw) {t : Tamper}
      → replay iso grant_id book ≡ raised t
      → replay iso grant_id (book ++ raw ∷ []) ≡ raised t
  unfolding replay
  replay-snoc_raised grant_id book raw h =
      replay_from-append 1 (fresh grant_id) book (raw ∷ []) ∙ rw h

  pub fold_line-grant_id :
      (state : GrantState) (line : Fields) → (fold_line iso state line).0.grant_id ≡ state.grant_id
  unfolding fold_line
  fold_line-grant_id state line = ground arith

  pub step-grant_id :
      (n : ℕ) (state state' : GrantState) (raw : Raw)
      → step iso n state raw ≡ ok state'
      → state'.grant_id ≡ state.grant_id
  unfolding step
  step-grant_id n state state' none h = cc
  step-grant_id n state state' (some v) h = ground (arith, fold_line-grant_id state (body v))

  -- The replayed state is that of the grant asked for.
  pub replay_from-grant_id :
      (n : ℕ) (state state' : GrantState) (book : List Raw)
      → replay_from iso n state book ≡ ok state'
      → state'.grant_id ≡ state.grant_id
  unfolding replay_from
  replay_from-grant_id n state state' [] h = ground arith
  replay_from-grant_id n state state' (raw ∷ rest) h = elim (Outcome-cases (step iso n state raw)) [
    | inl (s, e) ↦
        replay_from-grant_id (suc n) s state' rest (rw (e, replay_from) at h)
        ∙ step-grant_id n state s raw e
    | inr (t, e) ↦ ground arith
  ]

  pub replay-grant_id :
      (grant_id : String) (state : GrantState) (book : List Raw)
      → replay iso grant_id book ≡ ok state
      → state.grant_id ≡ grant_id
  unfolding replay
  replay-grant_id grant_id state book h = replay_from-grant_id 1 (fresh grant_id) state book h

  -- A line of another grant changes nothing.
  pub step_foreign :
      (n : ℕ) (state : GrantState) (line : Fields)
      → is_text state.grant_id (get "grant_id" line) ≡ false
      → step iso n state (some (Json.obj line)) ≡ ok state
  unfolding step
  step_foreign n state line h = rw h

  pub step_own :
      (n : ℕ) (state : GrantState) (line : Fields)
      → is_text state.grant_id (get "grant_id" line) ≡ true
      → step iso n state (some (Json.obj line)) ≡ checked n (fold_line iso state line)
  unfolding step
  step_own n state line h = rw h
