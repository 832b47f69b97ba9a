-- ===== src/GrantLedger/Honest.antt =====
-- The books that the writers leave: `verify` finds nothing in them.
use ephemora_cell.Common.{
  ℕ, suc, ◌≡◌, refl, String, Option, some, List, [], ◌∷◌, ◌++◌, arith, ok, Outcome-cases,
  Option-cases, inl, inr, eq_iff, text_key, All,
}
use ephemora_cell.Common.Dict.{Dict}
use ephemora_cell.Common.Json.{Json, Fields, get, text?}
use ephemora_cell.Common.Moment.{Moment, Iso}
use ephemora_cell.GrantLedger.{
  Raw, GrantState, Grant, state_of, inspect, verify_from, verify, step, replay_from, replay, decide,
  gate, record_call, revoke, revoke_line,
}
use ephemora_cell.GrantLedger.Writers.{record_call-Called}
use ephemora_cell.GrantLedger.History.{Op, call, withdraw, perform, history, history-replay}
use ephemora_cell.GrantLedger.Verify.{IsNamed, inspect-step, inspect-IsNamed}

-- A line that is an object and names its grant.
abbrev pub IsGrantLine : Raw → Type 0
IsGrantLine raw =
    (line : Fields) × (id : String) × (raw ≡ some (Json.obj line))
    × (text? (get "grant_id" line) ≡ some id)

All-snoc {ℓ} :
    {A : Type ℓ} (P : A → Type 0) (xs : List A) (x : A) → All P xs → P x → All P (xs ++ x ∷ [])
All-snoc P [] x h p = (p, tt)
All-snoc P (y ∷ xs) x h p = (h.0, All-snoc P xs x h.1 p)

module _ (iso : Iso) where
  inspect_clean :
      (n : ℕ) (seen : Dict String GrantState) (line : Fields) (id : String) (state : GrantState)
      → text? (get "grant_id" line) ≡ some id
      → IsNamed seen
      → step iso n (state_of id seen) (some (Json.obj line)) ≡ ok state
      → (inspect iso n seen (some (Json.obj line))).1 ≡ []
  unfolding inspect step
  inspect_clean n seen line id state g named h =
      ground (arith, g, named id, eq_iff id (state_of id seen).grant_id)

  replay_from-cons :
      (n : ℕ) (state last : GrantState) (raw : Raw) (rest : List Raw)
      → replay_from iso n state (raw ∷ rest) ≡ ok last
      → (next : GrantState) × (step iso n state raw ≡ ok next)
        × (replay_from iso (suc n) next rest ≡ ok last)
  unfolding replay_from
  replay_from-cons n state last raw rest h = elim (Outcome-cases (step iso n state raw)) [
    | inl (next, e) ↦ (next, e, rw (e, replay_from) at h)
    | inr (t, e) ↦ ground (arith, e)
  ]

  onward :
      (n : ℕ) (seen : Dict String GrantState) (raw : Raw) (rest : List Raw) (id : String)
      → IsNamed seen
      → (inspect iso n seen raw).1 ≡ []
      → (state : GrantState) × (replay_from iso n (state_of id seen) (raw ∷ rest) ≡ ok state)
      → (state : GrantState) × (replay_from iso
            (suc n)
            (state_of id (inspect iso n seen raw).0)
            rest
          ≡ ok state)
  onward n seen raw rest id named clean (last, r) =
      let (next, s, onto) = replay_from-cons n (state_of id seen) last raw rest r in
      (last, cc (s, inspect-step iso n seen raw id named clean, onto))

  verify_from_clean :
      (n : ℕ) (seen : Dict String GrantState) (book : List Raw)
      → IsNamed seen
      → All IsGrantLine book
      → ((id : String)
          → (state : GrantState) × (replay_from iso n (state_of id seen) book ≡ ok state))
      → verify_from iso n seen book ≡ []
  unfolding verify_from
  verify_from_clean n seen [] named lines h = refl
  verify_from_clean n seen (raw ∷ rest) named lines h =
      let (line, g, e, names) = lines.0 in
      let (last, r) = h g in
      let (next, s, _) = replay_from-cons n (state_of g seen) last raw rest r in
      let clean : (inspect iso n seen raw).1 ≡ [] =
        rw e (inspect_clean n seen line g next names named (rw e at s)) in
      rw clean (
        verify_from_clean (suc n) (inspect iso n seen raw).0 rest
          (inspect-IsNamed iso n seen raw named) lines.1
          (λ id. onward n seen raw rest id named clean (h id)))

  decided-IsGrantLine :
      (grant : Grant) (now : Moment) (lower upper : Option Moment) (state : GrantState)
      → IsGrantLine (decide iso grant now lower upper state).1
  unfolding decide
  decided-IsGrantLine grant now lower upper state =
      elim (Option-cases (gate grant now lower upper state)) [
        | inl e ↦ rw (e, decide) (_, grant.grant_id, refl, refl)
        | inr (limit, e) ↦ rw (e, decide) (_, grant.grant_id, refl, refl)
      ]

  perform-IsGrantLine :
      (op : Op) (book : List Raw) → All IsGrantLine book → All IsGrantLine (perform iso op book).1
  unfolding perform decide revoke
  perform-IsGrantLine (call grant now) book h =
      elim (Outcome-cases (record_call iso grant now book)) [
        | inr (e, r) ↦ rw (r, perform) h
        | inl ((d, book'), r) ↦
            let c = record_call-Called iso grant now book d book' r in
            rw (r, perform, c.appends)
              (All-snoc IsGrantLine book _ h
                (decided-IsGrantLine grant now c.lower c.upper c.state))
      ]
  perform-IsGrantLine (withdraw id reason now) book h =
      elim (Outcome-cases (revoke iso id reason now book)) [
        | inr (e, r) ↦ rw (r, perform) h
        | inl (book', r) ↦
            let e : book' ≡ book ++ revoke_line iso id reason now ∷ [] = ground arith in
            rw (r, perform, e)
              (All-snoc IsGrantLine book (revoke_line iso id reason now) h (_, id, refl, refl))
      ]

  history-IsGrantLine :
      (ops : List Op) (book : List Raw)
      → All IsGrantLine book
      → All IsGrantLine (history iso ops book)
  unfolding history
  history-IsGrantLine [] book h = h
  history-IsGrantLine (op ∷ ops) book h =
      history-IsGrantLine ops (perform iso op book).1 (perform-IsGrantLine op book h)

  -- Whatever is asked of a book that starts empty, `verify` finds no problem in it.
  pub verify-history : (ops : List Op) → verify iso (history iso ops []) ≡ []
  unfolding verify
  verify-history ops =
      verify_from_clean 1 [] (history iso ops []) (λ id. refl) (history-IsGrantLine ops [] tt)
        λ id. let (state, r, _) = history-replay iso id ops in (state, unfold replay in r)
