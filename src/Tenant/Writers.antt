-- ===== src/Tenant/Writers.antt =====
-- How a tenant's replay goes on when one of the store's lines is appended to the book.
use mathlib.Core.List.{append-nil, append_assoc}
use ephemora_cell.Common.{
  ◌≡◌, ◌≢◌, refl, ap, ◌∙◌, sym, String, false, some, List, [], ◌∷◌, ◌++◌, arith, Outcome, ok,
  raised, ◌>>=◌, Outcome-cases, inl, inr, eq_iff, text_key,
}
use ephemora_cell.Common.Json.{Json, Fields, has}
use ephemora_cell.Common.Moment.{Iso}
use ephemora_cell.Tenant.Values.{Error}
use ephemora_cell.Tenant.Book.{
  Raw, Account, no_account, fold, apply, apply_all, entry, entries, replay, sealed,
}
use ephemora_cell.Tenant.{line_of}
use ephemora_cell.Tenant.Seal.{apply-sealed}

entries-snoc :
    (tenant : String) (book : List Raw) (raw : Raw) (lines : List Fields)
    → entry tenant raw ≡ ok lines
    → entries tenant (book ++ raw ∷ []) ≡ (entries tenant book >>= λ xs. ok (xs ++ lines))
unfolding entries
entries-snoc tenant [] raw lines h = rw h (ap ok (append-nil lines))
entries-snoc tenant (x ∷ xs) raw lines h = elim (Outcome-cases (entry tenant x)) [
  | inr (e, f) ↦ rw f
  | inl (here, f) ↦ elim (Outcome-cases (entries tenant xs)) [
    | inr (e, g) ↦ rw (f, entries-snoc tenant xs raw lines h, g)
    | inl (later, g) ↦
        rw (f, entries-snoc tenant xs raw lines h, g) (ap ok (sym (append_assoc here later lines)))
  ]
]

module _ (iso : Iso) (show_other : Json → String) where
  apply_all-append :
      (a : Account) (xs ys : List Fields)
      → apply_all iso show_other a (xs ++ ys)
        ≡ (apply_all iso show_other a xs >>= λ b. apply_all iso show_other b ys)
  unfolding apply_all
  apply_all-append a [] ys = refl
  apply_all-append a (x ∷ xs) ys = elim (Outcome-cases (apply iso show_other a x)) [
    | inl (b, e) ↦ rw (e, apply_all) (apply_all-append b xs ys)
    | inr (t, e) ↦ rw (e, apply_all)
  ]

  -- The replay of a tenant with one line more.
  pub replay-snoc :
      (tenant : String) (book : List Raw) (raw : Raw) (lines : List Fields)
      → entry tenant raw ≡ ok lines
      → replay iso show_other tenant (book ++ raw ∷ [])
        ≡ (replay iso show_other tenant book >>= λ a. apply_all iso show_other a lines)
  unfolding replay
  replay-snoc tenant book raw lines h =
      rw (entries-snoc tenant book raw lines h) (after_entries (entries tenant book))
    where
      after_entries :
          (r : Outcome Error (List Fields))
          → ((r >>= λ xs. ok (xs ++ lines)) >>= apply_all iso show_other no_account) ≡ (
              (r >>= apply_all iso show_other no_account) >>= λ a. apply_all iso show_other a lines)
      after_entries (ok xs) = apply_all-append no_account xs lines
      after_entries (raised e) = refl

  -- A sealed line of a tenant takes its replay to the account that the writer folded.
  pub replay-sealed :
      (tenant kind : String) (rest : Fields) (book : List Raw) (line : Fields) (a : Account)
      → replay iso show_other tenant book ≡ ok a
      → has "totals" rest ≡ false
      → sealed iso show_other a (line_of kind tenant rest) ≡ ok line
      → (a' : Account) × (fold iso show_other a (line_of kind tenant rest) ≡ ok a')
        × (replay iso show_other tenant (book ++ some (Json.obj line) ∷ []) ≡ ok a')
  unfolding apply_all entry
  replay-sealed tenant kind rest book line a r bare s =
      let (a', f, made, applied) =
        apply-sealed iso show_other a (line_of kind tenant rest) line bare s in
      let own : entry tenant (some (Json.obj line)) ≡ ok (line ∷ []) =
        ground (arith, made, eq_iff tenant tenant) in
      (
        a',
        f,
        rw (replay-snoc tenant book (some (Json.obj line)) (line ∷ []) own, r, apply_all, applied),
      )

  -- A line that another tenant's replay passes over leaves that replay as it was, raising or not.
  pub replay_passes_over :
      (tenant : String) (book : List Raw) (raw : Raw)
      → entry tenant raw ≡ ok []
      → replay iso show_other tenant (book ++ raw ∷ []) ≡ replay iso show_other tenant book
  unfolding apply_all
  replay_passes_over tenant book raw h =
      replay-snoc tenant book raw [] h ∙ same (replay iso show_other tenant book)
    where
      same : (r : Outcome Error Account) → (r >>= λ a. apply_all iso show_other a []) ≡ r
      same (ok a) = refl
      same (raised e) = refl

  -- A sealed line of one tenant is passed over by every other.
  pub replay-sealed_other :
      (tenant other kind : String) (rest : Fields) (book : List Raw) (line : Fields) (a : Account)
      → has "totals" rest ≡ false
      → sealed iso show_other a (line_of kind tenant rest) ≡ ok line
      → other ≢ tenant
      → replay iso show_other other (book ++ some (Json.obj line) ∷ [])
        ≡ replay iso show_other other book
  unfolding entry
  replay-sealed_other tenant other kind rest book line a bare s differs =
      let (a', f, made, applied) =
        apply-sealed iso show_other a (line_of kind tenant rest) line bare s in
      replay_passes_over other book (some (Json.obj line))
        (ground (arith, made, eq_iff tenant other, differs))
