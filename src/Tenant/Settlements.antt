-- ===== src/Tenant/Settlements.antt =====
-- What a settlement and an expiry leave in the book.
use ephemora_cell.Common.{
  ◌≡◌, ◌≢◌, refl, ap, ◌∙◌, sym, String, Bool, true, false, some, List, [], ◌∷◌, ◌++◌, arith, ok,
  ◌>>=◌, Outcome-cases, Bool-cases, inl, inr, text_key,
}
use ephemora_cell.Common.Dict.{contains}
use ephemora_cell.Common.Json.{Json, Fields, end, has}
use ephemora_cell.Common.Moment.{Moment, Iso}
use ephemora_cell.Tenant.Values.{Charge, Budget, plus, tenant_id, tenant_id_same}
use ephemora_cell.Tenant.Values.Bounds.{IsSafe}
use ephemora_cell.Tenant.Book.{Raw, Account, replay, sealed}
use ephemora_cell.Tenant.{optional, flag, settle_line, expire_line, book_line, settle, expire}
use ephemora_cell.Tenant.Lines.{
  settled, released, fold-settle_line, fold-settle_line_raised, fold-expire_line,
}
use ephemora_cell.Tenant.Writers.{replay-sealed, replay-sealed_other}

bare_flags :
    (violation unknown : Bool)
    → has "totals" (optional "violation" (flag violation) (optional "unknown" (flag unknown) end))
      ≡ false
bare_flags true true = refl
bare_flags true false = refl
bare_flags false true = refl
bare_flags false false = refl

module _ (iso : Iso) (show_other : Json → String) (ref : Budget → String) where
  -- How a settlement or an expiry that returns came about.
  pub record Booked (tenant id : String) (draft : Fields) (book : List Raw) (line : Fields)
      (book' : List Raw) : Type 0 where
    pub a : Account
    pub replays : replay iso show_other tenant book ≡ ok a
    pub found : contains id a.reservations ≡ true
    pub seals : sealed iso show_other a draft ≡ ok line
    pub appends : book' ≡ book ++ some (Json.obj line) ∷ []

  book_line-Booked :
      (tenant id : String) (draft : Fields) (book : List Raw) (line : Fields) (book' : List Raw)
      → (replay iso show_other tenant book >>= book_line iso show_other ref id draft book)
        ≡ ok (line, book')
      → Booked tenant id draft book line book'
  book_line-Booked tenant id draft book line book' h =
      elim (Outcome-cases (replay iso show_other tenant book)) [
        | inr (t, e) ↦ ground (arith, e)
        | inl (a, e) ↦ elim (Bool-cases (contains id a.reservations)) [
          | inr f ↦ ground (arith, e, f)
          | inl f ↦ elim (Outcome-cases (sealed iso show_other a draft)) [
            | inr (t, g) ↦ ground (arith, e, f, g)
            | inl (l, g) ↦
                let same : l ≡ line = ground (arith, e, f, g) in
                record {
                  a = a;
                  replays = e;
                  found = f;
                  seals = rw same at g;
                  appends = ground (arith, e, f, g);
                }
          ]
        ]
      ]

  pub settle-Booked :
      (tenant id : String) (charge : Charge) (violation unknown : Bool) (now : Moment)
      (book : List Raw) (line : Fields) (book' : List Raw)
      → settle iso show_other ref tenant id charge violation unknown now book ≡ ok (line, book')
      → Booked tenant id (settle_line iso tenant now id charge violation unknown) book line book'
  unfolding settle
  settle-Booked tenant id charge violation unknown now book line book' h =
      elim (Outcome-cases (tenant_id tenant)) [
        | inr (t, e) ↦ ground (arith, e)
        | inl (name, e) ↦
            book_line-Booked tenant id (settle_line iso tenant now id charge violation unknown) book
              line book' (rw (e, tenant_id_same tenant name e) at h)
      ]

  pub expire-Booked :
      (tenant id : String) (now : Moment) (book : List Raw) (line : Fields) (book' : List Raw)
      → expire iso show_other ref tenant id now book ≡ ok (line, book')
      → Booked tenant id (expire_line iso tenant now id) book line book'
  unfolding expire
  expire-Booked tenant id now book line book' h = elim (Outcome-cases (tenant_id tenant)) [
    | inr (t, e) ↦ ground (arith, e)
    | inl (name, e) ↦
        book_line-Booked tenant id (expire_line iso tenant now id) book line book'
          (rw (e, tenant_id_same tenant name e) at h)
  ]

  -- A settlement that returns, of a charge within the safe integers, found the admission open, and
  -- leaves a book whose replay for its tenant has one run more, the old charges plus this one, the
  -- flags counted and the reservation gone; every other tenant's replay is what it was.
  pub settle-replay :
      (tenant id : String) (charge : Charge) (violation unknown : Bool) (now : Moment)
      (book : List Raw) (line : Fields) (book' : List Raw)
      → IsSafe charge
      → settle iso show_other ref tenant id charge violation unknown now book ≡ ok (line, book')
      → ((a : Account) × (charged : Charge) × (replay iso show_other tenant book ≡ ok a)
          × (contains id a.reservations ≡ true)
          × (plus a.charged charge ≡ ok charged)
          × (replay iso show_other tenant book' ≡ ok (settled a id charged violation unknown)))
        × ((other : String)
            → other ≢ tenant
            → replay iso show_other other book' ≡ replay iso show_other other book)
  settle-replay tenant id charge violation unknown now book line book' safe h =
      let b = settle-Booked tenant id charge violation unknown now book line book' h in
      let bare = bare_flags violation unknown in
      let (a', f, t) =
        replay-sealed iso show_other tenant "settle" _ book line b.a b.replays bare b.seals in
      elim (Outcome-cases (plus b.a.charged charge)) [
        | inl (charged, p) ↦
            let g =
              fold-settle_line iso show_other b.a tenant now id charge charged violation unknown
                safe b.found p in
            (
              (
                b.a,
                charged,
                b.replays,
                b.found,
                p,
                ap (replay iso show_other tenant) b.appends ∙ t ∙ sym f ∙ g,
              ),
              λ other e.
                  ap (replay iso show_other other) b.appends
                  ∙ replay-sealed_other iso show_other tenant other "settle" _ book line b.a bare
                      b.seals e,
            )
        | inr (x, p) ↦
            let g =
              fold-settle_line_raised iso show_other b.a tenant now id charge x violation unknown
                safe b.found p in
            let impossible = sym f ∙ g in cc (impossible)
      ]

  -- An expiry that returns found the admission open, and leaves a book whose replay for its tenant only
  -- has the reservation gone; every other tenant's replay is what it was.
  pub expire-replay :
      (tenant id : String) (now : Moment) (book : List Raw) (line : Fields) (book' : List Raw)
      → expire iso show_other ref tenant id now book ≡ ok (line, book')
      → ((a : Account) × (replay iso show_other tenant book ≡ ok a)
          × (contains id a.reservations ≡ true)
          × (replay iso show_other tenant book' ≡ ok (released a id)))
        × ((other : String)
            → other ≢ tenant
            → replay iso show_other other book' ≡ replay iso show_other other book)
  expire-replay tenant id now book line book' h =
      let b = expire-Booked tenant id now book line book' h in
      let (a', f, t) =
        replay-sealed iso show_other tenant "expire" _ book line b.a b.replays refl b.seals in
      let g = fold-expire_line iso show_other b.a tenant now id in
      (
        (b.a, b.replays, b.found, ap (replay iso show_other tenant) b.appends ∙ t ∙ sym f ∙ g),
        λ other e.
            ap (replay iso show_other other) b.appends
            ∙ replay-sealed_other iso show_other tenant other "expire" _ book line b.a refl b.seals
                e,
      )
