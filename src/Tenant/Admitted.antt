-- ===== src/Tenant/Admitted.antt =====
-- What an admission leaves in the book: its own tenant's replay goes on as it decided, and no other
-- tenant's replay changes.
use ephemora_cell.Common.{
  suc, ◌+◌, ◌≡◌, ◌≢◌, ◌↔◌, refl, ap, ◌∙◌, sym, String, true, false, Option, none, some, List, [],
  ◌∷◌, ◌++◌, arith, ok, ◌>>=◌, Outcome-cases, Bool-cases, inl, inr, if◌then◌else◌, text_key,
}
use ephemora_cell.Common.Int.{ℤ, pos, leb_ℤ, pos_part}
use ephemora_cell.Common.Json.{Json, Fields, end, has}
use ephemora_cell.Common.Moment.{Moment, Iso}
use ephemora_cell.Tenant.Values.{Charge, Budget, Dimension, tenant_id, tenant_id_same}
use ephemora_cell.Tenant.Values.Bounds.{IsSafe}
use ephemora_cell.Tenant.Book.{Raw, Account, replay}
use ephemora_cell.Tenant.{
  Usage, Balance, Admission, usage_of, projected, prospective, limit_of, decide, admit, ref_of,
  appended, optional,
}
use ephemora_cell.Tenant.Lines.{reserving, fold-refuse_line, fold-admit_line}
use ephemora_cell.Tenant.Writers.{replay-sealed, replay-sealed_other}
use ephemora_cell.Tenant.Admissions.{FitsIn, limit-Fits, Verdict, Decided, decide-Decided}

module _ (iso : Iso) (show_other : Json → String) (ref : Budget → String) where
  -- How an admission that returns came about.
  pub record Admitted (tenant : String) (reserve : Charge) (budget : Option Budget) (ttl : ℤ)
      (now : Moment) (id : String) (book : List Raw) (d : Admission) (book' : List Raw)
      : Type 0 where
    pub a : Account
    pub line : Fields
    pub replays : replay iso show_other tenant book ≡ ok a
    pub decides : Decided iso show_other ref tenant reserve budget ttl now id a d line
    pub appends : book' ≡ book ++ some (Json.obj line) ∷ []

  pub admit-Admitted :
      (tenant : String) (reserve : Charge) (budget : Option Budget) (ttl : ℤ) (now : Moment)
      (id : String) (book : List Raw) (d : Admission) (book' : List Raw)
      → admit iso show_other ref tenant reserve budget ttl now id book ≡ ok (d, book')
      → Admitted tenant reserve budget ttl now id book d book'
  unfolding admit
  admit-Admitted tenant reserve budget ttl now id book d book' h =
      elim (Outcome-cases (tenant_id tenant)) [
        | inr (t, e) ↦ ground (arith, e)
        | inl (name, e) ↦ elim (Bool-cases (leb_ℤ ttl (pos 0))) [
          | inl f ↦ ground (arith, e, f)
          | inr f ↦
              let h' : (replay iso show_other tenant book >>= λ a.
              decide iso show_other ref tenant reserve budget ttl now id a >>= λ r.
              ok (appended iso show_other ref book r))
                  ≡ ok (d, book') =
                rw (e, f, tenant_id_same tenant name e) at h in
              elim (Outcome-cases (replay iso show_other tenant book)) [
                | inr (t, g) ↦ ground (arith, g, h')
                | inl (a, g) ↦
                    elim (Outcome-cases
                      (decide iso show_other ref tenant reserve budget ttl now id a)) [
                        | inr (t, k) ↦ ground (arith, g, k, h')
                        | inl ((d', line), k) ↦
                            let same : d' ≡ d = ground (arith, g, k, h') in
                            record {
                              a = a;
                              line = line;
                              replays = g;
                              decides =
                                  decide-Decided iso show_other ref tenant reserve budget ttl now id
                                    a d line (rw same at k);
                              appends = ground (arith, g, k, h');
                            }
                      ]
              ]
        ]
      ]

  Verdict-allows :
      (name : String) (reserve : Charge) (budget : Option Budget) (ttl : ℤ) (now : Moment)
      (id : String) (a : Account) (limit : Option Dimension) (d : Admission) (line : Fields)
      → Verdict iso show_other ref name reserve budget ttl now id a limit d line
      → (d.allowed ≡ true) ↔ (limit ≡ none)
  Verdict-allows name reserve budget ttl now id a none d line v = (λ e. refl, λ e. v.0)
  Verdict-allows name reserve budget ttl now id a (some x) d line v =
      (λ e. ground (arith, v), λ e. cc)

  limit_of-FitsIn :
      (u : Usage) (reserve : Charge) (budget : Option Budget) (balance after : Balance)
      → projected u ≡ ok balance
      → prospective reserve balance ≡ ok after
      → (limit_of budget after ≡ none) ↔ FitsIn u reserve budget
  limit_of-FitsIn u reserve none balance after h k = (λ e. tt, λ e. refl)
  limit_of-FitsIn u reserve (some b) balance after h k = limit-Fits u reserve b balance after h k

  -- An admission that returns was allowed exactly when its reserve, with everything that the tenant's
  -- replayed account has settled and has reserved at that moment, is within each cap of the budget.
  pub admit_allows_iff :
      (tenant : String) (reserve : Charge) (budget : Option Budget) (ttl : ℤ) (now : Moment)
      (id : String) (book : List Raw) (d : Admission) (book' : List Raw)
      → admit iso show_other ref tenant reserve budget ttl now id book ≡ ok (d, book')
      → (a : Account) × (u : Usage) × (replay iso show_other tenant book ≡ ok a)
        × (usage_of now a ≡ ok u)
        × ((d.allowed ≡ true) ↔ FitsIn u reserve budget)
  admit_allows_iff tenant reserve budget ttl now id book d book' h =
      let r = admit-Admitted tenant reserve budget ttl now id book d book' h in
      let c = r.decides in
      let v =
        Verdict-allows tenant reserve budget ttl now id r.a (limit_of budget c.after) d r.line
          c.verdict in
      let f = limit_of-FitsIn c.u reserve budget c.balance c.after c.projects c.extends in
      (r.a, c.u, r.replays, c.reads, (λ p. f.0 (v.0 p), λ q. v.1 (f.1 q)))

  -- The account after a decision: an allowed admission reserves, until its lifetime is over, and a
  -- refused one counts.
  abbrev pub decided : String → Charge → ℤ → Moment → Admission → Account → Account
  decided id reserve ttl now d a =
      if d.allowed
      then reserving a id reserve (now + pos_part ttl)
      else record a { refused = suc a.refused }

  bare_ref :
      (budget : Option Budget)
      → has "totals" (optional "budget_ref" (ref_of iso show_other ref budget) end) ≡ false
  bare_ref none = refl
  bare_ref (some b) = refl

  decided_replays :
      (tenant : String) (reserve : Charge) (budget : Option Budget) (ttl : ℤ) (now : Moment)
      (id : String) (book : List Raw) (a : Account) (limit : Option Dimension) (d : Admission)
      (line : Fields)
      → IsSafe reserve
      → replay iso show_other tenant book ≡ ok a
      → Verdict iso show_other ref tenant reserve budget ttl now id a limit d line
      → (replay iso show_other tenant (book ++ some (Json.obj line) ∷ [])
          ≡ ok (decided id reserve ttl now d a))
        × ((other : String)
            → other ≢ tenant
            → replay iso show_other other (book ++ some (Json.obj line) ∷ [])
              ≡ replay iso show_other other book)
  decided_replays tenant reserve budget ttl now id book a none d line safe r v =
      let refs = ref_of iso show_other ref budget in
      let (a', f, t) =
        replay-sealed iso show_other tenant "admit" _ book line a r (bare_ref budget) v.1 in
      let g =
        fold-admit_line iso show_other a tenant now id (now + pos_part ttl) reserve refs safe in
      (
        rw v.0 (t ∙ sym f ∙ g),
        λ other e.
            replay-sealed_other iso show_other tenant other "admit" _ book line a (bare_ref budget)
              v.1 e,
      )
  decided_replays tenant reserve budget ttl now id book a (some limit) d line safe r v =
      let refs = ref_of iso show_other ref budget in
      let (a', f, t) =
        replay-sealed iso show_other tenant "refuse" _ book line a r (bare_ref budget) v.1 in
      let g = fold-refuse_line iso show_other a tenant now limit refs in
      (
        rw v.0 (t ∙ sym f ∙ g),
        λ other e.
            replay-sealed_other iso show_other tenant other "refuse" _ book line a (bare_ref budget)
              v.1 e,
      )

  -- An admission that returns, of a reserve within the safe integers, leaves a book whose replay for
  -- its tenant is the account with this run reserved if it was allowed, and with one refusal more
  -- if not; every other tenant's replay is what it was.
  pub admit-replay :
      (tenant : String) (reserve : Charge) (budget : Option Budget) (ttl : ℤ) (now : Moment)
      (id : String) (book : List Raw) (d : Admission) (book' : List Raw)
      → IsSafe reserve
      → admit iso show_other ref tenant reserve budget ttl now id book ≡ ok (d, book')
      → ((a : Account) × (replay iso show_other tenant book ≡ ok a)
          × (replay iso show_other tenant book' ≡ ok (decided id reserve ttl now d a)))
        × ((other : String)
            → other ≢ tenant
            → replay iso show_other other book' ≡ replay iso show_other other book)
  admit-replay tenant reserve budget ttl now id book d book' safe h =
      let r = admit-Admitted tenant reserve budget ttl now id book d book' h in
      let (own, others) =
        decided_replays tenant reserve budget ttl now id book r.a (limit_of budget r.decides.after)
          d r.line safe r.replays r.decides.verdict in
      (
        (r.a, r.replays, ap (replay iso show_other tenant) r.appends ∙ own),
        λ other e. ap (replay iso show_other other) r.appends ∙ others other e,
      )
