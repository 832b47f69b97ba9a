-- ===== src/Tenant/History.antt =====
-- Histories of the tenant book: any operations in any order, from the empty book.
use ephemora_cell.Common.{
  ℕ, suc, ◌+◌, ◌≡◌, refl, ap, ◌∙◌, sym, String, Bool, false, Option, List, [], ◌∷◌, arith, ok,
  raised, Outcome-cases, inl, inr, if◌then◌else◌, eq_iff, str_eq, Bool-cases, text_key,
}
use ephemora_cell.Common.Int.{ℤ}
use ephemora_cell.Common.Json.{Json}
use ephemora_cell.Common.Moment.{Moment, Iso}
use ephemora_cell.Tenant.Values.{Charge, Budget}
use ephemora_cell.Tenant.Values.Bounds.{IsSafe}
use ephemora_cell.Tenant.Book.{Raw, Account, no_account, entries, apply_all, replay}
use ephemora_cell.Tenant.{admit, settle, expire}
use ephemora_cell.Tenant.Lines.{settled, released}
use ephemora_cell.Tenant.Admitted.{admit-replay, decided}
use ephemora_cell.Tenant.Settlements.{settle-replay, expire-replay}

-- What the book of tenants is asked for; each charge is one that `Charge` constructs.
pub data Op : Type 0 where
  admission :
      String → (reserve : Charge) → IsSafe reserve → Option Budget → ℤ → Moment → String → Op
  settlement : String → String → (charge : Charge) → IsSafe charge → Bool → Bool → Moment → Op
  expiry : String → String → Moment → Op

-- Whether an operation settled a run of the tenant.
pub data Event : Type 0 where
  ran : String → Event
  other_event : Event

abbrev pub ran_for : String → Event → Bool
ran_for tenant (ran name) = str_eq name tenant
ran_for tenant other_event = false

module _ (iso : Iso) (show_other : Json → String) (ref : Budget → String) where
  -- One operation: what it settled, and the book it leaves.
  unfoldable pub perform : Op → List Raw → Event × List Raw
  perform (admission tenant reserve safe budget ttl now id) book =
      elim (admit iso show_other ref tenant reserve budget ttl now id book) [
        | ok (d, book') ↦ (other_event, book')
        | raised e ↦ (other_event, book)
      ]
  perform (settlement tenant id charge safe violation unknown now) book =
      elim (settle iso show_other ref tenant id charge violation unknown now book) [
        | ok (line, book') ↦ (ran tenant, book')
        | raised e ↦ (other_event, book)
      ]
  perform (expiry tenant id now) book = elim (expire iso show_other ref tenant id now book) [
    | ok (line, book') ↦ (other_event, book')
    | raised e ↦ (other_event, book)
  ]

  unfoldable pub history : List Op → List Raw → List Raw
  history [] book = book
  history (op ∷ ops) book = history ops (perform op book).1

  -- The runs of a tenant that a history settles.
  unfoldable pub runs_settled : String → List Op → List Raw → ℕ
  runs_settled tenant [] book = 0
  runs_settled tenant (op ∷ ops) book =
      let rest = runs_settled tenant ops (perform op book).1 in
      if ran_for tenant (perform op book).0 then suc rest else rest

  -- One operation on a book whose replay for a tenant succeeds: it goes on succeeding, and the runs
  -- rise by one exactly at a settlement of the tenant.
  record Advance (tenant : String) (a : Account) (op : Op) (book : List Raw) : Type 0 where
    next : Account
    replays : replay iso show_other tenant (perform op book).1 ≡ ok next
    runs : next.runs ≡ (if ran_for tenant (perform op book).0 then suc a.runs else a.runs)

  Advance-admission :
      (tenant : String) (a : Account) (name : String) (reserve : Charge) (safe : IsSafe reserve)
      (budget : Option Budget) (ttl : ℤ) (now : Moment) (id : String) (book : List Raw)
      → replay iso show_other tenant book ≡ ok a
      → Advance tenant a (admission name reserve safe budget ttl now id) book
  unfolding perform
  Advance-admission tenant a name reserve safe budget ttl now id book r =
      elim (Outcome-cases (admit iso show_other ref name reserve budget ttl now id book)) [
        | inr (e, h) ↦ record { next = a; replays = rw (h, perform) r; runs = ground (arith, h) }
        | inl ((d, book'), h) ↦
            let (own, others) =
              admit-replay iso show_other ref name reserve budget ttl now id book d book' safe h in
            elim (Bool-cases (str_eq name tenant)) [
              | inl same ↦
                  let e : name ≡ tenant = (eq_iff name tenant).0 same in
                  let s : own.0 ≡ a = cc (own.1, r, e) in
                  record {
                    next = decided iso show_other ref id reserve ttl now d a;
                    replays =
                        rw (h, perform, sym e)
                          (own.2
                            ∙ ap (λ t. ok (decided iso show_other ref id reserve ttl now d t)) s);
                    runs = ground (arith, h);
                  }
              | inr different ↦ record {
                next = a;
                replays =
                    rw (h, perform)
                      (others tenant (λ q. ground (arith, q, different, eq_iff name tenant)) ∙ r);
                runs = ground (arith, h);
              }
            ]
      ]

  Advance-settlement :
      (tenant : String) (a : Account) (name id : String) (charge : Charge) (safe : IsSafe charge)
      (violation unknown : Bool) (now : Moment) (book : List Raw)
      → replay iso show_other tenant book ≡ ok a
      → Advance tenant a (settlement name id charge safe violation unknown now) book
  unfolding perform
  Advance-settlement tenant a name id charge safe violation unknown now book r =
      elim (Outcome-cases (settle iso show_other ref name id charge violation unknown now book)) [
        | inr (e, h) ↦ record { next = a; replays = rw (h, perform) r; runs = ground (arith, h) }
        | inl ((line, book'), h) ↦
            let ((b, charged, before, found, sum, later), others) =
              settle-replay iso show_other ref name id charge violation unknown now book line book'
                safe h in
            elim (Bool-cases (str_eq name tenant)) [
              | inl same ↦
                  let e : name ≡ tenant = (eq_iff name tenant).0 same in
                  let s : b ≡ a = cc (before, r, e) in
                  record {
                    next = settled b id charged violation unknown;
                    replays = rw (h, perform, sym e) later;
                    runs = ground (arith, h, same, s);
                  }
              | inr different ↦ record {
                next = a;
                replays =
                    rw (h, perform)
                      (others tenant (λ q. ground (arith, q, different, eq_iff name tenant)) ∙ r);
                runs = ground (arith, h, different);
              }
            ]
      ]

  Advance-expiry :
      (tenant : String) (a : Account) (name id : String) (now : Moment) (book : List Raw)
      → replay iso show_other tenant book ≡ ok a
      → Advance tenant a (expiry name id now) book
  unfolding perform
  Advance-expiry tenant a name id now book r =
      elim (Outcome-cases (expire iso show_other ref name id now book)) [
        | inr (e, h) ↦ record { next = a; replays = rw (h, perform) r; runs = ground (arith, h) }
        | inl ((line, book'), h) ↦
            let ((b, before, found, later), others) =
              expire-replay iso show_other ref name id now book line book' h in
            elim (Bool-cases (str_eq name tenant)) [
              | inl same ↦
                  let e : name ≡ tenant = (eq_iff name tenant).0 same in
                  let s : b ≡ a = cc (before, r, e) in
                  record {
                    next = released b id;
                    replays = rw (h, perform, sym e) later;
                    runs = ground (arith, h, s);
                  }
              | inr different ↦ record {
                next = a;
                replays =
                    rw (h, perform)
                      (others tenant (λ q. ground (arith, q, different, eq_iff name tenant)) ∙ r);
                runs = ground (arith, h);
              }
            ]
      ]

  advance :
      (tenant : String) (a : Account) (op : Op) (book : List Raw)
      → replay iso show_other tenant book ≡ ok a
      → Advance tenant a op book
  advance tenant a (admission name reserve safe budget ttl now id) book r =
      Advance-admission tenant a name reserve safe budget ttl now id book r
  advance tenant a (settlement name id charge safe violation unknown now) book r =
      Advance-settlement tenant a name id charge safe violation unknown now book r
  advance tenant a (expiry name id now) book r = Advance-expiry tenant a name id now book r

  history_reaches :
      (tenant : String) (a : Account) (ops : List Op) (book : List Raw)
      → replay iso show_other tenant book ≡ ok a
      → (last : Account) × (replay iso show_other tenant (history ops book) ≡ ok last)
        × (last.runs ≡ a.runs + runs_settled tenant ops book)
  unfolding history runs_settled
  history_reaches tenant a [] book r = (a, r, omega arith)
  history_reaches tenant a (op ∷ ops) book r =
      let step = advance tenant a op book r in
      let (last, replays, runs) =
        history_reaches tenant step.next ops (perform op book).1 step.replays in
      (last, replays, ground (arith, step.runs, runs))

  -- Whatever is asked of a book of tenants that starts empty, the replay of every tenant succeeds, so
  -- that every line's totals agree with it, and its runs are those that were settled for the tenant.
  pub tenant_history-replay :
      (tenant : String) (ops : List Op)
      → (a : Account) × (replay iso show_other tenant (history ops []) ≡ ok a)
        × (a.runs ≡ runs_settled tenant ops [])
  tenant_history-replay tenant ops =
      let (a, r, runs) =
        history_reaches tenant no_account ops [] (unfold replay entries apply_all in refl) in
      (a, r, omega (arith, runs))
