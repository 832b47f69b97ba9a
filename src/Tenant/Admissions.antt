-- ===== src/Tenant/Admissions.antt =====
-- What an admission decides.
use ephemora_cell.Common.{
  ℕ, ◌+◌, ◌≤◌, ◌≡◌, ◌↔◌, String, true, false, Option, none, some, arith, ok, Outcome-cases, inl,
  inr, text_key,
}
use ephemora_cell.Common.Int.{ℤ, pos_part}
use ephemora_cell.Common.Json.{Json, Fields}
use ephemora_cell.Common.Moment.{Moment, Iso}
use ephemora_cell.Tenant.Values.{Charge, Budget, Dimension, plus, violation}
use ephemora_cell.Tenant.Values.Bounds.{plus_adds}
use ephemora_cell.Tenant.Book.{Account, sealed}
use ephemora_cell.Tenant.{
  Usage, Balance, Admission, usage_of, projected, prospective, limit_of, conclude, decide,
  refuse_line, admit_line, ref_of,
}

abbrev pub AtMost : ℕ → Option ℕ → Type 0
AtMost value none = Unit
AtMost value (some cap) = value ≤ cap

-- The account with everything that is settled, that is reserved and that this run reserves is within
-- each cap.
pub record Fits (u : Usage) (reserve : Charge) (b : Budget) : Type 0 where
  pub fuel : AtMost (u.charged.fuel + u.reserved.fuel + reserve.fuel) b.max_total_fuel
  pub output_bytes :
      AtMost
        (u.charged.output_bytes + u.reserved.output_bytes + reserve.output_bytes)
        b.max_total_output_bytes
  pub wall_ms :
      AtMost (u.charged.wall_ms + u.reserved.wall_ms + reserve.wall_ms) b.max_total_wall_ms
  pub runs : AtMost (u.runs + u.inflight + 1) b.max_runs

-- No budget is no limit.
abbrev pub FitsIn : Usage → Charge → Option Budget → Type 0
FitsIn u reserve none = Unit
FitsIn u reserve (some b) = Fits u reserve b

-- The sums that `admit` compares with the caps.
sums :
    (u : Usage) (reserve : Charge) (balance after : Balance)
    → projected u ≡ ok balance
    → prospective reserve balance ≡ ok after
    → (after.runs ≡ u.runs + u.inflight + 1)
      × (after.charged.fuel ≡ u.charged.fuel + u.reserved.fuel + reserve.fuel)
      × (after.charged.output_bytes
          ≡ u.charged.output_bytes + u.reserved.output_bytes + reserve.output_bytes)
      × (after.charged.wall_ms ≡ u.charged.wall_ms + u.reserved.wall_ms + reserve.wall_ms)
unfolding projected prospective
sums u reserve balance after h k = elim (Outcome-cases (plus u.charged u.reserved)) [
  | inr (t, e) ↦ ground (arith, e)
  | inl (c, e) ↦ elim (Outcome-cases (plus balance.charged reserve)) [
    | inr (t, g) ↦ ground (arith, g)
    | inl (d, g) ↦
        let p : balance ≡ record { runs = u.runs + u.inflight; charged = c } = ground (arith, e) in
        let q : after ≡ record { runs = balance.runs + 1; charged = d } = ground (arith, g) in
        ground
          (arith, p, q, plus_adds u.charged u.reserved c e, plus_adds balance.charged reserve d g)
  ]
]

pub limit-Fits :
    (u : Usage) (reserve : Charge) (b : Budget) (balance after : Balance)
    → projected u ≡ ok balance
    → prospective reserve balance ≡ ok after
    → (violation b after.runs after.charged ≡ none) ↔ Fits u reserve b
unfolding violation
limit-Fits u reserve b balance after h k =
    let s = sums u reserve balance after h k in
    (λ e. ground (arith, s, e), λ f. ground (arith, s, f))

module _ (iso : Iso) (show_other : Json → String) (ref : Budget → String) where
  abbrev pub Verdict :
      String
      → Charge
      → Option Budget
      → ℤ
      → Moment
      → String
      → Account
      → Option Dimension
      → Admission
      → Fields
      → Type 0
  Verdict name reserve budget ttl now id a none d line =
      (d.allowed ≡ true)
      × (sealed iso show_other a (
            admit_line iso name now id (now + pos_part ttl) reserve
              (ref_of iso show_other ref budget))
          ≡ ok line)
  Verdict name reserve budget ttl now id a (some limit) d line =
      (d.allowed ≡ false)
      × (sealed iso show_other a (refuse_line iso name now limit (ref_of iso show_other ref budget))
          ≡ ok line)

  conclude-Verdict :
      (name : String) (reserve : Charge) (budget : Option Budget) (ttl : ℤ) (now : Moment)
      (id : String) (a : Account) (balance after : Balance) (limit : Option Dimension)
      (d : Admission) (line : Fields)
      → conclude iso show_other ref name reserve budget ttl now id a balance after limit
        ≡ ok (d, line)
      → Verdict name reserve budget ttl now id a limit d line
  unfolding conclude
  conclude-Verdict name reserve budget ttl now id a balance after none d line h =
      elim (Outcome-cases (
        sealed iso show_other a (
          admit_line iso name now id (now + pos_part ttl) reserve
            (ref_of iso show_other ref budget)))) [
              | inr (t, e) ↦ ground (arith, e)
              | inl (l, e) ↦ (ground (arith, e), ground (arith, e))
            ]
  conclude-Verdict name reserve budget ttl now id a balance after (some limit) d line h =
      elim (Outcome-cases (
        sealed iso show_other a
          (refuse_line iso name now limit (ref_of iso show_other ref budget)))) [
            | inr (t, e) ↦ ground (arith, e)
            | inl (l, e) ↦ (ground (arith, e), ground (arith, e))
          ]

  -- How a decision on an account came about.
  pub record Decided (name : String) (reserve : Charge) (budget : Option Budget) (ttl : ℤ)
      (now : Moment) (id : String) (a : Account) (d : Admission) (line : Fields) : Type 0 where
    pub u : Usage
    pub balance : Balance
    pub after : Balance
    pub reads : usage_of now a ≡ ok u
    pub projects : projected u ≡ ok balance
    pub extends : prospective reserve balance ≡ ok after
    pub verdict : Verdict name reserve budget ttl now id a (limit_of budget after) d line

  pub decide-Decided :
      (name : String) (reserve : Charge) (budget : Option Budget) (ttl : ℤ) (now : Moment)
      (id : String) (a : Account) (d : Admission) (line : Fields)
      → decide iso show_other ref name reserve budget ttl now id a ≡ ok (d, line)
      → Decided name reserve budget ttl now id a d line
  unfolding decide
  decide-Decided name reserve budget ttl now id a d line h = elim (Outcome-cases (usage_of now a)) [
    | inr (t, e) ↦ ground (arith, e)
    | inl (u, e) ↦ elim (Outcome-cases (projected u)) [
      | inr (t, f) ↦ ground (arith, e, f)
      | inl (balance, f) ↦ elim (Outcome-cases (prospective reserve balance)) [
        | inr (t, g) ↦ ground (arith, e, f, g)
        | inl (after, g) ↦ record {
          u = u;
          balance = balance;
          after = after;
          reads = e;
          projects = f;
          extends = g;
          verdict =
              conclude-Verdict name reserve budget ttl now id a balance after
                (limit_of budget after) d line (rw (e, f, g) at h);
        }
      ]
    ]
  ]
