-- ===== src/Tenant/Book.antt =====
-- `_Replay` of ephemora_cell/tenant.py: the account that a tenant's lines fold into, and the totals that
-- each line must carry. A book is the list of its lines in file order; `none` is a line that is not
-- JSON. `show_other` stands for `str` of a value that is no text, which no writer produces here.
use ephemora_cell.Common.{
  ℕ, suc, String, Bool, true, not, Option, none, some, List, [], ◌∷◌, ◌++◌, ltb, if◌then◌else◌,
  Outcome, ok, raised, ◌>>=◌, ◌>>◌, raise_if, text_key,
}
use ephemora_cell.Common.Int.{ℤ, pos, negsuc, int_beq}
use ephemora_cell.Common.Dict.{Dict, insert, erase, contains}
use ephemora_cell.Common.Json.{
  Json, Fields, end, get, get_or, has, field, truthy, is_text, with_field,
}
use ephemora_cell.Common.Decimal.{int_of}
use ephemora_cell.Common.Moment.{Moment, Iso, Parsed, naive, aware}
use ephemora_cell.Tenant.Values.{
  Charge, Error, no_charge, from_line, plus, mapping_of, not_json, not_object, no_number,
  unknown_version, unknown_kind, missing_admit_id, unknown_admission, bad_stamp, edited,
  naive_expiry,
}

abbrev pub Raw : Type 0
Raw = Option Json

-- `admit_id -> (reserved charge, expires_at)`
abbrev pub Reservations : Type 0
Reservations = Dict String (Charge × Option Parsed)

pub record Account : Type 0 where
  pub runs : ℕ
  pub charged : Charge
  pub violations : ℕ
  pub refused : ℕ
  pub unknown : ℕ
  pub reservations : Reservations

abbrev pub no_account : Account
no_account = record {
  runs = 0;
  charged = no_charge;
  violations = 0;
  refused = 0;
  unknown = 0;
  reservations = [];
}

-- `expires is None or expires > self.now`; a naive moment cannot be compared.
abbrev pub is_active : Moment → Option Parsed → Outcome Error Bool
is_active now none = ok true
is_active now (some naive) = raised naive_expiry
is_active now (some (aware m)) = ok (ltb now m)

-- `active_open`, the charges in the order of the dict
unfoldable pub active_open : Moment → Reservations → Outcome Error (List Charge)
active_open now [] = ok []
active_open now ((id, (charge, expires)) ∷ rest) = do
  active ← is_active now expires
  charges ← active_open now rest
  ok (if active then charge ∷ charges else charges)

sum_charges : Charge → List Charge → Outcome Error Charge
sum_charges total [] = ok total
sum_charges total (c ∷ rest) = elim (plus total c) [
  | ok total' ↦ sum_charges total' rest
  | raised e ↦ raised e
]

-- `reserved` of the active charges
unfoldable pub reserved : List Charge → Outcome Error Charge
unfolding sum_charges
reserved charges = sum_charges no_charge charges

-- One more where the flag of the line is set.
abbrev pub count_if : Json → ℕ → ℕ
count_if v n = if truthy v then suc n else n

-- `totals`, as the values that a line carries under each key
unfoldable pub totals : Account → Json
totals a = Json.obj (
    field "runs" (Json.num (pos a.runs)) (
      field "fuel" (Json.num (pos a.charged.fuel)) (
        field "output_bytes" (Json.num (pos a.charged.output_bytes)) (
          field "wall_ms" (Json.num (pos a.charged.wall_ms)) (
            field "violations" (Json.num (pos a.violations)) (
              field "refused" (Json.num (pos a.refused))
                (field "unknown_charged_runs" (Json.num (pos a.unknown)) end)))))))

-- One round of the comparison of `apply`: `int(recorded.get(key, -1)) != value` raises.
abbrev pub agree_at : Option ℤ → ℕ → Outcome Error (Unit {0})
agree_at none value = raised no_number
agree_at (some n) value = if int_beq n (pos value) then ok tt else raised edited

unfoldable pub agree : Fields → Account → Outcome Error (Unit {0})
agree recorded a =
    agree_at (int_of (get_or "runs" (Json.num (negsuc 0)) recorded)) a.runs
    >> agree_at (int_of (get_or "fuel" (Json.num (negsuc 0)) recorded)) a.charged.fuel
    >> agree_at (int_of (get_or "output_bytes" (Json.num (negsuc 0)) recorded))
        a.charged.output_bytes
    >> agree_at (int_of (get_or "wall_ms" (Json.num (negsuc 0)) recorded)) a.charged.wall_ms
    >> agree_at (int_of (get_or "violations" (Json.num (negsuc 0)) recorded)) a.violations
    >> agree_at (int_of (get_or "refused" (Json.num (negsuc 0)) recorded)) a.refused
    >> agree_at (int_of (get_or "unknown_charged_runs" (Json.num (negsuc 0)) recorded)) a.unknown

-- One round of `entries` for a tenant: the lines of that tenant that are objects.
unfoldable pub entry : String → Raw → Outcome Error (List Fields)
entry tenant none = raised not_json
entry tenant (some (Json.obj line)) =
    ok (if is_text tenant (get "tenant" line) then line ∷ [] else [])
entry tenant (some v) = raised not_object

-- `entries(tenant)`
unfoldable pub entries : String → List Raw → Outcome Error (List Fields)
entries tenant [] = ok []
entries tenant (raw ∷ rest) = do
  lines ← entry tenant raw
  later ← entries tenant rest
  ok (lines ++ later)

module _ (iso : Iso) (show_other : Json → String) where
  -- `_parse_stamp`: an unreadable text counts as no expiry, and only texts can be read.
  unfoldable pub parse_stamp : Json → Outcome Error (Option Parsed)
  parse_stamp (Json.str s) = ok (if truthy (Json.str s) then iso.from_iso s else none)
  parse_stamp v = if truthy v then raised bad_stamp else ok none

  abbrev text_of : Json → String
  text_of (Json.str s) = s
  text_of v = show_other v

  -- `str(line["admit_id"])`
  unfoldable pub admit_id_of : Fields → Outcome Error String
  admit_id_of line =
      if has "admit_id" line then ok (text_of (get "admit_id" line)) else raised missing_admit_id

  unfoldable pub fold_admit : Account → Fields → Outcome Error Account
  fold_admit a line = do
    charge ← from_line (get "charge" line)
    expires ← parse_stamp (get "expires_at" line)
    admit_id ← admit_id_of line
    ok (record a { reservations = insert admit_id (charge, expires) a.reservations })

  unfoldable pub fold_settle : Account → Fields → Outcome Error Account
  fold_settle a line = do
    admit_id ← admit_id_of line
    raise_if (not (contains admit_id a.reservations)) unknown_admission
    charge ← from_line (get "charge" line)
    charged ← plus a.charged charge
    ok (record a {
      runs = suc a.runs;
      charged = charged;
      violations = count_if (get "violation" line) a.violations;
      unknown = count_if (get "unknown" line) a.unknown;
      reservations = erase admit_id a.reservations;
    })

  unfoldable pub fold_expire : Account → Fields → Outcome Error Account
  fold_expire a line = do
    admit_id ← admit_id_of line
    ok (record a { reservations = erase admit_id a.reservations })

  -- `fold`
  unfoldable pub fold : Account → Fields → Outcome Error Account
  fold a line =
      if not (is_text "v1" (get "tenant_entry_version" line))
      then raised unknown_version
      else if is_text "admit" (get "kind" line)
      then fold_admit a line
      else if is_text "settle" (get "kind" line)
      then fold_settle a line
      else if is_text "expire" (get "kind" line)
      then fold_expire a line
      else if is_text "refuse" (get "kind" line)
      then ok (record a { refused = suc a.refused })
      else raised unknown_kind

  -- `apply`: the line's own totals must be those of the account that it leads to.
  unfoldable pub apply : Account → Fields → Outcome Error Account
  apply a line = do
    a' ← fold a line
    recorded ← mapping_of (get "totals" line)
    agree recorded a'
    ok a'

  -- `sealed`: the line with the totals of the account that it leads to.
  unfoldable pub sealed : Account → Fields → Outcome Error Fields
  sealed a line = do a' ← fold a line; ok (with_field line "totals" (totals a'))

  unfoldable pub apply_all : Account → List Fields → Outcome Error Account
  apply_all a [] = ok a
  apply_all a (line ∷ rest) = elim (apply a line) [
    | ok a' ↦ apply_all a' rest
    | raised e ↦ raised e
  ]

  -- `_replay`
  unfoldable pub replay : String → List Raw → Outcome Error Account
  replay tenant book = entries tenant book >>= apply_all no_account
