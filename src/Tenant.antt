-- ===== src/Tenant.antt =====
-- `TenantStore` of ephemora_cell/tenant.py: admission, settlement and expiry, each of which decides on the
-- replayed book and appends one line to it. An exception leaves the book alone.
pub mod Values
pub mod Book
pub mod Seal
pub mod Lines
pub mod Writers
pub mod Admissions
pub mod Admitted
pub mod Settlements
pub mod History
use ephemora_cell.Common.{
  ℕ, suc, ◌+◌, String, Bool, true, false, Option, none, some, List, [], ◌∷◌, ◌++◌, if◌then◌else◌,
  Outcome, ok, raised, ◌>>=◌, ◌>>◌, raise_if, length, not, text_key,
}
use Prim.Native.String.{◌++◌ as text_append}
use ephemora_cell.Common.Int.{ℤ, pos, leb_ℤ, pos_part}
use ephemora_cell.Common.Dict.{contains}
use ephemora_cell.Common.Json.{Json, Fields, end, field}
use ephemora_cell.Common.Moment.{Moment, Iso}
use ephemora_cell.Tenant.Values.{
  Charge, Budget, Dimension, fuel, output_bytes, wall_ms, runs, Error, bad_ttl, unknown_admission,
  plus, charge_dict, violation, tenant_id,
}
use ephemora_cell.Tenant.Book.{Raw, Account, active_open, reserved, sealed, replay}

-- `TenantUsage`, the fields that the decisions read.
pub record Usage : Type 0 where
  pub runs : ℕ
  pub charged : Charge
  pub reserved : Charge
  pub inflight : ℕ

-- `_Replay.usage` at a moment
unfoldable pub usage_of : Moment → Account → Outcome Error Usage
usage_of now a = do
  active ← active_open now a.reservations
  sum ← reserved active
  ok (record { runs = a.runs; charged = a.charged; reserved = sum; inflight = length active })

-- The two fields of a `TenantUsage` that `projected` sets.
pub record Balance : Type 0 where
  pub runs : ℕ
  pub charged : Charge

unfoldable pub projected : Usage → Outcome Error Balance
projected u = do
  charged ← plus u.charged u.reserved
  ok (record { runs = u.runs + u.inflight; charged = charged })

-- The account with this run in it.
unfoldable pub prospective : Charge → Balance → Outcome Error Balance
prospective reserve balance = do
  charged ← plus balance.charged reserve
  ok (record { runs = balance.runs + 1; charged = charged })

-- `budget.violation(…) if budget else None`
abbrev pub limit_of : Option Budget → Balance → Option Dimension
limit_of none b = none
limit_of (some budget) b = violation budget b.runs b.charged

abbrev pub dimension_text : Dimension → String
dimension_text fuel = "fuel"
dimension_text output_bytes = "output_bytes"
dimension_text wall_ms = "wall_ms"
dimension_text runs = "runs"

pub record Admission : Type 0 where
  pub allowed : Bool
  pub admit_id : Option String
  pub reserve : Option Charge
  pub projected : Balance
  pub limit : Option Dimension

-- A field that is left out where its value is `None`.
abbrev pub optional : String → Option Json → Fields → Fields
optional k none d = d
optional k (some v) d = field k v d

-- `True if flag else None`
abbrev pub flag : Bool → Option Json
flag true = some (Json.bool true)
flag false = none

-- `tenant_entry_version`, `kind` and `tenant`, with which each line begins.
abbrev pub line_of : String → String → Fields → Fields
line_of kind name rest =
    field "tenant_entry_version" (Json.str "v1")
      (field "kind" (Json.str kind) (field "tenant" (Json.str name) rest))

module _ (iso : Iso) where
  abbrev pub refuse_line : String → Moment → Dimension → Option Json → Fields
  refuse_line name now limit budget_ref = line_of "refuse" name (
      field "at" (Json.str (iso.stamp now)) (
        field "reason" (Json.str (text_append "budget exhausted: " (dimension_text limit)))
          (optional "budget_ref" budget_ref end)))

  abbrev pub admit_line : String → Moment → String → Moment → Charge → Option Json → Fields
  admit_line name now admit_id expires reserve budget_ref = line_of "admit" name (
      field "at" (Json.str (iso.stamp now)) (
        field "admit_id" (Json.str admit_id) (
          field "expires_at" (Json.str (iso.stamp expires))
            (field "charge" (charge_dict reserve) (optional "budget_ref" budget_ref end)))))

  abbrev pub settle_line : String → Moment → String → Charge → Bool → Bool → Fields
  settle_line name now admit_id charge violation unknown = line_of "settle" name (
      field "at" (Json.str (iso.stamp now)) (
        field "admit_id" (Json.str admit_id) (
          field "charge" (charge_dict charge)
            (optional "violation" (flag violation) (optional "unknown" (flag unknown) end)))))

  abbrev pub expire_line : String → Moment → String → Fields
  expire_line name now admit_id =
      line_of "expire" name
        (field "at" (Json.str (iso.stamp now)) (field "admit_id" (Json.str admit_id) end))

-- `budget.ref()` is a digest, so it is a parameter here.
module _ (iso : Iso) (show_other : Json → String) (ref : Budget → String) where
  abbrev pub ref_of : Option Budget → Option Json
  ref_of none = none
  ref_of (some b) = some (Json.str (ref b))

  -- The decision of `admit` by the limit that the run would pass, and its line.
  unfoldable pub conclude :
      String
      → Charge
      → Option Budget
      → ℤ
      → Moment
      → String
      → Account
      → Balance
      → Balance
      → Option Dimension
      → Outcome Error (Admission × Fields)
  conclude name reserve budget ttl now admit_id a balance after (some limit) = do
    line ← sealed iso show_other a (refuse_line iso name now limit (ref_of budget))
    ok (
      record {
        allowed = false;
        admit_id = none;
        reserve = none;
        projected = balance;
        limit = some limit;
      },
      line,
    )
  conclude name reserve budget ttl now admit_id a balance after none = do
    line ←
        sealed iso show_other a
          (admit_line iso name now admit_id (now + pos_part ttl) reserve (ref_of budget))
    ok (
      record {
        allowed = true;
        admit_id = some admit_id;
        reserve = some reserve;
        projected = after;
        limit = none;
      },
      line,
    )

  -- `decide` of `admit`, once the account is replayed.
  unfoldable pub decide :
      String
      → Charge
      → Option Budget
      → ℤ
      → Moment
      → String
      → Account
      → Outcome Error (Admission × Fields)
  decide name reserve budget ttl now admit_id a = do
    u ← usage_of now a
    balance ← projected u
    after ← prospective reserve balance
    conclude name reserve budget ttl now admit_id a balance after (limit_of budget after)

  abbrev pub appended : {A : Type 0} → List Raw → A × Fields → A × List Raw
  appended book (result, line) = (result, book ++ some (Json.obj line) ∷ [])

  -- `admit`, with the lifetime of the reservation in microseconds and the fresh id that it draws
  unfoldable pub admit :
      String
      → Charge
      → Option Budget
      → ℤ
      → Moment
      → String
      → List Raw
      → Outcome Error (Admission × List Raw)
  admit tenant reserve budget ttl now admit_id book = do
    name ← tenant_id tenant
    raise_if (leb_ℤ ttl (pos 0)) bad_ttl
    a ← replay iso show_other name book
    decided ← decide name reserve budget ttl now admit_id a
    ok (appended book decided)

  -- The line that `settle` and `expire` append for an open admission.
  abbrev pub book_line :
      (admit_id : String) → Fields → List Raw → Account → Outcome Error (Fields × List Raw)
  book_line admit_id draft book a = do
    raise_if (not (contains admit_id a.reservations)) unknown_admission
    line ← sealed iso show_other a draft
    ok (appended book (line, line))

  -- `settle`
  unfoldable pub settle :
      String → String → Charge → Bool → Bool → Moment → List Raw → Outcome Error (Fields × List Raw)
  settle tenant admit_id charge violation unknown now book = do
    name ← tenant_id tenant
    a ← replay iso show_other name book
    book_line admit_id (settle_line iso name now admit_id charge violation unknown) book a

  -- `expire`
  unfoldable pub expire : String → String → Moment → List Raw → Outcome Error (Fields × List Raw)
  expire tenant admit_id now book = do
    name ← tenant_id tenant
    a ← replay iso show_other name book
    book_line admit_id (expire_line iso name now admit_id) book a

  -- `usage`
  unfoldable pub usage : String → Moment → List Raw → Outcome Error Usage
  usage tenant now book = do
    name ← tenant_id tenant
    a ← replay iso show_other name book
    usage_of now a
