-- ===== src/Tenant/Values.antt =====
-- `Charge`, `CumulativeBudget` and `TenantId` of ephemora_cell/tenant.py: the values of the tenant book
-- and the checks of their constructors.
pub mod Bounds
use ephemora_cell.Common.{
  ℕ, ◌+◌, ◌-◌, ◌^◌, String, Bool, true, false, ◌&&◌, ◌||◌, not, Option, none, some, List, [], ◌∷◌,
  ltb, leb, nat_beq, if◌then◌else◌, Outcome, ok, raised, ◌>>=◌, ◌>>◌, raise_if, length, str_eq, ◌≡◌,
}
use ephemora_cell.Common.Int.{ℤ, pos, pos_part, ltb_ℤ, leb_ℤ}
use ephemora_cell.Common.Json.{Json, Fields, end, get, get_or, field, truthy, object?}
use ephemora_cell.Common.Decimal.{codes, int_of, is_space}

-- What the book's functions raise.
pub data Error : Type 0 where
  -- of a charge or a cap
  negative unsafe not_positive bad_window : Error
  -- of a tenant id
  bad_length padded bad_characters : Error
  -- of a line
  not_json not_object no_number unknown_version unknown_kind missing_admit_id unknown_admission
        bad_stamp edited :
      Error
  -- of a call
  bad_ttl naive_expiry : Error

-- `JCS_MAX_SAFE_INTEGER`
abbrev pub max_safe : ℕ
max_safe = 9007199254740991

pub record Charge : Type 0 where
  pub fuel : ℕ
  pub output_bytes : ℕ
  pub wall_ms : ℕ

abbrev pub no_charge : Charge
no_charge = record { fuel = 0; output_bytes = 0; wall_ms = 0 }

-- One round of `_check_charge_values`
abbrev check_value : ℤ → Outcome Error (Unit {0})
check_value v = raise_if (ltb_ℤ v (pos 0)) negative >> raise_if (ltb_ℤ (pos max_safe) v) unsafe

-- `Charge(fuel, output_bytes, wall_ms)`
unfoldable pub make_charge : ℤ → ℤ → ℤ → Outcome Error Charge
make_charge fuel output_bytes wall_ms =
    check_value fuel
    >> check_value output_bytes
    >> check_value wall_ms
    >> ok (record {
      fuel = pos_part fuel;
      output_bytes = pos_part output_bytes;
      wall_ms = pos_part wall_ms;
    })

abbrev number_or_raise : Option ℤ → Outcome Error ℤ
number_or_raise none = raised no_number
number_or_raise (some n) = ok n

-- `record or {}`, of which only a mapping has `get`.
abbrev pub mapping_of : Json → Outcome Error Fields
mapping_of (Json.obj d) = ok d
mapping_of v = if truthy v then raised not_object else ok end

-- `Charge.from_line`
unfoldable pub from_line : Json → Outcome Error Charge
unfolding make_charge
from_line v = do
  record' ← mapping_of v
  fuel ← number_or_raise (int_of (get_or "fuel" (Json.num (pos 0)) record'))
  output_bytes ← number_or_raise (int_of (get_or "output_bytes" (Json.num (pos 0)) record'))
  wall_ms ← number_or_raise (int_of (get_or "wall_ms" (Json.num (pos 0)) record'))
  make_charge fuel output_bytes wall_ms

-- `Charge.plus`
unfoldable pub plus : Charge → Charge → Outcome Error Charge
plus c d =
    make_charge (pos (c.fuel + d.fuel)) (pos (c.output_bytes + d.output_bytes))
      (pos (c.wall_ms + d.wall_ms))

-- `Charge.to_dict`
abbrev pub charge_dict : Charge → Json
charge_dict c = Json.obj (
    field "fuel" (Json.num (pos c.fuel)) (
      field "output_bytes" (Json.num (pos c.output_bytes))
        (field "wall_ms" (Json.num (pos c.wall_ms)) end)))

pub record Budget : Type 0 where
  pub max_total_fuel : Option ℕ
  pub max_total_output_bytes : Option ℕ
  pub max_total_wall_ms : Option ℕ
  pub max_runs : Option ℕ

abbrev check_cap : Option ℤ → Outcome Error (Option ℕ)
check_cap none = ok none
check_cap (some v) =
    raise_if (leb_ℤ v (pos 0)) not_positive
    >> raise_if (ltb_ℤ (pos max_safe) v) unsafe
    >> ok (some (pos_part v))

-- `CumulativeBudget(…)`
unfoldable pub make_budget :
    Option ℤ → Option ℤ → Option ℤ → Option ℤ → String → Outcome Error Budget
make_budget fuel output_bytes wall_ms runs window =
    raise_if (not (str_eq window "all_time")) bad_window >> check_cap fuel >>= λ f.
    check_cap output_bytes >>= λ o. check_cap wall_ms >>= λ w. check_cap runs >>= λ r.
    ok (record {
      max_total_fuel = f;
      max_total_output_bytes = o;
      max_total_wall_ms = w;
      max_runs = r;
    })

pub data Dimension : Type 0 where
  fuel output_bytes wall_ms runs : Dimension

-- `cap is not None and value > cap`
abbrev pub exceeds : Option ℕ → ℕ → Bool
exceeds none value = false
exceeds (some cap) value = ltb cap value

-- `CumulativeBudget.violation`: the first dimension over its cap.
unfoldable pub violation : Budget → ℕ → Charge → Option Dimension
violation b runs' used =
    if exceeds b.max_total_fuel used.fuel
    then some fuel
    else if exceeds b.max_total_output_bytes used.output_bytes
    then some output_bytes
    else if exceeds b.max_total_wall_ms used.wall_ms
    then some wall_ms
    else if exceeds b.max_runs runs'
    then some runs
    else none

-- `_TENANT_ID_CHARS`
abbrev pub is_id_char : ℕ → Bool
is_id_char c =
    leb b'a' c && leb c b'z'
    || leb b'A' c && leb c b'Z'
    || leb b'0' c && leb c b'9'
    || nat_beq c b'.'
    || nat_beq c b'_'
    || nat_beq c b':'
    || nat_beq c b'-'

all_id_chars : List ℕ → Bool
all_id_chars [] = true
all_id_chars (c ∷ s) = is_id_char c && all_id_chars s

-- `value != value.strip()`, for the white space of ASCII
ends_in_space : List ℕ → Bool
ends_in_space [] = false
ends_in_space (c ∷ []) = is_space c
ends_in_space (c ∷ d ∷ s) = ends_in_space (d ∷ s)

abbrev first_is : (ℕ → Bool) → List ℕ → Bool
first_is p [] = false
first_is p (c ∷ s) = p c

-- The checks of `TenantId(value)`
check_tenant_id : String → Outcome Error (Unit {0})
unfolding all_id_chars ends_in_space
check_tenant_id value =
    let s = codes value in
    raise_if (not (leb 1 (length s) && leb (length s) 128)) bad_length
    >> raise_if (first_is is_space s || ends_in_space s || first_is (λ c. nat_beq c b'.') s) padded
    >> raise_if (not (all_id_chars s)) bad_characters

-- `TenantId(value)`
unfoldable pub tenant_id : String → Outcome Error String
unfolding check_tenant_id
tenant_id value = check_tenant_id value >> ok value

pub tenant_id_same : (value name : String) → tenant_id value ≡ ok name → name ≡ value
unfolding tenant_id
tenant_id_same value name h = same (check_tenant_id value) h
  where
    same : (r : Outcome Error (Unit {0})) → (r >> ok value) ≡ ok name → name ≡ value
    same (ok u) e = cc
    same (raised t) e = cc
