-- ===== src/State.antt =====
-- The session-scoped key/value store of ephemora_cell/state.py: `StateStore` and its methods. A
-- value is its bytes and a name its code points. The guest's view of it is in `Imports`.
pub mod Imports
pub mod Bounds
pub mod Lookup
pub mod Guest
pub mod Session
use ephemora_cell.Common.{
  ℕ, ◌+◌, ◌-◌, Bool, true, false, ◌&&◌, ◌||◌, not, Option, none, some, [], leb, ltb, if◌then◌else◌,
  length, Outcome, ok, raised, ◌>>◌, raise_if,
}
use ephemora_cell.Common.Int.{ℤ, pos, pos_part, leb_ℤ}
use ephemora_cell.Common.Dict.{Dict, lookup, contains, insert, erase}
use ephemora_cell.Common.Bytes.{Bytes, Text, bytes_key}

-- The four raises of `StateStore.set`, all of them `StateCapExceeded`.
pub data Cap : Type 0 where
  empty_name value_bytes total_bytes entry_count : Cap

pub record Store : Type 0 where
  pub max_value : ℕ
  pub max_total : ℕ
  pub max_entries : ℕ
  pub entries : Dict Text Bytes
  pub total : ℕ

-- `StateStore(max_value_bytes, max_total_bytes, max_entries)`; `none` is the `ValueError`.
unfoldable pub create : ℤ → ℤ → ℤ → Option Store
create max_value max_total max_entries =
    if leb_ℤ max_value (pos 0) || leb_ℤ max_total (pos 0) || leb_ℤ max_entries (pos 0)
    then none
    else some (record {
      max_value = pos_part max_value;
      max_total = pos_part max_total;
      max_entries = pos_part max_entries;
      entries = [];
      total = 0;
    })

unfoldable pub get : Store → Text → Option Bytes
get s name = lookup name s.entries

-- `self._data.get(name, b"")`
abbrev pub old_value : Store → Text → Bytes
old_value s name = elim (lookup name s.entries) [ none ↦ [] | some v ↦ v ]

abbrev pub is_empty : Text → Bool
is_empty [] = true
is_empty _ = false

-- The four guards of `set`, in order. The comparison of the total is the source's, with the
-- subtracted length moved to the other side.
unfoldable pub check_set : Store → Text → Bytes → Outcome Cap (Unit {0})
check_set s name value =
    raise_if (is_empty name) empty_name
    >> raise_if (ltb s.max_value (length value)) value_bytes
    >> raise_if (ltb (s.max_total + length (old_value s name)) (length value + s.total)) total_bytes
    >> raise_if (not (contains name s.entries) && leb s.max_entries (length s.entries)) entry_count

-- The two assignments of `set`: the total first grows and then drops the length of the old value,
-- which `Bounds` shows to be part of it.
unfoldable pub stored : Store → Text → Bytes → Store
stored s name value = record s {
  entries = insert name value s.entries;
  total = s.total + length value - length (old_value s name);
}

-- `StateStore.set`
unfoldable pub set : Store → Text → Bytes → Outcome Cap Store
set s name value = check_set s name value >> ok (stored s name value)

-- `StateStore.delete`
unfoldable pub delete : Store → Text → Store × Bool
delete s name = elim (lookup name s.entries) [
  | none ↦ (s, false)
  | some old ↦ (record s { entries = erase name s.entries; total = s.total - length old }, true)
]

-- `StateStore.clear`
unfoldable pub clear : Store → Store
clear s = record s { entries = []; total = 0 }
