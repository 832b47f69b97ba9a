-- ===== src/Canonical.antt =====
-- The canonical JSON of ephemora_cell/execution_report.py (RFC 8785): `_jcs_value`, `_jcs_object`,
-- `jcs_canonicalize`. The texts of the items of an object are computed before they are sorted, and the
-- first exception in the sorted order is the one that is raised.
pub mod Data
pub mod Strings
pub mod Number
pub mod Digits
pub mod Layout
pub mod Floats
pub mod Sorting
pub mod Order
pub mod Defined
use ephemora_cell.Common.{
  Bool, true, false, List, [], ◌∷◌, ◌++◌, if◌then◌else◌, Outcome, ok, raised, ◌>>=◌,
}
use ephemora_cell.Common.Bytes.{Bytes, Text}
use ephemora_cell.Canonical.Data.{
  JcsError, type_error, Key, name, no_text, Value, Values, Members, nil, cons, end, member,
}
use ephemora_cell.Canonical.Strings.{jcs_string}
use ephemora_cell.Canonical.Number.{jcs_int, jcs_float}
use ephemora_cell.Canonical.Sorting.{utf16_be, sorted}

-- A key and the text of its value.
abbrev pub Item : Type 0
Item = Text × Outcome JcsError Text

abbrev pub item_key : Item → Bytes
item_key item = utf16_be item.0

-- `_jcs_string(k) + ":" + _jcs_value(v)`
unfoldable pub item_text : Item → Outcome JcsError Text
item_text (k, v) = jcs_string k >>= λ a. v >>= λ b. ok (a ++ b':' ∷ b)

-- `",".join(...)`
unfoldable pub commas : List Text → Text
commas [] = []
commas (t ∷ []) = t
commas (t ∷ u ∷ ts) = t ++ b',' ∷ commas (u ∷ ts)

unfoldable pub item_texts : List Item → Outcome JcsError (List Text)
item_texts [] = ok []
item_texts (i ∷ is) = item_text i >>= λ t. item_texts is >>= λ ts. ok (t ∷ ts)

-- Whether `isinstance(k, str)` fails for some key.
unfoldable pub some_key_no_text : Members → Bool
some_key_no_text end = false
some_key_no_text (member (name k) v m) = some_key_no_text m
some_key_no_text (member no_text v m) = true

abbrev pub bool_text : Bool → Text
bool_text true = b't' ∷ b'r' ∷ b'u' ∷ b'e' ∷ []
bool_text false = b'f' ∷ b'a' ∷ b'l' ∷ b's' ∷ b'e' ∷ []

-- `_jcs_object`, once the texts of its items are known
unfoldable pub object_text : Bool → List Item → Outcome JcsError Text
object_text bad_key items =
    if bad_key
    then raised type_error
    else item_texts (sorted item_key items) >>= λ ts. ok (b'{' ∷ commas ts ++ b'}' ∷ [])

unfoldable mutual
  -- `_jcs_value`
  pub jcs_value : Value → Outcome JcsError Text
  jcs_value Value.null = ok (b'n' ∷ b'u' ∷ b'l' ∷ b'l' ∷ [])
  jcs_value (Value.bool b) = ok (bool_text b)
  jcs_value (Value.int v) = jcs_int v
  jcs_value (Value.float v) = jcs_float v
  jcs_value (Value.str s) = jcs_string s
  jcs_value (Value.list vs) = jcs_values vs >>= λ ts. ok (b'[' ∷ commas ts ++ b']' ∷ [])
  jcs_value (Value.dict m) = object_text (some_key_no_text m) (items m)
  jcs_value Value.other = raised type_error

  pub jcs_values : Values → Outcome JcsError (List Text)
  jcs_values nil = ok []
  jcs_values (cons v vs) = jcs_value v >>= λ t. jcs_values vs >>= λ ts. ok (t ∷ ts)

  -- `obj.items()`, each value with its text
  pub items : Members → List Item
  items end = []
  items (member (name k) v m) = (k, jcs_value v) ∷ items m
  items (member no_text v m) = items m
