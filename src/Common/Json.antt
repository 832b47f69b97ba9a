-- ===== src/Common/Json.antt =====
-- What `json.loads` returns, and the Python operations that the program applies to it.
use Prim.Native.Nat.{ℕ}
use Prim.Native.String.{String}
use mathlib.Core.Bool.{Bool, true, false, not, ◌&&◌}
use mathlib.Core.Option.{Option, none, some}
use ephemora_cell.Common.Tests.{str_is_empty, ◌==◌, text_key, if◌then◌else◌}
use ephemora_cell.Common.Int.{ℤ, pos, int_key}

-- A number with a fraction or an exponent is kept as the integer that it is cut to, with whether it
-- equals it; `nan` is one of NaN and the infinities.
mutual
  pub data Json : Type 0 where
    null : Json
    bool : Bool → Json
    num : ℤ → Json
    float : ℤ → Bool → Json
    nan : Json
    str : String → Json
    arr : Items → Json
    obj : Fields → Json

  pub data Items : Type 0 where
    nil : Items
    cons : Json → Items → Items

  pub data Fields : Type 0 where
    end : Fields
    field : String → Json → Fields → Fields

-- `d.get(k)` on a decoded object, in which a name stands once; `null` is Python's `None`.
abbrev pub get : String → Fields → Json
get k end = Json.null
get k (field j v d) = if j == k then v else get k d

-- `d.get(k, default)`
abbrev pub get_or : String → Json → Fields → Json
get_or k default end = default
get_or k default (field j v d) = if j == k then v else get_or k default d

-- `k in d`
abbrev pub has : String → Fields → Bool
has k end = false
has k (field j v d) = if j == k then true else has k d

-- `d == s` for a text `s`
abbrev pub is_text : String → Json → Bool
is_text s (str t) = t == s
is_text s _ = false

-- The integer that a value equals under `==`: `True == 1`, and `1.0 == 1`.
abbrev pub equal_int : Json → Option ℤ
equal_int (num n) = some n
equal_int (bool true) = some (pos 1)
equal_int (bool false) = some (pos 0)
equal_int (float n exact) = if exact then some n else none
equal_int _ = none

-- `v == n`
abbrev pub is_number : ℕ → Json → Bool
is_number n v = elim (equal_int v) [ none ↦ false | some m ↦ m == pos n ]

-- `isinstance(v, int)`: a `bool` is an `int`, a `float` is none.
abbrev pub is_int : Json → Bool
is_int (num n) = true
is_int (bool b) = true
is_int _ = false

-- `v is None`
abbrev pub is_none : Json → Bool
is_none null = true
is_none _ = false

-- The text of a value that is one.
abbrev pub text? : Json → Option String
text? (str t) = some t
text? _ = none

-- The object of a value that is one.
abbrev pub object? : Json → Option Fields
object? (obj d) = some d
object? _ = none

-- `bool(v)`
abbrev pub truthy : Json → Bool
truthy null = false
truthy (bool b) = b
truthy (num n) = not (n == pos 0)
truthy (float n exact) = not (exact && n == pos 0)
truthy nan = true
truthy (str s) = not (str_is_empty s)
truthy (arr nil) = false
truthy (arr (cons _ _)) = true
truthy (obj end) = false
truthy (obj (field _ _ _)) = true

-- `{**d, k: v}` for a `k` that `d` lacks
abbrev pub with_field : Fields → String → Json → Fields
with_field end k v = field k v end
with_field (field j w d) k v = field j w (with_field d k v)
