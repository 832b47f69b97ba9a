-- ===== src/Tests/Canonical.antt =====
-- Runs of the canonical JSON of ephemora_cell/execution_report.py at concrete values.
use mathlib.Core.HLevel.{¬_prop}
use mathlib.Core.List.{Permᴰ, Pairwise-pair}
use ephemora_cell.Common.{
  ◌≡◌, refl, inl, true, false, some, List, [], ◌∷◌, ◌++◌, arith, ok, raised, ◌↔◌,
}
use ephemora_cell.Common.Int.{pos, negsuc, ◌+ℤ◌}
use ephemora_cell.Common.Bytes.{Text}
use ephemora_cell.Common.Decimal.{codes, int_text}
use ephemora_cell.Common.Show.{show}
use ephemora_cell.Canonical.{
  jcs_value, object_text, some_key_no_text, item_texts, item_text, commas,
}
use ephemora_cell.Canonical.Sorting.{sorted, insert, bytes_ltb, utf16_be}
use ephemora_cell.Canonical.Data.{value_error, Float, Value, nil, cons}
use ephemora_cell.Canonical.Strings.{
  escape, escaped, jcs_string, read_json_string, read_json_string-jcs_string,
}
use ephemora_cell.Canonical.Order.{members, jcs_value_reordered}
use ephemora_cell.Canonical.Defined.{IsOk, IsCanonical, jcs_value-IsOk_iff}
use ephemora_cell.Canonical.Number.{
  decompose, jcs_float, jcs_int, signed, mantissa_of, partition_at, parts, layout, lstrip, rstrip,
  zeros,
}
use ephemora_cell.Canonical.Floats.{jcs_float-decompose}

-- U+20AC is sorted before U+1F600 and after "b".
abbrev some_items : List (Text × Value)
some_items =
    (0x20AC ∷ [], Value.int (negsuc 4))
    ∷ (0x1F600 ∷ [], Value.null)
    ∷ (codes "b", Value.str (34 ∷ 7 ∷ []))
    ∷ []

canonical_items :
    jcs_value (Value.dict (members some_items))
    ≡ ok (
        codes "{\"b\":\"\\\"\\u0007\",\""
        ++ 0x20AC ∷ codes "\":-5,\""
        ++ 0x1F600 ∷ codes "\":null}")
unfolding jcs_value object_text some_key_no_text item_texts sorted insert bytes_ltb utf16_be
    item_text jcs_string escaped jcs_int commas escape show
canonical_items = refl

float_texts :
    (jcs_float (Float.finite true (codes "1.5e+300")) ≡ ok (codes "-1.5e+300"))
    × (jcs_float (Float.finite false (codes "1e-06")) ≡ ok (codes "0.000001"))
    × (jcs_float (Float.finite false (codes "1e+16")) ≡ ok (codes "10000000000000000"))
unfolding jcs_float decompose mantissa_of partition_at int_text parts layout ◌+ℤ◌ lstrip rstrip
    zeros show
float_texts = (refl, refl, refl)

unsafe_integer :
    jcs_value (Value.list (cons (Value.int (pos 9007199254740992)) nil)) ≡ raised value_error
unfolding jcs_value jcs_int
unsafe_integer = refl

abbrev two_items : List (Text × Value)
two_items = (codes "b", Value.null) ∷ (codes "a", Value.int (pos 1)) ∷ []

abbrev two_items_swapped : List (Text × Value)
two_items_swapped = (codes "a", Value.int (pos 1)) ∷ (codes "b", Value.null) ∷ []

jcs_value_reordered_example :
    jcs_value (Value.dict (members two_items)) ≡ jcs_value (Value.dict (members two_items_swapped))
jcs_value_reordered_example =
    jcs_value_reordered two_items two_items_swapped (Permᴰ.swap refl refl)
      ((Pairwise-pair (λ a b. ¬_prop)).1 (λ e. ground (arith, e)))
      ((inl (omega arith), tt), ((inl (omega arith), tt), tt))

jcs_value-IsOk_iff_example :
    IsOk (jcs_value (Value.dict (members some_items)))
    ↔ IsCanonical (Value.dict (members some_items))
jcs_value-IsOk_iff_example = jcs_value-IsOk_iff (Value.dict (members some_items))

abbrev escapes : Text
escapes = 34 ∷ 92 ∷ 10 ∷ 1 ∷ 0x1F600 ∷ []

abbrev escaped_text : Text
escaped_text = codes "\"\\\"\\\\\\n\\u0001" ++ 0x1F600 ∷ codes "\""

jcs_string-escapes : jcs_string escapes ≡ ok escaped_text
unfolding jcs_string escaped escape
jcs_string-escapes = refl

read_json_string-jcs_string_example :
    read_json_string (escaped_text ++ codes ":1") ≡ some (escapes, codes ":1")
read_json_string-jcs_string_example =
    read_json_string-jcs_string escapes escaped_text (codes ":1") jcs_string-escapes

abbrev float_repr : Text
float_repr = codes "1.5e+300"

float_repr_decomposed : decompose float_repr ≡ ok (codes "15", pos 301)
unfolding decompose mantissa_of partition_at int_text parts ◌+ℤ◌ lstrip rstrip
float_repr_decomposed = refl

jcs_float-decompose_example :
    (out : Text) × (jcs_float (Float.finite true float_repr) ≡ ok (signed true out))
    × (decompose out ≡ decompose float_repr)
jcs_float-decompose_example =
    jcs_float-decompose true float_repr b'1' (codes "5") (pos 301) float_repr_decomposed
      ((omega arith, omega arith), ((omega arith, omega arith), tt))
