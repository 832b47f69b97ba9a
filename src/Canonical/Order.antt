-- ===== src/Canonical/Order.antt =====
-- The order of the items of an object, in `_jcs_object`.
use mathlib.Core.HLevel.{¬_prop}
use mathlib.Core.Logic.Or
use mathlib.Core.List.{Permᴰ, Pairwise, Pairwise-map, Mem, not-mem-nil, eq-or-mem_of_mem-cons}
use mathlib.Core.List.Permᴰ
use ephemora_cell.Common.{
  ℕ, ◌<◌, ◌≡◌, refl, ap, ◌≢◌, ◌⊎◌, inl, inr, false, List, [], ◌∷◌, arith, All, map, Bool-cases, ltb,
}
use ephemora_cell.Common.Bytes.{Text}
use ephemora_cell.Canonical.{Item, item_key, items, jcs_value, object_text, some_key_no_text}
use ephemora_cell.Canonical.Data.{name, Value, Members, end, member}
use ephemora_cell.Canonical.Sorting.{utf16_be, sorted_reordered, Apart}

-- A character that is no surrogate.
abbrev pub IsScalar : ℕ → Type 0
IsScalar c = (c < 0xD800) ⊎ ((0xDFFF < c) × (c < 0x110000))

utf16_be-injective :
    (s t : Text) → All IsScalar s → All IsScalar t → utf16_be s ≡ utf16_be t → s ≡ t
unfolding utf16_be
utf16_be-injective [] [] h k e = refl
utf16_be-injective [] (d ∷ t) h k e = ground (arith, e)
utf16_be-injective (c ∷ s) [] h k e = ground (arith, e)
utf16_be-injective (c ∷ s) (d ∷ t) h k e = elim (Bool-cases (ltb c 0x10000)) [
  | inl p ↦ elim (Bool-cases (ltb d 0x10000)) [
    | inl q ↦ ground (arith, e, p, q, h.0, k.0, utf16_be-injective s t h.1 k.1)
    | inr q ↦ ground (arith, e, p, q, h.0, k.0)
  ]
  | inr p ↦ elim (Bool-cases (ltb d 0x10000)) [
    | inl q ↦ ground (arith, e, p, q, h.0, k.0)
    | inr q ↦ ground (arith, e, p, q, h.0, k.0, utf16_be-injective s t h.1 k.1)
  ]
]

-- A `dict` whose keys are texts.
abbrev pub members : List (Text × Value) → Members
members [] = end
members ((k, v) ∷ es) = member (name k) v (members es)

abbrev item : Text × Value → Item
item (k, v) = (k, jcs_value v)

items-members : (es : List (Text × Value)) → items (members es) ≡ map item es
unfolding items
items-members [] = refl
items-members ((k, v) ∷ es) = ap (◌∷◌ (item (k, v))) (items-members es)

some_key_no_text-members : (es : List (Text × Value)) → some_key_no_text (members es) ≡ false
unfolding some_key_no_text
some_key_no_text-members [] = refl
some_key_no_text-members ((k, v) ∷ es) = some_key_no_text-members es

abbrev pub Differ : Text × Value → Text × Value → Type 0
Differ a b = a.0 ≢ b.0

abbrev pub IsScalarKey : Text × Value → Type 0
IsScalarKey a = All IsScalar a.0

Apart-of_mem :
    (e a : Text × Value) (es : List (Text × Value))
    → IsScalarKey e
    → All IsScalarKey es
    → Mem a es
    → Differ e a
    → Apart item_key (item e) (item a)
Apart-of_mem e a [] h k m n = absurd (not-mem-nil m)
Apart-of_mem e a (x ∷ es) h k m n =
    Or.elim ¬_prop (eq-or-mem_of_mem-cons m)
      (λ same. λ bytes. n (utf16_be-injective e.0 a.0 h (rw same k.0) bytes))
      (λ later. Apart-of_mem e a es h k.1 later n)

items-Apart :
    (es : List (Text × Value))
    → Pairwise Differ es
    → All IsScalarKey es
    → Pairwise (Apart item_key) (map item es)
items-Apart es d h = (Pairwise-map (λ a b. ¬_prop) item).1 (apart es d h)
  where
    apart :
        (es : List (Text × Value))
        → Pairwise Differ es
        → All IsScalarKey es
        → Pairwise (λ a b. Apart item_key (item a) (item b)) es
    apart [] d h = Pairwise.nil
    apart (e ∷ es) (Pairwise.cons below d) h =
        Pairwise.cons (λ a m. Apart-of_mem e a es h.0 h.1 m (below a m)) (apart es d h.1)

-- The canonical text of an object, or the exception it raises, does not depend on the order of its
-- items, if its keys are distinct texts without surrogates.
pub jcs_value_reordered :
    (es fs : List (Text × Value))
    → Permᴰ es fs
    → Pairwise Differ es
    → All IsScalarKey es
    → jcs_value (Value.dict (members es)) ≡ jcs_value (Value.dict (members fs))
unfolding jcs_value object_text
jcs_value_reordered es fs p d h =
    rw
      (
        some_key_no_text-members es,
        some_key_no_text-members fs,
        items-members es,
        items-members fs,
        sorted_reordered item_key (Permᴰ.map item p) (items-Apart es d h),
      )
      refl
