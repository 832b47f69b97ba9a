-- ===== src/Canonical/Defined.antt =====
-- Which values `jcs_canonicalize` of ephemora_cell/execution_report.py accepts.
use ephemora_cell.Common.{
  ◌≡◌, refl, ◌↔◌, inl, inr, false, List, [], ◌∷◌, ◌++◌, ◌||◌, arith, All, Bool-cases, Outcome, ok,
  raised, ◌>>=◌, Outcome-cases,
}
use ephemora_cell.Common.Int.{ℤ, ◌≤ℤ◌, ltb_ℤ}
use ephemora_cell.Common.Bytes.{Text}
use ephemora_cell.Canonical.{
  Item, item_key, item_text, item_texts, items, jcs_value, jcs_values, object_text,
  some_key_no_text, commas,
}
use ephemora_cell.Canonical.Data.{
  JcsError, Float, name, no_text, Value, Values, nil, cons, Members, end, member,
}
use ephemora_cell.Canonical.Strings.{is_surrogate, escaped, escape, jcs_string}
use ephemora_cell.Canonical.Number.{
  jcs_int, jcs_float, decompose, layout, signed, min_safe_integer, max_safe_integer,
}
use ephemora_cell.Canonical.Sorting.{sorted, All-sorted}

abbrev pub IsOk : {A : Type 0} → Outcome JcsError A → Type 0
IsOk (ok a) = Unit
IsOk (raised e) = ⊥

IsOk-then :
    {A B : Type 0} (o : Outcome JcsError A) (g : A → B) → IsOk (o >>= λ a. ok (g a)) ↔ IsOk o
IsOk-then (ok a) g = (λ h. h, λ h. h)
IsOk-then (raised e) g = (λ h. h, λ h. h)

IsOk-both :
    {A B C : Type 0} (o : Outcome JcsError A) (p : Outcome JcsError B) (g : A → B → C)
    → IsOk (o >>= λ a. p >>= λ b. ok (g a b)) ↔ (IsOk o × IsOk p)
IsOk-both (ok a) (ok b) g = (λ h. (tt, tt), λ h. tt)
IsOk-both (ok a) (raised e) g = (λ h. (tt, h), λ h. h.1)
IsOk-both (raised e) p g = (λ h. absurd h, λ h. h.0)

abbrev pub IsUnicode : Text → Type 0
IsUnicode s = All (λ c. is_surrogate c ≡ false) s

-- A float that is a number, and whose `repr` has a layout.
abbrev pub IsNumber : Float → Type 0
IsNumber Float.special = ⊥
IsNumber Float.zero_float = Unit
IsNumber (Float.finite negative r) = IsOk (decompose r >>= λ (digits, n). layout digits n)

abbrev mutual
  -- Integers in the safe range, finite floats, texts and keys without surrogates, and nothing that is
  -- not JSON.
  pub IsCanonical : Value → Type 0
  IsCanonical Value.null = Unit
  IsCanonical (Value.bool b) = Unit
  IsCanonical (Value.int n) = (min_safe_integer ≤ℤ n) × (n ≤ℤ max_safe_integer)
  IsCanonical (Value.float f) = IsNumber f
  IsCanonical (Value.str s) = IsUnicode s
  IsCanonical (Value.list vs) = AreCanonical vs
  IsCanonical (Value.dict m) = HasCanonical m
  IsCanonical Value.other = ⊥

  pub AreCanonical : Values → Type 0
  AreCanonical nil = Unit
  AreCanonical (cons v vs) = IsCanonical v × AreCanonical vs

  pub HasCanonical : Members → Type 0
  HasCanonical end = Unit
  HasCanonical (member (name k) v m) = (IsUnicode k × IsCanonical v) × HasCanonical m
  HasCanonical (member no_text v m) = ⊥

via : {A B C : Type 0} → A ↔ B → B ↔ C → A ↔ C
via f g = (λ a. g.0 (f.0 a), λ c. f.1 (g.1 c))

abbrev both : {A B C D : Type 0} → A ↔ B → C ↔ D → (A × C) ↔ (B × D)
both f g = (λ h. (f.0 h.0, g.0 h.1), λ h. (f.1 h.0, g.1 h.1))

escaped-IsOk_iff : (s : Text) → IsOk (escaped s) ↔ IsUnicode s
unfolding escaped
escaped-IsOk_iff [] = (λ h. h, λ h. h)
escaped-IsOk_iff (c ∷ s) = elim (Bool-cases (is_surrogate c)) [
  | inl p ↦ (λ h. absurd (rw p at h), λ h. absurd (ground (arith, h.0, p)))
  | inr p ↦
      let (to, from) = via (IsOk-then (escaped s) (λ t. escape c ++ t)) (escaped-IsOk_iff s) in
      rw p (λ h. (refl, to h), λ h. from h.1)
]

jcs_string-IsOk_iff : (s : Text) → IsOk (jcs_string s) ↔ IsUnicode s
unfolding jcs_string
jcs_string-IsOk_iff s = via (IsOk-then (escaped s) (λ t. b'"' ∷ t)) (escaped-IsOk_iff s)

jcs_int-IsOk_iff : (n : ℤ) → IsOk (jcs_int n) ↔ ((min_safe_integer ≤ℤ n) × (n ≤ℤ max_safe_integer))
unfolding jcs_int
jcs_int-IsOk_iff n = elim (Bool-cases (ltb_ℤ max_safe_integer n || ltb_ℤ n min_safe_integer)) [
  | inl p ↦ (λ h. absurd (rw p at h), λ h. ground (arith, p, h))
  | inr p ↦ (λ h. ground (arith, p), λ h. rw p tt)
]

jcs_float-IsOk_iff : (f : Float) → IsOk (jcs_float f) ↔ IsNumber f
unfolding jcs_float layout
jcs_float-IsOk_iff Float.special = (λ h. h, λ h. h)
jcs_float-IsOk_iff Float.zero_float = (λ h. h, λ h. h)
jcs_float-IsOk_iff (Float.finite negative r) = elim (Outcome-cases (decompose r)) [
  | inr (e, p) ↦ rw p (λ h. h, λ h. h)
  | inl ((digits, n), p) ↦ rw p (IsOk-then (layout digits n) (λ out. signed negative out))
]

item_texts-IsOk_iff : (is : List Item) → IsOk (item_texts is) ↔ All (λ i. IsOk (item_text i)) is
unfolding item_texts
item_texts-IsOk_iff [] = (λ h. h, λ h. h)
item_texts-IsOk_iff (i ∷ is) =
    via (IsOk-both (item_text i) (item_texts is) (λ t ts. t ∷ ts))
      (both (λ h. h, λ h. h) (item_texts-IsOk_iff is))

item_text-IsOk_iff :
    (k : Text) (v : Outcome JcsError Text) → IsOk (item_text (k, v)) ↔ (IsUnicode k × IsOk v)
unfolding item_text
item_text-IsOk_iff k v =
    via (IsOk-both (jcs_string k) v (λ a b. a ++ b':' ∷ b))
      (both (jcs_string-IsOk_iff k) (λ h. h, λ h. h))

abbrev HasTexts : Members → Type 0
HasTexts m = (some_key_no_text m ≡ false) × All (λ i. IsOk (item_text i)) (items m)

object_text-IsOk_iff :
    (m : Members) → IsOk (object_text (some_key_no_text m) (items m)) ↔ HasTexts m
unfolding object_text
object_text-IsOk_iff m = elim (Bool-cases (some_key_no_text m)) [
  | inl p ↦ rw p (λ h. absurd h, λ h. absurd (ground (arith, h.0)))
  | inr p ↦
      let order = All-sorted item_key (λ i. IsOk (item_text i)) (items m) in
      let texts = item_texts (sorted item_key (items m)) in
      let (to, from) =
        via (IsOk-then texts (λ ts. b'{' ∷ commas ts ++ b'}' ∷ []))
          (via (item_texts-IsOk_iff (sorted item_key (items m))) order) in
      rw p (λ h. (refl, to h), λ h. from h.1)
]

mutual
  unfolding jcs_value jcs_values items some_key_no_text

  value-IsOk_iff : (v : Value) → IsOk (jcs_value v) ↔ IsCanonical v
  value-IsOk_iff Value.null = (λ h. h, λ h. h)
  value-IsOk_iff (Value.bool b) = (λ h. h, λ h. h)
  value-IsOk_iff (Value.int n) = jcs_int-IsOk_iff n
  value-IsOk_iff (Value.float f) = jcs_float-IsOk_iff f
  value-IsOk_iff (Value.str s) = jcs_string-IsOk_iff s
  value-IsOk_iff (Value.list vs) =
      via (IsOk-then (jcs_values vs) (λ ts. b'[' ∷ commas ts ++ b']' ∷ [])) (values-IsOk_iff vs)
  value-IsOk_iff (Value.dict m) = via (object_text-IsOk_iff m) (members-IsOk_iff m)
  value-IsOk_iff Value.other = (λ h. h, λ h. h)

  values-IsOk_iff : (vs : Values) → IsOk (jcs_values vs) ↔ AreCanonical vs
  values-IsOk_iff nil = (λ h. h, λ h. h)
  values-IsOk_iff (cons v vs) =
      via (IsOk-both (jcs_value v) (jcs_values vs) (λ t ts. t ∷ ts))
        (both (value-IsOk_iff v) (values-IsOk_iff vs))

  members-IsOk_iff : (m : Members) → HasTexts m ↔ HasCanonical m
  members-IsOk_iff end = (λ h. tt, λ h. (refl, tt))
  members-IsOk_iff (member (name k) v m) =
      let (to, from) =
        via (item_text-IsOk_iff k (jcs_value v)) (both (λ h. h, λ h. h) (value-IsOk_iff v)) in
      let (to', from') = members-IsOk_iff m in
      (λ h. (to h.1.0, to' (h.0, h.1.1)), λ h. let rest = from' h.1 in (rest.0, (from h.0, rest.1)))
  members-IsOk_iff (member no_text v m) = (λ h. absurd (ground (arith, h.0)), λ h. absurd h)

-- A value has a canonical text, and no exception is raised, exactly when each integer in it is within
-- the safe range, each float is finite with a `repr` that has a layout, each text and key has no
-- surrogate, each key is a text, and nothing in it is of a type that JSON lacks.
pub jcs_value-IsOk_iff : (v : Value) → IsOk (jcs_value v) ↔ IsCanonical v
jcs_value-IsOk_iff v = value-IsOk_iff v
