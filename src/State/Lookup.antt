-- ===== src/State/Lookup.antt =====
-- `StateStore` as a map from names to bytes: when a call is accepted, and what `get` then returns.
use ephemora_cell.Common.{
  ◌≡◌, ◌≢◌, ◌≤◌, length, refl, none, some, [], ◌∷◌, arith, ok, ◌==◌, if◌then◌else◌, ◌↔◌,
  Option-cases, inl, inr,
}
use ephemora_cell.Common.Dict.{
  lookup, contains, lookup-insert, lookup-erase, sum_of, sum_of-insert, length-insert,
}
use ephemora_cell.Common.Bytes.{Bytes, Text, bytes_key}
use ephemora_cell.State.{Store, get, set, stored, check_set, delete}
use ephemora_cell.State.Bounds.{IsValid, Passes, set-accepted, stored-IsValid, length-old_value}

check_set_accepts :
    (s : Store) (name : Text) (value : Bytes) → Passes s name value → check_set s name value ≡ ok tt
unfolding check_set
check_set_accepts s [] value p = absurd (p.named refl)
check_set_accepts s (c ∷ name) value p = ground (arith, p.entry_fits)

-- What a store holds after a `set`: the name is one, and the value, the values together and the number
-- of them are within the caps.
pub record Fits (s : Store) (name : Text) (value : Bytes) (after : Store) : Type 0 where
  pub named : name ≢ []
  pub value_capped : length value ≤ s.max_value
  pub values_capped : sum_of length after.entries ≤ s.max_total
  pub entries_capped : length after.entries ≤ s.max_entries

Fits-Passes :
    (s : Store) (name : Text) (value : Bytes)
    → IsValid s
    → Fits s name value (stored s name value)
    → Passes s name value
unfolding stored
Fits-Passes s name value v f = record {
  named = f.named;
  value_fits = f.value_capped;
  total_fits = omega (
    arith,
    v.counted,
    f.values_capped,
    length-old_value s name,
    sum_of-insert length name value s.entries,
  );
  entry_fits = λ free. ground (arith, free, f.entries_capped, length-insert name value s.entries);
}

Passes-Fits :
    (s : Store) (name : Text) (value : Bytes)
    → IsValid s
    → Passes s name value
    → Fits s name value (stored s name value)
unfolding stored
Passes-Fits s name value v p =
    let after = stored-IsValid s name value v p in
    record {
      named = p.named;
      value_capped = p.value_fits;
      values_capped = omega (arith, after.counted, after.total_capped);
      entries_capped = after.entries_capped;
    }

-- In a valid store `set` is accepted, with the two assignments made, exactly when the name is not empty,
-- the value is within its cap, and in the store that the assignments leave the lengths of all the values
-- together and the number of entries are within theirs.
pub set_accepts_iff :
    (s : Store) (name : Text) (value : Bytes)
    → IsValid s
    → (set s name value ≡ ok (stored s name value)) ↔ Fits s name value (stored s name value)
unfolding set
set_accepts_iff s name value v = (
  λ h.
      Passes-Fits s name value v
        (set-accepted s (stored s name value) name value (unfold set in h)).0,
  λ f. ground (arith, check_set_accepts s name value (Fits-Passes s name value v f)),
)

-- After an accepted `set`, `get` returns the new value at that name and what it returned before at
-- every other one.
pub get-set :
    (s s' : Store) (name other : Text) (value : Bytes)
    → set s name value ≡ ok s'
    → get s' other ≡ (if name == other then some value else get s other)
unfolding get stored
get-set s s' name other value h =
    rw (set-accepted s s' name value h).1 (lookup-insert name other value s.entries)

-- `delete` says whether the name was bound, unbinds it and touches no other name.
pub get-delete :
    (s : Store) (name other : Text)
    → IsValid s
    → ((delete s name).1 ≡ contains name s.entries)
      × (get (delete s name).0 other ≡ (if name == other then none else get s other))
unfolding get delete
get-delete s name other v = elim (Option-cases (lookup name s.entries)) [
  | inl e ↦ ground (arith, bytes_key.equal_iff name other)
  | inr (old, e) ↦ ground (arith, lookup-erase name other s.entries v.unique)
]
