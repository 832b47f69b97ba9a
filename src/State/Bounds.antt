-- ===== src/State/Bounds.antt =====
-- The caps of `StateStore`: what `create`, `set`, `delete` and `clear` keep.
use ephemora_cell.Common.{
  ℕ, ◌+◌, ◌≤◌, ◌<◌, ◌≡◌, ◌≢◌, false, some, [], ◌∷◌, arith, length, ok, Outcome-cases, Option-cases,
  inl, inr,
}
use ephemora_cell.Common.Int.{ℤ}
use ephemora_cell.Common.Dict.{
  Dict, lookup, insert, erase, contains, IsUnique, sum_of, insert-IsUnique, erase-IsUnique,
  length-insert, length-erase, sum_of-insert, sum_of-erase, weight, weight-le-sum_of,
}
use ephemora_cell.Common.Bytes.{Bytes, Text, bytes_key}
use ephemora_cell.State.{Store, create, set, stored, check_set, delete, clear, old_value}

-- Every binding has a name, and a value within the cap.
abbrev pub IsFitting : ℕ → Dict Text Bytes → Type 0
IsFitting cap [] = Unit
IsFitting cap (b ∷ d) = (b.0 ≢ []) × (length b.1 ≤ cap) × IsFitting cap d

pub record IsValid (s : Store) : Type 0 where
  pub unique : IsUnique s.entries
  pub fitting : IsFitting s.max_value s.entries
  pub counted : s.total ≡ sum_of length s.entries
  pub total_capped : s.total ≤ s.max_total
  pub entries_capped : length s.entries ≤ s.max_entries

insert-IsFitting :
    (cap : ℕ) (k : Text) (v : Bytes) (d : Dict Text Bytes)
    → k ≢ []
    → length v ≤ cap
    → IsFitting cap d
    → IsFitting cap (insert k v d)
insert-IsFitting cap k v [] named small h = (named, small, tt)
insert-IsFitting cap k v (b ∷ d) named small h =
    ground (arith, insert-IsFitting cap k v d named small h.2)

erase-IsFitting :
    (cap : ℕ) (k : Text) (d : Dict Text Bytes) → IsFitting cap d → IsFitting cap (erase k d)
erase-IsFitting cap k [] h = tt
erase-IsFitting cap k (b ∷ d) h = ground (arith, erase-IsFitting cap k d h.2)

pub create-IsValid : (v t e : ℤ) (s : Store) → create v t e ≡ some s → IsValid s
unfolding create
create-IsValid v t e s h = ground arith

-- What the four guards say of a call that passes them.
pub record Passes (s : Store) (name : Text) (value : Bytes) : Type 0 where
  pub named : name ≢ []
  pub value_fits : length value ≤ s.max_value
  pub total_fits : length value + s.total ≤ s.max_total + length (old_value s name)
  pub entry_fits : contains name s.entries ≡ false → length s.entries < s.max_entries

pub check_set-Passes :
    (s : Store) (name : Text) (value : Bytes) → check_set s name value ≡ ok tt → Passes s name value
unfolding check_set
check_set-Passes s name value h = ground arith

pub length-old_value :
    (s : Store) (name : Text) → length (old_value s name) ≡ weight length (lookup name s.entries)
length-old_value s name = ground arith

pub stored-IsValid :
    (s : Store) (name : Text) (value : Bytes)
    → IsValid s
    → Passes s name value
    → IsValid (stored s name value)
unfolding stored
stored-IsValid s name value v p = record {
  unique = insert-IsUnique name value s.entries v.unique;
  fitting = insert-IsFitting s.max_value name value s.entries p.named p.value_fits v.fitting;
  counted = omega (
    arith,
    length-old_value s name,
    sum_of-insert length name value s.entries,
    weight-le-sum_of length name s.entries,
  );
  total_capped =
      omega (arith, length-old_value s name, weight-le-sum_of length name s.entries, p.total_fits);
  entries_capped = ground (arith, length-insert name value s.entries, p.entry_fits);
}

-- A `set` that returns has passed the guards and made the two assignments.
pub set-accepted :
    (s s' : Store) (name : Text) (value : Bytes)
    → set s name value ≡ ok s'
    → Passes s name value × (s' ≡ stored s name value)
unfolding set
set-accepted s s' name value h = elim (Outcome-cases (check_set s name value)) [
  | inl (u, e) ↦ (check_set-Passes s name value (ground arith), ground arith)
  | inr (c, e) ↦ ground arith
]

pub set-IsValid :
    (s s' : Store) (name : Text) (value : Bytes) → IsValid s → set s name value ≡ ok s' → IsValid s'
set-IsValid s s' name value v h =
    let (p, e) = set-accepted s s' name value h in rw e (stored-IsValid s name value v p)

pub delete-IsValid : (s : Store) (name : Text) → IsValid s → IsValid (delete s name).0
unfolding delete
delete-IsValid s name v = elim (Option-cases (lookup name s.entries)) [
  | inl e ↦ rw (e, delete) v
  | inr (old, e) ↦
      rw (e, delete)
        (record {
          unique = erase-IsUnique name s.entries v.unique;
          fitting = erase-IsFitting s.max_value name s.entries v.fitting;
          counted = ground (arith, sum_of-erase length name s.entries);
          total_capped = ground (arith, v.total_capped);
          entries_capped = ground (arith, length-erase name s.entries);
        })
]

pub clear-IsValid : (s : Store) → IsValid s → IsValid (clear s)
unfolding clear
clear-IsValid s v = ground arith
