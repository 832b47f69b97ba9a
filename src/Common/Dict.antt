-- ===== src/Common/Dict.antt =====
-- A Python `dict`: a list of bindings in insertion order. Assigning to a key that is there keeps
-- its place, and deleting removes the first binding of the key (a dict built by `insert` has one).
use Prim.Native.Nat.{ℕ, ◌+◌, ◌≤◌}
use mathlib.Core.Path.{◌≡◌, refl}
use mathlib.Core.Bool.{Bool, true, false}
use mathlib.Core.Option.{Option, none, some}
use mathlib.Core.List.{List, [], ◌∷◌}
use native.Mathlib.Omega.{arith}
use ephemora_cell.Common.Tests.{Key, ◌==◌, if◌then◌else◌}
use ephemora_cell.Common.Lists.{length}

abbrev pub Dict {ℓ} : Type ℓ → Type ℓ → Type ℓ
Dict K V = List (K × V)

module _ {ℓ} {K V : Type ℓ} where
  -- `list(d)`
  abbrev pub keys : Dict K V → List K
  keys [] = []
  keys (b ∷ d) = b.0 ∷ keys d

  -- `list(d.values())`
  abbrev pub values : Dict K V → List V
  values [] = []
  values (b ∷ d) = b.1 ∷ values d

-- A weight of the value bound to a key, 0 where there is none.
abbrev pub weight {ℓ} : {V : Type ℓ} → (V → ℕ) → Option V → ℕ
weight f none = 0
weight f (some v) = f v

module _ {ℓ} {K V : Type ℓ} ⦃e : Key K⦄ where
  -- `d.get(k)`
  abbrev pub lookup : K → Dict K V → Option V
  lookup k [] = none
  lookup k (b ∷ d) = if b.0 == k then some b.1 else lookup k d

  -- `k in d`
  abbrev pub contains : K → Dict K V → Bool
  contains k d = elim (lookup k d) [ none ↦ false | some _ ↦ true ]

  -- `d[k] = v`
  abbrev pub insert : K → V → Dict K V → Dict K V
  insert k v [] = (k, v) ∷ []
  insert k v (b ∷ d) = if b.0 == k then (k, v) ∷ d else b ∷ insert k v d

  -- `del d[k]`, `d.pop(k, None)`
  abbrev pub erase : K → Dict K V → Dict K V
  erase k [] = []
  erase k (b ∷ d) = if b.0 == k then d else b ∷ erase k d

  -- No key is bound twice.
  abbrev pub IsUnique : Dict K V → Type ℓ
  IsUnique [] = Unit
  IsUnique (b ∷ d) = (lookup b.0 d ≡ none) × IsUnique d

  pub lookup-insert :
      (k j : K) (v : V) (d : Dict K V)
      → lookup j (insert k v d) ≡ (if k == j then some v else lookup j d)
  lookup-insert k j v [] = refl
  lookup-insert k j v (b ∷ d) =
      ground (arith, e.equal_iff b.0 k, e.equal_iff b.0 j, e.equal_iff k j, lookup-insert k j v d)

  pub lookup-erase :
      (k j : K) (d : Dict K V)
      → IsUnique d
      → lookup j (erase k d) ≡ (if k == j then none else lookup j d)
  lookup-erase k j [] u = ground arith
  lookup-erase k j (b ∷ d) u =
      ground (arith, e.equal_iff b.0 k, e.equal_iff b.0 j, e.equal_iff k j, lookup-erase k j d u.1)

  pub insert-IsUnique : (k : K) (v : V) (d : Dict K V) → IsUnique d → IsUnique (insert k v d)
  insert-IsUnique k v [] u = (refl, tt)
  insert-IsUnique k v (b ∷ d) u = ground (
    arith,
    e.equal_iff b.0 k,
    e.equal_iff k b.0,
    lookup-insert k b.0 v d,
    insert-IsUnique k v d u.1,
  )

  pub erase-IsUnique : (k : K) (d : Dict K V) → IsUnique d → IsUnique (erase k d)
  erase-IsUnique k [] u = tt
  erase-IsUnique k (b ∷ d) u = ground (arith, lookup-erase k b.0 d u.1, erase-IsUnique k d u.1)

  pub length-insert :
      (k : K) (v : V) (d : Dict K V)
      → length (insert k v d) ≡ (if contains k d then length d else length d + 1)
  length-insert k v [] = omega arith
  length-insert k v (b ∷ d) = ground (arith, length-insert k v d)

  pub length-erase :
      (k : K) (d : Dict K V)
      → length d ≡ (if contains k d then length (erase k d) + 1 else length (erase k d))
  length-erase k [] = refl
  length-erase k (b ∷ d) = ground (arith, length-erase k d)

  -- The weights of all the values.
  abbrev pub sum_of : (V → ℕ) → Dict K V → ℕ
  sum_of f [] = 0
  sum_of f (b ∷ d) = f b.1 + sum_of f d

  pub sum_of-insert :
      (f : V → ℕ) (k : K) (v : V) (d : Dict K V)
      → sum_of f (insert k v d) + weight f (lookup k d) ≡ sum_of f d + f v
  sum_of-insert f k v [] = omega arith
  sum_of-insert f k v (b ∷ d) = ground (arith, sum_of-insert f k v d)

  pub sum_of-erase :
      (f : V → ℕ) (k : K) (d : Dict K V) → sum_of f (erase k d) + weight f (lookup k d) ≡ sum_of f d
  sum_of-erase f k [] = omega arith
  sum_of-erase f k (b ∷ d) = ground (arith, sum_of-erase f k d)

  pub weight-le-sum_of : (f : V → ℕ) (k : K) (d : Dict K V) → weight f (lookup k d) ≤ sum_of f d
  weight-le-sum_of f k [] = omega arith
  weight-le-sum_of f k (b ∷ d) = ground (arith, weight-le-sum_of f k d)
