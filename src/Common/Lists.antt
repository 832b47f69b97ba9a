-- ===== src/Common/Lists.antt =====
-- Lists measured by native numbers, under the library's names.
use Prim.Native.Nat.{ℕ, zero, suc, ◌+◌}
use mathlib.Core.Path.{◌≡◌}
use mathlib.Core.Logic.{◌⊎◌, inl, inr, ◌↔◌}
use mathlib.Core.List.{List, [], ◌∷◌, ◌++◌}
use native.Mathlib.Omega.{arith}

module _ {ℓ} {A : Type ℓ} where
  abbrev pub length : List A → ℕ
  length [] = 0
  length (x ∷ xs) = suc (length xs)

  pub length-append : (xs ys : List A) → length (xs ++ ys) ≡ length xs + length ys
  length-append [] ys = omega arith
  length-append (x ∷ xs) ys = omega (arith, length-append xs ys)

-- `xs[:n]`
abbrev pub take {ℓ} : {A : Type ℓ} → ℕ → List A → List A
take zero xs = []
take (suc n) [] = []
take (suc n) (x ∷ xs) = x ∷ take n xs

-- `xs[n:]`
abbrev pub drop {ℓ} : {A : Type ℓ} → ℕ → List A → List A
drop zero xs = xs
drop (suc n) [] = []
drop (suc n) (x ∷ xs) = drop n xs

-- A predicate of every member, by recursion.
abbrev pub All {ℓ κ} : {A : Type ℓ} → (A → Type κ) → List A → Type κ
All P [] = Unit
All P (x ∷ xs) = P x × All P xs

-- Whether a value stands in a list, by recursion.
abbrev pub Among : {A : Type 0} → A → List A → Type 0
Among x [] = ⊥
Among x (y ∷ ys) = (x ≡ y) ⊎ Among x ys

pub Among-append :
    {A : Type 0} (x : A) (ys zs : List A) → Among x (ys ++ zs) ↔ (Among x ys ⊎ Among x zs)
Among-append x [] zs = (λ h. inr h, λ h. elim h [ inl e ↦ absurd e | inr a ↦ a ])
Among-append x (y ∷ ys) zs =
    let (to, from) = Among-append x ys zs in
    (
      λ h. elim h [
        | inl e ↦ inl (inl e)
        | inr a ↦ elim (to a) [ inl b ↦ inl (inr b) | inr c ↦ inr c ]
      ],
      λ h. elim h [
        | inl b ↦ elim b [ inl e ↦ inl e | inr a ↦ inr (from (inl a)) ]
        | inr c ↦ inr (from (inr c))
      ],
    )
