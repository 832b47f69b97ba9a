-- ===== src/Canonical/Sorting.antt =====
-- The order of the keys in `_jcs_object` of ephemora_cell/execution_report.py: by their UTF-16 code
-- units, of which Python compares the big-endian bytes.
use mathlib.Core.HLevel.{¬_prop}
use mathlib.Core.List.{Permᴰ, Pairwise, mem-cons_self}
use mathlib.Core.List.Permᴰ
use ephemora_cell.Common.{
  ◌+◌, ◌-◌, ◌/◌, ◌%◌, ◌≡◌, refl, ◌∙◌, ◌≢◌, Bool, true, false, List, [], ◌∷◌, ltb, nat_beq,
  if◌then◌else◌, arith, Bool-cases, inl, inr, sym, ◌↔◌, All,
}
use ephemora_cell.Common.Bytes.{Bytes, Text}

-- `k.encode("utf-16-be", "surrogatepass")`
unfoldable pub utf16_be : Text → Bytes
utf16_be [] = []
utf16_be (c ∷ s) =
    let rest = utf16_be s in
    if ltb c 0x10000
    then c / 256 ∷ c % 256 ∷ rest
    else let high = 0xD800 + (c - 0x10000) / 0x400 in
      let low = 0xDC00 + (c - 0x10000) % 0x400 in
      high / 256 ∷ high % 256 ∷ low / 256 ∷ low % 256 ∷ rest

-- `a < b` on bytes
unfoldable pub bytes_ltb : Bytes → Bytes → Bool
bytes_ltb s [] = false
bytes_ltb [] (d ∷ t) = true
bytes_ltb (c ∷ s) (d ∷ t) =
    let rest = bytes_ltb s t in if ltb c d then true else if nat_beq c d then rest else false

bytes_ltb-total : (s t : Bytes) → bytes_ltb s t ≡ false → bytes_ltb t s ≡ false → s ≡ t
unfolding bytes_ltb
bytes_ltb-total [] [] h k = refl
bytes_ltb-total [] (d ∷ t) h k = ground (arith, h)
bytes_ltb-total (c ∷ s) [] h k = ground (arith, k)
bytes_ltb-total (c ∷ s) (d ∷ t) h k = ground (arith, h, k, bytes_ltb-total s t)

-- What is below one text is below each other one that is not above it.
bytes_ltb-below :
    (s t u : Bytes) → bytes_ltb s t ≡ true → bytes_ltb s u ≡ false → bytes_ltb u t ≡ true
unfolding bytes_ltb
bytes_ltb-below s [] u h k = ground (arith, h)
bytes_ltb-below [] (d ∷ t) [] h k = refl
bytes_ltb-below [] (d ∷ t) (e ∷ u) h k = ground (arith, k)
bytes_ltb-below (c ∷ s) (d ∷ t) [] h k = refl
bytes_ltb-below (c ∷ s) (d ∷ t) (e ∷ u) h k = ground (arith, h, k, bytes_ltb-below s t u)

bytes_ltb-asym : (s t : Bytes) → bytes_ltb s t ≡ true → bytes_ltb t s ≡ false
unfolding bytes_ltb
bytes_ltb-asym s [] h = ground (arith, h)
bytes_ltb-asym [] (d ∷ t) h = refl
bytes_ltb-asym (c ∷ s) (d ∷ t) h = ground (arith, h, bytes_ltb-asym s t)

-- `sorted(items, key=...)`, which is stable.
module _ {A : Type 0} (key : A → Bytes) where
  unfoldable pub insert : A → List A → List A
  insert x [] = x ∷ []
  insert x (y ∷ ys) =
      let rest = insert x ys in if bytes_ltb (key y) (key x) then y ∷ rest else x ∷ y ∷ ys

  unfoldable pub sorted : List A → List A
  sorted [] = []
  sorted (x ∷ xs) = insert x (sorted xs)

  insert_swap :
      (x y : A) → key x ≢ key y → (l : List A) → insert x (insert y l) ≡ insert y (insert x l)
  unfolding insert
  insert_swap x y n [] = elim (Bool-cases (bytes_ltb (key x) (key y))) [
    | inl p ↦ rw (p, bytes_ltb-asym (key x) (key y) p) refl
    | inr p ↦ elim (Bool-cases (bytes_ltb (key y) (key x))) [
      | inl q ↦ rw (p, q) refl
      | inr q ↦ absurd (n (bytes_ltb-total (key x) (key y) p q))
    ]
  ]
  insert_swap x y n (z ∷ l) = ground (
    arith,
    n,
    insert_swap x y n l,
    bytes_ltb-asym (key x) (key y),
    bytes_ltb-asym (key y) (key x),
    bytes_ltb-total (key x) (key y),
    bytes_ltb-below (key z) (key x) (key y),
    bytes_ltb-below (key z) (key y) (key x),
  )

  abbrev pub Apart : A → A → Type 0
  Apart x y = key x ≢ key y

  -- The order in which items with distinct keys come does not matter.
  pub sorted_reordered : {l m : List A} → Permᴰ l m → Pairwise Apart l → sorted l ≡ sorted m
  unfolding sorted
  sorted_reordered Permᴰ.nil d = refl
  sorted_reordered (Permᴰ.cons e p) (Pairwise.cons below d) =
      λ i. insert (e i) (sorted_reordered p d i)
  sorted_reordered (Permᴰ.swap {a = a} {b = b} {l = l} e f) (Pairwise.cons below d) =
      insert_swap a b (below b mem-cons_self) (sorted l) ∙ λ i.
      insert (f i) (insert (e i) (sorted l))
  sorted_reordered (Permᴰ.trans p q) d =
      sorted_reordered p d
      ∙ sorted_reordered q (Permᴰ.pairwise {R = Apart} (λ a b. ¬_prop) (λ a b n e. n (sym e)) p d)

  -- What holds of all the items holds of the sorted ones, and conversely.
  pub All-insert : (P : A → Type 0) (x : A) (l : List A) → All P (insert x l) ↔ (P x × All P l)
  unfolding insert
  All-insert P x [] = (λ h. h, λ h. h)
  All-insert P x (y ∷ ys) = elim (Bool-cases (bytes_ltb (key y) (key x))) [
    | inl p ↦ rw p (
      λ h. (((All-insert P x ys).0 (h.1)).0, (h.0, ((All-insert P x ys).0 (h.1)).1)),
      λ h. (h.1.0, (All-insert P x ys).1 (h.0, h.1.1)),
    )
    | inr p ↦ rw p (λ h. h, λ h. h)
  ]

  pub All-sorted : (P : A → Type 0) (l : List A) → All P (sorted l) ↔ All P l
  unfolding sorted
  All-sorted P [] = (λ h. h, λ h. h)
  All-sorted P (x ∷ xs) =
      let (to, from) = All-insert P x (sorted xs) in
      let (to', from') = All-sorted P xs in
      (λ h. ((to h).0, to' ((to h).1)), λ h. from (h.0, from' h.1))
