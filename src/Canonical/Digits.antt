-- ===== src/Canonical/Digits.antt =====
-- Digits and zeros in the texts of numbers, for `_jcs_number` of ephemora_cell/execution_report.py.
use ephemora_cell.Common.{
  ℕ, zero, suc, ◌-◌, ◌≤◌, ◌<◌, ◌≡◌, refl, ap, ◌≢◌, ◌⊎◌, inl, inr, none, some, List, [], ◌∷◌, ◌++◌,
  nat_beq, length, take, drop, arith, All, Bool-cases,
}
use ephemora_cell.Common.Bytes.{Text}
use ephemora_cell.Canonical.Number.{digit_zero, partition_at, lstrip, rstrip, unless_zero, zeros}

abbrev pub IsDigit : ℕ → Type 0
IsDigit c = (b'0' ≤ c) × (c ≤ b'9')

-- Digits that do not begin with a zero.
abbrev pub IsLeading : Text → Type 0
IsLeading [] = ⊥
IsLeading (c ∷ s) = c ≢ digit_zero

pub All-append {ℓ κ} :
    {A : Type ℓ} (P : A → Type κ) (s t : List A) → All P s → All P t → All P (s ++ t)
All-append P [] t h k = k
All-append P (x ∷ s) t h k = (h.0, All-append P s t h.1 k)

pub partition_at-none : (sep : ℕ) (s : Text) → All (λ c. c ≢ sep) s → partition_at sep s ≡ none
unfolding partition_at
partition_at-none sep [] h = refl
partition_at-none sep (c ∷ s) h = ground (arith, h.0, partition_at-none sep s h.1)

pub partition_at-some :
    (sep : ℕ) (s t : Text) → All (λ c. c ≢ sep) s → partition_at sep (s ++ sep ∷ t) ≡ some (s, t)
unfolding partition_at
partition_at-some sep [] t h = ground arith
partition_at-some sep (c ∷ s) t h = ground (arith, h.0, partition_at-some sep s t h.1)

pub All-digits :
    (sep : ℕ) → (sep < b'0') ⊎ (b'9' < sep) → (s : Text) → All IsDigit s → All (λ c. c ≢ sep) s
All-digits sep b [] h = tt
All-digits sep b (c ∷ s) h = (λ e. ground (arith, b, h.0, e), All-digits sep b s h.1)

pub All-zeros : (n : ℕ) → All IsDigit (zeros n)
unfolding zeros
All-zeros zero = tt
All-zeros (suc n) = (omega arith, All-zeros n)

pub All-take : (P : ℕ → Type 0) (n : ℕ) (s : Text) → All P s → All P (take n s)
All-take P zero s h = tt
All-take P (suc n) [] h = tt
All-take P (suc n) (c ∷ s) h = (h.0, All-take P n s h.1)

pub All-drop : (P : ℕ → Type 0) (n : ℕ) (s : Text) → All P s → All P (drop n s)
All-drop P zero s h = h
All-drop P (suc n) [] h = tt
All-drop P (suc n) (c ∷ s) h = All-drop P n s h.1

pub take-drop : (n : ℕ) (s : Text) → take n s ++ drop n s ≡ s
take-drop zero s = refl
take-drop (suc n) [] = refl
take-drop (suc n) (c ∷ s) = ap (◌∷◌ c) (take-drop n s)

pub length-drop : (n : ℕ) (s : Text) → length (drop n s) ≡ length s - n
length-drop zero s = omega arith
length-drop (suc n) [] = omega arith
length-drop (suc n) (c ∷ s) = omega (arith, length-drop n s)

pub length-zeros : (n : ℕ) → length (zeros n) ≡ n
unfolding zeros
length-zeros zero = refl
length-zeros (suc n) = ap suc (length-zeros n)

pub rstrip-zeros : (n : ℕ) → rstrip (zeros n) ≡ []
unfolding rstrip zeros
rstrip-zeros zero = refl
rstrip-zeros (suc n) = rw (rstrip-zeros n) refl

pub rstrip-append : (s : Text) (n : ℕ) → rstrip (s ++ zeros n) ≡ rstrip s
unfolding rstrip
rstrip-append [] n = rstrip-zeros n
rstrip-append (c ∷ s) n = ap (unless_zero c) (rstrip-append s n)

pub lstrip-leading : (d s : Text) → IsLeading d → lstrip (d ++ s) ≡ d ++ s
unfolding lstrip
lstrip-leading [] s h = absurd h
lstrip-leading (c ∷ d) s h = ground (arith, h)

pub lstrip-zeros : (n : ℕ) (s : Text) → lstrip (zeros n ++ s) ≡ lstrip s
unfolding lstrip zeros
lstrip-zeros zero s = refl
lstrip-zeros (suc n) s = lstrip-zeros n s

unless_zero_idem : (c : ℕ) (s : Text) → rstrip s ≡ s → rstrip (unless_zero c s) ≡ unless_zero c s
unfolding rstrip
unless_zero_idem c [] h = ground arith
unless_zero_idem c (d ∷ s) h = rw h refl

pub rstrip_idem : (s : Text) → rstrip (rstrip s) ≡ rstrip s
unfolding rstrip
rstrip_idem [] = refl
rstrip_idem (c ∷ s) = unless_zero_idem c (rstrip s) (rstrip_idem s)

unless_zero-leading :
    (c d : ℕ) (s t : Text) → c ≢ digit_zero → unless_zero c s ≡ d ∷ t → d ≢ digit_zero
unless_zero-leading c d [] t n e = ground (arith, n, e)
unless_zero-leading c d (x ∷ s) t n e = ground (arith, n, e)

-- Stripped digits do not begin with a zero.
pub rstrip-lstrip : (s t : Text) (c : ℕ) → rstrip (lstrip s) ≡ c ∷ t → c ≢ digit_zero
unfolding lstrip rstrip
rstrip-lstrip [] t c e = ground (arith, e)
rstrip-lstrip (x ∷ s) t c e = elim (Bool-cases (nat_beq x digit_zero)) [
  | inl p ↦ rstrip-lstrip s t c (rw p at e)
  | inr p ↦ unless_zero-leading x c (rstrip s) t (ground (arith, p)) (rw p at e)
]
