-- ===== src/Canonical/Layout.antt =====
-- The layout of a float in `_jcs_number` of ephemora_cell/execution_report.py, read as `repr`'s texts
-- are.
use mathlib.Core.List.{append-nil}
use ephemora_cell.Common.{
  ℕ, zero, suc, ◌+◌, ◌-◌, ◌≡◌, refl, ap, sym, ◌∙◌, ◌≢◌, inl, inr, some, [], ◌∷◌, ◌++◌, leb, length,
  length-append, take, drop, ◌&&◌, arith, All, Bool-cases, ok,
}
use ephemora_cell.Common.Int.{ℤ, pos, negsuc, sub_ℕ, ◌+ℤ◌, ltb_ℤ, leb_ℤ}
use ephemora_cell.Common.Show.{show}
use ephemora_cell.Common.Decimal.{codes, int_text, int_text-show}
use ephemora_cell.Common.Bytes.{Text}
use ephemora_cell.Canonical.Digits.{
  IsDigit, IsLeading, All-append, partition_at-none, partition_at-some, All-digits, All-zeros,
  All-take, All-drop, take-drop, length-drop, length-zeros, rstrip-append, lstrip-leading,
  lstrip-zeros,
}
use ephemora_cell.Canonical.Number.{
  dot, digit_zero, lstrip, rstrip, zeros, mantissa_of, parts, place, decompose, fixed, scientific,
  suffix, layout, sign_of, magnitude,
}

-- The digits and the place of a mantissa whose digits are `d` and zeros.
place_of :
    (e : ℤ) (a b d : Text) (k : ℕ)
    → lstrip (a ++ b) ≡ d ++ zeros k
    → rstrip d ≡ d
    → place e (a, b) ≡ (d, e +ℤ sub_ℕ 0 (length b) +ℤ pos k +ℤ pos (length d))
place_of e a b d k h r =
    rw (h, rstrip-append d k, r, length-append d (zeros k), length-zeros k)
      (ap (λ (n : ℕ). (d, e +ℤ sub_ℕ 0 (length b) +ℤ pos n +ℤ pos (length d))) (omega arith))

mantissa_of-plain : (s : Text) → All (λ c. c ≢ b'e') s → mantissa_of s ≡ ok (s, pos 0)
unfolding mantissa_of
mantissa_of-plain s h = rw (mantissa_of, partition_at-none b'e' s h) refl

mantissa_of-exponent :
    (s exp : Text) (e : ℤ)
    → All (λ c. c ≢ b'e') s
    → int_text exp ≡ some e
    → mantissa_of (s ++ b'e' ∷ exp) ≡ ok (s, e)
unfolding mantissa_of
mantissa_of-exponent s exp e h k = rw (mantissa_of, partition_at-some b'e' s exp h, k) refl

parts_whole : (s : Text) → All IsDigit s → parts s ≡ ok (s, [])
unfolding parts
parts_whole s h = rw (parts, partition_at-none dot s (All-digits dot (inl (omega arith)) s h)) refl

parts_point : (a b : Text) → All IsDigit a → All IsDigit b → parts (a ++ dot ∷ b) ≡ ok (a, b)
unfolding parts
parts_point a b h k =
    rw
      (
        parts,
        partition_at-some dot a b (All-digits dot (inl (omega arith)) a h),
        partition_at-none dot b (All-digits dot (inl (omega arith)) b k),
      )
      refl

decompose_of :
    (r s : Text) (e : ℤ) (p : Text × Text)
    → mantissa_of r ≡ ok (s, e)
    → parts s ≡ ok p
    → decompose r ≡ ok (place e p)
unfolding decompose
decompose_of r s e p h k = rw (h, k) refl

no_e : (s : Text) → All IsDigit s → All (λ c. c ≢ b'e') s
no_e s h = All-digits b'e' (inr (omega arith)) s h

-- Digits, with a point among them or not.
no_e_point : (a b : Text) → All IsDigit a → All IsDigit b → All (λ c. c ≢ b'e') (a ++ dot ∷ b)
no_e_point a b h k =
    All-append (λ c. c ≢ b'e') a (dot ∷ b) (no_e a h) (λ e. omega (arith, e), no_e b k)

decompose_whole :
    (s d : Text) (k : ℕ)
    → All IsDigit s
    → lstrip s ≡ d ++ zeros k
    → rstrip d ≡ d
    → decompose s ≡ ok (d, pos (k + length d))
unfolding ◌+ℤ◌
decompose_whole s d k h l r =
    decompose_of s s (pos 0) (s, []) (mantissa_of-plain s (no_e s h)) (parts_whole s h)
    ∙ ap ok (place_of (pos 0) s [] d k (rw append-nil l) r)
    ∙ ap (λ (n : ℤ). ok (d, n)) (ground arith)

decompose_point :
    (a b d : Text)
    → All IsDigit a
    → All IsDigit b
    → lstrip (a ++ b) ≡ d
    → rstrip d ≡ d
    → decompose (a ++ dot ∷ b) ≡ ok (d, sub_ℕ (length d) (length b))
unfolding ◌+ℤ◌ zeros
decompose_point a b d h k l r =
    decompose_of (a ++ dot ∷ b) (a ++ dot ∷ b) (pos 0) (a, b)
      (mantissa_of-plain (a ++ dot ∷ b) (no_e_point a b h k)) (parts_point a b h k)
    ∙ ap ok (place_of (pos 0) a b d 0 (rw append-nil l) r)
    ∙ ap (λ (n : ℤ). ok (d, n)) (ground arith)

lstrip_alone : (d : Text) → IsLeading d → lstrip d ≡ d
lstrip_alone d l = rw append-nil at (lstrip-leading d [] l)

below_one :
    (d : Text) (k : ℕ)
    → All IsDigit d
    → IsLeading d
    → rstrip d ≡ d
    → decompose (digit_zero ∷ dot ∷ zeros k ++ d) ≡ ok (d, sub_ℕ 0 k)
unfolding lstrip
below_one d k h l r =
    decompose_point (digit_zero ∷ []) (zeros k ++ d) d ((omega arith, omega arith), tt)
      (All-append IsDigit (zeros k) d (All-zeros k) h) (lstrip-zeros k d ∙ lstrip_alone d l) r
    ∙ ap (λ (n : ℤ). ok (d, n)) (ground (arith, length-append (zeros k) d, length-zeros k))

-- A text with a fixed point says the digits and the place that it was made for.
decompose-fixed :
    (d : Text) (n : ℤ)
    → All IsDigit d
    → IsLeading d
    → rstrip d ≡ d
    → decompose (fixed d n) ≡ ok (d, n)
decompose-fixed d (pos (suc m)) h l r = elim (Bool-cases (leb (length d) (suc m))) [
  | inl p ↦
      let k = suc m - length d in
      rw p (
        decompose_whole (d ++ zeros k) d k (All-append IsDigit d (zeros k) h (All-zeros k))
          (lstrip-leading d (zeros k) l) r
        ∙ ap (λ (n : ℕ). ok (d, pos n)) (ground (arith, p)))
  | inr p ↦ rw p (
      decompose_point (take (suc m) d) (drop (suc m) d) d (All-take IsDigit (suc m) d h)
        (All-drop IsDigit (suc m) d h) (rw (take-drop (suc m) d) (lstrip_alone d l)) r
      ∙ ap (λ (n : ℤ). ok (d, n)) (ground (arith, p, length-drop (suc m) d)))
]
decompose-fixed d (pos zero) h l r = below_one d 0 h l r
decompose-fixed d (negsuc m) h l r =
    below_one d (suc m) h l r ∙ ap (λ (n : ℤ). ok (d, n)) (ground arith)

-- The exponent is read as it was printed.
int_text-suffix : (e : ℤ) → int_text (sign_of e ∷ codes (show (magnitude e))) ≡ some e
int_text-suffix (pos n) =
    ap (λ (m : ℕ). int_text (b'+' ∷ codes (show (pos m)))) (omega arith) ∙ (int_text-show n).0
int_text-suffix (negsuc n) =
    ap (λ (m : ℕ). int_text (b'-' ∷ codes (show (pos m)))) (omega arith)
    ∙ (int_text-show (suc n)).1
    ∙ ap some (ground arith)

decompose_exponent :
    (r d : Text) (n : ℤ) (p : Text × Text)
    → All (λ c. c ≢ b'e') r
    → parts r ≡ ok p
    → lstrip (p.0 ++ p.1) ≡ d
    → rstrip d ≡ d
    → decompose (r ++ suffix (n +ℤ negsuc 0))
      ≡ ok (d, n +ℤ negsuc 0 +ℤ sub_ℕ 0 (length p.1) +ℤ pos 0 +ℤ pos (length d))
unfolding zeros
decompose_exponent r d n p h q l s =
    let m = n +ℤ negsuc 0 in
    decompose_of (r ++ suffix m) r m p
      (mantissa_of-exponent r (sign_of m ∷ codes (show (magnitude m))) m h (int_text-suffix m)) q
    ∙ ap ok (place_of m p.0 p.1 d 0 (rw append-nil l) s)

decompose-scientific :
    (d : Text) (n : ℤ) (out : Text)
    → All IsDigit d
    → IsLeading d
    → rstrip d ≡ d
    → scientific d n ≡ ok out
    → decompose out ≡ ok (d, n)
unfolding ◌+ℤ◌
decompose-scientific [] n out h l r e = absurd l
decompose-scientific (c ∷ []) n out h l r e =
    let whole = c ∷ [] in
    let same : whole ++ suffix (n +ℤ negsuc 0) ≡ out = cc in
    rw (sym same) (
      decompose_exponent whole whole n (whole, []) (no_e whole h) (parts_whole whole h)
        (lstrip_alone whole l) r
      ∙ ap (λ (n : ℤ). ok (whole, n)) (ground arith))
decompose-scientific (c ∷ c' ∷ s) n out h l r e =
    let same : (c ∷ dot ∷ (c' ∷ s)) ++ suffix (n +ℤ negsuc 0) ≡ out = cc in
    rw (sym same) (
      decompose_exponent (c ∷ dot ∷ (c' ∷ s)) (c ∷ c' ∷ s) n (c ∷ [], c' ∷ s)
        (no_e_point (c ∷ []) (c' ∷ s) (h.0, tt) h.1) (parts_point (c ∷ []) (c' ∷ s) (h.0, tt) h.1)
        (lstrip_alone (c ∷ c' ∷ s) l) r
      ∙ ap (λ (n : ℤ). ok (c ∷ c' ∷ s, n)) (ground arith))

-- Whatever text is made for some digits and a place, it is read as these.
pub decompose-layout :
    (d : Text) (n : ℤ) (out : Text)
    → All IsDigit d
    → IsLeading d
    → rstrip d ≡ d
    → layout d n ≡ ok out
    → decompose out ≡ ok (d, n)
unfolding layout
decompose-layout d n out h l r e = elim (Bool-cases (ltb_ℤ (negsuc 5) n && leb_ℤ n (pos 21))) [
  | inl p ↦
      let same : fixed d n ≡ out = ground (arith, p, e) in rw (sym same) (decompose-fixed d n h l r)
  | inr p ↦ decompose-scientific d n out h l r (rw p at e)
]
