-- ===== src/Canonical/Floats.antt =====
-- `_jcs_number` of ephemora_cell/execution_report.py on floats.
use ephemora_cell.Common.{
  ℕ, ◌≡◌, refl, ap, sym, ◌∙◌, inl, inr, Bool, [], ◌∷◌, ◌++◌, ◌&&◌, arith, All, Bool-cases, ok,
  Outcome-cases,
}
use ephemora_cell.Common.Int.{ℤ, pos, negsuc, ◌+ℤ◌, ltb_ℤ, leb_ℤ}
use ephemora_cell.Common.Bytes.{Text}
use ephemora_cell.Canonical.Data.{Float}
use ephemora_cell.Canonical.Digits.{IsDigit, rstrip_idem, rstrip-lstrip}
use ephemora_cell.Canonical.Number.{
  dot, lstrip, rstrip, mantissa_of, parts, decompose, fixed, scientific, suffix, layout, jcs_float,
  signed,
}
use ephemora_cell.Canonical.Layout.{decompose-layout}

scientific_some : (c : ℕ) (d : Text) (n : ℤ) → (out : Text) × (scientific (c ∷ d) n ≡ ok out)
scientific_some c [] n = (c ∷ suffix (n +ℤ negsuc 0), refl)
scientific_some c (e ∷ s) n = (c ∷ dot ∷ (e ∷ s) ++ suffix (n +ℤ negsuc 0), refl)

layout_some : (c : ℕ) (d : Text) (n : ℤ) → (out : Text) × (layout (c ∷ d) n ≡ ok out)
unfolding layout
layout_some c d n = elim (Bool-cases (ltb_ℤ (negsuc 5) n && leb_ℤ n (pos 21))) [
  | inl p ↦ (fixed (c ∷ d) n, rw p refl)
  | inr p ↦ let (out, e) = scientific_some c d n in (out, rw p e)
]

decompose_stripped :
    (r : Text) (d : Text) (n : ℤ) → decompose r ≡ ok (d, n) → (s : Text) × (rstrip (lstrip s) ≡ d)
unfolding decompose
decompose_stripped r d n e = elim (Outcome-cases (mantissa_of r)) [
  | inr (x, p) ↦ absurd (ground (arith, e, p))
  | inl ((m, exp), p) ↦ elim (Outcome-cases (parts m)) [
    | inr (x, q) ↦ absurd (ground (arith, e, p, q))
    | inl ((a, b), q) ↦ (a ++ b, ground (arith, e, p, q))
  ]
]

-- A finite float whose `repr` has digits, not all of them zero, has a canonical text; read as `repr`'s
-- text is, it has after the sign the same significant digits and the same place of the point.
pub jcs_float-decompose :
    (negative : Bool) (r : Text) (c : ℕ) (d : Text) (n : ℤ)
    → decompose r ≡ ok (c ∷ d, n)
    → All IsDigit (c ∷ d)
    → (out : Text) × (jcs_float (Float.finite negative r) ≡ ok (signed negative out))
      × (decompose out ≡ decompose r)
unfolding jcs_float
jcs_float-decompose negative r c d n e h =
    let (s, q) = decompose_stripped r (c ∷ d) n e in
    let (out, k) = layout_some c d n in
    let ended = sym (ap rstrip q) ∙ rstrip_idem (lstrip s) ∙ q in
    (out, rw (e, k) refl, decompose-layout (c ∷ d) n out h (rstrip-lstrip s d c q) ended k ∙ sym e)
