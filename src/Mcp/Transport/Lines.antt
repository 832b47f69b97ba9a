-- ===== src/Mcp/Transport/Lines.antt =====
-- The lines of a whole input, and how the first of them is cut off.
use ephemora_cell.Common.{
  ℕ, ◌≡◌, refl, none, some, List, [], ◌∷◌, ◌++◌, nat_beq, arith, Option-cases, Bool-cases, inl, inr,
}
use ephemora_cell.Common.Bytes.{Bytes}
use ephemora_cell.Common.Texts.{newline, join, lines}
use ephemora_cell.Mcp.Transport.{cut}

pub lines-cut :
    (s t l rest : Bytes) → cut s ≡ some (l, rest) → lines (s ++ t) ≡ l ∷ lines (rest ++ t)
unfolding cut lines
lines-cut [] t l rest h = ground (arith, h)
lines-cut (c ∷ s) t l rest h = elim (Bool-cases (nat_beq c newline)) [
  | inl n ↦ ground (arith, h, n)
  | inr n ↦ elim (Option-cases (cut s)) [
    | inl k ↦ ground (arith, h, n, k)
    | inr ((m, r), k) ↦ ground (arith, h, n, k, lines-cut s t m r k)
  ]
]

join_one : (c : ℕ) (s : Bytes) (ls : List Bytes) → join (c ∷ []) (join s ls) ≡ join (c ∷ s) ls
join_one c [] ls = refl
join_one c (d ∷ s) [] = refl
join_one c (d ∷ s) (l ∷ ls) = refl

pub lines-uncut : (s t : Bytes) → cut s ≡ none → lines (s ++ t) ≡ join s (lines t)
unfolding cut lines
lines-uncut [] t h = refl
lines-uncut (c ∷ s) t h = elim (Bool-cases (nat_beq c newline)) [
  | inl n ↦ ground (arith, h, n)
  | inr n ↦ elim (Option-cases (cut s)) [
    | inl k ↦ rw (n, lines-uncut s t k) (join_one c s (lines t))
    | inr (p, k) ↦ ground (arith, h, n, k)
  ]
]

pub cut-append : (s t : Bytes) → cut s ≡ none → cut t ≡ none → cut (s ++ t) ≡ none
unfolding cut
cut-append [] t h k = k
cut-append (c ∷ s) t h k = elim (Bool-cases (nat_beq c newline)) [
  | inl n ↦ ground (arith, h, n)
  | inr n ↦ elim (Option-cases (cut s)) [
    | inl e ↦ ground (arith, n, cut-append s t e k)
    | inr (p, e) ↦ ground (arith, h, n, e)
  ]
]
