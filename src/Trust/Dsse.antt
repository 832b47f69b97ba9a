-- ===== src/Trust/Dsse.antt =====
-- The pre-authentication encoding of DSSE, `dsse_pae` of ephemora_cell/execution_report.py.
use mathlib.Core.List.{append_assoc}
use ephemora_cell.Common.{
  ◌≡◌, ◌<◌, refl, ap, sym, ◌∙◌, Bool, ◌&&◌, Option, none, some, [], ◌∷◌, ◌++◌, ltb, length,
  if◌then◌else◌, arith, Bool-cases, inl, inr,
}
use ephemora_cell.Common.Bytes.{Bytes, to_bytes4, from_bytes, from_bytes-to_bytes4}
use ephemora_cell.Common.Decimal.{codes}

-- A field with its length before it.
abbrev pub framed : Bytes → Bytes
framed s = to_bytes4 (length s) ++ s

-- `dsse_pae`, on the UTF-8 bytes of the payload type; `none` is the `OverflowError` of a length that
-- does not fit in four bytes.
unfoldable pub dsse_pae : Bytes → Bytes → Option Bytes
dsse_pae payload payload_type =
    if ltb (length payload) 4294967296 && ltb (length payload_type) 4294967296
    then some (codes "DSSEv1" ++ (framed payload_type ++ framed payload))
    else none

append_same : (s t u v : Bytes) → length s ≡ length t → s ++ u ≡ t ++ v → (s ≡ t) × (u ≡ v)
append_same [] [] u v h e = (refl, e)
append_same [] (d ∷ t) u v h e = absurd (omega (arith, h))
append_same (c ∷ s) [] u v h e = absurd (omega (arith, h))
append_same (c ∷ s) (d ∷ t) u v h e =
    let head : c ≡ d = ground (arith, e) in
    let tail : s ++ u ≡ t ++ v = ground (arith, e) in
    let (first, rest) = append_same s t u v (omega (arith, h)) tail in (λ i. head i ∷ first i, rest)

framed_same :
    (s t u v : Bytes)
    → length s < 4294967296
    → length t < 4294967296
    → framed s ++ u ≡ framed t ++ v
    → (s ≡ t) × (u ≡ v)
framed_same s t u v h k e =
    let (sizes, bodies) =
      append_same (to_bytes4 (length s)) (to_bytes4 (length t)) (s ++ u) (t ++ v) refl (
        sym (append_assoc (to_bytes4 (length s)) s u)
        ∙ e
        ∙ append_assoc (to_bytes4 (length t)) t v) in
    append_same s t u v
      (sym (from_bytes-to_bytes4 (length s) h)
        ∙ ap from_bytes sizes
        ∙ from_bytes-to_bytes4 (length t) k)
      bodies

abbrev pub fits : Bytes → Bytes → Bool
fits payload payload_type = ltb (length payload) 4294967296 && ltb (length payload_type) 4294967296

dsse_pae-some :
    (p t bytes : Bytes)
    → dsse_pae p t ≡ some bytes
    → (length p < 4294967296)
      × (length t < 4294967296)
      × (codes "DSSEv1" ++ (framed t ++ framed p) ≡ bytes)
unfolding dsse_pae
dsse_pae-some p t bytes e = elim (Bool-cases (fits p t)) [
  | inl h ↦
      let same : codes "DSSEv1" ++ (framed t ++ framed p) ≡ bytes = ground (arith, e, h) in
      (ground (arith, h), ground (arith, h), same)
  | inr h ↦ absurd (ground (arith, e, h))
]

-- Two payloads and types with the same encoding are the same: what is signed says which type it is.
pub dsse_pae-injective :
    (p q t u bytes : Bytes)
    → dsse_pae p t ≡ some bytes
    → dsse_pae q u ≡ some bytes
    → (p ≡ q) × (t ≡ u)
dsse_pae-injective p q t u bytes e f =
    let (hp, ht, same) = dsse_pae-some p t bytes e in
    let (hq, hu, same') = dsse_pae-some q u bytes f in
    let (_, framed_parts) =
      append_same (codes "DSSEv1") (codes "DSSEv1") (framed t ++ framed p) (framed u ++ framed q)
        refl (same ∙ sym same') in
    let (types, rest) = framed_same t u (framed p) (framed q) ht hu framed_parts in
    let (payloads, _) = framed_same p q [] [] hp hq (ap (λ (s : Bytes). s ++ []) rest) in
    (payloads, types)
