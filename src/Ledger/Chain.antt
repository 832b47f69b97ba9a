-- ===== src/Ledger/Chain.antt =====
-- Chains that the writer makes: an intact chain stays intact under `append`, and each of its beginnings
-- is intact.
use ephemora_cell.Common.{
  ℕ, suc, ◌+◌, ◌≡◌, refl, ap, sym, String, true, false, Option, none, some, List, [], ◌∷◌, ◌++◌,
  arith, length, ok, Outcome-cases, inl, inr, text_key, map,
}
use ephemora_cell.Common.Bytes.{Bytes}
use ephemora_cell.Common.Int.{pos, int_key}
use ephemora_cell.Common.Json.{Json, Fields, end, field, get, has, is_text, is_number}
use ephemora_cell.Common.Decimal.{int_of}
use ephemora_cell.Ledger.{
  Raw, broken, seals, last_line, loads, signed_entry_digest, check_entry, links,
}

pub int_of-is_number : (n : ℕ) (v : Json) → is_number n v ≡ true → int_of v ≡ some (pos n)
unfolding int_of
int_of-is_number n Json.null h = ground (arith, h)
int_of-is_number n (Json.bool true) h = ground (arith, h)
int_of-is_number n (Json.bool false) h = ground (arith, h)
int_of-is_number n (Json.num m) h = ground (arith, h)
int_of-is_number n (Json.float m true) h = ground (arith, h)
int_of-is_number n (Json.float m false) h = ground (arith, h)
int_of-is_number n Json.nan h = ground (arith, h)
int_of-is_number n (Json.str s) h = ground (arith, h)
int_of-is_number n (Json.arr xs) h = ground (arith, h)
int_of-is_number n (Json.obj d) h = ground (arith, h)

pub get-has : (k : String) (n : ℕ) (d : Fields) → is_number n (get k d) ≡ true → has k d ≡ true
get-has k n end h = ground (arith, h)
get-has k n (field j v d) h = ground (arith, get-has k n d)

pub loads-snoc :
    (book : List Raw) (v : Json) (vs : List Json)
    → loads book ≡ ok vs
    → loads (book ++ some v ∷ []) ≡ ok (vs ++ v ∷ [])
unfolding loads
loads-snoc [] v vs h = ground (arith, h)
loads-snoc (none ∷ rest) v vs h = ground (arith, h)
loads-snoc (some x ∷ rest) v vs h = elim (Outcome-cases (loads rest)) [
  | inr (t, e) ↦ ground (arith, e, h)
  | inl (xs, e) ↦
      let made : vs ≡ x ∷ xs = ground (arith, e, h) in rw (loads-snoc rest v xs e, made) refl
]

module _ (canonical : Fields → Option Bytes) (sha256 : Bytes → String) where
  -- An entry that the check accepts at a position.
  pub record Sealed (position : ℕ) (prev : String) (v : Json) (h : String) : Type 0 where
    pub d : Fields
    pub is_object : v ≡ Json.obj d
    pub version : is_text "v1" (get "ledger_version" d) ≡ true
    pub placed : is_number position (get "sequence" d) ≡ true
    pub linked : is_text prev (get "prev_hash" d) ≡ true
    pub digests : signed_entry_digest canonical sha256 d ≡ ok h

  pub check_entry-Sealed :
      (position : ℕ) (prev : String) (v : Json) (h : String)
      → check_entry canonical sha256 none position prev v ≡ ok (seals h)
      → Sealed position prev v h
  unfolding check_entry
  check_entry-Sealed position prev (Json.obj d) h e =
      elim (Outcome-cases (signed_entry_digest canonical sha256 d)) [
        | inr (t, g) ↦ ground (arith, e, g)
        | inl (h', g) ↦ record {
          d = d;
          is_object = refl;
          version = ground (arith, e, g);
          placed = ground (arith, e, g);
          linked = ground (arith, e, g);
          digests = ground (arith, e, g);
        }
      ]
  check_entry-Sealed position prev Json.null h e = ground (arith, e)
  check_entry-Sealed position prev (Json.bool b) h e = ground (arith, e)
  check_entry-Sealed position prev (Json.num n) h e = ground (arith, e)
  check_entry-Sealed position prev (Json.float n b) h e = ground (arith, e)
  check_entry-Sealed position prev Json.nan h e = ground (arith, e)
  check_entry-Sealed position prev (Json.str s) h e = ground (arith, e)
  check_entry-Sealed position prev (Json.arr xs) h e = ground (arith, e)

  pub Sealed-check_entry :
      (position : ℕ) (prev : String) (v : Json) (h : String)
      → Sealed position prev v h
      → check_entry canonical sha256 none position prev v ≡ ok (seals h)
  unfolding check_entry
  Sealed-check_entry position prev v h s =
      rw (s.is_object, check_entry, s.version, s.placed, s.linked, s.digests)

  -- A chain without a break seals its first entry, and goes on from that entry's digest.
  pub links-cons :
      (position : ℕ) (prev : String) (v : Json) (rest : List Json)
      → links canonical sha256 none position prev (v ∷ rest) ≡ ok none
      → (h : String) × (check_entry canonical sha256 none position prev v ≡ ok (seals h))
        × (links canonical sha256 none (suc position) h rest ≡ ok none)
  unfolding links
  links-cons position prev v rest e =
      elim (Outcome-cases (check_entry canonical sha256 none position prev v)) [
        | inr (t, g) ↦ ground (arith, e, g)
        | inl (broken b, g) ↦ ground (arith, e, g)
        | inl (seals h, g) ↦ (h, g, rw (g, links) at e)
      ]

  -- Where a chain without a break ends: its last entry stands at the last position, and an entry that
  -- seals it extends the chain.
  pub record Tip (position : ℕ) (prev : String) (v : Json) (rest : List Json) : Type 0 where
    pub d : Fields
    pub h : String
    pub is_last : last_line (map (λ (x : Json). some x) (v ∷ rest)) ≡ some (some (Json.obj d))
    pub placed : is_number (position + length rest) (get "sequence" d) ≡ true
    pub digests : signed_entry_digest canonical sha256 d ≡ ok h
    pub extends :
        (w : Json) (h' : String)
        → check_entry canonical sha256 none (suc (position + length rest)) h w ≡ ok (seals h')
        → links canonical sha256 none position prev ((v ∷ rest) ++ w ∷ []) ≡ ok none

  pub links-Tip :
      (position : ℕ) (prev : String) (v : Json) (rest : List Json)
      → links canonical sha256 none position prev (v ∷ rest) ≡ ok none
      → Tip position prev v rest
  unfolding links
  links-Tip position prev v [] e =
      let (h, c, onward) = links-cons position prev v [] e in
      let s = check_entry-Sealed position prev v h c in
      let p : position + 0 ≡ position = omega arith in
      record {
        d = s.d;
        h = h;
        is_last = rw s.is_object refl;
        placed = rw p s.placed;
        digests = s.digests;
        extends = λ w h' g. rw (c, links, ap suc (sym p), g) refl;
      }
  links-Tip position prev v (x ∷ rest) e =
      let (h, c, onward) = links-cons position prev v (x ∷ rest) e in
      let t = links-Tip (suc position) h x rest onward in
      let p : suc position + length rest ≡ position + suc (length rest) = omega arith in
      record {
        d = t.d;
        h = t.h;
        is_last = t.is_last;
        placed = rw (sym p) t.placed;
        digests = t.digests;
        extends = λ w h' g. rw (c, links) (t.extends w h' (rw p g));
      }
