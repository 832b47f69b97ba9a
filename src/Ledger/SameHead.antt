-- ===== src/Ledger/SameHead.antt =====
-- What the head of a chain pins: two chains that verify and have the same head hold the same payloads,
-- unless two of their entries collide under the digest.
use ephemora_cell.Common.{
  ℕ, suc, ◌+◌, ◌≡◌, refl, ap, ◌∙◌, sym, String, true, false, Option, none, some, List, [], ◌∷◌,
  arith, length, Outcome, ok, eq_iff, str_eq, text_key, map, All,
}
use ephemora_cell.Common.Bytes.{Bytes}
use ephemora_cell.Common.Int.{pos}
use ephemora_cell.Common.Json.{Json, Fields, end, field, get, is_text}
use ephemora_cell.Ledger.{
  Raw, Error, genesis, payload, last_line, loads, signed_entry_digest, links, chain_break, head,
  verify,
}
use ephemora_cell.Ledger.Chain.{
  check_entry-Sealed, links-cons, links-Tip, int_of-is_number, get-has,
}

abbrev pub objects : List Fields → List Json
objects ds = map Json.obj ds

-- The lines of a book whose entries are objects.
abbrev pub lines : List Fields → List Raw
lines ds = map (λ (v : Json). some v) (objects ds)

length-objects : (ds : List Fields) → length (objects ds) ≡ length ds
length-objects [] = refl
length-objects (d ∷ ds) = ap suc (length-objects ds)

loads-lines : (ds : List Fields) → loads (lines ds) ≡ ok (objects ds)
unfolding loads
loads-lines [] = refl
loads-lines (d ∷ ds) = rw (loads-lines ds) refl

get-payload : (k : String) (d : Fields) → str_eq "signature" k ≡ false → get k (payload d) ≡ get k d
unfolding payload
get-payload k end h = refl
get-payload k (field j v d) h =
    ground (arith, get-payload k d h, eq_iff j "signature", eq_iff j k, eq_iff "signature" k)

abbrev last : Fields → List Fields → Fields
last d [] = d
last d (e ∷ es) = last e es

last_line-lines :
    (d : Fields) (ds : List Fields)
    → last_line (lines (d ∷ ds)) ≡ some (some (Json.obj (last d ds)))
last_line-lines d [] = refl
last_line-lines d (e ∷ es) = last_line-lines e es

same_text : (p q : String) (v : Json) → is_text p v ≡ true → is_text q v ≡ true → p ≡ q
same_text p q (Json.str s) a b = ground (arith, a, b, eq_iff s p, eq_iff s q)
same_text p q Json.null a b = ground (arith, a)
same_text p q (Json.bool x) a b = ground (arith, a)
same_text p q (Json.num x) a b = ground (arith, a)
same_text p q (Json.float x y) a b = ground (arith, a)
same_text p q Json.nan a b = ground (arith, a)
same_text p q (Json.arr x) a b = ground (arith, a)
same_text p q (Json.obj x) a b = ground (arith, a)

same_link :
    (p q : String) (d e : Fields)
    → payload d ≡ payload e
    → is_text p (get "prev_hash" d) ≡ true
    → is_text q (get "prev_hash" e) ≡ true
    → p ≡ q
same_link p q d e h a b =
    let g : get "prev_hash" d ≡ get "prev_hash" e =
      sym (get-payload "prev_hash" d refl)
      ∙ ap (get "prev_hash") h
      ∙ get-payload "prev_hash" e refl in
    same_text p q (get "prev_hash" e) (rw g at a) b

All-tails {ℓ} :
    {A B : Type ℓ} (R : A → B → Type 0) (y : B) (xs : List A) (ys : List B)
    → All (λ x. All (R x) (y ∷ ys)) xs
    → All (λ x. All (R x) ys) xs
All-tails R y [] ys h = tt
All-tails R y (x ∷ xs) ys h = (h.0.1, All-tails R y xs ys h.1)

module _ (canonical : Fields → Option Bytes) (sha256 : Bytes → String) where
  abbrev digest : Fields → Outcome Error String
  digest d = signed_entry_digest canonical sha256 d

  entry_digest :
      (position : ℕ) (prev : String) (d : Fields) (ds : List Fields)
      → links canonical sha256 none position prev (objects (d ∷ ds)) ≡ ok none
      → (h : String) × (digest d ≡ ok h)
        × (is_text prev (get "prev_hash" d) ≡ true)
        × (links canonical sha256 none (suc position) h (objects ds) ≡ ok none)
  entry_digest position prev d ds e =
      let (h, c, onward) = links-cons canonical sha256 position prev (Json.obj d) (objects ds) e in
      let s = check_entry-Sealed canonical sha256 position prev (Json.obj d) h c in
      let same : s.d ≡ d = ground (arith, s.is_object) in
      (h, rw same at s.digests, rw same at s.linked, onward)

  same_payloads :
      (position : ℕ) (prev prev' : String) (d e : Fields) (ds es : List Fields)
      → links canonical sha256 none position prev (objects (d ∷ ds)) ≡ ok none
      → links canonical sha256 none position prev' (objects (e ∷ es)) ≡ ok none
      → length ds ≡ length es
      → digest (last d ds) ≡ digest (last e es)
      → All (λ x. All (λ y. digest x ≡ digest y → payload x ≡ payload y) (e ∷ es)) (d ∷ ds)
      → (prev ≡ prev') × (map payload (d ∷ ds) ≡ map payload (e ∷ es))
  same_payloads position prev prev' d e [] [] a b n same apart =
      let (h, c, p, onward) = entry_digest position prev d [] a in
      let (h', c', q, onward') = entry_digest position prev' e [] b in
      let g = apart.0.0 same in (same_link prev prev' d e g p q, ap (λ (x : Fields). x ∷ []) g)
  same_payloads position prev prev' d e (x ∷ ds) [] a b n same apart = ground (arith, n)
  same_payloads position prev prev' d e [] (y ∷ es) a b n same apart = ground (arith, n)
  same_payloads position prev prev' d e (x ∷ ds) (y ∷ es) a b n same apart =
      let (h, c, p, onward) = entry_digest position prev d (x ∷ ds) a in
      let (h', c', q, onward') = entry_digest position prev' e (y ∷ es) b in
      let (sealed_same, rest) =
        same_payloads (suc position) h h' x y ds es onward onward' (omega (arith, n)) same (
          All-tails (λ u v. digest u ≡ digest v → payload u ≡ payload v) e (x ∷ ds) (y ∷ es)
            apart.1) in
      let g = apart.0.0 (c ∙ ap (λ (t : String). ok t) sealed_same ∙ sym c') in
      (same_link prev prev' d e g p q, cc (g, rest))

  -- The head of a chain without a break is the last position and the digest of the last entry.
  head-last :
      (d : Fields) (ds : List Fields)
      → links canonical sha256 none 0 genesis (objects (d ∷ ds)) ≡ ok none
      → (h : String) × (digest (last d ds) ≡ ok h)
        × (head canonical sha256 (lines (d ∷ ds)) ≡ ok (some (pos (length ds), h)))
  unfolding head
  head-last d ds e =
      let t = links-Tip canonical sha256 0 genesis (Json.obj d) (objects ds) e in
      let same : t.d ≡ last d ds = ground (arith, t.is_last, last_line-lines d ds) in
      let n : 0 + length (objects ds) ≡ length ds = omega (arith, length-objects ds) in
      (
        t.h,
        rw same at t.digests,
        rw
            (
              t.is_last,
              head,
              get-has "sequence" (0 + length (objects ds)) t.d t.placed,
              int_of-is_number (0 + length (objects ds)) (get "sequence" t.d) t.placed,
              t.digests,
            )
            (ap (λ (k : ℕ). ok (some (pos k, t.h))) n),
      )

  -- Two books of objects, neither of them empty, that verify and have the same head hold the same
  -- payloads in the same order, if no entry of the one has the digest of an entry of the other with
  -- another payload.
  pub head_pins_payloads :
      (d e : Fields) (ds es : List Fields)
      → verify canonical sha256 none (lines (d ∷ ds)) ≡ ok none
      → verify canonical sha256 none (lines (e ∷ es)) ≡ ok none
      → head canonical sha256 (lines (d ∷ ds)) ≡ head canonical sha256 (lines (e ∷ es))
      → All
          (λ x.
            All
              (λ y.
                signed_entry_digest canonical sha256 x ≡ signed_entry_digest canonical sha256 y
                → payload x ≡ payload y)
              (e ∷ es))
          (d ∷ ds)
      → map payload (d ∷ ds) ≡ map payload (e ∷ es)
  unfolding verify chain_break
  head_pins_payloads d e ds es v w same apart =
      let a : links canonical sha256 none 0 genesis (objects (d ∷ ds)) ≡ ok none =
        rw (loads-lines (d ∷ ds)) at v in
      let b : links canonical sha256 none 0 genesis (objects (e ∷ es)) ≡ ok none =
        rw (loads-lines (e ∷ es)) at w in
      let (h, p, q) = head-last d ds a in
      let (h', p', q') = head-last e es b in
      let heads = sym q ∙ same ∙ q' in
      let n : length ds ≡ length es = ground (arith, heads) in
      let g : h ≡ h' = ground (arith, heads) in
      (same_payloads 0 genesis genesis d e ds es a b n (p ∙ ap (λ (t : String). ok t) g ∙ sym p')
        apart).1
