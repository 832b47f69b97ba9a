-- ===== src/Ledger/Appends.antt =====
-- `Ledger.append`: what it writes extends an intact chain, and a signed record verifies.
use ephemora_cell.Common.{
  ℕ, suc, ◌+◌, ◌≡◌, ◌⊎◌, refl, ap, ◌∙◌, sym, String, true, Option, none, some, List, [], ◌∷◌, ◌++◌,
  arith, length, ok, Outcome-cases, Option-cases, inl, inr, eq_iff, text_key, map, All, ◌<◌,
}
use ephemora_cell.Common.Bytes.{Bytes}
use ephemora_cell.Common.Int.{ℤ, pos, ◌+ℤ◌, int_key}
use ephemora_cell.Common.Json.{Json, Fields, get, with_field}
use ephemora_cell.Ledger.Hex.{hex, from_hex-hex}
use ephemora_cell.Ledger.{
  Raw, Draft, Verifier, genesis, payload, to_dict, last_line, loads, signed_entry_digest, links,
  chain_break, place, sign, append, verify, verify_entry_signature,
}
use ephemora_cell.Ledger.Chain.{
  Sealed, Sealed-check_entry, Tip, links-Tip, int_of-is_number, get-has, loads-snoc,
}

loads-map :
    (book : List Raw) (vs : List Json) → loads book ≡ ok vs → book ≡ map (λ (x : Json). some x) vs
unfolding loads
loads-map [] vs h = ground (arith, h)
loads-map (none ∷ rest) vs h = ground (arith, h)
loads-map (some x ∷ rest) vs h = elim (Outcome-cases (loads rest)) [
  | inr (t, e) ↦ ground (arith, e, h)
  | inl (xs, e) ↦
      let made : vs ≡ x ∷ xs = ground (arith, e, h) in
      rw made (ap (λ (r : List Raw). some x ∷ r) (loads-map rest xs e))
]

pos_suc : (n : ℕ) → pos n +ℤ pos 1 ≡ pos (suc n)
unfolding ◌+ℤ◌
pos_suc n = ground arith

module _ (canonical : Fields → Option Bytes) (sha256 : Bytes → String) where
  -- A placed record keeps its version and its place, signed or not.
  sign-Sealed :
      (e : Draft) (signer : Option ((Bytes → Bytes) × String)) (n : ℕ) (prev at : String)
      (d : Fields) (h : String)
      → e.ledger_version ≡ "v1"
      → sign canonical sha256 signer (to_dict e (pos n) prev at) ≡ ok d
      → signed_entry_digest canonical sha256 d ≡ ok h
      → Sealed canonical sha256 n prev (Json.obj d) h
  unfolding sign
  sign-Sealed e none n prev at d h version s digests = record {
    d = d;
    is_object = refl;
    version = ground (arith, s, version, eq_iff e.ledger_version "v1");
    placed = ground (arith, s);
    linked = ground (arith, s, eq_iff prev prev);
    digests = digests;
  }
  sign-Sealed e (some (signer, alg)) n prev at d h version s digests =
      elim (Option-cases
        (canonical (with_field (to_dict e (pos n) prev at) "alg" (Json.str alg)))) [
          | inl c ↦ ground (arith, s, c)
          | inr (m, c) ↦ record {
            d = d;
            is_object = refl;
            version = ground (arith, s, c, version, eq_iff e.ledger_version "v1");
            placed = ground (arith, s, c);
            linked = ground (arith, s, c, eq_iff prev prev);
            digests = digests;
          }
        ]

  -- Where the next entry goes, on an intact chain.
  place-Tip :
      (position : ℕ) (prev : String) (v : Json) (rest : List Json)
      → (t : Tip canonical sha256 position prev v rest)
      → place canonical sha256 (last_line (map (λ (x : Json). some x) (v ∷ rest)))
        ≡ ok (pos (suc (position + length rest)), t.h)
  unfolding place
  place-Tip position prev v rest t =
      rw
        (
          t.is_last,
          place,
          get-has "sequence" (position + length rest) t.d t.placed,
          int_of-is_number (position + length rest) (get "sequence" t.d) t.placed,
          t.digests,
        )
        (ap (λ (z : ℤ). ok (z, t.h)) (pos_suc (position + length rest)))

  -- A book that verifies, or that has no line yet.
  abbrev pub IsIntact : List Raw → Type 0
  IsIntact book = (book ≡ []) ⊎ (verify canonical sha256 none book ≡ ok none)

  -- What an append wrote, from the place that it read.
  pub record Appended (e : Draft) (signer : Option ((Bytes → Bytes) × String)) (at : String)
      (book : List Raw) (record' : Fields) (book' : List Raw) : Type 0 where
    pub sequence : ℤ
    pub prev_hash : String
    pub places : place canonical sha256 (last_line book) ≡ ok (sequence, prev_hash)
    pub signs : sign canonical sha256 signer (to_dict e sequence prev_hash at) ≡ ok record'
    pub appends : book' ≡ book ++ some (Json.obj record') ∷ []

  append-Appended :
      (e : Draft) (signer : Option ((Bytes → Bytes) × String)) (at : String) (book : List Raw)
      (record' : Fields) (book' : List Raw)
      → append canonical sha256 e signer at book ≡ ok (record', book')
      → Appended e signer at book record' book'
  unfolding append
  append-Appended e signer at book record' book' h =
      elim (Outcome-cases (place canonical sha256 (last_line book))) [
        | inr (t, p) ↦ ground (arith, h, p)
        | inl ((sequence, prev), p) ↦
            elim (Outcome-cases (sign canonical sha256 signer (to_dict e sequence prev at))) [
              | inr (t, s) ↦ ground (arith, h, p, s)
              | inl (d, s) ↦
                  let same : d ≡ record' = ground (arith, h, p, s) in
                  record {
                    sequence = sequence;
                    prev_hash = prev;
                    places = p;
                    signs = rw same at s;
                    appends = ground (arith, h, p, s);
                  }
            ]
      ]

  append-verify_chain :
      (e : Draft) (signer : Option ((Bytes → Bytes) × String)) (at : String) (vs : List Json)
      (record' : Fields) (h : String) (sequence : ℤ) (prev : String)
      → e.ledger_version ≡ "v1"
      → signed_entry_digest canonical sha256 record' ≡ ok h
      → (vs ≡ []) ⊎ (chain_break canonical sha256 none vs ≡ ok none)
      → place canonical sha256 (last_line (map (λ (x : Json). some x) vs)) ≡ ok (sequence, prev)
      → sign canonical sha256 signer (to_dict e sequence prev at) ≡ ok record'
      → chain_break canonical sha256 none (vs ++ Json.obj record' ∷ []) ≡ ok none
  unfolding chain_break links place
  append-verify_chain e signer at [] record' h sequence prev version digests intact p s =
      let n : sequence ≡ pos 0 = ground (arith, p) in
      let g : prev ≡ genesis = ground (arith, p) in
      let made = sign-Sealed e signer 0 genesis at record' h version (rw (n, g) at s) digests in
      rw
        (
          chain_break,
          links,
          Sealed-check_entry canonical sha256 0 genesis (Json.obj record') h made,
        )
        refl
  append-verify_chain e signer at (v ∷ rest) record' h sequence prev version digests intact p s =
      elim intact [
        | inl none_yet ↦ cc (none_yet)
        | inr whole ↦
            let t = links-Tip canonical sha256 0 genesis v rest whole in
            let q = sym p ∙ place-Tip 0 genesis v rest t in
            let n : sequence ≡ pos (suc (0 + length rest)) = ground (arith, q) in
            let g : prev ≡ t.h = ground (arith, q) in
            let made =
              sign-Sealed e signer (suc (0 + length rest)) t.h at record' h version (rw (n, g) at s)
                digests in
            t.extends (Json.obj record') h (
              Sealed-check_entry canonical sha256 (suc (0 + length rest)) t.h (Json.obj record') h
                made)
      ]

  -- An append whose record has a canonical form and the version "v1", to a book that verifies or has no
  -- line yet, leaves a book that verifies, whether or not the record is signed.
  pub append-verify :
      (e : Draft) (signer : Option ((Bytes → Bytes) × String)) (at : String) (book : List Raw)
      (record' : Fields) (book' : List Raw) (h : String)
      → IsIntact book
      → e.ledger_version ≡ "v1"
      → append canonical sha256 e signer at book ≡ ok (record', book')
      → signed_entry_digest canonical sha256 record' ≡ ok h
      → verify canonical sha256 none book' ≡ ok none
  unfolding verify loads chain_break
  append-verify e signer at book record' book' h intact version r digests =
      let a = append-Appended e signer at book record' book' r in
      let extend : (vs : List Json)
          → loads book ≡ ok vs
          → (vs ≡ []) ⊎ (chain_break canonical sha256 none vs ≡ ok none)
          → verify canonical sha256 none book' ≡ ok none =
        λ vs l whole.
          rw (a.appends, loads-snoc book (Json.obj record') vs l)
            (append-verify_chain e signer at vs record' h a.sequence a.prev_hash version digests
              whole (rw (loads-map book vs l) at a.places) a.signs) in
      elim intact [
        | inl empty ↦ extend [] (rw empty refl) (inl refl)
        | inr whole ↦ elim (Outcome-cases (loads book)) [
          | inr (t, l) ↦ ground (arith, whole, l)
          | inl (vs, l) ↦ extend vs l (inr (rw l at whole))
        ]
      ]

  -- A record that a signer signed passes the check of its own signature, if its signature is a byte
  -- string that the verifier accepts for the record's canonical form and the pinned algorithm, if any,
  -- is the signer's.
  pub sign-verify_entry_signature :
      (e : Draft) (signer : Bytes → Bytes) (alg : String) (sequence : ℤ) (prev at : String)
      (record' : Fields) (v : Verifier) (message : Bytes)
      → sign canonical sha256 (some (signer, alg)) (to_dict e sequence prev at) ≡ ok record'
      → canonical (payload record') ≡ some message
      → All (λ b. b < 256) (signer message)
      → v.accepts message (signer message) ≡ true
      → (v.expected_alg ≡ none) ⊎ (v.expected_alg ≡ some alg)
      → verify_entry_signature canonical sha256 v record' ≡ true
  unfolding sign verify_entry_signature payload
  sign-verify_entry_signature e signer alg sequence prev at record' v message s c bytes accepts
        pin =
      let declared = with_field (to_dict e sequence prev at) "alg" (Json.str alg) in
      elim (Option-cases (canonical declared)) [
        | inl k ↦ ground (arith, s, k)
        | inr (m, k) ↦
            let made : record' ≡ with_field declared "signature" (Json.str (hex (signer m))) =
              ground (arith, s, k) in
            let read : canonical declared ≡ some message = rw made at c in
            let same : m ≡ message = ground (arith, read, k) in
            let sound = from_hex-hex (signer message) bytes in
            elim pin [
              | inl p ↦ rw (made, same, p, read, sound, accepts) refl
              | inr p ↦ rw (made, same, p, read, sound, accepts) (ground (arith, eq_iff alg alg))
            ]
      ]
