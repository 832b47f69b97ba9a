-- ===== src/Trust/Envelope.antt =====
-- What a grant that `verify_envelope` of ephemora_cell/grant_trust.py returns rests on: its envelope.
use ephemora_cell.Common.{
  String, ◌≡◌, refl, Bool, true, false, not, ◌&&◌, Option, some, List, [], ◌∷◌, Outcome, ok,
  text_key, arith, Bool-cases, Option-cases, Outcome-cases, inl, inr, ap, sym, ◌∙◌, eq_iff,
}
use ephemora_cell.Common.Bytes.{Bytes}
use ephemora_cell.Common.Decimal.{codes}
use ephemora_cell.Common.Json.{Json, Fields, Items, nil, cons, get, has, is_text, object?}
use ephemora_cell.Common.Moment.{Moment, Iso, parse_bound}
use ephemora_cell.GrantLedger.{reached}
use ephemora_cell.Trust.{
  TrustError, TrustedKey, SignedGrant, Base64, grant_audience, mentions, b64_canonical,
  signatures_of, check_entry, check_entries, check_grant, verify_payload, verify_envelope,
}
use ephemora_cell.Trust.Dsse.{dsse_pae}
use ephemora_cell.Trust.Authority.{IsSigned, check_entry-IsSigned, object_eq}

pub is_text_eq : (s : String) (v : Json) → is_text s v ≡ true → v ≡ Json.str s
is_text_eq s (Json.str t) e = ap Json.str ((eq_iff t s).0 e)
is_text_eq s Json.null e = cc
is_text_eq s (Json.bool b) e = cc
is_text_eq s (Json.num n) e = cc
is_text_eq s (Json.float n b) e = cc
is_text_eq s Json.nan e = cc
is_text_eq s (Json.arr is) e = cc
is_text_eq s (Json.obj o) e = cc

pub signatures_eq : (v : Json) (is : Items) → signatures_of v ≡ some is → v ≡ Json.arr is
signatures_eq (Json.arr (cons s rest)) is e = cc
signatures_eq (Json.arr nil) is e = cc
signatures_eq Json.null is e = cc
signatures_eq (Json.bool b) is e = cc
signatures_eq (Json.num n) is e = cc
signatures_eq (Json.float n b) is e = cc
signatures_eq Json.nan is e = cc
signatures_eq (Json.str t) is e = cc
signatures_eq (Json.obj o) is e = cc

module _ (iso : Iso) (base64 : Base64) (verifier_for : String → Option (Bytes → Bytes → Bool)) where
  -- Each entry is signed by the key whose id stands at its place in the list.
  abbrev pub AllSigned : List TrustedKey → Bytes → Moment → Items → List String → Type 0
  AllSigned keys pae now nil [] = Unit
  AllSigned keys pae now nil (k ∷ used) = ⊥
  AllSigned keys pae now (cons e rest) [] = ⊥
  AllSigned keys pae now (cons e rest) (k ∷ used) =
      IsSigned iso base64 verifier_for keys pae now e k × AllSigned keys pae now rest used

  check_entries-AllSigned :
      (keys : List TrustedKey) (pae : Bytes) (now : Moment) (entries : Items) (used : List String)
      → check_entries iso base64 verifier_for keys pae now entries ≡ ok used
      → AllSigned keys pae now entries used
  unfolding check_entries
  check_entries-AllSigned keys pae now nil [] e = tt
  check_entries-AllSigned keys pae now nil (k ∷ used) e = cc
  check_entries-AllSigned keys pae now (cons entry rest) used e =
      elim (Outcome-cases (check_entry iso base64 verifier_for keys pae now entry)) [
        | inr (x, p) ↦ absurd (ground (arith, e, p))
        | inl (k, p) ↦
            elim (Outcome-cases (check_entries iso base64 verifier_for keys pae now rest)) [
              | inr (x, q) ↦ absurd (ground (arith, e, p, q))
              | inl (ks, q) ↦
                  let same : k ∷ ks ≡ used = ground (arith, e, p, q) in
                  rw (sym same) (
                    check_entry-IsSigned iso base64 verifier_for keys pae now entry k p,
                    check_entries-AllSigned keys pae now rest ks q,
                  )
            ]
      ]

module _ (iso : Iso) where
  -- The grant names a key that signed, and its window is not closed.
  pub record IsCurrent (now : Moment) (used : List String) (grant : SignedGrant) : Type 0 where
    pub key_id : String
    pub names : grant.key_id ≡ some key_id
    pub signer : mentions key_id used ≡ true
    pub expires : Option Moment
    pub parsed : parse_bound iso grant.grant.not_after ≡ ok expires
    pub open_still : reached now expires ≡ false

  check_grant-IsCurrent :
      (now : Moment) (used : List String) (g grant : SignedGrant)
      → check_grant iso now used g ≡ ok grant
      → (g ≡ grant) × IsCurrent now used g
  unfolding check_grant
  check_grant-IsCurrent now used g grant e = elim (Option-cases g.key_id) [
    | inl p ↦ absurd (ground (arith, e, p))
    | inr (k, p) ↦ elim (Bool-cases (mentions k used)) [
      | inr q ↦ absurd (ground (arith, e, p, q))
      | inl q ↦ elim (Outcome-cases (parse_bound iso g.grant.not_after)) [
        | inr (x, r) ↦ absurd (ground (arith, e, p, q, r))
        | inl (expires, r) ↦ elim (Bool-cases (reached now expires)) [
          | inl t ↦ absurd (ground (arith, e, p, q, r, t))
          | inr t ↦ (
            ground (arith, e, p, q, r, t),
            record {
              key_id = k;
              names = p;
              signer = q;
              expires = expires;
              parsed = r;
              open_still = t;
            },
          )
        ]
      ]
    ]
  ]

module _ (iso : Iso) (base64 : Base64) (verifier_for : String → Option (Bytes → Bytes → Bool))
    (grant_from_payload : Bytes → Outcome TrustError SignedGrant) where
  -- The grant is what the payload of the envelope says, each signature of the envelope is one of that
  -- payload, as a grant, by a trusted key, and the grant is current and names one of these keys.
  pub record IsAuthorized (keys : List TrustedKey) (now : Moment) (envelope : Json)
      (grant : SignedGrant) : Type 0 where
    pub fields : Fields
    pub is_object : envelope ≡ Json.obj fields
    pub audience : get "payloadType" fields ≡ Json.str grant_audience
    pub payload : Bytes
    pub decoded : b64_canonical base64 (get "payload" fields) ≡ some payload
    pub entries : Items
    pub signatures : get "signatures" fields ≡ Json.arr entries
    pub pae : Bytes
    pub encoded : dsse_pae payload (codes grant_audience) ≡ some pae
    pub used : List String
    pub signed : AllSigned iso base64 verifier_for keys pae now entries used
    pub granted : grant_from_payload payload ≡ ok grant
    pub current : IsCurrent iso now used grant

  payload-IsAuthorized :
      (keys : List TrustedKey) (now : Moment) (fields : Fields) (payload : Bytes)
      (grant : SignedGrant)
      → get "payloadType" fields ≡ Json.str grant_audience
      → b64_canonical base64 (get "payload" fields) ≡ some payload
      → verify_payload iso base64 verifier_for grant_from_payload keys now
          (get "signatures" fields)
          payload
        ≡ ok grant
      → IsAuthorized keys now (Json.obj fields) grant
  unfolding verify_payload
  payload-IsAuthorized keys now fields payload grant a d e =
      elim (Option-cases (signatures_of (get "signatures" fields))) [
        | inl p ↦ absurd (ground (arith, e, p))
        | inr (entries, p) ↦ elim (Option-cases (dsse_pae payload (codes grant_audience))) [
          | inl q ↦ absurd (ground (arith, e, p, q))
          | inr (pae, q) ↦
              elim (Outcome-cases (check_entries iso base64 verifier_for keys pae now entries)) [
                | inr (x, r) ↦ absurd (ground (arith, e, p, q, r))
                | inl (used, r) ↦ elim (Outcome-cases (grant_from_payload payload)) [
                  | inr (x, t) ↦ absurd (ground (arith, e, p, q, r, t))
                  | inl (g, t) ↦
                      let (same, current) =
                        check_grant-IsCurrent iso now used g grant (rw (p, q, r, t) at e) in
                      record {
                        fields = fields;
                        is_object = refl;
                        audience = a;
                        payload = payload;
                        decoded = d;
                        entries = entries;
                        signatures = signatures_eq (get "signatures" fields) entries p;
                        pae = pae;
                        encoded = q;
                        used = used;
                        signed =
                            check_entries-AllSigned iso base64 verifier_for keys pae now entries
                              used r;
                        granted = t ∙ ap ok same;
                        current = rw (sym same) current;
                      }
                ]
              ]
        ]
      ]

  -- A grant that `verify_envelope` returns is authorized by its envelope: it is what the payload says,
  -- every signature is one of that payload, as a grant, by the trusted key that it names, which may be
  -- used at the moment, and the grant names one of these keys and has not expired.
  pub verify_envelope-IsAuthorized :
      (keys : List TrustedKey) (now : Moment) (envelope : Json) (grant : SignedGrant)
      → verify_envelope iso base64 verifier_for grant_from_payload keys now envelope ≡ ok grant
      → IsAuthorized keys now envelope grant
  unfolding verify_envelope
  verify_envelope-IsAuthorized keys now envelope grant e = elim (Option-cases (object? envelope)) [
    | inl p ↦ absurd (ground (arith, e, p))
    | inr (o, p) ↦ elim (Bool-cases (not (has "payloadType" o) && has "grant_version" o)) [
      | inl q ↦ absurd (ground (arith, e, p, q))
      | inr q ↦ elim (Bool-cases (is_text grant_audience (get "payloadType" o))) [
        | inr r ↦ absurd (ground (arith, e, p, q, r))
        | inl r ↦ elim (Option-cases (b64_canonical base64 (get "payload" o))) [
          | inl t ↦ absurd (ground (arith, e, p, q, r, t))
          | inr (payload, t) ↦ rw (object_eq envelope o p) (
              payload-IsAuthorized keys now o payload grant
                (is_text_eq grant_audience (get "payloadType" o) r) t (rw (p, q, r, t) at e))
        ]
      ]
    ]
  ]
