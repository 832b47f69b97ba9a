-- ===== src/Trust/Authority.antt =====
-- What a grant that `verify_envelope` of ephemora_cell/grant_trust.py returns rests on.
use ephemora_cell.Common.{
  String, ◌≡◌, Bool, true, false, Option, none, some, List, ok, Bool-cases, Option-cases,
  Outcome-cases, inl, inr, ◌==◌, text_key, arith, ap, sym, ◌∙◌,
}
use ephemora_cell.Common.Bytes.{Bytes}
use ephemora_cell.Common.Json.{Json, Fields, get, get_or, is_text, object?}
use ephemora_cell.Common.Moment.{Moment, Iso}
use ephemora_cell.Trust.{
  TrustError, TrustedKey, Base64, or_raise, find_key, named, b64_canonical, window_open,
  check_signature, check_entry,
}

or_raise_ok :
    {A : Type 0} (x : TrustError) (o : Option A) (a : A) → or_raise x o ≡ ok a → o ≡ some a
or_raise_ok x none a e = cc
or_raise_ok x (some b) a e = cc

pub object_eq : (v : Json) (o : Fields) → object? v ≡ some o → v ≡ Json.obj o
object_eq (Json.obj d) o e = cc
object_eq Json.null o e = cc
object_eq (Json.bool b) o e = cc
object_eq (Json.num n) o e = cc
object_eq (Json.float n b) o e = cc
object_eq Json.nan o e = cc
object_eq (Json.str s) o e = cc
object_eq (Json.arr is) o e = cc

named_eq : (v : Json) (s : String) → named v ≡ some s → v ≡ Json.str s
named_eq (Json.str t) s e = ground (arith, e)
named_eq Json.null s e = cc
named_eq (Json.bool b) s e = cc
named_eq (Json.num n) s e = cc
named_eq (Json.float n b) s e = cc
named_eq Json.nan s e = cc
named_eq (Json.arr is) s e = cc
named_eq (Json.obj o) s e = cc

module _ (iso : Iso) (base64 : Base64) (verifier_for : String → Option (Bytes → Bytes → Bool)) where
  -- A signature of the bytes by a key, which may be used at the moment.
  pub record IsChecked (pae : Bytes) (now : Moment) (fields : Fields) (key : TrustedKey)
      : Type 0 where
    pub in_use : (key.status == "retired") ≡ false
    pub same_alg : is_text key.alg (get "alg" fields) ≡ true
    pub inside : window_open iso key now ≡ ok true
    pub raw : Bytes
    pub decoded : b64_canonical base64 (get_or "sig" (Json.str "") fields) ≡ some raw
    pub verifier : Bytes → Bytes → Bool
    pub bound : verifier_for key.public_key_pem ≡ some verifier
    pub verified : verifier pae raw ≡ true

  -- An entry is a signature of the bytes by the trusted key of that id.
  pub record IsSigned (keys : List TrustedKey) (pae : Bytes) (now : Moment) (entry : Json)
      (key_id : String) : Type 0 where
    pub fields : Fields
    pub is_object : entry ≡ Json.obj fields
    pub names : get "keyid" fields ≡ Json.str key_id
    pub key : TrustedKey
    pub trusted : find_key key_id keys ≡ some key
    pub checked : IsChecked pae now fields key

  check_signature-IsChecked :
      (pae : Bytes) (now : Moment) (o : Fields) (key : TrustedKey)
      → check_signature iso base64 verifier_for pae now o key ≡ ok tt
      → IsChecked pae now o key
  unfolding check_signature
  check_signature-IsChecked pae now o key e = elim (Bool-cases (key.status == "retired")) [
    | inl p ↦ absurd (ground (arith, e, p))
    | inr p ↦ elim (Bool-cases (is_text key.alg (get "alg" o))) [
      | inr q ↦ absurd (ground (arith, e, p, q))
      | inl q ↦ elim (Outcome-cases (window_open iso key now)) [
        | inr (x, r) ↦ absurd (ground (arith, e, p, q, r))
        | inl (true, r) ↦
            elim (Option-cases (b64_canonical base64 (get_or "sig" (Json.str "") o))) [
              | inl t ↦ absurd (ground (arith, e, p, q, r, t))
              | inr (raw, t) ↦ elim (Option-cases (verifier_for key.public_key_pem)) [
                | inl v ↦ absurd (ground (arith, e, p, q, r, t, v))
                | inr (verifier, v) ↦ elim (Bool-cases (verifier pae raw)) [
                  | inr w ↦ absurd (ground (arith, e, p, q, r, t, v, w))
                  | inl w ↦ record {
                    in_use = p;
                    same_alg = q;
                    inside = r;
                    raw = raw;
                    decoded = t;
                    verifier = verifier;
                    bound = v;
                    verified = w;
                  }
                ]
              ]
            ]
        | inl (false, r) ↦ absurd (ground (arith, e, p, q, r))
      ]
    ]
  ]

  pub check_entry-IsSigned :
      (keys : List TrustedKey) (pae : Bytes) (now : Moment) (entry : Json) (key_id : String)
      → check_entry iso base64 verifier_for keys pae now entry ≡ ok key_id
      → IsSigned keys pae now entry key_id
  unfolding check_entry
  check_entry-IsSigned keys pae now entry key_id e = elim (Option-cases (object? entry)) [
    | inl p ↦ absurd (ground (arith, e, p))
    | inr (o, p) ↦ elim (Option-cases (named (get "keyid" o))) [
      | inl q ↦ absurd (ground (arith, e, p, q))
      | inr (k, q) ↦ elim (Option-cases (find_key k keys)) [
        | inl r ↦ absurd (ground (arith, e, p, q, r))
        | inr (key, r) ↦
            elim (Outcome-cases (check_signature iso base64 verifier_for pae now o key)) [
              | inr (x, t) ↦ absurd (ground (arith, e, p, q, r, t))
              | inl (tt, t) ↦
                  let same : k ≡ key_id = ground (arith, e, p, q, r, t) in
                  record {
                    fields = o;
                    is_object = object_eq entry o p;
                    names = named_eq (get "keyid" o) k q ∙ ap Json.str same;
                    key = key;
                    trusted = rw (sym same) r;
                    checked = check_signature-IsChecked pae now o key t;
                  }
            ]
      ]
    ]
  ]
