-- ===== src/Tests/Trust.antt =====
-- A signed grant against a trust root with one key, at concrete data.
use ephemora_cell.Common.{
  String, List, ◌++◌, ◌≡◌, refl, Bool, Option, none, some, [], ◌∷◌, Outcome, ok, raised, ◌==◌,
  text_key, if◌then◌else◌,
}
use ephemora_cell.Common.Bytes.{Bytes, bytes_key}
use ephemora_cell.Common.Decimal.{codes}
use ephemora_cell.Common.Int.{pos}
use ephemora_cell.Common.Json.{Json, end, field, nil, cons}
use ephemora_cell.Common.Moment.{parse_bound}
use ephemora_cell.Tests.Iso.{unary_iso}
use ephemora_cell.Trust.{
  TrustError, TrustedKey, SignedGrant, Base64, grant_audience, find_key, b64_canonical, window_open,
  check_signature, check_entry, check_entries, check_grant, verify_payload, verify_envelope,
  bad_grant, retired,
}
use ephemora_cell.Trust.Dsse.{dsse_pae, dsse_pae-injective, framed}
use ephemora_cell.Trust.Root.{
  load, parse_keys, parse_key, check_key, member_of, check_replaced, check_all_replaced, dangling,
  unhashable,
}
use ephemora_cell.Trust.Loaded.{IsRoot, load-IsRoot}
use ephemora_cell.Trust.Envelope.{IsAuthorized, verify_envelope-IsAuthorized}

-- Two texts and what they decode to; an alias of the first decodes alike.
abbrev base64 : Base64
base64 = record {
  decode = λ s.
      if s == "cA=="
      then some (b'p' ∷ [])
      else if s == "cB=="
      then some (b'p' ∷ [])
      else if s == "cw=="
      then some (b's' ∷ [])
      else none;
  encode = λ b. if b == b'p' ∷ [] then "cA==" else "cw==";
}

abbrev verifier_for : String → Option (Bytes → Bytes → Bool)
verifier_for pem = if pem == "PEM" then some (λ pae raw. raw == b's' ∷ []) else none

abbrev signed_grant : SignedGrant
signed_grant = record {
  key_id = some "k1";
  grant = record {
    grant_id = "g1";
    tool = "fetch";
    not_before = Json.null;
    not_after = Json.null;
    max_calls = some (pos 2);
  };
}

abbrev grant_from_payload : Bytes → Outcome TrustError SignedGrant
grant_from_payload payload =
    if payload == b'p' ∷ [] then ok signed_grant else raised (bad_grant "not a grant")

abbrev key_with : String → TrustedKey
key_with status = record {
  key_id = "k1";
  alg = "EdDSA";
  public_key_pem = "PEM";
  status = status;
  not_before = Json.null;
  not_after = Json.null;
  replaced_by = Json.null;
}

abbrev envelope_of : String → Json
envelope_of payload = Json.obj (
    field "payloadType" (Json.str grant_audience) (
      field "payload" (Json.str payload) (
        field "signatures"
          (Json.arr (
            cons
              (Json.obj (
                field "keyid" (Json.str "k1")
                  (field "alg" (Json.str "EdDSA") (field "sig" (Json.str "cw==") end))))
              nil))
          end)))

accepted :
    verify_envelope unary_iso base64 verifier_for grant_from_payload
      (key_with "active" ∷ [])
      5
      (envelope_of "cA==")
    ≡ ok signed_grant
unfolding verify_envelope verify_payload check_entries check_entry check_signature check_grant
    find_key b64_canonical window_open parse_bound dsse_pae
accepted = refl

-- A key that is retired, and a payload that is written as an alias.
refused :
    (verify_envelope unary_iso base64 verifier_for grant_from_payload
        (key_with "retired" ∷ [])
        5
        (envelope_of "cA==")
      ≡ raised retired)
    × (verify_envelope unary_iso base64 verifier_for grant_from_payload
          (key_with "active" ∷ [])
          5
          (envelope_of "cB==")
        ≡ raised TrustError.bad_payload)
unfolding verify_envelope verify_payload check_entries check_entry check_signature check_grant
    find_key b64_canonical window_open parse_bound dsse_pae
refused = (refl, refl)

verify_envelope-IsAuthorized_example :
    IsAuthorized unary_iso base64 verifier_for grant_from_payload
      (key_with "active" ∷ [])
      5
      (envelope_of "cA==")
      signed_grant
verify_envelope-IsAuthorized_example =
    verify_envelope-IsAuthorized unary_iso base64 verifier_for grant_from_payload
      (key_with "active" ∷ []) 5 (envelope_of "cA==") signed_grant accepted

abbrev encoded : Bytes
encoded = codes "DSSEv1" ++ (framed (codes "t") ++ framed (codes "pay"))

encoded_pae : dsse_pae (codes "pay") (codes "t") ≡ some encoded
unfolding dsse_pae
encoded_pae = refl

dsse_pae-injective_example : (codes "pay" ≡ codes "pay") × (codes "t" ≡ codes "t")
dsse_pae-injective_example =
    dsse_pae-injective (codes "pay") (codes "pay") (codes "t") (codes "t") encoded encoded_pae
      encoded_pae

abbrev key_entry : String → Json → Json
key_entry key_id replaced_by = Json.obj (
    field "key_id" (Json.str key_id) (
      field "alg" (Json.str "EdDSA")
        (field "public_key_pem" (Json.str "PEM") (field "replaced_by" replaced_by end))))

abbrev root_of : Json → Json
root_of successor = Json.obj (
    field "trust_root_version" (Json.str "egress-trust-root.v1") (
      field "keys"
        (Json.arr (cons (key_entry "k0" successor) (cons (key_entry "k1" Json.null) nil))) end))

abbrev loaded_keys : List TrustedKey
loaded_keys =
    record (key_with "active") { key_id = "k0"; replaced_by = Json.str "k1" }
    ∷ key_with "active"
    ∷ []

root_loaded : load unary_iso verifier_for 5 (root_of (Json.str "k1")) ≡ ok loaded_keys
unfolding load parse_keys parse_key check_key member_of check_replaced check_all_replaced
    window_open parse_bound
root_loaded = refl

-- A successor that is not in the root, and one that is no text.
root_refused :
    (load unary_iso verifier_for 5 (root_of (Json.str "k2")) ≡ raised dangling)
    × (load unary_iso verifier_for 5 (root_of (Json.arr nil)) ≡ raised unhashable)
unfolding load parse_keys parse_key check_key member_of check_replaced check_all_replaced
    window_open parse_bound
root_refused = (refl, refl)

load-IsRoot_example : IsRoot unary_iso verifier_for 5 loaded_keys
load-IsRoot_example =
    load-IsRoot unary_iso verifier_for 5 (root_of (Json.str "k1")) loaded_keys root_loaded
