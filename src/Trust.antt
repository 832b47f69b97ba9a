-- ===== src/Trust.antt =====
-- The trust root of grants, ephemora_cell/grant_trust.py: `TrustedKey.window_open`,
-- `GrantTrustRoot.key` and `verify_envelope`, and `_b64_canonical`. Base64, the verifiers of public keys
-- and `_grant_from_payload` are parameters.
pub mod Dsse
pub mod Authority
pub mod Envelope
pub mod Root
pub mod Loaded
use ephemora_cell.Common.{
  String, Bool, true, false, not, ◌&&◌, ◌||◌, Option, none, some, List, [], ◌∷◌, Outcome, ok,
  raised, ◌>>=◌, ◌>>◌, raise_if, ◌==◌, text_key, if◌then◌else◌, str_is_empty, str_eq,
}
use ephemora_cell.Common.Bytes.{Bytes}
use ephemora_cell.Common.Decimal.{codes}
use ephemora_cell.Common.Json.{Json, Fields, Items, nil, cons, get, get_or, has, is_text, object?}
use ephemora_cell.Common.Moment.{Moment, Iso, BadBound, parse_bound}
use ephemora_cell.GrantLedger.{Grant, before, reached}
use ephemora_cell.Trust.Dsse.{dsse_pae}

-- The refusals of `verify_envelope`, and the other exceptions that may leave it.
pub data TrustError : Type 0 where
  not_object unsigned wrong_audience bad_payload no_signatures bad_entry no_keyid untrusted :
      TrustError
  retired wrong_alg outside_window bad_signature bad_key unverified : TrustError
  unnamed_key key_not_used expired too_large : TrustError
  bad_bound : BadBound → TrustError
  bad_grant : String → TrustError

-- `TrustedKey`
pub record TrustedKey : Type 0 where
  pub key_id : String
  pub alg : String
  pub public_key_pem : String
  pub status : String
  pub not_before : Json
  pub not_after : Json
  pub replaced_by : Json

-- `EgressGrant`, the fields that the ledger reads, and the key it names.
pub record SignedGrant : Type 0 where
  pub key_id : Option String
  pub grant : Grant

-- Base64 of the standard library, decoding with `validate=True`.
pub record Base64 : Type 0 where
  pub decode : String → Option Bytes
  pub encode : Bytes → String

-- `GRANT_AUDIENCE`
abbrev pub grant_audience : String
grant_audience = "https://ephemora.dev/egress-grant.v1"

-- The value of an option, or an exception.
abbrev pub or_raise : {A : Type 0} → TrustError → Option A → Outcome TrustError A
or_raise e none = raised e
or_raise e (some a) = ok a

abbrev pub of_bound : {A : Type 0} → Outcome BadBound A → Outcome TrustError A
of_bound (ok a) = ok a
of_bound (raised e) = raised (bad_bound e)

-- `GrantTrustRoot.key`
unfoldable pub find_key : String → List TrustedKey → Option TrustedKey
find_key key_id [] = none
find_key key_id (k ∷ keys) = if k.key_id == key_id then some k else find_key key_id keys

-- A text that is not empty.
abbrev pub named : Json → Option String
named (Json.str s) = if str_is_empty s then none else some s
named _ = none

-- `key_id in used`
abbrev pub mentions : String → List String → Bool
mentions k [] = false
mentions k (j ∷ used) = k == j || mentions k used

-- `_b64_canonical`
unfoldable pub b64_canonical : Base64 → Json → Option Bytes
b64_canonical base64 (Json.str text) = elim (base64.decode text) [
  | none ↦ none
  | some raw ↦ if base64.encode raw == text then some raw else none
]
b64_canonical base64 _ = none

-- `envelope.get("signatures")`, if it is a list that is not empty
abbrev pub signatures_of : Json → Option Items
signatures_of (Json.arr (cons s rest)) = some (cons s rest)
signatures_of _ = none

module _ (iso : Iso) where
  -- `window_open`
  unfoldable pub window_open : TrustedKey → Moment → Outcome TrustError Bool
  window_open key now = of_bound (parse_bound iso key.not_before) >>= λ lower.
      of_bound (parse_bound iso key.not_after) >>= λ upper.
      ok (not (before now lower) && not (reached now upper))

  -- What is asked of the grant once it is read.
  unfoldable pub check_grant : Moment → List String → SignedGrant → Outcome TrustError SignedGrant
  check_grant now used grant = or_raise unnamed_key grant.key_id >>= λ key_id.
      raise_if (not (mentions key_id used)) key_not_used
      >> (of_bound (parse_bound iso grant.grant.not_after) >>= λ expires.
          raise_if (reached now expires) expired >> ok grant)

module _ (iso : Iso) (base64 : Base64) (verifier_for : String → Option (Bytes → Bytes → Bool)) where
  -- The checks of one signature against the key that it names; the key is found.
  unfoldable pub check_signature : Bytes → Moment → Fields → TrustedKey → Outcome TrustError Unit
  check_signature pae now entry key =
      raise_if (key.status == "retired") retired
      >> (raise_if (not (is_text key.alg (get "alg" entry))) wrong_alg
          >> (window_open iso key now >>= λ inside.
              raise_if (not inside) outside_window
              >> (or_raise bad_signature (b64_canonical base64 (get_or "sig" (Json.str "") entry))
                  >>= λ raw. or_raise bad_key (verifier_for key.public_key_pem) >>= λ verifier.
                      raise_if (not (verifier pae raw)) unverified)))

  -- One round of the loop over the signatures: the id of the key that signed.
  unfoldable pub check_entry : List TrustedKey → Bytes → Moment → Json → Outcome TrustError String
  check_entry keys pae now entry = or_raise bad_entry (object? entry) >>= λ o.
      or_raise no_keyid (named (get "keyid" o)) >>= λ key_id.
      or_raise untrusted (find_key key_id keys) >>= λ key.
      check_signature pae now o key >> ok key_id

  unfoldable pub check_entries :
      List TrustedKey → Bytes → Moment → Items → Outcome TrustError (List String)
  check_entries keys pae now nil = ok []
  check_entries keys pae now (cons entry rest) = check_entry keys pae now entry >>= λ key_id.
      check_entries keys pae now rest >>= λ used. ok (key_id ∷ used)

module _ (iso : Iso) (base64 : Base64) (verifier_for : String → Option (Bytes → Bytes → Bool))
    (grant_from_payload : Bytes → Outcome TrustError SignedGrant) where
  -- The payload and its signatures, and then the grant.
  unfoldable pub verify_payload :
      List TrustedKey → Moment → Json → Bytes → Outcome TrustError SignedGrant
  verify_payload keys now signatures payload =
      or_raise no_signatures (signatures_of signatures) >>= λ entries.
      or_raise too_large (dsse_pae payload (codes grant_audience)) >>= λ pae.
      check_entries iso base64 verifier_for keys pae now entries >>= λ used.
      grant_from_payload payload >>= λ grant. check_grant iso now used grant

  -- `verify_envelope` of a root, whose audience is always `GRANT_AUDIENCE`, at an aware moment
  unfoldable pub verify_envelope : List TrustedKey → Moment → Json → Outcome TrustError SignedGrant
  verify_envelope keys now envelope = or_raise not_object (object? envelope) >>= λ e.
      raise_if (not (has "payloadType" e) && has "grant_version" e) unsigned
      >> (raise_if (not (is_text grant_audience (get "payloadType" e))) wrong_audience
          >> (or_raise bad_payload (b64_canonical base64 (get "payload" e)) >>= λ payload.
              verify_payload keys now (get "signatures" e) payload))
