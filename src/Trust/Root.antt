-- ===== src/Trust/Root.antt =====
-- `GrantTrustRoot.load` and `_parse_key` of ephemora_cell/grant_trust.py, on the decoded document.
use ephemora_cell.Common.{
  String, Bool, false, not, ◌||◌, Option, none, some, List, [], ◌∷◌, Outcome, ok, raised, ◌>>=◌,
  ◌>>◌, raise_if, if◌then◌else◌, ◌==◌, text_key,
}
use ephemora_cell.Common.Bytes.{Bytes}
use ephemora_cell.Common.Json.{
  Json, Fields, end, field, Items, nil, cons, get, get_or, is_text, object?,
}
use ephemora_cell.Common.Moment.{Moment, Iso}
use ephemora_cell.Trust.{
  TrustError, TrustedKey, grant_audience, named, mentions, signatures_of, window_open,
}

pub data RootError : Type 0 where
  not_object bad_version bad_audience no_keys entry_not_object unknown_field missing_field :
      RootError
  bad_status bad_alg bad_key duplicate dangling replaces_itself unhashable : RootError
  bad_window : TrustError → RootError

abbrev pub found : {A : Type 0} → RootError → Option A → Outcome RootError A
found e none = raised e
found e (some a) = ok a

abbrev pub windowed : {A : Type 0} → Outcome TrustError A → Outcome RootError A
windowed (ok a) = ok a
windowed (raised e) = raised (bad_window e)

-- `_KEY_FIELDS`
abbrev pub key_fields : List String
key_fields =
    "key_id" ∷ "alg" ∷ "public_key_pem" ∷ "status" ∷ "not_before" ∷ "not_after" ∷ "replaced_by" ∷ []

-- `KEY_STATUSES`
abbrev pub key_statuses : List String
key_statuses = "active" ∷ "transition" ∷ "retired" ∷ []

-- `set(entry) - _KEY_FIELDS` is not empty.
abbrev pub has_unknown : Fields → Bool
has_unknown end = false
has_unknown (field k v o) = not (mentions k key_fields) || has_unknown o

-- A value that is looked up in a set of texts: a list and an object have no hash.
unfoldable pub member_of : RootError → Json → List String → Outcome RootError String
member_of e (Json.str s) texts = if mentions s texts then ok s else raised e
member_of e (Json.arr is) texts = raised unhashable
member_of e (Json.obj o) texts = raised unhashable
member_of e _ texts = raised e

abbrev pub ids : List TrustedKey → List String
ids [] = []
ids (k ∷ keys) = k.key_id ∷ ids keys

-- The checks of a key's successor, once all the keys are read.
unfoldable pub check_replaced : List String → String → Json → Outcome RootError Unit
check_replaced seen key_id Json.null = ok tt
check_replaced seen key_id v =
    member_of dangling v seen >>= λ s. raise_if (s == key_id) replaces_itself

unfoldable pub check_all_replaced : List String → List TrustedKey → Outcome RootError Unit
check_all_replaced seen [] = ok tt
check_all_replaced seen (k ∷ keys) =
    check_replaced seen k.key_id k.replaced_by >> check_all_replaced seen keys

module _ (iso : Iso) (verifier_for : String → Option (Bytes → Bytes → Bool)) (now : Moment) where
  -- What `_parse_key` checks of the key that it has built, at the moment of the load.
  unfoldable pub check_key : TrustedKey → Outcome RootError TrustedKey
  check_key key =
      raise_if (not (key.alg == "EdDSA")) bad_alg
      >> (windowed (window_open iso key now) >>= λ _.
          found bad_key (verifier_for key.public_key_pem) >>= λ _. ok key)

  -- `_parse_key`
  unfoldable pub parse_key : Json → Outcome RootError TrustedKey
  parse_key entry = found entry_not_object (object? entry) >>= λ o.
      raise_if (has_unknown o) unknown_field
      >> (found missing_field (named (get "key_id" o)) >>= λ key_id.
          found missing_field (named (get "alg" o)) >>= λ alg.
          found missing_field (named (get "public_key_pem" o)) >>= λ pem.
          member_of bad_status (get_or "status" (Json.str "active") o) key_statuses >>= λ status.
          check_key (record {
            key_id = key_id;
            alg = alg;
            public_key_pem = pem;
            status = status;
            not_before = get "not_before" o;
            not_after = get "not_after" o;
            replaced_by = get "replaced_by" o;
          }))

  -- The loop over the keys; `seen` holds the ids of the keys before.
  unfoldable pub parse_keys : List String → Items → Outcome RootError (List TrustedKey)
  parse_keys seen nil = ok []
  parse_keys seen (cons entry rest) = parse_key entry >>= λ key.
      raise_if (mentions key.key_id seen) duplicate
      >> (parse_keys (key.key_id ∷ seen) rest >>= λ keys. ok (key ∷ keys))

  -- `load`, once the file is read and decoded
  unfoldable pub load : Json → Outcome RootError (List TrustedKey)
  load doc = found not_object (object? doc) >>= λ o.
      raise_if (not (is_text "egress-trust-root.v1" (get "trust_root_version" o))) bad_version
      >> (raise_if (not (is_text grant_audience (get_or "audience" (Json.str grant_audience) o)))
            bad_audience
          >> (found no_keys (signatures_of (get "keys" o)) >>= λ entries.
              parse_keys [] entries >>= λ keys. check_all_replaced (ids keys) keys >> ok keys))
