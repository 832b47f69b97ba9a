-- ===== src/Ledger.antt =====
-- The execution ledger of ephemora_cell/ledger.py: entries that seal the digest of the entry before
-- them, the writer that places an entry, and the check of a chain. A book is the list of its lines in
-- file order, decoded; `none` is a line that is not JSON. `canonical` stands for `canonical_bytes` of
-- a record, `none` where it raises, and `sha256` for `hashlib.sha256(…).hexdigest()`.
pub mod Hex
pub mod Chain
pub mod Appends
pub mod SameHead
use ephemora_cell.Common.{
  ℕ, suc, ◌+◌, String, Bool, true, false, ◌&&◌, not, Option, none, some, List, [], ◌∷◌, ◌++◌,
  if◌then◌else◌, Outcome, ok, raised, ◌>>=◌, text_key, str_eq,
}
use ephemora_cell.Common.Bytes.{Bytes}
use ephemora_cell.Common.Int.{ℤ, pos, negsuc, ◌+ℤ◌}
use ephemora_cell.Common.Json.{
  Json, Fields, end, field, get, has, is_text, is_number, text?, with_field,
}
use ephemora_cell.Common.Decimal.{codes, int_of}
use ephemora_cell.Ledger.Hex.{hex, from_hex}

abbrev pub Raw : Type 0
Raw = Option Json

pub data Error : Type 0 where
  not_json no_sequence no_canonical_form : Error

-- `GENESIS_PREV_HASH`
abbrev pub genesis : String
genesis = "0000000000000000000000000000000000000000000000000000000000000000"

-- `{k: v for k, v in record.items() if k != "signature"}`
unfoldable pub payload : Fields → Fields
payload end = end
payload (field k v d) = if str_eq k "signature" then payload d else field k v (payload d)

-- A `LedgerEntry` before its place is known.
pub record Draft : Type 0 where
  pub pre_exec_digest : String
  pub receipt_digest : String
  pub pre_exec_id : Json
  pub module_sha256 : Json
  pub config_fingerprint : Json
  pub ledger_version : String

-- `to_dict` of an entry at its place
abbrev pub to_dict : Draft → ℤ → String → String → Fields
to_dict e sequence prev_hash appended_at = field "ledger_version" (Json.str e.ledger_version) (
    field "sequence" (Json.num sequence) (
      field "appended_at" (Json.str appended_at) (
        field "prev_hash" (Json.str prev_hash) (
          field "pre_exec_id" e.pre_exec_id (
            field "pre_exec_digest" (Json.str e.pre_exec_digest) (
              field "receipt_digest" (Json.str e.receipt_digest) (
                field "module_sha256" e.module_sha256
                  (field "config_fingerprint" e.config_fingerprint end))))))))

-- Why `chain_break` refuses a chain, with the position.
pub data Break : Type 0 where
  no_entries : Break
  not_object bad_version bad_sequence bad_link bad_signature : ℕ → Break

-- What one round of `chain_break` comes to: the reason, or the digest that the next entry must seal.
pub data Link : Type 0 where
  broken : Break → Link
  seals : String → Link

-- A verifier and the algorithm that is pinned, if one is.
pub record Verifier : Type 0 where
  pub accepts : Bytes → Bytes → Bool
  pub expected_alg : Option String

-- The last line of the file.
abbrev pub last_line : List Raw → Option Raw
last_line [] = none
last_line (x ∷ []) = some x
last_line (x ∷ y ∷ rest) = last_line (y ∷ rest)

-- `[json.loads(raw) for raw in lines]`
unfoldable pub loads : List Raw → Outcome Error (List Json)
loads [] = ok []
loads (none ∷ rest) = raised not_json
loads (some v ∷ rest) = loads rest >>= λ vs. ok (v ∷ vs)

module _ (canonical : Fields → Option Bytes) (sha256 : Bytes → String) where
  -- `signed_entry_digest`
  unfoldable pub signed_entry_digest : Fields → Outcome Error String
  signed_entry_digest d = elim (canonical (payload d)) [
    | none ↦ raised no_canonical_form
    | some b ↦ ok (sha256 b)
  ]

  abbrev pub alg_fits : Option String → Fields → Bool
  alg_fits none d = true
  alg_fits (some alg) d = is_text alg (get "alg" d)

  -- `verifier(canonical_bytes(payload), bytes.fromhex(signature))`, where an exception is a refusal.
  abbrev pub accepted : Verifier → Option Bytes → Option Bytes → Bool
  accepted v (some message) (some signature) = v.accepts message signature
  accepted v _ _ = false

  abbrev pub signature_of : Json → Option Bytes
  signature_of (Json.str s) = from_hex (codes s)
  signature_of v = none

  -- `ExecutionReport.verify`, to which `verify_entry_signature` passes its arguments.
  unfoldable pub verify_entry_signature : Verifier → Fields → Bool
  verify_entry_signature v d =
      alg_fits v.expected_alg d
      && has "signature" d
      && accepted v (canonical (payload d)) (signature_of (get "signature" d))

  abbrev pub signature_holds : Option Verifier → Fields → Bool
  signature_holds none d = true
  signature_holds (some v) d = verify_entry_signature v d

  -- One round of `chain_break`
  unfoldable pub check_entry : Option Verifier → ℕ → String → Json → Outcome Error Link
  check_entry verifier position prev (Json.obj d) =
      if not (is_text "v1" (get "ledger_version" d))
      then ok (broken (bad_version position))
      else if not (is_number position (get "sequence" d))
      then ok (broken (bad_sequence position))
      else if not (is_text prev (get "prev_hash" d))
      then ok (broken (bad_link position))
      else if not (signature_holds verifier d)
      then ok (broken (bad_signature position))
      else signed_entry_digest d >>= λ h. ok (seals h)
  check_entry verifier position prev v = ok (broken (not_object position))

  -- The rounds of `chain_break` from a position on.
  unfoldable pub links : Option Verifier → ℕ → String → List Json → Outcome Error (Option Break)
  links verifier position prev [] = ok none
  links verifier position prev (v ∷ rest) = elim (check_entry verifier position prev v) [
    | ok (broken b) ↦ ok (some b)
    | ok (seals h) ↦ links verifier (suc position) h rest
    | raised e ↦ raised e
  ]

  -- `chain_break` of a list
  unfoldable pub chain_break : Option Verifier → List Json → Outcome Error (Option Break)
  chain_break verifier [] = ok (some no_entries)
  chain_break verifier (v ∷ rest) = links verifier 0 genesis (v ∷ rest)

  -- The place of the next entry: its sequence and what it seals.
  abbrev pub place_after : Option ℤ → Fields → Outcome Error (ℤ × String)
  place_after none previous = raised no_sequence
  place_after (some n) previous = signed_entry_digest previous >>= λ h. ok (n +ℤ pos 1, h)

  unfoldable pub place : Option Raw → Outcome Error (ℤ × String)
  place none = ok (pos 0, genesis)
  place (some (some (Json.obj previous))) =
      if has "sequence" previous
      then place_after (int_of (get "sequence" previous)) previous
      else raised no_sequence
  place (some (some v)) = raised no_sequence
  place (some none) = raised not_json

  abbrev pub head_at : Option ℤ → Fields → Outcome Error (Option (ℤ × String))
  head_at none d = raised no_sequence
  head_at (some n) d = signed_entry_digest d >>= λ h. ok (some (n, h))

  -- `Ledger.head`
  unfoldable pub head : List Raw → Outcome Error (Option (ℤ × String))
  head book = elim (last_line book) [
    | none ↦ ok none
    | some none ↦ raised not_json
    | some (some (Json.obj d)) ↦
        if has "sequence" d then head_at (int_of (get "sequence" d)) d else raised no_sequence
    | some (some _) ↦ raised no_sequence
  ]

  abbrev pub with_signature : (Bytes → Bytes) → Fields → Option Bytes → Outcome Error Fields
  with_signature signer d none = raised no_canonical_form
  with_signature signer d (some message) =
      ok (with_field d "signature" (Json.str (hex (signer message))))

  -- `sign` if there is a signer, with its algorithm.
  unfoldable pub sign : Option ((Bytes → Bytes) × String) → Fields → Outcome Error Fields
  sign none d = ok d
  sign (some (signer, alg)) d =
      let declared = with_field d "alg" (Json.str alg) in
      with_signature signer declared (canonical declared)

  -- `Ledger.append`: the record and the book that it leaves.
  unfoldable pub append :
      Draft
      → Option ((Bytes → Bytes) × String)
      → String
      → List Raw
      → Outcome Error (Fields × List Raw)
  append e signer appended_at book = do
    (sequence, prev_hash) ← place (last_line book)
    signed ← sign signer (to_dict e sequence prev_hash appended_at)
    ok (signed, book ++ some (Json.obj signed) ∷ [])

  -- `Ledger.verify`, with the reason
  unfoldable pub verify : Option Verifier → List Raw → Outcome Error (Option Break)
  verify verifier book = loads book >>= chain_break verifier
