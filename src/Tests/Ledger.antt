-- ===== src/Tests/Ledger.antt =====
-- The execution ledger at concrete inputs, with the place of an entry as its canonical form.
use ephemora_cell.Common.{
  ◌≡◌, refl, sym, ◌∙◌, eq_iff, ◌≢◌, String, Option, none, some, List, [], ◌∷◌, arith, ok, Outcome,
  raised, inr, nat_beq, map, text_key,
}
use ephemora_cell.Common.Bytes.{Bytes}
use ephemora_cell.Common.Int.{pos, ◌+ℤ◌}
use ephemora_cell.Common.Decimal.{int_of}
use ephemora_cell.Common.Json.{Json, Fields, get, with_field}
use ephemora_cell.Ledger.{
  Raw, Error, Draft, Verifier, genesis, payload, to_dict, loads, signed_entry_digest, check_entry,
  links, chain_break, place, sign, append, verify, head,
}
use ephemora_cell.Ledger.Hex.{hex}
use ephemora_cell.Ledger.Appends.{append-verify}
use ephemora_cell.Ledger.SameHead.{head_pins_payloads, lines}

abbrev place_of : Json → Option Bytes
place_of (Json.num (pos n)) = some (n ∷ [])
place_of v = none

abbrev canonical : Fields → Option Bytes
canonical d = place_of (get "sequence" d)

abbrev sha256 : Bytes → String
sha256 bytes = hex bytes

abbrev draft : Draft
draft = record {
  pre_exec_digest = "p";
  receipt_digest = "r";
  pre_exec_id = Json.str "run";
  module_sha256 = Json.null;
  config_fingerprint = Json.null;
  ledger_version = "v1";
}

abbrev signer : Bytes → Bytes
signer message = 200 ∷ message

abbrev book_of : Outcome Error (Fields × List Raw) → List Raw
book_of (ok r) = r.1
book_of (raised e) = []

abbrev first_book : List Raw
first_book = book_of (append canonical sha256 draft none "t" [])

abbrev second_entry : Fields
second_entry =
    with_field (with_field (to_dict draft (pos 1) "00" "u") "alg" (Json.str "ES256")) "signature"
      (Json.str "c801")

second_append :
    append canonical sha256 draft (some (signer, "ES256")) "u" first_book
    ≡ ok (second_entry, lines (to_dict draft (pos 0) genesis "t" ∷ second_entry ∷ []))
unfolding append place sign signed_entry_digest payload hex int_of ◌+ℤ◌
second_append = refl

first_book_verifies : verify canonical sha256 none first_book ≡ ok none
unfolding verify loads chain_break links check_entry signed_entry_digest append place sign payload
    hex
first_book_verifies = refl

second_digest : signed_entry_digest canonical sha256 second_entry ≡ ok "01"
unfolding signed_entry_digest payload hex
second_digest = refl

append-verify_example :
    verify canonical sha256 none (lines (to_dict draft (pos 0) genesis "t" ∷ second_entry ∷ []))
    ≡ ok none
append-verify_example =
    append-verify canonical sha256 draft (some (signer, "ES256")) "u" first_book second_entry
      (lines (to_dict draft (pos 0) genesis "t" ∷ second_entry ∷ [])) "01" (inr first_book_verifies)
      refl second_append second_digest

-- An entry that was moved is seen.
swapped : verify canonical sha256 none (lines (second_entry ∷ [])) ≢ ok none
unfolding verify loads chain_break links check_entry
swapped e = ground (arith, e)

abbrev verifier : Verifier
verifier = record { accepts = λ message signature. nat_beq 200 200; expected_alg = some "ES256" }

signed_second :
    sign canonical sha256 (some (signer, "ES256")) (to_dict draft (pos 1) "00" "u")
    ≡ ok second_entry
unfolding sign hex
signed_second = refl

second_message : canonical (payload second_entry) ≡ some (1 ∷ [])
unfolding payload
second_message = refl

abbrev first_entry : Fields
first_entry = to_dict draft (pos 0) genesis "t"

abbrev signed_entry : Fields
signed_entry = with_field first_entry "signature" (Json.str "c800")

first_verifies : verify canonical sha256 none (lines (first_entry ∷ second_entry ∷ [])) ≡ ok none
unfolding verify loads chain_break links check_entry signed_entry_digest payload hex
first_verifies = refl

signed_verifies : verify canonical sha256 none (lines (signed_entry ∷ second_entry ∷ [])) ≡ ok none
unfolding verify loads chain_break links check_entry signed_entry_digest payload hex
signed_verifies = refl

same_heads :
    head canonical sha256 (lines (first_entry ∷ second_entry ∷ []))
    ≡ head canonical sha256 (lines (signed_entry ∷ second_entry ∷ []))
unfolding head signed_entry_digest payload hex
same_heads = refl

digests_differ :
    (d e : Fields)
    → signed_entry_digest canonical sha256 d ≡ ok "00"
    → signed_entry_digest canonical sha256 e ≡ ok "01"
    → signed_entry_digest canonical sha256 d ≡ signed_entry_digest canonical sha256 e
    → payload d ≡ payload e
digests_differ d e a b h =
    let joined : Path (Outcome Error String) (ok "00") (ok "01") = sym a ∙ h ∙ b in
    ground (arith, joined, eq_iff "00" "01")

digest_00 :
    (signed_entry_digest canonical sha256 first_entry ≡ ok "00")
    × (signed_entry_digest canonical sha256 signed_entry ≡ ok "00")
unfolding signed_entry_digest payload hex
digest_00 = (refl, refl)

signed_payload : payload first_entry ≡ payload signed_entry
unfolding payload
signed_payload = refl

head_pins_payloads_example :
    map payload (first_entry ∷ second_entry ∷ []) ≡ map payload (signed_entry ∷ second_entry ∷ [])
head_pins_payloads_example =
    head_pins_payloads canonical sha256 first_entry signed_entry (second_entry ∷ [])
      (second_entry ∷ []) first_verifies signed_verifies same_heads
      (
        (
          λ h. signed_payload,
          (λ h. digests_differ first_entry second_entry digest_00.0 second_digest h, tt),
        ),
        (
          (
            λ h. sym (digests_differ signed_entry second_entry digest_00.1 second_digest (sym h)),
            (λ h. refl, tt),
          ),
          tt,
        ),
      )
