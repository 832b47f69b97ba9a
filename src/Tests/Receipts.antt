-- ===== src/Tests/Receipts.antt =====
-- A signed receipt at concrete data.
use ephemora_cell.Common.{
  String, ◌≡◌, refl, true, false, none, some, ◌==◌, text_key, if◌then◌else◌, [], ◌∷◌,
}
use ephemora_cell.Common.Bytes.{bytes_key}
use ephemora_cell.Common.Decimal.{codes}
use ephemora_cell.Common.Json.{Json, end, field, nil, cons}
use ephemora_cell.Tests.Iso.{unary_iso}
use ephemora_cell.Trust.Dsse.{dsse_pae}
use ephemora_cell.Receipts.{
  Tools, fresh, dsse_verify, issued_at_is_fresh, verify_execution_attestation,
}
use ephemora_cell.Receipts.Attested.{IsAttested, verify_execution_attestation-IsAttested}

abbrev tools : Tools
tools = record {
  decode =
      λ s. if s == "cA==" then some (b'p' ∷ []) else if s == "cw==" then some (b's' ∷ []) else none;
  utf8 = λ s. some (codes s);
  canonical = λ v. some (b'p' ∷ []);
  verifier = λ pae raw. raw == b's' ∷ [];
}

abbrev receipt_type : String
receipt_type = "https://ephemora.dev/execution-report.v1"

abbrev envelope_for : String → Json
envelope_for payload_type = Json.obj (
    field "payloadType" (Json.str payload_type) (
      field "payload" (Json.str "cA==") (
        field "signatures" (Json.arr (cons (Json.obj (field "sig" (Json.str "cw==") end)) nil))
          end)))

-- Issued at 3 milliseconds.
abbrev execution : Json
execution = Json.obj (
    field "evidence"
      (Json.obj (
        field "schema" (Json.str "ephemora-execution-evidence.v1")
          (field "report_id" (Json.str "r1") (field "issued_at" (Json.str "iiit") end))))
      end)

receipt_accepted :
    verify_execution_attestation tools unary_iso "EdDSA" receipt_type 5000
      (some 2000)
      (envelope_for receipt_type)
      execution
    ≡ some true
unfolding verify_execution_attestation dsse_verify dsse_pae issued_at_is_fresh
receipt_accepted = refl

-- A receipt that is too old, and the envelope of a grant.
receipt_refused :
    (verify_execution_attestation tools unary_iso "EdDSA" receipt_type 5001
        (some 2000)
        (envelope_for receipt_type)
        execution
      ≡ some false)
    × (verify_execution_attestation tools unary_iso "EdDSA" "https://ephemora.dev/egress-grant.v1"
          5000 none
          (envelope_for "https://ephemora.dev/egress-grant.v1")
          execution
        ≡ some false)
unfolding verify_execution_attestation dsse_verify dsse_pae issued_at_is_fresh
receipt_refused = (refl, refl)

verify_execution_attestation-IsAttested_example :
    IsAttested tools "EdDSA" receipt_type (envelope_for receipt_type) execution
    × (fresh unary_iso 5000 (some 2000) execution ≡ true)
verify_execution_attestation-IsAttested_example =
    verify_execution_attestation-IsAttested tools unary_iso "EdDSA" receipt_type 5000 (some 2000)
      (envelope_for receipt_type) execution receipt_accepted
