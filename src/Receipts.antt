-- ===== src/Receipts.antt =====
-- The check of a signed receipt, `dsse_verify` and `verify_execution_attestation` of
-- ephemora_cell/execution_report.py. Base64, UTF-8 and the canonical bytes of a value are parameters;
-- moments and ages are counted in microseconds, and an age that is asked for is not negative.
pub mod Attested
use ephemora_cell.Common.{
  ℕ, ◌+◌, String, Bool, true, false, not, ◌&&◌, ◌||◌, Option, none, some, List, [], ◌∷◌, leb, ◌==◌,
  text_key, if◌then◌else◌, str_is_empty,
}
use ephemora_cell.Common.Bytes.{Bytes, bytes_key}
use ephemora_cell.Common.Json.{Json, Fields, Items, nil, cons, get, has, is_text, text?, object?}
use ephemora_cell.Common.Moment.{Moment, Iso, Parsed, naive, aware}
use ephemora_cell.Trust.{signatures_of}
use ephemora_cell.Trust.Dsse.{dsse_pae}

-- What the check needs from outside: `b64decode`, `encode("utf-8")`, `canonical_bytes` and the verifier,
-- each `none` where it raises.
pub record Tools : Type 0 where
  pub decode : String → Option Bytes
  pub utf8 : String → Option Bytes
  pub canonical : Json → Option Bytes
  pub verifier : Bytes → Bytes → Bool

-- `_RECEIPT_PAYLOAD_TYPES`
abbrev pub is_receipt_type : String → Bool
is_receipt_type t =
    t == "https://ephemora.dev/execution-report.v1"
    || t == "https://ephemora.dev/pre-execution-record.v1"

-- `declared is not None and declared != expected_alg`
abbrev pub other_alg : Option String → Json → Bool
other_alg expected Json.null = false
other_alg none declared = true
other_alg (some alg) declared = not (is_text alg declared)

-- `b64decode` of a value, which raises for one that is no text.
abbrev pub decoded : Tools → Json → Option Bytes
decoded tools (Json.str s) = tools.decode s
decoded tools _ = none

abbrev pub verifies : Tools → Bytes → Option Bytes → Bool
verifies tools pae none = false
verifies tools pae (some signature) = tools.verifier pae signature

-- One round of the loop over the signatures.
abbrev pub entry_verifies : Tools → Option String → Bytes → Option Fields → Bool
entry_verifies tools expected pae none = false
entry_verifies tools expected pae (some o) =
    has "sig" o
    && not (other_alg expected (get "alg" o))
    && verifies tools pae (decoded tools (get "sig" o))

abbrev pub all_verify : Tools → Option String → Bytes → Items → Bool
all_verify tools expected pae nil = true
all_verify tools expected pae (cons entry rest) =
    entry_verifies tools expected pae (object? entry) && all_verify tools expected pae rest

-- `dsse_verify`; `none` is the `OverflowError` of an encoding that does not fit.
unfoldable pub dsse_verify : Tools → Option String → Json → Option Bool
dsse_verify tools expected envelope = elim (object? envelope) [
  | none ↦ some false
  | some e ↦ elim (text? (get "payloadType" e)) [
    | none ↦ some false
    | some payload_type ↦ elim (signatures_of (get "signatures" e)) [
      | none ↦ some false
      | some entries ↦ elim (decoded tools (get "payload" e)) [
        | none ↦ some false
        | some payload ↦ elim (tools.utf8 payload_type) [
          | none ↦ some false
          | some type_bytes ↦ elim (dsse_pae payload type_bytes) [
            | none ↦ none
            | some pae ↦ some (all_verify tools expected pae entries)
          ]
        ]
      ]
    ]
  ]
]

-- `-_ISSUED_AT_FUTURE_60000000_SECONDS <= age <= max_age_seconds`
abbrev pub recent : Moment → ℕ → Option Parsed → Bool
recent now max_age none = false
recent now max_age (some naive) = false
recent now max_age (some (aware issued)) = leb issued (now + 60000000) && leb now (issued + max_age)

abbrev pub stamp_is_recent : Iso → Moment → ℕ → Option String → Bool
stamp_is_recent iso now max_age none = false
stamp_is_recent iso now max_age (some stamp) = recent now max_age (iso.from_iso stamp)

abbrev pub named_report : Json → Bool
named_report (Json.str s) = not (str_is_empty s)
named_report _ = false

abbrev pub evidence_is_recent : Iso → Moment → ℕ → Option Fields → Bool
evidence_is_recent iso now max_age none = false
evidence_is_recent iso now max_age (some evidence) =
    is_text "ephemora-execution-evidence.v1" (get "schema" evidence)
    && named_report (get "report_id" evidence)
    && stamp_is_recent iso now max_age (text? (get "issued_at" evidence))

-- `_issued_at_is_fresh`
unfoldable pub issued_at_is_fresh : Iso → Moment → ℕ → Json → Bool
issued_at_is_fresh iso now max_age execution = elim (object? execution) [
  | none ↦ false
  | some x ↦ evidence_is_recent iso now max_age (object? (get "evidence" x))
]

abbrev pub fresh : Iso → Moment → Option ℕ → Json → Bool
fresh iso now none execution = true
fresh iso now (some max_age) execution = issued_at_is_fresh iso now max_age execution

-- Whether a payload is the canonical bytes of the execution.
abbrev pub same_bytes : Option Bytes → Option Bytes → Bool
same_bytes (some payload) (some expected) = payload == expected
same_bytes _ _ = false

-- The age is asked for once the signatures verify.
abbrev pub with_age : Bool → Option Bool → Option Bool
with_age recent_enough none = none
with_age recent_enough (some valid) = some (valid && recent_enough)

-- `verify_execution_attestation`
unfoldable pub verify_execution_attestation :
    Tools → Iso → String → String → Moment → Option ℕ → Json → Json → Option Bool
verify_execution_attestation tools iso alg payload_type now max_age envelope execution =
    elim (object? envelope) [
      | none ↦ some false
      | some e ↦
          if is_receipt_type payload_type
            && is_text payload_type (get "payloadType" e)
            && same_bytes (decoded tools (get "payload" e)) (tools.canonical execution)
          then with_age (fresh iso now max_age execution) (dsse_verify tools (some alg) envelope)
          else some false
    ]
