-- ===== src/Receipts/Attested.antt =====
-- What a receipt that `verify_execution_attestation` of ephemora_cell/execution_report.py accepts shows.
use ephemora_cell.Common.{
  ℕ, String, ◌≡◌, ◌⊎◌, refl, Bool, true, false, Option, none, some, text_key, arith, Bool-cases,
  Option-cases, inl, inr, sym, ap,
}
use ephemora_cell.Common.Bytes.{Bytes, bytes_key, list_beq_iff}
use ephemora_cell.Common.Json.{Json, Fields, Items, nil, cons, get, is_text, object?}
use ephemora_cell.Common.Moment.{Moment, Iso}
use ephemora_cell.Trust.{signatures_of}
use ephemora_cell.Trust.Authority.{object_eq}
use ephemora_cell.Trust.Envelope.{is_text_eq, signatures_eq}
use ephemora_cell.Trust.Dsse.{dsse_pae}
use ephemora_cell.Receipts.{
  Tools, is_receipt_type, other_alg, decoded, entry_verifies, all_verify, dsse_verify, fresh,
  same_bytes, with_age, verify_execution_attestation,
}

-- An entry is a signature of the bytes, and says the algorithm or none.
pub record IsSignature (tools : Tools) (alg : String) (pae : Bytes) (entry : Json) : Type 0 where
  pub fields : Fields
  pub is_object : entry ≡ Json.obj fields
  pub same_alg : (get "alg" fields ≡ Json.null) ⊎ (get "alg" fields ≡ Json.str alg)
  pub raw : Bytes
  pub carried : decoded tools (get "sig" fields) ≡ some raw
  pub verified : tools.verifier pae raw ≡ true

abbrev pub AllSignatures : Tools → String → Bytes → Items → Type 0
AllSignatures tools alg pae nil = Unit
AllSignatures tools alg pae (cons e rest) =
    IsSignature tools alg pae e × AllSignatures tools alg pae rest

same_alg_of :
    (alg : String) (v : Json)
    → other_alg (some alg) v ≡ false
    → (v ≡ Json.null) ⊎ (v ≡ Json.str alg)
same_alg_of alg Json.null h = inl refl
same_alg_of alg (Json.str t) h = inr (is_text_eq alg (Json.str t) (ground (arith, h)))
same_alg_of alg (Json.bool b) h = cc
same_alg_of alg (Json.num n) h = cc
same_alg_of alg (Json.float n b) h = cc
same_alg_of alg Json.nan h = cc
same_alg_of alg (Json.arr is) h = cc
same_alg_of alg (Json.obj o) h = cc

entry_verifies-IsSignature :
    (tools : Tools) (alg : String) (pae : Bytes) (entry : Json)
    → entry_verifies tools (some alg) pae (object? entry) ≡ true
    → IsSignature tools alg pae entry
entry_verifies-IsSignature tools alg pae entry h = elim (Option-cases (object? entry)) [
  | inl p ↦ absurd (ground (arith, h, p))
  | inr (o, p) ↦ elim (Bool-cases (other_alg (some alg) (get "alg" o))) [
    | inl q ↦ absurd (ground (arith, h, p, q))
    | inr q ↦ elim (Option-cases (decoded tools (get "sig" o))) [
      | inl r ↦ absurd (ground (arith, h, p, q, r))
      | inr (raw, r) ↦ record {
        fields = o;
        is_object = object_eq entry o p;
        same_alg = same_alg_of alg (get "alg" o) q;
        raw = raw;
        carried = r;
        verified = ground (arith, h, p, q, r);
      }
    ]
  ]
]

all_verify-AllSignatures :
    (tools : Tools) (alg : String) (pae : Bytes) (entries : Items)
    → all_verify tools (some alg) pae entries ≡ true
    → AllSignatures tools alg pae entries
all_verify-AllSignatures tools alg pae nil h = tt
all_verify-AllSignatures tools alg pae (cons e rest) h = (
  entry_verifies-IsSignature tools alg pae e (ground (arith, h)),
  all_verify-AllSignatures tools alg pae rest (ground (arith, h)),
)

same_bytes-some :
    (o c : Option Bytes) → same_bytes o c ≡ true → (p : Bytes) × (o ≡ some p) × (c ≡ some p)
same_bytes-some none c h = cc
same_bytes-some (some p) none h = cc
same_bytes-some (some p) (some q) h = (p, refl, ap some (sym ((list_beq_iff p q).0 h)))

-- The envelope carries the canonical bytes of the execution, under the type that is asked for, and each
-- of its signatures is one of these bytes and this type.
pub record IsAttested (tools : Tools) (alg payload_type : String) (envelope execution : Json)
    : Type 0 where
  pub fields : Fields
  pub is_object : envelope ≡ Json.obj fields
  pub receipt : is_receipt_type payload_type ≡ true
  pub audience : get "payloadType" fields ≡ Json.str payload_type
  pub payload : Bytes
  pub carried : decoded tools (get "payload" fields) ≡ some payload
  pub canonical : tools.canonical execution ≡ some payload
  pub type_bytes : Bytes
  pub spelled : tools.utf8 payload_type ≡ some type_bytes
  pub pae : Bytes
  pub encoded : dsse_pae payload type_bytes ≡ some pae
  pub entries : Items
  pub signatures : get "signatures" fields ≡ Json.arr entries
  pub signed : AllSignatures tools alg pae entries

dsse_verify-IsAttested :
    (tools : Tools) (alg payload_type : String) (o : Fields) (execution : Json) (payload : Bytes)
    → is_receipt_type payload_type ≡ true
    → get "payloadType" o ≡ Json.str payload_type
    → decoded tools (get "payload" o) ≡ some payload
    → tools.canonical execution ≡ some payload
    → dsse_verify tools (some alg) (Json.obj o) ≡ some true
    → IsAttested tools alg payload_type (Json.obj o) execution
unfolding dsse_verify
dsse_verify-IsAttested tools alg payload_type o execution payload k a d c h =
    elim (Option-cases (signatures_of (get "signatures" o))) [
      | inl p ↦ absurd (ground (arith, rw (dsse_verify, a, p) at h))
      | inr (entries, p) ↦ elim (Option-cases (tools.utf8 payload_type)) [
        | inl q ↦ absurd (ground (arith, rw (dsse_verify, a, p, d, q) at h))
        | inr (type_bytes, q) ↦ elim (Option-cases (dsse_pae payload type_bytes)) [
          | inl r ↦ absurd (ground (arith, rw (dsse_verify, a, p, d, q, r) at h))
          | inr (pae, r) ↦ record {
            fields = o;
            is_object = refl;
            receipt = k;
            audience = a;
            payload = payload;
            carried = d;
            canonical = c;
            type_bytes = type_bytes;
            spelled = q;
            pae = pae;
            encoded = r;
            entries = entries;
            signatures = signatures_eq (get "signatures" o) entries p;
            signed =
                let all : some (all_verify tools (some alg) pae entries) ≡ some true =
                  rw (dsse_verify, a, p, d, q, r) at h in
                all_verify-AllSignatures tools alg pae entries (ground (arith, all));
          }
        ]
      ]
    ]

with_age_valid :
    (recent_enough : Bool) (o : Option Bool)
    → with_age recent_enough o ≡ some true
    → (o ≡ some true) × (recent_enough ≡ true)
with_age_valid recent_enough none h = cc
with_age_valid recent_enough (some true) h = (refl, ground (arith, h))
with_age_valid recent_enough (some false) h = absurd (ground (arith, h))

-- A receipt that is accepted attests the execution: the envelope is of the type that is asked for,
-- which is one of the two of receipts, and carries the canonical bytes of the execution; each of its
-- signatures, which name the algorithm asked for or none, verifies over these bytes and this type; and
-- where a greatest age is asked for, the evidence in the execution is no older and not ahead of the clock
-- by more than a minute.
pub verify_execution_attestation-IsAttested :
    (tools : Tools) (iso : Iso) (alg payload_type : String) (now : Moment) (max_age : Option ℕ)
    (envelope execution : Json)
    → verify_execution_attestation tools iso alg payload_type now max_age envelope execution
      ≡ some true
    → IsAttested tools alg payload_type envelope execution
      × (fresh iso now max_age execution ≡ true)
unfolding verify_execution_attestation
verify_execution_attestation-IsAttested tools iso alg payload_type now max_age envelope execution
      h =
    elim (Option-cases (object? envelope)) [
      | inl p ↦ absurd (ground (arith, h, p))
      | inr (o, p) ↦ elim (Bool-cases (is_receipt_type payload_type)) [
        | inr k ↦ absurd (ground (arith, rw (verify_execution_attestation, p, k) at h))
        | inl k ↦ elim (Bool-cases (is_text payload_type (get "payloadType" o))) [
          | inr a ↦ absurd (ground (arith, rw (verify_execution_attestation, p, k, a) at h))
          | inl a ↦
              elim (Bool-cases
                (same_bytes (decoded tools (get "payload" o)) (tools.canonical execution))) [
                  | inr b ↦
                      absurd (ground (arith, rw (verify_execution_attestation, p, k, a, b) at h))
                  | inl b ↦
                      let same = object_eq envelope o p in
                      let (valid, recent) =
                        with_age_valid (fresh iso now max_age execution)
                          (dsse_verify tools (some alg) envelope)
                          (rw (verify_execution_attestation, p, k, a, b) at h) in
                      let (payload, carried, expected) =
                        same_bytes-some (decoded tools (get "payload" o))
                          (tools.canonical execution) b in
                      (
                        rw same (
                            dsse_verify-IsAttested tools alg payload_type o execution payload k
                              (is_text_eq payload_type (get "payloadType" o) a) carried expected
                              (rw same at valid)),
                        recent,
                      )
                ]
        ]
      ]
    ]
