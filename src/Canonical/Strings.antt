-- ===== src/Canonical/Strings.antt =====
-- `_jcs_string` of ephemora_cell/execution_report.py, and a reader of JSON strings.
use mathlib.Core.List.{append_assoc}
use ephemora_cell.Common.{
  ℕ, zero, suc, ◌+◌, ◌-◌, ◌*◌, ◌/◌, ◌%◌, ◌≡◌, refl, Bool, Option, none, some, [], ◌∷◌, ◌++◌, ltb,
  leb, nat_beq, ◌&&◌, if◌then◌else◌, arith, Bool-cases, inl, inr, Outcome, ok, raised, ◌>>=◌,
  Outcome-cases, sym,
}
use ephemora_cell.Common.Bytes.{Text}
use ephemora_cell.Canonical.Data.{JcsError, value_error}

abbrev pub quote : ℕ
quote = b'"'

abbrev pub backslash : ℕ
backslash = 92

abbrev pub hex_digit : ℕ → ℕ
hex_digit n = if ltb n 10 then b'0' + n else b'a' + (n - 10)

-- `_SURROGATE_MIN <= o <= _SURROGATE_MAX`
abbrev pub is_surrogate : ℕ → Bool
is_surrogate c = leb 0xD800 c && leb c 0xDFFF

-- What one character becomes.
unfoldable pub escape : ℕ → Text
escape c =
    if nat_beq c quote
    then backslash ∷ quote ∷ []
    else if nat_beq c backslash
    then backslash ∷ backslash ∷ []
    else if nat_beq c 8
    then backslash ∷ b'b' ∷ []
    else if nat_beq c 9
    then backslash ∷ b't' ∷ []
    else if nat_beq c 10
    then backslash ∷ b'n' ∷ []
    else if nat_beq c 12
    then backslash ∷ b'f' ∷ []
    else if nat_beq c 13
    then backslash ∷ b'r' ∷ []
    else if ltb c 0x20
    then backslash ∷ b'u' ∷ b'0' ∷ b'0' ∷ hex_digit (c / 16) ∷ hex_digit (c % 16) ∷ []
    else c ∷ []

-- The loop of `_jcs_string`, with the closing quote.
unfoldable pub escaped : Text → Outcome JcsError Text
escaped [] = ok (quote ∷ [])
escaped (c ∷ s) =
    let rest = escaped s in
    if is_surrogate c then raised value_error else rest >>= λ t. ok (escape c ++ t)

-- `_jcs_string`
unfoldable pub jcs_string : Text → Outcome JcsError Text
jcs_string s = escaped s >>= λ t. ok (quote ∷ t)

-- Where a reader of a string stands: between characters, after a backslash, or with so many digits of
-- a `\u` escape to come and the number so far.
pub data Place : Type 0 where
  plain after_backslash : Place
  in_hex : ℕ → ℕ → Place

abbrev pub hex_value : ℕ → Option ℕ
hex_value c =
    if leb b'0' c && leb c b'9'
    then some (c - b'0')
    else if leb b'a' c && leb c b'f'
    then some (c - b'a' + 10)
    else if leb b'A' c && leb c b'F'
    then some (c - b'A' + 10)
    else none

abbrev pub named_escape : ℕ → Option ℕ
named_escape c =
    if nat_beq c quote
    then some quote
    else if nat_beq c backslash
    then some backslash
    else if nat_beq c b'/'
    then some b'/'
    else if nat_beq c b'b'
    then some 8
    else if nat_beq c b'f'
    then some 12
    else if nat_beq c b'n'
    then some 10
    else if nat_beq c b'r'
    then some 13
    else if nat_beq c b't'
    then some 9
    else none

-- What the next character is, if it completes one, and where the reader then stands.
pub data Turn : Type 0 where
  char : ℕ → Turn
  go : Place → Turn
  close fail : Turn

abbrev pub turn_hex : ℕ → ℕ → Option ℕ → Turn
turn_hex n acc none = fail
turn_hex zero acc (some v) = char (acc * 16 + v)
turn_hex (suc n) acc (some v) = go (in_hex n (acc * 16 + v))

abbrev pub turn_named : Option ℕ → Turn
turn_named none = fail
turn_named (some v) = char v

abbrev pub turn : Place → ℕ → Turn
turn plain c =
    if nat_beq c quote
    then close
    else if nat_beq c backslash
    then go after_backslash
    else if ltb c 0x20
    then fail
    else char c
turn after_backslash c = if nat_beq c b'u' then go (in_hex 3 0) else turn_named (named_escape c)
turn (in_hex n acc) c = turn_hex n acc (hex_value c)

abbrev pub with_char : ℕ → Option (Text × Text) → Option (Text × Text)
with_char c none = none
with_char c (some (s, rest)) = some (c ∷ s, rest)

-- A string of JSON after its opening quote (RFC 8259, section 7, with each `\u` escape for itself): the
-- characters it stands for and what follows its closing quote.
unfoldable pub read_string : Place → Text → Option (Text × Text)
read_string p [] = none
read_string p (c ∷ s) = elim (turn p c) [
  | char d ↦ with_char d (read_string plain s)
  | go q ↦ read_string q s
  | close ↦ some ([], s)
  | fail ↦ none
]

read_string-escape :
    (c : ℕ) (t : Text) → read_string plain (escape c ++ t) ≡ with_char c (read_string plain t)
unfolding read_string escape
read_string-escape c t = ground arith

unfoldable pub read_json_string : Text → Option (Text × Text)
unfolding read_string
read_json_string [] = none
read_json_string (c ∷ s) = if nat_beq c quote then read_string plain s else none

escaped-read : (s t rest : Text) → escaped s ≡ ok t → read_string plain (t ++ rest) ≡ some (s, rest)
unfolding escaped read_string
escaped-read [] t rest e = let same : quote ∷ [] ≡ t = ground (arith, e) in rw (sym same) refl
escaped-read (c ∷ s) t rest e = elim (Bool-cases (is_surrogate c)) [
  | inl p ↦ ground (arith, e, p)
  | inr p ↦ elim (Outcome-cases (escaped s)) [
    | inr (_, q) ↦ ground (arith, e, p, q)
    | inl (u, q) ↦
        let same : escape c ++ u ≡ t = ground (arith, e, p, q) in
        rw
          (
            sym same,
            append_assoc (escape c) u rest,
            read_string-escape c (u ++ rest),
            escaped-read s u rest q,
          )
          refl
  ]
]

-- A string that is printed is read back, whatever follows it.
pub read_json_string-jcs_string :
    (s out rest : Text) → jcs_string s ≡ ok out → read_json_string (out ++ rest) ≡ some (s, rest)
unfolding jcs_string read_json_string
read_json_string-jcs_string s out rest e = elim (Outcome-cases (escaped s)) [
  | inr (_, q) ↦ ground (arith, e, q)
  | inl (t, q) ↦
      let same : quote ∷ t ≡ out = ground (arith, e, q) in rw (sym same) (escaped-read s t rest q)
]
