-- ===== src/Canonical/Number.antt =====
-- `_jcs_number` of ephemora_cell/execution_report.py.
use ephemora_cell.Common.{
  ℕ, zero, suc, ◌+◌, ◌-◌, Bool, Option, none, some, [], ◌∷◌, ◌++◌, leb, nat_beq, length, take, drop,
  ◌&&◌, ◌||◌, if◌then◌else◌, Outcome, ok, raised, ◌>>=◌,
}
use ephemora_cell.Common.Int.{ℤ, pos, negsuc, pos_part, neg_part, sub_ℕ, ◌+ℤ◌, ltb_ℤ, leb_ℤ}
use ephemora_cell.Common.Show.{show}
use ephemora_cell.Common.Decimal.{codes, int_text}
use ephemora_cell.Common.Bytes.{Text}
use ephemora_cell.Canonical.Data.{
  JcsError, type_error, value_error, index_error, Float, special, zero_float, finite,
}

-- `JCS_MAX_SAFE_INTEGER` and its negative
abbrev pub max_safe_integer : ℤ
max_safe_integer = pos 9007199254740991

abbrev pub min_safe_integer : ℤ
min_safe_integer = negsuc 9007199254740990

unfoldable pub jcs_int : ℤ → Outcome JcsError Text
jcs_int v =
    if ltb_ℤ max_safe_integer v || ltb_ℤ v min_safe_integer
    then raised value_error
    else ok (codes (show v))

abbrev pub dot : ℕ
dot = b'.'

abbrev pub digit_zero : ℕ
digit_zero = b'0'

abbrev pub consed : ℕ → Option (Text × Text) → Option (Text × Text)
consed c none = none
consed c (some (s, rest)) = some (c ∷ s, rest)

-- `s.partition(sep)` for one character; `none` is a text without it.
unfoldable pub partition_at : ℕ → Text → Option (Text × Text)
partition_at sep [] = none
partition_at sep (c ∷ s) =
    let later = partition_at sep s in if nat_beq c sep then some ([], s) else consed c later

-- `s.lstrip("0")`
unfoldable pub lstrip : Text → Text
lstrip [] = []
lstrip (c ∷ s) = let rest = lstrip s in if nat_beq c digit_zero then rest else c ∷ s

abbrev pub unless_zero : ℕ → Text → Text
unless_zero c [] = if nat_beq c digit_zero then [] else c ∷ []
unless_zero c (d ∷ s) = c ∷ d ∷ s

-- `s.rstrip("0")`
unfoldable pub rstrip : Text → Text
rstrip [] = []
rstrip (c ∷ s) = unless_zero c (rstrip s)

-- `"0" * n`
unfoldable pub zeros : ℕ → Text
zeros zero = []
zeros (suc n) = digit_zero ∷ zeros n

abbrev pub or_raise : {A : Type 0} → Option A → Outcome JcsError A
or_raise none = raised value_error
or_raise (some a) = ok a

-- The mantissa and the exponent of a `repr`.
unfoldable pub mantissa_of : Text → Outcome JcsError (Text × ℤ)
mantissa_of r = elim (partition_at b'e' r) [
  | none ↦ ok (r, pos 0)
  | some (mantissa, exp) ↦ or_raise (int_text exp) >>= λ e. ok (mantissa, e)
]

-- `mantissa.split(".")` into two, where there is a dot
unfoldable pub parts : Text → Outcome JcsError (Text × Text)
parts mantissa = elim (partition_at dot mantissa) [
  | none ↦ ok (mantissa, [])
  | some (int_part, frac_part) ↦ elim (partition_at dot frac_part) [
    | none ↦ ok (int_part, frac_part)
    | some _ ↦ raised value_error
  ]
]

-- `digits` and `n`: the digits without the zeros at either end, and how many of them stand before the
-- point.
abbrev pub place : ℤ → Text × Text → Text × ℤ
place e (int_part, frac_part) =
    let digits = lstrip (int_part ++ frac_part) in
    let stripped = rstrip digits in
    let trailing_zeros = length digits - length stripped in
    let e10 = e +ℤ sub_ℕ 0 (length frac_part) +ℤ pos trailing_zeros in
    (stripped, e10 +ℤ pos (length stripped))

unfoldable pub decompose : Text → Outcome JcsError (Text × ℤ)
decompose r = mantissa_of r >>= λ (mantissa, e). parts mantissa >>= λ p. ok (place e p)

-- `n` digits before the point, or zeros after it
abbrev pub fixed : Text → ℤ → Text
fixed digits (pos (suc m)) =
    if leb (length digits) (suc m)
    then digits ++ zeros (suc m - length digits)
    else take (suc m) digits ++ dot ∷ drop (suc m) digits
fixed digits n = digit_zero ∷ dot ∷ zeros (neg_part n) ++ digits

abbrev pub magnitude : ℤ → ℤ
magnitude e = pos (pos_part e + neg_part e)

abbrev pub sign_of : ℤ → ℕ
sign_of (pos n) = b'+'
sign_of (negsuc n) = b'-'

abbrev pub suffix : ℤ → Text
suffix exponent = b'e' ∷ sign_of exponent ∷ codes (show (magnitude exponent))

-- One digit before the point and an exponent; `digits[0]` of no digits is an `IndexError`.
abbrev pub scientific : Text → ℤ → Outcome JcsError Text
scientific [] n = raised index_error
scientific (d ∷ []) n = ok (d ∷ suffix (n +ℤ negsuc 0))
scientific (d ∷ c ∷ s) n = ok (d ∷ dot ∷ (c ∷ s) ++ suffix (n +ℤ negsuc 0))

-- The text for some digits, of which `n` stand before the point.
unfoldable pub layout : Text → ℤ → Outcome JcsError Text
layout digits n =
    if ltb_ℤ (negsuc 5) n && leb_ℤ n (pos 21) then ok (fixed digits n) else scientific digits n

abbrev pub signed : Bool → Text → Text
signed negative s = if negative then b'-' ∷ s else s

unfoldable pub jcs_float : Float → Outcome JcsError Text
jcs_float special = raised type_error
jcs_float zero_float = ok (digit_zero ∷ [])
jcs_float (finite negative r) =
    decompose r >>= λ (digits, n). layout digits n >>= λ out. ok (signed negative out)
