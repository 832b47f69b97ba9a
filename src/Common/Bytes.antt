-- ===== src/Common/Bytes.antt =====
-- Bytes as numbers, Python texts as their code points, and the strict UTF-8 decoder.
use Prim.Native.Nat.{ℕ, zero, suc, ◌+◌, ◌-◌, ◌*◌, ◌/◌, ◌%◌, ◌<◌}
use mathlib.Core.Path.{◌≡◌, refl}
use mathlib.Core.Logic.{◌↔◌}
use mathlib.Core.Bool.{Bool, true, false, ◌&&◌}
use mathlib.Core.Option
use mathlib.Core.Option.{Option, none, some}
use mathlib.Core.List.{List, [], ◌∷◌}
use native.Mathlib.Omega.{arith}
use ephemora_cell.Common.Tests.{ltb, leb, nat_beq, nat_beq_iff, if◌then◌else◌, Key}

abbrev pub Bytes : Type 0
Bytes = List ℕ

-- A `str`, as its code points.
abbrev pub Text : Type 0
Text = List ℕ

abbrev pub list_beq : List ℕ → List ℕ → Bool
list_beq [] [] = true
list_beq [] (_ ∷ _) = false
list_beq (_ ∷ _) [] = false
list_beq (a ∷ s) (b ∷ t) = nat_beq a b && list_beq s t

pub list_beq_iff : (s t : List ℕ) → (list_beq s t ≡ true) ↔ (s ≡ t)
list_beq_iff [] [] = (λ _. refl, λ _. refl)
list_beq_iff [] (b ∷ t) = (λ h. cc, λ h. cc)
list_beq_iff (a ∷ s) [] = (λ h. cc, λ h. cc)
list_beq_iff (a ∷ s) (b ∷ t) =
    let (there, back) = list_beq_iff s t in
    let (same, equal) = nat_beq_iff a b in
    (λ h. ground (arith, there, same), λ h. ground (arith, back, equal))

instance abbrev pub bytes_key : Key (List ℕ)
bytes_key = record { equal = list_beq; equal_iff = list_beq_iff }

-- What a first byte announces: the continuation bytes to come, the range of the next one, and the
-- bits it carries. Overlong forms and surrogates are ruled out by the ranges.
pub record Lead : Type 0 where
  pub need : ℕ
  pub low : ℕ
  pub high : ℕ
  pub bits : ℕ

abbrev pub lead : ℕ → Option Lead
lead b =
    if ltb b 0x80
    then none
    else if ltb b 0xC2
    then none
    else if ltb b 0xE0
    then some (record { need = 1; low = 0x80; high = 0xBF; bits = b - 0xC0 })
    else if ltb b 0xF0
    then some (record {
      need = 2;
      low = if nat_beq b 0xE0 then 0xA0 else 0x80;
      high = if nat_beq b 0xED then 0x9F else 0xBF;
      bits = b - 0xE0;
    })
    else if ltb b 0xF5
    then some (record {
      need = 3;
      low = if nat_beq b 0xF0 then 0x90 else 0x80;
      high = if nat_beq b 0xF4 then 0x8F else 0xBF;
      bits = b - 0xF0;
    })
    else none

-- `need` continuation bytes are missing, and the next one lies in `low .. high`.
pub decode_from : (need low high bits : ℕ) → Bytes → Option Text
decode_from zero low high bits [] = some []
decode_from (suc n) low high bits [] = none
decode_from zero low high bits (b ∷ rest) =
    if ltb b 0x80
    then Option.map (λ t. b ∷ t) (decode_from zero 0 0 0 rest)
    else elim (lead b) [ none ↦ none | some l ↦ decode_from l.need l.low l.high l.bits rest ]
decode_from (suc zero) low high bits (b ∷ rest) =
    if leb low b && leb b high
    then Option.map (λ t. (bits * 64 + (b - 0x80)) ∷ t) (decode_from zero 0 0 0 rest)
    else none
decode_from (suc (suc n)) low high bits (b ∷ rest) =
    if leb low b && leb b high
    then decode_from (suc n) 0x80 0xBF (bits * 64 + (b - 0x80)) rest
    else none

-- `b.decode("utf-8")`; `none` is a `UnicodeDecodeError`.
unfoldable pub decode_utf8 : Bytes → Option Text
unfolding decode_from
decode_utf8 = decode_from 0 0 0 0

decode_utf8_euro : decode_utf8 (0x41 ∷ 0xE2 ∷ 0x82 ∷ 0xAC ∷ []) ≡ some (0x41 ∷ 0x20AC ∷ [])
unfolding decode_utf8
decode_utf8_euro = refl

decode_utf8_surrogate : decode_utf8 (0xED ∷ 0xA0 ∷ 0x80 ∷ []) ≡ none
unfolding decode_utf8
decode_utf8_surrogate = refl

-- `n.to_bytes(4, "little")`, for `n < 2 ** 32`.
abbrev pub to_bytes4 : ℕ → Bytes
to_bytes4 n = n % 256 ∷ n / 256 % 256 ∷ n / 65536 % 256 ∷ n / 16777216 % 256 ∷ []

-- `int.from_bytes(b, "little")`
abbrev pub from_bytes : Bytes → ℕ
from_bytes [] = 0
from_bytes (b ∷ rest) = b + 256 * from_bytes rest

pub from_bytes-to_bytes4 : (n : ℕ) → n < 4294967296 → from_bytes (to_bytes4 n) ≡ n
from_bytes-to_bytes4 n h = omega arith
