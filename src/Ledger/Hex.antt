-- ===== src/Ledger/Hex.antt =====
-- `bytes.hex` and `bytes.fromhex`.
use Prim.Native.Char.{Char, code}
use Prim.Native.String.{◌∷◌}
use ephemora_cell.Common.{
  ℕ, zero, suc, ◌+◌, ◌-◌, ◌*◌, ◌/◌, ◌%◌, ◌<◌, ◌≡◌, refl, ap, String, Bool, false, ◌&&◌, ◌||◌,
  Option, none, some, List, [], ◌∷◌, leb, nat_beq, if◌then◌else◌, arith, All,
}
use ephemora_cell.Common.Bytes.{Bytes}
use ephemora_cell.Common.Decimal.{codes}

abbrev digit : ℕ → Char
digit n =
    if nat_beq n 0
    then "0"
    else if nat_beq n 1
    then "1"
    else if nat_beq n 2
    then "2"
    else if nat_beq n 3
    then "3"
    else if nat_beq n 4
    then "4"
    else if nat_beq n 5
    then "5"
    else if nat_beq n 6
    then "6"
    else if nat_beq n 7
    then "7"
    else if nat_beq n 8
    then "8"
    else if nat_beq n 9
    then "9"
    else if nat_beq n 10
    then "a"
    else if nat_beq n 11
    then "b"
    else if nat_beq n 12
    then "c"
    else if nat_beq n 13
    then "d"
    else if nat_beq n 14
    then "e"
    else "f"

-- `raw.hex()`
unfoldable pub hex : Bytes → String
hex [] = ""
hex (b ∷ rest) = digit (b / 16) ∷ (digit (b % 16) ∷ hex rest)

abbrev value : ℕ → Option ℕ
value c =
    if leb b'0' c && leb c b'9'
    then some (c - b'0')
    else if leb b'a' c && leb c b'f'
    then some (c - b'a' + 10)
    else if leb b'A' c && leb c b'F'
    then some (c - b'A' + 10)
    else none

abbrev blank : ℕ → Bool
blank c = nat_beq c 32 || leb 9 c && leb c 13

abbrev pair : Option ℕ → Option ℕ → Option Bytes → Option Bytes
pair (some high) (some low) (some rest) = some ((high * 16 + low) ∷ rest)
pair _ _ _ = none

-- `bytes.fromhex`, which passes over white space between bytes; `none` is the exception.
unfoldable pub from_hex : List ℕ → Option Bytes
from_hex [] = some []
from_hex (c ∷ []) = if blank c then some [] else none
from_hex (c ∷ d ∷ s) = if blank c then from_hex (d ∷ s) else pair (value c) (value d) (from_hex s)

value-digit : (n : ℕ) → n < 16 → value (code (digit n)) ≡ some n
value-digit zero h = refl
value-digit (suc zero) h = refl
value-digit (suc (suc zero)) h = refl
value-digit (suc (suc (suc zero))) h = refl
value-digit (suc (suc (suc (suc zero)))) h = refl
value-digit (suc (suc (suc (suc (suc zero))))) h = refl
value-digit (suc (suc (suc (suc (suc (suc zero)))))) h = refl
value-digit (suc (suc (suc (suc (suc (suc (suc zero))))))) h = refl
value-digit (suc (suc (suc (suc (suc (suc (suc (suc zero)))))))) h = refl
value-digit (suc (suc (suc (suc (suc (suc (suc (suc (suc zero))))))))) h = refl
value-digit (suc (suc (suc (suc (suc (suc (suc (suc (suc (suc zero)))))))))) h = refl
value-digit (suc (suc (suc (suc (suc (suc (suc (suc (suc (suc (suc zero))))))))))) h = refl
value-digit (suc (suc (suc (suc (suc (suc (suc (suc (suc (suc (suc (suc zero)))))))))))) h = refl
value-digit (suc (suc (suc (suc (suc (suc (suc (suc (suc (suc (suc (suc (suc zero))))))))))))) h =
    refl
value-digit (suc (suc (suc (suc (suc (suc (suc (suc (suc (suc (suc (suc (suc (suc zero))))))))))))))
      h =
    refl
value-digit
      (suc (suc (suc (suc (suc (suc (suc (suc (suc (suc (suc (suc (suc (suc (suc zero)))))))))))))))
      h =
    refl
value-digit
      (suc
        (suc (suc (suc (suc (suc (suc (suc (suc (suc (suc (suc (suc (suc (suc (suc n))))))))))))))))
      h =
    ground (arith, h)

blank-digit : (n : ℕ) → n < 16 → blank (code (digit n)) ≡ false
blank-digit zero h = refl
blank-digit (suc zero) h = refl
blank-digit (suc (suc zero)) h = refl
blank-digit (suc (suc (suc zero))) h = refl
blank-digit (suc (suc (suc (suc zero)))) h = refl
blank-digit (suc (suc (suc (suc (suc zero))))) h = refl
blank-digit (suc (suc (suc (suc (suc (suc zero)))))) h = refl
blank-digit (suc (suc (suc (suc (suc (suc (suc zero))))))) h = refl
blank-digit (suc (suc (suc (suc (suc (suc (suc (suc zero)))))))) h = refl
blank-digit (suc (suc (suc (suc (suc (suc (suc (suc (suc zero))))))))) h = refl
blank-digit (suc (suc (suc (suc (suc (suc (suc (suc (suc (suc zero)))))))))) h = refl
blank-digit (suc (suc (suc (suc (suc (suc (suc (suc (suc (suc (suc zero))))))))))) h = refl
blank-digit (suc (suc (suc (suc (suc (suc (suc (suc (suc (suc (suc (suc zero)))))))))))) h = refl
blank-digit (suc (suc (suc (suc (suc (suc (suc (suc (suc (suc (suc (suc (suc zero))))))))))))) h =
    refl
blank-digit (suc (suc (suc (suc (suc (suc (suc (suc (suc (suc (suc (suc (suc (suc zero))))))))))))))
      h =
    refl
blank-digit
      (suc (suc (suc (suc (suc (suc (suc (suc (suc (suc (suc (suc (suc (suc (suc zero)))))))))))))))
      h =
    refl
blank-digit
      (suc
        (suc (suc (suc (suc (suc (suc (suc (suc (suc (suc (suc (suc (suc (suc (suc n))))))))))))))))
      h =
    ground (arith, h)

pub from_hex-hex : (bs : Bytes) → All (λ b. b < 256) bs → from_hex (codes (hex bs)) ≡ some bs
unfolding from_hex hex
from_hex-hex [] h = refl
from_hex-hex (b ∷ rest) h =
    rw
      (
        blank-digit (b / 16) (omega (arith, h.0)),
        value-digit (b / 16) (omega (arith, h.0)),
        value-digit (b % 16) (omega arith),
        from_hex-hex rest h.1,
      )
      (ap (λ (c : ℕ). some (c ∷ rest)) (omega arith))
