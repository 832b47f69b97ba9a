-- ===== src/Common/Decimal.antt =====
-- `int(v)` of a decoded value. A text is read as Python reads it in ASCII: white space around, a sign,
-- digits with single underscores between them.
use Prim.Native.Nat.{ℕ, zero, suc, ◌+◌, ◌-◌, ◌*◌, ◌/◌, ◌%◌, ◌<◌}
use Prim.Native.Char.{code}
use Prim.Native.String.{String}
use mathlib.Core.Path.{◌≡◌, refl, ap, ◌∙◌}
use mathlib.Core.Logic.{inl, inr}
use mathlib.Core.Bool.{Bool, true, false, ◌&&◌, ◌||◌}
use mathlib.Core.Option
use mathlib.Core.Option.{Option, none, some}
use mathlib.Core.List.{List, [], ◌∷◌}
use ephemora_cell.Common.Tests.{leb, ltb, nat_beq, if◌then◌else◌, Bool-cases}
use ephemora_cell.Common.Int.{ℤ, pos, negsuc}
use ephemora_cell.Common.Json.{Json}
use ephemora_cell.Common.Show.{digit, show, show_from}
use native.Mathlib.Omega.{arith}

-- The code points of a text.
abbrev pub codes : String → List ℕ
codes String.[] = []
codes (String.◌∷◌ c s) = code c ∷ codes s

abbrev pub is_space : ℕ → Bool
is_space c = nat_beq c 32 || leb 9 c && leb c 13 || leb 28 c && leb c 31

all_space : List ℕ → Bool
all_space [] = true
all_space (c ∷ s) = is_space c && all_space s

skip_space : List ℕ → List ℕ
skip_space [] = []
skip_space (c ∷ s) = if is_space c then skip_space s else c ∷ s

-- `digit` says that a digit has just been read.
read_digits : (digit : Bool) → ℕ → List ℕ → Option ℕ
read_digits digit acc [] = if digit then some acc else none
read_digits digit acc (c ∷ s) = elim (leb b'0' c && leb c b'9') [
  | true ↦ read_digits true (acc * 10 + (c - b'0')) s
  | false ↦ elim (digit && nat_beq c b'_') [
    | true ↦ read_digits false acc s
    | false ↦ if digit && all_space (c ∷ s) then some acc else none
  ]
]

abbrev pub negated : ℕ → ℤ
negated n = if nat_beq n 0 then pos 0 else negsuc (n - 1)

read_signed : List ℕ → Option ℤ
read_signed [] = none
read_signed (c ∷ s) =
    if nat_beq c b'-'
    then Option.map negated (read_digits false 0 s)
    else if nat_beq c b'+'
    then Option.map pos (read_digits false 0 s)
    else Option.map pos (read_digits false 0 (c ∷ s))

-- `int(s)` of a text; `none` is the exception.
unfoldable pub int_text : List ℕ → Option ℤ
unfolding read_signed read_digits skip_space all_space
int_text s = read_signed (skip_space s)

-- `int(v)`; `none` is the exception.
unfoldable pub int_of : Json → Option ℤ
unfolding int_text
int_of (Json.num n) = some n
int_of (Json.bool true) = some (pos 1)
int_of (Json.bool false) = some (pos 0)
int_of (Json.float n exact) = some n
int_of (Json.str s) = int_text (codes s)
int_of _ = none

int_of_texts : (int_of (Json.str " -1_0 ") ≡ some (negsuc 9)) × (int_of (Json.str "1__0") ≡ none)
unfolding int_of
int_of_texts = (refl, refl)

code-digit : (n : ℕ) → n < 10 → code (digit n) ≡ b'0' + n
code-digit zero h = refl
code-digit (suc zero) h = refl
code-digit (suc (suc zero)) h = refl
code-digit (suc (suc (suc zero))) h = refl
code-digit (suc (suc (suc (suc zero)))) h = refl
code-digit (suc (suc (suc (suc (suc zero))))) h = refl
code-digit (suc (suc (suc (suc (suc (suc zero)))))) h = refl
code-digit (suc (suc (suc (suc (suc (suc (suc zero))))))) h = refl
code-digit (suc (suc (suc (suc (suc (suc (suc (suc zero)))))))) h = refl
code-digit (suc (suc (suc (suc (suc (suc (suc (suc (suc zero))))))))) h = refl
code-digit (suc (suc (suc (suc (suc (suc (suc (suc (suc (suc n)))))))))) h =
    absurd (omega (arith, h))

read_digits-digit :
    (b : Bool) (acc n : ℕ) (s : List ℕ)
    → n < 10
    → read_digits b acc (code (digit n) ∷ s) ≡ read_digits true (acc * 10 + n) s
unfolding read_digits
read_digits-digit b acc n s h = rw (code-digit n h) (ground (arith, h))

read_digits-show_from :
    (fuel n : ℕ) (acc : String)
    → n < fuel
    → read_digits false 0 (codes (show_from fuel n acc)) ≡ read_digits true n (codes acc)
unfolding show_from
read_digits-show_from zero n acc h = absurd (omega (arith, h))
read_digits-show_from (suc fuel) n acc h = elim (Bool-cases (ltb n 10)) [
  | inl p ↦ rw p (
      read_digits-digit false 0 n (codes acc) (ground (arith, p))
      ∙ ap (λ (m : ℕ). read_digits true m (codes acc)) (omega arith))
  | inr p ↦ rw p (
      read_digits-show_from fuel (n / 10) (String.◌∷◌ (digit (n % 10)) acc) (ground (arith, h, p))
      ∙ read_digits-digit true (n / 10) (n % 10) (codes acc) (omega arith)
      ∙ ap (λ (m : ℕ). read_digits true m (codes acc)) (omega arith))
]

-- A sign and a printed number are read back.
pub int_text-show :
    (n : ℕ)
    → (int_text (b'+' ∷ codes (show (pos n))) ≡ some (pos n))
      × (int_text (b'-' ∷ codes (show (pos n))) ≡ some (negated n))
unfolding int_text show
int_text-show n = (
  rw (read_digits-show_from (suc n) n String.[] (omega arith)) refl,
  rw (read_digits-show_from (suc n) n String.[] (omega arith)) refl,
)
