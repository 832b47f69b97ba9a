-- ===== src/Tests/Iso.antt =====
-- A printer and a parser of moments: one letter for each millisecond.
use Prim.Native.Char.{code}
use Prim.Native.String.{◌∷◌}
use ephemora_cell.Common.{
  ℕ, zero, suc, ◌*◌, ◌/◌, ◌≡◌, refl, ap, false, String, some, nat_beq, if◌then◌else◌, str_is_empty,
}
use ephemora_cell.Common.Moment.{Iso, aware, replace_z}

abbrev pub unary : ℕ → String
unary zero = "t"
unary (suc n) = "i" ∷ unary n

abbrev pub ticks : String → ℕ
ticks String.[] = 0
ticks (String.◌∷◌ c s) = if nat_beq (code c) b'i' then suc (ticks s) else ticks s

pub ticks-unary : (n : ℕ) → ticks (unary n) ≡ n
ticks-unary zero = refl
ticks-unary (suc n) = ap suc (ticks-unary n)

pub replace_z-unary : (n : ℕ) → replace_z (unary n) ≡ unary n
unfolding replace_z
replace_z-unary zero = refl
replace_z-unary (suc zero) = refl
replace_z-unary (suc (suc n)) = ap (λ s. "i" ∷ s) (replace_z-unary (suc n))

pub unary_named : (n : ℕ) → str_is_empty (unary n) ≡ false
unary_named zero = refl
unary_named (suc n) = refl

abbrev pub unary_iso : Iso
unary_iso = record {
  from_iso = λ s. some (aware (ticks s * 1000));
  stamp = λ m. unary (m / 1000);
  from_iso-stamp = λ m. ap (λ n. some (aware (n * 1000))) (ticks-unary (m / 1000));
  replace_z-stamp = λ m. replace_z-unary (m / 1000);
  stamp_named = λ m. unary_named (m / 1000);
}
