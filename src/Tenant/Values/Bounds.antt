-- ===== src/Tenant/Values/Bounds.antt =====
-- A charge that was constructed is within the safe integers, and so is every sum of two.
use ephemora_cell.Common.{◌+◌, ◌≤◌, ◌≡◌, arith, ok}
use ephemora_cell.Common.Int.{ℤ}
use ephemora_cell.Tenant.Values.{Charge, max_safe, make_charge, plus}

pub record IsSafe (c : Charge) : Type 0 where
  pub fuel : c.fuel ≤ max_safe
  pub output_bytes : c.output_bytes ≤ max_safe
  pub wall_ms : c.wall_ms ≤ max_safe

pub make_charge-IsSafe : (f o w : ℤ) (c : Charge) → make_charge f o w ≡ ok c → IsSafe c
unfolding make_charge
make_charge-IsSafe f o w c h = ground arith

-- A sum that returns is the sum in each dimension.
pub plus_adds :
    (c d s : Charge)
    → plus c d ≡ ok s
    → (s.fuel ≡ c.fuel + d.fuel)
      × (s.output_bytes ≡ c.output_bytes + d.output_bytes)
      × (s.wall_ms ≡ c.wall_ms + d.wall_ms)
unfolding plus make_charge
plus_adds c d s h = ground arith
