-- ===== src/Tests/Memory.antt =====
-- A memory of a fixed size, which raises on every access out of range.
use ephemora_cell.Common.{
  ℕ, zero, suc, ◌+◌, ◌-◌, ◌≤◌, ◌<◌, ◌≡◌, ◌⊎◌, inl, inr, refl, Option, none, some, [], ◌∷◌, arith,
  nat_beq, leb, if◌then◌else◌, length, Bool-cases,
}
use ephemora_cell.Common.Int.{ℤ, pos, negsuc}
use ephemora_cell.Common.Bytes.{Bytes}
use ephemora_cell.State.Imports.{Memory}

pub record Cells : Type 0 where
  pub cell : ℕ → ℕ
  pub size : ℕ

abbrev pub put : (ℕ → ℕ) → ℕ → Bytes → ℕ → ℕ
put f p [] i = f i
put f p (b ∷ bs) i = if nat_beq i p then b else put f (p + 1) bs i

abbrev pub slice : (ℕ → ℕ) → ℕ → ℕ → Bytes
slice f p zero = []
slice f p (suc k) = f p ∷ slice f (p + 1) k

slice_agree :
    (f g : ℕ → ℕ) (p k : ℕ) → ((i : ℕ) → p ≤ i → i < p + k → f i ≡ g i) → slice f p k ≡ slice g p k
slice_agree f g p zero h = refl
slice_agree f g p (suc k) h = ground (
  arith,
  h p (omega arith) (omega arith),
  slice_agree f g (p + 1) k (λ i l u. h i (omega arith) (omega arith)),
)

put_apart :
    (f : ℕ → ℕ) (p : ℕ) (bs : Bytes) (i : ℕ) → ((i < p) ⊎ (p + length bs ≤ i)) → put f p bs i ≡ f i
put_apart f p [] i h = refl
put_apart f p (b ∷ bs) i h = ground (arith, put_apart f (p + 1) bs i)

slice-put : (f : ℕ → ℕ) (p : ℕ) (bs : Bytes) → slice (put f p bs) p (length bs) ≡ bs
slice-put f p [] = refl
slice-put f p (b ∷ bs) =
    let later =
      slice_agree (put f p (b ∷ bs)) (put f (p + 1) bs) (p + 1) (length bs)
        (λ i l u. ground arith) in
    ground (arith, later, slice-put f (p + 1) bs)

abbrev pub read : Cells → ℤ → ℤ → Option Bytes
read m (pos p) (pos q) = if leb q m.size then some (slice m.cell p (q - p)) else none
read m _ _ = none

abbrev pub write : Cells → Bytes → ℤ → Option Cells
write m bs (pos p) =
    if leb (p + length bs) m.size then some (record m { cell = put m.cell p bs }) else none
write m bs (negsuc p) = none

pub write_fits :
    (m : Cells) (bs : Bytes) (p : ℕ)
    → p + length bs ≤ m.size
    → (m' : Cells) × (write m bs (pos p) ≡ some m')
write_fits m bs p h = (record m { cell = put m.cell p bs }, ground arith)

pub size-write :
    (m m' : Cells) (bs : Bytes) (p : ℕ) → write m bs (pos p) ≡ some m' → m'.size ≡ m.size
size-write m m' bs p h = ground arith

pub read-write :
    (m m' : Cells) (bs : Bytes) (p q : ℕ)
    → write m bs (pos p) ≡ some m'
    → q ≡ p + length bs
    → read m' (pos p) (pos q) ≡ some bs
read-write m m' bs p q h e = elim (Bool-cases (leb (p + length bs) m.size)) [
  | inr f ↦ ground (arith, f)
  | inl t ↦
      let c : m' ≡ record m { cell = put m.cell p bs } = ground (arith, t) in
      let d : p + length bs - p ≡ length bs = omega arith in rw (c, e, t, d, slice-put m.cell p bs)
]

pub read-write_apart :
    (m m' : Cells) (bs : Bytes) (p q r : ℕ)
    → write m bs (pos p) ≡ some m'
    → ((r ≤ p) ⊎ (p + length bs ≤ q))
    → read m' (pos q) (pos r) ≡ read m (pos q) (pos r)
read-write_apart m m' bs p q r h a = elim (Bool-cases (leb (p + length bs) m.size)) [
  | inr f ↦ ground (arith, f)
  | inl t ↦
      let c : m' ≡ record m { cell = put m.cell p bs } = ground (arith, t) in
      let same =
        slice_agree (put m.cell p bs) m.cell q (r - q)
          (λ i l u. put_apart m.cell p bs i (omega arith)) in
      rw (c, same)
]

-- The memory as the bindings see it.
abbrev pub cells : Memory
cells = record {
  Mem = Cells;
  size = λ m. m.size;
  read = read;
  write = write;
  write_fits = write_fits;
  size-write = size-write;
  read-write = read-write;
  read-write_apart = read-write_apart;
}
