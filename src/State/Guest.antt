-- ===== src/State/Guest.antt =====
-- The buffer protocol of the guest's `get`: the guest names a buffer and a word that holds its size.
use ephemora_cell.Common.{ℕ, ◌∙◌, ◌+◌, ◌≤◌, ◌<◌, ◌≡◌, ◌⊎◌, refl, some, arith, length}
use ephemora_cell.Common.Int.{pos, ◌+ℤ◌}
use ephemora_cell.Common.Bytes.{Bytes, Text, to_bytes4, from_bytes}
use ephemora_cell.State.{Store, get}
use ephemora_cell.State.Imports.{
  Memory, Reply, returned, call_get, deliver, write_length, read_text, read_bytes, errno_ok,
  errno_buf_too_small,
}

-- The two ranges share no address.
abbrev pub Apart : ℕ → ℕ → ℕ → ℕ → Type 0
Apart p k q n = (p + k ≤ q) ⊎ (q + n ≤ p)

-- The arguments of a `get` whose name is bound to `value`, with the buffer of `value`'s length, the
-- word and the name in bounds and apart.
pub record Request (memory : Memory) (s : Store) (m : memory.Mem) : Type 0 where
  pub name_ptr : ℕ
  pub name_len : ℕ
  pub buf_ptr : ℕ
  pub len_ptr : ℕ
  pub name : Text
  pub value : Bytes
  pub provided : Bytes
  pub named : read_text memory m (pos name_ptr) (pos name_len) ≡ some name
  pub bound : get s name ≡ some value
  pub word : memory.read m (pos len_ptr) (pos (len_ptr + 4)) ≡ some provided
  pub short : length value < 4294967296
  pub buf_fits : buf_ptr + length value ≤ memory.size m
  pub len_fits : len_ptr + 4 ≤ memory.size m
  pub buf_len : Apart buf_ptr (length value) len_ptr 4
  pub name_len_apart : Apart name_ptr name_len len_ptr 4

-- Memories that agree on a range hold the same text there.
read_text_same :
    (memory : Memory) (m m' : memory.Mem) (p k : ℕ)
    → memory.read m' (pos p) (pos (p + k)) ≡ memory.read m (pos p) (pos (p + k))
    → read_text memory m' (pos p) (pos k) ≡ read_text memory m (pos p) (pos k)
unfolding read_text read_bytes ◌+ℤ◌
read_text_same memory m m' p k h = ground (arith, h)

module _ (memory : Memory) (s : Store) (m : memory.Mem) (r : Request memory s m) where
  open r use {
    name_ptr, name_len, buf_ptr, len_ptr, name, value, provided, named, bound, word, short,
    buf_fits, len_fits, buf_len, name_len_apart,
  }

  -- The call that the request makes of a memory.
  abbrev pub called : memory.Mem → Reply memory
  called m' = call_get memory m' s (pos name_ptr) (pos name_len) (pos buf_ptr) (pos len_ptr)

  -- The value stands in the buffer, and its length in the word.
  pub record Delivered (m' : memory.Mem) : Type 0 where
    pub replied : called m ≡ returned errno_ok m'
    pub in_buffer : memory.read m' (pos buf_ptr) (pos (buf_ptr + length value)) ≡ some value
    pub in_word : memory.read m' (pos len_ptr) (pos (len_ptr + 4)) ≡ some (to_bytes4 (length value))

  -- A buffer of at least the value's length receives the value, and the word its length.
  pub get_delivers : length value ≤ from_bytes provided → (m' : memory.Mem) × Delivered m'
  unfolding call_get deliver write_length ◌+ℤ◌
  get_delivers enough =
      let (m₁, w₁) = memory.write_fits m value buf_ptr buf_fits in
      let (m₂, w₂) =
        memory.write_fits m₁ (to_bytes4 (length value)) len_ptr
          (omega (arith, memory.size-write m m₁ value buf_ptr w₁)) in
      (
        m₂,
        record {
          replied = ground arith;
          in_buffer =
              memory.read-write_apart m₁ m₂ (to_bytes4 (length value)) len_ptr buf_ptr
                (buf_ptr + length value) w₂ buf_len
              ∙ memory.read-write m m₁ value buf_ptr (buf_ptr + length value) w₁ refl;
          in_word =
              memory.read-write m₁ m₂ (to_bytes4 (length value)) len_ptr (len_ptr + 4) w₂ refl;
        },
      )

  -- A buffer that is too small is left alone, and the word receives the length that is needed.
  pub get_too_small :
      from_bytes provided < length value
      → (m' : memory.Mem) × (called m ≡ returned errno_buf_too_small m')
        × (memory.write m (to_bytes4 (length value)) (pos len_ptr) ≡ some m')
  unfolding call_get write_length ◌+ℤ◌
  get_too_small small =
      let (m', w) = memory.write_fits m (to_bytes4 (length value)) len_ptr len_fits in
      (m', ground arith, w)

  -- The same request at the memory that the refused call leaves.
  retry :
      (m' : memory.Mem)
      → memory.write m (to_bytes4 (length value)) (pos len_ptr) ≡ some m'
      → Request memory s m'
  retry m' w =
      let same = memory.size-write m m' (to_bytes4 (length value)) len_ptr w in
      record {
        name_ptr = name_ptr;
        name_len = name_len;
        buf_ptr = buf_ptr;
        len_ptr = len_ptr;
        name = name;
        value = value;
        provided = to_bytes4 (length value);
        named =
            read_text_same memory m m' name_ptr name_len (
              memory.read-write_apart m m' (to_bytes4 (length value)) len_ptr name_ptr
                (name_ptr + name_len) w name_len_apart)
            ∙ named;
        bound = bound;
        word = memory.read-write m m' (to_bytes4 (length value)) len_ptr (len_ptr + 4) w refl;
        short = short;
        buf_fits = omega (arith, same);
        len_fits = omega (arith, same);
        buf_len = buf_len;
        name_len_apart = name_len_apart;
      }
