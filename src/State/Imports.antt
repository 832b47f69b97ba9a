-- ===== src/State/Imports.antt =====
-- The host functions of `make_state_imports` (ephemora_cell/state.py), which a guest calls with
-- addresses of its memory. The memory is the runtime's, so it is a parameter: `read` and `write` may
-- raise, and the fields below are what the runtime documents of them.
use ephemora_cell.Common.{
  ℕ, ◌+◌, ◌≤◌, ◌≡◌, ◌⊎◌, Option, none, some, ltb, if◌then◌else◌, length, ok, raised,
}
use ephemora_cell.Common.Int.{ℤ, pos, ◌+ℤ◌}
use ephemora_cell.Common.Bytes.{Bytes, Text, decode_utf8, to_bytes4, from_bytes}
use ephemora_cell.State.{Store, get, set, delete}

pub record Memory : Type 1 where
  pub Mem : Type 0
  pub size : Mem → ℕ
  -- `memory.read(caller, start, stop)`
  pub read : Mem → ℤ → ℤ → Option Bytes
  -- `memory.write(caller, bytes, start)`
  pub write : Mem → Bytes → ℤ → Option Mem
  pub write_fits :
      (m : Mem) (bs : Bytes) (p : ℕ)
      → p + length bs ≤ size m
      → (m' : Mem) × (write m bs (pos p) ≡ some m')
  pub size-write :
      (m m' : Mem) (bs : Bytes) (p : ℕ) → write m bs (pos p) ≡ some m' → size m' ≡ size m
  pub read-write :
      (m m' : Mem) (bs : Bytes) (p q : ℕ)
      → write m bs (pos p) ≡ some m'
      → q ≡ p + length bs
      → read m' (pos p) (pos q) ≡ some bs
  pub read-write_apart :
      (m m' : Mem) (bs : Bytes) (p q r : ℕ)
      → write m bs (pos p) ≡ some m'
      → ((r ≤ p) ⊎ (p + length bs ≤ q))
      → read m' (pos q) (pos r) ≡ read m (pos q) (pos r)

abbrev pub errno_ok : ℕ
errno_ok = 0

abbrev pub errno_cap : ℕ
errno_cap = 1

abbrev pub errno_invalid : ℕ
errno_invalid = 2

abbrev pub errno_not_found : ℕ
errno_not_found = 3

abbrev pub errno_buf_too_small : ℕ
errno_buf_too_small = 4

module _ (memory : Memory) where
  open memory use {Mem, read, write}

  -- `_read_bytes`
  unfoldable pub read_bytes : Mem → ℤ → ℤ → Option Bytes
  unfolding ◌+ℤ◌
  read_bytes m ptr length = read m ptr (ptr +ℤ length)

  -- `_read_bytes(...).decode("utf-8")`; both may raise.
  unfoldable pub read_text : Mem → ℤ → ℤ → Option Text
  unfolding read_bytes
  read_text m ptr length = elim (read_bytes m ptr length) [ none ↦ none | some bs ↦ decode_utf8 bs ]

  -- `_set`: the `errno` and the store that the call leaves.
  unfoldable pub call_set : Mem → Store → ℤ → ℤ → ℤ → ℤ → ℕ × Store
  call_set m s name_ptr name_len val_ptr val_len = elim (read_text m name_ptr name_len) [
    | none ↦ (errno_invalid, s)
    | some name ↦ elim (read_bytes m val_ptr val_len) [
      | none ↦ (errno_invalid, s)
      | some value ↦ elim (set s name value) [ ok s' ↦ (errno_ok, s') | raised c ↦ (errno_cap, s) ]
    ]
  ]

  -- `len(value).to_bytes(4, "little")` and its write; `none` is an exception.
  unfoldable pub write_length : Mem → Bytes → ℤ → Option Mem
  write_length m value buf_len_ptr =
      if ltb (length value) 4294967296 then write m (to_bytes4 (length value)) buf_len_ptr else none

  -- What a call of the guest ends with: an `errno`, or an exception that traps the guest.
  pub data Reply : Type 0 where
    returned : ℕ → Mem → Reply
    trapped : Reply

  -- The last two writes of `_get`, of the value and of its length.
  unfoldable pub deliver : Mem → Bytes → ℤ → ℤ → Reply
  unfolding write_length
  deliver m value buf_ptr buf_len_ptr = elim (write m value buf_ptr) [
    | none ↦ trapped
    | some m' ↦ elim (write_length m' value buf_len_ptr) [
      | none ↦ trapped
      | some m'' ↦ returned errno_ok m''
    ]
  ]

  -- `_get`: the store is only read.
  unfoldable pub call_get : Mem → Store → ℤ → ℤ → ℤ → ℤ → Reply
  unfolding ◌+ℤ◌
  call_get m s name_ptr name_len buf_ptr buf_len_ptr = elim (read_text m name_ptr name_len) [
    | none ↦ returned errno_invalid m
    | some name ↦ elim (get s name) [
      | none ↦ returned errno_not_found m
      | some value ↦ elim (read m buf_len_ptr (buf_len_ptr +ℤ pos 4)) [
        | none ↦ returned errno_invalid m
        | some provided ↦
            if ltb (from_bytes provided) (length value)
            then elim (write_length m value buf_len_ptr) [
              | none ↦ trapped
              | some m' ↦ returned errno_buf_too_small m'
            ]
            else deliver m value buf_ptr buf_len_ptr
      ]
    ]
  ]

  -- `_delete`
  unfoldable pub call_delete : Mem → Store → ℤ → ℤ → ℕ × Store
  call_delete m s name_ptr name_len = elim (read_text m name_ptr name_len) [
    | none ↦ (errno_invalid, s)
    | some name ↦
        let (s', deleted) = delete s name in (if deleted then errno_ok else errno_not_found, s')
  ]
