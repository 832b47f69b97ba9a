-- ===== src/Mcp/Transport.antt =====
-- `StdioTransport` of ephemora_cell_mcp/transport.py. The peer's bytes come in the chunks that `read1`
-- returns, none of them empty before the end; `carry` is what was read past a line.
pub mod Lines
pub mod Chunks
use ephemora_cell.Common.{
  ℕ, zero, suc, Bool, true, false, Option, none, some, List, [], ◌∷◌, ◌++◌, ltb, nat_beq, length,
  if◌then◌else◌,
}
use ephemora_cell.Common.Bytes.{Bytes}
use ephemora_cell.Common.Texts.{newline}

-- What `_readline_capped` returns.
pub data Line : Type 0 where
  eof oversized : Line
  line : Bytes → Line

pub record Reader : Type 0 where
  pub carry : Bytes
  pub chunks : List Bytes

abbrev extended : ℕ → Option (Bytes × Bytes) → Option (Bytes × Bytes)
extended c none = none
extended c (some (l, rest)) = some (c ∷ l, rest)

-- The bytes up to the first newline, with it, and the bytes after it.
unfoldable pub cut : Bytes → Option (Bytes × Bytes)
cut [] = none
cut (c ∷ s) = let later = cut s in if nat_beq c newline then some (c ∷ [], s) else extended c later

-- `_OVERSIZED if len(line) > max_line_bytes else line`
abbrev pub judged : ℕ → Bytes → Line
judged max l = if ltb max (length l) then oversized else line l

-- The rest of a line that is over the limit is read and dropped.
unfoldable pub discard : List Bytes → Reader
discard [] = record { carry = []; chunks = [] }
discard (chunk ∷ chunks) = elim (cut chunk) [
  | none ↦ discard chunks
  | some (l, rest) ↦ record { carry = rest; chunks = chunks }
]

-- What is left at the end of the input.
abbrev pub remainder : Bytes → Line
remainder [] = eof
remainder (c ∷ s) = line (c ∷ s)

-- `_readline_capped` on a stream of bytes
unfoldable pub readline_capped : ℕ → Bytes → List Bytes → Line × Reader
readline_capped max carry [] = elim (cut carry) [
  | some (l, rest) ↦ (judged max l, record { carry = rest; chunks = [] })
  | none ↦
      if ltb max (length carry)
      then (oversized, discard [])
      else (remainder carry, record { carry = []; chunks = [] })
]
readline_capped max carry (chunk ∷ chunks) = elim (cut carry) [
  | some (l, rest) ↦ (judged max l, record { carry = rest; chunks = chunk ∷ chunks })
  | none ↦
      let more = readline_capped max (carry ++ chunk) chunks in
      if ltb max (length carry) then (oversized, discard (chunk ∷ chunks)) else more
]

-- What `read_line` does with one line: it sends a refusal or delivers the line.
pub data Event : Type 0 where
  refused : Event
  delivered : Bytes → Event

-- The calls of `read_line` until the end of the input, with what each round of its loop does; each
-- round takes one unit of fuel.
unfoldable pub read_all : ℕ → ℕ → Reader → List Event
read_all zero max r = []
read_all (suc fuel) max r =
    let (result, next) = readline_capped max r.carry r.chunks in
    elim result [
      | eof ↦ []
      | oversized ↦ refused ∷ read_all fuel max next
      | line l ↦ delivered l ∷ read_all fuel max next
    ]
