-- ===== src/Tests/State.antt =====
-- The store and its guest calls at concrete inputs.
use ephemora_cell.Common.{
  ◌≡◌, ◌↔◌, refl, none, List, [], ◌∷◌, arith, ok, raised, inl, inr, if◌then◌else◌, nat_beq,
}
use ephemora_cell.Common.Int.{pos, negsuc, ◌+ℤ◌}
use ephemora_cell.Common.Bytes.{Text, bytes_key, decode_utf8}
use ephemora_cell.State.{
  Store, create, get, set, stored, delete, check_set, value_bytes, total_bytes, entry_count,
  empty_name,
}
use ephemora_cell.State.Bounds.{IsValid}
use ephemora_cell.State.Lookup.{Fits, set_accepts_iff, get-set}
use ephemora_cell.State.Imports.{read_text, read_bytes, call_set, call_delete}
use ephemora_cell.State.Session.{Call, session, step, session-IsValid}
use ephemora_cell.State.Guest.{Request}
use ephemora_cell.Tests.Memory.{Cells, cells}

abbrev small : Store
small = record { max_value = 4; max_total = 6; max_entries = 2; entries = []; total = 0 }

abbrev key : Text
key = 107 ∷ []

abbrev held : Store
held = record small { entries = (key, 1 ∷ 2 ∷ 3 ∷ []) ∷ []; total = 3 }

create_rejects : create (pos 4) (negsuc 0) (pos 2) ≡ none
unfolding create
create_rejects = refl

set_refusals :
    (set small [] [] ≡ raised empty_name)
    × (set small key (1 ∷ 2 ∷ 3 ∷ 4 ∷ 5 ∷ []) ≡ raised value_bytes)
    × (set held (1 ∷ []) (1 ∷ 2 ∷ 3 ∷ 4 ∷ []) ≡ raised total_bytes)
    × (set (record held { max_entries = 1 }) (1 ∷ []) [] ≡ raised entry_count)
unfolding set check_set
set_refusals = (refl, refl, refl, refl)

-- Code point 107 is `k`; the name of four bytes is not UTF-8.
abbrev memory : Cells
memory = record {
  cell = λ i. if nat_beq i 0 then 107 else if nat_beq i 4 then 255 else 0;
  size = 32;
}

abbrev calls : List (Call cells)
calls =
    Call.host_set key (1 ∷ 2 ∷ 3 ∷ [])
    ∷ Call.guest_set memory (pos 0) (pos 1) (pos 8) (pos 2)
    ∷ Call.guest_set memory (pos 4) (pos 4) (pos 8) (pos 2)
    ∷ Call.guest_set memory (pos 8) (pos 1) (pos 8) (pos 4)
    ∷ Call.guest_delete memory (pos 0) (pos 1)
    ∷ []

session_run : (session cells small calls).entries ≡ (0 ∷ [], 0 ∷ 0 ∷ 0 ∷ 0 ∷ []) ∷ []
unfolding session step call_set set stored check_set read_text read_bytes decode_utf8 delete
    call_delete ◌+ℤ◌
session_run = refl

session-IsValid_example :
    let s' = session cells small calls in
    IsValid s' × (s'.max_value ≡ 4) × (s'.max_total ≡ 6) × (s'.max_entries ≡ 2)
unfolding create
session-IsValid_example = session-IsValid cells (pos 4) (pos 6) (pos 2) small calls refl

get-set_example : get (stored held (1 ∷ []) (7 ∷ [])) key ≡ get held key
unfolding set stored check_set
get-set_example = get-set held (stored held (1 ∷ []) (7 ∷ [])) (1 ∷ []) key (7 ∷ []) refl

held-IsValid : IsValid held
held-IsValid = record {
  unique = (refl, tt);
  fitting = (λ e. cc, omega arith, tt);
  counted = refl;
  total_capped = omega arith;
  entries_capped = omega arith;
}

set_accepts_iff_example :
    (set held (1 ∷ []) (7 ∷ []) ≡ ok (stored held (1 ∷ []) (7 ∷ [])))
    ↔ Fits held (1 ∷ []) (7 ∷ []) (stored held (1 ∷ []) (7 ∷ []))
set_accepts_iff_example = set_accepts_iff held (1 ∷ []) (7 ∷ []) held-IsValid

-- The name stands at 0, the word at 8 and the buffer at 16.
abbrev request : Request cells held memory
unfolding read_text decode_utf8 get
request = record {
  name_ptr = 0;
  name_len = 1;
  buf_ptr = 16;
  len_ptr = 8;
  name = key;
  value = 1 ∷ 2 ∷ 3 ∷ [];
  provided = 0 ∷ 0 ∷ 0 ∷ 0 ∷ [];
  named = refl;
  bound = refl;
  word = refl;
  short = omega arith;
  buf_fits = omega arith;
  len_fits = omega arith;
  buf_len = inr (omega arith);
  name_len_apart = inl (omega arith);
}
