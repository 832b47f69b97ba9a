-- ===== src/Sandbox/Output.antt =====
-- The output budget of ephemora_cell/_sandbox_common.py: the sinks of a run write to files of the host
-- and share one budget of bytes.
use mathlib.Core.List.{append-nil, append_assoc}
use ephemora_cell.Common.{
  ℕ, ◌+◌, ◌-◌, ◌≤◌, ◌≡◌, refl, sym, ap, ◌∙◌, Bool, true, false, Option, none, some, List, [], ◌∷◌,
  ◌++◌, ltb, length, length-append, take, if◌then◌else◌, arith, Bool-cases, Option-cases, inl, inr,
  zero, suc,
}
use ephemora_cell.Common.Int.{ℤ, pos, negsuc, sub_ℕ}
use ephemora_cell.Common.Bytes.{Bytes}

pub data Stream : Type 0 where
  stdout stderr : Stream

-- The budget that is left and the two files.
pub record Capture : Type 0 where
  pub budget : ℕ
  pub out : Bytes
  pub err : Bytes

-- `_MAX_OUTPUT_BYTES`
abbrev pub max_output_bytes : ℕ
max_output_bytes = 10000

-- `-_WASI_ERRNO_NOSPC`
abbrev pub no_space : Option ℤ
no_space = some (negsuc 50)

abbrev pub append_to : Stream → Bytes → Capture → Capture
append_to stdout data' c = record c { out = c.out ++ data' }
append_to stderr data' c = record c { err = c.err ++ data' }

-- A write of the guest; where the host's file raises an `OSError`, `failed_after` is how many of the
-- bytes it has taken by then.
pub record Write : Type 0 where
  pub stream : Stream
  pub bytes : Bytes
  pub failed_after : Option ℕ

-- `_sink`: `none` accepts the write, and a negative number refuses it. The budget is charged before the
-- file is written to.
unfoldable pub sink : Write → Capture → Option ℤ × Capture
sink w c =
    if ltb c.budget (length w.bytes)
    then (no_space, c)
    else let charged = record c { budget = c.budget - length w.bytes } in
      elim w.failed_after [
        | none ↦ (none, append_to w.stream w.bytes charged)
        | some n ↦ (no_space, append_to w.stream (take n w.bytes) charged)
      ]

-- The writes of a run in order.
unfoldable pub sink_all : List Write → Capture → Capture
sink_all [] c = c
sink_all (w ∷ ws) c = sink_all ws (sink w c).1

-- `read_capped_output`: the bytes that are decoded, whether the note of a cut is added, and the file
-- that is left.
unfoldable pub read_capped : ℕ → Bytes → Bytes × Bool × Bytes
read_capped limit file =
    if ltb limit (length file)
    then (take limit file, true, take limit file)
    else (file, false, file)

-- The policy of `fuel_consumed` for a store that refuses to be read.
pub data ReadError : Type 0 where
  none_on_error full_budget : ReadError

-- `fuel_consumed`, by what the store says is left; `none` is a store that raises.
unfoldable pub fuel_consumed : Option ℕ → Option ℕ → ReadError → Option ℤ
fuel_consumed none left policy = none
fuel_consumed (some max) (some left) policy = some (sub_ℕ max left)
fuel_consumed (some max) none full_budget = some (pos max)
fuel_consumed (some max) none none_on_error = none

-- What the writes of a run leave: the bytes in both files and the budget that is left are together at
-- most what they were, and each file still begins with what it held.
pub record Sunk (before after : Capture) : Type 0 where
  pub within :
      length after.out + length after.err + after.budget
      ≤ length before.out + length before.err + before.budget
  pub more_out : Bytes
  pub more_err : Bytes
  pub out_grows : after.out ≡ before.out ++ more_out
  pub err_grows : after.err ≡ before.err ++ more_err

Sunk-kept : (c : Capture) → Sunk c c
Sunk-kept c = record {
  within = omega arith;
  more_out = [];
  more_err = [];
  out_grows = sym (append-nil c.out);
  err_grows = sym (append-nil c.err);
}

-- Some of the bytes that were charged are written.
Sunk-written :
    (s : Stream) (d : Bytes) (n : ℕ) (c : Capture)
    → length d ≤ n
    → n ≤ c.budget
    → Sunk c (append_to s d (record c { budget = c.budget - n }))
Sunk-written stdout d n c some_of fits = record {
  within = omega (arith, some_of, fits, length-append c.out d);
  more_out = d;
  more_err = [];
  out_grows = refl;
  err_grows = sym (append-nil c.err);
}
Sunk-written stderr d n c some_of fits = record {
  within = omega (arith, some_of, fits, length-append c.err d);
  more_out = [];
  more_err = d;
  out_grows = sym (append-nil c.out);
  err_grows = refl;
}

length-take : (n : ℕ) (s : Bytes) → length (take n s) ≤ length s
length-take zero s = omega arith
length-take (suc n) [] = omega arith
length-take (suc n) (b ∷ s) = omega (arith, length-take n s)

sink-Sunk : (w : Write) (c : Capture) → Sunk c (sink w c).1
unfolding sink
sink-Sunk w c = elim (Bool-cases (ltb c.budget (length w.bytes))) [
  | inl over ↦ rw (sink, over) (Sunk-kept c)
  | inr fits ↦
      let room : length w.bytes ≤ c.budget = ground (arith, fits) in
      elim (Option-cases w.failed_after) [
        | inl done ↦
            rw (sink, fits, done)
              (Sunk-written w.stream w.bytes (length w.bytes) c (omega arith) room)
        | inr (n, failed) ↦
            rw (sink, fits, failed)
              (Sunk-written w.stream (take n w.bytes) (length w.bytes) c (length-take n w.bytes)
                room)
      ]
]

Sunk-trans : (a b c : Capture) → Sunk a b → Sunk b c → Sunk a c
Sunk-trans a b c p q = record {
  within = omega (arith, p.within, q.within);
  more_out = p.more_out ++ q.more_out;
  more_err = p.more_err ++ q.more_err;
  out_grows =
      q.out_grows
      ∙ ap (λ (x : Bytes). x ++ q.more_out) p.out_grows
      ∙ append_assoc a.out p.more_out q.more_out;
  err_grows =
      q.err_grows
      ∙ ap (λ (x : Bytes). x ++ q.more_err) p.err_grows
      ∙ append_assoc a.err p.more_err q.more_err;
}

-- However a guest writes to its two streams, and whichever writes of the host fail, at whatever byte, the
-- two files together grow by at most the budget, and each of them keeps what it held.
pub sink_all-Sunk : (ws : List Write) (c : Capture) → Sunk c (sink_all ws c)
unfolding sink_all
sink_all-Sunk [] c = Sunk-kept c
sink_all-Sunk (w ∷ ws) c =
    Sunk-trans c (sink w c).1 (sink_all ws (sink w c).1) (sink-Sunk w c)
      (sink_all-Sunk ws (sink w c).1)
