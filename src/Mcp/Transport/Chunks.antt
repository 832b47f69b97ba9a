-- ===== src/Mcp/Transport/Chunks.antt =====
-- How the peer's bytes are cut into chunks makes no difference to the lines that are read.
use mathlib.Core.List.{append-nil, append_assoc}
use ephemora_cell.Common.{
  ℕ, zero, suc, ◌<◌, ◌≡◌, refl, sym, ap, ◌∙◌, true, false, none, List, [], ◌∷◌, ◌++◌, map, ltb,
  length, length-append, if◌then◌else◌, arith, Option-cases, Bool-cases, inl, inr,
}
use ephemora_cell.Common.Bytes.{Bytes}
use ephemora_cell.Mcp.Transport.{
  Line, eof, oversized, line, Reader, Event, refused, delivered, cut, judged, discard, remainder,
  readline_capped, read_all,
}
use ephemora_cell.Common.Texts.{lines, join}
use ephemora_cell.Mcp.Transport.Lines.{lines-cut, lines-uncut, cut-append}

abbrev pub flat : List Bytes → Bytes
flat [] = []
flat (c ∷ chunks) = c ++ flat chunks

-- What a reader has not returned yet.
abbrev pub pending : Reader → Bytes
pending r = r.carry ++ flat r.chunks

join-cons : (p l : Bytes) (ls : List Bytes) → 0 < length p → join p (l ∷ ls) ≡ (p ++ l) ∷ ls
join-cons [] l ls n = absurd (omega (arith, n))
join-cons (c ∷ p) l ls n = refl

discard-lines :
    (p : Bytes) (chunks : List Bytes)
    → cut p ≡ none
    → 0 < length p
    → (h : Bytes) × (lines (p ++ flat chunks) ≡ (p ++ h) ∷ lines (pending (discard chunks)))
unfolding discard lines
discard-lines (x ∷ p) [] k n =
    ([], lines-uncut (x ∷ p) [] k ∙ ap (λ (l : Bytes). l ∷ []) (sym (append-nil (x ∷ p))))
discard-lines [] [] k n = absurd (omega (arith, n))
discard-lines p (chunk ∷ chunks) k n = elim (Option-cases (cut chunk)) [
  | inl c ↦
      let (h, e) =
        discard-lines (p ++ chunk) chunks (cut-append p chunk k c)
          (omega (arith, length-append p chunk)) in
      (
        chunk ++ h,
        rw (discard, c)
            (ap lines (sym (append_assoc p chunk (flat chunks)))
              ∙ e
              ∙ ap (λ (l : Bytes). l ∷ lines (pending (discard chunks))) (append_assoc p chunk h)),
      )
  | inr ((l, rest), c) ↦ (
    l,
    rw (discard, c)
        (lines-uncut p (chunk ++ flat chunks) k
          ∙ ap (join p) (lines-cut chunk (flat chunks) l rest c)
          ∙ join-cons p l (lines (rest ++ flat chunks)) n),
  )
]

-- What one read comes to, by the lines that are pending: the end if there is none, and otherwise the
-- first of them, judged by its length, with the others still pending.
pub record Read (max : ℕ) (before : List Bytes) (result : Line) (next : Reader) : Type 0 where
  pub at_end : before ≡ [] → result ≡ eof
  pub first :
      (l : Bytes) (ls : List Bytes)
      → before ≡ l ∷ ls
      → (result ≡ judged max l) × (lines (pending next) ≡ ls)

Read-first :
    (max : ℕ) (before : List Bytes) (result : Line) (next : Reader) (l : Bytes)
    → before ≡ l ∷ lines (pending next)
    → result ≡ judged max l
    → Read max before result next
Read-first max before result next l e j = record {
  at_end = λ q. ground (arith, e, q);
  first = λ m ms q. ground (arith, e, q, j);
}

judged_long : (max : ℕ) (l : Bytes) → max < length l → oversized ≡ judged max l
judged_long max l h = ground (arith, h)

Read-over :
    (max : ℕ) (carry : Bytes) (chunks : List Bytes)
    → cut carry ≡ none
    → ltb max (length carry) ≡ true
    → Read max (lines (carry ++ flat chunks)) oversized (discard chunks)
Read-over max carry chunks c over =
    let (h, e) = discard-lines carry chunks c (ground (arith, over)) in
    Read-first max (lines (carry ++ flat chunks)) oversized (discard chunks) (carry ++ h) e
      (judged_long max (carry ++ h) (ground (arith, over, length-append carry h)))

Read-remainder :
    (max : ℕ) (carry : Bytes)
    → cut carry ≡ none
    → ltb max (length carry) ≡ false
    → Read max (lines (carry ++ [])) (remainder carry) (record { carry = []; chunks = [] })
unfolding lines
Read-remainder max [] c short = record { at_end = λ q. refl; first = λ l ls q. ground (arith, q) }
Read-remainder max (x ∷ carry) c short =
    Read-first max (lines ((x ∷ carry) ++ [])) (line (x ∷ carry))
      (record { carry = []; chunks = [] }) (x ∷ carry) (lines-uncut (x ∷ carry) [] c)
      (ground (arith, short))

pub readline_capped-Read :
    (max : ℕ) (carry : Bytes) (chunks : List Bytes)
    → let r = readline_capped max carry chunks in Read max (lines (carry ++ flat chunks)) r.0 r.1
unfolding readline_capped
readline_capped-Read max carry [] = elim (Option-cases (cut carry)) [
  | inr ((l, rest), c) ↦
      rw (readline_capped, c)
        (Read-first max (lines (carry ++ [])) (judged max l) (record { carry = rest; chunks = [] })
          l (lines-cut carry [] l rest c) refl)
  | inl c ↦ elim (Bool-cases (ltb max (length carry))) [
    | inl over ↦ rw (readline_capped, c, over) (Read-over max carry [] c over)
    | inr short ↦ rw (readline_capped, c, short) (Read-remainder max carry c short)
  ]
]
readline_capped-Read max carry (chunk ∷ chunks) = elim (Option-cases (cut carry)) [
  | inr ((l, rest), c) ↦
      rw (readline_capped, c)
        (Read-first max (lines (carry ++ flat (chunk ∷ chunks))) (judged max l)
          (record { carry = rest; chunks = chunk ∷ chunks }) l
          (lines-cut carry (flat (chunk ∷ chunks)) l rest c) refl)
  | inl c ↦ elim (Bool-cases (ltb max (length carry))) [
    | inl over ↦ rw (readline_capped, c, over) (Read-over max carry (chunk ∷ chunks) c over)
    | inr short ↦
        rw (readline_capped, c, short, sym (append_assoc carry chunk (flat chunks)))
          (readline_capped-Read max (carry ++ chunk) chunks)
  ]
]

-- What is done with a line: one over the limit is refused.
abbrev pub answered : ℕ → Bytes → Event
answered max l = if ltb max (length l) then refused else delivered l

-- However the bytes are cut into chunks, and with fuel for one round more than there are lines, the
-- reader refuses each line of the whole input that is over the limit and delivers each other one, in
-- order, and ends.
pub read_all-lines :
    (fuel max : ℕ) (r : Reader)
    → length (lines (pending r)) < fuel
    → read_all fuel max r ≡ map (answered max) (lines (pending r))
unfolding read_all
read_all-lines zero max r n = absurd (omega (arith, n))
read_all-lines (suc fuel) max r n =
    by_lines (lines (pending r)) refl (readline_capped-Read max r.carry r.chunks)
      (read_all-lines fuel max (readline_capped max r.carry r.chunks).1)
  where
    by_lines :
        (before : List Bytes)
        → lines (pending r) ≡ before
        → Read max
            (lines (pending r))
            (readline_capped max r.carry r.chunks).0
            (readline_capped max r.carry r.chunks).1
        → (length (lines (pending (readline_capped max r.carry r.chunks).1)) < fuel
            → read_all fuel max (readline_capped max r.carry r.chunks).1
              ≡ map (answered max) (lines (pending (readline_capped max r.carry r.chunks).1)))
        → read_all (suc fuel) max r ≡ map (answered max) before
    by_lines [] e s ih = rw (read_all, s.at_end e) refl
    by_lines (l ∷ ls) e s ih =
        let (result, rest) = s.first l ls e in
        let later = ih (ground (arith, rest, e, n)) ∙ ap (map (answered max)) rest in
        elim (Bool-cases (ltb max (length l))) [
          | inl over ↦ rw (read_all, result, over) (ap (λ (es : List Event). refused ∷ es) later)
          | inr short ↦
              rw (read_all, result, short) (ap (λ (es : List Event). delivered l ∷ es) later)
        ]
