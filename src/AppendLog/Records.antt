-- ===== src/AppendLog/Records.antt =====
-- The file of a log as the list of its records.
use mathlib.Core.List.{append-nil, append_assoc}
use ephemora_cell.Common.{
  ℕ, zero, suc, ◌-◌, ◌≤◌, ◌<◌, ◌≡◌, ◌⊎◌, refl, sym, ap, ◌∙◌, true, false, Option, none, some, List,
  [], ◌∷◌, ◌++◌, map, ltb, arith, Outcome, ok, raised, length, length-append, drop, All, inl, inr,
  Bool-cases,
}
use ephemora_cell.Common.Bytes.{Bytes}
use ephemora_cell.Common.Texts.{newline, lines}
use ephemora_cell.AppendLog.{
  Error, has_newline, is_filled, pieces, last_filled, tail_line, read_lines, decide_and_append,
}

-- A record that a writer may append: one line, not blank, that fits in the window with its newline.
pub record IsRecord (window : ℕ) (r : Bytes) : Type 0 where
  pub one_line : has_newline r ≡ false
  pub filled : is_filled r ≡ true
  pub fits : length r < window

abbrev pub ended : Bytes → Bytes
ended r = r ++ newline ∷ []

-- The file that the records make.
abbrev pub written : List Bytes → Bytes
written [] = []
written (r ∷ rs) = ended r ++ written rs

abbrev pub last_of : List Bytes → Option Bytes
last_of [] = none
last_of (r ∷ []) = some r
last_of (r ∷ s ∷ rs) = last_of (s ∷ rs)

lines-ended : (r t : Bytes) → has_newline r ≡ false → lines (ended r ++ t) ≡ ended r ∷ lines t
unfolding lines
lines-ended [] t h = refl
lines-ended (c ∷ r) t h = ground (arith, lines-ended r t)

is_filled-ended : (r : Bytes) → is_filled r ≡ true → is_filled (ended r) ≡ true
is_filled-ended [] h = ground (arith, h)
is_filled-ended (c ∷ r) h = ground (arith, is_filled-ended r)

pub read_lines-written :
    (window : ℕ) (rs : List Bytes)
    → All (IsRecord window) rs
    → read_lines (written rs) ≡ map ended rs
unfolding read_lines lines
read_lines-written window [] h = refl
read_lines-written window (r ∷ rs) (h, hs) =
    rw (lines-ended r (written rs) h.one_line, is_filled-ended r h.filled)
      (ap (λ (ls : List Bytes). ended r ∷ ls) (read_lines-written window rs hs))

-- The pieces as one list.
abbrev all_pieces : Bytes → List Bytes
all_pieces s = (pieces s).0 ∷ (pieces s).1

pieces-ended : (p t : Bytes) → all_pieces (ended p ++ t) ≡ all_pieces p ++ all_pieces t
unfolding pieces
pieces-ended [] t = refl
pieces-ended (c ∷ p) t = ground (arith, pieces-ended p t)

pieces_one : (r : Bytes) → has_newline r ≡ false → all_pieces r ≡ r ∷ []
unfolding pieces
pieces_one [] h = refl
pieces_one (c ∷ r) h = ground (arith, pieces_one r)

last_filled-append :
    (xs ys : List Bytes) (l : Bytes) → last_filled ys ≡ some l → last_filled (xs ++ ys) ≡ some l
last_filled-append [] ys l h = h
last_filled-append (x ∷ xs) ys l h = rw (last_filled-append xs ys l h) refl

has_newline-append : (s t : Bytes) → has_newline t ≡ true → has_newline (s ++ t) ≡ true
has_newline-append [] t h = h
has_newline-append (c ∷ s) t h = ground (arith, has_newline-append s t h)

tail_line-chunk :
    (window : ℕ) (file chunk l : Bytes)
    → 0 < length file
    → drop (length file - window) file ≡ chunk
    → has_newline chunk ≡ true
    → last_filled (all_pieces chunk) ≡ some l
    → tail_line window file ≡ ok (some l)
unfolding tail_line
tail_line-chunk window [] chunk l n d h p = absurd (omega (arith, n))
tail_line-chunk window (c ∷ s) chunk l n d h p =
    elim (Bool-cases (ltb 0 (length (c ∷ s) - window))) [
      | inl b ↦ rw (tail_line, d, h, b, p) refl
      | inr b ↦ rw (tail_line, d, h, b, p) refl
    ]

last_record :
    (x r : Bytes) (window : ℕ)
    → IsRecord window r
    → (x ≡ []) ⊎ ((q : Bytes) × (x ≡ ended q))
    → (has_newline (x ++ ended r) ≡ true) × (last_filled (all_pieces (x ++ ended r)) ≡ some r)
unfolding pieces
last_record x r window h shape =
    let own : all_pieces (ended r) ≡ r ∷ [] ∷ [] =
      ap all_pieces (sym (append-nil (ended r)))
      ∙ pieces-ended r []
      ∙ ap (λ (xs : List Bytes). xs ++ [] ∷ []) (pieces_one r h.one_line) in
    let found_own : last_filled (all_pieces (ended r)) ≡ some r =
      ap last_filled own ∙ ground (arith, h.filled) in
    let newline_own : has_newline (ended r) ≡ true = has_newline-append r (newline ∷ []) refl in
    elim shape [
      | inl e ↦ rw e (newline_own, found_own)
      | inr (q, e) ↦ rw e (
        has_newline-append (ended q) (ended r) newline_own,
        ap last_filled (pieces-ended q (ended r))
            ∙ last_filled-append (all_pieces q) (all_pieces (ended r)) r found_own,
      )
    ]

drop-ended :
    (n : ℕ) (q t : Bytes)
    → n ≤ length (ended q)
    → (drop n (ended q ++ t) ≡ t) ⊎ ((p : Bytes) × (drop n (ended q ++ t) ≡ ended p ++ t))
drop-ended zero q t h = inr (q, refl)
drop-ended (suc zero) [] t h = inl refl
drop-ended (suc (suc n)) [] t h = absurd (omega (arith, h))
drop-ended (suc n) (c ∷ q) t h = drop-ended n q t (omega (arith, h))

-- The records of a file as the last one and what stands before it.
record Ends (window : ℕ) (rs : List Bytes) : Type 0 where
  before : Bytes
  last : Bytes
  shape : (before ≡ []) ⊎ ((q : Bytes) × (before ≡ ended q))
  is_last : last_of rs ≡ some last
  makes : written rs ≡ before ++ ended last
  is_record : IsRecord window last

written-Ends :
    (window : ℕ) (r : Bytes) (rs : List Bytes)
    → All (IsRecord window) (r ∷ rs)
    → Ends window (r ∷ rs)
written-Ends window r [] (h, hs) = record {
  before = [];
  last = r;
  shape = inl refl;
  is_last = refl;
  makes = append-nil (ended r);
  is_record = h;
}
written-Ends window r (s ∷ rs) (h, hs) =
    let e = written-Ends window s rs hs in
    record {
      before = ended r ++ e.before;
      last = e.last;
      shape = elim e.shape [
        | inl k ↦ inr (r, ap (λ (x : Bytes). ended r ++ x) k ∙ append-nil (ended r))
        | inr (q, k) ↦ inr (
          ended r ++ q,
          ap (λ (x : Bytes). ended r ++ x) k ∙ sym (append_assoc (ended r) q (newline ∷ [])),
        )
      ];
      is_last = e.is_last;
      makes =
          ap (λ (x : Bytes). ended r ++ x) e.makes
          ∙ sym (append_assoc (ended r) e.before (ended e.last));
      is_record = e.is_record;
    }

tail_line-chunked :
    (window : ℕ) (before last x : Bytes)
    → IsRecord window last
    → (x ≡ []) ⊎ ((p : Bytes) × (x ≡ ended p))
    → drop (length (before ++ ended last) - window) (before ++ ended last) ≡ x ++ ended last
    → tail_line window (before ++ ended last) ≡ ok (some last)
tail_line-chunked window before last x h shape d =
    let (has_one, is_found) = last_record x last window h shape in
    tail_line-chunk window (before ++ ended last) (x ++ ended last) last
      (omega (arith, length-append before (ended last), length-append last (newline ∷ []))) d
      has_one is_found

drop_none : (n : ℕ) (xs : Bytes) → n ≡ 0 → drop n xs ≡ xs
drop_none zero xs h = refl
drop_none (suc n) xs h = absurd (omega (arith, h))

tail_line-ended :
    (window : ℕ) (before last : Bytes)
    → IsRecord window last
    → (before ≡ []) ⊎ ((q : Bytes) × (before ≡ ended q))
    → tail_line window (before ++ ended last) ≡ ok (some last)
tail_line-ended window before last h (inl e) =
    tail_line-chunked window before last before h (inl e) (
      drop_none (length (before ++ ended last) - window) (before ++ ended last)
        (rw e (omega (arith, h.fits, length-append last (newline ∷ [])))))
tail_line-ended window before last h (inr (q, e)) =
    let n = length (ended q ++ ended last) - window in
    rw e
      (elim (drop-ended n q (ended last) (
        omega (
          arith,
          h.fits,
          length-append (ended q) (ended last),
          length-append last (newline ∷ []),
        ))) [
          | inl d ↦ tail_line-chunked window (ended q) last [] h (inl refl) d
          | inr (p, d) ↦ tail_line-chunked window (ended q) last (ended p) h (inr (p, refl)) d
        ])

-- A log of records, each of them one line that is not blank and fits in the window with its newline, is
-- read as these records in order, and its tail is the last of them, or nothing where there is none.
pub log-records :
    (window : ℕ) (rs : List Bytes)
    → All (IsRecord window) rs
    → (read_lines (written rs) ≡ map ended rs) × (tail_line window (written rs) ≡ ok (last_of rs))
unfolding tail_line
log-records window [] h = (read_lines-written window [] h, refl)
log-records window (r ∷ rs) h =
    let e = written-Ends window r rs h in
    (
      read_lines-written window (r ∷ rs) h,
      ap (tail_line window) e.makes
          ∙ tail_line-ended window e.before e.last e.is_record e.shape
          ∙ ap (λ (o : Option Bytes). ok o) (sym e.is_last),
    )

written-append : (rs ss : List Bytes) → written (rs ++ ss) ≡ written rs ++ written ss
written-append [] ss = refl
written-append (r ∷ rs) ss =
    ap (λ (x : Bytes). ended r ++ x) (written-append rs ss)
    ∙ sym (append_assoc (ended r) (written rs) (written ss))

-- On a log of records, an append that decides for a record sees the last of them and leaves the log with
-- that record after the others; one that raises, raises what the decision raised.
pub decide_and_append-written :
    {A E : Type 0} (failed : Error → E) (window : ℕ) (decide : Option Bytes → Outcome E (A × Bytes))
    (rs : List Bytes)
    → All (IsRecord window) rs
    → ((a : A) (r : Bytes)
        → decide (last_of rs) ≡ ok (a, ended r)
        → decide_and_append failed window decide (written rs) ≡ ok (a, written (rs ++ r ∷ [])))
      × ((e : E)
          → decide (last_of rs) ≡ raised e
          → decide_and_append failed window decide (written rs) ≡ raised e)
unfolding decide_and_append
decide_and_append-written failed window decide rs h =
    let tail = (log-records window rs h).1 in
    (
      λ a r d.
          rw (decide_and_append, tail, d)
            (ap (λ (x : Bytes). ok (a, x))
              (ap (λ (x : Bytes). written rs ++ x) (sym (append-nil (ended r)))
                ∙ sym (written-append rs (r ∷ [])))),
      λ e d. rw (decide_and_append, tail, d) refl,
    )
