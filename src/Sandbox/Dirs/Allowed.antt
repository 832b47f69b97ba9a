-- ===== src/Sandbox/Dirs/Allowed.antt =====
-- The entries that the directory policy keeps, and the paths that it allows.
use ephemora_cell.Common.{
  ◌≡◌, ◌≢◌, ◌↔◌, ◌⊎◌, refl, sym, ◌∙◌, Bool, true, false, ◌||◌, List, [], ◌∷◌, arith, Bool-cases,
  inl, inr, Among,
}
use ephemora_cell.Common.Bytes.{Text, bytes_key, list_beq_iff}
use ephemora_cell.Common.Texts.{slash, segments, begins, below}
use ephemora_cell.Sandbox.Dirs.{
  under_any, canonical_exceptions, forbidden_canonical, first_above, forbidden_canonical_match,
  split_dir_mapping, is_some, filter_dangerous_dirs, is_dropped, dangerous_dirs,
  under_canonical_exception,
}

-- Whether the segments of one of the roots begin those of a path.
abbrev pub below_any : Text → List Text → Bool
below_any path [] = false
below_any path (root ∷ rest) = begins (segments root) (segments path) || below_any path rest

under_any-below_any :
    (path : Text) (roots : List Text) → under_any path roots ≡ below_any path roots
under_any-below_any path [] = refl
under_any-below_any path (root ∷ rest) = rw (below root path, under_any-below_any path rest) refl

first_above_none :
    (path : Text) (roots : List Text) → is_some (first_above path roots) ≡ under_any path roots
unfolding first_above
first_above_none path [] = refl
first_above_none path (root ∷ rest) = ground (arith, first_above_none path rest)

-- A path that is not the root, and lies below a temporary root of macOS or below no forbidden one.
pub record IsAllowed (path : Text) : Type 0 where
  pub not_root : path ≢ slash ∷ []
  pub outside :
      (below_any path canonical_exceptions ≡ true) ⊎ (below_any path forbidden_canonical ≡ false)

-- The canonical check passes exactly the paths that are not the root and lie, by their segments, below a
-- temporary root of macOS or below no forbidden location.
pub forbidden_canonical_match_iff :
    (path : Text) → (is_some (forbidden_canonical_match path) ≡ false) ↔ IsAllowed path
unfolding forbidden_canonical_match
forbidden_canonical_match_iff path =
    let e = under_any-below_any path canonical_exceptions in
    let f =
      first_above_none path forbidden_canonical ∙ under_any-below_any path forbidden_canonical in
    let r = list_beq_iff path (slash ∷ []) in
    (
      λ h. elim (Bool-cases (under_any path canonical_exceptions)) [
        | inl x ↦ record { not_root = λ q. ground (arith, h, r, q); outside = inl (sym e ∙ x) }
        | inr x ↦ record {
          not_root = λ q. ground (arith, h, r, q);
          outside = inr (sym f ∙ ground (arith, h, x));
        }
      ],
      λ a. ground (arith, a.not_root, a.outside, e, f, r),
    )

-- An entry that passes the check at configuration time: what it resolves to is allowed, and its text
-- lies below no dangerous location, unless below a temporary root of macOS.
pub record IsKept (canonicalize : Text → Text) (host : Text) : Type 0 where
  pub allowed : IsAllowed (canonicalize host)
  pub plain : below_any host dangerous_dirs ≡ true → below_any host canonical_exceptions ≡ true

is_dropped-IsKept :
    (canonicalize : Text → Text) (host : Text)
    → (is_dropped canonicalize host ≡ false) ↔ IsKept canonicalize host
unfolding is_dropped under_canonical_exception
is_dropped-IsKept canonicalize host =
    let (to, from) = forbidden_canonical_match_iff (canonicalize host) in
    let d = under_any-below_any host dangerous_dirs in
    let e = under_any-below_any host canonical_exceptions in
    (
      λ h. record { allowed = to (ground (arith, h)); plain = λ b. ground (arith, h, b, d, e) },
      λ k. ground (arith, from k.allowed, k.plain, d, e),
    )

-- The filter keeps the entries that pass, and no others.
pub Among-filter_dangerous_dirs :
    (canonicalize : Text → Text) (d : Text) (dirs : List Text)
    → Among d (filter_dangerous_dirs canonicalize dirs)
      ↔ (Among d dirs × IsKept canonicalize (split_dir_mapping d).0)
unfolding filter_dangerous_dirs
Among-filter_dangerous_dirs canonicalize d [] = (λ h. absurd h, λ h. absurd h.0)
Among-filter_dangerous_dirs canonicalize d (x ∷ rest) =
    let (to, from) = Among-filter_dangerous_dirs canonicalize d rest in
    let (kept, passes) = is_dropped-IsKept canonicalize (split_dir_mapping x).0 in
    elim (Bool-cases (is_dropped canonicalize (split_dir_mapping x).0)) [
      | inl f ↦
          rw (filter_dangerous_dirs, f)
            (
              λ h. (inr (to h).0, (to h).1),
              λ h. elim h.0 [
                | inl e ↦ absurd (ground (arith, f, passes (rw e at h.1)))
                | inr a ↦ from (a, h.1)
              ],
            )
      | inr f ↦
          rw (filter_dangerous_dirs, f)
            (
              λ h. elim h [ inl e ↦ (inl e, rw e (kept f)) | inr a ↦ (inr (to a).0, (to a).1) ],
              λ h. elim h.0 [ inl e ↦ inl e | inr a ↦ inr (from (a, h.1)) ],
            )
    ]
