-- ===== src/Sandbox/Dirs/Granted.antt =====
-- What a guest is given, whatever happens to the directories between the check and the grant.
use ephemora_cell.Common.{
  ◌≡◌, ◌↔◌, ◌⊎◌, refl, sym, Bool, true, List, [], ◌∷◌, arith, Bool-cases, inl, inr, Among,
  Among-append, Option, none, some, ap,
}
use ephemora_cell.Common.Bytes.{Text, bytes_key}
use ephemora_cell.Common.Decimal.{codes}
use ephemora_cell.Sandbox.Dirs.{
  forbidden_canonical_match, split_dir_mapping, is_some, Preopen, grant_each, filter_dangerous_dirs,
  grant_preopens, sandbox_mount,
}
use ephemora_cell.Sandbox.Dirs.Allowed.{
  IsAllowed, IsKept, forbidden_canonical_match_iff, Among-filter_dangerous_dirs,
}

-- A preopened directory is what an entry resolves to at the moment, is allowed and is a directory.
pub record IsResolved (canonicalize : Text → Text) (is_dir : Text → Bool) (entry : Text)
    (p : Preopen) : Type 0 where
  pub resolved : p ≡ (canonicalize (split_dir_mapping entry).0, (split_dir_mapping entry).1)
  pub allowed : IsAllowed p.0
  pub exists : is_dir p.0 ≡ true

-- Passing over an entry that may not be granted.
skipped :
    (canonicalize : Text → Text) (is_dir : Text → Bool) (p : Preopen) (x : Text) (rest : List Text)
    (granted : Type 0)
    → granted ↔ ((d : Text) × Among d rest × IsResolved canonicalize is_dir d p)
    → (IsResolved canonicalize is_dir x p → ⊥)
    → granted ↔ ((d : Text) × Among d (x ∷ rest) × IsResolved canonicalize is_dir d p)
skipped canonicalize is_dir p x rest granted (to, from) n = (
  λ h. ((to h).0, inr ((to h).1), (to h).2),
  λ h. elim h.1 [ inl e ↦ absurd (n (rw e at h.2)) | inr a ↦ from (h.0, a, h.2) ],
)

host_of :
    (canonicalize : Text → Text) (is_dir : Text → Bool) (x : Text) (p : Preopen)
    → IsResolved canonicalize is_dir x p
    → canonicalize (split_dir_mapping x).0 ≡ p.0
host_of canonicalize is_dir x p r = ap (λ (q : Preopen). q.0) (sym r.resolved)

-- The loop grants exactly these.
Among-grant_each :
    (canonicalize : Text → Text) (is_dir : Text → Bool) (p : Preopen) (dirs : List Text)
    → Among p (grant_each canonicalize is_dir dirs)
      ↔ ((d : Text) × Among d dirs × IsResolved canonicalize is_dir d p)
unfolding grant_each
Among-grant_each canonicalize is_dir p [] = (λ h. absurd h, λ h. absurd h.1)
Among-grant_each canonicalize is_dir p (x ∷ rest) =
    let later = Among-grant_each canonicalize is_dir p rest in
    let granted = Among p (grant_each canonicalize is_dir rest) in
    let canon = canonicalize (split_dir_mapping x).0 in
    let (allows, passes) = forbidden_canonical_match_iff canon in
    elim (Bool-cases (is_some (forbidden_canonical_match canon))) [
      | inl f ↦
          rw (grant_each, f)
            (skipped canonicalize is_dir p x rest granted later
              (λ r. ground (arith, f, passes (rw (host_of canonicalize is_dir x p r) r.allowed))))
      | inr f ↦ elim (Bool-cases (is_dir canon)) [
        | inr n ↦
            rw (grant_each, f, n)
              (skipped canonicalize is_dir p x rest granted later
                (λ r. ground (arith, n, r.exists, host_of canonicalize is_dir x p r)))
        | inl y ↦
            rw (grant_each, f, y)
              (
                λ h. elim h [
                  | inl e ↦ (
                    x,
                    inl refl,
                    record { resolved = e; allowed = rw e (allows f); exists = rw e y },
                  )
                  | inr a ↦ ((later.0 a).0, inr ((later.0 a).1), (later.0 a).2)
                ],
                λ h. elim h.1 [
                  | inl e ↦ inl (rw e at h.2.resolved)
                  | inr a ↦ inr (later.1 (h.0, a, h.2))
                ],
              )
      ]
    ]

-- An entry that was passed and kept at configuration time, and what it resolves to at the grant.
pub record IsGranted (at_start at_grant : Text → Text) (is_dir : Text → Bool) (dirs : List Text)
    (p : Preopen) : Type 0 where
  pub entry : Text
  pub listed : Among entry dirs
  pub kept : IsKept at_start (split_dir_mapping entry).0
  pub resolved : IsResolved at_grant is_dir entry p

abbrev pub IsMount : Option Text → Preopen → Type 0
IsMount sandbox_dir p = (dir : Text) × (sandbox_dir ≡ some dir) × (p ≡ (dir, codes "/sandbox"))

Among-sandbox_mount :
    (p : Preopen) (sandbox_dir : Option Text)
    → Among p (sandbox_mount sandbox_dir) ↔ IsMount sandbox_dir p
Among-sandbox_mount p none = (λ h. absurd h, λ h. absurd (ground (arith, h.1)))
Among-sandbox_mount p (some dir) = (
  λ h. elim h [ inl e ↦ (dir, refl, e) | inr a ↦ absurd a ],
  λ h. let same : dir ≡ h.0 = ground (arith, h.1) in inl (rw same h.2),
)

-- A guest is granted exactly the following, whatever becomes of the directories between the check and
-- the grant: for each entry that was passed and that the check at configuration time kept, the directory
-- that the entry resolves to at the moment of the grant, under the entry's own name, if it then is a
-- directory and is allowed, that is, not the root, and below a temporary root of macOS or below no
-- forbidden location; and the sandbox directory, if there is one, as /sandbox.
pub grant_preopens_iff :
    (at_start at_grant : Text → Text) (is_dir : Text → Bool) (dirs : List Text)
    (sandbox_dir : Option Text) (p : Preopen)
    → Among p (grant_preopens at_grant is_dir (filter_dangerous_dirs at_start dirs) sandbox_dir).0
      ↔ (IsGranted at_start at_grant is_dir dirs p ⊎ IsMount sandbox_dir p)
unfolding grant_preopens
grant_preopens_iff at_start at_grant is_dir dirs sandbox_dir p =
    let kept = filter_dangerous_dirs at_start dirs in
    let (split, joined) =
      Among-append p (grant_each at_grant is_dir kept) (sandbox_mount sandbox_dir) in
    let (each, back) = Among-grant_each at_grant is_dir p kept in
    let (mount, mounted) = Among-sandbox_mount p sandbox_dir in
    (
      λ h. elim (split h) [
        | inl a ↦
            let (d, in_kept, r) = each a in
            let (in_dirs, k) = (Among-filter_dangerous_dirs at_start d dirs).0 in_kept in
            inl (record { entry = d; listed = in_dirs; kept = k; resolved = r })
        | inr m ↦ inr (mount m)
      ],
      λ h. elim h [
        | inl g ↦ joined (
            inl (
              back (
                g.entry,
                (Among-filter_dangerous_dirs at_start g.entry dirs).1 (g.listed, g.kept),
                g.resolved,
              )))
        | inr m ↦ joined (inr (mounted m))
      ],
    )
