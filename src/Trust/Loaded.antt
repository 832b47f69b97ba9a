-- ===== src/Trust/Loaded.antt =====
-- What holds of the keys of a trust root that `load` of ephemora_cell/grant_trust.py returns.
use ephemora_cell.Common.{
  String, ◌≡◌, ◌⊎◌, refl, Bool, true, false, Option, some, List, [], ◌∷◌, ok, ◌>>=◌, ◌>>◌, raise_if,
  ◌==◌, text_key, arith, Bool-cases, Option-cases, Outcome-cases, inl, inr, sym, ap, All,
}
use ephemora_cell.Common.Bytes.{Bytes}
use ephemora_cell.Common.Json.{Json, Items, nil, cons, get, get_or, is_text, object?}
use ephemora_cell.Common.Moment.{Moment, Iso}
use ephemora_cell.Trust.{TrustedKey, grant_audience, named, mentions, signatures_of, window_open}
use ephemora_cell.Trust.Root.{
  RootError, dangling, key_statuses, has_unknown, member_of, ids, check_replaced,
  check_all_replaced, check_key, parse_key, parse_keys, load,
}

-- No later key has the id of an earlier one.
abbrev pub Distinct : List TrustedKey → Type 0
Distinct [] = Unit
Distinct (k ∷ keys) = All (λ j. (j.key_id == k.key_id) ≡ false) keys × Distinct keys

-- The successor of a key, if it names one, is another key of the root.
abbrev pub HasSuccessor : List String → String → Json → Type 0
HasSuccessor names key_id v =
    (v ≡ Json.null)
    ⊎ ((s : String) × (v ≡ Json.str s) × (mentions s names ≡ true) × ((s == key_id) ≡ false))

member_of-text :
    (e : RootError) (v : Json) (texts : List String) (s : String)
    → member_of e v texts ≡ ok s
    → (v ≡ Json.str s) × (mentions s texts ≡ true)
unfolding member_of
member_of-text e (Json.str t) texts s h = elim (Bool-cases (mentions t texts)) [
  | inr p ↦ absurd (ground (arith, h, p))
  | inl p ↦ let same : t ≡ s = ground (arith, h, p) in (ap Json.str same, rw (sym same) p)
]
member_of-text e Json.null texts s h = cc
member_of-text e (Json.bool b) texts s h = cc
member_of-text e (Json.num n) texts s h = cc
member_of-text e (Json.float n b) texts s h = cc
member_of-text e Json.nan texts s h = cc
member_of-text e (Json.arr is) texts s h = cc
member_of-text e (Json.obj o) texts s h = cc

replaced-text :
    (v : Json) (names : List String) (key_id : String)
    → member_of dangling v names >>= (λ s. raise_if (s == key_id) RootError.replaces_itself) ≡ ok tt
    → (s : String) × (v ≡ Json.str s) × (mentions s names ≡ true) × ((s == key_id) ≡ false)
replaced-text v names key_id h = elim (Outcome-cases (member_of dangling v names)) [
  | inr (x, p) ↦ absurd (ground (arith, h, p))
  | inl (s, p) ↦ elim (Bool-cases (s == key_id)) [
    | inl q ↦ absurd (ground (arith, h, p, q))
    | inr q ↦
        (s, (member_of-text dangling v names s p).0, (member_of-text dangling v names s p).1, q)
  ]
]

check_replaced-HasSuccessor :
    (names : List String) (key_id : String) (v : Json)
    → check_replaced names key_id v ≡ ok tt
    → HasSuccessor names key_id v
unfolding check_replaced
check_replaced-HasSuccessor names key_id Json.null h = inl refl
check_replaced-HasSuccessor names key_id (Json.str s) h =
    inr (replaced-text (Json.str s) names key_id h)
check_replaced-HasSuccessor names key_id (Json.bool b) h =
    inr (replaced-text (Json.bool b) names key_id h)
check_replaced-HasSuccessor names key_id (Json.num n) h =
    inr (replaced-text (Json.num n) names key_id h)
check_replaced-HasSuccessor names key_id (Json.float n b) h =
    inr (replaced-text (Json.float n b) names key_id h)
check_replaced-HasSuccessor names key_id (Json.arr is) h =
    inr (replaced-text (Json.arr is) names key_id h)
check_replaced-HasSuccessor names key_id (Json.obj o) h =
    inr (replaced-text (Json.obj o) names key_id h)
check_replaced-HasSuccessor names key_id Json.nan h = inr (replaced-text Json.nan names key_id h)

check_all_replaced-All :
    (names : List String) (keys : List TrustedKey)
    → check_all_replaced names keys ≡ ok tt
    → All (λ k. HasSuccessor names k.key_id k.replaced_by) keys
unfolding check_all_replaced
check_all_replaced-All names [] h = tt
check_all_replaced-All names (k ∷ keys) h =
    elim (Outcome-cases (check_replaced names k.key_id k.replaced_by)) [
      | inr (x, p) ↦ absurd (ground (arith, h, p))
      | inl (tt, p) ↦ (
        check_replaced-HasSuccessor names k.key_id k.replaced_by p,
        check_all_replaced-All names keys (rw p at h),
      )
    ]

module _ (iso : Iso) (verifier_for : String → Option (Bytes → Bytes → Bool)) (now : Moment) where
  -- A key that can be used: its algorithm, its verifier, its bounds and its state are known.
  pub record IsUsable (key : TrustedKey) : Type 0 where
    pub algorithm : (key.alg == "EdDSA") ≡ true
    pub inside : Bool
    pub windowed : window_open iso key now ≡ ok inside
    pub verifier : Bytes → Bytes → Bool
    pub bound : verifier_for key.public_key_pem ≡ some verifier
    pub known : mentions key.status key_statuses ≡ true

  check_key-IsUsable :
      (key k : TrustedKey)
      → mentions key.status key_statuses ≡ true
      → check_key iso verifier_for now key ≡ ok k
      → IsUsable k
  unfolding check_key
  check_key-IsUsable key k known h = elim (Bool-cases (key.alg == "EdDSA")) [
    | inr p ↦ absurd (ground (arith, h, p))
    | inl p ↦ elim (Outcome-cases (window_open iso key now)) [
      | inr (x, q) ↦ absurd (ground (arith, h, p, q))
      | inl (inside, q) ↦ elim (Option-cases (verifier_for key.public_key_pem)) [
        | inl r ↦ absurd (ground (arith, h, p, q, r))
        | inr (verifier, r) ↦
            let same : key ≡ k = ground (arith, h, p, q, r) in
            rw (sym same) (record {
              algorithm = p;
              inside = inside;
              windowed = q;
              verifier = verifier;
              bound = r;
              known = known;
            })
      ]
    ]
  ]

  parse_key-IsUsable :
      (entry : Json) (k : TrustedKey) → parse_key iso verifier_for now entry ≡ ok k → IsUsable k
  unfolding parse_key
  parse_key-IsUsable entry k h = elim (Option-cases (object? entry)) [
    | inl p ↦ absurd (ground (arith, h, p))
    | inr (o, p) ↦ elim (Bool-cases (has_unknown o)) [
      | inl q ↦ absurd (ground (arith, h, p, q))
      | inr q ↦ elim (Option-cases (named (get "key_id" o))) [
        | inl r ↦ absurd (ground (arith, h, p, q, r))
        | inr (key_id, r) ↦ elim (Option-cases (named (get "alg" o))) [
          | inl t ↦ absurd (ground (arith, h, p, q, r, t))
          | inr (alg, t) ↦ elim (Option-cases (named (get "public_key_pem" o))) [
            | inl u ↦ absurd (ground (arith, h, p, q, r, t, u))
            | inr (pem, u) ↦
                let status = get_or "status" (Json.str "active") o in
                elim (Outcome-cases (member_of RootError.bad_status status key_statuses)) [
                  | inr (x, v) ↦ absurd (ground (arith, h, p, q, r, t, u, v))
                  | inl (s, v) ↦
                      check_key-IsUsable _ k
                        ((member_of-text RootError.bad_status status key_statuses s v).1)
                        (rw (p, q, r, t, u, v) at h)
                ]
          ]
        ]
      ]
    ]
  ]

  -- The keys read are usable, and their ids are new and distinct.
  abbrev AreNew : List String → List TrustedKey → Type 0
  AreNew seen keys = All (λ k. mentions k.key_id seen ≡ false) keys

  parse_keys-Distinct :
      (seen : List String) (entries : Items) (keys : List TrustedKey)
      → parse_keys iso verifier_for now seen entries ≡ ok keys
      → All IsUsable keys × AreNew seen keys × Distinct keys
  unfolding parse_keys
  parse_keys-Distinct seen nil [] h = (tt, tt, tt)
  parse_keys-Distinct seen nil (k ∷ keys) h = cc
  parse_keys-Distinct seen (cons entry rest) keys h =
      elim (Outcome-cases (parse_key iso verifier_for now entry)) [
        | inr (x, p) ↦ absurd (ground (arith, h, p))
        | inl (k, p) ↦ elim (Bool-cases (mentions k.key_id seen)) [
          | inl q ↦ absurd (ground (arith, h, p, q))
          | inr q ↦ elim (Outcome-cases (parse_keys iso verifier_for now (k.key_id ∷ seen) rest)) [
            | inr (x, r) ↦ absurd (ground (arith, h, p, q, r))
            | inl (ks, r) ↦
                let same : k ∷ ks ≡ keys = ground (arith, h, p, q, r) in
                let (usable, new, distinct) = parse_keys-Distinct (k.key_id ∷ seen) rest ks r in
                rw (sym same) (
                  (parse_key-IsUsable entry k p, usable),
                  (q, new_later k.key_id seen ks new),
                  (new_first k.key_id seen ks new, distinct),
                )
          ]
        ]
      ]
    where
      new_later :
          (k : String) (seen : List String) (ks : List TrustedKey)
          → AreNew (k ∷ seen) ks
          → AreNew seen ks
      new_later k seen [] h = tt
      new_later k seen (j ∷ ks) h = (ground (arith, h.0), new_later k seen ks h.1)

      new_first :
          (k : String) (seen : List String) (ks : List TrustedKey)
          → AreNew (k ∷ seen) ks
          → All (λ j. (j.key_id == k) ≡ false) ks
      new_first k seen [] h = tt
      new_first k seen (j ∷ ks) h = (ground (arith, h.0), new_first k seen ks h.1)

  -- A trust root whose keys can be used, have distinct ids and name successors among themselves.
  pub record IsRoot (keys : List TrustedKey) : Type 0 where
    pub usable : All IsUsable keys
    pub distinct : Distinct keys
    pub succeeded : All (λ k. HasSuccessor (ids keys) k.key_id k.replaced_by) keys

  -- The keys of a root that loads have distinct ids; each of them has the one known algorithm, a known
  -- status, a verifier and bounds that can be read, and its successor, if it names one, is another key
  -- of the root.
  pub load-IsRoot :
      (doc : Json) (keys : List TrustedKey) → load iso verifier_for now doc ≡ ok keys → IsRoot keys
  unfolding load
  load-IsRoot doc keys h = elim (Option-cases (object? doc)) [
    | inl p ↦ absurd (ground (arith, h, p))
    | inr (o, p) ↦ elim (Bool-cases (is_text "egress-trust-root.v1" (get "trust_root_version" o))) [
      | inr q ↦ absurd (ground (arith, h, p, q))
      | inl q ↦
          elim (Bool-cases
            (is_text grant_audience (get_or "audience" (Json.str grant_audience) o))) [
              | inr r ↦ absurd (ground (arith, h, p, q, r))
              | inl r ↦ elim (Option-cases (signatures_of (get "keys" o))) [
                | inl t ↦ absurd (ground (arith, h, p, q, r, t))
                | inr (entries, t) ↦ parsed entries keys (rw (p, q, r, t) at h)
              ]
            ]
    ]
  ]
    where
      parsed :
          (entries : Items) (keys : List TrustedKey)
          → parse_keys iso verifier_for now [] entries
              >>= (λ ks. check_all_replaced (ids ks) ks >> ok ks)
            ≡ ok keys
          → IsRoot keys
      parsed entries keys h = elim (Outcome-cases (parse_keys iso verifier_for now [] entries)) [
        | inr (x, u) ↦ absurd (ground (arith, h, u))
        | inl (ks, u) ↦ elim (Outcome-cases (check_all_replaced (ids ks) ks)) [
          | inr (x, v) ↦ absurd (ground (arith, h, u, v))
          | inl (tt, v) ↦
              let same : ks ≡ keys = ground (arith, h, u, v) in
              let (usable, _, distinct) = parse_keys-Distinct [] entries ks u in
              rw (sym same) (record {
                usable = usable;
                distinct = distinct;
                succeeded = check_all_replaced-All (ids ks) ks v;
              })
        ]
      ]
