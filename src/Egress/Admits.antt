-- ===== src/Egress/Admits.antt =====
-- What an admitted url, request or redirect satisfies.
use ephemora_cell.Common.{
  ℕ, ◌≡◌, String, true, false, ◌||◌, Option, none, some, List, [], ◌∷◌, nat_beq_iff, text_key,
  arith, Option-cases, Bool-cases, inl, inr, eq_iff, ◌⊎◌, ◌<◌, ◌++◌, refl, length, map, ◌==◌,
}
use ephemora_cell.Common.Dict.{Dict}
use ephemora_cell.Common.Bytes.{Text, bytes_key}
use ephemora_cell.Egress.Path.{path_allowed}
use ephemora_cell.Egress.{
  Url, Policy, Request, is_web, is_filled, has_at, has_dot_segment, contains_text, port_or_default,
  same_host, entry_matches, first_match, path_or_root, parsed_matches, url_matches_allowlist,
  headers_allowed, validate_request, scheme_of, redirect_request, Trail, times, loop_reached,
  leaves,
}

module _ (urlsplit : String → Option Url) (unquote : Text → Text) where
  -- An endpoint of the list that agrees with a url in scheme, host and port and covers its path.
  pub record Covers (parsed : Url) (path : Text) (port : ℕ) (endpoints : List String)
      (endpoint : String) : Type 0 where
    pub entry : Url
    pub entry_port : Option ℕ
    pub listed : contains_text endpoint endpoints ≡ true
    pub splits : urlsplit endpoint ≡ some entry
    pub ported : entry.port ≡ some entry_port
    pub scheme : parsed.scheme ≡ entry.scheme
    pub host : same_host parsed.hostname entry.hostname ≡ true
    pub same_port : port ≡ port_or_default entry.scheme entry_port
    pub path_under : path_allowed path entry.path ≡ true

  first_match-Covers :
      (parsed : Url) (path : Text) (port : ℕ) (endpoints : List String) (endpoint : String)
      → first_match urlsplit unquote parsed path port endpoints ≡ some endpoint
      → Covers parsed path port endpoints endpoint
  unfolding first_match entry_matches
  first_match-Covers parsed path port [] endpoint h = ground (arith, h)
  first_match-Covers parsed path port (e ∷ rest) endpoint h = elim (Option-cases (urlsplit e)) [
    | inl s ↦ ground (arith, h, s)
    | inr (entry, s) ↦ elim (Option-cases (entry_matches urlsplit unquote parsed path port entry)) [
      | inl m ↦ ground (arith, h, s, m)
      | inr (false, m) ↦
          let r = first_match-Covers parsed path port rest endpoint (ground (arith, h, s, m)) in
          record {
            entry = r.entry;
            entry_port = r.entry_port;
            listed = ground (arith, r.listed);
            splits = r.splits;
            ported = r.ported;
            scheme = r.scheme;
            host = r.host;
            same_port = r.same_port;
            path_under = r.path_under;
          }
      | inr (true, m) ↦ elim (Option-cases entry.port) [
        | inl p ↦ ground (arith, m, p)
        | inr (q, p) ↦
            let same : e ≡ endpoint = ground (arith, h, s, m) in
            record {
              entry = entry;
              entry_port = q;
              listed = ground (arith, same, eq_iff e endpoint);
              splits = rw same at s;
              ported = p;
              scheme = ground (arith, m, p, eq_iff parsed.scheme entry.scheme);
              host = ground (arith, m, p);
              same_port = ground (arith, m, p, nat_beq_iff port (port_or_default entry.scheme q));
              path_under = ground (arith, m, p);
            }
      ]
    ]
  ]

  -- A url that an allowlist admits under an endpoint: it is a web url without user information, without
  -- a fragment and without a dot segment, and the endpoint covers it.
  pub record Admits (policy : Policy) (url endpoint : String) : Type 0 where
    pub parsed : Url
    pub port : Option ℕ
    pub splits : urlsplit url ≡ some parsed
    pub web : is_web parsed.scheme ≡ true
    pub bare : (has_at parsed.netloc || is_filled parsed.fragment) ≡ false
    pub no_dots : has_dot_segment urlsplit unquote parsed.path ≡ false
    pub ported : parsed.port ≡ some port
    pub covers :
        Covers parsed
          (path_or_root urlsplit unquote parsed.path)
          (port_or_default parsed.scheme port)
          policy.allowed_endpoints
          endpoint

  -- A url that the allowlist matches to an endpoint is a web url without user information, fragment or
  -- dot segment, and the endpoint is one of the policy's that agrees with it in scheme, host and port
  -- and covers its path.
  pub url_matches_allowlist-Admits :
      (policy : Policy) (url endpoint : String)
      → url_matches_allowlist urlsplit unquote policy url ≡ some endpoint
      → Admits policy url endpoint
  unfolding url_matches_allowlist parsed_matches
  url_matches_allowlist-Admits policy url endpoint h = elim (Option-cases (urlsplit url)) [
    | inl s ↦ ground (arith, h, s)
    | inr (parsed, s) ↦ elim (Option-cases parsed.port) [
      | inl p ↦ ground (arith, h, s, p)
      | inr (port, p) ↦ record {
        parsed = parsed;
        port = port;
        splits = s;
        web = ground (arith, h, s, p);
        bare = ground (arith, h, s, p);
        no_dots = ground (arith, h, s, p);
        ported = p;
        covers =
            first_match-Covers parsed (path_or_root urlsplit unquote parsed.path)
              (port_or_default parsed.scheme port) policy.allowed_endpoints endpoint
              (ground (arith, h, s, p));
      }
    ]
  ]

  -- What holds of a redirect from one url to another that is followed.
  pub record IsFollowed (policy : Policy) (ceiling : Option Policy) (origin newurl : String)
      (visited : Option (Dict String ℕ)) : Type 0 where
    pub endpoint : String
    pub admitted : Admits policy newurl endpoint
    pub below_ceiling :
        (ceiling ≡ none) ⊎ ((c : Policy) × (e : String) × (ceiling ≡ some c) × Admits c newurl e)
    pub same_scheme :
        scheme_of urlsplit unquote (urlsplit newurl) ≡ scheme_of urlsplit unquote (urlsplit origin)
    pub unlooped :
        (visited ≡ none)
        ⊎ ((v : Dict String ℕ) × (visited ≡ some v) × (times newurl v < 4) × (length v < 10))

  ceiling-Admits :
      (ceiling : Option Policy) (newurl : String)
      → leaves urlsplit unquote ceiling newurl ≡ false
      → (ceiling ≡ none) ⊎ ((c : Policy) × (e : String) × (ceiling ≡ some c) × Admits c newurl e)
  ceiling-Admits none newurl h = inl refl
  ceiling-Admits (some c) newurl h =
      elim (Option-cases (url_matches_allowlist urlsplit unquote c newurl)) [
        | inl m ↦ absurd (ground (arith, h, m))
        | inr (e, m) ↦ inr (c, e, refl, url_matches_allowlist-Admits c newurl e m)
      ]

  loop_open :
      (newurl : String) (visited : Option (Dict String ℕ))
      → loop_reached newurl visited ≡ false
      → (visited ≡ none)
        ⊎ ((v : Dict String ℕ) × (visited ≡ some v) × (times newurl v < 4) × (length v < 10))
  loop_open newurl none h = inl refl
  loop_open newurl (some v) h = inr (v, refl, ground (arith, h), ground (arith, h))

  -- A redirect of a fetch under a policy and a server-wide ceiling, if there is one, that is followed
  -- goes to a url that both admit, with the scheme of the url that it leaves, which the requests before
  -- have visited less than four times among less than ten urls, if they have visited any; the request
  -- is the one that the standard library made, and the trail has the url as attempted and followed, and
  -- is otherwise as it was.
  pub redirect_request_follows :
      {Next : Type 0} (policy : Policy) (ceiling : Option Policy) (origin newurl : String)
      (next : Option Next) (visited : Option (Dict String ℕ)) (trail trail' : Trail) (n : Next)
      → redirect_request urlsplit unquote policy ceiling origin newurl next visited trail
        ≡ (some n, trail')
      → IsFollowed policy ceiling origin newurl visited
        × (next ≡ some n)
        × (trail' ≡ record trail {
          attempted = trail.attempted ++ newurl ∷ [];
          followed = trail.followed ++ newurl ∷ [];
        })
  unfolding redirect_request
  redirect_request_follows policy ceiling origin newurl next visited trail trail' n h =
      let there = scheme_of urlsplit unquote (urlsplit newurl) in
      let here = scheme_of urlsplit unquote (urlsplit origin) in
      elim (Option-cases (url_matches_allowlist urlsplit unquote policy newurl)) [
        | inl m ↦ absurd (ground (arith, h, m))
        | inr (endpoint, m) ↦ elim (Bool-cases (leaves urlsplit unquote ceiling newurl)) [
          | inl c ↦ absurd (ground (arith, h, m, c))
          | inr c ↦ elim (Bool-cases (there == here)) [
            | inr s ↦ absurd (ground (arith, h, m, c, s))
            | inl s ↦ elim (Option-cases next) [
              | inl x ↦ absurd (ground (arith, h, m, c, s, x))
              | inr (made, x) ↦ elim (Bool-cases (loop_reached newurl visited)) [
                | inl l ↦ absurd (ground (arith, h, m, c, s, x, l))
                | inr l ↦ (
                  record {
                    endpoint = endpoint;
                    admitted = url_matches_allowlist-Admits policy newurl endpoint m;
                    below_ceiling = ceiling-Admits ceiling newurl c;
                    same_scheme = (eq_iff there here).0 s;
                    unlooped = loop_open newurl visited l;
                  },
                  ground (arith, h, m, c, s, x, l),
                  ground (arith, h, m, c, s, x, l),
                )
              ]
            ]
          ]
        ]
      ]

module _ (urlsplit : String → Option Url) (unquote : Text → Text)
    (lower upper : String → String) where
  -- A request that is allowed has an allowed method and only allowed headers, and an endpoint of the
  -- policy admits its url.
  pub validate_request_allows :
      (policy : Policy) (request : Request)
      → validate_request urlsplit unquote lower upper policy request ≡ none
      → (contains_text request.method (map upper policy.allowed_methods) ≡ true)
        × (headers_allowed lower request.headers ≡ true)
        × ((endpoint : String) × Admits urlsplit unquote policy request.url endpoint)
  unfolding validate_request
  validate_request_allows policy request h =
      elim (Option-cases (url_matches_allowlist urlsplit unquote policy request.url)) [
        | inl m ↦ ground (arith, h, m)
        | inr (endpoint, m) ↦ (
          ground (arith, h, m),
          ground (arith, h, m),
          (endpoint, url_matches_allowlist-Admits urlsplit unquote policy request.url endpoint m),
        )
      ]
