-- ===== src/Tests/Egress.antt =====
-- The egress mediator at concrete inputs.
use ephemora_cell.Common.{
  ℕ, ◌≡◌, refl, String, true, false, Option, none, some, [], ◌∷◌, arith, ok, if◌then◌else◌, ◌==◌,
  text_key,
}
use ephemora_cell.Common.Dict.{Dict}
use ephemora_cell.Common.Bytes.{Text, bytes_key}
use ephemora_cell.Common.Decimal.{codes}
use ephemora_cell.Common.Texts.{split, starts_with, segments, begins}
use ephemora_cell.Egress.Path.{path_allowed, has_dot_segment_in}
use ephemora_cell.Egress.Segments.{path_allowed-begins}
use ephemora_cell.Egress.Address.{
  Address, v4, v6, octets, ip_blocked, v4_refused, spell, nat64, ip_blocked-spell,
  guarded_getaddrinfo,
}
use ephemora_cell.Egress.{
  Url, Policy, Request, url_matches_allowlist, parsed_matches, first_match, entry_matches,
  validate_request, redirect_request, Trail, loop_limit,
}
use ephemora_cell.Egress.Admits.{
  Admits, IsFollowed, url_matches_allowlist-Admits, redirect_request_follows,
}

-- A sibling of an entry is not under it.
path_allowed-begins_example :
    path_allowed (codes "/v1-admin/keys") (codes "/v1")
    ≡ begins (segments (codes "/v1")) (segments (codes "/v1-admin/keys"))
path_allowed-begins_example =
    path_allowed-begins (codes "/v1-admin/keys") (codes "/v1") (λ e. ground (arith, e))
      (λ e. ground (arith, e)) refl

sibling_refused : path_allowed (codes "/v1-admin/keys") (codes "/v1") ≡ false
unfolding path_allowed starts_with
sibling_refused = refl

-- The metadata address, by NAT64.
ip_blocked-spell_example :
    ip_blocked (some (v6 (spell nat64 (octets 169 254 169 254))))
    ≡ ip_blocked (some (v4 (octets 169 254 169 254)))
ip_blocked-spell_example = ip_blocked-spell nat64 (octets 169 254 169 254) (omega arith)

metadata_blocked : ip_blocked (some (v4 (octets 169 254 169 254))) ≡ true
unfolding ip_blocked v4_refused
metadata_blocked = refl

public_open : ip_blocked (some (v4 (octets 8 8 8 8))) ≡ false
unfolding ip_blocked v4_refused
public_open = refl

abbrev parse : String → Option Address
parse s =
    if s == "8.8.8.8"
    then some (v4 (octets 8 8 8 8))
    else if s == "127.0.0.1"
    then some (v4 (octets 127 0 0 1))
    else none

resolved :
    guarded_getaddrinfo parse (some "host") ("127.0.0.1" ∷ "8.8.8.8" ∷ []) ≡ ok ("8.8.8.8" ∷ [])
unfolding guarded_getaddrinfo ip_blocked v4_refused
resolved = refl

abbrev pub api : String → Url
api path = record {
  scheme = "https";
  netloc = codes "api";
  hostname = some "api";
  port = some none;
  path = codes path;
  query = [];
  fragment = [];
  username = none;
  password = none;
}

abbrev pub urlsplit : String → Option Url
urlsplit url =
    if url == "https://api/v1"
    then some (api "/v1")
    else if url == "https://api/v1/x"
    then some (api "/v1/x")
    else none

abbrev pub unquote : Text → Text
unquote path = path

abbrev pub lower : String → String
lower s = if s == "Accept" then "accept" else s

abbrev pub upper : String → String
upper s = if s == "get" then "GET" else s

abbrev pub policy : Policy
policy = record { allowed_endpoints = "https://api/v1" ∷ []; allowed_methods = "get" ∷ [] }

abbrev pub request : Request
request = record { url = "https://api/v1/x"; method = "GET"; headers = "Accept" ∷ [] }

matched : url_matches_allowlist urlsplit unquote policy "https://api/v1/x" ≡ some "https://api/v1"
unfolding url_matches_allowlist parsed_matches first_match entry_matches has_dot_segment_in split
    path_allowed starts_with
matched = refl

url_matches_allowlist-Admits_example :
    Admits urlsplit unquote policy "https://api/v1/x" "https://api/v1"
url_matches_allowlist-Admits_example =
    url_matches_allowlist-Admits urlsplit unquote policy "https://api/v1/x" "https://api/v1" matched

valid : validate_request urlsplit unquote lower upper policy request ≡ none
unfolding validate_request url_matches_allowlist parsed_matches first_match entry_matches
    has_dot_segment_in split path_allowed starts_with
valid = refl

-- What the standard library makes for the next hop.
abbrev made : String
made = "next"

abbrev trail : Trail
trail = record { attempted = []; followed = []; denied_reason = none; denied_limit = none }

abbrev trail_followed : Trail
trail_followed = record trail {
  attempted = "https://api/v1/x" ∷ [];
  followed = "https://api/v1/x" ∷ [];
}

-- The request was redirected here three times before.
abbrev visited : Dict String ℕ
visited = ("https://api/v1/x", 3) ∷ []

redirect_followed :
    redirect_request urlsplit unquote policy
      (some policy)
      "https://api/v1"
      "https://api/v1/x"
      (some made)
      (some visited)
      trail
    ≡ (some made, trail_followed)
unfolding redirect_request url_matches_allowlist parsed_matches first_match entry_matches
    has_dot_segment_in split path_allowed starts_with
redirect_followed = refl

-- The fourth time is one too many.
redirect_looped :
    redirect_request urlsplit unquote policy
      (some policy)
      "https://api/v1"
      "https://api/v1/x"
      (some made)
      (some (("https://api/v1/x", 4) ∷ []))
      trail
    ≡ (none, record trail { attempted = "https://api/v1/x" ∷ []; denied_reason = some loop_limit })
unfolding redirect_request url_matches_allowlist parsed_matches first_match entry_matches
    has_dot_segment_in split path_allowed starts_with
redirect_looped = refl

redirect_request_follows_example :
    IsFollowed urlsplit unquote policy
      (some policy)
      "https://api/v1"
      "https://api/v1/x"
      (some visited)
    × (some made ≡ some made)
    × (trail_followed ≡ trail_followed)
redirect_request_follows_example =
    redirect_request_follows urlsplit unquote policy (some policy) "https://api/v1"
      "https://api/v1/x" (some made) (some visited) trail trail_followed made redirect_followed
