-- ===== src/Egress.antt =====
-- The egress mediator of ephemora_cell/egress_sidecar.py: which addresses a host may resolve to, which
-- urls an allowlist admits, and what a request and a redirect must satisfy. `urlsplit`, `unquote`, `lower`
-- and `upper` of a text and `ipaddress` are parameters: `urlsplit` returns `none` where it raises, and `port` of a split url is
-- `none` where reading it raises. A path is the list of its code points.
pub mod Address
pub mod Path
pub mod Segments
pub mod Mediator
pub mod Admits
use ephemora_cell.Common.{
  ℕ, suc, ◌≡◌, String, Bool, true, false, ◌&&◌, ◌||◌, not, Option, none, some, List, [], ◌∷◌, ◌==◌,
  nat_beq, if◌then◌else◌, text_key, length, leb, map, ◌++◌,
}
use ephemora_cell.Common.Dict.{Dict, lookup}
use ephemora_cell.Common.Bytes.{Text, bytes_key}
use ephemora_cell.Egress.Path.{has_dot_segment_in, path_allowed}

-- What the mediator reads of a `SplitResult`; a `hostname` is absent where the url has none.
pub record Url : Type 0 where
  pub scheme : String
  pub netloc : Text
  pub hostname : Option String
  pub port : Option (Option ℕ)
  pub path : Text
  pub query : Text
  pub fragment : Text
  pub username : Option Text
  pub password : Option Text

abbrev pub is_web : String → Bool
is_web s = s == "https" || s == "http"

-- `bool(text)`
abbrev pub is_filled : Text → Bool
is_filled [] = false
is_filled (_ ∷ _) = true

-- `parsed.port or _DEFAULT_PORTS[scheme]`: the port 0 is no port.
abbrev pub port_or_default : String → Option ℕ → ℕ
port_or_default scheme (some (suc n)) = suc n
port_or_default scheme _ = if scheme == "https" then 443 else 80

abbrev pub contains_text : String → List String → Bool
contains_text s [] = false
contains_text s (t ∷ rest) = t == s || contains_text s rest

abbrev pub has_at : Text → Bool
has_at [] = false
has_at (c ∷ s) = nat_beq c b'@' || has_at s

-- `EgressRequest`, of which the body plays no part in a decision.
pub record Request : Type 0 where
  pub url : String
  pub method : String
  pub headers : List String

-- `EgressPolicy`, the fields that a decision reads.
pub record Policy : Type 0 where
  pub allowed_endpoints : List String
  pub allowed_methods : List String

-- Why `validate_request` denies a request.
pub data Denial : Type 0 where
  method_denied dot_segment url_denied headers_denied : Denial

-- Why a redirect is refused, `denied_reason` of the trail.
pub data Refusal : Type 0 where
  not_allowlisted leaves_ceiling changes_scheme loop_limit : Refusal

-- `_RedirectTrail`
pub record Trail : Type 0 where
  pub attempted : List String
  pub followed : List String
  pub denied_reason : Option Refusal
  pub denied_limit : Option String

-- `max_repeats` and `max_redirections` of the standard library's `HTTPRedirectHandler`
abbrev pub max_repeats : ℕ
max_repeats = 4

abbrev pub max_redirections : ℕ
max_redirections = 10

-- `visited.get(newurl, 0)`
abbrev pub times : String → Dict String ℕ → ℕ
times url visited = elim (lookup url visited) [ none ↦ 0 | some n ↦ n ]

-- The loop limits, on the `redirect_dict` of the request, if it has one.
abbrev pub loop_reached : String → Option (Dict String ℕ) → Bool
loop_reached newurl none = false
loop_reached newurl (some visited) =
    leb max_repeats (times newurl visited) || leb max_redirections (length visited)

-- What is left of `if a is not None and b is not None and a == b` for host names, of which `None` is
-- one.
abbrev pub same_host : Option String → Option String → Bool
same_host none none = true
same_host (some a) (some b) = a == b
same_host _ _ = false

module _ (urlsplit : String → Option Url) (unquote : Text → Text) where
  -- `_has_dot_segment`
  abbrev pub has_dot_segment : Text → Bool
  has_dot_segment path = has_dot_segment_in path || has_dot_segment_in (unquote path)

  -- One round of the loop of `_url_matches_allowlist`; `none` is an exception, which ends it.
  unfoldable pub entry_matches : Url → Text → ℕ → Url → Option Bool
  entry_matches parsed path port entry =
      if parsed.scheme == entry.scheme && same_host parsed.hostname entry.hostname
      then elim entry.port [
        | none ↦ none
        | some p ↦
            some (nat_beq port (port_or_default entry.scheme p) && path_allowed path entry.path)
      ]
      else some false

  unfoldable pub first_match : Url → Text → ℕ → List String → Option String
  first_match parsed path port [] = none
  first_match parsed path port (endpoint ∷ rest) =
      let later = first_match parsed path port rest in
      elim (urlsplit endpoint) [
        | none ↦ none
        | some entry ↦ elim (entry_matches parsed path port entry) [
          | none ↦ none
          | some true ↦ some endpoint
          | some false ↦ later
        ]
      ]

  abbrev pub path_or_root : Text → Text
  path_or_root [] = b'/' ∷ []
  path_or_root (c ∷ s) = c ∷ s

  unfoldable pub parsed_matches : Policy → Url → Option String
  parsed_matches policy parsed =
      if not (is_web parsed.scheme)
      then none
      else if has_at parsed.netloc || is_filled parsed.fragment
      then none
      else if has_dot_segment parsed.path
      then none
      else elim parsed.port [
        | none ↦ none
        | some p ↦
            first_match parsed (path_or_root parsed.path) (port_or_default parsed.scheme p)
              policy.allowed_endpoints
      ]

  -- `_url_matches_allowlist`
  unfoldable pub url_matches_allowlist : Policy → String → Option String
  url_matches_allowlist policy url = elim (urlsplit url) [
    | none ↦ none
    | some parsed ↦ parsed_matches policy parsed
  ]

  abbrev pub denied_path : Option Url → Denial
  denied_path none = if has_dot_segment [] then dot_segment else url_denied
  denied_path (some parsed) = if has_dot_segment parsed.path then dot_segment else url_denied

  abbrev pub scheme_of : Option Url → String
  scheme_of none = ""
  scheme_of (some u) = u.scheme

  -- Whether a ceiling, if there is one, does not admit a url.
  abbrev pub leaves : Option Policy → String → Bool
  leaves none newurl = false
  leaves (some ceiling) newurl = elim (url_matches_allowlist ceiling newurl) [
    | none ↦ true
    | some _ ↦ false
  ]

  -- `redirect_request` of a fetch of `origin`: what it returns, and the trail. `next` is what the handler
  -- of the standard library that it extends returns.
  unfoldable pub redirect_request :
      {Next : Type 0}
      → Policy
      → Option Policy
      → (origin newurl : String) → Option Next
      → Option (Dict String ℕ)
      → Trail
      → Option Next × Trail
  redirect_request policy ceiling origin newurl next visited trail =
      let seen = record trail { attempted = trail.attempted ++ newurl ∷ [] } in
      elim (url_matches_allowlist policy newurl) [
        | none ↦ (none, record seen { denied_reason = some not_allowlisted })
        | some endpoint ↦
            if leaves ceiling newurl
            then (
              none,
              record seen {
                denied_reason = some leaves_ceiling;
                denied_limit = some "server-policy";
              },
            )
            else if not (scheme_of (urlsplit newurl) == scheme_of (urlsplit origin))
            then (none, record seen { denied_reason = some changes_scheme })
            else elim next [
              | none ↦ (none, seen)
              | some n ↦
                  if loop_reached newurl visited
                  then (none, record seen { denied_reason = some loop_limit })
                  else (some n, record seen { followed = trail.followed ++ newurl ∷ [] })
            ]
      ]

-- `all(k.lower() in _ALLOWED_HEADER_NAMES …)`
abbrev pub headers_allowed : (String → String) → List String → Bool
headers_allowed lower [] = true
headers_allowed lower (k ∷ rest) =
    contains_text (lower k) ("accept" ∷ "content-type" ∷ "user-agent" ∷ [])
    && headers_allowed lower rest

module _ (urlsplit : String → Option Url) (unquote : Text → Text)
    (lower upper : String → String) where
  -- `validate_request`, `none` where it allows the request
  unfoldable pub validate_request : Policy → Request → Option Denial
  validate_request policy request =
      if not (contains_text request.method (map upper policy.allowed_methods))
      then some method_denied
      else elim (url_matches_allowlist urlsplit unquote policy request.url) [
        | none ↦ some (denied_path urlsplit unquote (urlsplit request.url))
        | some endpoint ↦
            if headers_allowed lower request.headers then none else some headers_denied
      ]
