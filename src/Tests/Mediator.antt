-- ===== src/Tests/Mediator.antt =====
-- A grant's call mediated at concrete inputs.
use ephemora_cell.Common.{◌≡◌, refl, true, none, some, [], ◌∷◌, ok, text_key}
use ephemora_cell.Common.Moment.{parse_bound}
use ephemora_cell.GrantLedger.{Decision, record_call, replay, decide, gate, call_line}
use ephemora_cell.Egress.{
  Request, validate_request, url_matches_allowlist, parsed_matches, first_match, entry_matches,
  method_denied,
}
use ephemora_cell.Common.Texts.{split, starts_with}
use ephemora_cell.Egress.Path.{path_allowed, has_dot_segment_in}
use ephemora_cell.Egress.Mediator.{
  fetch, mediate_with_grant, mediate_with_grant_fetches, outside_ceiling,
}
use ephemora_cell.Tests.Iso.{unary_iso}
use ephemora_cell.Tests.GrantLedger.{grant}
use ephemora_cell.Tests.Egress.{urlsplit, unquote, lower, upper, policy, request}

abbrev post : Request
post = record { url = "https://api/v1"; method = "POST"; headers = [] }

fetched :
    mediate_with_grant urlsplit unquote lower upper unary_iso grant policy
      (some policy)
      1500
      (some request)
      []
    ≡ (fetch request, call_line unary_iso grant 1500 1 ∷ [])
unfolding mediate_with_grant validate_request url_matches_allowlist parsed_matches first_match
    entry_matches has_dot_segment_in split path_allowed starts_with record_call replay parse_bound
    decide gate
fetched = refl

mediate_with_grant_fetches_example :
    (validate_request urlsplit unquote lower upper policy request ≡ none)
    × (outside_ceiling urlsplit unquote lower upper unary_iso (some policy) request ≡ none)
    × ((d : Decision) × (record_call unary_iso grant 1500 []
          ≡ ok (d, call_line unary_iso grant 1500 1 ∷ []))
        × (d.allowed ≡ true))
mediate_with_grant_fetches_example =
    mediate_with_grant_fetches urlsplit unquote lower upper unary_iso grant policy (some policy)
      1500 (some request) request [] (call_line unary_iso grant 1500 1 ∷ []) fetched

post_denied : validate_request urlsplit unquote lower upper policy post ≡ some method_denied
unfolding validate_request
post_denied = refl
