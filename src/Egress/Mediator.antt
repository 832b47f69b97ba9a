-- ===== src/Egress/Mediator.antt =====
-- `mediate_with_grant` of ephemora_cell/egress_sidecar.py: the grant's own allowlist, the server-wide
-- one, one charged call of the grant's book, and only then the fetch, which is left to the caller. The
-- request is what `parse_request_document` returned, `none` where it raised.
use ephemora_cell.Common.{
  ◌≡◌, refl, String, true, Option, none, some, List, ◌⊎◌, inl, inr, Outcome, ok, raised,
  if◌then◌else◌, arith, Option-cases, Outcome-cases,
}
use ephemora_cell.Common.Bytes.{Text}
use ephemora_cell.Common.Moment.{Moment, Iso}
use ephemora_cell.GrantLedger.{Raw, Error, Grant, Decision, Limit, record_call}
use ephemora_cell.Egress.{Url, Policy, Request, Denial, validate_request}

-- What became of a request.
pub data Mediated : Type 0 where
  invalid ledger_unreadable : Mediated
  denied_by_policy denied_by_ceiling : Denial → Mediated
  denied_by_grant : Option Limit → Mediated
  fetch : Request → Mediated

module _ (urlsplit : String → Option Url) (unquote : Text → Text) (lower upper : String → String)
    (iso : Iso) where
  -- The answer of the grant's book.
  abbrev pub charged :
      Request → List Raw → Outcome Error (Decision × List Raw) → Mediated × List Raw
  charged request book (raised e) = (ledger_unreadable, book)
  charged request book (ok (d, book')) =
      (if d.allowed then fetch request else denied_by_grant d.limit, book')

  abbrev pub outside_ceiling : Option Policy → Request → Option Denial
  outside_ceiling none request = none
  outside_ceiling (some ceiling) request =
      validate_request urlsplit unquote lower upper ceiling request

  -- `mediate_with_grant`, by the policy of the grant
  unfoldable pub mediate_with_grant :
      Grant → Policy → Option Policy → Moment → Option Request → List Raw → Mediated × List Raw
  mediate_with_grant grant policy ceiling now none book = (invalid, book)
  mediate_with_grant grant policy ceiling now (some request) book =
      elim (validate_request urlsplit unquote lower upper policy request) [
        | some denial ↦ (denied_by_policy denial, book)
        | none ↦ elim (outside_ceiling ceiling request) [
          | some denial ↦ (denied_by_ceiling denial, book)
          | none ↦ charged request book (record_call iso grant now book)
        ]
      ]

  -- A request is fetched only if the grant's allowlist and the ceiling, if any, allow it and the grant's
  -- book charged an allowed call for it; the book that is left is the charged one.
  pub mediate_with_grant_fetches :
      (grant : Grant) (policy : Policy) (ceiling : Option Policy) (now : Moment)
      (parsed : Option Request) (request : Request) (book book' : List Raw)
      → mediate_with_grant grant policy ceiling now parsed book ≡ (fetch request, book')
      → (validate_request urlsplit unquote lower upper policy request ≡ none)
        × (outside_ceiling ceiling request ≡ none)
        × ((d : Decision) × (record_call iso grant now book ≡ ok (d, book')) × (d.allowed ≡ true))
  unfolding mediate_with_grant
  mediate_with_grant_fetches grant policy ceiling now none request book book' h = ground (arith, h)
  mediate_with_grant_fetches grant policy ceiling now (some asked) request book book' h =
      elim (Option-cases (validate_request urlsplit unquote lower upper policy asked)) [
        | inr (x, v) ↦ ground (arith, h, v)
        | inl v ↦ elim (Option-cases (outside_ceiling ceiling asked)) [
          | inr (x, c) ↦ ground (arith, h, v, c)
          | inl c ↦ elim (Outcome-cases (record_call iso grant now book)) [
            | inr (t, r) ↦ ground (arith, h, v, c, r)
            | inl ((d, left), r) ↦
                let same : asked ≡ request = ground (arith, h, v, c, r) in
                let kept : left ≡ book' = ground (arith, h, v, c, r) in
                (rw same at v, rw same at c, (d, rw kept at r, ground (arith, h, v, c, r)))
          ]
        ]
      ]

  -- A request that the grant's allowlist or the ceiling denies is not charged: the book stays as it is.
  pub mediate_with_grant_free :
      (grant : Grant) (policy : Policy) (ceiling : Option Policy) (now : Moment) (request : Request)
      (book : List Raw) (denial : Denial)
      → (validate_request urlsplit unquote lower upper policy request ≡ some denial)
        ⊎ (outside_ceiling ceiling request ≡ some denial)
      → (mediate_with_grant grant policy ceiling now (some request) book).1 ≡ book
  unfolding mediate_with_grant
  mediate_with_grant_free grant policy ceiling now request book denial h =
      elim (Option-cases (validate_request urlsplit unquote lower upper policy request)) [
        | inr (x, v) ↦ rw (mediate_with_grant, v) refl
        | inl v ↦ elim h [
          | inl g ↦ ground (arith, g, v)
          | inr g ↦ rw (mediate_with_grant, v, g) refl
        ]
      ]
