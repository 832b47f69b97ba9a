-- ===== src/Mcp/Server/Replies.antt =====
-- How many replies a message gets, and which request they name.
use ephemora_cell.Common.{
  ◌≡◌, refl, String, Bool, true, false, ◌&&◌, Option, none, some, List, [], ◌∷◌, ◌==◌, text_key,
  if◌then◌else◌, Outcome, ok, raised, arith, Option-cases, Outcome-cases, inl, inr,
}
use ephemora_cell.Common.Json.{Json, Fields, get, has, text?}
use ephemora_cell.Mcp.Protocol.{make_error, Code, invalid_request, method_not_found}
use ephemora_cell.Mcp.Server.{
  Failure, bad_params, bad_version, other, Backend, Run, Answer, handler, failure_reply,
  result_reply, one, version_checked, dispatch, answer_by, too_early, repeated, is_early,
  handle_request, handle_message,
}

module _ (backend : Backend) where
  -- One reply, which names the request by its id.
  pub record Replied (m : Fields) (a : Answer) : Type 0 where
    pub reply : Fields
    pub only : a.replies ≡ reply ∷ []
    pub same_id : get "id" reply ≡ get "id" m
    pub version : get "jsonrpc" reply ≡ Json.str "2.0"

  one-Replied :
      (m : Fields) (code : Code) (text : String) (v : Option Json) (complete : Bool)
      → Replied m (one backend (make_error (some m) code text v) complete)
  one-Replied m code text v complete = record {
    reply = make_error (some m) code text v;
    only = refl;
    same_id = refl;
    version = refl;
  }

  failure-Replied :
      (m : Fields) (e : Failure) (complete : Bool)
      → Replied m (one backend (failure_reply backend m e) complete)
  failure-Replied m (bad_params text) complete = record {
    reply = _;
    only = refl;
    same_id = refl;
    version = refl;
  }
  failure-Replied m (bad_version v) complete = record {
    reply = _;
    only = refl;
    same_id = refl;
    version = refl;
  }
  failure-Replied m (other text) complete = record {
    reply = _;
    only = refl;
    same_id = refl;
    version = refl;
  }

  result-named :
      (m : Fields) (method : String) (r : Outcome Failure Json)
      → (get "id" (result_reply backend m method r) ≡ get "id" m)
        × (get "jsonrpc" (result_reply backend m method r) ≡ Json.str "2.0")
  result-named m method (ok v) = (refl, refl)
  result-named m method (raised (bad_params text)) = (refl, refl)
  result-named m method (raised (bad_version v)) = (refl, refl)
  result-named m method (raised (other text)) = (refl, refl)

  dispatch-Replied :
      (complete : Bool) (method : String) (m : Fields) (h : Outcome Failure Json × List Run)
      → Replied m (dispatch backend complete method m h)
  unfolding dispatch
  dispatch-Replied complete method m (result, runs) =
      elim (Outcome-cases (version_checked backend method m)) [
        | inr (e, v) ↦ rw (dispatch, v) (failure-Replied m e complete)
        | inl (u, v) ↦
            rw (dispatch, v)
              (record {
                reply = result_reply backend m method result;
                only = refl;
                same_id = (result-named m method result).0;
                version = (result-named m method result).1;
              })
      ]

  answer_by-Replied :
      (complete : Bool) (method : String) (m : Fields)
      (h : Option (Outcome Failure Json × List Run))
      → Replied m (answer_by backend complete method m h)
  answer_by-Replied complete method m none = one-Replied m method_not_found _ none complete
  answer_by-Replied complete method m (some h) = dispatch-Replied complete method m h

  if-Replied :
      (m : Fields) (b : Bool) (x y : Answer)
      → Replied m x
      → Replied m y
      → Replied m (if b then x else y)
  if-Replied m true x y p q = p
  if-Replied m false x y p q = q

  handle_request-Replied :
      (complete : Bool) (method : String) (m : Fields)
      → Replied m (handle_request backend complete method m)
  unfolding handle_request
  handle_request-Replied complete method m =
      let last = answer_by backend complete method m (handler backend method (get "params" m)) in
      let again = one backend (repeated backend m) complete in
      if-Replied m (is_early complete method m) (one backend (too_early backend m) complete)
        (if method == "initialize" && complete then again else last)
        (record { reply = too_early backend m; only = refl; same_id = refl; version = refl })
        (if-Replied m (method == "initialize" && complete) again last
          (record { reply = repeated backend m; only = refl; same_id = refl; version = refl })
          (answer_by-Replied complete method m (handler backend method (get "params" m))))

  -- Each message with an id gets exactly one reply, with that id; one with a method and no id gets none.
  pub handle_message-Replied :
      (complete : Bool) (m : Fields)
      → (has "id" m ≡ true → Replied m (handle_message backend complete m))
        × ((method : String)
            → text? (get "method" m) ≡ some method
            → has "id" m ≡ false
            → (handle_message backend complete m).replies ≡ [])
  unfolding handle_message
  handle_message-Replied complete m = elim (Option-cases (text? (get "method" m))) [
    | inl t ↦ (
      λ h. rw (handle_message, t) (one-Replied m invalid_request "invalid request" none complete),
      λ method e h. ground (arith, t, e),
    )
    | inr (method, t) ↦ (
      λ h. rw (handle_message, t, h) (handle_request-Replied complete method m),
      λ other_method e h. rw (handle_message, t, h) refl,
    )
  ]
