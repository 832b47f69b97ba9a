-- ===== src/Mcp/Server/Sessions.antt =====
-- Sessions: the messages of one process in order, from a handshake that is not complete.
use ephemora_cell.Common.{
  ◌≡◌, refl, String, Bool, true, false, ◌&&◌, ◌||◌, none, some, List, [], ◌∷◌, ◌++◌, ◌==◌, text_key,
  Outcome, arith, Option-cases, Outcome-cases, Bool-cases, inl, inr, All,
}
use ephemora_cell.Common.Json.{Json, Fields, get, has, text?, is_text}
use ephemora_cell.Mcp.Server.{
  Failure, Backend, Run, Answer, request_is_stateless, handler, version_checked, dispatch,
  answer_by, is_early, handle_request, handle_message,
}

-- An `initialize` request.
abbrev pub is_initialize : Fields → Bool
is_initialize m = has "id" m && is_text "initialize" (get "method" m)

abbrev pub any_initialize : List Fields → Bool
any_initialize [] = false
any_initialize (m ∷ ms) = is_initialize m || any_initialize ms

module _ (backend : Backend) where
  -- The messages of a session, with all its replies and runs.
  unfoldable pub session : Bool → List Fields → Answer
  session complete [] = record { replies = []; complete = complete; runs = [] }
  session complete (m ∷ ms) =
      let first = handle_message backend complete m in
      let rest = session first.complete ms in
      record {
        replies = first.replies ++ rest.replies;
        complete = rest.complete;
        runs = first.runs ++ rest.runs;
      }

  dispatch_complete :
      (complete : Bool) (method : String) (m : Fields) (h : Outcome Failure Json × List Run)
      → (dispatch backend complete method m h).complete ≡ (complete || method == "initialize")
  unfolding dispatch
  dispatch_complete complete method m (result, runs) =
      elim (Outcome-cases (version_checked backend method m)) [
        | inl (u, v) ↦ rw (dispatch, v) refl
        | inr (e, v) ↦ rw (dispatch, v) (ground (arith, v))
      ]

  answer_by_complete :
      (complete : Bool) (method : String) (m : Fields) (params : Json)
      → (answer_by backend complete method m (handler backend method params)).complete
        ≡ (complete || method == "initialize")
  unfolding handler
  answer_by_complete complete method m params =
      elim (Option-cases (handler backend method params)) [
        | inl h ↦ rw h (ground (arith, h))
        | inr (r, h) ↦ rw h (dispatch_complete complete method m r)
      ]

  handle_request_complete :
      (complete : Bool) (method : String) (m : Fields)
      → (handle_request backend complete method m).complete ≡ (complete || method == "initialize")
  unfolding handle_request
  handle_request_complete complete method m = elim (Bool-cases (is_early complete method m)) [
    | inl e ↦ rw (handle_request, e) (ground (arith, e))
    | inr e ↦ elim (Bool-cases (method == "initialize" && complete)) [
      | inl r ↦ rw (handle_request, e, r) (ground (arith, r))
      | inr r ↦ rw (handle_request, e, r) (answer_by_complete complete method m (get "params" m))
    ]
  ]

  text?-none : (v : Json) → text? v ≡ none → is_text "initialize" v ≡ false
  text?-none (Json.str s) h = ground (arith, h)
  text?-none Json.null h = refl
  text?-none (Json.bool b) h = refl
  text?-none (Json.num n) h = refl
  text?-none (Json.float n b) h = refl
  text?-none Json.nan h = refl
  text?-none (Json.arr xs) h = refl
  text?-none (Json.obj d) h = refl

  text?-some : (v : Json) (s : String) → text? v ≡ some s → v ≡ Json.str s
  text?-some (Json.str t) s h = ground (arith, h)
  text?-some Json.null s h = ground (arith, h)
  text?-some (Json.bool b) s h = ground (arith, h)
  text?-some (Json.num n) s h = ground (arith, h)
  text?-some (Json.float n b) s h = ground (arith, h)
  text?-some Json.nan s h = ground (arith, h)
  text?-some (Json.arr xs) s h = ground (arith, h)
  text?-some (Json.obj d) s h = ground (arith, h)

  handle_message_complete :
      (complete : Bool) (m : Fields)
      → (handle_message backend complete m).complete ≡ (complete || is_initialize m)
  unfolding handle_message
  handle_message_complete complete m = elim (Option-cases (text? (get "method" m))) [
    | inl t ↦ rw (handle_message, t) (ground (arith, text?-none (get "method" m) t))
    | inr (method, t) ↦ elim (Bool-cases (has "id" m)) [
      | inr h ↦ rw (handle_message, t, h) (ground (arith, h))
      | inl h ↦
          rw (handle_message, t, h)
            (ground (
              arith,
              handle_request_complete complete method m,
              h,
              text?-some (get "method" m) method t,
            ))
    ]
  ]

  -- The handshake of a session is complete exactly when it was from the start or one of the messages
  -- is an `initialize` request.
  pub session_complete :
      (complete : Bool) (ms : List Fields)
      → (session complete ms).complete ≡ (complete || any_initialize ms)
  unfolding session
  session_complete complete [] = ground arith
  session_complete complete (m ∷ ms) = ground (
    arith,
    handle_message_complete complete m,
    session_complete (handle_message backend complete m).complete ms,
  )

  handler-runs :
      (method : String) (params : Json) (h : Outcome Failure Json × List Run)
      → (method == "initialize" || method == "server/discover") ≡ true
      → handler backend method params ≡ some h
      → h.1 ≡ []
  unfolding handler
  handler-runs method params h pre e = ground (arith, pre, e)

  dispatch-runs :
      (complete : Bool) (method : String) (m : Fields) (h : Outcome Failure Json × List Run)
      → h.1 ≡ []
      → (dispatch backend complete method m h).runs ≡ []
  unfolding dispatch
  dispatch-runs complete method m (result, runs) e =
      elim (Outcome-cases (version_checked backend method m)) [
        | inl (u, v) ↦ rw (dispatch, v) e
        | inr (x, v) ↦ rw (dispatch, v) refl
      ]

  answer_by-runs :
      (complete : Bool) (method : String) (m : Fields) (params : Json)
      → (method == "initialize" || method == "server/discover") ≡ true
      → (answer_by backend complete method m (handler backend method params)).runs ≡ []
  answer_by-runs complete method m params pre =
      elim (Option-cases (handler backend method params)) [
        | inl h ↦ rw h refl
        | inr (r, h) ↦ rw h (dispatch-runs complete method m r (handler-runs method params r pre h))
      ]

  handle_message-runs :
      (m : Fields) → request_is_stateless m ≡ false → (handle_message backend false m).runs ≡ []
  unfolding handle_message handle_request
  handle_message-runs m s = elim (Option-cases (text? (get "method" m))) [
    | inl t ↦ rw (handle_message, t) refl
    | inr (method, t) ↦ elim (Bool-cases (has "id" m)) [
      | inr h ↦ rw (handle_message, t, h) refl
      | inl h ↦ elim (Bool-cases (is_early false method m)) [
        | inl e ↦ rw (handle_message, t, h, handle_request, e) refl
        | inr e ↦ elim (Bool-cases (method == "initialize" && false)) [
          | inl r ↦ ground (arith, r)
          | inr r ↦
              rw (handle_message, t, h, handle_request, e, r)
                (answer_by-runs false method m (get "params" m) (ground (arith, e, s)))
        ]
      ]
    ]
  ]

  -- As long as no message of a session is an `initialize` request or names a protocol version that is
  -- served without one, no tool is run.
  pub session-runs :
      (ms : List Fields)
      → any_initialize ms ≡ false
      → All (λ m. request_is_stateless m ≡ false) ms
      → (session false ms).runs ≡ []
  unfolding session
  session-runs [] n s = refl
  session-runs (m ∷ ms) n s =
      let same : (handle_message backend false m).complete ≡ false =
        ground (arith, handle_message_complete false m, n) in
      rw (handle_message-runs m s.0, same) (session-runs ms (ground (arith, n)) s.1)
