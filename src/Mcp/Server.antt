-- ===== src/Mcp/Server.antt =====
-- `Server` of ephemora_cell_mcp/server.py: a line to its replies, with the handshake as the state. The
-- registry, the engine and the reports of `get-policy` are an interface: `Backend`. What a message made
-- the engine run is kept beside the replies.
pub mod Replies
pub mod Sessions
use Prim.Native.String.{◌++◌ as text_append}
use ephemora_cell.Common.{
  ℕ, String, Bool, true, false, not, ◌&&◌, ◌||◌, Option, none, some, List, [], ◌∷◌, ◌++◌, ◌==◌,
  text_key, if◌then◌else◌, Outcome, ok, raised, ◌>>=◌, str_is_empty,
}
use ephemora_cell.Common.Int.{pos}
use ephemora_cell.Common.Json.{
  Json, Items, nil, cons, Fields, end, field, get, has, is_text, text?, with_field,
}
use ephemora_cell.Mcp.Protocol.{
  Loaded, Parsed, blank, malformed, invalid, crashed, message, parse_line, is_notification,
  make_result, make_error, Code, parse_error, invalid_request, method_not_found, invalid_params,
  internal_error, unsupported_protocol_version, modern_version, is_legacy, is_supported,
  supported_versions,
}

-- What a handler raises: `_InvalidParams`, `_UnsupportedProtocolVersion` or another exception.
pub data Failure : Type 0 where
  bad_params : String → Failure
  bad_version : Json → Failure
  other : String → Failure

-- The tools behind the server: the list for `tools/list`, the names that the registry knows, the run of
-- one of these, whose `ToolExecutionError` is a result too, and the report of `get-policy`. `governed` says
-- that tools may be loaded while the server runs.
pub record Backend : Type 0 where
  pub governed : Bool
  pub server_version : String
  pub list_tools : Json
  pub knows : String → Bool
  pub execute : String → Json → Outcome Failure Json
  pub get_policy : Json → Outcome Failure Json

-- A run that the engine was asked for: the tool and its arguments.
abbrev pub Run : Type 0
Run = String × Json

-- What a message leads to: the replies, whether the handshake is complete, and the runs.
pub record Answer : Type 0 where
  pub replies : List Fields
  pub complete : Bool
  pub runs : List Run

-- `d.setdefault(k, v)` and `d[k] = v`
abbrev pub set_default : String → Json → Fields → Fields
set_default k v d = if has k d then d else with_field d k v

abbrev pub assign : String → Json → Fields → Fields
assign k v end = field k v end
assign k v (field j w d) = if j == k then field k v d else field j w (assign k v d)

-- `_request_meta`
abbrev pub meta_in : Json → Fields
meta_in (Json.obj params) = meta_value (get "_meta" params)
  where
    meta_value : Json → Fields
    meta_value (Json.obj meta) = meta
    meta_value v = end
meta_in v = end

abbrev pub request_meta : Fields → Fields
request_meta m = meta_in (get "params" m)

abbrev pub version_key : String
version_key = "io.modelcontextprotocol/protocolVersion"

-- `_request_is_modern`
unfoldable pub request_is_modern : Fields → Bool
request_is_modern m = is_text modern_version (get version_key (request_meta m))

-- `_request_is_stateless`
unfoldable pub request_is_stateless : Fields → Bool
request_is_stateless m =
    has version_key (request_meta m) && not (is_legacy (get version_key (request_meta m)))

-- `isinstance(requested, str) and requested`
abbrev pub is_filled_text : Json → Bool
is_filled_text (Json.str s) = not (str_is_empty s)
is_filled_text v = false

-- `_check_request_version`
unfoldable pub check_request_version : Fields → Outcome Failure (Unit {0})
check_request_version m =
    let meta = request_meta m in
    let requested = get version_key meta in
    if not (has version_key meta)
    then ok tt
    else if not (is_filled_text requested)
    then raised
        (bad_params (text_append "_meta." (text_append version_key " must be a non-empty string")))
    else if not (is_supported requested)
    then raised (bad_version requested)
    else if is_text modern_version requested
        && not (has "io.modelcontextprotocol/clientCapabilities" meta)
    then raised
        (bad_params "2026-07-28 requests require _meta.io.modelcontextprotocol/clientCapabilities")
    else ok tt

-- `_PRE_HANDSHAKE_METHODS`
abbrev pub is_pre_handshake : String → Bool
is_pre_handshake method = method == "initialize" || method == "server/discover"

-- A request that came before the handshake, and is not served without it.
abbrev pub is_early : Bool → String → Fields → Bool
is_early complete method m =
    not complete && not (request_is_stateless m) && not (is_pre_handshake method)

module _ (backend : Backend) where
  abbrev pub server_info : Json
  server_info = Json.obj (
      field "name" (Json.str "ephemora-cell-mcp")
        (field "version" (Json.str backend.server_version) end))

  abbrev pub capabilities : Json
  capabilities =
      Json.obj (field "tools" (Json.obj (field "listChanged" (Json.bool backend.governed) end)) end)

  -- `_registry_ttl_ms`
  abbrev pub registry_ttl_ms : Json
  registry_ttl_ms = Json.num (pos (if backend.governed then 60000 else 3600000))

  abbrev pub meta_of : Json → Fields
  meta_of (Json.obj meta) = meta
  meta_of v = end

  -- `_modernize_result`
  unfoldable pub modernize_result : String → Json → Json
  modernize_result method (Json.obj result) =
      let typed = set_default "resultType" (Json.str "complete") result in
      let merged =
        set_default "io.modelcontextprotocol/serverInfo" server_info
          (meta_of (get "_meta" typed)) in
      let enriched = assign "_meta" (Json.obj merged) typed in
      Json.obj (
        if method == "tools/list"
        then set_default "cacheScope" (Json.str "private")
            (set_default "ttlMs" registry_ttl_ms enriched)
        else enriched)
  modernize_result method v = v

  -- `_handle_server_discover`
  abbrev pub handle_server_discover : Json
  handle_server_discover = Json.obj (
      field "resultType" (Json.str "complete") (
        field "supportedVersions" supported_versions (
          field "capabilities" capabilities (
            field "instructions"
              (Json.str
                "Tools run as WASM modules inside the Ephemora Cell (deterministic, fuel-metered, no network). The native \"get-policy\" tool reports the enforced sandbox policy — \"Verified. Not claimed.\"")
              (field "ttlMs" registry_ttl_ms (
                field "cacheScope" (Json.str "private") (
                  field "_meta"
                    (Json.obj (field "io.modelcontextprotocol/serverInfo" server_info end))
                    end)))))))

  -- `_handle_initialize`
  abbrev pub requested_version : Json → Json
  requested_version (Json.obj params) = get "protocolVersion" params
  requested_version v = Json.null

  unfoldable pub handle_initialize : Json → Json
  handle_initialize params =
      let requested = requested_version params in
      Json.obj (
        field "protocolVersion" (if is_legacy requested then requested else Json.str "2025-06-18")
          (field "capabilities" capabilities (field "serverInfo" server_info end)))

  -- `_handle_tools_call` of a tool of the registry
  abbrev pub call_registered : String → Json → Outcome Failure Json × List Run
  call_registered name arguments =
      if backend.knows name
      then (backend.execute name arguments, (name, arguments) ∷ [])
      else (raised (bad_params (text_append "unknown tool: " name)), [])

  abbrev pub call_named : Option String → Json → Outcome Failure Json × List Run
  call_named none arguments =
      (raised (bad_params "tools/call requires params.name to be a non-empty string"), [])
  call_named (some name) arguments =
      if str_is_empty name
      then (raised (bad_params "tools/call requires params.name to be a non-empty string"), [])
      else if name == "get-policy"
      then (backend.get_policy arguments, [])
      else call_registered name arguments

  -- `_handle_tools_call`, with the runs that it asks for
  unfoldable pub handle_tools_call : Json → Outcome Failure Json × List Run
  handle_tools_call (Json.obj params) =
      if has "name" params
      then call_named (text? (get "name" params)) (get "arguments" params)
      else (raised (bad_params "tools/call requires params.name"), [])
  handle_tools_call v = (raised (bad_params "tools/call requires params.name"), [])

  -- The handler of a method; `none` is a method without one.
  unfoldable pub handler : String → Json → Option (Outcome Failure Json × List Run)
  handler method params =
      if method == "initialize"
      then some (ok (handle_initialize params), [])
      else if method == "server/discover"
      then some (ok handle_server_discover, [])
      else if method == "tools/list"
      then some (ok (Json.obj (field "tools" backend.list_tools end)), [])
      else if method == "tools/call"
      then some (handle_tools_call params)
      else none

  -- The reply to an exception of a handler.
  abbrev pub failure_reply : Fields → Failure → Fields
  failure_reply m (bad_params text) = make_error (some m) invalid_params text none
  failure_reply m (bad_version requested) =
      make_error (some m) unsupported_protocol_version "Unsupported protocol version"
        (some (Json.obj (field "supported" supported_versions (field "requested" requested end))))
  failure_reply m (other text) =
      make_error (some m) internal_error (text_append "internal error: " text) none

  abbrev pub result_reply : Fields → String → Outcome Failure Json → Fields
  result_reply m method (raised e) = failure_reply m e
  result_reply m method (ok result) = make_result m (
      if not (method == "initialize") && request_is_modern m
      then modernize_result method result
      else result)

  abbrev pub one : Fields → Bool → Answer
  one reply complete = record { replies = reply ∷ []; complete = complete; runs = [] }

  abbrev pub version_checked : String → Fields → Outcome Failure (Unit {0})
  version_checked method m = if method == "initialize" then ok tt else check_request_version m

  -- The part of `handle_message` inside `try`.
  unfoldable pub dispatch : Bool → String → Fields → Outcome Failure Json × List Run → Answer
  dispatch complete method m (result, runs) = elim (version_checked method m) [
    | raised e ↦ one (failure_reply m e) complete
    | ok _ ↦ record {
      replies = result_reply m method result ∷ [];
      complete = complete || method == "initialize";
      runs = runs;
    }
  ]

  -- The dispatch by the handler that the method has, if any.
  abbrev pub answer_by : Bool → String → Fields → Option (Outcome Failure Json × List Run) → Answer
  answer_by complete method m none =
      one (make_error (some m) method_not_found (text_append "method not found: " method) none)
        complete
  answer_by complete method m (some h) = dispatch complete method m h

  -- The refusals of `handle_message` on account of the handshake.
  abbrev pub too_early : Fields → Fields
  too_early m =
      make_error (some m) invalid_request
        "requests other than initialize are not possible before initialization has been completed: send initialize first, or declare a protocol version in params._meta to be served statelessly"
        none

  abbrev pub repeated : Fields → Fields
  repeated m =
      make_error (some m) invalid_request
        "initialize was already completed for this process — the handshake runs once" none

  unfoldable pub handle_request : Bool → String → Fields → Answer
  handle_request complete method m =
      if is_early complete method m
      then one (too_early m) complete
      else if method == "initialize" && complete
      then one (repeated m) complete
      else answer_by complete method m (handler method (get "params" m))

  -- `handle_message`
  unfoldable pub handle_message : Bool → Fields → Answer
  handle_message complete m = elim (text? (get "method" m)) [
    | none ↦ one (make_error (some m) invalid_request "invalid request" none) complete
    | some method ↦
        if is_notification m
        then record { replies = []; complete = complete; runs = [] }
        else handle_request complete method m
  ]

  -- `handle_line`; `none` is an exception of `json.loads` that is no `ValueError`, which leaves the
  -- method. The text of an `InvalidRequest` is a parameter.
  unfoldable pub handle_line : (reason : String) → Bool → Bool → Loaded → Option Answer
  handle_line reason complete is_blank line = elim (parse_line is_blank line) [
    | blank ↦ some (record { replies = []; complete = complete; runs = [] })
    | malformed ↦ some (one (make_error none parse_error "parse error" none) complete)
    | invalid ↦ some (one (make_error none invalid_request reason none) complete)
    | crashed ↦ none
    | message m ↦ some (handle_message complete m)
  ]
