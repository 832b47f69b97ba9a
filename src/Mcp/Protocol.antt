-- ===== src/Mcp/Protocol.antt =====
-- ephemora_cell_mcp/protocol.py: what a line is taken for and the shapes of the replies. A line is given
-- by whether it is blank and by what `json.loads` makes of it.
use ephemora_cell.Common.{
  ℕ, ◌-◌, String, Bool, true, false, not, ◌&&◌, ◌||◌, Option, none, some, text_key, if◌then◌else◌,
}
use ephemora_cell.Common.Int.{negsuc}
use ephemora_cell.Common.Json.{Json, nil, cons, Fields, end, field, get, has, is_text}

-- What `json.loads` comes to: a value, a `ValueError`, or another exception, such as a line that is
-- nested too deep.
pub data Loaded : Type 0 where
  loaded : Json → Loaded
  value_error other_error : Loaded

-- What `parse_line` returns or raises.
pub data Parsed : Type 0 where
  blank malformed invalid crashed : Parsed
  message : Fields → Parsed

-- `isinstance(id_value, …)`, with the check that the number is finite
abbrev pub id_allowed : Json → Bool
id_allowed Json.null = true
id_allowed (Json.str s) = true
id_allowed (Json.num n) = true
id_allowed (Json.float n exact) = true
id_allowed _ = false

unfoldable pub parse_object : Fields → Parsed
parse_object d =
    if not (is_text "2.0" (get "jsonrpc" d))
    then invalid
    else if has "id" d && not (id_allowed (get "id" d))
    then invalid
    else message d

-- `parse_line`
unfoldable pub parse_line : Bool → Loaded → Parsed
parse_line true line = blank
parse_line false value_error = malformed
parse_line false other_error = crashed
parse_line false (loaded (Json.obj d)) = parse_object d
parse_line false (loaded v) = invalid

abbrev pub is_notification : Fields → Bool
is_notification d = not (has "id" d)

-- `make_result`
abbrev pub make_result : Fields → Json → Fields
make_result request result =
    field "jsonrpc" (Json.str "2.0") (field "id" (get "id" request) (field "result" result end))

-- An integer below zero.
abbrev pub minus : ℕ → Json
minus n = Json.num (negsuc (n - 1))

-- The codes of JSON-RPC, and that of an unsupported version.
pub data Code : Type 0 where
  parse_error invalid_request method_not_found invalid_params internal_error : Code
  unsupported_protocol_version : Code

abbrev pub code_number : Code → Json
code_number parse_error = minus 32700
code_number invalid_request = minus 32600
code_number method_not_found = minus 32601
code_number invalid_params = minus 32602
code_number internal_error = minus 32603
code_number unsupported_protocol_version = minus 32022

abbrev pub with_data : Option Json → Fields
with_data none = end
with_data (some v) = field "data" v end

-- `make_error`; the id of an error without a request is `null`.
abbrev pub make_error : Option Fields → Code → String → Option Json → Fields
make_error request code text data' = field "jsonrpc" (Json.str "2.0") (
    field "id" (id_of request) (
      field "error"
        (Json.obj
          (field "code" (code_number code) (field "message" (Json.str text) (with_data data'))))
        end))
  where
    id_of : Option Fields → Json
    id_of none = Json.null
    id_of (some d) = get "id" d

abbrev pub modern_version : String
modern_version = "2026-07-28"

-- `LEGACY_PROTOCOL_VERSIONS`
abbrev pub is_legacy : Json → Bool
is_legacy v = is_text "2025-06-18" v || is_text "2025-03-26" v || is_text "2024-11-05" v

-- `SUPPORTED_PROTOCOL_VERSIONS`
abbrev pub is_supported : Json → Bool
is_supported v = is_text modern_version v || is_legacy v

abbrev pub supported_versions : Json
supported_versions = Json.arr (
    cons (Json.str "2026-07-28") (
      cons (Json.str "2025-06-18")
        (cons (Json.str "2025-03-26") (cons (Json.str "2024-11-05") nil))))
