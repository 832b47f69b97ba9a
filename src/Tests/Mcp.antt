-- ===== src/Tests/Mcp.antt =====
-- The MCP server at concrete inputs: a line that comes in pieces, and a call before and after the
-- handshake.
use ephemora_cell.Common.{
  ◌≡◌, ◌<◌, refl, String, true, false, [], ◌∷◌, some, map, arith, length, ok, ◌==◌, text_key,
}
use ephemora_cell.Common.Int.{pos}
use ephemora_cell.Common.Decimal.{codes}
use ephemora_cell.Common.Texts.{lines}
use ephemora_cell.Common.Json.{Json, Fields, end, field, nil, get, text?}
use ephemora_cell.Mcp.Transport.{
  Reader, refused, delivered, read_all, readline_capped, discard, cut,
}
use ephemora_cell.Mcp.Transport.Chunks.{answered, pending, read_all-lines}
use ephemora_cell.Mcp.Server.{
  Backend, handle_message, handle_request, dispatch, handler, handle_tools_call, handle_initialize,
  request_is_stateless, check_request_version,
}
use ephemora_cell.Mcp.Server.Replies.{Replied, handle_message-Replied}
use ephemora_cell.Mcp.Server.Sessions.{session, session_complete, session-runs}

abbrev reader : Reader
reader = record { carry = codes "ab"; chunks = codes "c\nlong" ∷ codes "er\nx" ∷ codes "y" ∷ [] }

reader-lines : lines (pending reader) ≡ codes "abc\n" ∷ codes "longer\n" ∷ codes "xy" ∷ []
unfolding lines
reader-lines = refl

reader_reads :
    read_all 9 4 reader ≡ delivered (codes "abc\n") ∷ refused ∷ delivered (codes "xy") ∷ []
unfolding read_all readline_capped discard cut
reader_reads = refl

few_lines : length (lines (pending reader)) < 9
unfolding lines
few_lines = omega arith

read_all-lines_example : read_all 9 4 reader ≡ map (answered 4) (lines (pending reader))
read_all-lines_example = read_all-lines 9 4 reader few_lines

abbrev backend : Backend
backend = record {
  governed = false;
  server_version = "1.1.0";
  list_tools = Json.arr nil;
  knows = λ name. name == "echo";
  execute = λ name arguments. ok arguments;
  get_policy = λ arguments. ok (Json.obj end);
}

abbrev request : String → Json → Fields
request method params =
    field "jsonrpc" (Json.str "2.0")
      (field "id" (Json.num (pos 7)) (field "method" (Json.str method) (field "params" params end)))

abbrev call : Fields
call =
    request "tools/call"
      (Json.obj (field "name" (Json.str "echo") (field "arguments" (Json.str "hi") end)))

handle_message-Replied_example :
    (true ≡ true → Replied backend call (handle_message backend false call))
    × ((method : String)
        → text? (get "method" call) ≡ some method
        → true ≡ false
        → (handle_message backend false call).replies ≡ [])
handle_message-Replied_example = handle_message-Replied backend false call

session_complete_example :
    (session backend false (call ∷ request "initialize" Json.null ∷ call ∷ [])).complete ≡ true
session_complete_example =
    session_complete backend false (call ∷ request "initialize" Json.null ∷ call ∷ [])

-- Only the second call is run.
session_runs_once :
    (session backend false (call ∷ request "initialize" Json.null ∷ call ∷ [])).runs
    ≡ ("echo", Json.str "hi") ∷ []
unfolding session handle_message handle_request dispatch handler handle_tools_call handle_initialize
    request_is_stateless check_request_version
session_runs_once = refl

not_stateless : request_is_stateless call ≡ false
unfolding request_is_stateless
not_stateless = refl

session-runs_example : (session backend false (call ∷ call ∷ [])).runs ≡ []
session-runs_example =
    session-runs backend (call ∷ call ∷ []) refl (not_stateless, (not_stateless, tt))
