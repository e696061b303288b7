-- ===== src/Tests/Bridges.antt =====
-- The desktop's end of the MCP websocket.
use chat_x.Prelude.{
  ◌≡◌, refl, true, false, none, some, all, List, [], ◌∷◌, ◌++◌, Str, codes, All, map, arith,
  str_beq, ◌≤◌, length,
}
use chat_x.Text.{is_ascii_hexdigit, starts_with}
use chat_x.Protocol.Control.{ControlKind}
use chat_x.Protocol.Http.{allowed_path, allowed_request_header}
use chat_x.Protocol.Stream.{response_body, max_inflight, max_request_bytes}
use chat_x.Relay.Gateway.Body.Uploads.{Carries, concat}
use chat_x.Desktop.Wss.{
  WssPacket, head, end, binary, Wss, opened_wss, taken, full, enqueue_upload, WssEvent, text, frame,
  task_ends, wss_run,
}
use chat_x.Desktop.Wss.Taken.{wss_run-taken}
use chat_x.Desktop.Wss.Taken.Counted.{bytes_taken}
use chat_x.Desktop.Wss.Isolation.{Spares, enqueue_upload-Spares}
use chat_x.Desktop.Wss.Local.{
  Url, LocalCall, streamed, LocalResponse, responds, Libraries, is_method, local_call,
  local_request, response_headers, is_target, is_local, body_of, local_headers,
}
use chat_x.Desktop.Wss.Local.Bridge.{IsAllowed, local_call-local}
use chat_x.Desktop.Wss.Local.Frames.{local_request-Carries}

abbrev id : Str
id = codes "0123456789abcdef0123456789abcdef"

abbrev asked : WssPacket
asked = record {
  kind = some ControlKind.request;
  request_id = some id;
  has_session_id = false;
  is_version_two = false;
  is_binary = true;
  method = some (codes "POST");
  path = some (codes "/mcp");
  body_base64 = none;
  headers = (codes "accept", some (codes "*")) ∷ (codes "cookie", some (codes "c")) ∷ [];
}

abbrev acknowledged : WssPacket
acknowledged = record asked {
  kind = some ControlKind.hello_ack;
  has_session_id = true;
  is_version_two = true;
}

-- A frame of the request's upload, with one byte.
abbrev upload_frame : Str
upload_frame =
    1 ∷ 1 ∷ 35 ∷ 69 ∷ 103 ∷ 137 ∷ 171 ∷ 205 ∷ 239 ∷ 1 ∷ 35 ∷ 69 ∷ 103 ∷ 137 ∷ 171 ∷ 205 ∷ 239 ∷ 120
    ∷ []

abbrev wss_events : List WssEvent
wss_events =
    text true (some acknowledged)
    ∷ text true (some asked)
    ∷ frame taken upload_frame
    ∷ task_ends 0
    ∷ []

wss_run-taken_example :
    (length (wss_run wss_events opened_wss).0.running ≤ max_inflight)
    × (bytes_taken 0 (wss_run wss_events opened_wss).0.fed ≤ max_request_bytes)
wss_run-taken_example = wss_run-taken wss_events 0

abbrev uploading : Wss
uploading = record opened_wss {
  version = 2;
  accepted = true;
  uploads = (id, record { tx = 0; bytes = 0 }) ∷ (codes "b", record { tx = 1; bytes = 0 }) ∷ [];
  jobs = (id, 0) ∷ (codes "b", 1) ∷ [];
  running = 1 ∷ 0 ∷ [];
  next = 2;
}

enqueue_upload-Spares_example :
    Spares id (codes "slow") uploading (enqueue_upload full id (codes "slow") uploading) (codes "b")
enqueue_upload-Spares_example =
    enqueue_upload-Spares id (codes "b") (λ e. ground (arith, e)) full (codes "slow") uploading

abbrev local_url : Url
local_url = record { host = some (codes "127.0.0.1"); port = some 8_080; path = codes "/mcp" }

abbrev libraries : Libraries
libraries = record {
  parse_url = λ port path. some local_url;
  header_name = λ name. some name;
  header_value = λ value. some value;
  base64_decode = λ s. some s;
  base64_encode = λ s. s;
}

abbrev local_answer : LocalCall → LocalResponse
local_answer call =
    responds 200 ((codes "content-type", some (codes "t")) ∷ [])
      (map some (codes "{" ∷ codes "}" ∷ []))

abbrev called : LocalCall
called = record {
  method = codes "POST";
  url = local_url;
  headers = (codes "accept", codes "*") ∷ [];
  body = streamed;
}

calls : local_call libraries 8_080 2 true id asked ≡ some called
unfolding local_call is_ascii_hexdigit is_target starts_with is_local str_beq allowed_path body_of
    is_method local_headers allowed_request_header
calls = refl

id_is_good : all is_ascii_hexdigit id ≡ true
unfolding is_ascii_hexdigit
id_is_good = refl

local_call-local_example :
    (is_method (codes "POST") ≡ true)
    × (local_url.host ≡ some (codes "127.0.0.1"))
    × (local_url.port ≡ some 8_080)
    × (allowed_path (codes "/mcp") ≡ true)
    × ((path : Str) × (some (codes "/mcp") ≡ some path) × (some local_url ≡ some local_url))
    × All (IsAllowed libraries asked.headers) ((codes "accept", codes "*") ∷ [])
local_call-local_example = local_call-local libraries 8_080 2 true id asked called calls

local_request-Carries_example :
    (frames pieces : List Str) × (local_request libraries local_answer 8_080 2 true asked
      ≡ head id 200 (response_headers libraries ((codes "content-type", some (codes "t")) ∷ []) [])
          ∷ map binary frames
        ++ end id ∷ [])
    × Carries response_body id frames pieces
    × (concat pieces ≡ codes "{}")
local_request-Carries_example =
    local_request-Carries libraries id id_is_good local_answer 8_080 true asked called 200
      ((codes "content-type", some (codes "t")) ∷ []) (codes "{" ∷ codes "}" ∷ []) refl calls refl
      (omega arith)
