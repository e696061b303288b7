-- ===== src/Desktop/Wss/Local.antt =====
-- src-tauri/src/https_mcp_wss.rs, `local_request`: a request of the relay to the local bridge, and the
-- packets of its response. The URL and header parsers and base64 are parameters.
pub mod Bridge
pub mod Frames
use chat_x.Prelude.{
  ℕ, ◌+◌, ◌*◌, ◌/◌, Dict, insert, Bool, true, false, not, ◌&&◌, ◌||◌, Option, none, some, List, [],
  ◌∷◌, ◌++◌, Str, codes, ◌==◌, str_eq, nat_beq, any, leb, ltb, if◌then◌else◌, length, map, take,
  saturating_add, Result, ok, err,
}
use chat_x.Text.{starts_with}
use chat_x.Protocol.Http.{
  allowed_path, allowed_request_header, allowed_response_header, legacy_max_request_bytes,
  legacy_max_response_bytes,
}
use chat_x.Protocol.Stream.{response_body, max_response_bytes, max_frame_body}
use chat_x.Relay.Gateway.Body.{chunks, encode_pieces}
use chat_x.Desktop.Wss.{WssPacket, Outgoing, head, chunk, end, error, binary, is_request_id}

-- `reqwest::Url`, where `host_str`, `port` and `path` read it.
pub record Url : Type 0 where
  pub host : Option Str
  pub port : Option ℕ
  pub path : Str

pub data LocalBody : Type 0 where
  streamed : LocalBody
  whole : Str → LocalBody

pub record LocalCall : Type 0 where
  pub method : Str
  pub url : Url
  pub headers : List (Str × Str)
  pub body : LocalBody

-- What the local bridge gives: a piece of the body that is `none` is an error of the stream.
pub data LocalResponse : Type 0 where
  unreachable : LocalResponse
  responds : ℕ → List (Str × Option Str) → List (Option Str) → LocalResponse

pub record Libraries : Type 0 where
  pub parse_url : ℕ → Str → Option Url
  pub header_name : Str → Option Str
  pub header_value : Str → Option Str
  pub base64_decode : Str → Option Str
  pub base64_encode : Str → Str

unfoldable pub is_method : Str → Bool
is_method method =
    any (λ m. method == m)
      (codes "GET" ∷ codes "POST" ∷ codes "DELETE" ∷ codes "HEAD" ∷ codes "OPTIONS" ∷ [])

unfoldable pub is_target : Str → Bool
is_target path =
    starts_with (codes "/") path
    && (not (starts_with (codes "//") path)
        && not (any (λ b. nat_beq b b'\\' || nat_beq b b'#') path))

abbrev is_text : Option Str → Str → Bool
is_text none t = false
is_text (some s) t = s == t

abbrev is_number : Option ℕ → ℕ → Bool
is_number none m = false
is_number (some n) m = nat_beq n m

unfoldable pub is_local : ℕ → Url → Bool
is_local local_port url =
    is_text url.host (codes "127.0.0.1") && (is_number url.port local_port && allowed_path url.path)

module _ (lib : Libraries) where
  add_header : Option Str → Option Str → List (Str × Str) → List (Str × Str)
  add_header (some name) (some value) rest = (name, value) ∷ rest
  add_header (some name) none rest = rest
  add_header none value rest = rest

  -- The headers that are passed on.
  unfoldable pub local_headers : List (Str × Option Str) → List (Str × Str)
  unfolding add_header
  local_headers [] = []
  local_headers ((name, none) ∷ headers) = local_headers headers
  local_headers ((name, some value) ∷ headers) =
      let rest = local_headers headers in
      if allowed_request_header name
      then add_header (lib.header_name name) (lib.header_value value) rest
      else rest

  base64_body : Option Str → Option LocalBody
  base64_body none = none
  base64_body (some encoded) =
      if ltb (legacy_max_request_bytes * 4 / 3 + 8) (length encoded)
      then none
      else elim (lib.base64_decode encoded) [
        | none ↦ none
        | some body ↦ if ltb legacy_max_request_bytes (length body) then none else some (whole body)
      ]

  -- `version` is that of the session, and `has_upload` whether a channel was made for the body.
  unfoldable pub body_of : ℕ → Bool → WssPacket → Option LocalBody
  unfolding base64_body
  body_of version has_upload packet =
      if nat_beq version 2
      then (if has_upload && packet.is_binary then some streamed else none)
      else base64_body packet.body_base64

  target_of : ℕ → Option Str → Option Url
  target_of local_port none = none
  target_of local_port (some path) =
      if is_target path
      then elim (lib.parse_url local_port path) [
        | none ↦ none
        | some url ↦ if is_local local_port url then some url else none
      ]
      else none

  call_with : Option Str → Option Url → Option LocalBody → WssPacket → Option LocalCall
  call_with none url body packet = none
  call_with (some method) none body packet = none
  call_with (some method) (some url) none packet = none
  call_with (some method) (some url) (some body) packet =
      if is_method method
      then some (record {
        method = method;
        url = url;
        headers = local_headers packet.headers;
        body = body;
      })
      else none

  -- The call of the local bridge, or `none` where the request is refused.
  unfoldable pub local_call : ℕ → ℕ → Bool → Str → WssPacket → Option LocalCall
  unfolding target_of call_with
  local_call local_port version has_upload id packet =
      if is_request_id id
      then call_with packet.method (target_of local_port packet.path)
          (body_of version has_upload packet) packet
      else none

  -- The headers of the response, of which the later of one name stays; a value that is no visible ASCII
  -- is `none`.
  unfoldable pub response_headers : List (Str × Option Str) → Dict Str Str → Dict Str Str
  response_headers [] kept = kept
  response_headers ((name, none) ∷ headers) kept = response_headers headers kept
  response_headers ((name, some value) ∷ headers) kept =
      let with_it = response_headers headers (insert name value kept) in
      let without_it = response_headers headers kept in
      if allowed_response_header name then with_it else without_it

  -- The packets of a piece of the body, and whether each could be made.
  unfoldable pub pieces_of : ℕ → Str → Str → List Outgoing × Bool
  pieces_of version id data_ =
      let pieces = chunks max_frame_body data_ in
      if nat_beq version 2
      then (
        map binary (encode_pieces response_body id pieces).0,
        (encode_pieces response_body id pieces).1,
      )
      else (map (λ piece. chunk id (lib.base64_encode piece)) pieces, true)

  abbrev response_limit : ℕ → ℕ
  response_limit version =
      if nat_beq version 2 then max_response_bytes else legacy_max_response_bytes

  goes_on : List Outgoing × Bool → List Outgoing × Bool → List Outgoing × Bool
  goes_on (sent, false) rest = (sent, false)
  goes_on (sent, true) (more, whole_) = (sent ++ more, whole_)

  -- The loop over the response's body, and whether it came to the body's end.
  unfoldable pub body_loop : ℕ → Str → ℕ → List (Option Str) → List Outgoing × Bool
  unfolding goes_on
  body_loop version id sent [] = ([], true)
  body_loop version id sent (none ∷ more) = ([], false)
  body_loop version id sent (some data_ ∷ more) =
      let sent' = saturating_add sent (length data_) in
      let rest = body_loop version id sent' more in
      if ltb (response_limit version) sent'
      then ([], false)
      else goes_on (pieces_of version id data_) rest

  closing_packet : Str → Bool → Outgoing
  closing_packet id true = end id
  closing_packet id false = error id

  unfoldable pub respond : ℕ → Str → LocalResponse → List Outgoing
  unfolding closing_packet
  respond version id unreachable = error id ∷ []
  respond version id (responds status headers body) =
      let passed = body_loop version id 0 body in
      head id status (response_headers headers []) ∷ passed.0 ++ closing_packet id passed.1 ∷ []

  answer_with : (LocalCall → LocalResponse) → ℕ → Str → Option LocalCall → List Outgoing
  answer_with bridge version id none = error id ∷ []
  answer_with bridge version id (some call) = respond version id (bridge call)

  with_id : (LocalCall → LocalResponse) → ℕ → ℕ → Bool → WssPacket → Option Str → List Outgoing
  unfolding answer_with
  with_id bridge local_port version has_upload packet none = []
  with_id bridge local_port version has_upload packet (some id) =
      answer_with bridge version id (local_call local_port version has_upload id packet)

  -- `local_request`, the packets in the order in which it sends them; `bridge` is the local bridge's
  -- answer to a call, which the client's time-out bounds: one that never comes is `unreachable`, and a body
  -- that stalls an error of the stream.
  unfoldable pub local_request :
      (LocalCall → LocalResponse) → ℕ → ℕ → Bool → WssPacket → List Outgoing
  unfolding with_id
  local_request bridge local_port version has_upload packet =
      with_id bridge local_port version has_upload packet packet.request_id

-- What the session's queue takes of a request's packets: the first `k`, where the queue closes or the task
-- is aborted after them. A packet that is not taken ends the task, and its error is not taken either.
unfoldable pub queued : ℕ → List Outgoing → List Outgoing
queued k packets = take k packets
