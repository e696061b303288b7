-- ===== src/Tests/Gateways.antt =====
-- The MCP gateway.
use chat_x.Prelude.{
  str_eq, ◌≡◌, ◌≢◌, refl, Option, none, some, true, false, Str, codes, ok, List, [], ◌∷◌, get,
  arith, str_beq, is_some, insert, retain,
}
use chat_x.Protocol.Stream.{request_body}
use chat_x.Protocol.Http.{allowed_path, allowed_response_header}
use chat_x.Text.{is_ascii_hexdigit}
use chat_x.Relay.State.{includes, load}
use chat_x.Relay.Registry.{DesktopRecord}
use chat_x.Relay.Gateway.{recheck, disconnect, fail_session}
use chat_x.Relay.Gateway.Packets.{Packet, Reply, receive, reply_of}
use chat_x.Relay.Gateway.Requests.{check_request, allowed_method}
use chat_x.Relay.Gateway.Body.{dropped, read_body, stream_upload, sent_end}
use chat_x.Relay.Gateway.Body.Uploads.{Carries, concat, stream_upload-Carries}
use chat_x.Relay.Gateway.Streams.{
  GatewayEvent, receives, disconnects, gateway_run, held, gateway_step,
}
use chat_x.Relay.Gateway.Whole.{replies_to, waits_of, gateway_run-read_body}
use chat_x.Relay.Gateway.Admission.{check_request-ok}
use chat_x.Tests.Fixtures.{request_id, active, gateway, serving, packet_of, public_call}
use chat_x.Protocol.Control.{parse}

abbrev base64 : Str → Option Str
base64 s = some s

abbrev base64_of : Str → Str
base64_of s = s

abbrev head_packet : Packet
head_packet = packet_of (codes "head") (some 200) none

abbrev chunk_packet : Packet
chunk_packet = packet_of (codes "chunk") none (some (codes "ab"))

-- The desktop answers, and its session breaks off.
abbrev cut_off : List GatewayEvent
cut_off =
    receives true (codes "g1") 1 (some head_packet) none
    ∷ receives true (codes "g1") 1 (some chunk_packet) none
    ∷ disconnects (codes "g1")
    ∷ []

abbrev answer_head : List (Str × Str)
answer_head = (codes "content-type", codes "text/plain") ∷ []

waits_first : held request_id gateway ≡ true
unfolding get str_beq
waits_first = refl

waits_no_more :
    is_some (get request_id (gateway_run base64 base64_of gateway cut_off).0.pending) ≡ false
unfolding get gateway_run gateway_step disconnect fail_session retain receive is_ascii_hexdigit
    str_beq reply_of parse insert
waits_no_more = refl

queue_of_it :
    replies_to request_id (gateway_run base64 base64_of gateway cut_off).1
    ≡ Reply.head 200 answer_head ∷ Reply.chunk (codes "ab") ∷ []
unfolding gateway_run gateway_step receive is_ascii_hexdigit get str_beq reply_of parse
    allowed_response_header insert
queue_of_it = refl

gateway_run-read_body_example :
    (read_body (
      waits_of
        (Reply.chunk (codes "ab") ∷ [])
        (includes request_id (gateway_run base64 base64_of gateway cut_off).0.errored))).1
    ≢ dropped
gateway_run-read_body_example =
    gateway_run-read_body base64 base64_of cut_off request_id gateway 200 answer_head
      (Reply.chunk (codes "ab") ∷ []) (tt, (tt, (tt, tt))) waits_first waits_no_more queue_of_it

stream_upload-Carries_example :
    ((stream_upload 0 request_id (some (codes "{") ∷ some (codes "}") ∷ [])).1 ≡ sent_end)
    × ((pieces : List Str) × Carries request_body request_id
          (stream_upload 0 request_id (some (codes "{") ∷ some (codes "}") ∷ [])).0
          pieces
        × (concat pieces ≡ codes "{}"))
unfolding is_ascii_hexdigit
stream_upload-Carries_example =
    stream_upload-Carries request_id refl refl (codes "{" ∷ codes "}" ∷ []) 0 (omega arith)

request_passes : check_request serving public_call ≡ (serving, ok active)
unfolding check_request allowed_path str_beq allowed_method recheck get load
request_passes = refl

check_request-ok_example :
    (serving ≡ serving)
    × (allowed_path (codes "/mcp") ≡ true)
    × (allowed_method public_call.method ≡ true)
    × (serving.mcp_gateway.active ≡ some active)
    × ((id : Str) × (desktop : DesktopRecord) × (serving.mcp_gateway.desktop_id ≡ some id)
        × (get id serving.registry.desktops ≡ some desktop)
        × (desktop.token_hash ≡ active.credential_hash))
check_request-ok_example = check_request-ok serving serving public_call active request_passes
