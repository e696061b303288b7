-- ===== src/Tests/Servers.antt =====
-- The desktop's server for its phones: addresses, heads, routes and sockets.
use chat_x.Prelude.{
  ℕ, ◌≡◌, ◌≢◌, refl, true, false, Option, none, some, [], ◌∷◌, Str, codes, Dict, ok, err, insert,
  arith, str_eq, ◌==◌, str_beq, get,
}
use chat_x.Protocol.Messages.{DeviceWsMessage, protocol_version}
use chat_x.Desktop.Monitor.{MonitorState, saved}
use chat_x.Desktop.Server.Query.{
  parse_query, split_once, parts_loop, percent_decode, decode_loop, route_of,
}
use chat_x.Desktop.Server.Query.Encoded.{address_of, parse_query-address_of}
use chat_x.Desktop.Server.Http.{HttpRequestHead, bytes, waits, read_http_request_head}
use chat_x.Desktop.Server.Http.Limits.{read_http_request_head-ends}
use chat_x.Desktop.Server.Requests.{
  MonitorHandlers, handle_https_request, parameter_of, select, authorize,
}
use chat_x.Desktop.Server.Requests.Access.{handle_https_request-served, is_served}
use chat_x.Desktop.Server.Socket.{Session, Round, Frame, quiet, pong, text, round, rounds}
use chat_x.Desktop.Server.Socket.Order.{numbers, count_from}
use chat_x.Desktop.Server.Socket.Numbered.{handle_monitor_socket-FromOne}
use chat_x.Desktop.Server.Socket.Ends.{rounds-idle, is_activity}
use chat_x.Desktop.Server.Socket.Whole.{Encounter, handle_monitor_socket}
use chat_x.Desktop.Server.Revoked.{desktop_handlers, revoke_monitor_device_local-round}
use chat_x.Text.Utf8.{from_utf8_lossy}
use chat_x.Tests.Fixtures.{digest}
use chat_x.Tests.Monitors.{paired, revoked, revokes, phone_id}
use chat_x.Text.{split}

-- The letter é, of two bytes.
abbrev accent : Str
accent = 195 ∷ 169 ∷ []

desktop_text : from_utf8_lossy (codes "d &1") ≡ codes "d &1"
unfolding from_utf8_lossy
desktop_text = refl

device_text : from_utf8_lossy accent ≡ accent
unfolding from_utf8_lossy
device_text = refl

parse_query-address_of_example :
    parse_query (address_of (codes "/v1/monitor/ws") (codes "d &1") accent)
    ≡ some (insert (codes "deviceId") accent (insert (codes "desktopId") (codes "d &1") []))
parse_query-address_of_example =
    parse_query-address_of (codes "/v1/monitor/ws") (codes "d &1") accent refl
      ((omega arith, (omega arith, (omega arith, (omega arith, tt)))), desktop_text)
      ((omega arith, (omega arith, tt)), device_text)

read_http_request_head-ends_example :
    read_http_request_head ((0, bytes (codes "GET /")) ∷ (200, waits) ∷ (5_200, waits) ∷ []) ≢ none
read_http_request_head-ends_example =
    read_http_request_head-ends ((0, bytes (codes "GET /")) ∷ (200, waits) ∷ (5_200, waits) ∷ [])
      refl

-- Handlers that take the token `t` and give empty snapshots.
abbrev handlers : MonitorHandlers (Unit {0})
handlers = record {
  auth_checker = λ device token w. (w, token == codes "t");
  pair_handler = λ message w. (w, err (codes "closed"));
  revoke_handler = λ device w. (w, ok tt);
  control_handler = λ device request w. (w, ok request);
  snapshot_provider = λ device session n w. (
    w,
    ok (record {
      session_id = session;
      sequence = n;
      generated_at = 1_000;
      nonce = codes "n";
      ciphertext = codes "x";
    }),
  );
}

abbrev request : HttpRequestHead
request = record {
  method = codes "GET";
  path = codes "/v1/monitor/snapshot?desktopId=d&deviceId=p";
  bearer_token = some (codes "t");
  websocket_upgrade = false;
}

abbrev random : Option Str
random = some (codes "000102030405060708090a0b0c0d0e0f")

is_served_here :
    is_served (handle_https_request handlers 1_000 random (codes "d") request tt).1 ≡ true
unfolding handle_https_request is_served parse_query split_once parts_loop split percent_decode
    decode_loop select str_beq route_of authorize get insert from_utf8_lossy
is_served_here = refl

handle_https_request-served_example :
    (q : Dict Str Str) × (parse_query (codes "/v1/monitor/snapshot?desktopId=d&deviceId=p")
      ≡ some q)
    × (parameter_of (codes "desktopId") q ≡ codes "d")
    × ((handlers.auth_checker (parameter_of (codes "deviceId") q) (codes "t") tt).1 ≡ true)
    × (codes "t" ≢ [])
    × (parameter_of (codes "deviceId") q ≢ [])
handle_https_request-served_example =
    handle_https_request-served handlers 1_000 random (codes "d") request tt is_served_here

abbrev round_at : ℕ → Frame DeviceWsMessage → Round
round_at now frame = record {
  now = now;
  pushed_at = now;
  pinged_at = now;
  read_at = now;
  clock = now;
  snapshot_sent = true;
  ping_sent = true;
  reply_sent = true;
  frame = frame;
}

abbrev encounter : Encounter
encounter = record {
  hello_frames =
      (0, true, text 90 (some (DeviceWsMessage.hello protocol_version (codes "d") (codes "p"))))
      ∷ [];
  random = random;
  started = 1_000;
  clock = 1_000;
  error_sent = true;
  ack_sent = true;
  snapshot_sent = true;
  rounds_met = round_at 2_000 quiet ∷ round_at 12_000 pong ∷ round_at 23_000 quiet ∷ [];
}

abbrev query : Dict Str Str
query = (codes "desktopId", codes "d") ∷ (codes "deviceId", codes "p") ∷ []

handle_monitor_socket-FromOne_example :
    (k : ℕ) × (numbers (handle_monitor_socket handlers (codes "d") query (codes "t") encounter tt).1
      ≡ count_from 1 k)
handle_monitor_socket-FromOne_example =
    handle_monitor_socket-FromOne handlers (codes "d") (codes "t") query encounter tt
      (λ d i n w x e. ground arith) (omega arith)

abbrev session : Session (Unit {0})
session = record {
  world = tt;
  sequence = 1;
  last_activity = 1_000;
  last_snapshot = 1_000;
  last_ping = 1_000;
}

rounds-idle_example :
    (rounds handlers
      (codes "p")
      (codes "t")
      (codes "s_1")
      (round_at 40_000 quiet ∷ round_at 46_001 quiet ∷ [])
      session).2
    ≢ none
unfolding is_activity
rounds-idle_example =
    rounds-idle handlers (codes "p") (codes "t") (codes "s_1")
      (round_at 40_000 quiet ∷ round_at 46_001 quiet ∷ []) session refl refl

abbrev other_handlers : MonitorHandlers MonitorState
other_handlers = record {
  auth_checker = λ device token w. (w, true);
  pair_handler = λ message w. (w, err (codes "closed"));
  revoke_handler = λ device w. (w, ok tt);
  control_handler = λ device request w. (w, ok request);
  snapshot_provider = λ device session n w. (w, err (codes "none"));
}

abbrev connected : Session MonitorState
connected = record {
  world = revoked;
  sequence = 1;
  last_activity = 1_000;
  last_snapshot = 1_000;
  last_ping = 1_000;
}

revoke_monitor_device_local-round_example :
    ((round
        (desktop_handlers digest saved 12_000 other_handlers)
        phone_id
        (codes "m")
        (codes "s_1")
        (round_at 12_000 quiet)
        connected).2
      ≢ none)
    × (numbers
          (round
            (desktop_handlers digest saved 12_000 other_handlers)
            phone_id
            (codes "m")
            (codes "s_1")
            (round_at 12_000 quiet)
            connected).1
        ≡ [])
revoke_monitor_device_local-round_example =
    revoke_monitor_device_local-round digest saved 12_000 other_handlers phone_id (codes "m")
      (codes "s_1") paired true (round_at 12_000 quiet) connected revokes
