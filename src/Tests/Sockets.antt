-- ===== src/Tests/Sockets.antt =====
-- The websockets of desktops and phones: control requests, revocations and snapshots.
use chat_x.Prelude.{
  ℕ, ◌≡◌, refl, none, some, true, Str, codes, Result, ok, err, List, [], ◌∷◌, get, arith, str_beq,
  pair_beq, triple_beq, str_eq, pair_eq, triple_eq, ControlRouteKey, insert, remove, retain, ◌⊎◌,
}
use chat_x.Protocol.Messages.{
  EncryptedControlPayload, EncryptedSnapshot, DeviceServerMessage, device_control,
  device_capabilities,
}
use chat_x.Relay.Registry.{hash_matches, token_hash, constant_time_hex_eq}
use chat_x.Relay.State.{AppState, route_supports_control, load, desktop_authorized}
use chat_x.Relay.Reply.{Refusal, bearer, revoked}
use chat_x.Relay.Grants.{check_revoke, revoke_device, check_desktop}
use chat_x.Relay.Snapshots.Order.{Publication}
use chat_x.Relay.Control.{
  begin_control, complete_control, waits, valid_control_id, valid_control_time, rate_limit,
}
use chat_x.Relay.Control.Interval.{Meanwhile, requests, run_meanwhile, begin_control-interval}
use chat_x.Relay.Control.Channels.Runs.{
  ControlEvent, begins, completes, elsewhere, control_run, control_after, control_run-addressee,
}
use chat_x.Relay.Presence.{open_online, open_channel, open_session, presence_channels}
use chat_x.Relay.DeviceSocket.{DeviceEvent, DeviceEffect, incoming, device_loop, last}
use chat_x.Relay.DeviceSocket.Sessions.{revoke_device-device_loop}
use chat_x.Tests.Fixtures.{digest, desktop_id, device_id, bearer_of, relay, online, desktop_record}
use chat_x.Text.{starts_with, is_ascii_hexdigit, trim, trim_end, trim_start, strip_prefix}
use chat_x.Text.Hex.{hex_digit, to_hex}

abbrev request : EncryptedControlPayload
request = record {
  request_id = codes "c_0123456789abcdef";
  issued_at = 1_000;
  expires_at = 2_000;
  nonce = codes "n";
  ciphertext = codes "x";
}

abbrev given_answer : Result Str EncryptedControlPayload
given_answer = ok request

abbrev asked : AppState
asked = (begin_control 1_000 true online desktop_id device_id request).0

request_waits :
    (begin_control 1_000 true online desktop_id device_id request).1
    ≡ waits 1 (device_control device_id request)
unfolding begin_control valid_control_id starts_with is_ascii_hexdigit valid_control_time rate_limit
    get retain open_session open_channel open_online load insert str_beq route_supports_control
    device_capabilities
request_waits = refl

-- Another device's request is answered, and the rest of the state changes.
abbrev meanwhile : List ControlEvent
meanwhile =
    begins 1_000 true desktop_id (codes "d_2") request
    ∷ completes desktop_id (codes "d_2") (codes "c_0123456789abcdef") (err (codes "no"))
    ∷ elsewhere relay
    ∷ []

abbrev later_on : AppState
later_on =
    control_run (begin_control 1_000 true (control_run online []) desktop_id device_id request).0
      meanwhile

first_waits :
    (begin_control 1_000 true (control_run online []) desktop_id device_id request).1
    ≡ waits 1 (device_control device_id request)
unfolding control_run
first_waits = request_waits

answer_arrives :
    (complete_control later_on desktop_id device_id (codes "c_0123456789abcdef") given_answer).1
    ≡ some (1, given_answer)
unfolding complete_control get begin_control valid_control_id starts_with is_ascii_hexdigit
    valid_control_time rate_limit retain open_session open_channel open_online load insert str_beq
    route_supports_control device_capabilities remove pair_beq triple_beq presence_channels
    token_hash hex_digit to_hex trim trim_end trim_start control_run control_after
answer_arrives = refl

control_run-addressee_example :
    (◌≡◌ {A = ControlRouteKey}
      (desktop_id, device_id, codes "c_0123456789abcdef")
      (desktop_id, device_id, request.request_id))
    × (given_answer ≡ given_answer)
unfolding get open_session open_channel open_online load
control_run-addressee_example =
    control_run-addressee online [] meanwhile 1_000 true desktop_id device_id request 1
      (device_control device_id request) desktop_id device_id (codes "c_0123456789abcdef")
      given_answer given_answer refl first_waits answer_arrives

-- A request of another device, and of the same one, in between.
abbrev between : List Meanwhile
between =
    requests 1_200 true desktop_id (codes "tablet") request
    ∷ requests 1_300 true desktop_id device_id request
    ∷ []

begin_control-interval_example :
    ¬ (begin_control 1_400 true (run_meanwhile asked between) desktop_id device_id request).1
    ≡ waits 2 (device_control device_id request)
begin_control-interval_example =
    begin_control-interval 1_000 1_400 true true online desktop_id device_id request request 1 2
      (device_control device_id request) (device_control device_id request) between request_waits
      (omega arith, (omega arith, tt)) (omega arith)

abbrev key : ControlRouteKey
key = (desktop_id, device_id, codes "r_00")

abbrev snapshot_of : ℕ → EncryptedSnapshot
snapshot_of n = record {
  session_id = codes "s1";
  sequence = n;
  generated_at = 7;
  nonce = codes "n";
  ciphertext = codes "x";
}

-- The second is a replay of the first.
abbrev publications : List Publication
publications =
    (10, desktop_id, device_id, snapshot_of 1)
    ∷ (11, desktop_id, device_id, snapshot_of 1)
    ∷ (12, desktop_id, device_id, snapshot_of 2)
    ∷ []

abbrev text_of : Refusal → Str
text_of e = codes "refused"

revocation_passes :
    check_revoke digest online desktop_id (bearer_of (codes "k")) ≡ ok desktop_record
unfolding check_revoke check_desktop bearer strip_prefix trim desktop_authorized get open_session
    open_channel open_online load str_beq hash_matches constant_time_hex_eq token_hash to_hex
revocation_passes = refl

abbrev revoked_relay : AppState
revoked_relay = (revoke_device digest true online desktop_id device_id (bearer_of (codes "k"))).0

-- The socket was waiting when the revocation was saved.
abbrev waiting_rounds : List (AppState × ℕ × AppState × DeviceEvent)
waiting_rounds =
    (online, 9, revoked_relay, incoming true none none)
    ∷ (revoked_relay, 10, revoked_relay, incoming true none none)
    ∷ []

revoke_device-device_loop_example :
    (device_loop text_of desktop_id device_id
        ((revoked_relay, 10, revoked_relay, incoming true none none) ∷ [])
      ≡ last (DeviceServerMessage.revoked device_id) ∷ [])
    × ((effect : DeviceEffect) × ((device_loop text_of desktop_id device_id waiting_rounds
            ≡ effect ∷ [])
          ⊎ (device_loop text_of desktop_id device_id waiting_rounds
              ≡ effect ∷ last (DeviceServerMessage.revoked device_id) ∷ [])))
revoke_device-device_loop_example =
    revoke_device-device_loop digest text_of online online revoked_relay revoked_relay revoked_relay
      9 10 desktop_id device_id (bearer_of (codes "k")) desktop_record (incoming true none none)
      (incoming true none none) [] revocation_passes refl
