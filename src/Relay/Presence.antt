-- ===== src/Relay/Presence.antt =====
-- relay-server/src/desktop_session.rs: a desktop's websocket. Opening a session takes two locks one after
-- the other: `open_online` and `open_channel` are the two steps, `open_session` both without another
-- task between them. `remove_online_if_current` is its cleanup.
pub mod Sessions
pub mod Dispatch
use chat_x.Prelude.{
  ℕ, suc, ◌*◌, Bool, true, false, not, ◌||◌, Option, none, some, List, [], ◌∷◌, Str, Dict, get,
  insert, remove, RouteKey, ◌==◌, nat_beq, str_eq, if◌then◌else◌, Result, ok, err,
}
use chat_x.Text.{take_chars}
use chat_x.Protocol.Messages.{
  protocol_version, DesktopWsMessage, DesktopServerMessage, PairingServerMessage,
  DeviceServerMessage, EncryptedControlPayload,
}
use chat_x.Relay.State.{AppState, DesktopRoute, desktop_authorized}
use chat_x.Relay.Reply.{
  Refusal, missing_bearer, invalid_desktop_credential, ws_capacity, Response, failed, upgraded,
  bearer,
}
use chat_x.Relay.Snapshots.{cache_snapshot}
use chat_x.Relay.Control.{complete_control}
use chat_x.Relay.Revoke.{complete_revoke}

-- `desktop_ws`; `permit`: one of the semaphore's slots is free.
unfoldable pub desktop_ws : (Str → Str) → Bool → AppState → Str → Option Str → Response
desktop_ws digest permit s desktop_id authorization = elim (bearer authorization) [
  | none ↦ failed 401 missing_bearer
  | some token ↦
      if not (desktop_authorized digest s desktop_id token)
      then failed 401 invalid_desktop_credential
      else if not permit
      then failed 503 ws_capacity
      else upgraded
]

-- The channels that `broadcast_desktop_presence` sends to.
unfoldable pub presence_channels : Str → Dict RouteKey ℕ → List ℕ
presence_channels desktop_id [] = []
presence_channels desktop_id (((candidate, _), channel) ∷ channels) =
    let rest = presence_channels desktop_id channels in
    if candidate == desktop_id then channel ∷ rest else rest

-- Whether the first message opens a session.
unfoldable pub accepts_hello : Str → DesktopWsMessage → Bool
accepts_hello desktop_id (DesktopWsMessage.hello version hello_id _ _ _) =
    not (not (nat_beq version protocol_version) || not (hello_id == desktop_id))
accepts_hello desktop_id _ = false

unfoldable pub open_online : Str → Str → AppState → AppState
open_online desktop_id session_id s = record s {
  online_desktops = insert desktop_id session_id s.online_desktops;
}

unfoldable pub open_channel : Str → Str → List Str → AppState → AppState
open_channel desktop_id session_id capabilities s = record s {
  desktop_channels =
      insert desktop_id
        (record { session_id = session_id; sender = s.next_channel; capabilities = capabilities })
        s.desktop_channels;
  next_channel = suc s.next_channel;
}

unfoldable pub open_session : Str → Str → List Str → AppState → AppState × List ℕ
open_session desktop_id session_id capabilities s =
    let opened =
      open_channel desktop_id session_id capabilities (open_online desktop_id session_id s) in
    (opened, presence_channels desktop_id opened.device_channels)

is_session : Str → Option Str → Bool
is_session session_id none = false
is_session session_id (some current) = current == session_id

is_session_route : Str → Option DesktopRoute → Bool
is_session_route session_id none = false
is_session_route session_id (some route) = route.session_id == session_id

-- The state, and the channels that hear of the desktop going offline.
unfoldable pub remove_online_if_current : Str → Str → AppState → AppState × List ℕ
unfolding is_session is_session_route
remove_online_if_current desktop_id session_id s =
    if is_session session_id (get desktop_id s.online_desktops)
    then (
      record s {
        online_desktops = remove desktop_id s.online_desktops;
        desktop_channels =
            if is_session_route session_id (get desktop_id s.desktop_channels)
            then remove desktop_id s.desktop_channels
            else s.desktop_channels;
      },
      presence_channels desktop_id s.device_channels,
    )
    else (s, [])

-- What a message of the desktop makes the socket's task do besides changing the state. `routes` is the
-- device to which `route_snapshot` takes the message, once its task runs again.
pub data DesktopEffect : Type 0 where
  ends : DesktopEffect
  replies : DesktopServerMessage → DesktopEffect
  routes : Str → DeviceServerMessage → DesktopEffect
  answers_pairing : ℕ → PairingServerMessage → DesktopEffect
  answers_control : ℕ → Result Str EncryptedControlPayload → DesktopEffect
  answers_revoke : ℕ → Result Str (Unit {0}) → DesktopEffect
  silent : DesktopEffect

-- An error's text is cut at 240 characters.
abbrev max_error_chars : ℕ
max_error_chars = 240

unfoldable pub answer_pairing : AppState → Str → PairingServerMessage → AppState × DesktopEffect
answer_pairing s connection_id message = elim (get connection_id s.pairing_connections) [
  | none ↦ (s, silent)
  | some channel ↦ (
    record s { pairing_connections = remove connection_id s.pairing_connections },
    answers_pairing channel message,
  )
]

control_effect :
    AppState × Option (ℕ × Result Str EncryptedControlPayload) → AppState × DesktopEffect
control_effect (s, none) = (s, silent)
control_effect (s, some (channel, result)) = (s, answers_control channel result)

revoke_effect : AppState × Option (ℕ × Result Str (Unit {0})) → AppState × DesktopEffect
revoke_effect (s, none) = (s, silent)
revoke_effect (s, some (channel, result)) = (s, answers_revoke channel result)

-- `refusal_text` renders a refusal as the message that the source has for it.
snapshot_effect :
    (Refusal → Str) → Str → AppState × Result Refusal DeviceServerMessage → AppState × DesktopEffect
snapshot_effect refusal_text device_id (s, ok message) = (s, routes device_id message)
snapshot_effect refusal_text device_id (s, err e) =
    (s, replies (DesktopServerMessage.error (refusal_text e)))

-- The `match` on an open session's text messages.
unfoldable pub desktop_message :
    (Refusal → Str) → ℕ → AppState → Str → DesktopWsMessage → AppState × DesktopEffect
unfolding control_effect revoke_effect snapshot_effect
desktop_message refusal_text now s desktop_id (DesktopWsMessage.hello version hello_id _ _ _) =
    if not (nat_beq version protocol_version) || not (hello_id == desktop_id)
    then (s, ends)
    else (s, silent)
desktop_message refusal_text now s desktop_id (DesktopWsMessage.ping _) =
    (s, replies (DesktopServerMessage.pong now))
desktop_message refusal_text now s desktop_id (DesktopWsMessage.snapshot device_id snapshot) =
    snapshot_effect refusal_text device_id (cache_snapshot now s desktop_id device_id snapshot)
desktop_message refusal_text now s desktop_id
      (DesktopWsMessage.pairing_response pairing_id connection_id payload) =
    answer_pairing s connection_id (PairingServerMessage.pair_result pairing_id payload)
desktop_message refusal_text now s desktop_id
      (DesktopWsMessage.pairing_error _ connection_id message) =
    answer_pairing s connection_id (PairingServerMessage.error (take_chars max_error_chars message))
desktop_message refusal_text now s desktop_id
      (DesktopWsMessage.control_response device_id response) =
    control_effect (complete_control s desktop_id device_id response.request_id (ok response))
desktop_message refusal_text now s desktop_id
      (DesktopWsMessage.control_error device_id request_id message) =
    control_effect (
      complete_control s desktop_id device_id request_id (err (take_chars max_error_chars message)))
desktop_message refusal_text now s desktop_id
      (DesktopWsMessage.revoke_result device_id request_id) =
    revoke_effect (complete_revoke s desktop_id device_id request_id (ok tt))
desktop_message refusal_text now s desktop_id
      (DesktopWsMessage.revoke_error device_id request_id message) =
    revoke_effect
      (complete_revoke s desktop_id device_id request_id (err (take_chars max_error_chars message)))
