-- ===== src/Relay/DeviceSocket.antt =====
-- relay-server/src/device_session.rs: a phone's websocket, `device_ws` and `device_socket`. A round of the
-- loop is the test of the registration and then one event; a control request and a revocation stop at
-- their `await` on the desktop (Relay.Control, Relay.Revoke).
pub mod Sessions
use chat_x.Prelude.{
  ℕ, Bool, true, false, not, ◌||◌, Option, none, some, List, [], ◌∷◌, Str, codes, get,
  ControlRouteKey, ◌==◌, nat_beq, str_eq, if◌then◌else◌, Result, ok, err, is_some,
}
use chat_x.Protocol.Messages.{
  protocol_version, DeviceWsMessage, DeviceServerMessage, DesktopServerMessage,
}
use chat_x.Relay.State.{
  AppState, SnapshotRecord, device_authorized, device_exists, routed_device_capabilities,
}
use chat_x.Relay.Reply.{
  Refusal, missing_bearer, invalid_device_credential, ws_capacity, Response, failed, upgraded,
  bearer,
}
use chat_x.Relay.Snapshots.{route_sender, latest_snapshot}
use chat_x.Relay.Control
use chat_x.Relay.Control.{ControlStep, begin_control}
use chat_x.Relay.Revoke
use chat_x.Relay.Revoke.{RevokeStep, begin_revoke, finish_revoke, finalize_device_revoke}

-- `device_ws`; `permit`: one of the semaphore's slots is free.
unfoldable pub device_ws : (Str → Str) → Bool → AppState → Str → Str → Option Str → Response
device_ws digest permit s desktop_id device_id authorization = elim (bearer authorization) [
  | none ↦ failed 401 missing_bearer
  | some token ↦
      if not (device_authorized digest s desktop_id device_id token)
      then failed 401 invalid_device_credential
      else if not permit
      then failed 503 ws_capacity
      else upgraded
]

bad_hello : Str → Str → ℕ → Str → Str → Bool
bad_hello desktop_id device_id version hello_desktop hello_device =
    not (nat_beq version protocol_version)
    || (not (hello_desktop == desktop_id) || not (hello_device == device_id))

-- Whether the first message opens a session.
unfoldable pub opens_session : Str → Str → DeviceWsMessage → Bool
unfolding bad_hello
opens_session desktop_id device_id (DeviceWsMessage.hello version hello_desktop hello_device) =
    not (bad_hello desktop_id device_id version hello_desktop hello_device)
opens_session desktop_id device_id _ = false

cached_message : Option SnapshotRecord → List DeviceServerMessage
cached_message none = []
cached_message (some entry) = DeviceServerMessage.snapshot entry.received_at entry.snapshot ∷ []

-- What the socket does to the state when it opens, without another task between; the channel that it
-- subscribes to, and the messages that it sends. `now` is the time of the answer, `later` that of the
-- look into the cache.
unfoldable pub greet : ℕ → ℕ → Str → AppState → Str → Str → AppState × ℕ × List DeviceServerMessage
unfolding cached_message
greet now later session_id s desktop_id device_id =
    let route = get desktop_id s.desktop_channels in
    let (channel, s') = route_sender s desktop_id device_id in
    let (s'', entry) = latest_snapshot later s' desktop_id device_id in
    (
      s'',
      channel,
      DeviceServerMessage.hello_ack session_id now (is_some route)
            (routed_device_capabilities route)
          ∷ cached_message entry,
    )

-- What the loop does after a round. `last` sends a message and leaves the loop.
pub data DeviceEffect : Type 0 where
  ends silent : DeviceEffect
  replies last : DeviceServerMessage → DeviceEffect
  awaits_control : ℕ → DesktopServerMessage → DeviceEffect
  awaits_revoke : ℕ → ControlRouteKey → DesktopServerMessage → DeviceEffect

control_step : AppState × ControlStep → AppState × DeviceEffect
control_step (s, Control.refuses message) = (s, replies (DeviceServerMessage.error message))
control_step (s, Control.waits channel message) = (s, awaits_control channel message)

-- What `select!` may pick: a beat of the heart, after the socket was idle for too long or not; a message
-- of the device's channel, the news that some were lost, the channel's end; a text of the phone, another
-- frame of its socket (`false` where it closes the socket), or the socket's end.
pub data DeviceEvent : Type 0 where
  heartbeat : Bool → DeviceEvent
  routed : DeviceServerMessage → DeviceEvent
  lagged channel_closed socket_closed : DeviceEvent
  incoming : Bool → Option Str → Option DeviceWsMessage → DeviceEvent
  other_frame : Bool → DeviceEvent

is_revocation : DeviceServerMessage → Bool
is_revocation (DeviceServerMessage.revoked _) = true
is_revocation _ = false

catch_up : Option SnapshotRecord → DeviceEffect
catch_up none = silent
catch_up (some entry) = replies (DeviceServerMessage.snapshot entry.received_at entry.snapshot)

module _ (refusal_text : Refusal → Str) where
  revoke_step : AppState × RevokeStep → AppState × DeviceEffect
  revoke_step (s, Revoke.refuses e) = (s, last (DeviceServerMessage.error (refusal_text e)))
  revoke_step (s, Revoke.waits channel key message) = (s, awaits_revoke channel key message)

  -- The `match` on a text message: `none` is one that cannot be parsed.
  unfoldable pub device_message :
      ℕ
      → Bool
      → Option Str
      → AppState
      → Str
      → Str
      → Option DeviceWsMessage
      → AppState × DeviceEffect
  unfolding control_step revoke_step bad_hello
  device_message now listens random s desktop_id device_id none =
      (s, replies (DeviceServerMessage.error (codes "invalid websocket message")))
  device_message now listens random s desktop_id device_id
        (some (DeviceWsMessage.hello version hello_desktop hello_device)) =
      (
        s,
        (if bad_hello desktop_id device_id version hello_desktop hello_device
            then ends
            else silent),
      )
  device_message now listens random s desktop_id device_id (some (DeviceWsMessage.ping _)) =
      (s, replies (DeviceServerMessage.pong now))
  device_message now listens random s desktop_id device_id (some DeviceWsMessage.revoke_self) =
      revoke_step (begin_revoke listens random s desktop_id device_id)
  device_message now listens random s desktop_id device_id
        (some (DeviceWsMessage.control request)) =
      control_step (begin_control now listens s desktop_id device_id request)

  -- The end of a revocation, in the state that other tasks have left; the loop ends with the message.
  finalized : Str → AppState × Result Refusal (Option ℕ) → AppState × DeviceEffect
  finalized device_id (s, err e) = (s, last (DeviceServerMessage.error (refusal_text e)))
  finalized device_id (s, ok _) = (s, last (DeviceServerMessage.revoked device_id))

  answered : Bool → Str → Str → AppState × Result Refusal (Unit {0}) → AppState × DeviceEffect
  unfolding finalized
  answered saved desktop_id device_id (s, err e) =
      (s, last (DeviceServerMessage.error (refusal_text e)))
  answered saved desktop_id device_id (s, ok _) =
      finalized device_id (finalize_device_revoke saved s desktop_id device_id)

  unfoldable pub finish_revoke_self :
      Bool
      → AppState
      → Str
      → Str
      → ControlRouteKey
      → Option (Result Str (Unit {0}))
      → AppState × DeviceEffect
  unfolding answered
  finish_revoke_self saved s desktop_id device_id key result =
      answered saved desktop_id device_id (finish_revoke s key result)

  device_event : ℕ → AppState → Str → Str → DeviceEvent → AppState × DeviceEffect
  unfolding device_message is_revocation catch_up
  device_event now s desktop_id device_id (routed message) =
      (s, (if is_revocation message then last message else replies message))
  device_event now s desktop_id device_id lagged = (
    (latest_snapshot now s desktop_id device_id).0,
    catch_up (latest_snapshot now s desktop_id device_id).1,
  )
  device_event now s desktop_id device_id (heartbeat idle) = (s, (if idle then ends else silent))
  device_event now s desktop_id device_id (other_frame stays) =
      (s, (if stays then silent else ends))
  device_event now s desktop_id device_id channel_closed = (s, ends)
  device_event now s desktop_id device_id socket_closed = (s, ends)
  device_event now s desktop_id device_id (incoming listens random message) =
      device_message now listens random s desktop_id device_id message

  -- A round of the loop: the test of the registration in one state and, after the wait, the event in
  -- the state `found` that other tasks have left. A device that is no longer registered is told so.
  unfoldable pub device_round :
      ℕ → AppState → AppState → Str → Str → DeviceEvent → AppState × DeviceEffect
  unfolding device_event
  device_round now tested found desktop_id device_id event =
      if not (device_exists tested desktop_id device_id)
      then (tested, last (DeviceServerMessage.revoked device_id))
      else device_event now found desktop_id device_id event

  -- Whether the loop is left after a round; the wait for a revocation's answer is the last thing in it.
  unfoldable pub leaves : DeviceEffect → Bool
  leaves ends = true
  leaves (last _) = true
  leaves (awaits_revoke _ _ _) = true
  leaves silent = false
  leaves (replies _) = false
  leaves (awaits_control _ _) = false

  -- The loop, over its rounds: the state at the test, the time and the state at the event, and the event.
  unfoldable pub device_loop :
      Str → Str → List (AppState × ℕ × AppState × DeviceEvent) → List DeviceEffect
  device_loop desktop_id device_id [] = []
  device_loop desktop_id device_id ((tested, now, found, event) ∷ rounds) =
      let rest = device_loop desktop_id device_id rounds in
      let effect = (device_round now tested found desktop_id device_id event).1 in
      if leaves effect then effect ∷ [] else effect ∷ rest
