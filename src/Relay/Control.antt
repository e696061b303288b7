-- ===== src/Relay/Control.antt =====
-- A device's control requests: relay-server/src/device_session.rs, the arm `DeviceWsMessage::Control`,
-- and `complete_control` of main.rs. The socket's task stops at its `await` on the desktop's answer:
-- `begin_control` is what it does before and `finish_control` what it does after.
pub mod Correlation
pub mod Channels
pub mod Interval
use chat_x.Prelude.{
  ℕ, suc, ◌*◌, Bool, true, false, not, ◌&&◌, ◌||◌, Option, none, some, List, [], ◌∷◌, Str, codes,
  Dict, get, insert, remove, retain, RouteKey, ControlRouteKey, ◌==◌, str_eq, pair_eq, triple_eq,
  ltb, leb, if◌then◌else◌, length, drop, all, Result, ok, err, saturating_add, ◌-◌, contains_key,
}
use chat_x.Text.{starts_with, is_ascii_hexdigit}
use chat_x.Protocol.Messages.{
  EncryptedControlPayload, DesktopServerMessage, DeviceServerMessage, control_result,
  device_control,
}
use chat_x.Relay.State.{
  AppState, DesktopRoute, max_pending_controls, control_min_interval_ms, route_supports_control,
}

unfoldable pub valid_control_id : Str → Bool
valid_control_id id =
    starts_with (codes "c_") id
    && (leb 18 (length id) && (leb (length id) 80 && all is_ascii_hexdigit (drop 2 id)))

unfoldable pub valid_control_time : ℕ → EncryptedControlPayload → Bool
valid_control_time now request =
    leb request.issued_at (saturating_add now 30_000)
    && (leb now request.expires_at
        && leb request.expires_at (saturating_add request.issued_at 60_000))

abbrev pub is_recent : ℕ → RouteKey → ℕ → Bool
is_recent now _ at = leb (now - at) 60_000

too_soon : ℕ → Option ℕ → Bool
too_soon now none = false
too_soon now (some at) = ltb (now - at) control_min_interval_ms

-- The times of the last requests afterwards, and whether this one is limited.
unfoldable pub rate_limit : ℕ → RouteKey → Dict RouteKey ℕ → Dict RouteKey ℕ × Bool
unfolding too_soon
rate_limit now key values =
    let kept = retain (is_recent now) values in
    if too_soon now (get key kept) then (kept, true) else (insert key now kept, false)

-- What the socket does next. `waits` has the number of the channel and the message for the desktop.
pub data ControlStep : Type 0 where
  refuses : Str → ControlStep
  waits : ℕ → DesktopServerMessage → ControlStep

-- The capacity and the duplicates are tested and the sender is put in under one lock. `listens`: the
-- desktop's channel has a receiver, so that `send` succeeds.
enter_control :
    Bool → AppState → ControlRouteKey → Str → EncryptedControlPayload → AppState × ControlStep
enter_control listens s key device_id request =
    if leb max_pending_controls (length s.control_connections)
    then (s, refuses (codes "control capacity reached"))
    else if contains_key key s.control_connections
    then (s, refuses (codes "duplicate control request"))
    else if listens
    then (
      record s {
        control_connections = insert key s.next_channel s.control_connections;
        next_channel = suc s.next_channel;
      },
      waits s.next_channel (device_control device_id request),
    )
    else (
      record s {
        control_connections = remove key (insert key s.next_channel s.control_connections);
        next_channel = suc s.next_channel;
      },
      refuses (codes "desktop control channel unavailable"),
    )

route_control :
    Bool
    → AppState
    → Str
    → Str
    → EncryptedControlPayload
    → Option DesktopRoute
    → AppState × ControlStep
unfolding enter_control
route_control listens s desktop_id device_id request none =
    (s, refuses (codes "desktop offline; control unavailable"))
route_control listens s desktop_id device_id request (some route) =
    if not (route_supports_control route)
    then (s, refuses (codes "desktop control capability unavailable"))
    else enter_control listens s (desktop_id, device_id, request.request_id) device_id request

unfoldable pub begin_control :
    ℕ → Bool → AppState → Str → Str → EncryptedControlPayload → AppState × ControlStep
unfolding route_control
begin_control now listens s desktop_id device_id request =
    if not (valid_control_id request.request_id) || not (valid_control_time now request)
    then (s, refuses (codes "invalid control request"))
    else let limited = rate_limit now (desktop_id, device_id) s.control_last_at in
      let s' = record s { control_last_at = limited.0 } in
      if limited.1
      then (s', refuses (codes "control request rate limited"))
      else route_control listens s' desktop_id device_id request (get desktop_id s.desktop_channels)

-- The sender of the request goes and its result is sent: the channel's number and the result.
unfoldable pub complete_control :
    AppState
    → Str
    → Str
    → Str
    → Result Str EncryptedControlPayload
    → AppState × Option (ℕ × Result Str EncryptedControlPayload)
complete_control s desktop_id device_id request_id result =
    let key : ControlRouteKey = (desktop_id, device_id, request_id) in
    elim (get key s.control_connections) [
      | none ↦ (s, none)
      | some channel ↦ (
        record s { control_connections = remove key s.control_connections },
        some (channel, result),
      )
    ]

control_answer : Option (Result Str EncryptedControlPayload) → DeviceServerMessage
control_answer none = DeviceServerMessage.error (codes "desktop control timeout")
control_answer (some (err message)) = DeviceServerMessage.error message
control_answer (some (ok response)) = control_result response

-- After the wait: the result that the channel got, or `none` on a timeout or a dropped sender.
unfoldable pub finish_control :
    AppState
    → ControlRouteKey
    → Option (Result Str EncryptedControlPayload)
    → AppState × DeviceServerMessage
unfolding control_answer
finish_control s key result =
    (record s { control_connections = remove key s.control_connections }, control_answer result)
