-- ===== src/Desktop/Server/Socket.antt =====
-- src-tauri/src/monitor_server.rs, `read_json_until`, `push_snapshot`, `handle_monitor_socket` and
-- `handle_pair_socket`: a phone's websocket to the desktop. A stage is a stretch of a round that may leave
-- the loop; it gives the messages that were sent. A message whose sending fails is not among them.
pub mod Whole
pub mod Order
pub mod Ends
pub mod Numbered
use chat_x.Prelude.{
  ℕ, ◌-◌, ◌*◌, Bool, true, false, not, ◌&&◌, Option, none, some, List, [], ◌∷◌, ◌++◌, Str, codes,
  Dict, ◌==◌, str_eq, nat_beq, ltb, leb, if◌then◌else◌, Result, ok, err, saturating_add,
}
use chat_x.Protocol.Messages.{
  protocol_version, device_capabilities, EncryptedSnapshot, EncryptedControlPayload,
  DeviceWsMessage, DeviceServerMessage, PairingWsMessage, PairingServerMessage,
}
use chat_x.Desktop.Server.Requests.{MonitorHandlers, authorize, parameter_of, session_of}

abbrev pub max_ws_text_bytes : ℕ
max_ws_text_bytes = 128 * 1024

abbrev pub snapshot_interval_ms : ℕ
snapshot_interval_ms = 10_000

abbrev pub heartbeat_interval_ms : ℕ
heartbeat_interval_ms = 15_000

abbrev pub idle_timeout_ms : ℕ
idle_timeout_ms = 45_000

-- What `websocket.read` returns. A text is its length and what serde_json makes of it; `quiet` is a
-- time-out of the socket.
pub data Frame {ℓ} (M : Type ℓ) : Type ℓ where
  ping pong closing other quiet broken : Frame M
  text : ℕ → Option M → Frame M

pub data EndReason : Type 0 where
  timed_out too_large bad_json closed read_failed send_failed : EndReason
  unauthorized bad_hello no_randomness snapshot_failed device_revoked revoked : EndReason
  revoke_failed : Str → EndReason

accept_text {ℓ} : {M : Type ℓ} → ℕ → Option M → Result EndReason M
accept_text length message =
    if ltb max_ws_text_bytes length
    then err too_large
    else elim message [ some m ↦ ok m | none ↦ err bad_json ]

-- `read_json_until`: each frame with the time that the loop has waited before it, and whether a pong could
-- be sent. `none`: the frames end while the loop still waits.
unfoldable pub read_json_until {ℓ} :
    {M : Type ℓ} → ℕ → List (ℕ × Bool × Frame M) → Option (Result EndReason M)
unfolding accept_text
read_json_until timeout [] = none
read_json_until timeout ((elapsed, sends, frame) ∷ frames) =
    let rest = read_json_until timeout frames in
    if ltb timeout elapsed then some (err timed_out) else elim frame [
      | ping ↦ if sends then rest else some (err send_failed)
      | text length message ↦ some (accept_text length message)
      | closing ↦ some (err closed)
      | broken ↦ some (err read_failed)
      | pong ↦ rest
      | other ↦ rest
      | quiet ↦ rest
    ]

-- The locals of `handle_monitor_socket`, and the state that the handlers act on.
pub record Session {ℓ} (W : Type ℓ) : Type ℓ where
  pub world : W
  pub sequence : ℕ
  pub last_activity : ℕ
  pub last_snapshot : ℕ
  pub last_ping : ℕ

-- The session, what was sent, and why the loop was left.
abbrev pub Stage {ℓ} : Type ℓ → Type ℓ
Stage W = Session W × List DeviceServerMessage × Option EndReason

unfoldable pub and_then {ℓ} : {W : Type ℓ} → Stage W → (Session W → Stage W) → Stage W
and_then (s, sent, some reason) next = (s, sent, some reason)
and_then (s, sent, none) next = ((next s).0, sent ++ (next s).1, (next s).2)

-- `send_json(..)?`, and `let _ = send_json(..)` before an end.
unfoldable pub send {ℓ} : {W : Type ℓ} → Bool → DeviceServerMessage → Session W → Stage W
send sends message s = if sends then (s, message ∷ [], none) else (s, [], some send_failed)

unfoldable pub send_last {ℓ} :
    {W : Type ℓ} → Bool → DeviceServerMessage → EndReason → Session W → Stage W
send_last sends message reason s = (s, (if sends then message ∷ [] else []), some reason)

-- What one round meets: the times of the clock at its tests and after each part (`clock` is the time of
-- day), the frame, and which sends work.
pub record Round : Type 0 where
  pub now : ℕ
  pub pushed_at : ℕ
  pub pinged_at : ℕ
  pub read_at : ℕ
  pub clock : ℕ
  pub snapshot_sent : Bool
  pub ping_sent : Bool
  pub reply_sent : Bool
  pub frame : Frame DeviceWsMessage

module _ {ℓ} {W : Type ℓ} (handlers : MonitorHandlers W) (device_id token session_id : Str) where
  with_snapshot : ℕ → Bool → Session W → W × Result Str EncryptedSnapshot → Stage W
  unfolding send
  with_snapshot clock sends s (w, err e) = (record s { world = w }, [], some snapshot_failed)
  with_snapshot clock sends s (w, ok x) =
      send sends (DeviceServerMessage.snapshot clock x) (record s { world = w })

  unfoldable pub push_snapshot : ℕ → Bool → Session W → Stage W
  unfolding with_snapshot
  push_snapshot clock sends s =
      let sequence = saturating_add s.sequence 1 in
      with_snapshot clock sends (record s { sequence = sequence })
        (handlers.snapshot_provider device_id session_id sequence s.world)

  with_control : Bool → Session W → W × Result Str EncryptedControlPayload → Stage W
  unfolding send
  with_control sends s (w, ok response) =
      send sends (DeviceServerMessage.control_result response) (record s { world = w })
  with_control sends s (w, err message) =
      send sends (DeviceServerMessage.error message) (record s { world = w })

  with_revoke : Bool → Session W → W × Result Str (Unit {0}) → Stage W
  unfolding send_last
  with_revoke sends s (w, err e) = (record s { world = w }, [], some (revoke_failed e))
  with_revoke sends s (w, ok _) =
      send_last sends (DeviceServerMessage.revoked device_id)
        (if sends then revoked else send_failed) (record s { world = w })

  message_stage : Round → Option DeviceWsMessage → Session W → Stage W
  unfolding with_control with_revoke send
  message_stage r none s = (s, [], none)
  message_stage r (some (DeviceWsMessage.ping _)) s =
      send r.reply_sent (DeviceServerMessage.pong r.clock) s
  message_stage r (some (DeviceWsMessage.control request)) s =
      with_control r.reply_sent s (handlers.control_handler device_id request s.world)
  message_stage r (some DeviceWsMessage.revoke_self) s =
      with_revoke r.reply_sent s (handlers.revoke_handler device_id s.world)
  message_stage r (some (DeviceWsMessage.hello _ _ _)) s = (s, [], none)

  frame_stage : Round → Frame DeviceWsMessage → Session W → Stage W
  unfolding message_stage
  frame_stage r ping s = (
    record s { last_activity = r.read_at },
    [],
    (if r.reply_sent then none else some send_failed),
  )
  frame_stage r pong s = (record s { last_activity = r.read_at }, [], none)
  frame_stage r (text length message) s =
      let s' = record s { last_activity = r.read_at } in
      if ltb max_ws_text_bytes length then (s', [], some too_large) else message_stage r message s'
  frame_stage r closing s = (s, [], some closed)
  frame_stage r other s = (s, [], none)
  frame_stage r quiet s = (s, [], none)
  frame_stage r broken s = (s, [], some read_failed)

  idle_stage : Round → Session W → Stage W
  idle_stage r s =
      (s, [], (if ltb idle_timeout_ms (r.now - s.last_activity) then some timed_out else none))

  with_auth : Round → Session W → W × Bool → Stage W
  unfolding send_last
  with_auth r s (w, true) = (record s { world = w }, [], none)
  with_auth r s (w, false) =
      send_last r.reply_sent (DeviceServerMessage.error (codes "device revoked")) device_revoked
        (record s { world = w })

  auth_stage : Round → Session W → Stage W
  unfolding with_auth
  auth_stage r s = with_auth r s (handlers.auth_checker device_id token s.world)

  snapshot_stage : Round → Session W → Stage W
  unfolding push_snapshot and_then
  snapshot_stage r s =
      if leb snapshot_interval_ms (r.now - s.last_snapshot)
      then and_then (push_snapshot r.clock r.snapshot_sent s)
          (λ t. (record t { last_snapshot = r.pushed_at }, [], none))
      else (s, [], none)

  ping_stage : Round → Session W → Stage W
  ping_stage r s =
      if leb heartbeat_interval_ms (r.now - s.last_ping)
      then (if r.ping_sent
          then (record s { last_ping = r.pinged_at }, [], none)
          else (s, [], some send_failed))
      else (s, [], none)

  -- One round of the loop.
  unfoldable pub round : Round → Session W → Stage W
  unfolding idle_stage auth_stage snapshot_stage ping_stage frame_stage and_then
  round r s =
      and_then
        (and_then (and_then (and_then (idle_stage r s) (auth_stage r)) (snapshot_stage r))
          (ping_stage r))
        (frame_stage r r.frame)

  -- The loop, through the rounds that it meets.
  unfoldable pub rounds : List Round → Session W → Stage W
  unfolding and_then
  rounds [] s = (s, [], none)
  rounds (r ∷ rs) s = and_then (round r s) (rounds rs)

  -- What is sent before the loop, at the time `started`.
  unfoldable pub greet : ℕ → ℕ → Bool → Bool → W → Stage W
  unfolding push_snapshot send and_then
  greet started clock ack_sent snapshot_sent w =
      and_then
        (send ack_sent (DeviceServerMessage.hello_ack session_id clock true device_capabilities)
          (record {
            world = w;
            sequence = 0;
            last_activity = started;
            last_snapshot = started;
            last_ping = started;
          }))
        (push_snapshot clock snapshot_sent)
