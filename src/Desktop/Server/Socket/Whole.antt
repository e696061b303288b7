-- ===== src/Desktop/Server/Socket/Whole.antt =====
-- src-tauri/src/monitor_server.rs, `handle_monitor_socket` from the check of the caller to the end of its
-- loop, and `handle_pair_socket`.
use chat_x.Prelude.{
  ℕ, Bool, true, false, ◌&&◌, Option, none, some, List, [], ◌∷◌, Str, codes, Dict, ◌==◌, str_eq,
  nat_beq, if◌then◌else◌, Result, ok, err,
}
use chat_x.Protocol.Messages.{
  protocol_version, DeviceWsMessage, DeviceServerMessage, PairingWsMessage, PairingServerMessage,
}
use chat_x.Desktop.Server.Requests.{MonitorHandlers, authorize, parameter_of, session_of}
use chat_x.Desktop.Server.Socket.{
  Frame, EndReason, send_failed, unauthorized, bad_hello, no_randomness, read_json_until, Stage,
  Round, and_then, greet, rounds,
}

abbrev pub hello_timeout_ms : ℕ
hello_timeout_ms = 5_000

-- What a connection meets: the frames before the hello, the random token, the times, and which sends work.
pub record Encounter : Type 0 where
  pub hello_frames : List (ℕ × Bool × Frame DeviceWsMessage)
  pub random : Option Str
  pub started : ℕ
  pub clock : ℕ
  pub error_sent : Bool
  pub ack_sent : Bool
  pub snapshot_sent : Bool
  pub rounds_met : List Round

-- The state, what was sent, and why the connection ended.
abbrev pub Ended {ℓ} : Type ℓ → Type ℓ
Ended W = W × List DeviceServerMessage × Option EndReason

unfoldable pub refuse {ℓ} : {W : Type ℓ} → Bool → Str → EndReason → W → Ended W
refuse sends message reason w =
    (w, (if sends then DeviceServerMessage.error message ∷ [] else []), some reason)

unfoldable pub hello_matches : Str → Str → DeviceWsMessage → Bool
hello_matches desktop_id device_id (DeviceWsMessage.hello version hello_desktop hello_device) =
    nat_beq version protocol_version && (hello_desktop == desktop_id && hello_device == device_id)
hello_matches desktop_id device_id _ = false

unfoldable pub left {ℓ} : {W : Type ℓ} → Stage W → Ended W
left (s, sent, reason) = (s.world, sent, reason)

module _ {ℓ} {W : Type ℓ} (handlers : MonitorHandlers W) where
  unfoldable pub opened : Str → Str → Encounter → Option Str → W → Ended W
  unfolding left
  opened device_id token e none w = (w, [], some no_randomness)
  opened device_id token e (some random) w = left (
      and_then
        (greet handlers device_id token (session_of random) e.started e.clock e.ack_sent
          e.snapshot_sent w)
        (rounds handlers device_id token (session_of random) e.rounds_met))

  unfoldable pub with_hello :
      Str → Str → Str → Encounter → W → Option (Result EndReason DeviceWsMessage) → Ended W
  unfolding refuse hello_matches opened
  with_hello desktop_id device_id token e w none = (w, [], none)
  with_hello desktop_id device_id token e w (some (err reason)) = (w, [], some reason)
  with_hello desktop_id device_id token e w (some (ok first)) =
      if hello_matches desktop_id device_id first
      then opened device_id token e e.random w
      else refuse e.error_sent (codes "invalid hello") bad_hello w

  unfoldable pub checked : Str → Str → Str → Encounter → W × Bool → Ended W
  unfolding with_hello refuse
  checked desktop_id device_id token e (w, false) =
      refuse e.error_sent (codes "unauthorized") unauthorized w
  checked desktop_id device_id token e (w, true) =
      with_hello desktop_id device_id token e w (read_json_until hello_timeout_ms e.hello_frames)

  -- `query` is that of the socket's address and `token` the bearer's, empty where there is none.
  unfoldable pub handle_monitor_socket : Str → Dict Str Str → Str → Encounter → W → Ended W
  unfolding checked
  handle_monitor_socket desktop_id query token e w =
      checked desktop_id (parameter_of (codes "deviceId") query) token e
        (authorize handlers desktop_id query token w)

  pair_answer :
      Bool → W × Result Str PairingServerMessage → W × List PairingServerMessage × Option EndReason
  pair_answer sends (w, ok response) =
      if sends then (w, response ∷ [], none) else (w, [], some send_failed)
  pair_answer sends (w, err message) =
      if sends
      then (w, PairingServerMessage.error message ∷ [], none)
      else (w, [], some send_failed)

  with_request :
      Bool
      → W
      → Option (Result EndReason PairingWsMessage)
      → W × List PairingServerMessage × Option EndReason
  unfolding pair_answer
  with_request sends w none = (w, [], none)
  with_request sends w (some (err reason)) = (w, [], some reason)
  with_request sends w (some (ok request)) = pair_answer sends (handlers.pair_handler request w)

  unfoldable pub handle_pair_socket :
      List (ℕ × Bool × Frame PairingWsMessage)
      → Bool
      → W
      → W × List PairingServerMessage × Option EndReason
  unfolding with_request
  handle_pair_socket frames sends w = with_request sends w (read_json_until hello_timeout_ms frames)
