-- ===== src/Desktop/Server/Requests.antt =====
-- src-tauri/src/monitor_server.rs: `MonitorHandlers`, the interface to the rest of the desktop,
-- `handle_https_request`, and the choice of `handle_connection`. The handlers act on the desktop's own
-- state `W`.
pub mod Access
use chat_x.Prelude.{
  ℕ, Bool, true, false, not, ◌&&◌, ◌||◌, Option, none, some, List, [], ◌∷◌, ◌++◌, Str, codes, Dict,
  get, ◌==◌, str_eq, if◌then◌else◌, take, Result, ok, err,
}
use chat_x.Protocol.Messages.{
  EncryptedSnapshot, EncryptedControlPayload, PairingWsMessage, PairingServerMessage,
}
use chat_x.Desktop.Server.Query.{parse_query, route_of}
use chat_x.Desktop.Server.Http.{HttpRequestHead}

pub record MonitorHandlers {ℓ} (W : Type ℓ) : Type ℓ where
  pub auth_checker : Str → Str → W → W × Bool
  pub pair_handler : PairingWsMessage → W → W × Result Str PairingServerMessage
  pub revoke_handler : Str → W → W × Result Str (Unit {0})
  pub control_handler : Str → EncryptedControlPayload → W → W × Result Str EncryptedControlPayload
  pub snapshot_provider : Str → Str → ℕ → W → W × Result Str EncryptedSnapshot

-- `query.get(name).map(String::as_str).unwrap_or("")`
abbrev pub parameter_of : Str → Dict Str Str → Str
parameter_of name query = elim (get name query) [ some value ↦ value | none ↦ [] ]

abbrev pub token_of : Option Str → Str
token_of none = []
token_of (some token) = token

abbrev pub is_blank : Str → Bool
is_blank [] = true
is_blank (b ∷ s) = false

-- `format!("s_{}", &generate_monitor_token()?[..32])`
abbrev pub session_of : Str → Str
session_of token = codes "s_" ++ take 32 token

-- The responses of the routes, with what their JSON texts hold.
pub data HttpReply : Type 0 where
  sends_snapshot : ℕ → EncryptedSnapshot → HttpReply
  sends_revoked : Str → HttpReply
  snapshot_unavailable revoke_failed unauthorized unknown_route : HttpReply

pub data Handled : Type 0 where
  replies : HttpReply → Handled
  -- No randomness, or a panic of `parse_query`.
  fails panics : Handled

pub data Route : Type 0 where
  snapshot revoke unknown : Route

-- The `match` on the method and the route.
unfoldable pub select : Str → Str → Route
select method route =
    if method == codes "GET" && route == codes "/v1/monitor/snapshot"
    then snapshot
    else if method == codes "POST" && route == codes "/v1/monitor/revoke"
    then revoke
    else unknown

module _ {ℓ} {W : Type ℓ} (handlers : MonitorHandlers W) where
  -- A check of the caller, which reaches the handler only where the address names this desktop and both a
  -- device and a token are given.
  unfoldable pub authorize : Str → Dict Str Str → Str → W → W × Bool
  authorize desktop_id query token w =
      let device_id = parameter_of (codes "deviceId") query in
      if parameter_of (codes "desktopId") query == desktop_id
        && (not (is_blank device_id) && not (is_blank token))
      then handlers.auth_checker device_id token w
      else (w, false)

  snapshot_reply : ℕ → W × Result Str EncryptedSnapshot → W × Handled
  snapshot_reply now (w, ok x) = (w, replies (sends_snapshot now x))
  snapshot_reply now (w, err e) = (w, replies snapshot_unavailable)

  serve_snapshot : ℕ → Option Str → Str → W → W × Handled
  unfolding snapshot_reply
  serve_snapshot now none device_id w = (w, fails)
  serve_snapshot now (some token) device_id w =
      snapshot_reply now (handlers.snapshot_provider device_id (session_of token) 1 w)

  revoke_reply : Str → W × Result Str (Unit {0}) → W × Handled
  revoke_reply device_id (w, ok _) = (w, replies (sends_revoked device_id))
  revoke_reply device_id (w, err e) = (w, replies revoke_failed)

  serve : ℕ → Option Str → Route → Str → W × Bool → W × Handled
  unfolding serve_snapshot revoke_reply
  serve now random snapshot device_id (w, true) = serve_snapshot now random device_id w
  serve now random revoke device_id (w, true) =
      revoke_reply device_id (handlers.revoke_handler device_id w)
  serve now random snapshot device_id (w, false) = (w, replies unauthorized)
  serve now random revoke device_id (w, false) = (w, replies unauthorized)
  serve now random unknown device_id (w, _) = (w, replies unknown_route)

  with_query : ℕ → Option Str → Str → HttpRequestHead → Option (Dict Str Str) → W → W × Handled
  unfolding serve
  with_query now random desktop_id request none w = (w, panics)
  with_query now random desktop_id request (some query) w =
      serve now random (select request.method (route_of request.path))
        (parameter_of (codes "deviceId") query)
        (authorize desktop_id query (token_of request.bearer_token) w)

  -- `random` is what `generate_monitor_token` returns.
  unfoldable pub handle_https_request : ℕ → Option Str → Str → HttpRequestHead → W → W × Handled
  unfolding with_query
  handle_https_request now random desktop_id request w =
      with_query now random desktop_id request (parse_query request.path) w

-- What `handle_connection` does with a head.
pub data Connection : Type 0 where
  https monitor_socket pair_socket unknown_socket : Connection

unfoldable pub handle_connection : HttpRequestHead → Connection
handle_connection head =
    if not head.websocket_upgrade
    then https
    else if route_of head.path == codes "/v1/ws/monitor"
    then monitor_socket
    else if route_of head.path == codes "/v1/ws/pair"
    then pair_socket
    else unknown_socket
