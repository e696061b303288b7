-- ===== src/Relay/Gateway.antt =====
-- relay-server/src/mcp_gateway.rs: the sessions of the gateway and the packets that answer its requests.
-- A request's error flag is set where its id is in `errored`; a bounded queue that is full or closed
-- takes no reply. The `Reply::Error` that `fail_session` tries on the queues is not in the state; the
-- flag that it sets with it is. The packets are in Relay.Gateway.Packets.
pub mod Packets
pub mod Replies
pub mod Sessions
pub mod Revoked
pub mod Requests
pub mod Body
pub mod Streams
pub mod Whole
pub mod Admission
use chat_x.Prelude.{
  ℕ, ◌+◌, ◌*◌, ◌/◌, Bool, true, false, not, ◌||◌, ◌&&◌, Option, none, some, List, [], ◌∷◌, ◌++◌,
  Str, Dict, get, insert, remove, retain, ◌==◌, str_eq, nat_beq, ltb, leb, if◌then◌else◌, length,
  all, saturating_add,
}
use chat_x.Text.{is_ascii_hexdigit}
use chat_x.Protocol.Control.{ControlKind, parse}
use chat_x.Protocol.Http.{wss_protocol_v1, legacy_max_response_bytes, allowed_response_header}
use chat_x.Protocol.Stream.{
  Kind, request_body, response_body, decode, max_frame_body, max_response_bytes,
}
use chat_x.Relay.Registry.{DesktopRecord}
use chat_x.Relay.State.{Gateway, Active, Pending, AppState}

keys_of : Str → Dict Str Pending → List Str
keys_of session_id [] = []
keys_of session_id ((id, item) ∷ pending) =
    let rest = keys_of session_id pending in
    if item.session_id == session_id then id ∷ rest else rest

-- `fail_session`: the session's requests leave the map, each with its error flag set.
unfoldable pub fail_session : Str → Gateway → Gateway
unfolding keys_of
fail_session session_id g = record g {
  pending = retain (λ _ item. not (item.session_id == session_id)) g.pending;
  errored = keys_of session_id g.pending ++ g.errored;
}

unfoldable pub retire : Gateway → Option Active → Gateway
retire g none = g
retire g (some active) =
    fail_session active.session_id
      (record g { active = none; closed = active.session_id ∷ g.closed })

unfoldable pub is_selected : Str → Option Str → Bool
is_selected id none = false
is_selected id (some selected) = selected == id

-- `revoke_desktop`: the session of the gateway's own desktop is closed and failed.
unfoldable pub revoke_desktop : Str → Gateway → Gateway
unfolding retire is_selected
revoke_desktop id g = if not (is_selected id g.desktop_id) then g else retire g g.active

unfoldable pub is_current : Str → Option Active → Bool
is_current session_id none = false
is_current session_id (some active) = active.session_id == session_id

-- `disconnect`: a session's end. A newer session stays.
unfoldable pub disconnect : Str → Gateway → Gateway
unfolding is_current
disconnect session_id g =
    fail_session session_id
      (if is_current session_id g.active then record g { active = none } else g)

unfoldable pub retire_previous : Gateway → Option Active → Gateway
retire_previous g none = g
retire_previous g (some previous) =
    fail_session previous.session_id (record g { closed = previous.session_id ∷ g.closed })

-- `socket_loop`, its first step: the new session takes the place of the old one, which is closed.
unfoldable pub install : Active → Gateway → Gateway
unfolding retire_previous
install active g = retire_previous (record g { active = some active }) g.active

unfoldable pub is_credential : Str → Option DesktopRecord → Bool
is_credential hash none = false
is_credential hash (some desktop) = desktop.token_hash == hash

unfoldable pub selected_record : Dict Str DesktopRecord → Option Str → Option DesktopRecord
selected_record desktops none = none
selected_record desktops (some id) = get id desktops

unfoldable pub selected_or_empty : Option Str → Str
selected_or_empty none = []
selected_or_empty (some id) = id

-- Its second step: the credential is tested again. The flag says whether the session goes on.
unfoldable pub recheck : Str → AppState → AppState × Bool
unfolding is_credential selected_record selected_or_empty
recheck credential_hash s =
    let id = s.mcp_gateway.desktop_id in
    if not (is_credential credential_hash (selected_record s.registry.desktops id))
    then (record s { mcp_gateway = revoke_desktop (selected_or_empty id) s.mcp_gateway }, false)
    else (s, true)
