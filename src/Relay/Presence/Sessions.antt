-- ===== src/Relay/Presence/Sessions.antt =====
-- A desktop's sessions: a session's end and the session that has taken its place.
use chat_x.Prelude.{
  some, suc, ◌≡◌, false, none, List, [], Str, get, insert, str_eq, str_beq_iff, ◌==◌, arith,
  get-insert, get-remove, if◌then◌else◌,
}
use chat_x.Relay.State.{AppState, DesktopRoute}
use chat_x.Relay.Presence.{
  open_online, open_channel, open_session, remove_online_if_current, is_session, is_session_route,
}

-- A session that is closed after another session of the desktop was opened changes nothing: the newer
-- session stays online with its channel, and no device hears of an absence.
pub remove_online_if_current-superseded :
    (s : AppState) (desktop_id old new : Str) (capabilities : List Str)
    → (new == old) ≡ false
    → remove_online_if_current desktop_id old (open_session desktop_id new capabilities s).0
      ≡ ((open_session desktop_id new capabilities s).0, [])
unfolding remove_online_if_current open_session open_online open_channel is_session
remove_online_if_current-superseded s desktop_id old new capabilities different = ground (
  arith,
  different,
  get-insert desktop_id desktop_id new s.online_desktops,
  str_beq_iff desktop_id desktop_id,
)

-- A session that is opened and closed with no other session of the desktop opened in between leaves the
-- desktop neither online nor with a channel; every other desktop is as it was.
pub remove_online_if_current-open_session :
    (s : AppState) (desktop_id session_id other : Str) (capabilities : List Str)
    → (get other
          (remove_online_if_current desktop_id session_id
            (open_session desktop_id session_id capabilities s).0).0.online_desktops
        ≡ (if desktop_id == other then none else get other s.online_desktops))
      × (get other
            (remove_online_if_current desktop_id session_id
              (open_session desktop_id session_id capabilities s).0).0.desktop_channels
          ≡ (if desktop_id == other then none else get other s.desktop_channels))
unfolding remove_online_if_current open_session open_online open_channel is_session is_session_route
remove_online_if_current-open_session s desktop_id session_id other capabilities =
    let route : DesktopRoute = record {
      session_id = session_id;
      sender = s.next_channel;
      capabilities = capabilities;
    } in
    let online = insert desktop_id session_id s.online_desktops in
    let channels = insert desktop_id route s.desktop_channels in
    let found = get-insert desktop_id desktop_id session_id s.online_desktops in
    let found_route = get-insert desktop_id desktop_id route s.desktop_channels in
    let same = str_beq_iff desktop_id desktop_id in
    let same_session = str_beq_iff session_id session_id in
    (
      ground (
        arith,
        found,
        same,
        same_session,
        get-remove desktop_id other online,
        get-insert desktop_id other session_id s.online_desktops,
      ),
      ground (
        arith,
        found,
        found_route,
        same,
        same_session,
        get-remove desktop_id other channels,
        get-insert desktop_id other route s.desktop_channels,
      ),
    )

-- Two sessions of one desktop may be opened at once: where the second one's two steps fall between the
-- first one's, and the first is closed before the second, the desktop is offline but still has the
-- first one's channel.
pub open_channel-interleaved :
    (s : AppState) (desktop_id first second : Str) (capabilities capabilities' : List Str)
    → (second == first) ≡ false
    → (first == second) ≡ false
    → let interleaved : AppState =
        open_channel desktop_id first capabilities
          (open_session desktop_id second capabilities' (open_online desktop_id first s)).0 in
      let closed : AppState =
        (remove_online_if_current desktop_id second
          (remove_online_if_current desktop_id first interleaved).0).0 in
      (get desktop_id closed.online_desktops ≡ none)
      × (get desktop_id closed.desktop_channels
          ≡ some (record {
            session_id = first;
            sender = suc s.next_channel;
            capabilities = capabilities;
          }))
unfolding remove_online_if_current open_session open_online open_channel is_session is_session_route
open_channel-interleaved s desktop_id first second capabilities capabilities' different different' =
    let online = insert desktop_id first s.online_desktops in
    let both = insert desktop_id second online in
    let route : DesktopRoute = record {
      session_id = second;
      sender = s.next_channel;
      capabilities = capabilities';
    } in
    let late : DesktopRoute = record {
      session_id = first;
      sender = suc s.next_channel;
      capabilities = capabilities;
    } in
    let channels = insert desktop_id route s.desktop_channels in
    let found = get-insert desktop_id desktop_id second online in
    let found_route = get-insert desktop_id desktop_id late channels in
    let same = str_beq_iff desktop_id desktop_id in
    let same_session = str_beq_iff second second in
    let gone = get-remove desktop_id desktop_id both in
    (
      ground (arith, different, found, same, same_session, gone),
      ground (arith, different, different', found, found_route, same, same_session),
    )
