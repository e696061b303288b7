-- ===== src/Relay/Pairing.antt =====
-- relay-server/src/pairing_session.rs. A pairing socket stops at its `await` on the desktop's answer:
-- `begin_pairing` is what it does before and `finish_pairing` what it does after.
pub mod Routes
use chat_x.Prelude.{
  ℕ, suc, ◌*◌, Bool, true, false, not, ◌||◌, Option, none, some, List, [], ◌∷◌, ◌++◌, Str, codes,
  Dict, get, insert, remove, retain, RouteKey, ◌==◌, str_eq, pair_eq, ltb, leb, nat_beq,
  if◌then◌else◌, length, all, Result, ok, err, ◌>>=◌, ◌>>◌, fail_if, ok_or, saturating_add,
}
use chat_x.Text.{starts_with, is_ascii_hexdigit, to_ascii_lowercase}
use chat_x.Protocol.Messages.{
  PairingRouteOpenRequest, PairingServerMessage, PairingWsMessage, pair, DesktopServerMessage,
  EncryptedPairingPayload,
}
use chat_x.Relay.Registry.{hash_matches}
use chat_x.Relay.State.{AppState, PairingRoute, DesktopRoute, max_pairing_routes}
use chat_x.Relay.Reply.{
  Refusal, missing_bearer, invalid_pairing_route, invalid_pairing_expiry, pairing_capacity_reached,
  pairing_route_not_found, pairing_route_expired, invalid_route_token, pairing_ws_capacity,
  Response, failed, no_content, upgraded, bearer,
}
use chat_x.Relay.Grants.{check_desktop}

abbrev pub Routes : Type 0
Routes = Dict RouteKey PairingRoute

abbrev pub is_live : ℕ → RouteKey → PairingRoute → Bool
is_live now _ route = ltb now route.expires_at

abbrev pub is_other : Str → RouteKey → PairingRoute → Bool
is_other desktop_id (candidate, _) _ = not (candidate == desktop_id)

-- Expired and superseded routes go, also where the rest are too many.
unfoldable pub prepare_pairing_route_insert : Routes → Str → ℕ → Routes × Result Refusal (Unit {0})
prepare_pairing_route_insert routes desktop_id now =
    let left = retain (is_other desktop_id) (retain (is_live now) routes) in
    (left, if leb max_pairing_routes (length left) then err pairing_capacity_reached else ok tt)

-- `10 * 60_000`
abbrev pub max_pairing_lifetime : ℕ
max_pairing_lifetime = 10 * 60_000

module _ (digest : Str → Str) where
  unfoldable pub check_open :
      ℕ → AppState → Str → Str → Option Str → PairingRouteOpenRequest → Result Response (Unit {0})
  check_open now s desktop_id pairing_id authorization payload = do
    check_desktop digest s desktop_id authorization
    fail_if
        (not (starts_with (codes "p_") pairing_id)
          || (not (nat_beq (length payload.token_hash) 64)
              || not (all is_ascii_hexdigit payload.token_hash)))
        (failed 400 invalid_pairing_route)
    fail_if
        (leb payload.expires_at now
          || ltb (saturating_add now max_pairing_lifetime) payload.expires_at)
        (failed 400 invalid_pairing_expiry)

  insert_route :
      AppState → RouteKey → PairingRoute → Routes × Result Refusal (Unit {0}) → AppState × Response
  insert_route s key route (left, err e) = (record s { pairing_routes = left }, failed 429 e)
  insert_route s key route (left, ok _) =
      (record s { pairing_routes = insert key route left }, no_content)

  unfoldable pub open_pairing_route :
      ℕ → AppState → Str → Str → Option Str → PairingRouteOpenRequest → AppState × Response
  unfolding insert_route
  open_pairing_route now s desktop_id pairing_id authorization payload =
      elim (check_open now s desktop_id pairing_id authorization payload) [
        | err response ↦ (s, response)
        | ok _ ↦
            insert_route s (desktop_id, pairing_id)
              (record {
                token_hash = to_ascii_lowercase payload.token_hash;
                expires_at = payload.expires_at;
              })
              (prepare_pairing_route_insert s.pairing_routes desktop_id now)
      ]

  unfoldable pub delete_pairing_route : AppState → Str → Str → Option Str → AppState × Response
  delete_pairing_route s desktop_id pairing_id authorization =
      elim (check_desktop digest s desktop_id authorization) [
        | err response ↦ (s, response)
        | ok _ ↦ (
          record s { pairing_routes = remove (desktop_id, pairing_id) s.pairing_routes },
          no_content,
        )
      ]

  -- `permit`: one of the semaphore's slots is free.
  admit_route : ℕ → Bool → AppState → RouteKey → Str → Option PairingRoute → AppState × Response
  admit_route now permit s key token none = (s, failed 404 pairing_route_not_found)
  admit_route now permit s key token (some route) =
      if ltb route.expires_at now
      then (
        record s { pairing_routes = remove key s.pairing_routes },
        failed 410 pairing_route_expired,
      )
      else if not (hash_matches digest token route.token_hash)
      then (s, failed 401 invalid_route_token)
      else if not permit
      then (s, failed 503 pairing_ws_capacity)
      else (s, upgraded)

  unfoldable pub pairing_ws : ℕ → Bool → AppState → Str → Str → Option Str → AppState × Response
  unfolding admit_route
  pairing_ws now permit s desktop_id pairing_id authorization = elim (bearer authorization) [
    | none ↦ (s, failed 401 missing_bearer)
    | some token ↦
        let key : RouteKey = (desktop_id, pairing_id) in
        admit_route now permit s key token (get key s.pairing_routes)
  ]

-- What the socket does next: close, answer and close, or wait for the desktop. `waits` has the
-- connection's id and the request for the desktop.
pub data PairingStep : Type 0 where
  closed : PairingStep
  answers : PairingServerMessage → PairingStep
  waits : Str → DesktopServerMessage → PairingStep

abbrev route_active : ℕ → Option PairingRoute → Bool
route_active now none = false
route_active now (some route) = ltb now route.expires_at

-- `listens`: the desktop's channel has a receiver, so that `send` succeeds.
send_pairing : Bool → AppState → Str → Str → EncryptedPairingPayload → AppState × PairingStep
send_pairing listens s pairing_id connection_id payload =
    if listens
    then (
      record s {
        pairing_connections = insert connection_id s.next_channel s.pairing_connections;
        next_channel = suc s.next_channel;
      },
      waits connection_id (DesktopServerMessage.pairing_request pairing_id connection_id payload),
    )
    else (
      record s {
        pairing_connections = remove connection_id s.pairing_connections;
        next_channel = suc s.next_channel;
      },
      answers (PairingServerMessage.error (codes "desktop offline")),
    )

route_pairing :
    Bool
    → Option Str
    → AppState
    → Str
    → EncryptedPairingPayload
    → Option DesktopRoute
    → AppState × PairingStep
unfolding send_pairing
route_pairing listens random s pairing_id payload none =
    (s, answers (PairingServerMessage.error (codes "desktop offline")))
route_pairing listens random s pairing_id payload (some route) = elim random [
  | none ↦ (s, closed)
  | some value ↦ send_pairing listens s pairing_id (codes "pc_" ++ value) payload
]

-- The first message of the socket, if it is one: `none` is an invalid text.
unfoldable pub begin_pairing :
    ℕ → Bool → Option Str → AppState → Str → Str → Option PairingWsMessage → AppState × PairingStep
unfolding route_pairing
begin_pairing now listens random s desktop_id pairing_id none =
    (s, answers (PairingServerMessage.error (codes "invalid pairing message")))
begin_pairing now listens random s desktop_id pairing_id (some (pair message_pairing_id payload)) =
    if not (message_pairing_id == pairing_id)
    then (s, answers (PairingServerMessage.error (codes "pairing route mismatch")))
    else if not (route_active now (get (desktop_id, pairing_id) s.pairing_routes))
    then (
      record s { pairing_routes = remove (desktop_id, pairing_id) s.pairing_routes },
      answers (PairingServerMessage.error (codes "pairing route is no longer active")),
    )
    else route_pairing listens random s pairing_id payload (get desktop_id s.desktop_channels)

-- The desktop's answer, or `none` where the wait ended without one.
unfoldable pub finish_pairing :
    AppState → Str → Str → Str → Option PairingServerMessage → AppState × PairingServerMessage
finish_pairing s desktop_id pairing_id connection_id response =
    let s' = record s { pairing_connections = remove connection_id s.pairing_connections } in
    elim response [
      | none ↦ (s', PairingServerMessage.error (codes "desktop pairing response timed out"))
      | some (PairingServerMessage.error m) ↦ (s', PairingServerMessage.error m)
      | some (PairingServerMessage.pair_result id payload) ↦ (
        record s' { pairing_routes = remove (desktop_id, pairing_id) s.pairing_routes },
        PairingServerMessage.pair_result id payload,
      )
    ]
