-- ===== src/Relay/Revoke.antt =====
-- A device's revocation of itself, in step with its desktop: relay-server/src/main.rs,
-- `request_desktop_revoke`, `complete_revoke` and `finalize_device_revoke`, and `device_revoke_http` of
-- device_session.rs. The request's task stops at its `await` on the desktop's answer:
-- `begin_revoke` is what `request_desktop_revoke` does before and `finish_revoke` what it does after.
pub mod Acknowledged
use chat_x.Prelude.{
  ℕ, suc, Bool, true, false, not, Option, none, some, List, [], ◌∷◌, ◌++◌, Str, codes, Dict, get,
  insert, remove, RouteKey, ControlRouteKey, str_eq, pair_eq, triple_eq, leb, if◌then◌else◌, length,
  Result, ok, err,
}
use chat_x.Protocol.Messages.{DesktopServerMessage, device_revoke}
use chat_x.Relay.State.{
  AppState, DesktopRoute, max_pending_revokes, route_supports_revoke, device_authorized,
}
use chat_x.Relay.Reply.{
  Refusal, missing_bearer, invalid_device_credential, desktop_offline, revoke_unavailable,
  revoke_capacity, random_failed, revoke_channel_unavailable, revoke_timeout, desktop_says,
  Response, failed, revoked, bearer,
}
use chat_x.Relay.Grants.{revoke_device_record}

-- What the request does next: end with an error, or wait on a channel for the answer under a key.
pub data RevokeStep : Type 0 where
  refuses : Refusal → RevokeStep
  waits : ℕ → ControlRouteKey → DesktopServerMessage → RevokeStep

enter_revoke : Bool → AppState → Str → Str → Str → AppState × RevokeStep
enter_revoke listens s desktop_id device_id request_id =
    let key : ControlRouteKey = (desktop_id, device_id, request_id) in
    if leb max_pending_revokes (length s.revoke_connections)
    then (s, refuses revoke_capacity)
    else if listens
    then (
      record s {
        revoke_connections = insert key s.next_channel s.revoke_connections;
        next_channel = suc s.next_channel;
      },
      waits s.next_channel key (device_revoke device_id request_id),
    )
    else (
      record s {
        revoke_connections = remove key (insert key s.next_channel s.revoke_connections);
        next_channel = suc s.next_channel;
      },
      refuses revoke_channel_unavailable,
    )

route_revoke :
    Bool → Option Str → AppState → Str → Str → Option DesktopRoute → AppState × RevokeStep
unfolding enter_revoke
route_revoke listens random s desktop_id device_id none = (s, refuses desktop_offline)
route_revoke listens random s desktop_id device_id (some route) =
    if not (route_supports_revoke route) then (s, refuses revoke_unavailable) else elim random [
      | none ↦ (s, refuses random_failed)
      | some value ↦ enter_revoke listens s desktop_id device_id (codes "r_" ++ value)
    ]

unfoldable pub begin_revoke : Bool → Option Str → AppState → Str → Str → AppState × RevokeStep
unfolding route_revoke
begin_revoke listens random s desktop_id device_id =
    route_revoke listens random s desktop_id device_id (get desktop_id s.desktop_channels)

-- The sender of the request goes and its result is sent: the channel's number and the result.
unfoldable pub complete_revoke :
    AppState
    → Str
    → Str
    → Str
    → Result Str (Unit {0})
    → AppState × Option (ℕ × Result Str (Unit {0}))
complete_revoke s desktop_id device_id request_id result =
    let key : ControlRouteKey = (desktop_id, device_id, request_id) in
    elim (get key s.revoke_connections) [
      | none ↦ (s, none)
      | some channel ↦ (
        record s { revoke_connections = remove key s.revoke_connections },
        some (channel, result),
      )
    ]

revoke_outcome : Option (Result Str (Unit {0})) → Result Refusal (Unit {0})
revoke_outcome none = err revoke_timeout
revoke_outcome (some (err message)) = err (desktop_says message)
revoke_outcome (some (ok _)) = ok tt

-- After the wait: the result that the channel got, or `none` on a timeout or a dropped sender.
unfoldable pub finish_revoke :
    AppState
    → ControlRouteKey
    → Option (Result Str (Unit {0}))
    → AppState × Result Refusal (Unit {0})
unfolding revoke_outcome
finish_revoke s key result =
    (record s { revoke_connections = remove key s.revoke_connections }, revoke_outcome result)

-- The channel to which `Revoked` is sent, where the device has one.
finalize_found : RouteKey → AppState × Result Refusal Bool → AppState × Result Refusal (Option ℕ)
finalize_found key (s, err e) = (s, err e)
finalize_found key (s, ok _) =
    (record s { device_channels = remove key s.device_channels }, ok (get key s.device_channels))

unfoldable pub finalize_device_revoke :
    Bool → AppState → Str → Str → AppState × Result Refusal (Option ℕ)
unfolding finalize_found
finalize_device_revoke saved s desktop_id device_id =
    let key : RouteKey = (desktop_id, device_id) in
    finalize_found key (
      revoke_device_record saved (record s { snapshots = remove key s.snapshots }) desktop_id
        device_id)

revoke_response : Str → AppState × Result Refusal (Option ℕ) → AppState × Response
revoke_response device_id (s, err e) = (s, failed 500 e)
revoke_response device_id (s, ok _) = (s, revoked device_id)

after_answer : Bool → Str → Str → AppState × Result Refusal (Unit {0}) → AppState × Response
unfolding revoke_response
after_answer saved desktop_id device_id (s, err e) = (s, failed 409 e)
after_answer saved desktop_id device_id (s, ok _) =
    revoke_response device_id (finalize_device_revoke saved s desktop_id device_id)

-- `device_revoke_http` up to its wait: the response, or what it waits for.
unfoldable pub begin_device_revoke_http :
    (Str → Str)
    → Bool
    → Option Str
    → AppState
    → Str
    → Str
    → Option Str
    → AppState × Result Response RevokeStep
begin_device_revoke_http digest listens random s desktop_id device_id authorization =
    elim (bearer authorization) [
      | none ↦ (s, err (failed 401 missing_bearer))
      | some token ↦
          if not (device_authorized digest s desktop_id device_id token)
          then (s, err (failed 401 invalid_device_credential))
          else (
            (begin_revoke listens random s desktop_id device_id).0,
            elim (begin_revoke listens random s desktop_id device_id).1 [
              | refuses e ↦ err (failed 409 e)
              | waits channel key message ↦ ok (waits channel key message)
            ],
          )
    ]

-- And from there, in the state that other tasks have left.
unfoldable pub finish_device_revoke_http :
    Bool
    → AppState
    → Str
    → Str
    → ControlRouteKey
    → Option (Result Str (Unit {0}))
    → AppState × Response
unfolding after_answer
finish_device_revoke_http saved s desktop_id device_id key result =
    after_answer saved desktop_id device_id (finish_revoke s key result)
