-- ===== src/Relay/Snapshots.antt =====
-- relay-server/src/main.rs, the snapshot methods of `AppState`, and the snapshot handlers of
-- device_session.rs. `now` is what `now_ms` returns.
pub mod Order
use chat_x.Prelude.{
  ℕ, suc, ◌+◌, ◌*◌, ◌-◌, ◌≡◌, Bool, true, false, not, ◌&&◌, ◌||◌, Option, none, some, List, [], ◌∷◌,
  Str, Dict, get, insert, remove, RouteKey, ◌==◌, str_eq, pair_eq, ltb, leb, if◌then◌else◌, length,
  contains_key, Result, ok, err, ◌>>=◌, ◌>>◌, fail_if, ok_or,
}
use chat_x.Protocol.Messages.{EncryptedSnapshot, DeviceServerMessage}
use chat_x.Relay.State.{
  AppState, SnapshotRecord, device_exists, desktop_authorized, device_authorized, snapshot_ttl_ms,
}
use chat_x.Relay.Reply.{
  Refusal, device_not_authorized, snapshot_too_large, sequence_not_increasing, missing_bearer,
  invalid_desktop_credential, invalid_device_credential, Response, failed, no_content,
  snapshot_reply, status_only, bearer,
}

-- `channels.entry(key).or_insert_with(..)`
unfoldable pub channel_at : RouteKey → AppState → Option ℕ → ℕ × AppState
channel_at key s (some channel) = (channel, s)
channel_at key s none = (
  s.next_channel,
  record s {
    device_channels = insert key s.next_channel s.device_channels;
    next_channel = suc s.next_channel;
  },
)

unfoldable pub route_sender : AppState → Str → Str → ℕ × AppState
unfolding channel_at
route_sender s desktop_id device_id =
    channel_at (desktop_id, device_id) s (get (desktop_id, device_id) s.device_channels)

-- A snapshot of the cached session whose sequence number is not above the cached one.
is_replay : EncryptedSnapshot → Option SnapshotRecord → Bool
is_replay snapshot none = false
is_replay snapshot (some previous) =
    (previous.snapshot.session_id == snapshot.session_id)
    && leb snapshot.sequence previous.snapshot.sequence

unfoldable pub check_snapshot : AppState → Str → Str → EncryptedSnapshot → Result Refusal (Unit {0})
unfolding is_replay
check_snapshot s desktop_id device_id snapshot = do
  fail_if (not (device_exists s desktop_id device_id)) device_not_authorized
  fail_if (ltb 64 (length snapshot.nonce) || ltb (96 * 1024) (length snapshot.ciphertext))
      snapshot_too_large
  fail_if (is_replay snapshot (get (desktop_id, device_id) s.snapshots)) sequence_not_increasing

-- `cache_and_route_snapshot` as far as it holds the cache's lock: the checks and the insertion, with the
-- message that is to be sent. Other tasks may run between this and the sending.
unfoldable pub cache_snapshot :
    ℕ → AppState → Str → Str → EncryptedSnapshot → AppState × Result Refusal DeviceServerMessage
cache_snapshot now s desktop_id device_id snapshot =
    let entry : SnapshotRecord = record { received_at = now; snapshot = snapshot } in
    elim (check_snapshot s desktop_id device_id snapshot) [
      | err e ↦ (s, err e)
      | ok _ ↦ (
        record s { snapshots = insert (desktop_id, device_id) entry s.snapshots },
        ok (DeviceServerMessage.snapshot now snapshot),
      )
    ]

-- The rest of it, in the state that other tasks have left: the device's channel, which is made where there
-- is none, and what it is sent.
unfoldable pub route_snapshot :
    AppState → Str → Str → DeviceServerMessage → AppState × (ℕ × DeviceServerMessage)
route_snapshot s desktop_id device_id message =
    let (channel, s') = route_sender s desktop_id device_id in (s', (channel, message))

is_stale : ℕ → Option SnapshotRecord → Bool
is_stale now none = false
is_stale now (some entry) = ltb snapshot_ttl_ms (now - entry.received_at)

unfoldable pub latest_snapshot : ℕ → AppState → Str → Str → AppState × Option SnapshotRecord
unfolding is_stale
latest_snapshot now s desktop_id device_id =
    let key : RouteKey = (desktop_id, device_id) in
    let kept = if is_stale now (get key s.snapshots) then remove key s.snapshots else s.snapshots in
    (record s { snapshots = kept }, get key kept)

-- `POST .../snapshot` as far as the caching, with the response that it gives once an accepted snapshot has
-- been routed by `route_snapshot`.
snapshot_response : Result Refusal DeviceServerMessage → Response
snapshot_response (ok _) = no_content
snapshot_response (err device_not_authorized) = failed 404 device_not_authorized
snapshot_response (err e) = failed 400 e

module _ (digest : Str → Str) where
  unfoldable pub desktop_snapshot_http :
      ℕ → AppState → Str → Str → Option Str → EncryptedSnapshot → AppState × Response
  unfolding snapshot_response
  desktop_snapshot_http now s desktop_id device_id authorization snapshot =
      elim (bearer authorization) [
        | none ↦ (s, failed 401 missing_bearer)
        | some token ↦
            if not (desktop_authorized digest s desktop_id token)
            then (s, failed 401 invalid_desktop_credential)
            else (
              (cache_snapshot now s desktop_id device_id snapshot).0,
              snapshot_response (cache_snapshot now s desktop_id device_id snapshot).1,
            )
      ]

  snapshot_or_status : Bool → ℕ → Option SnapshotRecord → Response
  snapshot_or_status online now (some entry) =
      snapshot_reply online now entry.received_at entry.snapshot
  snapshot_or_status online now none = status_only online now

  -- `GET .../snapshot`.
  unfoldable pub device_snapshot_http : ℕ → AppState → Str → Str → Option Str → AppState × Response
  unfolding snapshot_or_status
  device_snapshot_http now s desktop_id device_id authorization = elim (bearer authorization) [
    | none ↦ (s, failed 401 missing_bearer)
    | some token ↦
        if not (device_authorized digest s desktop_id device_id token)
        then (s, failed 401 invalid_device_credential)
        else (
          (latest_snapshot now s desktop_id device_id).0,
          snapshot_or_status (contains_key desktop_id s.online_desktops) now
              (latest_snapshot now s desktop_id device_id).1,
        )
  ]
