-- ===== src/Relay/Grants.antt =====
-- relay-server/src/registry_routes.rs, `authorize_device` and `revoke_device`, and
-- `revoke_device_record` of main.rs: a desktop's devices. `saved` and `now` as in `Relay.Devices`.
pub mod Access
use chat_x.Prelude.{
  ℕ, Bool, true, false, not, ◌||◌, Option, none, some, List, [], ◌∷◌, Str, Dict, get, insert,
  remove, RouteKey, ◌==◌, str_eq, pair_eq, nat_beq, if◌then◌else◌, length, all, contains_key,
  Result, ok, err, ◌>>=◌, ◌>>◌, fail_if, ok_or,
}
use chat_x.Text.{is_ascii_hexdigit, to_ascii_lowercase}
use chat_x.Relay.Registry.{Registry, DesktopRecord, DeviceRecord}
use chat_x.Relay.State.{AppState, save_registry, desktop_authorized}
use chat_x.Relay.Reply.{
  Refusal, missing_bearer, save_failed, invalid_desktop_credential, invalid_token_hash,
  desktop_not_found, Response, failed, no_content, bearer,
}

-- The devices of a desktop are given anew and the registry is saved; a failed save puts the
-- previous devices back.
abbrev pub set_devices : Str → DesktopRecord → Dict Str DeviceRecord → Registry → Registry
set_devices desktop_id desktop devices r = record r {
  desktops = insert desktop_id (record desktop { devices = devices }) r.desktops;
}

unfoldable pub commit_devices :
    Bool → Str → DesktopRecord → Dict Str DeviceRecord → AppState → AppState
commit_devices saved desktop_id desktop devices s =
    let changed = set_devices desktop_id desktop devices s.registry in
    if saved
    then record (save_registry true changed s) { registry = changed }
    else record s { registry = set_devices desktop_id desktop desktop.devices changed }

abbrev pub commit_response : Bool → Response
commit_response saved = if saved then no_content else failed 500 save_failed

-- The device's snapshot and channel go only once the registry is saved.
unfoldable pub forget_device : Bool → RouteKey → AppState → AppState
forget_device saved key s =
    if saved
    then record s {
      snapshots = remove key s.snapshots;
      device_channels = remove key s.device_channels;
    }
    else s

module _ (digest : Str → Str) where
  -- The bearer must be the desktop's own token.
  unfoldable pub check_desktop : AppState → Str → Option Str → Result Response (Unit {0})
  check_desktop s desktop_id authorization = do
    token ← ok_or (bearer authorization) (failed 401 missing_bearer)
    fail_if (not (desktop_authorized digest s desktop_id token))
        (failed 401 invalid_desktop_credential)

  bad_token_hash : Str → Bool
  bad_token_hash hash = not (nat_beq (length hash) 64) || not (all is_ascii_hexdigit hash)

  unfoldable pub check_authorize : AppState → Str → Option Str → Str → Result Response DesktopRecord
  unfolding bad_token_hash
  check_authorize s desktop_id authorization hash = do
    check_desktop s desktop_id authorization
    fail_if (bad_token_hash hash) (failed 400 invalid_token_hash)
    ok_or (get desktop_id s.registry.desktops) (failed 404 desktop_not_found)

  unfoldable pub authorize_device :
      Bool → ℕ → AppState → Str → Str → Option Str → Str → AppState × Response
  authorize_device saved now s desktop_id device_id authorization hash =
      elim (check_authorize s desktop_id authorization hash) [
        | err response ↦ (s, response)
        | ok desktop ↦
            let device : DeviceRecord = record {
              token_hash = to_ascii_lowercase hash;
              created_at = now;
            } in
            (
              commit_devices saved desktop_id desktop (insert device_id device desktop.devices) s,
              commit_response saved,
            )
      ]

  unfoldable pub check_revoke : AppState → Str → Option Str → Result Response DesktopRecord
  check_revoke s desktop_id authorization = do
    check_desktop s desktop_id authorization
    ok_or (get desktop_id s.registry.desktops) (failed 404 desktop_not_found)

  unfoldable pub revoke_device : Bool → AppState → Str → Str → Option Str → AppState × Response
  revoke_device saved s desktop_id device_id authorization =
      elim (check_revoke s desktop_id authorization) [
        | err response ↦ (s, response)
        | ok desktop ↦ (
          forget_device saved (desktop_id, device_id)
              (commit_devices saved desktop_id desktop (remove device_id desktop.devices) s),
          commit_response saved,
        )
      ]

-- `revoke_device_record`: whether the device was there, or that the save failed.
unfoldable pub revoke_found :
    Bool → AppState → Str → Str → DesktopRecord → AppState × Result Refusal Bool
revoke_found saved s desktop_id device_id desktop =
    if contains_key device_id desktop.devices
    then (
      commit_devices saved desktop_id desktop (remove device_id desktop.devices) s,
      (if saved then ok true else err save_failed),
    )
    else (s, ok false)

unfoldable pub revoke_device_record : Bool → AppState → Str → Str → AppState × Result Refusal Bool
unfolding revoke_found
revoke_device_record saved s desktop_id device_id = elim (get desktop_id s.registry.desktops) [
  | none ↦ (s, ok false)
  | some desktop ↦ revoke_found saved s desktop_id device_id desktop
]
