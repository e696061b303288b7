-- ===== src/Relay/Grants/Access.antt =====
-- The device tokens that the relay accepts after a grant or a revocation of Relay.Grants.
use chat_x.Prelude.{
  ℕ, ◌≡◌, true, false, ◌&&◌, Option, some, Str, get, insert, remove, str_eq, str_beq_iff, ◌==◌,
  arith, get-insert, get-remove, if◌then◌else◌, ok,
}
use chat_x.Text.{to_ascii_lowercase}
use chat_x.Relay.Registry.{DesktopRecord, DeviceRecord, hash_matches}
use chat_x.Relay.State.{AppState, device_authorized, matches_device, find_device}
use chat_x.Relay.Grants.{
  authorize_device, revoke_device, check_authorize, check_revoke, check_desktop, commit_devices,
  forget_device,
}

module _ (digest : Str → Str) where
  check_authorize-found :
      (s : AppState) (desktop_id : Str) (authorization : Option Str) (hash : Str)
      (desktop : DesktopRecord)
      → check_authorize digest s desktop_id authorization hash ≡ ok desktop
      → get desktop_id s.registry.desktops ≡ some desktop
  unfolding check_authorize check_desktop
  check_authorize-found s desktop_id authorization hash desktop e = ground (arith, e)

  check_revoke-found :
      (s : AppState) (desktop_id : Str) (authorization : Option Str) (desktop : DesktopRecord)
      → check_revoke digest s desktop_id authorization ≡ ok desktop
      → get desktop_id s.registry.desktops ≡ some desktop
  unfolding check_revoke check_desktop
  check_revoke-found s desktop_id authorization desktop e = ground (arith, e)

  -- A device that is granted is accepted exactly with the token of the given hash; every other device of
  -- every desktop is accepted as before.
  pub authorize_device-device_authorized :
      (now : ℕ) (s : AppState) (desktop_id device_id : Str) (authorization : Option Str)
      (hash other other_device token : Str) (desktop : DesktopRecord)
      → check_authorize digest s desktop_id authorization hash ≡ ok desktop
      → device_authorized digest
          (authorize_device digest true now s desktop_id device_id authorization hash).0
          other
          other_device
          token
        ≡ (if (desktop_id == other) && (device_id == other_device)
            then hash_matches digest token (to_ascii_lowercase hash)
            else device_authorized digest s other other_device token)
  unfolding authorize_device commit_devices device_authorized matches_device find_device
  authorize_device-device_authorized now s desktop_id device_id authorization hash other
        other_device token desktop e =
      let device : DeviceRecord = record {
        token_hash = to_ascii_lowercase hash;
        created_at = now;
      } in
      let devices = insert device_id device desktop.devices in
      let set =
        get-insert desktop_id other (record desktop { devices = devices }) s.registry.desktops in
      ground (
        arith,
        e,
        set,
        check_authorize-found s desktop_id authorization hash desktop e,
        get-insert device_id other_device device desktop.devices,
        str_beq_iff desktop_id other,
      )

  -- A device that is revoked is accepted with no token; every other device is accepted as before.
  pub revoke_device-device_authorized :
      (s : AppState) (desktop_id device_id : Str) (authorization : Option Str)
      (other other_device token : Str) (desktop : DesktopRecord)
      → check_revoke digest s desktop_id authorization ≡ ok desktop
      → device_authorized digest
          (revoke_device digest true s desktop_id device_id authorization).0
          other
          other_device
          token
        ≡ (if (desktop_id == other) && (device_id == other_device)
            then false
            else device_authorized digest s other other_device token)
  unfolding revoke_device commit_devices forget_device device_authorized matches_device find_device
  revoke_device-device_authorized s desktop_id device_id authorization other other_device token
        desktop e =
      let devices = remove device_id desktop.devices in
      let set =
        get-insert desktop_id other (record desktop { devices = devices }) s.registry.desktops in
      ground (
        arith,
        e,
        set,
        check_revoke-found s desktop_id authorization desktop e,
        get-remove device_id other_device desktop.devices,
        str_beq_iff desktop_id other,
      )
