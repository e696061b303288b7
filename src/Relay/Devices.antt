-- ===== src/Relay/Devices.antt =====
-- relay-server/src/registry_routes.rs: registration of desktops, authorization and revocation of
-- devices, and `revoke_device_record` of main.rs. The state is handed on with the response. An
-- argument `saved` says whether writing the registry succeeds; times are what `now_ms` returns.
use chat_x.Prelude.{
  ℕ, Bool, true, not, ◌&&◌, ◌||◌, Option, none, some, [], Str, codes, Dict, get, insert, remove,
  retain, str_eq, pair_eq, ltb, leb, if◌then◌else◌, length, drop, all, contains_key, Result, ok,
  err, ◌>>=◌, ◌>>◌, fail_if, ok_or, map_err, saturating_add,
}
use chat_x.Text.{trim, starts_with, is_ascii_hexdigit, take_chars}
use chat_x.Protocol.Messages.{DesktopRegisterRequest}
use chat_x.Protocol.Registration.{parse_code, max_invite_lifetime_ms}
use chat_x.Relay.Platform.{Platform}
use chat_x.Relay.Registry.{Registry, DesktopRecord, DeviceRecord, token_hash, hash_matches}
use chat_x.Relay.State.{AppState, save_registry}
use chat_x.Relay.Reply.{
  Refusal, registration_disabled, missing_bearer, invalid_code, code_expired, invalid_desktop_id,
  random_failed, code_already_used, save_failed, Response, failed, registered, bearer,
}
use chat_x.Relay.Gateway.{revoke_desktop}

unfoldable pub created_or : ℕ → Option DesktopRecord → ℕ
created_or now none = now
created_or now (some existing) = existing.created_at

unfoldable pub devices_of : Option DesktopRecord → Dict Str DeviceRecord
devices_of none = []
devices_of (some existing) = existing.devices

module _ (p : Platform) where
  -- `none` is the administrator's own token; `some` the hash of a one-time code's nonce, and when the
  -- code expires.
  unfoldable pub registration_invite : Str → Str → ℕ → Result Refusal (Option (Str × ℕ))
  registration_invite token expected now =
      if hash_matches p.digest token expected then ok none else (do
        parsed ← map_err (λ _. invalid_code) (parse_code p.invite_from_json token)
        fail_if (not (p.hmac_verify expected parsed.1 parsed.2)) invalid_code
        let invite = parsed.0
        fail_if
            (leb invite.expires_at now
              || ltb (saturating_add now max_invite_lifetime_ms) invite.expires_at)
            code_expired
        ok (some (token_hash p.digest invite.nonce, invite.expires_at)))

  unfoldable pub desktop_registration_record :
      ℕ → Option DesktopRecord → Str → DesktopRegisterRequest → DesktopRecord
  desktop_registration_record now existing desktop_token payload = record {
    token_hash = token_hash p.digest desktop_token;
    device_name = take_chars 128 payload.device_name;
    app_version = take_chars 64 payload.app_version;
    platform = take_chars 64 payload.platform;
    created_at = created_or now existing;
    devices = devices_of existing;
  }

-- The test of an id in `register_desktop`, the same as `valid_desktop_id` of mcp_gateway.rs.
unfoldable pub valid_desktop_id : Str → Bool
valid_desktop_id id =
    starts_with (codes "d_") id
    && (leb 18 (length id) && (leb (length id) 80 && all is_ascii_hexdigit (drop 2 id)))

pub record RegisterCall : Type 0 where
  pub authorization : Option Str
  pub payload : DesktopRegisterRequest
  pub checked_at : ℕ
  pub pruned_at : ℕ
  pub created_at : ℕ
  pub random : Option Str
  pub saved : Bool

module _ (p : Platform) where
  -- What the handler does before it locks the registry: the invitation, the id and the new token.
  unfoldable pub check_registration :
      AppState → RegisterCall → Result Response (Option (Str × ℕ) × Str × Str)
  check_registration s call = do
    expected ← ok_or s.bootstrap_token_hash (failed 503 registration_disabled)
    token ← ok_or (bearer call.authorization) (failed 401 missing_bearer)
    invite ← map_err (failed 401) (registration_invite p token expected call.checked_at)
    let desktop_id = trim call.payload.desktop_id
    fail_if (not (valid_desktop_id desktop_id)) (failed 400 invalid_desktop_id)
    desktop_token ← ok_or call.random (failed 500 random_failed)
    ok (invite, desktop_id, desktop_token)

  -- The one-time code is looked up, expired codes are dropped, and it is remembered.
  unfoldable pub use_invite : ℕ → Option (Str × ℕ) → Dict Str ℕ → Option (Dict Str ℕ)
  use_invite now none used = some used
  use_invite now (some (id, expires_at)) used =
      if contains_key id used
      then none
      else some (insert id expires_at (retain (λ _ expiry. ltb now expiry) used))

  restore_desktop : Str → Option DesktopRecord → Dict Str DesktopRecord → Dict Str DesktopRecord
  restore_desktop id none desktops = remove id desktops
  restore_desktop id (some previous) desktops = insert id previous desktops

  -- Under the lock, and then the revocation of the desktop's websocket.
  unfoldable pub commit_registration :
      AppState → RegisterCall → Option (Str × ℕ) → Str → Str → AppState × Response
  unfolding restore_desktop
  commit_registration s call invite desktop_id desktop_token =
      elim (use_invite call.pruned_at invite s.registry.used_registration_invites) [
        | none ↦ (s, failed 401 code_already_used)
        | some used ↦
            let previous = get desktop_id s.registry.desktops in
            let replacement =
              desktop_registration_record p call.created_at previous desktop_token call.payload in
            let registry : Registry = record {
              desktops = insert desktop_id replacement s.registry.desktops;
              used_registration_invites = used;
            } in
            if call.saved
            then (
              record (save_registry true registry s) {
                registry = registry;
                mcp_gateway = revoke_desktop desktop_id s.mcp_gateway;
              },
              registered desktop_id desktop_token,
            )
            else (
              record s {
                registry = record {
                  desktops = restore_desktop desktop_id previous registry.desktops;
                  used_registration_invites = s.registry.used_registration_invites;
                };
              },
              failed 500 save_failed,
            )
      ]

  unfoldable pub register_desktop : AppState → RegisterCall → AppState × Response
  register_desktop s call = elim (check_registration s call) [
    | err response ↦ (s, response)
    | ok (invite, desktop_id, desktop_token) ↦
        commit_registration s call invite desktop_id desktop_token
  ]
