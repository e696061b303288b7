-- ===== src/Relay/State.antt =====
-- relay-server/src/main.rs: the limits, the shared state `AppState`, and its tests. A map under a lock
-- is a `Dict`; a channel's sender is the number of its channel. What the state's methods do to it is in
-- the modules beside this one.
use chat_x.Prelude.{
  ℕ, Bool, false, not, ◌&&◌, ◌||◌, Option, none, some, List, [], ◌∷◌, Str, Dict, get, RouteKey,
  ControlRouteKey, ◌==◌, str_eq, any, if◌then◌else◌, contains_key, ◌≡◌,
}
use chat_x.Text.{trim}
use chat_x.Protocol.Messages.{
  EncryptedSnapshot, device_capabilities, capability_snapshot, capability_control_refresh,
  capability_control_reconnect, capability_revoke_sync,
}
use chat_x.Relay.Registry.{Registry, DesktopRecord, DeviceRecord, token_hash, hash_matches}

abbrev pub snapshot_ttl_ms : ℕ
snapshot_ttl_ms = 180_000

abbrev pub max_pairing_routes : ℕ
max_pairing_routes = 256

abbrev pub max_pending_controls : ℕ
max_pending_controls = 128

abbrev pub max_pending_revokes : ℕ
max_pending_revokes = 128

abbrev pub control_min_interval_ms : ℕ
control_min_interval_ms = 500

pub record SnapshotRecord : Type 0 where
  pub received_at : ℕ
  pub snapshot : EncryptedSnapshot

pub record PairingRoute : Type 0 where
  pub token_hash : Str
  pub expires_at : ℕ

pub record DesktopRoute : Type 0 where
  pub session_id : Str
  pub sender : ℕ
  pub capabilities : List Str

-- mcp_gateway.rs: `Active`, `Pending` and `Gateway`. `closed` holds the sessions whose close signal
-- was sent, `errored` the requests whose shared flag is set.
pub record Active : Type 0 where
  pub session_id : Str
  pub version : ℕ
  pub credential_hash : Str

pub record Pending : Type 0 where
  pub session_id : Str
  pub bytes : ℕ

pub record Gateway : Type 0 where
  pub desktop_id : Option Str
  pub active : Option Active
  pub pending : Dict Str Pending
  pub closed : List Str
  pub errored : List Str

-- `last_saved` is no field of the source: the registry that was loaded, or that the last `registry::save`
-- which returned `Ok` was given. What the files hold then is in Relay/Registry/Files.
pub record AppState : Type 0 where
  pub registry : Registry
  pub last_saved : Registry
  pub bootstrap_token_hash : Option Str
  pub online_desktops : Dict Str Str
  pub desktop_channels : Dict Str DesktopRoute
  pub device_channels : Dict RouteKey ℕ
  pub snapshots : Dict RouteKey SnapshotRecord
  pub pairing_routes : Dict RouteKey PairingRoute
  pub pairing_connections : Dict Str ℕ
  pub control_connections : Dict ControlRouteKey ℕ
  pub revoke_connections : Dict ControlRouteKey ℕ
  pub control_last_at : Dict RouteKey ℕ
  pub mcp_gateway : Gateway
  pub next_channel : ℕ

-- `bootstrap_token.filter(..).map(..)`
bootstrap_hash : (Str → Str) → Option Str → Option Str
bootstrap_hash digest none = none
bootstrap_hash digest (some value) = elim (trim value) [
  | [] ↦ none
  | c ∷ rest ↦ some (token_hash digest (c ∷ rest))
]

-- `AppState::load` from a registry that was read.
unfoldable pub load : (Str → Str) → Registry → Option Str → Option Str → AppState
unfolding bootstrap_hash
load digest registry bootstrap_token gateway_desktop = record {
  registry = registry;
  last_saved = registry;
  bootstrap_token_hash = bootstrap_hash digest bootstrap_token;
  online_desktops = [];
  desktop_channels = [];
  device_channels = [];
  snapshots = [];
  pairing_routes = [];
  pairing_connections = [];
  control_connections = [];
  revoke_connections = [];
  control_last_at = [];
  mcp_gateway = record {
    desktop_id = gateway_desktop;
    active = none;
    pending = [];
    closed = [];
    errored = [];
  };
  next_channel = 0;
}

-- `save_registry`: `saved` says whether `registry::save` returned `Ok`.
abbrev pub save_registry : Bool → Registry → AppState → AppState
save_registry saved r s = if saved then record s { last_saved = r } else s

module _ (digest : Str → Str) where
  unfoldable pub matches_desktop : Str → Option DesktopRecord → Bool
  matches_desktop token none = false
  matches_desktop token (some desktop) = hash_matches digest token desktop.token_hash

  unfoldable pub desktop_authorized : AppState → Str → Str → Bool
  unfolding matches_desktop
  desktop_authorized s desktop_id token = matches_desktop token (get desktop_id s.registry.desktops)

  unfoldable pub matches_device : Str → Option DeviceRecord → Bool
  matches_device token none = false
  matches_device token (some device) = hash_matches digest token device.token_hash

  unfoldable pub find_device : Str → Option DesktopRecord → Option DeviceRecord
  find_device device_id none = none
  find_device device_id (some desktop) = get device_id desktop.devices

  unfoldable pub device_authorized : AppState → Str → Str → Str → Bool
  unfolding matches_device find_device
  device_authorized s desktop_id device_id token =
      matches_device token (find_device device_id (get desktop_id s.registry.desktops))

unfoldable pub has_device : Str → Option DesktopRecord → Bool
has_device device_id none = false
has_device device_id (some desktop) = contains_key device_id desktop.devices

unfoldable pub device_exists : AppState → Str → Str → Bool
unfolding has_device
device_exists s desktop_id device_id = has_device device_id (get desktop_id s.registry.desktops)

-- `values.iter().any(|value| value == capability)`
abbrev pub includes : Str → List Str → Bool
includes capability = any (λ value. value == capability)

unfoldable pub routed_loop : List Str → List Str → List Str
routed_loop offered [] = []
routed_loop offered (capability ∷ more) =
    let rest = routed_loop offered more in
    if not (capability == capability_snapshot) && includes capability offered
    then capability ∷ rest
    else rest

unfoldable pub routed_device_capabilities : Option DesktopRoute → List Str
unfolding routed_loop
routed_device_capabilities none = capability_snapshot ∷ []
routed_device_capabilities (some route) =
    capability_snapshot ∷ routed_loop route.capabilities device_capabilities

unfoldable pub route_supports_control : DesktopRoute → Bool
route_supports_control route =
    any (λ c. c == capability_control_refresh || c == capability_control_reconnect)
      route.capabilities

unfoldable pub route_supports_revoke : DesktopRoute → Bool
route_supports_revoke route = any (λ c. c == capability_revoke_sync) route.capabilities

-- What only the registration, a desktop's connection, a pairing or the gateway may change: the registry
-- in memory and the one saved last, who is online and on which channel, the pairing routes and the gateway.
abbrev pub SameRegistration : AppState → AppState → Type 0
SameRegistration s t =
    (t.registry ≡ s.registry)
    × (t.last_saved ≡ s.last_saved)
    × (t.online_desktops ≡ s.online_desktops)
    × (t.desktop_channels ≡ s.desktop_channels)
    × (t.pairing_routes ≡ s.pairing_routes)
    × (t.mcp_gateway ≡ s.mcp_gateway)
