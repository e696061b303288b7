-- ===== src/Protocol/Messages.antt =====
-- relay-protocol/src/lib.rs: the messages of the four websockets and the encrypted payloads, which
-- the relay never opens.
use chat_x.Prelude.{ℕ, Bool, List, [], ◌∷◌, Str, codes}

abbrev pub protocol_version : ℕ
protocol_version = 1

abbrev pub capability_snapshot : Str
capability_snapshot = codes "snapshot"

abbrev pub capability_control_refresh : Str
capability_control_refresh = codes "control.refresh_snapshot"

abbrev pub capability_control_reconnect : Str
capability_control_reconnect = codes "control.reconnect_tunnel"

abbrev pub capability_revoke_sync : Str
capability_revoke_sync = codes "revoke.sync"

unfoldable pub device_capabilities : List Str
device_capabilities =
    capability_snapshot ∷ capability_control_refresh ∷ capability_control_reconnect
    ∷ capability_revoke_sync ∷ []

pub record DesktopRegisterRequest : Type 0 where
  pub desktop_id : Str
  pub device_name : Str
  pub app_version : Str
  pub platform : Str

pub record DesktopRegisterResponse : Type 0 where
  pub desktop_id : Str
  pub desktop_token : Str

pub record DeviceAuthorizeRequest : Type 0 where
  pub token_hash : Str

pub record EncryptedSnapshot : Type 0 where
  pub session_id : Str
  pub sequence : ℕ
  pub generated_at : ℕ
  pub nonce : Str
  pub ciphertext : Str

pub record EncryptedPairingPayload : Type 0 where
  pub nonce : Str
  pub ciphertext : Str

pub record EncryptedControlPayload : Type 0 where
  pub request_id : Str
  pub issued_at : ℕ
  pub expires_at : ℕ
  pub nonce : Str
  pub ciphertext : Str

pub record PairingRouteOpenRequest : Type 0 where
  pub token_hash : Str
  pub expires_at : ℕ

-- Fields in the source's order.
pub data DesktopWsMessage : Type 0 where
  hello : ℕ → Str → Str → Str → List Str → DesktopWsMessage
  ping : ℕ → DesktopWsMessage
  snapshot : Str → EncryptedSnapshot → DesktopWsMessage
  pairing_response : Str → Str → EncryptedPairingPayload → DesktopWsMessage
  pairing_error : Str → Str → Str → DesktopWsMessage
  control_response : Str → EncryptedControlPayload → DesktopWsMessage
  control_error : Str → Str → Str → DesktopWsMessage
  revoke_result : Str → Str → DesktopWsMessage
  revoke_error : Str → Str → Str → DesktopWsMessage

pub data DesktopServerMessage : Type 0 where
  hello_ack : Str → ℕ → List Str → DesktopServerMessage
  pong : ℕ → DesktopServerMessage
  pairing_request : Str → Str → EncryptedPairingPayload → DesktopServerMessage
  device_revoked : Str → DesktopServerMessage
  device_revoke : Str → Str → DesktopServerMessage
  device_control : Str → EncryptedControlPayload → DesktopServerMessage
  error : Str → DesktopServerMessage

pub data DeviceWsMessage : Type 0 where
  hello : ℕ → Str → Str → DeviceWsMessage
  ping : ℕ → DeviceWsMessage
  revoke_self : DeviceWsMessage
  control : EncryptedControlPayload → DeviceWsMessage

pub data DeviceServerMessage : Type 0 where
  hello_ack : Str → ℕ → Bool → List Str → DeviceServerMessage
  pong : ℕ → DeviceServerMessage
  desktop_presence : Bool → ℕ → DeviceServerMessage
  snapshot : ℕ → EncryptedSnapshot → DeviceServerMessage
  revoked : Str → DeviceServerMessage
  control_result : EncryptedControlPayload → DeviceServerMessage
  error : Str → DeviceServerMessage

pub data PairingWsMessage : Type 0 where
  pair : Str → EncryptedPairingPayload → PairingWsMessage

pub data PairingServerMessage : Type 0 where
  pair_result : Str → EncryptedPairingPayload → PairingServerMessage
  error : Str → PairingServerMessage
