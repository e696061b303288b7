-- ===== src/Tests/Fixtures.antt =====
-- Test data: a desktop and a phone, their tokens and codes, and a relay's state. The digest is the
-- identity, so that a token's hash is its hexadecimal text.
use chat_x.Prelude.{ℕ, true, Option, some, [], ◌∷◌, ◌++◌, Str, codes}
use chat_x.Protocol.Registration.{RegistrationInvite}
use chat_x.Relay.Platform.{Platform}
use chat_x.Relay.Registry.{Registry, DesktopRecord, DeviceRecord, empty}
use chat_x.Protocol.Messages.{device_capabilities}
use chat_x.Relay.State.{AppState, load, Active, Gateway}
use chat_x.Relay.Presence.{open_session}
use chat_x.Relay.Gateway.Packets.{Packet}
use chat_x.Relay.Gateway.Requests.{PublicCall, post}
use chat_x.Relay.Devices.{RegisterCall}

abbrev pub digest : Str → Str
digest s = s

abbrev pub desktop_id : Str
desktop_id = codes "d_0123456789abcdef"

abbrev pub other_desktop : Str
other_desktop = codes "d_fedcba9876543210"

abbrev pub device_id : Str
device_id = codes "phone"

abbrev pub nonce : Str
nonce = codes "00112233445566778899aabbccddeeff"

-- Its hash.
abbrev pub nonce_hash : Str
nonce_hash = codes "3030313132323333343435353636373738383939616162626363646465656666"

abbrev pub signature : Str
signature = codes "00112233445566778899aabbccddeeff00112233445566778899aabbccddeeff"

abbrev pub code : Str
code = codes "cxr1.7b7d." ++ signature

abbrev pub bearer_of : Str → Option Str
bearer_of token = some (codes "Bearer " ++ token)

abbrev pub invite : RegistrationInvite
invite = record { base_url = codes "https://relay.example"; expires_at = 400_000; nonce = nonce }

abbrev pub platform : Platform
platform = record {
  digest = digest;
  hmac_verify = λ key message raw. true;
  invite_from_json = λ text. some invite;
}

abbrev pub call_of : Str → Str → Str → ℕ → RegisterCall
call_of id token random now = record {
  authorization = bearer_of token;
  payload = record {
    desktop_id = id;
    device_name = codes "desk";
    app_version = codes "1";
    platform = codes "linux";
  };
  checked_at = now;
  pruned_at = now;
  created_at = now;
  random = some random;
  saved = true;
}

abbrev pub fresh_relay : AppState
fresh_relay = load digest empty (some (codes "t")) (some desktop_id)

-- A desktop with the token `k` and a phone with the token `m`.
abbrev pub phone_record : DeviceRecord
phone_record = record { token_hash = codes "6d"; created_at = 5 }

abbrev pub desktop_record : DesktopRecord
desktop_record = record {
  token_hash = codes "6b";
  device_name = codes "desk";
  app_version = codes "1";
  platform = codes "linux";
  created_at = 4;
  devices = (device_id, phone_record) ∷ [];
}

abbrev pub registry : Registry
registry = record { desktops = (desktop_id, desktop_record) ∷ []; used_registration_invites = [] }

abbrev pub relay : AppState
relay = load digest registry (some (codes "t")) (some desktop_id)

-- The desktop is connected and takes control requests and revocations.
abbrev pub online : AppState
online = (open_session desktop_id (codes "s1") device_capabilities relay).0

abbrev pub request_id : Str
request_id = codes "00112233445566778899aabbccddeeff"

abbrev pub active : Active
active = record { session_id = codes "g1"; version = 1; credential_hash = codes "6b" }

-- A gateway with one session, to which one request was sent.
abbrev pub gateway : Gateway
gateway = record {
  desktop_id = some desktop_id;
  active = some active;
  pending = (request_id, record { session_id = codes "g1"; bytes = 0 }) ∷ [];
  closed = [];
  errored = [];
}

abbrev pub serving : AppState
serving = record relay { mcp_gateway = gateway }

abbrev pub packet_of : Str → Option ℕ → Option Str → Packet
packet_of kind status encoded = record {
  request_id = some request_id;
  kind = some kind;
  status = status;
  headers = (codes "content-type", some (codes "text/plain")) ∷ [];
  encoded = encoded;
}

abbrev pub public_call : PublicCall
public_call = record {
  path = codes "/mcp";
  uri = codes "/mcp";
  method = post;
  headers = (codes "accept", some (codes "*/*")) ∷ [];
  content_length = some 2;
  body = some (codes "{}");
  random = some (codes "ffeeddccbbaa99887766554433221100");
}
